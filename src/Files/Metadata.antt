-- ===== src/Files/Metadata.antt =====
-- file_store.go: what the operations on metadata share. encoding/json is a parameter, a codec for each
-- type that is stored.
use Prim.Native.String
use go_build_cache.Prelude.{String, Bool, false, ◌&&◌, ◌||◌, List, [], ◌∷◌, str_eq, if◌then◌else◌}
use go_build_cache.Prelude.Exec.{Result, ok, err, Exec, Done}
use go_build_cache.Prelude.Maps.{get, delete}
use go_build_cache.Errors.{Error}
use go_build_cache.Store.{Bytes, or_fail}
use go_build_cache.Files.Paths.{FilePath, escape_key, join, json_suffix}
use go_build_cache.Files.System.{same_path, path_eq, FileMap, Attempt, write_atomic}

-- json.MarshalIndent and json.Unmarshal at one type.
pub record Codec (A : Type 0) : Type 0 where
  pub encode : A → Result Error Bytes
  pub decode : Bytes → Result Error A

pub record FileStore : Type 0 where
  pub root : FilePath
  pub files : FileMap

-- s.writeAtomic
unfoldable pub write_file : Attempt → FilePath → Bytes → Exec Error FileStore Done
write_file a path bytes s =
    let written = write_atomic a path bytes s.files in (written.0, record s { files = written.1 })

-- os.ReadFile, where the missing file is the error `missing`
abbrev pub read_file : FilePath → Error → FileStore → Result Error Bytes
read_file path missing s = or_fail (get path s.files) missing

-- os.Remove, where a missing file is no error
abbrev pub remove_file : FilePath → FileStore → FileStore
remove_file path s = record s { files = delete path s.files }

unfoldable pub has_suffix : String → String → Bool
has_suffix String.[] suffix = str_eq String.[] suffix
has_suffix (String.◌∷◌ c s) suffix = str_eq (String.◌∷◌ c s) suffix || has_suffix s suffix

-- A file of a directory, as os.ReadDir lists it, and a file anywhere below one, as filepath.WalkDir
-- finds it; both with the suffix `.json`.
unfoldable pub is_json_in : FilePath → FilePath → Bool
unfolding has_suffix
is_json_in dir [] = false
is_json_in dir (name ∷ p) = same_path p dir && has_suffix name json_suffix

unfoldable pub is_below : FilePath → FilePath → Bool
is_below dir [] = false
is_below dir (name ∷ p) = same_path p dir || is_below dir p

unfoldable pub is_json_below : FilePath → FilePath → Bool
unfolding is_below has_suffix
is_json_below dir [] = false
is_json_below dir (name ∷ p) = is_below dir (name ∷ p) && has_suffix name json_suffix

module _ {A : Type 0} (c : Codec A) where
  abbrev pub decoded : Result Error Bytes → Result Error A
  decoded (err e) = err e
  decoded (ok bytes) = c.decode bytes

  -- Every Get: read, then json.Unmarshal.
  unfoldable pub load : FilePath → Error → FileStore → Result Error A
  load path missing s = decoded (read_file path missing s)

  abbrev pub encoded_to : Result Error Bytes → Attempt → FilePath → Exec Error FileStore Done
  encoded_to (err e) a path s = (err e, s)
  encoded_to (ok bytes) a path s = write_file a path bytes s

  -- Every Save: json.MarshalIndent, then writeAtomic.
  unfoldable pub save : Attempt → FilePath → A → Exec Error FileStore Done
  save a path x = encoded_to (c.encode x) a path

  abbrev pub onto_list : Result Error A → Result Error (List A) → Result Error (List A)
  onto_list (err e) rest = err e
  onto_list (ok x) (err e) = err e
  onto_list (ok x) (ok xs) = ok (x ∷ xs)

  abbrev pub onto_decoded : Result Error A → List A → List A
  onto_decoded (err e) rest = rest
  onto_decoded (ok x) rest = x ∷ rest

  -- The loop over os.ReadDir, which gives up at a file that does not parse. The files come in the order
  -- of the map: every caller sorts.
  unfoldable pub load_dir : FilePath → FileMap → Result Error (List A)
  load_dir dir [] = ok []
  load_dir dir ((path, bytes) ∷ files) =
      let rest = load_dir dir files in
      if is_json_in dir path then onto_list (c.decode bytes) rest else rest

  -- The walk of filepath.WalkDir, which skips a file that does not parse.
  unfoldable pub load_below : FilePath → FileMap → List A
  load_below dir [] = []
  load_below dir ((path, bytes) ∷ files) =
      let rest = load_below dir files in
      if is_json_below dir path then onto_decoded (c.decode bytes) rest else rest

abbrev pub mapped {ℓ} : {A B : Type ℓ} {E : Type ℓ} → (A → B) → Result E A → Result E B
mapped f (ok a) = ok (f a)
mapped f (err e) = err e

-- root/<folder>/<escaped id>.json
unfoldable pub record_path : String → FilePath → String → FilePath
unfolding join escape_key
record_path folder root id =
    join root (folder ∷ Prim.Native.String.◌++◌ (escape_key id) json_suffix ∷ [])
