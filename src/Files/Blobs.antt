-- ===== src/Files/Blobs.antt =====
-- file_store.go: content-addressed blobs. The hash is a parameter, as it is for the uploads.
use Prim.Native.String.{◌++◌}
use go_build_cache.Prelude.{
  ℕ, String, not, Option, none, some, List, [], ◌∷◌, if◌then◌else◌, length, sort_by,
}
use go_build_cache.Prelude.Exec.{Result, ok, err, Exec, Done}
use go_build_cache.Prelude.Maps.{get}
use go_build_cache.Prelude.Text.{str_lt}
use go_build_cache.Digest.{Digest, valid, equal, parse_digest, to_string}
use go_build_cache.Errors.{Error, blob_not_found, digest_mismatch, plain}
use go_build_cache.Store.{Bytes, BlobInfo}
use go_build_cache.Cache.Sessions.Upload.{hash_bytes}
use go_build_cache.Files.Paths.{FilePath, join}
use go_build_cache.Files.System.{same_path, path_eq, FileMap, Attempt}
use go_build_cache.Files.Metadata.{FileStore, read_file, remove_file, write_file}

-- `d.Hex[:2]`, which panics for a shorter text
unfoldable pub first_two : String → Option String
first_two (String.◌∷◌ a (String.◌∷◌ b s)) = some (String.◌∷◌ a (String.◌∷◌ b ""))
first_two s = none

abbrev pub panic : Error
panic = plain "runtime error: slice bounds out of range"

unfoldable pub blob_path : FilePath → Digest → Result Error FilePath
unfolding first_two
blob_path root d = elim (first_two d.hex) [
  | none ↦ err panic
  | some prefix ↦ ok (join root ("blobs" ∷ d.algo ∷ prefix ∷ d.hex ∷ []))
]

abbrev pub write_if_absent : Attempt → Bytes → Result Error FilePath → Exec Error FileStore Done
write_if_absent a bytes (err e) s = (err e, s)
write_if_absent a bytes (ok path) s = elim (get path s.files) [
  | some old ↦ (ok tt, s)
  | none ↦ write_file a path bytes s
]

abbrev pub checked_write :
    Attempt → Digest → Bytes → Result Error Digest → Exec Error FileStore Done
checked_write a d bytes (err e) s = (err e, s)
checked_write a d bytes (ok got) s =
    if not (equal got d)
    then (err (digest_mismatch "put_blob" "" d got), s)
    else write_if_absent a bytes (blob_path s.root d) s

-- PutBlob
unfoldable pub put_blob_file :
    (Bytes → String) → Attempt → Digest → Bytes → Exec Error FileStore Done
unfolding hash_bytes blob_path
put_blob_file sha256 a d bytes s =
    if not (valid d)
    then (err (plain "buildcache: invalid blob digest"), s)
    else checked_write a d bytes (hash_bytes sha256 d.algo bytes) s

-- GetBlob
unfoldable pub get_blob_file : Digest → FileStore → Result Error Bytes
unfolding blob_path
get_blob_file d s = elim (blob_path s.root d) [
  | err e ↦ err e
  | ok path ↦ read_file path blob_not_found s
]

-- BlobSize
unfoldable pub blob_file_size : Digest → FileStore → Result Error ℕ
unfolding get_blob_file
blob_file_size d s = elim (get_blob_file d s) [ err e ↦ err e | ok bytes ↦ ok (length bytes) ]

-- DeleteBlob
unfoldable pub delete_blob_file : Digest → FileStore → Result Error FileStore
unfolding blob_path
delete_blob_file d s = elim (blob_path s.root d) [
  | err e ↦ err e
  | ok path ↦ ok (remove_file path s)
]

-- What the walk over the blobs makes of one file: only algo/ab/hex counts, and only with a digest that
-- parses.
unfoldable pub blob_found : FilePath → FilePath → Bytes → Option BlobInfo
blob_found dir (name ∷ prefix ∷ algo ∷ p) bytes =
    if same_path p dir
    then (elim (parse_digest (algo ++ ":" ++ name)) [
      | err e ↦ none
      | ok d ↦ some (record { digest = d; size = length bytes })
    ])
    else none
blob_found dir path bytes = none

abbrev pub onto_found : Option BlobInfo → List BlobInfo → List BlobInfo
onto_found none rest = rest
onto_found (some info) rest = info ∷ rest

unfoldable pub blobs_below : FilePath → FileMap → List BlobInfo
unfolding blob_found
blobs_below dir [] = []
blobs_below dir ((path, bytes) ∷ files) =
    onto_found (blob_found dir path bytes) (blobs_below dir files)

-- ListBlobs
unfoldable pub list_blob_files : FileStore → List BlobInfo
list_blob_files s =
    sort_by (λ a b. str_lt (to_string a.digest) (to_string b.digest))
      (blobs_below (join s.root ("blobs" ∷ [])) s.files)
