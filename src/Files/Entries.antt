-- ===== src/Files/Entries.antt =====
-- file_store.go: published entries, a file for each.
pub mod Identity
pub mod Agreement
pub mod Runs
use go_build_cache.Prelude.{
  ℕ, String, Bool, not, ◌&&◌, ◌||◌, List, [], ◌∷◌, ◌==◌, str_eq, if◌then◌else◌, sort_by,
}
use go_build_cache.Prelude.Exec.{Result, ok, err, Exec, Done}
use go_build_cache.Prelude.Int64.{lt64}
use go_build_cache.Model.{Entry, default_namespace}
use go_build_cache.Errors.{Error, cas_failed, entry_not_found}
use go_build_cache.Store.Entries.{entry_before}
use go_build_cache.Files.Paths.{entry_path, join}
use go_build_cache.Files.System.{Attempt}
use go_build_cache.Files.Metadata.{Codec, FileStore, remove_file, load, save, load_below, mapped}

-- `if e.Namespace == "" { e.Namespace = DefaultNamespace }`
abbrev pub with_default : Entry → Entry
with_default e = if str_eq e.namespace "" then record e { namespace = default_namespace } else e

-- -2 as an int64, which writes without a condition
abbrev pub unconditional : ℕ
unconditional = 18446744073709551614

-- The switch of PutEntry over what readEntry returned.
unfoldable pub entry_guard : ℕ → Result Error Entry → Result Error Done
entry_guard want (ok existing) =
    if not (want == unconditional) && (lt64 want 0 || not (existing.version == want))
    then err cas_failed
    else ok tt
entry_guard want (err entry_not_found) = if not (lt64 want 0) then err cas_failed else ok tt
entry_guard want (err e) = err e

module _ (c : Codec Entry) where
  -- readEntry, and so GetEntry
  unfoldable pub read_entry_file : String → String → FileStore → Result Error Entry
  read_entry_file namespace key s =
      mapped with_default (load c (entry_path s.root namespace key) entry_not_found s)

  abbrev pub guarded_save : Result Error Done → Attempt → Entry → Exec Error FileStore Done
  guarded_save (err x) a e s = (err x, s)
  guarded_save (ok tt) a e s = save c a (entry_path s.root e.namespace e.key) e s

  unfoldable pub put_entry_file : Attempt → Entry → ℕ → Exec Error FileStore Done
  unfolding entry_guard read_entry_file
  put_entry_file a e want s =
      guarded_save (entry_guard want (read_entry_file e.namespace e.key s)) a e s

  unfoldable pub list_entry_files : FileStore → List Entry
  list_entry_files s =
      sort_by entry_before (with_defaults (load_below c (join s.root ("entries" ∷ [])) s.files))
    where
      with_defaults : List Entry → List Entry
      with_defaults [] = []
      with_defaults (e ∷ es) = with_default e ∷ with_defaults es

unfoldable pub delete_entry_file : String → String → FileStore → FileStore
delete_entry_file namespace key s = remove_file (entry_path s.root namespace key) s
