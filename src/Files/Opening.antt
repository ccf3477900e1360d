-- ===== src/Files/Opening.antt =====
-- file_store.go: NewFileStore, and the migration of the entries of an older layout.
use go_build_cache.Prelude.{String, Option, none, some, List, [], ◌∷◌, if◌then◌else◌, sort_by}
use go_build_cache.Prelude.Exec.{Result, ok, err, Exec, Done, pure, ◌>>=◌, ◌>>◌}
use go_build_cache.Prelude.Maps.{get, put, delete}
use go_build_cache.Prelude.Text.{str_lt}
use go_build_cache.Model.{Entry}
use go_build_cache.Errors.{Error, plain}
use go_build_cache.Store.{Bytes}
use go_build_cache.Files.Paths.{FilePath, join}
use go_build_cache.Files.System.{path_eq, FileMap, Attempt}
use go_build_cache.Files.Metadata.{Codec, FileStore, load, is_json_in}
use go_build_cache.Files.Entries.{with_default, unconditional, put_entry_file}
use go_build_cache.Files.Audit.{audit_path}

abbrev pub no_such_file : Error
no_such_file = plain "no such file or directory"

abbrev pub base : FilePath → String
base [] = ""
base (name ∷ p) = name

unfoldable pub json_files_in : FilePath → FileMap → List FilePath
unfolding is_json_in
json_files_in dir [] = []
json_files_in dir ((path, bytes) ∷ files) =
    let rest = json_files_in dir files in if is_json_in dir path then path ∷ rest else rest

-- os.Remove, where a missing file is an error
unfoldable pub remove_existing : FilePath → Exec Error FileStore Done
remove_existing path s = elim (get path s.files) [
  | none ↦ (err no_such_file, s)
  | some bytes ↦ (ok tt, record s { files = delete path s.files })
]

module _ (c : Codec Entry) (attempts : FilePath → Attempt) where
  -- One round of the loop: the entry is written at its path, then the old file is removed.
  unfoldable pub migrate_file : FilePath → Exec Error FileStore Done
  unfolding remove_existing
  migrate_file old = (λ s. (load c old no_such_file s, s)) >>= (λ e.
      put_entry_file c (attempts old) (with_default e) unconditional >> remove_existing old)

  unfoldable pub migrate_all : List FilePath → Exec Error FileStore Done
  unfolding migrate_file
  migrate_all [] = pure tt
  migrate_all (old ∷ paths) = migrate_file old >> migrate_all paths

  -- migrateLegacyEntries
  unfoldable pub migrate_legacy_entries : Exec Error FileStore Done
  unfolding migrate_all json_files_in
  migrate_legacy_entries s =
      migrate_all
        (sort_by (λ p q. str_lt (base p) (base q))
          (json_files_in (join s.root ("entries" ∷ [])) s.files))
        s

  abbrev pub with_audit_log : FilePath → Option Bytes → FileMap → FileMap
  with_audit_log root (some bytes) files = files
  with_audit_log root none files = put (audit_path root) [] files

  -- NewFileStore
  unfoldable pub new_file_store : FilePath → FileMap → Result Error Done × FileStore
  unfolding migrate_legacy_entries
  new_file_store root files =
      migrate_legacy_entries
        (record { root = root; files = with_audit_log root (get (audit_path root) files) files })
