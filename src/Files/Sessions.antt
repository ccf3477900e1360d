-- ===== src/Files/Sessions.antt =====
-- file_store.go: upload sessions and namespaces.
use Prim.Native.String.{◌++◌}
use go_build_cache.Prelude.{String, List, [], ◌∷◌, map, str_eq, if◌then◌else◌, sort_by}
use go_build_cache.Prelude.Exec.{Result, Exec, Done}
use go_build_cache.Prelude.Text.{str_lt}
use go_build_cache.Model.{Session, Namespace, default_namespace}
use go_build_cache.Errors.{Error, session_not_found, not_found}
use go_build_cache.Files.Paths.{FilePath, join, json_suffix}
use go_build_cache.Files.System.{Attempt}
use go_build_cache.Files.Metadata.{
  Codec, FileStore, remove_file, load, save, load_dir, mapped, record_path,
}

-- The identifier stands unescaped.
unfoldable pub session_path : FilePath → String → FilePath
unfolding join
session_path root id = join root ("sessions" ∷ (id ++ json_suffix) ∷ [])

-- `if sess.Namespace == "" { sess.Namespace = DefaultNamespace }`
abbrev pub session_with_default : Session → Session
session_with_default s =
    if str_eq s.namespace "" then record s { namespace = default_namespace } else s

module _ (c : Codec Session) where
  unfoldable pub save_session_file : Attempt → Session → Exec Error FileStore Done
  save_session_file a sess s = save c a (session_path s.root sess.id) sess s

  unfoldable pub get_session_file : String → FileStore → Result Error Session
  get_session_file id s =
      mapped session_with_default (load c (session_path s.root id) session_not_found s)

  unfoldable pub list_session_files : FileStore → Result Error (List Session)
  list_session_files s =
      mapped (sort_by (λ a b. str_lt a.id b.id))
        (mapped (map session_with_default) (load_dir c (join s.root ("sessions" ∷ [])) s.files))

unfoldable pub delete_session_file : String → FileStore → FileStore
delete_session_file id s = remove_file (session_path s.root id) s

unfoldable pub namespace_path : FilePath → String → FilePath
namespace_path = record_path "namespaces"

module _ (c : Codec Namespace) where
  unfoldable pub save_namespace_file : Attempt → Namespace → Exec Error FileStore Done
  save_namespace_file a ns s = save c a (namespace_path s.root ns.name) ns s

  unfoldable pub get_namespace_file : String → FileStore → Result Error Namespace
  get_namespace_file id s = load c (namespace_path s.root id) not_found s

  unfoldable pub list_namespace_files : FileStore → Result Error (List Namespace)
  list_namespace_files s =
      mapped (sort_by (λ a b. str_lt a.name b.name))
        (load_dir c (join s.root ("namespaces" ∷ [])) s.files)

unfoldable pub delete_namespace_file : String → FileStore → FileStore
delete_namespace_file id s = remove_file (namespace_path s.root id) s
