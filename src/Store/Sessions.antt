-- ===== src/Store/Sessions.antt =====
-- memory_store.go: upload sessions and namespaces.
use go_build_cache.Prelude.{List, sort_by, String}
use go_build_cache.Prelude.Exec.{Result}
use go_build_cache.Prelude.Maps.{get, put, delete, values, string_eq}
use go_build_cache.Prelude.Text.{str_lt}
use go_build_cache.Model.{Session, Namespace}
use go_build_cache.Errors.{Error, not_found, session_not_found}
use go_build_cache.Store.{MemoryStore, or_fail}

unfoldable pub save_session : Session → MemoryStore → MemoryStore
save_session s m = record m { sessions = put s.id s m.sessions }

unfoldable pub get_session : String → MemoryStore → Result Error Session
get_session id m = or_fail (get id m.sessions) session_not_found

unfoldable pub delete_session : String → MemoryStore → MemoryStore
delete_session id m = record m { sessions = delete id m.sessions }

unfoldable pub list_sessions : MemoryStore → List Session
list_sessions m = sort_by (λ a b. str_lt a.id b.id) (values m.sessions)

unfoldable pub save_namespace : Namespace → MemoryStore → MemoryStore
save_namespace ns m = record m { namespaces = put ns.name ns m.namespaces }

unfoldable pub get_namespace : String → MemoryStore → Result Error Namespace
get_namespace name m = or_fail (get name m.namespaces) not_found

unfoldable pub list_namespaces : MemoryStore → List Namespace
list_namespaces m = sort_by (λ a b. str_lt a.name b.name) (values m.namespaces)

unfoldable pub delete_namespace : String → MemoryStore → MemoryStore
delete_namespace name m = record m { namespaces = delete name m.namespaces }
