-- ===== src/Store/Decisions.antt =====
-- memory_store.go: eviction decisions.
use go_build_cache.Prelude.{List, sort_by, String}
use go_build_cache.Prelude.Exec.{Result}
use go_build_cache.Prelude.Maps.{get, put, delete, values, string_eq}
use go_build_cache.Prelude.Text.{str_lt}
use go_build_cache.Model.{EvictionDecision}
use go_build_cache.Errors.{Error, not_found}
use go_build_cache.Store.{MemoryStore, or_fail}

unfoldable pub save_decision : EvictionDecision → MemoryStore → MemoryStore
save_decision d m = record m { decisions = put d.id d m.decisions }

unfoldable pub get_decision : String → MemoryStore → Result Error EvictionDecision
get_decision id m = or_fail (get id m.decisions) not_found

unfoldable pub list_decisions : MemoryStore → List EvictionDecision
list_decisions m = sort_by (λ a b. str_lt a.id b.id) (values m.decisions)

unfoldable pub delete_decision : String → MemoryStore → MemoryStore
delete_decision id m = record m { decisions = delete id m.decisions }
