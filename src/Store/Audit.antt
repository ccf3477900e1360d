-- ===== src/Store/Audit.antt =====
-- memory_store.go: the audit log.
use go_build_cache.Prelude.{List, [], ◌∷◌, ◌++◌}
use go_build_cache.Model.{GcRecord}
use go_build_cache.Store.{MemoryStore}

unfoldable pub append_audit : GcRecord → MemoryStore → MemoryStore
append_audit rec m = record m { audit = m.audit ++ rec ∷ [] }

unfoldable pub list_audit : MemoryStore → List GcRecord
list_audit m = m.audit
