-- ===== src/Store/Entries.antt =====
-- memory_store.go: published entries, written under a version condition.
pub mod Swap
use go_build_cache.Prelude.{
  ℕ, Bool, not, ◌||◌, Option, none, some, List, ◌==◌, str_eq, if◌then◌else◌, sort_by, String,
}
use go_build_cache.Prelude.Exec.{Result, ok, err}
use go_build_cache.Prelude.Int64.{lt64}
use go_build_cache.Prelude.Maps.{get, put, delete, values, string_eq}
use go_build_cache.Prelude.Text.{str_lt}
use go_build_cache.Model.{Entry}
use go_build_cache.Errors.{Error, cas_failed, entry_not_found}
use go_build_cache.Store.{MemoryStore, or_fail, entry_map_key}

-- `want` is the pattern of an int64; a negative one asks that the key be absent.
unfoldable pub put_entry_at :
    String → Entry → ℕ → Option Entry → MemoryStore → Result Error MemoryStore
put_entry_at k e want none m =
    if not (lt64 want 0) then err cas_failed else ok (record m { entries = put k e m.entries })
put_entry_at k e want (some existing) m =
    if lt64 want 0 || not (existing.version == want)
    then err cas_failed
    else ok (record m { entries = put k e m.entries })

unfoldable pub put_entry : Entry → ℕ → MemoryStore → Result Error MemoryStore
unfolding put_entry_at
put_entry e want m =
    let k = entry_map_key e.namespace e.key in put_entry_at k e want (get k m.entries) m

unfoldable pub get_entry : String → String → MemoryStore → Result Error Entry
get_entry namespace key m = or_fail (get (entry_map_key namespace key) m.entries) entry_not_found

unfoldable pub delete_entry : String → String → MemoryStore → MemoryStore
delete_entry namespace key m = record m { entries = delete (entry_map_key namespace key) m.entries }

unfoldable pub entry_before : Entry → Entry → Bool
entry_before a b =
    if not (str_eq a.namespace b.namespace)
    then str_lt a.namespace b.namespace
    else str_lt a.key b.key

unfoldable pub list_entries : MemoryStore → List Entry
list_entries m = sort_by entry_before (values m.entries)
