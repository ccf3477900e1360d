-- ===== src/Tests/Store.antt =====
-- The conditional write of entries at concrete entries.
use go_build_cache.Prelude.{String, ◌≡◌, refl, arith, str_eq, if◌then◌else◌}
use go_build_cache.Prelude.Exec.{ok, err}
use go_build_cache.Prelude.Int64.{lt64}
use go_build_cache.Prelude.Maps.{get, put, string_eq}
use go_build_cache.Errors.{cas_failed}
use go_build_cache.Store.{MemoryStore, entry_map_key}
use go_build_cache.Store.Entries.{put_entry, put_entry_at, get_entry}
use go_build_cache.Store.Entries.Swap.{
  Matches, stored, no_nul, put_entry_lem, put_entry-once, entry_map_key-injective,
}
use go_build_cache.Tests.{entry_of, app, two_entries}

put_entry_lem_example :
    (Matches 3 (get_entry "default" "app" two_entries)
      → (m1 : MemoryStore) × (put_entry (entry_of "app" 4 41 9) 3 two_entries ≡ ok m1)
        × ((ns key : String)
            → get_entry ns key m1 ≡ (
                if str_eq (entry_map_key "default" "app") (entry_map_key ns key)
                then ok (entry_of "app" 4 41 9)
                else get_entry ns key two_entries)))
    × ((¬ Matches 3 (get_entry "default" "app" two_entries))
        → put_entry (entry_of "app" 4 41 9) 3 two_entries ≡ err cas_failed)
put_entry_lem_example = put_entry_lem (entry_of "app" 4 41 9) 3 two_entries

first_write :
    put_entry (entry_of "app" 4 41 9) 3 two_entries
    ≡ ok (stored (entry_of "app" 4 41 9) two_entries)
unfolding put_entry put_entry_at get put entry_map_key lt64
first_write = refl

put_entry-once_example :
    put_entry (entry_of "app" 4 50 9) 3 (stored (entry_of "app" 4 41 9) two_entries)
    ≡ err cas_failed
put_entry-once_example =
    put_entry-once (entry_of "app" 4 41 9) (entry_of "app" 4 50 9) 3 two_entries
      (stored (entry_of "app" 4 41 9) two_entries) first_write refl refl (λ e. omega arith)

entry_map_key-injective_example : (app.namespace ≡ app.namespace) × (app.key ≡ app.key)
unfolding no_nul
entry_map_key-injective_example =
    entry_map_key-injective app.namespace app.key app.namespace app.key refl refl refl
