-- ===== src/Store/Pins.antt =====
-- memory_store.go: pin leases and the request numbers of pin calls.
use go_build_cache.Prelude.{Bool, not, List, str_eq, if◌then◌else◌, sort_by, String}
use go_build_cache.Prelude.Exec.{Result}
use go_build_cache.Prelude.Maps.{get, put, delete, values, string_eq}
use go_build_cache.Prelude.Text.{str_lt}
use go_build_cache.Model.{Pin, PinRequest}
use go_build_cache.Errors.{Error, not_found}
use go_build_cache.Store.{MemoryStore, or_fail, entry_map_key}

unfoldable pub save_pin : Pin → MemoryStore → MemoryStore
save_pin p m = record m { pins = put (entry_map_key p.namespace p.key) p m.pins }

unfoldable pub get_pin : String → String → MemoryStore → Result Error Pin
get_pin namespace key m = or_fail (get (entry_map_key namespace key) m.pins) not_found

unfoldable pub delete_pin : String → String → MemoryStore → MemoryStore
delete_pin namespace key m = record m { pins = delete (entry_map_key namespace key) m.pins }

unfoldable pub pin_before : Pin → Pin → Bool
pin_before a b =
    if not (str_eq a.namespace b.namespace)
    then str_lt a.namespace b.namespace
    else str_lt a.key b.key

unfoldable pub list_pins : MemoryStore → List Pin
list_pins m = sort_by pin_before (values m.pins)

unfoldable pub save_pin_request : PinRequest → MemoryStore → MemoryStore
save_pin_request rec m = record m { pin_reqs = put rec.request_id rec m.pin_reqs }

unfoldable pub get_pin_request : String → MemoryStore → Result Error PinRequest
get_pin_request id m = or_fail (get id m.pin_reqs) not_found

unfoldable pub delete_pin_request : String → MemoryStore → MemoryStore
delete_pin_request id m = record m { pin_reqs = delete id m.pin_reqs }

unfoldable pub list_pin_requests : MemoryStore → List PinRequest
list_pin_requests m = sort_by (λ a b. str_lt a.request_id b.request_id) (values m.pin_reqs)
