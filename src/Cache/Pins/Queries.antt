-- ===== src/Cache/Pins/Queries.antt =====
-- cache.go: GetPin and ListPins.
use go_build_cache.Prelude.{String, Bool, not, ◌&&◌, ◌||◌, List, str_eq, keep}
use go_build_cache.Prelude.Exec.{Result, ok, err, pure, ◌>>=◌}
use go_build_cache.Model.{Time, Pin, active}
use go_build_cache.Errors.{Error, not_found, pin_not_found}
use go_build_cache.Store.Pins
use go_build_cache.Cache.{M, clock_now, query, look, norm_namespace}

abbrev pin_or_missing : String → String → Result Error Pin → Result Error Pin
pin_or_missing namespace key (ok p) = ok p
pin_or_missing namespace key (err not_found) = err (pin_not_found namespace key)
pin_or_missing namespace key (err e) = err e

-- Cache.GetPin
unfoldable pub get_pin : String → String → M Pin
get_pin namespace key =
    let ns = norm_namespace namespace in query λ m. pin_or_missing ns key (Pins.get_pin ns key m)

abbrev is_wanted : String → Bool → Time → Pin → Bool
is_wanted namespace active_only now p =
    (str_eq namespace "" || str_eq p.namespace namespace) && (not active_only || active p now)

-- Cache.ListPins
unfoldable pub list_pins : String → Bool → M (List Pin)
list_pins namespace active_only = do
  now ← clock_now
  pins ← look Pins.list_pins
  pure (keep (is_wanted namespace active_only now) pins)
