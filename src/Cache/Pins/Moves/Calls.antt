-- ===== src/Cache/Pins/Moves/Calls.antt =====
-- Any pin call makes one move at every key.
use go_build_cache.Prelude.{String}
use go_build_cache.Prelude.Maps.{string_eq}
use go_build_cache.Store.Invariant.{IsKeyed}
use go_build_cache.Cache.{Cache, next_reading}
use go_build_cache.Cache.Pins.Moves.{
  Move, PinCall, pins, renews, unpins, sweeps, is_pin, run_call, lease_at,
}
use go_build_cache.Cache.Pins.Moves.Leases.{pin-Move, renew_pin-Move, unpin-Move}
use go_build_cache.Cache.Pins.Moves.Sweep.{sweep_expired_pins-Move}

-- Whatever the call and its outcome, the lease of every key makes one move.
pub run_call-Move :
    (call : PinCall) (c : Cache) (k : String)
    → IsKeyed c.store
    → Move (is_pin call) (next_reading c) (lease_at k c) (lease_at k (run_call call c))
unfolding run_call
run_call-Move (pins opts) c k v = pin-Move opts c k
run_call-Move (renews opts) c k v = renew_pin-Move c k v opts
run_call-Move (unpins opts) c k v = unpin-Move c k v opts
run_call-Move sweeps c k v = sweep_expired_pins-Move c k v
