-- ===== src/Tests/Pins.antt =====
-- Pin leases at concrete calls.
use go_build_cache.Prelude.{◌≡◌, ◌≤◌, ◌+◌, refl, none, some, arith, [], ◌∷◌, false, List}
use go_build_cache.Prelude.Exec.{ok, err}
use go_build_cache.Prelude.Int64.{le64}
use go_build_cache.Prelude.Maps.{get, put, string_eq}
use go_build_cache.Digest.{no_digest, valid}
use go_build_cache.Model.{Pin, pin_released, active}
use go_build_cache.Errors.{pin_conflict, deadline_in_past}
use go_build_cache.Store.{MemoryStore, entry_map_key, new_memory_store}
use go_build_cache.Store.Entries.{get_entry}
use go_build_cache.Store.Invariant.{IsKeyed, IsKeyed-new, save_pin-IsKeyed}
use go_build_cache.Store.Pins.{save_pin, get_pin}
use go_build_cache.Cache.{tick, next_reading, norm_namespace}
use go_build_cache.Cache.Pins.Requests.{pin_ttl, lookup_pin_request, record_pin_request}
use go_build_cache.Cache.Pins.Create.{PinOptions, pin, pin_deadline, requested_deadline, pin_entry}
use go_build_cache.Cache.Pins.Sweep.{sweep_expired_pins, sweep_expired_pins_locked}
use go_build_cache.Cache.Pins.Leases.{
  RenewPinOptions, UnpinOptions, renew_pin, change_lease, extended,
}
use go_build_cache.Cache.Pins.Moves.{Move, PinCall, renews, unpins, sweeps, run_call, lease_at}
use go_build_cache.Cache.Pins.Moves.Calls.{run_call-Move}
use go_build_cache.Cache.Pins.History.{run_calls, version_of, run_calls-version, run_calls-ended}
use go_build_cache.Cache.Pins.Outcomes.{pin_of}
use go_build_cache.Cache.Pins.Replay.{pin_replayed, renew_pin_replayed}
use go_build_cache.Tests.{entry_of, two_entries, cache_on}

abbrev pin_app : PinOptions
pin_app = record {
  namespace = "";
  key = "app";
  expected_digest = no_digest;
  deadline = 50;
  ttl = 0;
  expected_version = none;
  request_id = "r1";
}

abbrev renew_app : RenewPinOptions
renew_app = record {
  namespace = "";
  key = "app";
  extend = 20;
  expected_version = none;
  request_id = "r2";
}

abbrev unpin_app : UnpinOptions
unpin_app = record { namespace = ""; key = "app"; expected_version = none; request_id = "" }

abbrev lease : Pin
lease = pin_of "default" "app" 1 (entry_of "app" 3 40 7) 50 10

abbrev leased : MemoryStore
leased = save_pin lease new_memory_store

leased-IsKeyed : IsKeyed leased
leased-IsKeyed = save_pin-IsKeyed new_memory_store IsKeyed-new lease

-- The lease is there.
lease_at-leased : lease_at (entry_map_key "default" "app") (cache_on leased) ≡ some lease
unfolding save_pin get put entry_map_key
lease_at-leased = refl

abbrev calls : List PinCall
calls = renews renew_app ∷ unpins unpin_app ∷ sweeps ∷ []

run_call-Move_example :
    Move false 10
      (lease_at (entry_map_key "default" "app") (cache_on leased))
      (lease_at (entry_map_key "default" "app") (run_call (renews renew_app) (cache_on leased)))
run_call-Move_example =
    run_call-Move (renews renew_app) (cache_on leased) (entry_map_key "default" "app")
      leased-IsKeyed

run_calls-version_example :
    (version_of (lease_at (entry_map_key "default" "app") (cache_on leased))
      ≤ version_of (lease_at (entry_map_key "default" "app") (run_calls calls (cache_on leased))))
    × (version_of (lease_at (entry_map_key "default" "app") (run_calls calls (cache_on leased)))
        ≤ version_of (lease_at (entry_map_key "default" "app") (cache_on leased)) + 3)
run_calls-version_example =
    run_calls-version calls (cache_on leased) (entry_map_key "default" "app") leased-IsKeyed
      (rw lease_at-leased (omega arith))

-- Another lease, which has been released.
abbrev old_lease : Pin
old_lease = record lease { status = pin_released }

abbrev left : MemoryStore
left = save_pin old_lease new_memory_store

lease_at-left : lease_at (entry_map_key "default" "app") (cache_on left) ≡ some old_lease
unfolding save_pin get put entry_map_key
lease_at-left = refl

run_calls-ended_example :
    lease_at (entry_map_key "default" "app") (run_calls calls (cache_on left)) ≡ some old_lease
run_calls-ended_example =
    run_calls-ended calls (cache_on left) (entry_map_key "default" "app") old_lease
      (save_pin-IsKeyed new_memory_store IsKeyed-new old_lease) (refl, (refl, (refl, tt)))
      lease_at-left (λ e. cc e)

-- The first call under its number succeeds.
pin_first : (pin pin_app (cache_on two_entries)).0 ≡ ok lease
unfolding pin pin_deadline requested_deadline lookup_pin_request pin_entry get_entry get_pin
    record_pin_request valid norm_namespace get put entry_map_key
pin_first = refl

later_deadline :
    pin_deadline pin_app
      (next_reading (run_calls (sweeps ∷ []) (pin pin_app (cache_on two_entries)).1))
    ≡ ok 50
unfolding run_calls run_call sweep_expired_pins sweep_expired_pins_locked pin pin_deadline
    requested_deadline lookup_pin_request pin_entry get_entry get_pin record_pin_request valid
    norm_namespace get put entry_map_key
later_deadline = refl

pin_replayed_example :
    pin pin_app (run_calls (sweeps ∷ []) (pin pin_app (cache_on two_entries)).1)
    ≡ (ok lease, tick (run_calls (sweeps ∷ []) (pin pin_app (cache_on two_entries)).1))
pin_replayed_example =
    pin_replayed pin_app (cache_on two_entries) lease (sweeps ∷ []) 50 (λ e. cc e) pin_first
      later_deadline

renew_first : (renew_pin renew_app (cache_on leased)).0 ≡ ok (extended 20 10 lease)
unfolding renew_pin change_lease lookup_pin_request get_pin record_pin_request norm_namespace get
    put entry_map_key save_pin pin_ttl active le64
renew_first = refl

renew_pin_replayed_example :
    renew_pin renew_app (run_calls calls (renew_pin renew_app (cache_on leased)).1)
    ≡ (ok (extended 20 10 lease), tick (run_calls calls (renew_pin renew_app (cache_on leased)).1))
renew_pin_replayed_example =
    renew_pin_replayed renew_app (cache_on leased) (extended 20 10 lease) calls (λ e. cc e)
      renew_first

-- Once the deadline of a Pin call has come, the repetition of the call is refused.
pin_refused_late :
    (pin pin_app (record (pin pin_app (cache_on two_entries)).1 { reads = 60 })).0
    ≡ err (pin_conflict "default" "app" deadline_in_past 50)
unfolding pin pin_deadline requested_deadline norm_namespace lookup_pin_request get pin_entry
    get_entry put entry_map_key valid get_pin record_pin_request
pin_refused_late = refl
