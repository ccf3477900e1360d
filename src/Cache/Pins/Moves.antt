-- ===== src/Cache/Pins/Moves.antt =====
-- The life of a lease: what any pin call may do to the lease of any key.
pub mod Leases
pub mod Sweep
pub mod Calls
use go_build_cache.Prelude.{
  ℕ, suc, ◌+◌, ◌<◌, ◌≤◌, ◌%◌, String, ◌≡◌, refl, ap, subst, ◌∙◌, sym, Bool, true, false, Option,
  none, some, arith, eq_iff, ltb, ◌==◌, str_eq, if◌then◌else◌, inl, inr, Bool-cases, Option-cases,
  List, [], ◌∷◌, In, In-sort_by, Empty,
}
use go_build_cache.Prelude.Exec.{Result, ok, err, Result-cases}
use go_build_cache.Prelude.Int64.{add64, two64}
use go_build_cache.Prelude.Maps.{values, Map, get, put, get-put, string_eq, In-values}
use go_build_cache.Model.{
  action_pin, action_renew, action_unpin, Time, after, Pin, Entry, pin_active, pin_released,
  pin_expired, active, is_pin_active,
}
use go_build_cache.Errors.{Error, pin_not_active, pin_version_conflict, not_found}
use go_build_cache.Store.{MemoryStore, entry_map_key, or_fail}
use go_build_cache.Store.Audit.{append_audit}
use go_build_cache.Store.Invariant.{IsKeyed}
use go_build_cache.Store.Pins.{get_pin, save_pin, save_pin_request, list_pins}
use go_build_cache.Cache.{Cache, M, next_reading, norm_namespace, tick}
use go_build_cache.Cache.Pins.Requests.{pin_ttl, lookup_pin_request, record_pin_request}
use go_build_cache.Cache.Pins.Create.{PinOptions, pin, pin_deadline, version_above}
use go_build_cache.Cache.Pins.Leases.{
  RenewPinOptions, UnpinOptions, extended, released, renew_pin, unpin, change_lease,
  lease_condition, renew_fingerprint, unpin_fingerprint,
}
use go_build_cache.Cache.Pins.Sweep.{
  sweep_pins, sweep_expired_pins, sweep_expired_pins_locked, is_overdue, expire, sweep_record,
}
use go_build_cache.Cache.Pins.Outcomes.{
  change_lease_cases, pin_cases, pins-save_and_record, pin_of, pin_fp,
}

-- What may happen to the lease of one key at the time `now`. A version only ever grows by one, and a
-- lease that has ended is only followed by a new one.
pub data Move (may_pin : Bool) (now : Time) (old new : Option Pin) : Type 0 where
  kept : new ≡ old → Move may_pin now old new
  created :
      (p : Pin)
      → may_pin ≡ true
      → old ≡ none
      → new ≡ some p
      → p.version ≡ 1
      → active p now ≡ true
      → Move may_pin now old new
  repinned :
      (p q : Pin)
      → may_pin ≡ true
      → old ≡ some p
      → new ≡ some q
      → q.version ≡ add64 p.version 1
      → active q now ≡ true
      → Move may_pin now old new
  renewed :
      (p q : Pin)
      → old ≡ some p
      → new ≡ some q
      → q.version ≡ add64 p.version 1
      → active p now ≡ true
      → q.status ≡ pin_active
      → p.deadline ≤ q.deadline
      → Move may_pin now old new
  unpinned :
      (p q : Pin)
      → old ≡ some p
      → new ≡ some q
      → q.version ≡ add64 p.version 1
      → active p now ≡ true
      → q.status ≡ pin_released
      → Move may_pin now old new
  expired :
      (p q : Pin)
      → old ≡ some p
      → new ≡ some q
      → q.version ≡ add64 p.version 1
      → p.status ≡ pin_active
      → p.deadline ≤ now
      → q.status ≡ pin_expired
      → Move may_pin now old new

pub data PinCall : Type 0 where
  pins : PinOptions → PinCall
  renews : RenewPinOptions → PinCall
  unpins : UnpinOptions → PinCall
  sweeps : PinCall

abbrev pub is_pin : PinCall → Bool
is_pin (pins opts) = true
is_pin (renews opts) = false
is_pin (unpins opts) = false
is_pin sweeps = false

-- The state after a call.
unfoldable pub run_call : PinCall → Cache → Cache
run_call (pins opts) c = (pin opts c).1
run_call (renews opts) c = (renew_pin opts c).1
run_call (unpins opts) c = (unpin opts c).1
run_call sweeps c = (sweep_expired_pins c).1

abbrev pub lease_at : String → Cache → Option Pin
lease_at k c = get k c.store.pins

-- The effect of one write on every key.
pub at_put :
    (may_pin : Bool) (now : Time) (k j : String) (p : Pin) (m m' : Map String Pin)
    → m' ≡ put k p m
    → Move may_pin now (get k m) (some p)
    → Move may_pin now (get j m) (get j m')
at_put may_pin now k j p m m' e mv = rw e (
    rw (get-put k j p m) (elim (Bool-cases (str_eq k j)) [
      | inl same ↦
          rw same
            (subst (λ (i : String). Move may_pin now (get i m) (some p)) ((eq_iff k j).0 same) mv)
      | inr other ↦ rw other (kept refl)
    ]))
