-- ===== src/Cache/Pins/History.antt =====
-- What histories of pin calls keep.
use go_build_cache.Prelude.{
  ℕ, ◌+◌, ◌<◌, ◌≤◌, String, ◌≡◌, ◌≢◌, subst, ◌∙◌, Bool, true, false, Option, none, some, arith,
  str_eq, inl, inr, Bool-cases, List, [], ◌∷◌, length,
}
use go_build_cache.Prelude.Int64.{add64, two64}
use go_build_cache.Prelude.Maps.{string_eq}
use go_build_cache.Model.{Time, Pin, pin_active, active, action_pin, action_renew, action_unpin}
use go_build_cache.Store.{MemoryStore}
use go_build_cache.Store.Invariant.{
  IsKeyed, save_pin-IsKeyed, append_audit-IsKeyed, save_pin_request-IsKeyed,
}
use go_build_cache.Store.Pins.{save_pin, list_pins}
use go_build_cache.Cache.{Cache, next_reading, norm_namespace, tick}
use go_build_cache.Cache.Pins.Requests.{record_pin_request, pin_ttl}
use go_build_cache.Cache.Pins.Leases.{
  renew_pin, unpin, change_lease, save_and_record, renew_fingerprint, unpin_fingerprint, extended,
  released,
}
use go_build_cache.Cache.Pins.Sweep.{
  sweep_pins, sweep_expired_pins, sweep_expired_pins_locked, is_overdue, expire, sweep_record,
}
use go_build_cache.Cache.Pins.Outcomes.{change_lease_cases, pin_cases, pin_of, pin_fp}
use go_build_cache.Cache.Pins.Moves.{
  Move, kept, created, repinned, renewed, unpinned, expired, PinCall, pins, renews, unpins, sweeps,
  is_pin, run_call, lease_at,
}
use go_build_cache.Cache.Pins.Moves.Calls.{run_call-Move}

save_and_record-IsKeyed :
    (request_id action ns key fp : String) (now : Time) (p : Pin) (c : Cache)
    → IsKeyed c.store
    → IsKeyed (save_and_record request_id action ns key fp now p c).1.store
unfolding record_pin_request
save_and_record-IsKeyed request_id action ns key fp now p c v =
    let w = save_pin-IsKeyed c.store v p in
    elim (Bool-cases (str_eq request_id "")) [
      | inl e ↦ rw e w
      | inr e ↦ rw e (save_pin_request-IsKeyed (save_pin p c.store) w _)
    ]

change_lease-IsKeyed :
    (request_id action ns key fp : String) (expected : Option ℕ) (change : Time → Pin → Pin)
    (c : Cache)
    → IsKeyed c.store
    → IsKeyed (change_lease request_id action ns key fp expected change c).1.store
change_lease-IsKeyed request_id action ns key fp expected change c v =
    change_lease_cases request_id action ns key fp expected change c (λ r. IsKeyed r.1.store)
      (λ r _. v)
      (λ p l g h.
        save_and_record-IsKeyed request_id action ns key fp (next_reading c)
          (change (next_reading c) p) (tick c) v)

sweep_pins-IsKeyed :
    (now : Time) (gen : ℕ) (ps : List Pin) (m : MemoryStore)
    → IsKeyed m
    → IsKeyed (sweep_pins now gen ps m).1
unfolding sweep_pins
sweep_pins-IsKeyed now gen [] m v = v
sweep_pins-IsKeyed now gen (p ∷ ps) m v = elim (Bool-cases (is_overdue now p)) [
  | inl o ↦
      let w = save_pin-IsKeyed m v (expire now p) in
      rw o (
        sweep_pins-IsKeyed now gen ps _ (
          append_audit-IsKeyed (save_pin (expire now p) m) w (sweep_record now gen (expire now p))))
  | inr n ↦ rw n (sweep_pins-IsKeyed now gen ps m v)
]

-- Every pin call keeps the store well formed.
pub run_call-IsKeyed :
    (call : PinCall) (c : Cache) → IsKeyed c.store → IsKeyed (run_call call c).store
unfolding run_call renew_pin unpin sweep_expired_pins sweep_expired_pins_locked
run_call-IsKeyed (pins opts) c v =
    pin_cases opts c (λ r. IsKeyed r.1.store) (λ r _. v)
      λ d version entry pd l g b pc va.
        save_and_record-IsKeyed opts.request_id action_pin (norm_namespace opts.namespace) opts.key
          (pin_fp opts c) (next_reading c)
          (pin_of (norm_namespace opts.namespace) opts.key version entry d (next_reading c))
          (tick c) v
run_call-IsKeyed (renews opts) c v =
    change_lease-IsKeyed opts.request_id action_renew (norm_namespace opts.namespace) opts.key
      (renew_fingerprint opts) opts.expected_version (extended (pin_ttl opts.extend)) c v
run_call-IsKeyed (unpins opts) c v =
    change_lease-IsKeyed opts.request_id action_unpin (norm_namespace opts.namespace) opts.key
      (unpin_fingerprint opts) opts.expected_version released c v
run_call-IsKeyed sweeps c v = sweep_pins-IsKeyed (next_reading c) 0 (list_pins c.store) c.store v

unfoldable pub run_calls : List PinCall → Cache → Cache
run_calls [] c = c
run_calls (call ∷ calls) c = run_calls calls (run_call call c)

-- 0 where there is no lease
abbrev pub version_of : Option Pin → ℕ
version_of none = 0
version_of (some p) = p.version

next_version :
    (p q : Pin) (old new : Option Pin)
    → old ≡ some p
    → new ≡ some q
    → q.version ≡ add64 p.version 1
    → version_of old + 1 < two64
    → (version_of old ≤ version_of new) × (version_of new ≤ version_of old + 1)
unfolding add64
next_version p q old new e f v h = ground arith

Move-version :
    {b : Bool} {now : Time} (old new : Option Pin)
    → Move b now old new
    → version_of old + 1 < two64
    → (version_of old ≤ version_of new) × (version_of new ≤ version_of old + 1)
Move-version old new (kept e) h = rw e (omega arith, omega arith)
Move-version old new (created p b e f v a) h = rw (e, f, v) (omega arith, omega arith)
Move-version old new (repinned p q b e f v a) h = next_version p q old new e f v h
Move-version old new (renewed p q e f v a s d) h = next_version p q old new e f v h
Move-version old new (unpinned p q e f v a s) h = next_version p q old new e f v h
Move-version old new (expired p q e f v a s t) h = next_version p q old new e f v h

-- Along any calls, succeeding or not, the version of a key's lease never falls, and grows by at most
-- one for each call, as long as that many steps do not pass 2 ^ 64.
pub run_calls-version :
    (calls : List PinCall) (c : Cache) (k : String)
    → IsKeyed c.store
    → version_of (lease_at k c) + length calls < two64
    → (version_of (lease_at k c) ≤ version_of (lease_at k (run_calls calls c)))
      × (version_of (lease_at k (run_calls calls c)) ≤ version_of (lease_at k c) + length calls)
unfolding run_calls
run_calls-version [] c k v h = (omega arith, omega arith)
run_calls-version (call ∷ calls) c k v h =
    let (lo, hi) =
      Move-version (lease_at k c) (lease_at k (run_call call c)) (run_call-Move call c k v)
        (omega arith) in
    let (lo', hi') =
      run_calls-version calls (run_call call c) k (run_call-IsKeyed call c v) (omega arith) in
    (omega arith, omega arith)

-- No call but Pin in the list.
abbrev pub NoPin : List PinCall → Type 0
NoPin [] = Unit {0}
NoPin (call ∷ calls) = (is_pin call ≡ false) × NoPin calls

active-status : (p : Pin) (now : Time) → active p now ≡ true → p.status ≡ pin_active
unfolding active
active-status p now h = ground arith

active_same :
    (p q : Pin) (old : Option Pin)
    → old ≡ some p
    → old ≡ some q
    → q.status ≡ pin_active
    → p.status ≡ pin_active
active_same p q old e f s = ground arith

Move-ended :
    (now : Time) (old new : Option Pin) (p : Pin)
    → Move false now old new
    → old ≡ some p
    → p.status ≢ pin_active
    → new ≡ some p
Move-ended now old new p (kept e) o n = e ∙ o
Move-ended now old new p (created q b e f v a) o n = cc
Move-ended now old new p (repinned q r b e f v a) o n = cc
Move-ended now old new p (renewed q r e f v a s d) o n =
    absurd (n (active_same p q old o e (active-status q now a)))
Move-ended now old new p (unpinned q r e f v a s) o n =
    absurd (n (active_same p q old o e (active-status q now a)))
Move-ended now old new p (expired q r e f v a s t) o n = absurd (n (active_same p q old o e a))

-- A lease that was released or has been swept is never changed again by renewals, unpins or sweeps,
-- of any number and in any order: only Pin follows it with a new one.
pub run_calls-ended :
    (calls : List PinCall) (c : Cache) (k : String) (p : Pin)
    → IsKeyed c.store
    → NoPin calls
    → lease_at k c ≡ some p
    → p.status ≢ pin_active
    → lease_at k (run_calls calls c) ≡ some p
unfolding run_calls
run_calls-ended [] c k p v np o n = o
run_calls-ended (call ∷ calls) c k p v np o n =
    let mv =
      subst (λ (b : Bool). Move b (next_reading c) (lease_at k c) (lease_at k (run_call call c)))
        np.0 (run_call-Move call c k v) in
    run_calls-ended calls (run_call call c) k p (run_call-IsKeyed call c v) np.1
      (Move-ended (next_reading c) (lease_at k c) (lease_at k (run_call call c)) p mv o n) n
