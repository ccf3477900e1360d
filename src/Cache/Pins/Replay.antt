-- ===== src/Cache/Pins/Replay.antt =====
-- Request numbers: a repeated call has the first answer and writes nothing.
use go_build_cache.Prelude.{ℕ, String, ◌≡◌, ◌≢◌, false, Option, some, arith, str_eq, eq_iff, List}
use go_build_cache.Prelude.Exec.{Result, ok, err}
use go_build_cache.Prelude.Maps.{string_eq}
use go_build_cache.Model.{Time, Pin, action_pin, action_renew}
use go_build_cache.Errors.{Error}
use go_build_cache.Cache.{Cache, next_reading, norm_namespace, tick}
use go_build_cache.Cache.Pins.Requests.{pin_ttl, lookup_pin_request}
use go_build_cache.Cache.Pins.Create.{PinOptions, pin, pin_deadline}
use go_build_cache.Cache.Pins.Leases.{
  RenewPinOptions, renew_pin, change_lease, save_and_record, renew_fingerprint, extended,
}
use go_build_cache.Cache.Pins.Outcomes.{
  Answered, change_lease_cases, pin_cases, pin_of, pin_fp, result-save_and_record,
  pin_reqs-save_and_record,
}
use go_build_cache.Cache.Pins.Moves.{PinCall}
use go_build_cache.Cache.Pins.History.{run_calls}
use go_build_cache.Cache.Pins.Remembering.{lookup-put_self, lookup_kept, run_calls-request_kept}

-- The request of a call that has saved a lease answers with that lease.
saved_answers :
    (id action ns key fp : String) (now : Time) (q p : Pin) (c : Cache)
    → str_eq id "" ≡ false
    → (save_and_record id action ns key fp now q (tick c)).0 ≡ ok p
    → lookup_pin_request id action ns key fp
        (save_and_record id action ns key fp now q (tick c)).1.pin_reqs
      ≡ ok (some p)
saved_answers id action ns key fp now q p c n h =
    let same : q ≡ p = cc (h, result-save_and_record id action ns key fp now q (tick c)) in
    rw (pin_reqs-save_and_record id action ns key fp now q (tick c), n)
      (rw (← same) (lookup-put_self id action ns key fp q now c.pin_reqs n))

Answered-ok :
    (id action ns key fp : String) (p : Pin) (c : Cache) (r : Result Error Pin)
    → Answered (lookup_pin_request id action ns key fp c.pin_reqs) r
    → r ≡ ok p
    → lookup_pin_request id action ns key fp c.pin_reqs ≡ ok (some p)
Answered-ok id action ns key fp p c (ok q) a e = cc
Answered-ok id action ns key fp p c (err x) a e = cc

change_lease-answers :
    (id action ns key fp : String) (expected : Option ℕ) (change : Time → Pin → Pin) (c : Cache)
    (p : Pin)
    → str_eq id "" ≡ false
    → (change_lease id action ns key fp expected change c).0 ≡ ok p
    → lookup_pin_request id action ns key fp
        (change_lease id action ns key fp expected change c).1.pin_reqs
      ≡ ok (some p)
change_lease-answers id action ns key fp expected change c p n =
    change_lease_cases id action ns key fp expected change c
      (λ r. r.0 ≡ ok p → lookup_pin_request id action ns key fp r.1.pin_reqs ≡ ok (some p))
      (Answered-ok id action ns key fp p c)
      (λ q l g h.
        saved_answers id action ns key fp (next_reading c) (change (next_reading c) q) p c n)

pin-answers :
    (opts : PinOptions) (c : Cache) (p : Pin)
    → str_eq opts.request_id "" ≡ false
    → (pin opts c).0 ≡ ok p
    → lookup_pin_request opts.request_id action_pin
        (norm_namespace opts.namespace)
        opts.key
        (pin_fp opts c)
        (pin opts c).1.pin_reqs
      ≡ ok (some p)
pin-answers opts c p n =
    let ns = norm_namespace opts.namespace in
    pin_cases opts c
      (λ r.
        r.0 ≡ ok p
        → lookup_pin_request opts.request_id action_pin ns opts.key (pin_fp opts c) r.1.pin_reqs
          ≡ ok (some p))
      (Answered-ok opts.request_id action_pin ns opts.key (pin_fp opts c) p c)
      (λ d version entry pd l e b pc va.
        saved_answers opts.request_id action_pin ns opts.key (pin_fp opts c) (next_reading c)
          (pin_of ns opts.key version entry d (next_reading c)) p c n)

nonempty : (s : String) → s ≢ "" → str_eq s "" ≡ false
nonempty s n = ground (arith, eq_iff s "")

-- A Pin call that succeeded under a request number, made again after any other pin calls, returns the
-- lease of the first call and changes nothing but the clock, provided that its deadline still lies
-- ahead.
pub pin_replayed :
    (opts : PinOptions) (c : Cache) (p : Pin) (calls : List PinCall) (d : Time)
    → opts.request_id ≢ ""
    → (pin opts c).0 ≡ ok p
    → pin_deadline opts (next_reading (run_calls calls (pin opts c).1)) ≡ ok d
    → pin opts (run_calls calls (pin opts c).1) ≡ (ok p, tick (run_calls calls (pin opts c).1))
unfolding pin
pin_replayed opts c p calls d n h pd =
    let c1 = (pin opts c).1 in
    let e = nonempty opts.request_id n in
    let found =
      lookup_kept opts.request_id action_pin (norm_namespace opts.namespace) opts.key
        (pin_fp opts c) p c1.pin_reqs (run_calls calls c1).pin_reqs e
        (λ rec. run_calls-request_kept calls c1 opts.request_id rec) (pin-answers opts c p e h) in
    rw (pd, found)

-- A RenewPin call that has succeeded under a request number can be repeated after any other calls, and
-- at any time: it returns the lease of the first call and changes nothing but the clock.
pub renew_pin_replayed :
    (opts : RenewPinOptions) (c : Cache) (p : Pin) (calls : List PinCall)
    → opts.request_id ≢ ""
    → (renew_pin opts c).0 ≡ ok p
    → renew_pin opts (run_calls calls (renew_pin opts c).1)
      ≡ (ok p, tick (run_calls calls (renew_pin opts c).1))
unfolding renew_pin change_lease
renew_pin_replayed opts c p calls n h =
    let c1 = (renew_pin opts c).1 in
    let ns = norm_namespace opts.namespace in
    let e = nonempty opts.request_id n in
    let found =
      lookup_kept opts.request_id action_renew ns opts.key (renew_fingerprint opts) p c1.pin_reqs
        (run_calls calls c1).pin_reqs e (λ rec. run_calls-request_kept calls c1 opts.request_id rec)
        (change_lease-answers opts.request_id action_renew ns opts.key (renew_fingerprint opts)
          opts.expected_version (extended (pin_ttl opts.extend)) c p e h) in
    rw found
