-- ===== src/Cache/Pins/Remembering.antt =====
-- Request numbers: what was recorded for a request is there after every later call.
use go_build_cache.Prelude.{
  ℕ, String, ◌≡◌, ◌≢◌, refl, subst, sym, false, Option, none, some, arith, str_eq, eq_iff, inl, inr,
  Bool-cases, Option-cases, List, [], ◌∷◌,
}
use go_build_cache.Prelude.Exec.{ok}
use go_build_cache.Prelude.Maps.{Map, get, put, get-put, string_eq}
use go_build_cache.Model.{Time, Pin, PinRequest, action_pin, action_renew, action_unpin}
use go_build_cache.Cache.{Cache, next_reading, norm_namespace, tick}
use go_build_cache.Cache.Pins.Requests.{pin_ttl, lookup_pin_request, request_record, recorded}
use go_build_cache.Cache.Pins.Leases.{
  renew_pin, unpin, change_lease, save_and_record, renew_fingerprint, unpin_fingerprint, extended,
  released,
}
use go_build_cache.Cache.Pins.Sweep.{sweep_expired_pins, sweep_expired_pins_locked}
use go_build_cache.Cache.Pins.Outcomes.{
  change_lease_cases, pin_cases, pin_of, pin_fp, pin_reqs-save_and_record,
}
use go_build_cache.Cache.Pins.Moves.{PinCall, pins, renews, unpins, sweeps, run_call}
use go_build_cache.Cache.Pins.History.{run_calls}

abbrev Requests : Type 0
Requests = Map String PinRequest

recorded_self :
    (id action ns key fp : String) (p : Pin) (now : Time)
    → recorded id action ns key fp (some (request_record id action ns key fp p now)) ≡ ok (some p)
unfolding recorded
recorded_self id action ns key fp p now =
    ground (arith, eq_iff action action, eq_iff ns ns, eq_iff key key, eq_iff fp fp)

-- A recorded request is found again.
pub lookup-put_self :
    (id action ns key fp : String) (p : Pin) (now : Time) (reqs : Requests)
    → str_eq id "" ≡ false
    → lookup_pin_request id action ns key fp
        (put id (request_record id action ns key fp p now) reqs)
      ≡ ok (some p)
unfolding lookup_pin_request
lookup-put_self id action ns key fp p now reqs h =
    rw (h, get-put id id (request_record id action ns key fp p now) reqs, (eq_iff id id).1 refl)
      (recorded_self id action ns key fp p now)

recorded-ne-none :
    (id action ns key fp : String) (rec : PinRequest)
    → recorded id action ns key fp (some rec) ≢ ok none
unfolding recorded
recorded-ne-none id action ns key fp rec h = ground arith

-- A call that writes has another number than the requests that are recorded.
fresh_number :
    (id j action ns key fp : String) (rec : PinRequest) (reqs : Requests)
    → get j reqs ≡ some rec
    → lookup_pin_request id action ns key fp reqs ≡ ok none
    → str_eq id "" ≡ false
    → str_eq id j ≡ false
unfolding lookup_pin_request
fresh_number id j action ns key fp rec reqs g l n = elim (Bool-cases (str_eq id j)) [
  | inr other ↦ other
  | inl same ↦
      let found = subst (λ (i : String). get i reqs ≡ some rec) (sym ((eq_iff id j).0 same)) g in
      absurd (recorded-ne-none id action ns key fp rec (rw (n, found) at l))
]

-- A call leaves the requests of other numbers as they are.
request_kept :
    (id j action ns key fp : String) (rec : PinRequest) (now : Time) (p : Pin) (c : Cache)
    → get j c.pin_reqs ≡ some rec
    → lookup_pin_request id action ns key fp c.pin_reqs ≡ ok none
    → get j (save_and_record id action ns key fp now p (tick c)).1.pin_reqs ≡ some rec
request_kept id j action ns key fp rec now p c g l = elim (Bool-cases (str_eq id "")) [
  | inl e ↦ rw (pin_reqs-save_and_record id action ns key fp now p (tick c), e) g
  | inr e ↦
      rw
        (
          pin_reqs-save_and_record id action ns key fp now p (tick c),
          e,
          get-put id j (request_record id action ns key fp p now) c.pin_reqs,
          fresh_number id j action ns key fp rec c.pin_reqs g l e,
        )
        g
]

change_lease-request_kept :
    (id action ns key fp : String) (expected : Option ℕ) (change : Time → Pin → Pin) (c : Cache)
    (j : String) (rec : PinRequest)
    → get j c.pin_reqs ≡ some rec
    → get j (change_lease id action ns key fp expected change c).1.pin_reqs ≡ some rec
change_lease-request_kept id action ns key fp expected change c j rec g =
    change_lease_cases id action ns key fp expected change c (λ r. get j r.1.pin_reqs ≡ some rec)
      (λ r _. g)
      (λ p l e h.
        request_kept id j action ns key fp rec (next_reading c) (change (next_reading c) p) c g l)

run_call-request_kept :
    (call : PinCall) (c : Cache) (j : String) (rec : PinRequest)
    → get j c.pin_reqs ≡ some rec
    → get j (run_call call c).pin_reqs ≡ some rec
unfolding run_call renew_pin unpin sweep_expired_pins sweep_expired_pins_locked
run_call-request_kept (pins opts) c j rec g =
    let ns = norm_namespace opts.namespace in
    pin_cases opts c (λ r. get j r.1.pin_reqs ≡ some rec) (λ r _. g)
      λ d version entry pd l e b pc va.
        request_kept opts.request_id j action_pin ns opts.key (pin_fp opts c) rec (next_reading c)
          (pin_of ns opts.key version entry d (next_reading c)) c g l
run_call-request_kept (renews opts) c j rec g =
    change_lease-request_kept opts.request_id action_renew (norm_namespace opts.namespace) opts.key
      (renew_fingerprint opts) opts.expected_version (extended (pin_ttl opts.extend)) c j rec g
run_call-request_kept (unpins opts) c j rec g =
    change_lease-request_kept opts.request_id action_unpin (norm_namespace opts.namespace) opts.key
      (unpin_fingerprint opts) opts.expected_version released c j rec g
run_call-request_kept sweeps c j rec g = g

pub run_calls-request_kept :
    (calls : List PinCall) (c : Cache) (j : String) (rec : PinRequest)
    → get j c.pin_reqs ≡ some rec
    → get j (run_calls calls c).pin_reqs ≡ some rec
unfolding run_calls
run_calls-request_kept [] c j rec g = g
run_calls-request_kept (call ∷ calls) c j rec g =
    run_calls-request_kept calls (run_call call c) j rec (run_call-request_kept call c j rec g)

pub lookup_kept :
    (id action ns key fp : String) (p : Pin) (reqs later : Requests)
    → str_eq id "" ≡ false
    → ((rec : PinRequest) → get id reqs ≡ some rec → get id later ≡ some rec)
    → lookup_pin_request id action ns key fp reqs ≡ ok (some p)
    → lookup_pin_request id action ns key fp later ≡ ok (some p)
unfolding lookup_pin_request recorded
lookup_kept id action ns key fp p reqs later n kept l = elim (Option-cases (get id reqs)) [
  | inl g ↦ absurd (cc (rw (n, g) at l))
  | inr (rec, g) ↦ rw (n, kept rec g) (rw (n, g) at l)
]
