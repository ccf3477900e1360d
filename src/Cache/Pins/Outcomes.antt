-- ===== src/Cache/Pins/Outcomes.antt =====
-- The ways in which Pin, RenewPin and Unpin can end.
use go_build_cache.Prelude.{
  ℕ, String, ◌≡◌, refl, Bool, false, Option, none, some, str_eq, if◌then◌else◌, inl, inr,
  Bool-cases, not, ◌&&◌,
}
use go_build_cache.Prelude.Exec.{Result, ok, err, Result-cases}
use go_build_cache.Prelude.Maps.{put, string_eq}
use go_build_cache.Digest.{valid, equal}
use go_build_cache.Model.{Time, Pin, Entry, pin_active, action_pin}
use go_build_cache.Errors.{Error, entry_not_found, pin_conflict, no_entry, not_found, pin_not_found}
use go_build_cache.Store.{entry_map_key}
use go_build_cache.Store.Entries.{get_entry}
use go_build_cache.Store.Pins.{get_pin, save_pin, save_pin_request}
use go_build_cache.Cache.{Cache, next_reading, norm_namespace, tick}
use go_build_cache.Cache.Pins.Requests.{
  lookup_pin_request, record_pin_request, request_record, pin_fingerprint,
}
use go_build_cache.Cache.Pins.Create.{
  PinOptions, pin_deadline, entry_to_pin, pin_condition, version_above, pin_entry, pin_params, pin,
}
use go_build_cache.Cache.Pins.Leases.{change_lease, lease_condition, lease_found, save_and_record}

pub lease_found-err :
    (ns key : String) (x : Error) → (y : Error) × (lease_found ns key (err x) ≡ err y)
lease_found-err ns key not_found = (pin_not_found ns key, refl)
lease_found-err ns key x = (x, refl)

-- What a call answers without a write: an error, or the result that was recorded.
abbrev pub Answered : Result Error (Option Pin) → Result Error Pin → Type 0
Answered l (ok p) = l ≡ ok (some p)
Answered l (err e) = Unit {0}

module _ (request_id action ns key fp : String) (expected : Option ℕ) (change : Time → Pin → Pin)
    (c : Cache) where
  abbrev pub call : Result Error Pin × Cache
  call = change_lease request_id action ns key fp expected change c

  abbrev pub looked_up : Result Error (Option Pin)
  looked_up = lookup_pin_request request_id action ns key fp c.pin_reqs

  -- Either nothing changes but the clock, or the lease is there, active and of the expected version,
  -- and the changed lease is saved.
  pub change_lease_cases :
      (P : Result Error Pin × Cache → Type 0)
      → ((r : Result Error Pin) → Answered looked_up r → P (r, tick c))
      → ((p : Pin)
          → looked_up ≡ ok none
          → get_pin ns key c.store ≡ ok p
          → lease_condition ns key expected (next_reading c) p ≡ ok tt
          → P (
              save_and_record request_id action ns key fp
                (next_reading c)
                (change (next_reading c) p)
                (tick c)))
      → P call
  unfolding change_lease
  change_lease_cases P same saved = elim (Result-cases looked_up) [
    | inl (none, e) ↦ rw e (elim (Result-cases (get_pin ns key c.store)) [
      | inl (p, g) ↦
          rw g (elim (Result-cases (lease_condition ns key expected (next_reading c) p)) [
            | inl (_, l) ↦ rw l (saved p e g l)
            | inr (x, l) ↦ rw l (same (err x) tt)
          ])
      | inr (x, g) ↦ rw g (let (y, l) = lease_found-err ns key x in rw l (same (err y) tt))
    ])
    | inl (some p, e) ↦ rw e (same (ok p) e)
    | inr (x, e) ↦ rw e (same (err x) tt)
  ]

module _ (request_id action ns key fp : String) (now : Time) (p : Pin) (c : Cache) where
  pub pins-save_and_record :
      (save_and_record request_id action ns key fp now p c).1.store.pins
      ≡ put (entry_map_key p.namespace p.key) p c.store.pins
  unfolding record_pin_request save_pin save_pin_request
  pins-save_and_record = elim (Bool-cases (str_eq request_id "")) [ inl e ↦ rw e | inr e ↦ rw e ]

  pub result-save_and_record : (save_and_record request_id action ns key fp now p c).0 ≡ ok p
  unfolding record_pin_request save_pin save_pin_request
  result-save_and_record = elim (Bool-cases (str_eq request_id "")) [ inl e ↦ rw e | inr e ↦ rw e ]

entry_to_pin-err :
    (ns key : String) (now : Time) (x : Error)
    → (y : Error) × (entry_to_pin ns key now (err x) ≡ err y)
entry_to_pin-err ns key now entry_not_found = (pin_conflict ns key no_entry 0, refl)
entry_to_pin-err ns key now x = (x, refl)

-- The lease that Pin writes over an entry.
abbrev pub pin_of : String → String → ℕ → Entry → Time → Time → Pin
pin_of ns key version entry deadline now = record {
  namespace = ns;
  key = key;
  version = version;
  entry_version = entry.version;
  digest = entry.digest;
  chunks = entry.chunks;
  deadline = deadline;
  status = pin_active;
  created_at = now;
  updated_at = now;
}

module _ (opts : PinOptions) (c : Cache) where
  abbrev pub ns : String
  ns = norm_namespace opts.namespace

  abbrev pub now : Time
  now = next_reading c

  abbrev pub pin_fp : String
  pin_fp = pin_fingerprint action_pin ns opts.key (pin_params opts)

  abbrev pub digest_clash : Entry → Bool
  digest_clash e = valid opts.expected_digest && not (equal opts.expected_digest e.digest)

  -- Either nothing changes but the clock, or the entry is there with the expected digest, the
  -- deadline is ahead, and a lease with the next version is saved.
  pub pin_cases :
      (P : Result Error Pin × Cache → Type 0)
      → ((r : Result Error Pin)
          → Answered (lookup_pin_request opts.request_id action_pin ns opts.key pin_fp c.pin_reqs) r
          → P (r, tick c))
      → ((deadline version : ℕ) (entry : Entry)
          → pin_deadline opts now ≡ ok deadline
          → lookup_pin_request opts.request_id action_pin ns opts.key pin_fp c.pin_reqs ≡ ok none
          → get_entry ns opts.key c.store ≡ ok entry
          → digest_clash entry ≡ false
          → pin_condition ns opts.key opts.expected_version (get_pin ns opts.key c.store) ≡ ok tt
          → version_above (get_pin ns opts.key c.store) ≡ ok version
          → P (
              save_and_record opts.request_id action_pin ns opts.key pin_fp now
                (pin_of ns opts.key version entry deadline now)
                (tick c)))
      → P (pin opts c)
  unfolding pin pin_entry
  pin_cases P same saved = elim (Result-cases (pin_deadline opts now)) [
    | inr (x, d) ↦ rw d (same (err x) tt)
    | inl (deadline, d) ↦
        rw d
          (elim (Result-cases
            (lookup_pin_request opts.request_id action_pin ns opts.key pin_fp c.pin_reqs)) [
              | inr (x, l) ↦ rw l (same (err x) tt)
              | inl (some p, l) ↦ rw l (same (ok p) l)
              | inl (none, l) ↦ rw l (elim (Result-cases (get_entry ns opts.key c.store)) [
                | inr (x, g) ↦
                    rw g (let (y, k) = entry_to_pin-err ns opts.key now x in rw k (same (err y) tt))
                | inl (entry, g) ↦ rw g (elim (Bool-cases (digest_clash entry)) [
                  | inl b ↦ rw b (same (err _) tt)
                  | inr b ↦
                      rw b
                        (elim (Result-cases (
                          pin_condition ns opts.key opts.expected_version
                            (get_pin ns opts.key c.store))) [
                              | inr (x, k) ↦ rw k (same (err x) tt)
                              | inl (_, k) ↦
                                  rw k
                                    (elim (Result-cases
                                      (version_above (get_pin ns opts.key c.store))) [
                                        | inr (x, v) ↦ rw v (same (err x) tt)
                                        | inl (version, v) ↦
                                            rw v (saved deadline version entry d l g b k v)
                                      ])
                            ])
                ])
              ])
            ])
  ]

module _ (request_id action ns key fp : String) (now : Time) (p : Pin) (c : Cache) where
  pub pin_reqs-save_and_record :
      (save_and_record request_id action ns key fp now p c).1.pin_reqs ≡ (
        if str_eq request_id ""
        then c.pin_reqs
        else put request_id (request_record request_id action ns key fp p now) c.pin_reqs)
  unfolding record_pin_request
  pin_reqs-save_and_record = elim (Bool-cases (str_eq request_id "")) [
    | inl e ↦ rw e
    | inr e ↦ rw e
  ]
