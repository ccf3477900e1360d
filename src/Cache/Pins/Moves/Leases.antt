-- ===== src/Cache/Pins/Moves/Leases.antt =====
-- Pin, RenewPin and Unpin each make one move.
use go_build_cache.Prelude.{
  ℕ, String, ◌≡◌, refl, ◌∙◌, sym, true, false, Option, some, arith, inl, inr, Option-cases,
}
use go_build_cache.Prelude.Exec.{ok}
use go_build_cache.Prelude.Maps.{get, string_eq}
use go_build_cache.Model.{action_pin, action_renew, action_unpin, Time, Pin, Entry, active}
use go_build_cache.Store.{MemoryStore, entry_map_key}
use go_build_cache.Store.Invariant.{IsKeyed}
use go_build_cache.Store.Pins.{get_pin}
use go_build_cache.Cache.{Cache, next_reading, norm_namespace, tick}
use go_build_cache.Cache.Pins.Requests.{pin_ttl}
use go_build_cache.Cache.Pins.Create.{PinOptions, pin, pin_deadline, version_above}
use go_build_cache.Cache.Pins.Leases.{
  RenewPinOptions, UnpinOptions, extended, released, renew_pin, unpin, change_lease,
  lease_condition, renew_fingerprint, unpin_fingerprint,
}
use go_build_cache.Cache.Pins.Outcomes.{
  change_lease_cases, pin_cases, pins-save_and_record, pin_of, pin_fp,
}
use go_build_cache.Cache.Pins.Moves.{
  Move, kept, created, repinned, renewed, unpinned, lease_at, at_put,
}

get-get_pin :
    (ns key : String) (m : MemoryStore) (p : Pin)
    → get_pin ns key m ≡ ok p
    → get (entry_map_key ns key) m.pins ≡ some p
unfolding get_pin
get-get_pin ns key m p h = ground arith

lease_condition-active :
    (ns key : String) (expected : Option ℕ) (now : Time) (p : Pin)
    → lease_condition ns key expected now p ≡ ok tt
    → active p now ≡ true
lease_condition-active ns key expected now p h = ground arith

module _ (request_id action ns key fp : String) (expected : Option ℕ) (change : Time → Pin → Pin)
    (c : Cache) (k : String) (v : IsKeyed c.store)
    (same_key : (now : Time) (p : Pin)
      → entry_map_key (change now p).namespace (change now p).key ≡ entry_map_key p.namespace p.key)
    (moves : (now : Time) (old : Option Pin) (p : Pin)
      → old ≡ some p
      → active p now ≡ true
      → Move false now old (some (change now p))) where
  change_lease-Move :
      Move false
        (next_reading c)
        (lease_at k c)
        (lease_at k (change_lease request_id action ns key fp expected change c).1)
  change_lease-Move =
      change_lease_cases request_id action ns key fp expected change c
        (λ r. Move false (next_reading c) (lease_at k c) (lease_at k r.1)) (λ r _. kept refl)
        λ p l g h.
          let now = next_reading c in
          let q = change now p in
          let stored = get-get_pin ns key c.store p g in
          let home = v.pins_at (entry_map_key ns key) p stored ∙ sym (same_key now p) in
          at_put false now (entry_map_key q.namespace q.key) k q c.store.pins _
            (pins-save_and_record request_id action ns key fp now q (tick c))
            (moves now (get (entry_map_key q.namespace q.key) c.store.pins) p (rw (← home) stored)
              (lease_condition-active ns key expected now p h))

extended-Move :
    (ext now : ℕ) (old : Option Pin) (p : Pin)
    → old ≡ some p
    → active p now ≡ true
    → Move false now old (some (extended ext now p))
unfolding extended
extended-Move ext now old p e a = renewed p (extended ext now p) e refl refl a refl (ground arith)

released-Move :
    (now : ℕ) (old : Option Pin) (p : Pin)
    → old ≡ some p
    → active p now ≡ true
    → Move false now old (some (released now p))
unfolding released
released-Move now old p e a = unpinned p (released now p) e refl refl a refl

module _ (c : Cache) (k : String) (v : IsKeyed c.store) where
  pub renew_pin-Move :
      (opts : RenewPinOptions)
      → Move false (next_reading c) (lease_at k c) (lease_at k (renew_pin opts c).1)
  unfolding renew_pin extended
  renew_pin-Move opts =
      change_lease-Move opts.request_id action_renew (norm_namespace opts.namespace) opts.key
        (renew_fingerprint opts) opts.expected_version (extended (pin_ttl opts.extend)) c k v
        (λ now p. refl) (extended-Move (pin_ttl opts.extend))

  pub unpin-Move :
      (opts : UnpinOptions)
      → Move false (next_reading c) (lease_at k c) (lease_at k (unpin opts c).1)
  unfolding unpin released
  unpin-Move opts =
      change_lease-Move opts.request_id action_unpin (norm_namespace opts.namespace) opts.key
        (unpin_fingerprint opts) opts.expected_version released c k v (λ now p. refl) released-Move

pin_of-active :
    (opts : PinOptions) (now d version : ℕ) (entry : Entry) (ns key : String)
    → pin_deadline opts now ≡ ok d
    → active (pin_of ns key version entry d now) now ≡ true
unfolding pin_deadline active
pin_of-active opts now d version entry ns key h = ground arith

-- The version that Pin gives, beside what it stands above.
version_above-Move :
    (now : Time) (ns key : String) (version : ℕ) (q : Pin) (m : MemoryStore)
    → version_above (get_pin ns key m) ≡ ok version
    → q.version ≡ version
    → active q now ≡ true
    → Move true now (get (entry_map_key ns key) m.pins) (some q)
unfolding get_pin
version_above-Move now ns key version q m h e a =
    elim (Option-cases (get (entry_map_key ns key) m.pins)) [
      | inl g ↦ created q refl g refl (ground arith) a
      | inr (p, g) ↦ repinned p q refl g refl (ground arith) a
    ]

pub pin-Move :
    (opts : PinOptions) (c : Cache) (k : String)
    → Move true (next_reading c) (lease_at k c) (lease_at k (pin opts c).1)
pin-Move opts c k =
    pin_cases opts c (λ r. Move true (next_reading c) (lease_at k c) (lease_at k r.1))
      (λ r _. kept refl)
      λ d version entry pd l g b pc va.
        let now = next_reading c in
        let namespace = norm_namespace opts.namespace in
        let q = pin_of namespace opts.key version entry d now in
        at_put true now (entry_map_key namespace opts.key) k q c.store.pins _
          (pins-save_and_record opts.request_id action_pin namespace opts.key (pin_fp opts c) now q
            (tick c))
          (version_above-Move now namespace opts.key version q c.store va refl
            (pin_of-active opts now d version entry namespace opts.key pd))
