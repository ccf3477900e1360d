-- ===== src/Cache/Promotions/Requested.antt =====
-- PreparePromotion as a whole: what it may change, and what the same request gives a second time.
use go_build_cache.Prelude.{
  String, ◌≡◌, ◌≢◌, refl, sym, ap, subst, ◌∙◌, Bool, true, false, not, ◌||◌, ◌&&◌, Option, none,
  some, arith, str_eq, eq_iff, inl, inr, ◌⊎◌, Bool-cases,
}
use go_build_cache.Prelude.Exec.{Result, ok, err, Result-cases}
use go_build_cache.Prelude.Maps.{string_eq}
use go_build_cache.Digest.{Digest, equal, valid, to_string}
use go_build_cache.Model.{Time, Promotion, promotion_prepared}
use go_build_cache.Errors.{Error, plain, promotion_conflict, same_namespace}
use go_build_cache.Store.{MemoryStore}
use go_build_cache.Store.Promotions.{get_promotion_request}
use go_build_cache.Cache.{Cache, next_reading, tick}
use go_build_cache.Cache.Promotions.Requests.{
  PromoteOptions, promotion_fingerprint, options_of, request_of, lookup_promotion_request,
  default_mode, is_known_mode, is_failed, stale_error,
}
use go_build_cache.Cache.Promotions.Prepare.{
  new_promotion, first_promotion, checked_options, prepare_promotion_locked, normalized,
  prepare_promotion,
}
use go_build_cache.Cache.Promotions.Preparation.{ok-eq, Fresh, first_promotion_lem}
use go_build_cache.Cache.Promotions.Saving.{SameData, SameData-refl, Saved}

-- The options with their defaults filled in.
abbrev pub effective : PromoteOptions → PromoteOptions
effective opts = record (normalized opts) { mode = default_mode opts.mode }

-- The checks that need no store give the same answer in every state, and change none.
checked_options_lem :
    (opts : PromoteOptions)
    → ((x : Error) × ((c : Cache) → checked_options opts c ≡ (err x, c)))
      ⊎ ((c : Cache)
          → checked_options opts c ≡ (ok (record opts { mode = default_mode opts.mode }), c))
unfolding checked_options
checked_options_lem opts =
    elim (Bool-cases (str_eq opts.source_key "" || str_eq opts.target_key "")) [
      | inl a ↦ inl (plain "buildcache: source and target cache keys are required", λ c. rw a refl)
      | inr a ↦ elim (Bool-cases (not (valid opts.expected_digest))) [
        | inl b ↦ inl (plain "buildcache: valid source digest is required", λ c. rw (a, b) refl)
        | inr b ↦ elim (Bool-cases (not (is_known_mode (default_mode opts.mode)))) [
          | inl d ↦ inl (plain "buildcache: invalid promotion mode", λ c. rw (a, b, d) refl)
          | inr d ↦
              elim (Bool-cases (
                str_eq opts.source_namespace opts.target_namespace
                && str_eq opts.source_key opts.target_key)) [
                  | inl e ↦ inl (
                    promotion_conflict opts.source_namespace opts.source_key same_namespace,
                    λ c. rw (a, b, d, e) refl,
                  )
                  | inr e ↦ inr (λ c. rw (a, b, d, e) refl)
                ]
        ]
      ]
    ]

module _ (opts : PromoteOptions) where
  abbrev request : PromoteOptions
  request = record (normalized opts) { mode = default_mode (normalized opts).mode }

  -- What the request number gives in a state.
  abbrev answer_of : Cache → Result Error (Option Promotion)
  answer_of c = lookup_promotion_request request.request_id (promotion_fingerprint request) c.store

  prepare_found :
      (c : Cache) (p : Promotion)
      → ((c' : Cache) → checked_options (normalized opts) c' ≡ (ok request, c'))
      → answer_of c ≡ ok (some p)
      → is_failed p.status ≡ false
      → prepare_promotion opts c ≡ (ok p, tick c)
  unfolding prepare_promotion prepare_promotion_locked
  prepare_found c p k a f = rw (k (tick c), a, f) refl

  prepare_first :
      (c : Cache)
      → ((c' : Cache) → checked_options (normalized opts) c' ≡ (ok request, c'))
      → answer_of c ≡ ok none
      → ((prepare_promotion opts c).1 ≡ (first_promotion request (next_reading c) (tick c)).1)
        × ((prepare_promotion opts c).0 ≡ (first_promotion request (next_reading c) (tick c)).0)
  unfolding prepare_promotion prepare_promotion_locked
  prepare_first c k a = elim (Result-cases (first_promotion request (next_reading c) (tick c)).0) [
    | inl (p, e) ↦ rw (k (tick c), a, e) (refl, refl)
    | inr (x, e) ↦ rw (k (tick c), a, e) (refl, refl)
  ]

  -- What PreparePromotion may come to.
  data Preparing (c : Cache) (r : Result Error Promotion × Cache) : Type 0 where
    refused : (x : Error) → r.0 ≡ err x → SameData c.store r.1.store → Preparing c r
    found :
        (p : Promotion)
        → answer_of c ≡ ok (some p)
        → is_failed p.status ≡ false
        → r ≡ (ok p, tick c)
        → Preparing c r
    first :
        (p : Promotion)
        → r.0 ≡ ok p
        → SameData c.store r.1.store
        → Fresh request p (next_reading c) c.store
        → Saved p (next_reading c) r.1.store
        → Preparing c r

  prepare-Preparing : (c : Cache) → Preparing c (prepare_promotion opts c)
  unfolding prepare_promotion prepare_promotion_locked
  prepare-Preparing c = elim (checked_options_lem (normalized opts)) [
    | inl (x, k) ↦ refused x (rw (k (tick c)) refl) (rw (k (tick c)) (SameData-refl c.store))
    | inr k ↦ elim (Result-cases (answer_of c)) [
      | inr (x, a) ↦
          refused x (rw (k (tick c), a) refl) (rw (k (tick c), a) (SameData-refl c.store))
      | inl (some p, a) ↦ elim (Bool-cases (is_failed p.status)) [
        | inl f ↦
            refused (stale_error p) (rw (k (tick c), a, f) refl)
              (rw (k (tick c), a, f) (SameData-refl c.store))
        | inr f ↦ found p a f (prepare_found c p k a f)
      ]
      | inl (none, a) ↦
          let (kept, fresh) = first_promotion_lem request (next_reading c) (tick c) in
          let (st, res) = prepare_first c k a in
          elim (Result-cases (first_promotion request (next_reading c) (tick c)).0) [
            | inr (x, e) ↦ refused x (res ∙ e) (rw st kept)
            | inl (p, e) ↦
                let (f, saved) = fresh p e in first p (res ∙ e) (rw st kept) f (rw st saved)
          ]
    ]
  ]

to_string-equal : (a b : Digest) → equal a b ≡ true → to_string a ≡ to_string b
unfolding equal to_string
to_string-equal a b h =
    let (x, y) = both (str_eq a.algo b.algo) (str_eq a.hex b.hex) h in
    rw ((eq_iff a.algo b.algo).0 x, (eq_iff a.hex b.hex).0 y) refl
  where
    both : (p q : Bool) → (p && q) ≡ true → (p ≡ true) × (q ≡ true)
    both p q h = ground (arith, h)

module _ (opts : PromoteOptions) where
  -- What a promotion is recorded under is what its request is looked up by.
  fingerprint-made :
      (p : Promotion) (now : Time) (m : MemoryStore)
      → Fresh opts p now m
      → promotion_fingerprint (options_of p) ≡ promotion_fingerprint opts
  unfolding promotion_fingerprint new_promotion
  fingerprint-made p now m f =
      rw (f.made, to_string-equal f.source.digest opts.expected_digest f.expected) refl

  made_of :
      (p : Promotion) (now : Time) (m : MemoryStore)
      → Fresh opts p now m
      → (p.request_id ≡ opts.request_id) × (p.status ≡ promotion_prepared)
  unfolding new_promotion
  made_of p now m f = rw (f.made) (refl, refl)

  answer-Saved :
      (p : Promotion) (now : Time) (old m : MemoryStore)
      → opts.request_id ≢ ""
      → Fresh opts p now old
      → Saved p now m
      → lookup_promotion_request opts.request_id (promotion_fingerprint opts) m ≡ ok (some p)
  unfolding lookup_promotion_request request_of
  answer-Saved p now old m ne f s =
      let (same_id, st) = made_of p now old f in
      let there : get_promotion_request opts.request_id m ≡ ok (request_of p now) =
        subst (λ (z : String). get_promotion_request z m ≡ ok (request_of p now)) same_id
          (s.requested (λ q. ne (sym same_id ∙ q))) in
      elim (Bool-cases (str_eq opts.request_id "")) [
        | inl y ↦ absurd (ne ((eq_iff opts.request_id "").0 y))
        | inr n ↦
            rw
              (
                n,
                there,
                fingerprint-made p now old f,
                (eq_iff (promotion_fingerprint opts) (promotion_fingerprint opts)).1 refl,
                s.found,
              )
              refl
      ]

module _ (opts : PromoteOptions) (c : Cache) where
  -- PreparePromotion never changes an entry, a blob, a pin lease, an upload session or a namespace.
  pub prepare_promotion-SameData : SameData c.store (prepare_promotion opts c).1.store
  prepare_promotion-SameData = kept (prepare-Preparing opts c)
    where
      kept : {r : Result Error Promotion × Cache} → Preparing opts c r → SameData c.store r.1.store
      kept (refused x e k) = k
      kept (found p a f e) = rw e (SameData-refl c.store)
      kept (first p e k f s) = k

  checked_when_ok :
      (p : Promotion)
      → (prepare_promotion opts c).0 ≡ ok p
      → (c' : Cache) → checked_options (normalized opts) c' ≡ (ok (request opts), c')
  unfolding prepare_promotion prepare_promotion_locked
  checked_when_ok p h = elim (checked_options_lem (normalized opts)) [
    | inl (x, k) ↦ absurd (cc (rw (k (tick c)) at h))
    | inr k ↦ k
  ]

  again_of :
      (p : Promotion) (r : Result Error Promotion × Cache)
      → opts.request_id ≢ ""
      → ((c' : Cache) → checked_options (normalized opts) c' ≡ (ok (request opts), c'))
      → r.0 ≡ ok p
      → Preparing opts c r
      → prepare_promotion opts r.1 ≡ (ok p, tick r.1)
  unfolding normalized
  again_of p r ne k h (refused x e kept) = absurd (cc (e, h))
  again_of p r ne k h (found q a f e) =
      let same : q ≡ p = ok-eq q p (ap (λ (z : Result Error Promotion × Cache). z.0) (sym e) ∙ h) in
      rw (e, ← same) (prepare_found opts (tick c) q k a f)
  again_of p r ne k h (first q e kept f s) =
      let (same_id, st) = made_of (request opts) q (next_reading c) c.store f in
      let answer = answer-Saved (request opts) q (next_reading c) c.store r.1.store ne f s in
      rw (← ok-eq q p (sym e ∙ h)) (prepare_found opts r.1 q k answer (rw st refl))

-- A PreparePromotion that succeeds under a request number returns the same promotion when it is called
-- again, and then changes nothing but the clock.
pub prepare_promotion-again :
    (opts : PromoteOptions) (c : Cache) (p : Promotion)
    → opts.request_id ≢ ""
    → (prepare_promotion opts c).0 ≡ ok p
    → prepare_promotion opts (prepare_promotion opts c).1
      ≡ (ok p, tick (prepare_promotion opts c).1)
prepare_promotion-again opts c p ne h =
    again_of opts c p (prepare_promotion opts c) ne (checked_when_ok opts c p h) h
      (prepare-Preparing opts c)
