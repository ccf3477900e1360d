-- ===== src/Cache/Promotions/Preparation.antt =====
-- PreparePromotion: the promotion that it saves, and that it touches neither entries nor their content.
use go_build_cache.Prelude.{
  ℕ, ◌≡◌, refl, sym, subst, ◌∙◌, true, false, Option, inl, inr, Bool-cases,
}
use go_build_cache.Prelude.Exec.{Result, ok, continue, Result-cases}
use go_build_cache.Prelude.Int64.{add64}
use go_build_cache.Prelude.Maps.{string_eq}
use go_build_cache.Digest.{equal}
use go_build_cache.Model.{Time, Entry, Namespace, Promotion, EvictionDecision}
use go_build_cache.Errors.{Error}
use go_build_cache.Store.{MemoryStore}
use go_build_cache.Store.Entries.{get_entry}
use go_build_cache.Cache.{Cache, require_namespace}
use go_build_cache.Cache.Eviction.Plan.{namespace_used}
use go_build_cache.Cache.Promotions.Requests.{PromoteOptions}
use go_build_cache.Cache.Promotions.Plan.{key_uploading}
use go_build_cache.Cache.Promotions.Prepare.{
  TargetBase, target_base, new_promotion, next_promotion, with_room, save_prepared, frozen_source,
  first_promotion,
}
use go_build_cache.Cache.Promotions.Saving.{
  SameData, SameData-refl, SameData-trans, Saved, save_prepared_lem, with_room_lem,
}

-- What is known of a promotion that has been prepared for the first time.
pub record Fresh (opts : PromoteOptions) (p : Promotion) (now : Time) (m : MemoryStore)
    : Type 0 where
  pub source : Entry
  pub base : TargetBase
  pub ns : Namespace
  pub seq : ℕ
  pub planned : Option EvictionDecision
  pub made :
      p
      ≡ record (new_promotion opts source base ns
          (namespace_used opts.target_namespace m)
          now
          seq) { eviction = planned }
  pub idle : key_uploading opts.source_namespace opts.source_key now m ≡ false
  pub stored_source : get_entry opts.source_namespace opts.source_key m ≡ ok source
  pub expected : equal source.digest opts.expected_digest ≡ true
  pub based : target_base opts source m ≡ ok base
  pub registered : require_namespace opts.target_namespace m ≡ ok ns

pub ok-eq : {E A : Type 0} (x y : A) → ◌≡◌ {A = Result E A} (ok x) (ok y) → x ≡ y
ok-eq x y h = cc

module _ (opts : PromoteOptions) (now : Time) (c : Cache) where
  -- The source is read without a change.
  frozen_source_lem :
      ((frozen_source opts now c).1 ≡ c)
      × ((e : Entry)
          → (frozen_source opts now c).0 ≡ ok e
          → (key_uploading opts.source_namespace opts.source_key now c.store ≡ false)
            × (get_entry opts.source_namespace opts.source_key c.store ≡ ok e)
            × (equal e.digest opts.expected_digest ≡ true))
  unfolding frozen_source
  frozen_source_lem =
      elim (Bool-cases (key_uploading opts.source_namespace opts.source_key now c.store)) [
        | inl y ↦ rw y (refl, λ e h. absurd (cc h))
        | inr n ↦ elim (Result-cases (get_entry opts.source_namespace opts.source_key c.store)) [
          | inr (x, g) ↦ rw (n, g) (refl, λ e h. absurd (cc h))
          | inl (src, g) ↦ elim (Bool-cases (equal src.digest opts.expected_digest)) [
            | inr d ↦ rw (n, g, d) (refl, λ e h. absurd (cc h))
            | inl d ↦
                rw (n, g, d)
                  (
                    refl,
                    λ e h. (
                      refl,
                      h,
                      subst (λ (z : Entry). equal z.digest opts.expected_digest ≡ true)
                          (ok-eq src e h) d,
                    ),
                  )
          ]
        ]
      ]

  -- What comes after the checks.
  abbrev last_steps : Entry → TargetBase → Namespace → Result Error Promotion × Cache
  last_steps source base ns =
      let used = namespace_used opts.target_namespace c.store in
      let seq = add64 c.promo_seq 1 in
      let counted : Cache = record c { promo_seq = seq } in
      let r = with_room ns (new_promotion opts source base ns used now seq) now counted in
      continue r.0 (λ p. save_prepared p now) r.1

  save_first :
      (source : Entry) (base : TargetBase) (ns : Namespace)
      → key_uploading opts.source_namespace opts.source_key now c.store ≡ false
      → get_entry opts.source_namespace opts.source_key c.store ≡ ok source
      → equal source.digest opts.expected_digest ≡ true
      → target_base opts source c.store ≡ ok base
      → require_namespace opts.target_namespace c.store ≡ ok ns
      → SameData c.store (last_steps source base ns).1.store
        × ((p : Promotion)
            → (last_steps source base ns).0 ≡ ok p
            → Fresh opts p now c.store × Saved p now (last_steps source base ns).1.store)
  save_first source base ns idle there expected based registered =
      let used = namespace_used opts.target_namespace c.store in
      let seq = add64 c.promo_seq 1 in
      let counted : Cache = record c { promo_seq = seq } in
      let p0 = new_promotion opts source base ns used now seq in
      let r = with_room ns p0 now counted in
      elim (Result-cases r.0) [
        | inr (x, e) ↦ rw e ((with_room_lem ns p0 p0 now counted).0, λ p h. absurd (cc h))
        | inl (q, e) ↦
            let (kept, room) = with_room_lem ns p0 q now counted in
            let (w, made) = room e in
            let (res, data', saved) = save_prepared_lem q now r.1 in
            rw e (
              SameData-trans c.store r.1.store _ kept data',
              λ p h.
                  let same_q : q ≡ p = ok-eq q p (sym res ∙ h) in
                  (
                    record {
                      source = source;
                      base = base;
                      ns = ns;
                      seq = seq;
                      planned = w;
                      made = sym same_q ∙ made;
                      idle = idle;
                      stored_source = there;
                      expected = expected;
                      based = based;
                      registered = registered;
                    },
                    subst (λ (z : Promotion). Saved z now (save_prepared q now r.1).1.store) same_q
                        saved,
                  ),
            )
      ]

  -- The first preparation under a request number: what is frozen, and what stays as it was.
  pub first_promotion_lem :
      SameData c.store (first_promotion opts now c).1.store
      × ((p : Promotion)
          → (first_promotion opts now c).0 ≡ ok p
          → Fresh opts p now c.store × Saved p now (first_promotion opts now c).1.store)
  unfolding first_promotion next_promotion
  first_promotion_lem = elim (Result-cases (require_namespace opts.source_namespace c.store)) [
    | inr (x, a) ↦ rw a (SameData-refl c.store, λ p h. absurd (cc h))
    | inl (sn, a) ↦ elim (Result-cases (require_namespace opts.target_namespace c.store)) [
      | inr (x, b) ↦ rw (a, b) (SameData-refl c.store, λ p h. absurd (cc h))
      | inl (ns, b) ↦
          let (still, frozen) = frozen_source_lem in
          elim (Result-cases (frozen_source opts now c).0) [
            | inr (x, e) ↦ rw (a, b, e, still) (SameData-refl c.store, λ p h. absurd (cc h))
            | inl (src, e) ↦
                let (idle, there, expected) = frozen src e in
                elim (Result-cases (target_base opts src c.store)) [
                  | inr (x, t) ↦
                      rw (a, b, e, still, t) (SameData-refl c.store, λ p h. absurd (cc h))
                  | inl (base, t) ↦
                      rw (a, b, e, still, t) (save_first src base ns idle there expected t b)
                ]
          ]
    ]
  ]
