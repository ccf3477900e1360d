-- ===== src/Cache/Promotions/Commitment.antt =====
-- What applying a promotion does, from whatever phase its redo log stands in: to the target's key, to
-- every other entry, and to the record of the promotion.
use go_build_cache.Prelude.{subst, String, ◌≡◌, ◌≢◌, refl, sym, ◌∙◌, Option, inl, inr, ◌⊎◌}
use go_build_cache.Prelude.Exec.{Result, ok, err, ◌>>=◌, ◌>>◌, Result-cases}
use go_build_cache.Model.{
  Time, Entry, Promotion, EvictionDecision, PromotionTxn, TxnPhase, txn_committing, txn_eviction,
  txn_entry,
}
use go_build_cache.Errors.{Error, not_found}
use go_build_cache.Store.{MemoryStore}
use go_build_cache.Store.Decisions.{get_decision}
use go_build_cache.Store.Entries.{get_entry}
use go_build_cache.Store.Pins.{list_pins}
use go_build_cache.Store.Promotions.{get_promotion_txn, save_promotion_txn}
use go_build_cache.Cache.{Cache, M, query}
use go_build_cache.Cache.Eviction.Deletions.{found_at}
use go_build_cache.Cache.Promotions.Phases.{refresh, evict_phase, after_eviction}
use go_build_cache.Cache.Promotions.Apply.{
  target_entry, write_phase, finish_promotion, apply_promotion,
}
use go_build_cache.Cache.Promotions.Effects.{
  refresh-ok, evict_phase-Evicted, evict_phase-ok, finish_promotion-entries,
  finish_promotion-Recorded, Recorded,
}
use go_build_cache.Cache.Promotions.Failing.{begin_txn_lem}
use go_build_cache.Cache.Promotions.Writes.{
  Published, written, already, target_key_of, write_phase-err, write_phase-other,
  write_eviction-Published,
}
use go_build_cache.Cache.Promotions.Changes.{
  Promoted, Spared, Spared-Evicted, by_plan, not_entry, same,
}

module _ (format_time : Time → String) (p : Promotion) (now : Time) where
  -- The commit from a phase on.
  abbrev pub apply_from : TxnPhase → M Promotion
  apply_from phase = do
    fresh ← query (refresh p)
    evicted ← evict_phase phase fresh now
    write_phase format_time (after_eviction phase) evicted now
    finish_promotion evicted now

  same_target :
      (fresh evicted : Promotion) (v w : Option EvictionDecision)
      → fresh ≡ record p { eviction = v }
      → evicted ≡ record fresh { eviction = w }
      → target_key_of evicted ≡ target_key_of p
  same_target fresh evicted v w a b = rw (b, a) refl

  apply_from-Spared :
      (phase : TxnPhase) (c : Cache) (k : String)
      → (target_key_of p ≢ k) ⊎ ((x : Error) × ((apply_from phase c).0 ≡ err x))
      → Spared p now c.store k (found_at k c.store) (found_at k (apply_from phase c).1.store)
  apply_from-Spared phase c k h = elim (Result-cases (refresh p c.store)) [
    | inr (x, e) ↦ rw e (same refl)
    | inl (fresh, e) ↦
        let gone = evict_phase-Evicted k phase fresh now c in
        let c1 = (evict_phase phase fresh now c).1 in
        elim (Result-cases (evict_phase phase fresh now c).0) [
          | inr (x, f) ↦ rw (e, f) (Spared-Evicted p fresh now c.store k _ _ e gone)
          | inl (ev, f) ↦
              let w = write_phase format_time (after_eviction phase) ev now c1 in
              elim (Result-cases w.0) [
                | inr (x, g) ↦
                    rw (e, f, g, write_phase-err format_time ev now (after_eviction phase) c1 x k g)
                      (Spared-Evicted p fresh now c.store k _ _ e gone)
                | inl (d, g) ↦
                    let (q, res, recorded) = finish_promotion-Recorded ev now w.1 in
                    let (v, a) = refresh-ok p fresh c.store e in
                    let (u, b) = evict_phase-ok phase fresh ev now c f in
                    elim h [
                      | inl ne ↦
                          rw
                            (
                              e,
                              f,
                              g,
                              finish_promotion-entries k ev now w.1,
                              write_phase-other format_time ev now (after_eviction phase) c1 k
                                  (λ at. ne (sym (same_target fresh ev v u a b) ∙ at)),
                            )
                            (Spared-Evicted p fresh now c.store k _ _ e gone)
                      | inr (x, bad) ↦ absurd (cc (rw (e, f, g) at bad, res))
                    ]
              ]
        ]
  ]

  Published-Promoted :
      (fresh evicted : Promotion) (v w : Option EvictionDecision) (old new : Result Error Entry)
      → fresh ≡ record p { eviction = v }
      → evicted ≡ record fresh { eviction = w }
      → Published evicted now old new
      → Promoted p now new
  unfolding target_entry
  Published-Promoted fresh evicted v w old new a b (written n) = inl (n ∙ rw (b, a) refl)
  Published-Promoted fresh evicted v w old new a b (already e o d y n) =
      inr (e, n ∙ o, rw (b, a) at d, rw (b, a) at y)

  Recorded-evicting :
      (fresh evicted q : Promotion) (v w : Option EvictionDecision) (m : MemoryStore)
      → fresh ≡ record p { eviction = v }
      → evicted ≡ record fresh { eviction = w }
      → Recorded evicted q m
      → Recorded p q m
  Recorded-evicting fresh evicted q v w m a b r = record {
    result = r.result;
    version = rw (b, a) at (r.version);
    kept = rw (b, a) at (r.kept);
    no_log = rw (b, a) at (r.no_log);
  }

  -- Where the commit ends well from the first two phases, the target's key holds the promotion's entry.
  apply_from-Promoted :
      (phase : TxnPhase) (c : Cache) (q : Promotion)
      → after_eviction phase ≡ txn_eviction
      → (apply_from phase c).0 ≡ ok q
      → Promoted p now (found_at (target_key_of p) (apply_from phase c).1.store)
        × Recorded p q (apply_from phase c).1.store
  unfolding get_entry
  apply_from-Promoted phase c q ph h = elim (Result-cases (refresh p c.store)) [
    | inr (x, e) ↦ absurd (cc (rw e at h))
    | inl (fresh, e) ↦
        let c1 = (evict_phase phase fresh now c).1 in
        elim (Result-cases (evict_phase phase fresh now c).0) [
          | inr (x, f) ↦ absurd (cc (rw (e, f) at h))
          | inl (ev, f) ↦
              let w = write_phase format_time txn_eviction ev now c1 in
              elim (Result-cases w.0) [
                | inr (x, g) ↦ absurd (cc (rw (e, f, ph, g) at h))
                | inl (d, g) ↦
                    let (r, res, recorded) = finish_promotion-Recorded ev now w.1 in
                    let (v, a) = refresh-ok p fresh c.store e in
                    let (u, b) = evict_phase-ok phase fresh ev now c f in
                    let at_key = same_target fresh ev v u a b in
                    let placed =
                      Published-Promoted fresh ev v u _ _ a b
                        (write_eviction-Published format_time ev now c1 g) in
                    rw (e, f, ph, g, finish_promotion-entries (target_key_of p) ev now w.1)
                      (
                        rw at_key at placed,
                        Recorded-evicting fresh ev q v u _ a b (
                            subst
                              (λ (z : Promotion).
                                Recorded ev z (finish_promotion ev now w.1).1.store)
                              (cc (res, rw (e, f, ph, g) at h)) recorded),
                      )
              ]
        ]
  ]

  -- From every phase, a commit that ends well is recorded.
  apply_from-Recorded :
      (phase : TxnPhase) (c : Cache) (q : Promotion)
      → (apply_from phase c).0 ≡ ok q
      → Recorded p q (apply_from phase c).1.store
  apply_from-Recorded phase c q h = elim (Result-cases (refresh p c.store)) [
    | inr (x, e) ↦ absurd (cc (rw e at h))
    | inl (fresh, e) ↦
        let c1 = (evict_phase phase fresh now c).1 in
        elim (Result-cases (evict_phase phase fresh now c).0) [
          | inr (x, f) ↦ absurd (cc (rw (e, f) at h))
          | inl (ev, f) ↦
              let w = write_phase format_time (after_eviction phase) ev now c1 in
              elim (Result-cases w.0) [
                | inr (x, g) ↦ absurd (cc (rw (e, f, g) at h))
                | inl (d, g) ↦
                    let (r, res, recorded) = finish_promotion-Recorded ev now w.1 in
                    let (v, a) = refresh-ok p fresh c.store e in
                    let (u, b) = evict_phase-ok phase fresh ev now c f in
                    rw (e, f, g)
                      (Recorded-evicting fresh ev q v u _ a b (
                        subst
                          (λ (z : Promotion). Recorded ev z (finish_promotion ev now w.1).1.store)
                          (cc (res, rw (e, f, g) at h)) recorded))
              ]
        ]
  ]

  -- The log that a new commit begins with.
  abbrev logged : Cache → Cache
  logged c = record c {
    store =
        save_promotion_txn
          (record { promotion_id = p.id; phase = txn_committing; updated_at = now }) c.store;
  }

  Spared-logged :
      (c : Cache) (k : String) (old new : Result Error Entry)
      → Spared p now (logged c).store k old new
      → Spared p now c.store k old new
  unfolding save_promotion_txn get_decision list_pins
  Spared-logged c k old new (same e) = same e
  Spared-logged c k old new (by_plan planned d a b l) = by_plan planned d a b l

  found_at-logged : (c : Cache) (k : String) → found_at k (logged c).store ≡ found_at k c.store
  unfolding save_promotion_txn
  found_at-logged c k = refl

  -- Whatever the phase and the outcome, applying a promotion leaves every entry as it was, except that
  -- it carries out the eviction, and that it writes the target where it succeeds.
  pub apply_promotion-Spared :
      (c : Cache) (k : String)
      → (target_key_of p ≢ k) ⊎ ((x : Error) × ((apply_promotion format_time p now c).0 ≡ err x))
      → Spared p now c.store k
          (found_at k c.store)
          (found_at k (apply_promotion format_time p now c).1.store)
  unfolding apply_promotion
  apply_promotion-Spared c k h = elim (begin_txn_lem p now c) [
    | inl (txn, t, e) ↦ rw e (apply_from-Spared txn.phase c k (rw e at h))
    | inr (t, e) ↦ rw e (
        Spared-logged c k _ _
          (rw (found_at-logged c k) at (apply_from-Spared txn_committing (logged c) k (rw e at h))))
  ]

  -- Without a log, or from a phase before the last, success means that the target's entry is there.
  pub apply_promotion-Promoted :
      (c : Cache) (q : Promotion)
      → (get_promotion_txn p.id c.store ≡ err not_found)
        ⊎ ((txn : PromotionTxn) × (get_promotion_txn p.id c.store ≡ ok txn)
            × (txn.phase ≢ txn_entry))
      → (apply_promotion format_time p now c).0 ≡ ok q
      → Promoted p now (found_at (target_key_of p) (apply_promotion format_time p now c).1.store)
  unfolding apply_promotion
  apply_promotion-Promoted c q l h = elim (begin_txn_lem p now c) [
    | inr (t, e) ↦ rw e ((apply_from-Promoted txn_committing (logged c) q refl (rw e at h)).0)
    | inl (txn, t, e) ↦
        rw e ((apply_from-Promoted txn.phase c q (before_entry txn t l) (rw e at h)).0)
  ]
    where
      before_entry :
          (txn : PromotionTxn)
          → get_promotion_txn p.id c.store ≡ ok txn
          → (get_promotion_txn p.id c.store ≡ err not_found)
            ⊎ ((x : PromotionTxn) × (get_promotion_txn p.id c.store ≡ ok x) × (x.phase ≢ txn_entry))
          → after_eviction txn.phase ≡ txn_eviction
      before_entry txn t (inl n) = absurd (cc (t, n))
      before_entry txn t (inr (x, g, ne)) = not_entry txn.phase (λ q. ne (cc (t, g, q)))

  pub apply_promotion-Recorded :
      (c : Cache) (q : Promotion)
      → (apply_promotion format_time p now c).0 ≡ ok q
      → Recorded p q (apply_promotion format_time p now c).1.store
  unfolding apply_promotion
  apply_promotion-Recorded c q h = elim (begin_txn_lem p now c) [
    | inl (txn, t, e) ↦ rw e (apply_from-Recorded txn.phase c q (rw e at h))
    | inr (t, e) ↦ rw e (apply_from-Recorded txn_committing (logged c) q (rw e at h))
  ]
