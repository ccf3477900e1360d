-- ===== src/Cache/Promotions/Guarantees.antt =====
-- CommitPromotion: what it publishes when it succeeds, what it leaves of the other entries, and what a
-- second call does.
use go_build_cache.Prelude.{String, ◌≡◌, ◌≢◌, refl, ◌∙◌, inl, inr, ◌⊎◌, Option-cases}
use go_build_cache.Prelude.Exec.{Result, ok, err, Result-cases}
use go_build_cache.Prelude.Maps.{get, string_eq}
use go_build_cache.Model.{
  Time, Promotion, PromotionStatus, promotion_prepared, promotion_committed, promotion_failed,
  eviction_stale, PromotionTxn,
}
use go_build_cache.Errors.{Error, not_found}
use go_build_cache.Store.{MemoryStore}
use go_build_cache.Store.Promotions.{get_promotion, get_promotion_txn}
use go_build_cache.Cache.{Cache, next_reading, tick}
use go_build_cache.Cache.Eviction.Deletions.{found_at}
use go_build_cache.Cache.Promotions.Requests.{stale_error}
use go_build_cache.Cache.Promotions.Validate.{Verdict, passed, refused, validate_promotion}
use go_build_cache.Cache.Promotions.Apply.{apply_promotion}
use go_build_cache.Cache.Promotions.Commit.{
  stale_eviction, judged, resumed_or_checked, commit_by_status, commit_promotion_locked,
  commit_promotion,
}
use go_build_cache.Cache.Promotions.Effects.{Recorded}
use go_build_cache.Cache.Promotions.Failing.{fail_promotion-entries}
use go_build_cache.Cache.Promotions.Writes.{target_key_of}
use go_build_cache.Cache.Promotions.Checks.{Checked, new_commit-Checked}
use go_build_cache.Cache.Promotions.Commitment.{
  apply_promotion-Spared, apply_promotion-Promoted, apply_promotion-Recorded,
}
use go_build_cache.Cache.Promotions.Changes.{Spared, same, Promoted}

PromotionStatus-cases :
    (s : PromotionStatus)
    → (s ≡ promotion_prepared) ⊎ ((s ≡ promotion_committed) ⊎ (s ≡ promotion_failed))
PromotionStatus-cases promotion_prepared = inl refl
PromotionStatus-cases promotion_committed = inr (inl refl)
PromotionStatus-cases promotion_failed = inr (inr refl)

some_ok : {E A : Type 0} (x y : A) → ◌≡◌ {A = Result E A} (ok x) (ok y) → x ≡ y
some_ok x y q = cc

kept_under :
    {id j : String} (q : Promotion) (m : MemoryStore)
    → j ≡ id
    → get_promotion j m ≡ ok q
    → get_promotion id m ≡ ok q
kept_under q m i h = rw (← i) h

-- The log is there, or it is not.
get_promotion_txn-cases :
    (id : String) (m : MemoryStore)
    → ((txn : PromotionTxn) × (get_promotion_txn id m ≡ ok txn))
      ⊎ (get_promotion_txn id m ≡ err not_found)
unfolding get_promotion_txn
get_promotion_txn-cases id m = elim (Option-cases (get id m.promo_txns)) [
  | inl g ↦ inr (rw g refl)
  | inr (txn, g) ↦ inl (txn, rw g refl)
]

module _ (format_time : Time → String) (id : String) (p : Promotion) (c : Cache)
    (known : get_promotion id c.store ≡ ok p) where
  committing :
      commit_promotion format_time id c
      ≡ commit_by_status format_time p (next_reading c) p.status (tick c)
  unfolding commit_promotion commit_promotion_locked
  committing = rw known refl

  committing_new :
      p.status ≡ promotion_prepared
      → get_promotion_txn p.id c.store ≡ err not_found
      → commit_promotion format_time id c
        ≡ resumed_or_checked format_time p (next_reading c) (err not_found) (tick c)
  committing_new s t = committing ∙ rw (s, t) refl

  committing_committed :
      p.status ≡ promotion_committed → commit_promotion format_time id c ≡ (ok p, tick c)
  committing_committed s = committing ∙ rw s refl

  committing_failed :
      p.status ≡ promotion_failed
      → commit_promotion format_time id c ≡ (err (stale_error p), tick c)
  committing_failed s = committing ∙ rw s refl

  committing_on :
      (txn : PromotionTxn)
      → p.status ≡ promotion_prepared
      → get_promotion_txn p.id c.store ≡ ok txn
      → commit_promotion format_time id c ≡ apply_promotion format_time p (next_reading c) (tick c)
  committing_on txn s t = committing ∙ rw (s, t) refl

  -- CommitPromotion publishes what was prepared, and only where nothing has changed. When it succeeds
  -- on a prepared promotion that has no redo log, the source was as it was frozen or gone, the quota was
  -- the same, the target's key was as it was then or held the promotion's entry, and every candidate of
  -- the eviction was unread and unpinned; afterwards the target's key holds an entry with the frozen
  -- digest that names the source and the request, and the result is recorded with no log left.
  pub commit_promotion-Promoted :
      (q : Promotion)
      → p.status ≡ promotion_prepared
      → get_promotion_txn p.id c.store ≡ err not_found
      → (commit_promotion format_time id c).0 ≡ ok q
      → Checked p (next_reading c) c.store
        × Promoted p
            (next_reading c)
            (found_at (target_key_of p) (commit_promotion format_time id c).1.store)
        × Recorded p q (commit_promotion format_time id c).1.store
  commit_promotion-Promoted q s t h =
      let e = committing_new s t in
      let now = next_reading c in
      let (checks, runs) = new_commit-Checked format_time p q now (tick c) (rw e at h) in
      let done : (apply_promotion format_time p now (tick c)).0 ≡ ok q = rw (← runs, ← e) h in
      rw (e, runs)
        (
          checks,
          apply_promotion-Promoted format_time p now (tick c) q (inl t) done,
          apply_promotion-Recorded format_time p now (tick c) q done,
        )

  refused_or_failed :
      (now : Time) (c1 : Cache) (v : Verdict) (k : String)
      → (target_key_of p ≢ k) ⊎ ((x : Error) × ((judged format_time p now v c1).0 ≡ err x))
      → Spared p now c1.store k
          (found_at k c1.store)
          (found_at k (judged format_time p now v c1).1.store)
  refused_or_failed now c1 (refused reason detail) k h =
      same (fail_promotion-entries Promotion k p reason detail now c1)
  refused_or_failed now c1 passed k h =
      elim (Option-cases (stale_eviction p.eviction now c1.store)) [
        | inl e ↦ rw e (apply_promotion-Spared format_time p now c1 k (rw e at h))
        | inr (d, e) ↦ rw e (same (fail_promotion-entries Promotion k p eviction_stale d now c1))
      ]

  new_commit-Spared :
      (now : Time) (c1 : Cache) (k : String)
      → (target_key_of p ≢ k)
        ⊎ ((x : Error) × ((resumed_or_checked format_time p now (err not_found) c1).0 ≡ err x))
      → Spared p now c1.store k
          (found_at k c1.store)
          (found_at k (resumed_or_checked format_time p now (err not_found) c1).1.store)
  new_commit-Spared now c1 k h = elim (Result-cases (validate_promotion format_time p c1.store)) [
    | inr (x, e) ↦ rw e (same refl)
    | inl (v, e) ↦ rw e (refused_or_failed now c1 v k (rw e at h))
  ]

  -- Whatever its outcome, CommitPromotion leaves every entry but the target as it was, except that it
  -- may carry out the eviction of the promotion, as the store has it, which spares what was read,
  -- republished or pinned; and where it fails, that holds of the target's key too.
  pub commit_promotion-Spared :
      (k : String)
      → (target_key_of p ≢ k) ⊎ ((x : Error) × ((commit_promotion format_time id c).0 ≡ err x))
      → Spared p
          (next_reading c)
          c.store
          k
          (found_at k c.store)
          (found_at k (commit_promotion format_time id c).1.store)
  commit_promotion-Spared k h =
      let now = next_reading c in
      elim (PromotionStatus-cases p.status) [
        | inr (inl s) ↦ rw (committing_committed s) (same refl)
        | inr (inr s) ↦ rw (committing_failed s) (same refl)
        | inl s ↦ elim (get_promotion_txn-cases p.id c.store) [
          | inl (txn, t) ↦
              let e = committing_on txn s t in
              rw e (apply_promotion-Spared format_time p now (tick c) k (rw e at h))
          | inr t ↦
              let e = committing_new s t in rw e (new_commit-Spared now (tick c) k (rw e at h))
        ]
      ]

  -- What a commit that succeeds leaves on record, whatever came before it.
  commit_promotion-kept :
      (q : Promotion)
      → p.id ≡ id
      → (commit_promotion format_time id c).0 ≡ ok q
      → (q.status ≡ promotion_committed)
        × (get_promotion id (commit_promotion format_time id c).1.store ≡ ok q)
  commit_promotion-kept q i h =
      let now = next_reading c in
      elim (PromotionStatus-cases p.status) [
        | inr (inl s) ↦
            let e = committing_committed s in
            let same_p = some_ok p q (rw e at h) in rw (e, ← same_p) (s, known)
        | inr (inr s) ↦ absurd (cc (rw (committing_failed s) at h))
        | inl s ↦ elim (get_promotion_txn-cases p.id c.store) [
          | inl (txn, t) ↦
              let e = committing_on txn s t in
              let r = apply_promotion-Recorded format_time p now (tick c) q (rw e at h) in
              rw e (r.result, kept_under q _ i r.kept)
          | inr t ↦
              let r = (commit_promotion-Promoted q s t h).2 in (r.result, kept_under q _ i r.kept)
        ]
      ]

-- After a CommitPromotion that has succeeded, a second one returns what it returned, and changes nothing
-- but the clock; the promotion is stored under its identifier.
pub commit_promotion-again :
    (format_time : Time → String) (id : String) (p q : Promotion) (c : Cache)
    → get_promotion id c.store ≡ ok p
    → p.id ≡ id
    → (commit_promotion format_time id c).0 ≡ ok q
    → commit_promotion format_time id (commit_promotion format_time id c).1
      ≡ (ok q, tick (commit_promotion format_time id c).1)
commit_promotion-again format_time id p q c known i h =
    let (s, kept) = commit_promotion-kept format_time id p c known q i h in
    committing_committed format_time id q (commit_promotion format_time id c).1 kept s
