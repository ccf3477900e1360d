-- ===== src/Cache/Promotions/Conflict.antt =====
-- A resumed commit whose target has been taken: it fails with a conflict, and is recorded as failed.
use go_build_cache.Prelude.{
  ℕ, String, ◌≡◌, refl, ◌∙◌, true, false, Option, eq_iff, Bool-cases, inl, inr, ◌⊎◌, ◌==◌, ==_iff,
}
use go_build_cache.Prelude.Exec.{Result, ok, err, Done}
use go_build_cache.Prelude.Int64.{lt64}
use go_build_cache.Prelude.Maps.{get-put, get-delete, string_eq}
use go_build_cache.Model.{
  Time, Entry, Promotion, PromotionStatus, promotion_prepared, promotion_failed, target_conflict,
  PromotionTxn, EvictionDecision, txn_eviction,
}
use go_build_cache.Errors.{Error, cas_failed, not_found, promotion_stale}
use go_build_cache.Store.{MemoryStore}
use go_build_cache.Store.Audit.{append_audit}
use go_build_cache.Store.Entries.{get_entry, put_entry}
use go_build_cache.Store.Entries.Swap.{Matches, put_entry-refused}
use go_build_cache.Store.Promotions.{
  save_promotion, get_promotion, get_promotion_txn, delete_promotion_txn,
}
use go_build_cache.Cache.{Cache}
use go_build_cache.Cache.Eviction.Deletions.{found_at}
use go_build_cache.Cache.Promotions.Phases.{refresh, evict_phase, fail_promotion}
use go_build_cache.Cache.Promotions.Apply.{
  target_entry, target_cas, promotion_entry_present, detail_of, put_target, write_phase,
  apply_promotion,
}
use go_build_cache.Cache.Promotions.Validate.{validate_promotion}
use go_build_cache.Cache.Promotions.Commit.{resume_by_status, resume_txn}
use go_build_cache.Cache.Promotions.Effects.{refresh-ok, record_promotion_request-promotions}
use go_build_cache.Cache.Promotions.Failing.{
  record_promotion_request-ok, fail_promotion-entries, fail_promotion-err,
}
use go_build_cache.Cache.Promotions.Writes.{promotion_entry_present_lem}
use go_build_cache.Cache.Promotions.Commitment.{apply_from}
use go_build_cache.Cache.Promotions.Resumption.{IsThere, Ready}
use go_build_cache.Cache.Promotions.Interruptions.{applying_log, resuming}

-- What a conflict leaves: every entry as it was, the promotion recorded as failed, and no log.
pub record Conflicted (p : Promotion) (old new : MemoryStore) : Type 0 where
  pub entries : (k : String) → found_at k new ≡ found_at k old
  pub no_log : get_promotion_txn p.id new ≡ err not_found
  pub result : Promotion
  pub kept : get_promotion p.id new ≡ ok result
  pub failed : result.status ≡ promotion_failed
  pub reason : result.fail_reason ≡ target_conflict

fail_promotion-Conflicted :
    (A : Type 0) (p : Promotion) (detail : String) (now : Time) (c : Cache)
    → Conflicted p c.store (fail_promotion {A = A} p target_conflict detail now c).1.store
unfolding fail_promotion save_promotion delete_promotion_txn append_audit get_promotion
    get_promotion_txn
fail_promotion-Conflicted A p detail now c =
    let failed : Promotion = record p {
      status = promotion_failed;
      fail_reason = target_conflict;
      committed_at = now;
    } in
    let saved : Cache = record c { store = save_promotion failed c.store } in
    let (same, logs) = record_promotion_request-promotions failed now saved in
    let here = (eq_iff p.id p.id).1 refl in
    record {
      entries = λ k. fail_promotion-entries A k p target_conflict detail now c;
      no_log =
          rw
            (
              record_promotion_request-ok failed now saved,
              logs,
              get-delete p.id p.id c.store.promo_txns,
              here,
            )
            refl;
      result = failed;
      kept =
          rw
            (
              record_promotion_request-ok failed now saved,
              same,
              get-put p.id p.id failed c.store.promotions,
              here,
            )
            refl;
      failed = refl;
      reason = refl;
    }

Matches-cases : (want : ℕ) (r : Result Error Entry) → Matches want r ⊎ (¬ Matches want r)
Matches-cases want (err x) = elim (Bool-cases (lt64 want 0)) [
  | inl y ↦ inl y
  | inr n ↦ inr (λ h. cc (h, n))
]
Matches-cases want (ok e) = elim (Bool-cases (lt64 want 0)) [
  | inl y ↦ inr (λ h. cc (h.0, y))
  | inr n ↦ elim (Bool-cases (e.version == want)) [
    | inl y ↦ inl (n, (==_iff e.version want).0 y)
    | inr m ↦ inr (λ h. cc ((==_iff e.version want).1 h.1, m))
  ]
]

there_present :
    (p : Promotion) (m : MemoryStore)
    → IsThere p (get_entry p.target_namespace p.target_key m)
    → promotion_entry_present p m ≡ ok true
unfolding promotion_entry_present
there_present p m (e, g, d, o) = rw (g, d, o) refl

-- The second phase can go on, or its write is refused.
pub Ready-cases :
    (p : Promotion) (now : Time) (m : MemoryStore)
    → Ready p m
      ⊎ ((¬ Ready p m)
          × (promotion_entry_present p m ≡ ok false)
          × (put_entry (target_entry p now) (target_cas p) m ≡ err cas_failed))
unfolding target_entry
Ready-cases p now m = elim (promotion_entry_present_lem p m) [
  | inr (e, g, d, o, there) ↦ inl (inl (e, g, d, o))
  | inl fresh ↦ elim (Matches-cases (target_cas p) (get_entry p.target_namespace p.target_key m)) [
    | inl y ↦ inl (inr y)
    | inr n ↦ inr (
      λ ready. elim ready [ inl t ↦ cc (there_present p m t, fresh) | inr y ↦ n y ],
      fresh,
      put_entry-refused (target_entry p now) (target_cas p) m n,
    )
  ]
]

pub Ready-planned :
    (p fresh : Promotion) (w : Option EvictionDecision) (m : MemoryStore)
    → fresh ≡ record p { eviction = w }
    → Ready fresh m
    → Ready p m
unfolding target_cas
Ready-planned p fresh w m e h = rw e at h

Conflicted-planned :
    (p fresh : Promotion) (w : Option EvictionDecision) (a b : MemoryStore)
    → fresh ≡ record p { eviction = w }
    → Conflicted fresh a b
    → Conflicted p a b
Conflicted-planned p fresh w a b e h = record {
  entries = h.entries;
  no_log = rw e at (h.no_log);
  result = h.result;
  kept = rw e at (h.kept);
  failed = h.failed;
  reason = h.reason;
}

module _ (format_time : Time → String) (p : Promotion) (now : Time) (c : Cache) where
  write_phase_conflict :
      promotion_entry_present p c.store ≡ ok false
      → put_entry (target_entry p now) (target_cas p) c.store ≡ err cas_failed
      → (detail : String) × (write_phase format_time txn_eviction p now c ≡ (
        err (promotion_stale p.id target_conflict),
        (fail_promotion {A = Done} p target_conflict detail now c).1,
      ))
  unfolding write_phase put_target
  write_phase_conflict absent refused =
      let detail = detail_of (validate_promotion format_time p c.store) in
      (detail, rw (absent, refused, fail_promotion-err Done p target_conflict detail now c) refl)

module _ (format_time : Time → String) (p : Promotion) (now : Time) (c : Cache) where
  apply_from_conflict :
      (fresh : Promotion)
      → refresh p c.store ≡ ok fresh
      → promotion_entry_present fresh c.store ≡ ok false
      → put_entry (target_entry fresh now) (target_cas fresh) c.store ≡ err cas_failed
      → ((apply_from format_time p now txn_eviction c).0
          ≡ err (promotion_stale fresh.id target_conflict))
        × Conflicted fresh c.store (apply_from format_time p now txn_eviction c).1.store
  unfolding evict_phase
  apply_from_conflict fresh e absent refused =
      let (detail, w) = write_phase_conflict format_time fresh now c absent refused in
      (rw (e, w) refl, rw (e, w) (fail_promotion-Conflicted Done fresh detail now c))

  resume_status-err :
      (st : PromotionStatus) (x : Error)
      → st ≡ promotion_prepared
      → (apply_promotion format_time p now c).0 ≡ err x
      → resume_by_status format_time p now st c ≡ (err x, (apply_promotion format_time p now c).1)
  resume_status-err st x e h = rw (e, h) refl

  -- A restart whose second phase cannot go on.
  pub resume_conflict :
      (txn log : PromotionTxn) (fresh : Promotion)
      → txn.promotion_id ≡ p.id
      → get_promotion p.id c.store ≡ ok p
      → p.status ≡ promotion_prepared
      → get_promotion_txn p.id c.store ≡ ok log
      → log.phase ≡ txn_eviction
      → refresh p c.store ≡ ok fresh
      → promotion_entry_present fresh c.store ≡ ok false
      → put_entry (target_entry fresh now) (target_cas fresh) c.store ≡ err cas_failed
      → ((resume_txn format_time now txn c).0 ≡ err (promotion_stale p.id target_conflict))
        × Conflicted p c.store (resume_txn format_time now txn c).1.store
  resume_conflict txn log fresh i g s l at e absent refused =
      let (w, a) = refresh-ok p fresh c.store e in
      let (res, left) = apply_from_conflict fresh e absent refused in
      let same = applying_log format_time p now c log l in
      let named : fresh.id ≡ p.id = rw a refl in
      let failed : (apply_promotion format_time p now c).0
          ≡ err (promotion_stale p.id target_conflict) =
        rw (same, at, res, named) refl in
      let kept : Conflicted fresh c.store (apply_promotion format_time p now c).1.store =
        rw (same, at) left in
      rw
        (resuming format_time p now c txn i g
          ∙ resume_status-err p.status (promotion_stale p.id target_conflict) s failed)
        (
          refl,
          Conflicted-planned p fresh w c.store (apply_promotion format_time p now c).1.store a kept,
        )
