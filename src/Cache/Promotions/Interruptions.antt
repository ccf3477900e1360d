-- ===== src/Cache/Promotions/Interruptions.antt =====
-- The states in which a crash can leave a commit that had made room, and what a restart finds.
use go_build_cache.Prelude.{String, ◌≡◌, refl, sym, ◌∙◌, inl, inr}
use go_build_cache.Prelude.Exec.{ok, err}
use go_build_cache.Prelude.Maps.{string_eq}
use go_build_cache.Model.{
  Time, Promotion, PromotionStatus, promotion_prepared, promotion_committed, PromotionTxn,
  PromotionRequest, TxnPhase, txn_eviction, txn_entry,
}
use go_build_cache.Errors.{not_found}
use go_build_cache.Store.{MemoryStore}
use go_build_cache.Store.Entries.Swap.{stored}
use go_build_cache.Store.Promotions.{
  save_promotion, save_promotion_request, get_promotion, get_promotion_txn, save_promotion_txn,
  delete_promotion_txn,
}
use go_build_cache.Cache.{Cache}
use go_build_cache.Cache.Promotions.Apply.{target_entry, apply_promotion}
use go_build_cache.Cache.Promotions.Commit.{resume_by_status, resume_found, resume_txn}
use go_build_cache.Cache.Promotions.Failing.{begin_txn_lem}
use go_build_cache.Cache.Promotions.Commitment.{apply_from, apply_promotion-Recorded}
use go_build_cache.Cache.Promotions.Preparation.{ok-eq}
use go_build_cache.Cache.Promotions.Resumption.{WentOn}

-- The log with a phase.
abbrev pub at_phase : Promotion → TxnPhase → Time → MemoryStore → MemoryStore
at_phase p phase now m =
    save_promotion_txn (record { promotion_id = p.id; phase = phase; updated_at = now }) m

-- The entry is written, and the log says so.
abbrev entry_logged : Promotion → Time → MemoryStore → MemoryStore
entry_logged p now b =
    at_phase p txn_entry now (stored (target_entry p now) (at_phase p txn_eviction now b))

-- The stores that a crash can leave behind once room has been made in `b`, one for each write that
-- follows.
pub data Interrupted (p : Promotion) (now : Time) (b m : MemoryStore) : Type 0 where
  room_made : m ≡ at_phase p txn_eviction now b → Interrupted p now b m
  entry_written :
      m ≡ stored (target_entry p now) (at_phase p txn_eviction now b) → Interrupted p now b m
  entry_recorded : m ≡ entry_logged p now b → Interrupted p now b m
  result_saved :
      (q : Promotion)
      → q.id ≡ p.id
      → q.status ≡ promotion_committed
      → m ≡ save_promotion q (entry_logged p now b)
      → Interrupted p now b m
  request_saved :
      (q : Promotion) (rec : PromotionRequest)
      → q.id ≡ p.id
      → q.status ≡ promotion_committed
      → m ≡ save_promotion_request rec (save_promotion q (entry_logged p now b))
      → Interrupted p now b m

-- What a restart has to reach.
pub record Recovered (p : Promotion) (old new : MemoryStore) : Type 0 where
  pub entries : WentOn p old new
  pub no_log : get_promotion_txn p.id new ≡ err not_found
  pub result : Promotion
  pub kept : get_promotion p.id new ≡ ok result
  pub committed : result.status ≡ promotion_committed

module _ (format_time : Time → String) (p : Promotion) (now : Time) (c : Cache) where
  pub applying_log :
      (log : PromotionTxn)
      → get_promotion_txn p.id c.store ≡ ok log
      → apply_promotion format_time p now c ≡ apply_from format_time p now log.phase c
  unfolding apply_promotion
  applying_log log l = elim (begin_txn_lem p now c) [
    | inr (t, e) ↦ absurd (cc (t, l))
    | inl (x, t, e) ↦ rw (e, ok-eq x log (sym t ∙ l)) refl
  ]

  resume_status :
      (st : PromotionStatus) (q : Promotion)
      → st ≡ promotion_prepared
      → (apply_promotion format_time p now c).0 ≡ ok q
      → resume_by_status format_time p now st c ≡ (ok tt, (apply_promotion format_time p now c).1)
  resume_status st q e h = rw (e, h) refl

  pub resume_status-committed :
      (st : PromotionStatus)
      → st ≡ promotion_committed
      → resume_by_status format_time p now st c
        ≡ (ok tt, record c { store = delete_promotion_txn p.id c.store })
  resume_status-committed st e = rw e refl

  pub resuming :
      (txn : PromotionTxn)
      → txn.promotion_id ≡ p.id
      → get_promotion p.id c.store ≡ ok p
      → resume_txn format_time now txn c ≡ resume_by_status format_time p now p.status c
  unfolding resume_txn
  resuming txn i g = resume_key txn.promotion_id i
    where
      resume_key :
          (id : String)
          → id ≡ p.id
          → resume_found format_time id now (get_promotion id c.store) c
            ≡ resume_by_status format_time p now p.status c
      resume_key id i = rw i (rw g refl)

  -- The restart of a prepared promotion whose log stands in a phase.
  pub resume_prepared :
      (txn log : PromotionTxn) (q : Promotion)
      → txn.promotion_id ≡ p.id
      → get_promotion p.id c.store ≡ ok p
      → p.status ≡ promotion_prepared
      → get_promotion_txn p.id c.store ≡ ok log
      → (apply_from format_time p now log.phase c).0 ≡ ok q
      → WentOn p c.store (apply_from format_time p now log.phase c).1.store
      → ((resume_txn format_time now txn c).0 ≡ ok tt)
        × Recovered p c.store (resume_txn format_time now txn c).1.store
  resume_prepared txn log q i g s l done on =
      let same = applying_log log l in
      let res : (apply_promotion format_time p now c).0 ≡ ok q = rw same done in
      let r = apply_promotion-Recorded format_time p now c q res in
      rw (resuming txn i g ∙ resume_status p.status q s res) (
        refl,
        record {
          entries = rw same on;
          no_log = r.no_log;
          result = q;
          kept = r.kept;
          committed = r.result;
        },
      )
