-- ===== src/Cache/Promotions/Commit.antt =====
-- promotion.go: CommitPromotion, Promote, and the promotions that a restart finds half committed.
use go_build_cache.Prelude.{if◌then◌else◌, String, Option, none, some, List, [], ◌∷◌}
use go_build_cache.Prelude.Exec.{Result, ok, err, Done, pure, raise, ◌>>=◌, ◌>>◌}
use go_build_cache.Model.{
  Time, Promotion, PromotionStatus, promotion_prepared, promotion_committed, promotion_failed,
  eviction_stale, EvictionDecision, PromotionTxn,
}
use go_build_cache.Errors.{Error, not_found, promotion_not_found}
use go_build_cache.Store.{MemoryStore}
use go_build_cache.Store.Promotions.{
  get_promotion, get_promotion_txn, delete_promotion_txn, list_promotion_txns,
}
use go_build_cache.Cache.{M, clock_now, query, look, write}
use go_build_cache.Cache.Promotions.Requests.{PromoteOptions, stale_error}
use go_build_cache.Cache.Promotions.Prepare.{prepare_promotion_locked, normalized}
use go_build_cache.Cache.Promotions.Validate.{
  Verdict, passed, refused, validate_promotion, eviction_stale_detail,
}
use go_build_cache.Cache.Promotions.Apply.{apply_promotion}
use go_build_cache.Cache.Promotions.Phases.{fail_promotion}

-- What stands against the eviction of a promotion that has one.
abbrev pub stale_eviction : Option EvictionDecision → Time → MemoryStore → Option String
stale_eviction none now m = none
stale_eviction (some d) now m = eviction_stale_detail d now m

-- The text of a time, which Go's library formats, is a parameter.
module _ (format_time : Time → String) where
  abbrev pub apply_unless : Promotion → Time → Option String → M Promotion
  apply_unless p now none = apply_promotion format_time p now
  apply_unless p now (some detail) = fail_promotion p eviction_stale detail now

  abbrev pub judged : Promotion → Time → Verdict → M Promotion
  judged p now (refused reason detail) = fail_promotion p reason detail now
  judged p now passed = do detail ← look (stale_eviction p.eviction now); apply_unless p now detail

  -- A commit that was begun before goes on where it stopped; another is checked first.
  abbrev pub resumed_or_checked : Promotion → Time → Result Error PromotionTxn → M Promotion
  resumed_or_checked p now (ok txn) = apply_promotion format_time p now
  resumed_or_checked p now (err not_found) = do
    verdict ← query (validate_promotion format_time p)
    judged p now verdict
  resumed_or_checked p now (err e) = raise e

  abbrev pub commit_by_status : Promotion → Time → PromotionStatus → M Promotion
  commit_by_status p now promotion_committed = pure p
  commit_by_status p now promotion_failed = raise (stale_error p)
  commit_by_status p now promotion_prepared =
      λ c. resumed_or_checked p now (get_promotion_txn p.id c.store) c

  -- commitPromotionLocked
  unfoldable pub commit_promotion_locked : Promotion → Time → M Promotion
  commit_promotion_locked p now = commit_by_status p now p.status

  -- Cache.CommitPromotion
  unfoldable pub commit_promotion : String → M Promotion
  commit_promotion id = do
    p ← query (get_promotion id)
    now ← clock_now
    commit_promotion_locked p now

  -- Cache.Promote
  unfoldable pub promote : PromoteOptions → M Promotion
  promote opts = do
    now ← clock_now
    r ← prepare_promotion_locked (normalized opts) now
    if r.replayed then pure r.promotion else commit_promotion_locked r.promotion now

  abbrev pub resume_by_status : Promotion → Time → PromotionStatus → M Done
  resume_by_status p now promotion_committed = write (delete_promotion_txn p.id)
  resume_by_status p now promotion_prepared = do apply_promotion format_time p now; pure tt
  resume_by_status p now promotion_failed = do apply_promotion format_time p now; pure tt

  abbrev pub resume_found : String → Time → Result Error Promotion → M Done
  resume_found id now (err promotion_not_found) = write (delete_promotion_txn id)
  resume_found id now (err e) = raise e
  resume_found id now (ok p) = resume_by_status p now p.status

  unfoldable pub resume_txn : Time → PromotionTxn → M Done
  resume_txn now txn c =
      resume_found txn.promotion_id now (get_promotion txn.promotion_id c.store) c

  unfoldable pub resume_each : Time → List PromotionTxn → M Done
  resume_each now [] = pure tt
  resume_each now (txn ∷ txns) = resume_txn now txn >> resume_each now txns

  abbrev pub resume_listed : List PromotionTxn → M Done
  resume_listed [] = pure tt
  resume_listed (txn ∷ txns) = do now ← clock_now; resume_each now (txn ∷ txns)

  -- resumePromotionTxns
  unfoldable pub resume_promotion_txns : M Done
  resume_promotion_txns = do txns ← look list_promotion_txns; resume_listed txns
