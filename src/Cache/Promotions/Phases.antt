-- ===== src/Cache/Promotions/Phases.antt =====
-- promotion.go: how a promotion fails, and the first phase of its redo log, which makes room.
use Prim.Native.String.{◌++◌}
use go_build_cache.Prelude.{ℕ, String, Bool, Option, none, some, if◌then◌else◌}
use go_build_cache.Prelude.Exec.{Result, ok, err, Done, pure, raise, ◌>>=◌, ◌>>◌}
use go_build_cache.Prelude.Int64.{add64, sub64, lt64}
use go_build_cache.Prelude.Text.{itoa}
use go_build_cache.Model.{
  Time, Promotion, PromotionFailure, no_failure, eviction_stale, quota_short, source_changed,
  source_uploading, quota_version_changed, target_conflict, promotion_failed, EvictionDecision,
  EvictionStatus, eviction_proposed, eviction_committed, PromotionTxn, TxnPhase, txn_committing,
  txn_eviction, txn_entry,
}
use go_build_cache.Errors.{Error, not_found}
use go_build_cache.Store.{MemoryStore}
use go_build_cache.Store.Audit.{append_audit}
use go_build_cache.Store.Decisions.{get_decision}
use go_build_cache.Store.Promotions.{
  save_promotion, get_promotion_txn, save_promotion_txn, delete_promotion_txn,
}
use go_build_cache.Cache.{M, look, write}
use go_build_cache.Cache.Eviction.Plan.{namespace_used}
use go_build_cache.Cache.Eviction.Commit.{commit_eviction_locked}
use go_build_cache.Cache.Promotions.Requests.{record_promotion_request, stale_error}
use go_build_cache.Cache.Promotions.Prepare.{promotion_record}

-- The value of the constant, as the audit log has it.
abbrev pub failure_text : PromotionFailure → String
failure_text no_failure = ""
failure_text source_changed = "source_changed"
failure_text source_uploading = "source_uploading"
failure_text quota_version_changed = "quota_version_changed"
failure_text eviction_stale = "eviction_stale"
failure_text quota_short = "quota_exceeded"
failure_text target_conflict = "target_conflict"

failed_detail : Promotion → String → String
failed_detail p detail =
    "promotion="
    ++ p.id
    ++ " phase=failed reason="
    ++ failure_text p.fail_reason
    ++ " detail="
    ++ detail

-- failPromotionLocked. The promotion that comes back beside the error is what GetPromotion finds.
unfoldable pub fail_promotion : {A : Type 0} → Promotion → PromotionFailure → String → Time → M A
unfolding failed_detail
fail_promotion p reason detail now = do
  let failed : Promotion = record p {
    status = promotion_failed;
    fail_reason = reason;
    committed_at = now;
  }
  write (save_promotion failed)
  record_promotion_request failed now
  write (delete_promotion_txn p.id)
  write (append_audit (promotion_record now p.target_namespace (failed_detail failed detail)))
  raise (stale_error failed)

abbrev pub begun : Promotion → Time → Result Error PromotionTxn → M TxnPhase
begun p now (ok txn) = pure txn.phase
begun p now (err not_found) = do
  write (
      save_promotion_txn (record { promotion_id = p.id; phase = txn_committing; updated_at = now }))
  pure txn_committing
begun p now (err e) = raise e

-- The phase that the redo log stands in; a new log is written before anything changes.
unfoldable pub begin_txn : Promotion → Time → M TxnPhase
begin_txn p now c = begun p now (get_promotion_txn p.id c.store) c

unfoldable pub save_phase : Promotion → TxnPhase → Time → M Done
save_phase p phase now =
    write (save_promotion_txn (record { promotion_id = p.id; phase = phase; updated_at = now }))

abbrev pub with_decision : Promotion → Result Error EvictionDecision → Result Error Promotion
with_decision p (ok d) = ok (record p { eviction = some d })
with_decision p (err e) = err e

-- The store's copy of the eviction decision takes the place of the promotion's own.
abbrev pub refreshed : Option EvictionDecision → Promotion → MemoryStore → Result Error Promotion
refreshed none p m = ok p
refreshed (some d) p m = with_decision p (get_decision d.id m)

unfoldable pub refresh : Promotion → MemoryStore → Result Error Promotion
refresh p m = refreshed p.eviction p m

abbrev pub commit_proposed : EvictionDecision → EvictionStatus → Time → M EvictionDecision
commit_proposed d eviction_committed now = pure d
commit_proposed d eviction_proposed now = commit_eviction_locked d now

quota_short_detail : Promotion → ℕ → String
quota_short_detail p used =
    "after eviction used="
    ++ itoa used
    ++ " old_target="
    ++ itoa p.target_existing_size
    ++ " source="
    ++ itoa p.source_size
    ++ " exceeds max="
    ++ itoa p.quota.max_bytes

-- The quota, checked against what the namespace holds now.
unfoldable pub is_short : Promotion → ℕ → Bool
is_short p used = lt64 p.quota.max_bytes (add64 (sub64 used p.target_existing_size) p.source_size)

unfoldable pub check_room : Promotion → Time → M Promotion
unfolding quota_short_detail
check_room p now = do
  used ← look (namespace_used p.target_namespace)
  if is_short p used then fail_promotion p quota_short (quota_short_detail p used) now else pure p

abbrev pub evict_planned : Option EvictionDecision → Promotion → Time → M Promotion
evict_planned none p now = pure p
evict_planned (some d) p now = do
  done ← commit_proposed d d.status now
  check_room (record p { eviction = some done }) now

-- The first phase.
unfoldable pub evict_phase : TxnPhase → Promotion → Time → M Promotion
evict_phase txn_committing p now = do
  evicted ← evict_planned p.eviction p now
  save_phase evicted txn_eviction now
  pure evicted
evict_phase txn_eviction p now = pure p
evict_phase txn_entry p now = pure p

abbrev pub after_eviction : TxnPhase → TxnPhase
after_eviction txn_committing = txn_eviction
after_eviction txn_eviction = txn_eviction
after_eviction txn_entry = txn_entry

abbrev pub freed_by : Option EvictionDecision → ℕ
freed_by none = 0
freed_by (some d) = d.freed_bytes
