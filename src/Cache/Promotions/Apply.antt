-- ===== src/Cache/Promotions/Apply.antt =====
-- promotion.go: how a promotion is written, phase by phase of its redo log.
use Prim.Native.String.{◌++◌}
use go_build_cache.Prelude.{
  ℕ, String, Bool, true, false, ◌&&◌, Option, none, some, ◌==◌, str_eq, if◌then◌else◌,
}
use go_build_cache.Prelude.Exec.{Result, ok, err, Done, pure, ◌>>=◌, ◌>>◌}
use go_build_cache.Prelude.Int64.{add64, minus_one}
use go_build_cache.Prelude.Text.{itoa, decimal}
use go_build_cache.Digest.{equal}
use go_build_cache.Model.{
  Time, Entry, Promotion, PromotionOrigin, no_failure, target_conflict, promotion_committed,
  TxnPhase, txn_committing, txn_eviction, txn_entry,
}
use go_build_cache.Errors.{Error, cas_failed, entry_not_found}
use go_build_cache.Store.{MemoryStore}
use go_build_cache.Store.Audit.{append_audit}
use go_build_cache.Store.Entries.{get_entry, put_entry}
use go_build_cache.Store.Promotions.{save_promotion, delete_promotion_txn}
use go_build_cache.Cache.{M, query, look, write}
use go_build_cache.Cache.Eviction.Plan.{namespace_used}
use go_build_cache.Cache.Promotions.Requests.{record_promotion_request}
use go_build_cache.Cache.Promotions.Prepare.{promotion_record, ends_text}
use go_build_cache.Cache.Promotions.Validate.{Verdict, passed, refused, validate_promotion}
use go_build_cache.Cache.Promotions.Phases.{
  freed_by, fail_promotion, begin_txn, refresh, evict_phase, after_eviction, save_phase,
}

unfoldable pub target_entry : Promotion → Time → Entry
target_entry p now = record {
  namespace = p.target_namespace;
  key = p.target_key;
  version = add64 p.target_base_version 1;
  digest = p.source_digest;
  total_size = p.source_size;
  chunks = p.source_chunks;
  published_at = now;
  last_accessed_at = now;
  promoted_from = some (record {
    request_id = p.request_id;
    namespace = p.source_namespace;
    key = p.source_key;
    version = p.source_version;
    digest = p.source_digest;
  });
}

abbrev pub origin_present : Promotion → Option PromotionOrigin → Bool
origin_present p none = false
origin_present p (some o) =
    str_eq o.namespace p.source_namespace
    && (str_eq o.key p.source_key && str_eq o.request_id p.request_id)

abbrev pub present : Promotion → Result Error Entry → Result Error Bool
present p (err entry_not_found) = ok false
present p (err e) = err e
present p (ok entry) =
    ok (equal entry.digest p.source_digest && origin_present p entry.promoted_from)

-- promotionEntryPresentLocked
unfoldable pub promotion_entry_present : Promotion → MemoryStore → Result Error Bool
promotion_entry_present p m = present p (get_entry p.target_namespace p.target_key m)

-- The version condition of the write: a new key has to be free.
unfoldable pub target_cas : Promotion → ℕ
target_cas p = if p.target_base_version == 0 then minus_one else p.target_base_version

unfoldable pub promoted_detail : Promotion → ℕ → String
promoted_detail p freed =
    "promotion="
    ++ p.id
    ++ " phase=committed"
    ++ ends_text p
    ++ " target_version="
    ++ decimal p.target_version
    ++ " freed="
    ++ itoa freed
    ++ " used_before="
    ++ itoa p.used_before
    ++ " used_after="
    ++ itoa p.used_after

-- The third phase.
unfoldable pub finish_promotion : Promotion → Time → M Promotion
finish_promotion p now = do
  used ← look (namespace_used p.target_namespace)
  let done : Promotion = record p {
    status = promotion_committed;
    fail_reason = no_failure;
    target_version = add64 p.target_base_version 1;
    committed_at = now;
    used_after = used;
  }
  write (save_promotion done)
  record_promotion_request done now
  write (delete_promotion_txn p.id)
  write (
      append_audit
        (promotion_record now p.target_namespace (promoted_detail done (freed_by p.eviction))))
  pure done

abbrev pub detail_of : Result Error Verdict → String
detail_of (ok passed) = ""
detail_of (ok (refused reason detail)) = detail
detail_of (err e) = ""

-- The text of a time, which Go's library formats, is a parameter.
module _ (format_time : Time → String) where
  abbrev pub after_put : Promotion → Time → Result Error MemoryStore → M Done
  after_put p now (ok m) c = (ok tt, record c { store = m })
  after_put p now (err cas_failed) c =
      fail_promotion p target_conflict (detail_of (validate_promotion format_time p c.store)) now c
  after_put p now (err e) c = (err e, c)

  unfoldable pub put_target : Bool → Promotion → Time → M Done
  put_target true p now = pure tt
  put_target false p now =
      λ c. after_put p now (put_entry (target_entry p now) (target_cas p) c.store) c

  -- The second phase.
  unfoldable pub write_phase : TxnPhase → Promotion → Time → M Done
  write_phase txn_committing p now = pure tt
  write_phase txn_entry p now = pure tt
  write_phase txn_eviction p now = do
    there ← query (promotion_entry_present p)
    put_target there p now
    save_phase p txn_entry now

  -- applyPromotionLocked; the promotion comes back as it was changed
  unfoldable pub apply_promotion : Promotion → Time → M Promotion
  apply_promotion p now = do
    phase ← begin_txn p now
    fresh ← query (refresh p)
    evicted ← evict_phase phase fresh now
    write_phase (after_eviction phase) evicted now
    finish_promotion evicted now
