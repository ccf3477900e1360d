-- ===== src/Tests/Promotions.antt =====
-- Promotions at a concrete cache: the entry of "app" goes from the default namespace to "prod".
use go_build_cache.Prelude.{String, ◌≡◌, ◌≢◌, refl, none, [], ◌∷◌, inl, sort_by, insert_by}
use go_build_cache.Prelude.Exec.{ok, err}
use go_build_cache.Prelude.Int64.{add64, sub64, lt64, le64}
use go_build_cache.Prelude.Maps.{get, put, delete, values, string_eq}
use go_build_cache.Prelude.Text.{itoa, padded12}
use go_build_cache.Digest.{no_digest, equal, valid, validate_hex}
use go_build_cache.Model.{
  Namespace, Promotion, mode_copy, promotion_prepared, promotion_committed, no_failure,
  PromotionTxn, txn_eviction,
}
use go_build_cache.Errors.{not_found}
use go_build_cache.Store.{MemoryStore, entry_map_key, new_memory_store}
use go_build_cache.Store.Audit.{append_audit}
use go_build_cache.Store.Entries.{get_entry, put_entry, put_entry_at, list_entries, entry_before}
use go_build_cache.Store.Entries.Swap.{stored}
use go_build_cache.Store.Promotions.{
  save_promotion, get_promotion, get_promotion_txn, get_promotion_request, save_promotion_txn,
  delete_promotion_txn,
}
use go_build_cache.Store.Sessions.{get_namespace, list_sessions}
use go_build_cache.Cache.{Cache, next_reading, tick, require_namespace, norm_namespace}
use go_build_cache.Cache.Eviction.Plan.{namespace_used, used_from}
use go_build_cache.Cache.Eviction.Deletions.{found_at}
use go_build_cache.Cache.Promotions.Requests.{
  PromoteOptions, lookup_promotion_request, record_promotion_request,
}
use go_build_cache.Cache.Promotions.Plan.{key_uploading}
use go_build_cache.Cache.Promotions.Prepare.{
  prepare_promotion, prepare_promotion_locked, normalized, checked_options, first_promotion,
  frozen_source, target_base, next_promotion, with_room, save_prepared, new_promotion,
}
use go_build_cache.Cache.Promotions.Saving.{SameData}
use go_build_cache.Cache.Promotions.Requested.{prepare_promotion-again, prepare_promotion-SameData}
use go_build_cache.Cache.Promotions.Recovery.{Settled, resume_txn-Recovered}
use go_build_cache.Cache.Promotions.Interruptions.{at_phase, room_made}
use go_build_cache.Ids.{promotion_id}
use go_build_cache.Cache.Promotions.Validate.{
  validate_promotion, check_source, check_quota, check_target,
}
use go_build_cache.Cache.Promotions.Phases.{begin_txn, refresh, evict_phase, save_phase}
use go_build_cache.Cache.Promotions.Apply.{
  target_entry, target_cas, promotion_entry_present, put_target, write_phase, finish_promotion,
  apply_promotion,
}
use go_build_cache.Cache.Promotions.Commit.{commit_promotion, commit_promotion_locked, resume_txn}
use go_build_cache.Cache.Promotions.Effects.{Recorded}
use go_build_cache.Cache.Promotions.Writes.{target_key_of}
use go_build_cache.Cache.Promotions.Checks.{Checked}
use go_build_cache.Cache.Promotions.Changes.{Promoted, Spared}
use go_build_cache.Cache.Promotions.Guarantees.{
  commit_promotion-Promoted, commit_promotion-Spared, commit_promotion-again,
}
use go_build_cache.Tests.{sha, app, cache_on}

abbrev quota_free : String → Namespace
quota_free name = record { name = name; max_bytes = 0; created_at = 1; updated_at = 1 }

abbrev two_namespaces : MemoryStore
two_namespaces = record (stored app new_memory_store) {
  namespaces = ("default", quota_free "default") ∷ ("prod", quota_free "prod") ∷ [];
}

abbrev pub to_prod : Promotion
to_prod = record {
  id = "promo-1";
  request_id = "r1";
  source_namespace = "default";
  source_key = "app";
  source_version = 3;
  source_digest = sha;
  source_size = 40;
  source_chunks = app.chunks;
  target_namespace = "prod";
  target_key = "app";
  mode = mode_copy;
  target_base_version = 0;
  target_existing_digest = no_digest;
  target_existing_size = 0;
  quota = record { max_bytes = 0; updated_at = 1 };
  used_before = 0;
  used_after = 0;
  eviction = none;
  status = promotion_prepared;
  fail_reason = no_failure;
  target_version = 0;
  created_at = 8;
  committed_at = 0;
}

abbrev with_promotion : MemoryStore
with_promotion = record two_namespaces { promotions = ("promo-1", to_prod) ∷ [] }

abbrev promoted : Promotion
promoted = record to_prod {
  status = promotion_committed;
  target_version = 1;
  used_after = 40;
  committed_at = 10;
}

committed_run : (commit_promotion itoa "promo-1" (cache_on with_promotion)).0 ≡ ok promoted
unfolding commit_promotion commit_promotion_locked get_promotion get_promotion_txn
    validate_promotion check_source check_quota check_target require_namespace get_namespace
    get_entry apply_promotion begin_txn refresh evict_phase write_phase save_phase put_target
    put_entry put_entry_at target_entry target_cas promotion_entry_present finish_promotion
    save_promotion record_promotion_request append_audit delete_promotion_txn namespace_used
    used_from list_entries entry_before sort_by insert_by values get put delete add64 lt64
    entry_map_key equal save_promotion_txn
committed_run = refl

promotion_stored : get_promotion "promo-1" with_promotion ≡ ok to_prod
unfolding get_promotion get
promotion_stored = refl

no_log_yet : get_promotion_txn "promo-1" with_promotion ≡ err not_found
unfolding get_promotion_txn get
no_log_yet = refl

commit_promotion-Promoted_example :
    Checked to_prod (next_reading (cache_on with_promotion)) with_promotion
    × Promoted to_prod (next_reading (cache_on with_promotion)) (
        found_at
          (target_key_of to_prod)
          (commit_promotion itoa "promo-1" (cache_on with_promotion)).1.store)
    × Recorded to_prod promoted (commit_promotion itoa "promo-1" (cache_on with_promotion)).1.store
commit_promotion-Promoted_example =
    commit_promotion-Promoted itoa "promo-1" to_prod (cache_on with_promotion) promotion_stored
      promoted refl no_log_yet committed_run

-- The map key of another entry.
abbrev app_key : String
app_key = entry_map_key "default" "app"

other_key : target_key_of to_prod ≢ app_key
unfolding entry_map_key
other_key e = cc

commit_promotion-Spared_example :
    Spared to_prod
      (next_reading (cache_on with_promotion))
      with_promotion
      app_key
      (found_at app_key with_promotion)
      (found_at app_key (commit_promotion itoa "promo-1" (cache_on with_promotion)).1.store)
commit_promotion-Spared_example =
    commit_promotion-Spared itoa "promo-1" to_prod (cache_on with_promotion) promotion_stored
      app_key (inl other_key)

commit_promotion-again_example :
    commit_promotion itoa "promo-1" (commit_promotion itoa "promo-1" (cache_on with_promotion)).1
    ≡ (ok promoted, tick (commit_promotion itoa "promo-1" (cache_on with_promotion)).1)
commit_promotion-again_example =
    commit_promotion-again itoa "promo-1" to_prod promoted (cache_on with_promotion)
      promotion_stored refl committed_run

abbrev ask_copy : PromoteOptions
ask_copy = record {
  source_namespace = "default";
  source_key = "app";
  expected_digest = sha;
  target_namespace = "prod";
  target_key = "app";
  mode = mode_copy;
  request_id = "r1";
}

abbrev prepared_copy : Promotion
prepared_copy = record to_prod { id = "promo-000000000001"; created_at = 10 }

prepared_run : (prepare_promotion ask_copy (cache_on two_namespaces)).0 ≡ ok prepared_copy
unfolding prepare_promotion prepare_promotion_locked normalized checked_options
    lookup_promotion_request get_promotion_request first_promotion frozen_source key_uploading
    list_sessions target_base next_promotion with_room save_prepared new_promotion require_namespace
    get_namespace get_entry record_promotion_request save_promotion append_audit namespace_used
    used_from list_entries entry_before sort_by insert_by values get put add64 sub64 lt64 le64
    entry_map_key equal valid validate_hex norm_namespace promotion_id padded12
prepared_run = refl

some_request : ask_copy.request_id ≢ ""
some_request e = cc

prepare_promotion-again_example :
    prepare_promotion ask_copy (prepare_promotion ask_copy (cache_on two_namespaces)).1
    ≡ (ok prepared_copy, tick (prepare_promotion ask_copy (cache_on two_namespaces)).1)
prepare_promotion-again_example =
    prepare_promotion-again ask_copy (cache_on two_namespaces) prepared_copy some_request
      prepared_run

prepare_promotion-SameData_example :
    SameData two_namespaces (prepare_promotion ask_copy (cache_on two_namespaces)).1.store
prepare_promotion-SameData_example = prepare_promotion-SameData ask_copy (cache_on two_namespaces)

-- A crash after room has been made.
abbrev crashed : Cache
crashed = cache_on (at_phase to_prod txn_eviction 9 with_promotion)

nothing_planned : refresh to_prod with_promotion ≡ ok to_prod
unfolding refresh
nothing_planned = refl

abbrev crash_log : PromotionTxn
crash_log = record { promotion_id = "promo-1"; phase = txn_eviction; updated_at = 9 }

resume_txn-Recovered_example :
    Settled to_prod with_promotion crashed.store
      (resume_txn itoa 12 crash_log crashed).0
      (resume_txn itoa 12 crash_log crashed).1.store
resume_txn-Recovered_example =
    resume_txn-Recovered itoa to_prod to_prod 9 12 with_promotion crash_log refl promotion_stored
      refl nothing_planned crashed (room_made refl)
