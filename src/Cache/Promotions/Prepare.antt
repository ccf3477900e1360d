-- ===== src/Cache/Promotions/Prepare.antt =====
-- promotion.go: PreparePromotion. It freezes the source and plans what has to go, and changes no entry.
use Prim.Native.String.{◌++◌}
use go_build_cache.Prelude.{
  ℕ, String, Bool, true, false, not, ◌&&◌, ◌||◌, Option, none, some, str_eq, if◌then◌else◌,
}
use go_build_cache.Prelude.Exec.{Result, ok, err, pure, raise, reject, ◌>>=◌, ◌>>◌}
use go_build_cache.Prelude.Int64.{add64, sub64, le64, lt64}
use go_build_cache.Digest.{Digest, no_digest, valid, equal}
use go_build_cache.Ids.{promotion_id}
use go_build_cache.Model.{
  Time, Entry, Namespace, Promotion, PromotionMode, mode_copy, mode_replace, mode_other,
  promotion_prepared, no_failure, GcRecord, gc_promotion,
}
use go_build_cache.Errors.{
  Error, entry_not_found, promotion_conflict, promotion_digest_conflict, uploading, target_exists,
  same_digest, same_namespace, quota_exceeded, plain,
}
use go_build_cache.Store.{MemoryStore}
use go_build_cache.Store.Audit.{append_audit}
use go_build_cache.Store.Entries.{get_entry}
use go_build_cache.Store.Promotions.{save_promotion}
use go_build_cache.Cache.{M, clock_now, query, look, write, norm_namespace, require_namespace}
use go_build_cache.Cache.Eviction.Plan.{namespace_used}
use go_build_cache.Cache.Promotions.Requests.{
  PromoteOptions, mode_text, default_mode, is_known_mode, promotion_fingerprint,
  lookup_promotion_request, record_promotion_request, is_failed, stale_error,
}
use go_build_cache.Cache.Promotions.Plan.{key_uploading, plan_promotion_eviction, freeable_from}

-- What the target key holds when the promotion is prepared.
pub record TargetBase : Type 0 where
  pub version : ℕ
  pub size : ℕ
  pub digest : Digest

abbrev is_copy : PromotionMode → Bool
is_copy mode_copy = true
is_copy mode_replace = false
is_copy (mode_other s) = false

abbrev pub base_of : PromoteOptions → Entry → Result Error Entry → Result Error TargetBase
base_of opts source (err entry_not_found) =
    ok (record { version = 0; size = 0; digest = no_digest })
base_of opts source (err e) = err e
base_of opts source (ok target) =
    if is_copy opts.mode
    then err (promotion_conflict opts.target_namespace opts.target_key target_exists)
    else if equal target.digest source.digest
    then err (promotion_conflict opts.target_namespace opts.target_key same_digest)
    else ok (record { version = target.version; size = target.total_size; digest = target.digest })

unfoldable pub target_base : PromoteOptions → Entry → MemoryStore → Result Error TargetBase
target_base opts source m = base_of opts source (get_entry opts.target_namespace opts.target_key m)

unfoldable pub new_promotion :
    PromoteOptions → Entry → TargetBase → Namespace → ℕ → Time → ℕ → Promotion
new_promotion opts source base ns used now seq = record {
  id = promotion_id seq;
  request_id = opts.request_id;
  source_namespace = opts.source_namespace;
  source_key = opts.source_key;
  source_version = source.version;
  source_digest = source.digest;
  source_size = source.total_size;
  source_chunks = source.chunks;
  target_namespace = opts.target_namespace;
  target_key = opts.target_key;
  mode = opts.mode;
  target_base_version = base.version;
  target_existing_digest = base.digest;
  target_existing_size = base.size;
  quota = record { max_bytes = ns.max_bytes; updated_at = ns.updated_at };
  used_before = used;
  used_after = 0;
  eviction = none;
  status = promotion_prepared;
  fail_reason = no_failure;
  target_version = 0;
  created_at = now;
  committed_at = 0;
}

-- newPromotionID
unfoldable pub next_promotion : M ℕ
next_promotion c = (ok (add64 c.promo_seq 1), record c { promo_seq = add64 c.promo_seq 1 })

abbrev pub promotion_record : Time → String → String → GcRecord
promotion_record now namespace detail = record {
  time = now;
  generation = 0;
  action = gc_promotion;
  blob = no_digest;
  key = namespace;
  session_id = "";
  reason = "";
  detail = detail;
}

abbrev pub ends_text : Promotion → String
ends_text p =
    " src=" ++ p.source_namespace ++ "/" ++ p.source_key ++ " tgt=" ++ p.target_namespace ++ "/"
    ++ p.target_key

unfoldable pub prepared_detail : Promotion → String
prepared_detail p =
    "promotion="
    ++ p.id
    ++ " phase=prepared"
    ++ ends_text p
    ++ " mode="
    ++ mode_text p.mode
    ++ " request="
    ++ p.request_id

-- The part in which something has to go; a plan that cannot free enough is refused.
unfoldable pub with_plan : Namespace → ℕ → ℕ → Promotion → Time → M Promotion
with_plan ns used need p now = do
  decision ← plan_promotion_eviction ns need p.target_key p.source_chunks now
  reject (lt64 (freeable_from 0 decision.candidates) need)
      (quota_exceeded ns.name ns.max_bytes used need (freeable_from 0 decision.candidates))
  pure (record p { eviction = some decision })

unfoldable pub with_room : Namespace → Promotion → Time → M Promotion
with_room ns p now =
    let projected = add64 (sub64 p.used_before p.target_existing_size) p.source_size in
    if not (le64 ns.max_bytes 0) && lt64 ns.max_bytes projected
    then with_plan ns p.used_before (sub64 projected ns.max_bytes) p now
    else pure p

unfoldable pub save_prepared : Promotion → Time → M Promotion
save_prepared p now = do
  write (save_promotion p)
  record_promotion_request p now
  write (append_audit (promotion_record now p.target_namespace (prepared_detail p)))
  pure p

-- What is checked before a promotion is made: the source, and what the target key holds.
unfoldable pub frozen_source : PromoteOptions → Time → M Entry
frozen_source opts now = do
  busy ← look (key_uploading opts.source_namespace opts.source_key now)
  reject busy (promotion_conflict opts.source_namespace opts.source_key uploading)
  source ← query (get_entry opts.source_namespace opts.source_key)
  reject (not (equal source.digest opts.expected_digest)) (
      promotion_digest_conflict opts.source_namespace opts.source_key opts.expected_digest
        source.digest)
  pure source

unfoldable pub first_promotion : PromoteOptions → Time → M Promotion
first_promotion opts now = do
  query (require_namespace opts.source_namespace)
  ns ← query (require_namespace opts.target_namespace)
  source ← frozen_source opts now
  base ← query (target_base opts source)
  used ← look (namespace_used opts.target_namespace)
  seq ← next_promotion
  p ← with_room ns (new_promotion opts source base ns used now seq) now
  save_prepared p now

-- A promotion, and whether it was found under its request number.
pub record Prepared : Type 0 where
  pub promotion : Promotion
  pub replayed : Bool

abbrev pub first_or_found : PromoteOptions → Time → Option Promotion → M Prepared
first_or_found opts now none = do
  p ← first_promotion opts now
  pure (record { promotion = p; replayed = false })
first_or_found opts now (some p) =
    if is_failed p.status
    then raise (stale_error p)
    else pure (record { promotion = p; replayed = true })

-- The checks that need no store. The text of the last error is not modelled in full: it goes on with
-- the mode in quotes.
unfoldable pub checked_options : PromoteOptions → M PromoteOptions
checked_options opts = do
  reject (str_eq opts.source_key "" || str_eq opts.target_key "")
      (plain "buildcache: source and target cache keys are required")
  reject (not (valid opts.expected_digest)) (plain "buildcache: valid source digest is required")
  reject (not (is_known_mode (default_mode opts.mode))) (plain "buildcache: invalid promotion mode")
  reject
      (str_eq opts.source_namespace opts.target_namespace && str_eq opts.source_key opts.target_key)
      (promotion_conflict opts.source_namespace opts.source_key same_namespace)
  pure (record opts { mode = default_mode opts.mode })

-- preparePromotionLocked
unfoldable pub prepare_promotion_locked : PromoteOptions → Time → M Prepared
prepare_promotion_locked opts now = do
  checked ← checked_options opts
  found ← query (lookup_promotion_request checked.request_id (promotion_fingerprint checked))
  first_or_found checked now found

unfoldable pub normalized : PromoteOptions → PromoteOptions
normalized opts = record opts {
  source_namespace = norm_namespace opts.source_namespace;
  target_namespace = norm_namespace opts.target_namespace;
}

-- Cache.PreparePromotion
unfoldable pub prepare_promotion : PromoteOptions → M Promotion
unfolding normalized
prepare_promotion opts = do
  now ← clock_now
  r ← prepare_promotion_locked (normalized opts) now
  pure r.promotion
