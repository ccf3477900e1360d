-- ===== src/Cache/Promotions/Validate.antt =====
-- promotion.go: what is checked again when a promotion is committed. Nothing here changes the state.
use Prim.Native.String.{◌++◌}
use go_build_cache.Prelude.{
  String, Bool, false, not, ◌&&◌, ◌||◌, Option, none, some, List, [], ◌∷◌, ◌==◌, str_eq,
  if◌then◌else◌,
}
use go_build_cache.Prelude.Exec.{Result, ok, err}
use go_build_cache.Prelude.Text.{itoa, decimal}
use go_build_cache.Digest.{to_string, equal}
use go_build_cache.Model.{
  Time, after, Entry, Namespace, Promotion, PromotionOrigin, PromotionFailure, source_changed,
  quota_version_changed, target_conflict, EvictionCandidate, EvictionDecision,
}
use go_build_cache.Errors.{Error, entry_not_found}
use go_build_cache.Store.{MemoryStore}
use go_build_cache.Store.Entries.{get_entry}
use go_build_cache.Store.Pins.{list_pins}
use go_build_cache.Cache.{require_namespace}
use go_build_cache.Cache.Eviction.Plan.{is_pinned}

-- A reason to fail, with its text; or nothing against it.
pub data Verdict : Type 0 where
  passed : Verdict
  refused : (reason : PromotionFailure) (detail : String) → Verdict

abbrev pub origin_matches : Promotion → Entry → Option PromotionOrigin → Bool
origin_matches p e none = false
origin_matches p e (some o) =
    str_eq o.namespace p.source_namespace
    && (str_eq o.key p.source_key
        && (o.version == p.source_version
            && (equal o.digest p.source_digest
                && (str_eq o.request_id p.request_id && equal e.digest p.source_digest))))

-- entryIsOurPromotion
unfoldable pub entry_is_our_promotion : Promotion → Entry → Bool
entry_is_our_promotion p e = origin_matches p e e.promoted_from

source_detail : Promotion → Entry → String
source_detail p source =
    "source now at v"
    ++ decimal source.version
    ++ " "
    ++ to_string source.digest
    ++ ", frozen v"
    ++ decimal p.source_version
    ++ " "
    ++ to_string p.source_digest

unfoldable pub check_source : Promotion → Result Error Entry → Result Error Verdict
unfolding source_detail
check_source p (err entry_not_found) = ok passed
check_source p (err e) = err e
check_source p (ok source) =
    if not (source.version == p.source_version) || not (equal source.digest p.source_digest)
    then ok (refused source_changed (source_detail p source))
    else ok passed

version_detail : Promotion → Entry → String
version_detail p target =
    "target now at v" ++ decimal target.version ++ ", frozen v" ++ decimal p.target_base_version

digest_detail : Promotion → Entry → String
digest_detail p target =
    "target digest changed at v"
    ++ decimal target.version
    ++ ": now "
    ++ to_string target.digest
    ++ ", frozen "
    ++ to_string p.target_existing_digest

unfoldable pub check_target : Promotion → Result Error Entry → Result Error Verdict
unfolding version_detail digest_detail
check_target p (err entry_not_found) =
    if not (p.target_base_version == 0)
    then ok (refused target_conflict "target entry disappeared after prepare")
    else ok passed
check_target p (err e) = err e
check_target p (ok target) =
    if entry_is_our_promotion p target
    then ok passed
    else if not (target.version == p.target_base_version)
    then ok (refused target_conflict (version_detail p target))
    else if not (equal target.digest p.target_existing_digest)
    then ok (refused target_conflict (digest_detail p target))
    else ok passed

-- The next check is made only where nothing stands against the promotion so far.
abbrev pub and_then : Result Error Verdict → Result Error Verdict → Result Error Verdict
and_then (ok passed) next = next
and_then (ok (refused reason detail)) next = ok (refused reason detail)
and_then (err e) next = err e

-- The text of a time, which Go's library formats, is a parameter.
module _ (format_time : Time → String) where
  quota_detail : Promotion → Namespace → String
  quota_detail p ns =
      "quota now max="
      ++ itoa ns.max_bytes
      ++ " updated="
      ++ format_time ns.updated_at
      ++ ", frozen max="
      ++ itoa p.quota.max_bytes
      ++ " updated="
      ++ format_time p.quota.updated_at

  unfoldable pub check_quota : Promotion → Result Error Namespace → Result Error Verdict
  unfolding quota_detail
  check_quota p (err e) = err e
  check_quota p (ok ns) =
      if not (ns.max_bytes == p.quota.max_bytes) || not (ns.updated_at == p.quota.updated_at)
      then ok (refused quota_version_changed (quota_detail p ns))
      else ok passed

  -- validatePromotionLocked
  unfoldable pub validate_promotion : Promotion → MemoryStore → Result Error Verdict
  validate_promotion p m = and_then (check_source p (get_entry p.source_namespace p.source_key m)) (
      and_then (check_quota p (require_namespace p.target_namespace m))
        (check_target p (get_entry p.target_namespace p.target_key m)))

-- What stands against a candidate of the eviction, as the text says it.
unfoldable pub check_candidate : Bool → EvictionCandidate → Result Error Entry → Option String
check_candidate pinned cand (err e) = some ("candidate " ++ cand.key ++ " went missing")
check_candidate pinned cand (ok entry) =
    if not (entry.version == cand.version) || not (equal entry.digest cand.digest)
    then some ("candidate " ++ cand.key ++ " was republished")
    else if after entry.last_accessed_at cand.last_accessed_at
    then some ("candidate " ++ cand.key ++ " was accessed")
    else if pinned
    then some ("candidate " ++ cand.key ++ " was pinned")
    else none

abbrev pub or_else : Option String → Option String → Option String
or_else none next = next
or_else (some detail) next = some detail

unfoldable pub check_candidates :
    String → (String → Bool) → MemoryStore → List EvictionCandidate → Option String
check_candidates namespace pinned m [] = none
check_candidates namespace pinned m (cand ∷ cands) =
    or_else (check_candidate (pinned cand.key) cand (get_entry namespace cand.key m))
      (check_candidates namespace pinned m cands)

-- evictionStillValidLocked: nothing, or what stands against the decision
unfoldable pub eviction_stale_detail : EvictionDecision → Time → MemoryStore → Option String
eviction_stale_detail d now m =
    check_candidates d.namespace (is_pinned d.namespace now (list_pins m)) m d.candidates
