-- ===== src/Cache/Promotions/Requests.antt =====
-- promotion.go: the options of a promotion, and the request numbers under which a promotion that was
-- asked for before is found again.
use Prim.Native.String.{◌++◌}
use go_build_cache.Prelude.{
  String, Bool, true, false, not, Option, none, some, str_eq, if◌then◌else◌,
}
use go_build_cache.Prelude.Exec.{Result, ok, err, Done, pure}
use go_build_cache.Digest.{Digest, to_string}
use go_build_cache.Model.{
  Time, Promotion, PromotionRequest, PromotionMode, mode_copy, mode_replace, mode_other,
  PromotionStatus, promotion_prepared, promotion_committed, promotion_failed,
}
use go_build_cache.Errors.{Error, not_found, promotion_request_conflict, promotion_stale}
use go_build_cache.Store.{MemoryStore}
use go_build_cache.Store.Promotions.{get_promotion, get_promotion_request, save_promotion_request}
use go_build_cache.Cache.{M, write}

pub record PromoteOptions : Type 0 where
  pub source_namespace : String
  pub source_key : String
  pub expected_digest : Digest
  pub target_namespace : String
  pub target_key : String
  pub mode : PromotionMode
  pub request_id : String

abbrev pub mode_text : PromotionMode → String
mode_text mode_copy = "copy"
mode_text mode_replace = "replace"
mode_text (mode_other s) = s

-- An empty mode means a copy.
abbrev pub default_mode : PromotionMode → PromotionMode
default_mode mode_copy = mode_copy
default_mode mode_replace = mode_replace
default_mode (mode_other s) = if str_eq s "" then mode_copy else mode_other s

abbrev pub is_known_mode : PromotionMode → Bool
is_known_mode mode_copy = true
is_known_mode mode_replace = true
is_known_mode (mode_other s) = false

-- promotionFingerprint
unfoldable pub promotion_fingerprint : PromoteOptions → String
promotion_fingerprint opts =
    "promote|"
    ++ opts.source_namespace
    ++ "|"
    ++ opts.source_key
    ++ "|"
    ++ to_string opts.expected_digest
    ++ "|"
    ++ opts.target_namespace
    ++ "|"
    ++ opts.target_key
    ++ "|"
    ++ mode_text opts.mode

abbrev pub found_promotion : Result Error Promotion → Result Error (Option Promotion)
found_promotion (ok p) = ok (some p)
found_promotion (err e) = err e

abbrev pub looked_up_request :
    String → String → MemoryStore → Result Error PromotionRequest → Result Error (Option Promotion)
looked_up_request id fingerprint m (err not_found) = ok none
looked_up_request id fingerprint m (err e) = err e
looked_up_request id fingerprint m (ok rec) =
    if not (str_eq rec.fingerprint fingerprint)
    then err (promotion_request_conflict id)
    else found_promotion (get_promotion rec.promotion_id m)

-- lookupPromotionRequestLocked
unfoldable pub lookup_promotion_request :
    String → String → MemoryStore → Result Error (Option Promotion)
lookup_promotion_request id fingerprint m =
    if str_eq id ""
    then ok none
    else looked_up_request id fingerprint m (get_promotion_request id m)

-- The options that a promotion was made from, as its record gives them.
abbrev pub options_of : Promotion → PromoteOptions
options_of p = record {
  source_namespace = p.source_namespace;
  source_key = p.source_key;
  expected_digest = p.source_digest;
  target_namespace = p.target_namespace;
  target_key = p.target_key;
  mode = p.mode;
  request_id = "";
}

unfoldable pub request_of : Promotion → Time → PromotionRequest
request_of p now = record {
  request_id = p.request_id;
  fingerprint = promotion_fingerprint (options_of p);
  promotion_id = p.id;
  created_at = now;
}

-- recordPromotionRequestLocked
unfoldable pub record_promotion_request : Promotion → Time → M Done
record_promotion_request p now =
    if str_eq p.request_id "" then pure tt else write (save_promotion_request (request_of p now))

abbrev pub is_failed : PromotionStatus → Bool
is_failed promotion_failed = true
is_failed promotion_prepared = false
is_failed promotion_committed = false

-- staleErrorFromPromotion of a promotion that has failed
abbrev pub stale_error : Promotion → Error
stale_error p = promotion_stale p.id p.fail_reason
