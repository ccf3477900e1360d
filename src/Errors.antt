-- ===== src/Errors.antt =====
-- errors.go and the sentinels of store.go: a constructor for each error, with the fields that callers
-- can read. A wrapped sentinel (`%w: …`) is its constructor with what the text adds.
use go_build_cache.Prelude.{ℕ, String, Option, List}
use go_build_cache.Digest.{Digest, DigestError}
use go_build_cache.Model.{PinStatus, SessionStatus, Time, PromotionFailure}

pub data ConflictReason : Type 0 where
  content_mismatch size_mismatch incomplete : ConflictReason

pub data PinReason : Type 0 where
  no_entry not_active deadline_in_past : PinReason

pub data PromotionReason : Type 0 where
  uploading target_exists same_digest same_namespace : PromotionReason

pub data Error : Type 0 where
  -- store.go
  blob_not_found cas_failed not_found : Error
  -- sentinels of errors.go
  session_not_found entry_not_found promotion_not_found : Error
  session_not_active : String → SessionStatus → Error
  lease_expired : String → Error
  namespace_not_found : String → Error
  pin_not_found : String → String → Error
  pin_not_active : String → String → PinStatus → Error
  chunk_not_declared : ℕ → String → Error
  -- digest.go
  bad_digest : DigestError → Error
  -- the structs of errors.go, with their fields
  digest_mismatch : (operation key : String) (want got : Digest) → Error
  total_size_mismatch : (want got : ℕ) → Error
  chunk_conflict :
      (index : ℕ) (missing : List ℕ) (reason : ConflictReason) (existing_size got_size : ℕ)
      (existing got : Digest)
      → Error
  version_conflict :
      (key : String) (current_version : ℕ) (current_digest : Digest) (expected : Option ℕ)
      (attempt : Digest)
      → Error
  idempotency_conflict : (key existing : String) → Error
  quota_exceeded : (namespace : String) (max_bytes used need freed : ℕ) → Error
  pin_digest_conflict : (namespace key : String) (expected current : Digest) → Error
  pin_conflict : (namespace key : String) (reason : PinReason) (at : Time) → Error
  pin_version_conflict :
      (namespace key : String) (expected current : ℕ) (status : Option PinStatus) → Error
  pin_request_conflict : String → Error
  promotion_digest_conflict : (namespace key : String) (expected current : Digest) → Error
  promotion_conflict : (namespace key : String) (reason : PromotionReason) → Error
  promotion_stale : String → PromotionFailure → Error
  promotion_request_conflict : String → Error
  -- errors.New and fmt.Errorf with no sentinel: the text
  plain : String → Error
