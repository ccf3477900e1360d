-- ===== src/Model.antt =====
-- model.go: the data that the cache keeps. A `time.Time` is the number of nanoseconds since Go's zero
-- time, so the zero value is 0; an int64 or uint64 is its 64-bit pattern; a string constant that names
-- a state is a constructor.
use go_build_cache.Prelude.{ℕ, String, Bool, true, false, ◌&&◌, Option, List, ltb}
use go_build_cache.Prelude.Maps.{Map}
use go_build_cache.Digest.{Digest}

abbrev pub Time : Type 0
Time = ℕ

-- Go's `t.After(u)`
abbrev pub after : Time → Time → Bool
after t u = ltb u t

pub record ChunkSpec : Type 0 where
  pub index : ℕ
  pub offset : ℕ
  pub size : ℕ
  pub digest : Digest

pub data SessionStatus : Type 0 where
  session_open session_completed session_canceled : SessionStatus

pub record ChunkReceipt : Type 0 where
  pub index : ℕ
  pub digest : Digest
  pub size : ℕ
  pub received_at : Time

pub record Session : Type 0 where
  pub id : String
  pub namespace : String
  pub key : String
  pub idempotency_key : String
  pub total_size : ℕ
  pub final_digest : Digest
  pub chunks : List ChunkSpec
  pub created_at : Time
  pub expires_at : Time
  pub status : SessionStatus
  pub published_version : ℕ
  pub received : Map ℕ ChunkReceipt

pub record ChunkRef : Type 0 where
  pub index : ℕ
  pub size : ℕ
  pub digest : Digest

abbrev pub default_namespace : String
default_namespace = "default"

pub record PromotionOrigin : Type 0 where
  pub request_id : String
  pub namespace : String
  pub key : String
  pub version : ℕ
  pub digest : Digest

pub record Entry : Type 0 where
  pub namespace : String
  pub key : String
  pub version : ℕ
  pub digest : Digest
  pub total_size : ℕ
  pub chunks : List ChunkRef
  pub published_at : Time
  pub last_accessed_at : Time
  pub promoted_from : Option PromotionOrigin

pub record Namespace : Type 0 where
  pub name : String
  pub max_bytes : ℕ
  pub created_at : Time
  pub updated_at : Time

pub data PinStatus : Type 0 where
  pin_active pin_released pin_expired : PinStatus

pub record Pin : Type 0 where
  pub namespace : String
  pub key : String
  pub version : ℕ
  pub entry_version : ℕ
  pub digest : Digest
  pub chunks : List ChunkRef
  pub deadline : Time
  pub status : PinStatus
  pub created_at : Time
  pub updated_at : Time

-- p.Status == PinActive
abbrev pub is_pin_active : PinStatus → Bool
is_pin_active pin_active = true
is_pin_active pin_released = false
is_pin_active pin_expired = false

-- Pin.Active
unfoldable pub active : Pin → Time → Bool
active p now = is_pin_active p.status && after p.deadline now

-- PinRequest.Action
abbrev pub action_pin : String
action_pin = "pin"

abbrev pub action_renew : String
action_renew = "renew"

abbrev pub action_unpin : String
action_unpin = "unpin"

pub record PinRequest : Type 0 where
  pub request_id : String
  pub namespace : String
  pub key : String
  pub action : String
  pub fingerprint : String
  pub result : Pin
  pub created_at : Time

pub data PromotionMode : Type 0 where
  mode_copy mode_replace : PromotionMode
  mode_other : String → PromotionMode

pub data PromotionStatus : Type 0 where
  promotion_prepared promotion_committed promotion_failed : PromotionStatus

pub data PromotionFailure : Type 0 where
  no_failure source_changed source_uploading quota_version_changed eviction_stale quota_short
        target_conflict :
      PromotionFailure

pub record PromotionQuota : Type 0 where
  pub max_bytes : ℕ
  pub updated_at : Time

pub data Outcome : Type 0 where
  evict_pending evict_deleted skipped_accessed skipped_pinned skipped_republished skipped_missing :
      Outcome

pub record EvictionCandidate : Type 0 where
  pub namespace : String
  pub key : String
  pub digest : Digest
  pub version : ℕ
  pub size : ℕ
  pub last_accessed_at : Time
  pub outcome : Outcome

pub data EvictionStatus : Type 0 where
  eviction_proposed eviction_committed : EvictionStatus

pub record EvictionDecision : Type 0 where
  pub id : String
  pub namespace : String
  pub reason : String
  pub max_bytes : ℕ
  pub used_before : ℕ
  pub needed_bytes : ℕ
  pub freed_bytes : ℕ
  pub candidates : List EvictionCandidate
  pub status : EvictionStatus
  pub decided_at : Time
  pub committed_at : Time

pub record Promotion : Type 0 where
  pub id : String
  pub request_id : String
  pub source_namespace : String
  pub source_key : String
  pub source_version : ℕ
  pub source_digest : Digest
  pub source_size : ℕ
  pub source_chunks : List ChunkRef
  pub target_namespace : String
  pub target_key : String
  pub mode : PromotionMode
  pub target_base_version : ℕ
  pub target_existing_digest : Digest
  pub target_existing_size : ℕ
  pub quota : PromotionQuota
  pub used_before : ℕ
  pub used_after : ℕ
  pub eviction : Option EvictionDecision
  pub status : PromotionStatus
  pub fail_reason : PromotionFailure
  pub target_version : ℕ
  pub created_at : Time
  pub committed_at : Time

pub record PromotionRequest : Type 0 where
  pub request_id : String
  pub fingerprint : String
  pub promotion_id : String
  pub created_at : Time

pub data TxnPhase : Type 0 where
  txn_committing txn_eviction txn_entry : TxnPhase

pub record PromotionTxn : Type 0 where
  pub promotion_id : String
  pub phase : TxnPhase
  pub updated_at : Time

pub data GcAction : Type 0 where
  gc_start gc_session_swept gc_mark gc_delete gc_skip_in_use gc_pin_swept gc_eviction gc_promotion
        gc_finish :
      GcAction

pub record GcRecord : Type 0 where
  pub time : Time
  pub generation : ℕ
  pub action : GcAction
  pub blob : Digest
  pub key : String
  pub session_id : String
  pub reason : String
  pub detail : String
