-- ===== src/Cache/Collection/References.antt =====
-- cache.go: BlobReferences, which lists what refers to a chunk, and AuditLog.
use Prim.Native.String.{◌++◌}
use go_build_cache.Prelude.{
  ℕ, String, Bool, true, not, ◌&&◌, List, [], ◌∷◌, ◌++◌ as append, any, if◌then◌else◌,
}
use go_build_cache.Prelude.Exec.{◌>>=◌}
use go_build_cache.Prelude.Maps.{values}
use go_build_cache.Prelude.Text.{decimal}
use go_build_cache.Digest.{Digest, equal}
use go_build_cache.Model.{
  Time, ChunkRef, Entry, Session, SessionStatus, session_open, session_completed, session_canceled,
  Pin, PinStatus, pin_active, pin_released, pin_expired, active, Promotion, GcRecord,
}
use go_build_cache.Store.{MemoryStore}
use go_build_cache.Store.Audit.{list_audit}
use go_build_cache.Store.Entries.{list_entries}
use go_build_cache.Store.Pins.{list_pins}
use go_build_cache.Store.Promotions.{list_promotions}
use go_build_cache.Store.Sessions.{list_sessions}
use go_build_cache.Cache.{M, clock_now, look, norm_namespace}
use go_build_cache.Cache.Sessions.Sweep.{expired, is_open}
use go_build_cache.Cache.Collection.Mark.{is_prepared}

pub data RefKind : Type 0 where
  ref_entry ref_session ref_pin ref_promotion : RefKind

pub record BlobReference : Type 0 where
  pub kind : RefKind
  pub namespace : String
  pub key : String
  pub version : ℕ
  pub active : Bool
  pub detail : String

abbrev pub session_text : SessionStatus → String
session_text session_open = "open"
session_text session_completed = "completed"
session_text session_canceled = "canceled"

abbrev pub pin_text : PinStatus → String
pin_text pin_active = "active"
pin_text pin_released = "released"
pin_text pin_expired = "expired"

-- The loop that appends at most one reference for each stored object.
unfoldable pub references {ℓ} :
    {A : Type ℓ} → (A → Bool) → (A → BlobReference) → List A → List BlobReference
references holds make [] = []
references holds make (x ∷ xs) =
    if holds x then make x ∷ references holds make xs else references holds make xs

unfoldable pub names_chunk : Digest → List ChunkRef → Bool
names_chunk d chunks = any (λ ref. equal ref.digest d) chunks

abbrev pub entry_reference : Entry → BlobReference
entry_reference e = record {
  kind = ref_entry;
  namespace = e.namespace;
  key = e.key;
  version = e.version;
  active = true;
  detail = "published entry";
}

abbrev pub session_reference : Time → Session → BlobReference
session_reference now s = record {
  kind = ref_session;
  namespace = norm_namespace s.namespace;
  key = s.key;
  version = 0;
  active = is_open s.status && not (expired s now);
  detail = "session=" ++ s.id ++ " status=" ++ session_text s.status;
}

abbrev pub promotion_reference : Promotion → BlobReference
promotion_reference p = record {
  kind = ref_promotion;
  namespace = p.source_namespace;
  key = p.source_key;
  version = p.source_version;
  active = true;
  detail =
      "prepared promotion=" ++ p.id ++ " target=" ++ p.target_namespace ++ "/" ++ p.target_key
      ++ " request=" ++ p.request_id;
}

unfoldable pub session_holds : Digest → Session → Bool
session_holds d s = any (λ rec. equal rec.digest d) (values s.received)

-- The text of a time, which Go's library formats, is a parameter.
module _ (format_time : Time → String) where
  abbrev pub pin_reference : Time → Pin → BlobReference
  pin_reference now p = record {
    kind = ref_pin;
    namespace = p.namespace;
    key = p.key;
    version = p.version;
    active = active p now;
    detail =
        "pin v"
        ++ decimal p.version
        ++ " status="
        ++ pin_text p.status
        ++ " deadline="
        ++ format_time p.deadline;
  }

  -- blobReferencesLocked
  unfoldable pub blob_references_locked : Digest → Time → MemoryStore → List BlobReference
  blob_references_locked d now m =
      append (references (λ e. names_chunk d e.chunks) entry_reference (list_entries m)) (
        append (references (session_holds d) (session_reference now) (list_sessions m)) (
          append (references (λ p. names_chunk d p.chunks) (pin_reference now) (list_pins m)) (
            references (λ p. is_prepared p.status && names_chunk d p.source_chunks)
              promotion_reference (list_promotions m))))

  -- Cache.BlobReferences
  unfoldable pub blob_references : Digest → M (List BlobReference)
  blob_references d = do now ← clock_now; look (blob_references_locked d now)

-- Cache.AuditLog
unfoldable pub audit_log : M (List GcRecord)
audit_log = look list_audit
