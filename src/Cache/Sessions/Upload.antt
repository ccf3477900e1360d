-- ===== src/Cache/Sessions/Upload.antt =====
-- cache.go: UploadChunk, RenewSession, Cancel, GetSession; digest.go: hashBytes. SHA-256 with its
-- hexadecimal text is a parameter.
use Prim.Native.String.{◌++◌}
use go_build_cache.Prelude.{
  ℕ, ◌+◌, String, not, Option, none, some, List, if◌then◌else◌, str_eq, length, ◌==◌,
}
use go_build_cache.Prelude.Exec.{
  Result, ok, err, Done, pure, raise, lift, modify, reject, ◌>>=◌, ◌>>◌,
}
use go_build_cache.Prelude.Int64.{le64}
use go_build_cache.Prelude.Maps.{get, put, delete, nat_eq, string_eq}
use go_build_cache.Digest.{Digest, no_digest, equal}
use go_build_cache.Model.{
  Time, ChunkSpec, ChunkReceipt, Session, SessionStatus, session_open, session_completed,
  session_canceled,
}
use go_build_cache.Errors.{
  Error, session_not_active, lease_expired, chunk_not_declared, chunk_conflict, digest_mismatch,
  size_mismatch, content_mismatch, plain,
}
use go_build_cache.Store.{Bytes}
use go_build_cache.Store.Blobs.{put_blob}
use go_build_cache.Store.Sessions as Stored
use go_build_cache.Cache.{Cache, M, clock_now, query, write, try_write}
use go_build_cache.Cache.Sessions.Sweep.{idem_composite, expired}
use go_build_cache.Cache.Sessions.Chunks.{chunk_spec_by_index}

-- What stands for an unknown algorithm in the text of its error.
abbrev pub unsupported : String → Error
unsupported algo = plain ("buildcache: unsupported digest algorithm \"" ++ algo ++ "\"")

unfoldable pub hash_bytes : (Bytes → String) → String → Bytes → Result Error Digest
hash_bytes sha256 algo bytes =
    if str_eq algo "sha256"
    then ok (record { algo = algo; hex = sha256 bytes })
    else err (unsupported algo)

abbrev pub open_status : Session → SessionStatus → Result Error Done
open_status s session_completed = err (session_not_active s.id s.status)
open_status s session_canceled = err (session_not_active s.id s.status)
open_status s session_open = ok tt

unfoldable pub ensure_open : Session → Time → Result Error Done
ensure_open s now = elim (open_status s s.status) [
  | err e ↦ err e
  | ok u ↦ if expired s now then err (lease_expired s.id) else ok tt
]

abbrev pub declared : String → ℕ → Option ChunkSpec → Result Error ChunkSpec
declared id index none = err (chunk_not_declared index id)
declared id index (some spec) = ok spec

-- A chunk number that has come before: the same content is a success, any other a conflict.
abbrev pub repeated : ℕ → Digest → ChunkReceipt → Result Error ChunkReceipt
repeated index got rec =
    if not (equal rec.digest got)
    then err (chunk_conflict index List.[] content_mismatch 0 0 rec.digest got)
    else ok rec

-- A chunk number that comes first.
unfoldable pub receive : Session → ChunkSpec → ℕ → Bytes → Digest → Time → M ChunkReceipt
receive s spec index bytes got now = do
  reject (not (equal got spec.digest)) (digest_mismatch "upload_chunk" s.key spec.digest got)
  try_write (put_blob got bytes)
  let rec : ChunkReceipt = record {
    index = index;
    digest = got;
    size = length bytes;
    received_at = now;
  }
  write (Stored.save_session (record s { received = put index rec s.received }))
  pure rec

abbrev pub receive_or_repeat :
    Session → ChunkSpec → ℕ → Bytes → Digest → Time → Option ChunkReceipt → M ChunkReceipt
receive_or_repeat s spec index bytes got now none = receive s spec index bytes got now
receive_or_repeat s spec index bytes got now (some rec) = lift (repeated index got rec)

-- Cache.UploadChunk; the length of the data is below 2 ^ 63
unfoldable pub upload_chunk : (Bytes → String) → String → ℕ → Bytes → M ChunkReceipt
upload_chunk sha256 id index bytes = do
  s ← query (Stored.get_session id)
  now ← clock_now
  lift (ensure_open s now)
  spec ← lift (declared id index (chunk_spec_by_index s.chunks index))
  reject (not (length bytes == spec.size))
      (chunk_conflict index List.[] size_mismatch spec.size (length bytes) no_digest no_digest)
  got ← lift (hash_bytes sha256 spec.digest.algo bytes)
  receive_or_repeat s spec index bytes got now (get index s.received)

-- Cache.RenewSession
unfoldable pub renew_session : String → ℕ → M Time
renew_session id ext = do
  s ← query (Stored.get_session id)
  now ← clock_now
  lift (ensure_open s now)
  ttl ← (λ c. (ok (if le64 ext 0 then c.ttl else ext), c))
  write (Stored.save_session (record s { expires_at = now + ttl }))
  pure (now + ttl)

abbrev pub forget_key : Session → Cache → Cache
forget_key s c =
    if str_eq s.idempotency_key ""
    then c
    else record c { idem = delete (idem_composite s.namespace s.idempotency_key) c.idem }

-- Cancel, by the status of the session; the clock is read only for an open one
abbrev pub cancel_status : String → Session → SessionStatus → M Done
cancel_status id s session_completed = raise (session_not_active id s.status)
cancel_status id s session_canceled = pure tt
cancel_status id s session_open = do
  now ← clock_now
  reject (expired s now) (lease_expired id)
  write (Stored.save_session (record s { status = session_canceled }))
  modify (forget_key s)

-- Cache.Cancel
unfoldable pub cancel : String → M Done
cancel id = do s ← query (Stored.get_session id); cancel_status id s s.status

-- Cache.GetSession
unfoldable pub get_session : String → M Session
get_session id = query (Stored.get_session id)
