-- ===== src/Cache/Sessions/Publish.antt =====
-- cache.go: Complete, which checks what was uploaded and publishes it as an entry under a version
-- condition, and Read.
use go_build_cache.Prelude.{
  ℕ, String, Bool, true, false, not, Option, none, some, List, [], ◌∷◌, ◌++◌, if◌then◌else◌, str_eq,
  sort_by, ◌==◌, ltb,
}
use go_build_cache.Prelude.Exec.{
  Result, ok, err, Done, pure, raise, lift, modify, reject, ◌>>=◌, ◌>>◌,
}
use go_build_cache.Prelude.Int64.{add64, minus_one}
use go_build_cache.Prelude.Maps.{Map, get, nat_eq, string_eq}
use go_build_cache.Digest.{Digest, no_digest, equal}
use go_build_cache.Model.{
  Time, ChunkSpec, ChunkReceipt, ChunkRef, Session, Entry, Namespace, EvictionDecision,
}
use go_build_cache.Errors.{
  Error, cas_failed, entry_not_found, chunk_conflict, size_mismatch, incomplete,
  total_size_mismatch, digest_mismatch, version_conflict,
}
use go_build_cache.Store.{MemoryStore, Bytes}
use go_build_cache.Store.Blobs.{get_blob}
use go_build_cache.Store.Entries.{get_entry, put_entry}
use go_build_cache.Store.Sessions as Stored
use go_build_cache.Cache.{
  Cache, M, clock_now, query, write, try_write, norm_namespace, require_namespace,
}
use go_build_cache.Cache.Eviction.Quota.{enforce_quota}
use go_build_cache.Cache.Sessions.Chunks.{index_before}
use go_build_cache.Cache.Sessions.Upload.{hash_bytes, unsupported, ensure_open, forget_key}

pub record PublishResult : Type 0 where
  pub entry : Entry
  pub reused : Bool
  pub eviction : Option EvictionDecision

-- The chunk numbers that are declared and have not come.
unfoldable pub missing : List ChunkSpec → Map ℕ ChunkReceipt → List ℕ
missing [] received = []
missing (spec ∷ specs) received =
    let rest = missing specs received in
    elim (get spec.index received) [ none ↦ spec.index ∷ rest | some rec ↦ rest ]

-- A Go map gives the zero value for a missing key.
abbrev pub receipt : Option ChunkReceipt → ChunkReceipt
receipt none = record { index = 0; digest = no_digest; size = 0; received_at = 0 }
receipt (some rec) = rec

-- The loop that sums the sizes and makes the references.
unfoldable pub gather : List ChunkSpec → Map ℕ ChunkReceipt → ℕ → Result Error (ℕ × List ChunkRef)
gather [] received size = ok (size, [])
gather (spec ∷ specs) received size =
    let rec = receipt (get spec.index received) in
    let rest = gather specs received (add64 size rec.size) in
    if not (rec.size == spec.size)
    then err (chunk_conflict spec.index [] size_mismatch spec.size rec.size no_digest no_digest)
    else elim rest [
      | err e ↦ err e
      | ok (sum, refs) ↦
          ok (sum, record { index = spec.index; size = rec.size; digest = rec.digest } ∷ refs)
    ]

-- The content of the chunks, one after the other.
unfoldable pub content : List ChunkSpec → Map ℕ ChunkReceipt → MemoryStore → Result Error Bytes
content [] received m = ok []
content (spec ∷ specs) received m =
    let rest = content specs received m in
    elim (get_blob (receipt (get spec.index received)).digest m) [
      | err e ↦ err e
      | ok bytes ↦ elim rest [ err e ↦ err e | ok more ↦ ok (bytes ++ more) ]
    ]

-- computeFinalDigest
unfoldable pub compute_final_digest : (Bytes → String) → Session → MemoryStore → Result Error Digest
compute_final_digest sha256 s m =
    if not (str_eq s.final_digest.algo "sha256")
    then err (unsupported s.final_digest.algo)
    else elim (content (sort_by index_before s.chunks) s.received m) [
      | err e ↦ err e
      | ok bytes ↦ hash_bytes sha256 s.final_digest.algo bytes
    ]

unfoldable pub entry_of : String → Session → ℕ → List ChunkRef → Time → Entry
entry_of namespace s version refs now = record {
  namespace = namespace;
  key = s.key;
  version = version;
  digest = s.final_digest;
  total_size = s.total_size;
  chunks = refs;
  published_at = now;
  last_accessed_at = now;
  promoted_from = none;
}

-- Whether a publication on a free key has a version condition that fails.
abbrev pub asks_version : Option ℕ → Bool
asks_version none = false
asks_version (some v) = not (v == 0)

unfoldable pub publish_new : Namespace → Session → List ChunkRef → Time → Option ℕ → M PublishResult
publish_new ns s refs now expected = do
  reject (asks_version expected) (version_conflict s.key 0 no_digest expected s.final_digest)
  decision ← enforce_quota ns s.key 0 s.total_size now
  let entry = entry_of (norm_namespace s.namespace) s 1 refs now
  try_write (put_entry entry minus_one)
  pure (record { entry = entry; reused = false; eviction = decision })

-- The same digest: the entry that is there, accessed now.
unfoldable pub publish_same : Entry → Time → M PublishResult
publish_same existing now =
    if existing.last_accessed_at == now
    then pure (record { entry = existing; reused = true; eviction = none })
    else do
      let e = record existing { last_accessed_at = now }
      try_write (put_entry e existing.version)
      pure (record { entry = e; reused = true; eviction = none })

abbrev pub names_version : Option ℕ → ℕ → Bool
names_version none v = false
names_version (some w) v = w == v

-- A failed condition is told with the entry that is there by then.
abbrev pub lost : Session → Option ℕ → Error → Result Error Entry → Error
lost s expected cas_failed (ok fresh) =
    version_conflict s.key fresh.version fresh.digest expected s.final_digest
lost s expected e fresh = e

abbrev pub put_result : Session → Option ℕ → Entry → Result Error MemoryStore → M Done
put_result s expected entry (ok m) c = (ok tt, record c { store = m })
put_result s expected entry (err e) c =
    (err (lost s expected e (get_entry entry.namespace entry.key c.store)), c)

unfoldable pub publish_over :
    Namespace → Session → List ChunkRef → Time → Option ℕ → Entry → M PublishResult
publish_over ns s refs now expected existing = do
  reject (not (names_version expected existing.version))
      (version_conflict s.key existing.version existing.digest expected s.final_digest)
  decision ← enforce_quota ns s.key existing.total_size s.total_size now
  let entry = entry_of (norm_namespace s.namespace) s (add64 existing.version 1) refs now
  (λ (c : Cache). put_result s expected entry (put_entry entry existing.version c.store) c)
  pure (record { entry = entry; reused = false; eviction = decision })

abbrev pub publish_on :
    Namespace → Session → List ChunkRef → Time → Option ℕ → Result Error Entry → M PublishResult
publish_on ns s refs now expected (err entry_not_found) = publish_new ns s refs now expected
publish_on ns s refs now expected (err e) = raise e
publish_on ns s refs now expected (ok existing) =
    if equal existing.digest s.final_digest
    then publish_same existing now
    else publish_over ns s refs now expected existing

-- Cache.publish
unfoldable pub publish : Session → List ChunkRef → Time → Option ℕ → M PublishResult
publish s refs now expected = do
  ns ← query (require_namespace (norm_namespace s.namespace))
  (λ (c : Cache).
      publish_on ns s refs now expected (get_entry (norm_namespace s.namespace) s.key c.store) c)

abbrev pub is_nil : List ℕ → Bool
is_nil [] = true
is_nil (i ∷ is) = false

-- Cache.Complete
unfoldable pub complete : (Bytes → String) → String → Option ℕ → M PublishResult
complete sha256 id expected = do
  s ← query (Stored.get_session id)
  now ← clock_now
  lift (ensure_open s now)
  let absent = missing s.chunks s.received
  reject (not (is_nil absent)) (chunk_conflict 0 absent incomplete 0 0 no_digest no_digest)
  gathered ← lift (gather s.chunks s.received 0)
  reject (not (gathered.0 == s.total_size)) (total_size_mismatch s.total_size gathered.0)
  final ← query (compute_final_digest sha256 s)
  reject (not (equal final s.final_digest)) (digest_mismatch "complete" s.key s.final_digest final)
  result ← publish s gathered.1 now expected
  write (Stored.delete_session s.id)
  modify (forget_key s)
  pure result

-- An entry that is read: its time of access moves forward, never back.
unfoldable pub touch : Entry → Time → M Entry
touch entry now =
    let e = record entry { last_accessed_at = now } in
    if ltb entry.last_accessed_at now
    then try_write (put_entry e entry.version) >> pure e
    else pure entry

-- The part of Cache.Read under the mutex: the entry whose chunks the reader then reads
unfoldable pub read : String → String → M Entry
read namespace key = do
  entry ← query (get_entry (norm_namespace namespace) key)
  now ← clock_now
  touch entry now
