-- ===== src/Tests/Sessions.antt =====
-- Upload sessions, publications and reads at concrete values.
use go_build_cache.Prelude.{
  ap, ℕ, ◌<◌, String, ◌≡◌, refl, arith, none, [], ◌∷◌, List, if◌then◌else◌, ◌==◌, length, sort_by,
  insert_by, In, inl, inr, false, eq_iff,
}
use go_build_cache.Prelude.Exec.{Result, ok, err}
use go_build_cache.Prelude.Int64.{lt64, le64, add64}
use go_build_cache.Prelude.Maps.{get, put, delete, string_eq, nat_eq, get-put}
use go_build_cache.Digest.{valid, validate_hex, to_string, equal}
use go_build_cache.Errors.{Error}
use go_build_cache.Model.{ChunkSpec, Session, session_open, EvictionCandidate, EvictionDecision}
use go_build_cache.Store.{MemoryStore, Bytes, new_memory_store, entry_map_key}
use go_build_cache.Store.Blobs.{get_blob}
use go_build_cache.Store.Decisions.{get_decision, save_decision}
use go_build_cache.Store.Entries.{get_entry, put_entry, put_entry_at}
use go_build_cache.Store.Entries.Swap.{stored}
use go_build_cache.Store.Invariant.{
  IsKeyed, IsKeyed-new, put_entries-IsKeyed, save_decision-IsKeyed,
}
use go_build_cache.Store.Sessions.{get_session, delete_session, get_namespace}
use go_build_cache.Cache.{Cache, norm_namespace, require_namespace}
use go_build_cache.Cache.Eviction.Plan.{new_decision, snapshot}
use go_build_cache.Cache.Eviction.Commit.{commit_eviction}
use go_build_cache.Cache.Eviction.Quota.{enforce_quota}
use go_build_cache.Cache.Sessions.Chunks.{
  normalize_chunks, check_chunk, check_chunks, check_offsets, index_before,
}
use go_build_cache.Cache.Sessions.Covers.{Covers, Patterns, normalize_chunks-Covers}
use go_build_cache.Cache.Sessions.Offsets.{NoZero, normalize_chunks-unchecked}
use go_build_cache.Cache.Sessions.Upload.{ensure_open, hash_bytes}
use go_build_cache.Cache.Sessions.Publish.{
  PublishResult, missing, gather, content, compute_final_digest, entry_of, publish_new, publish,
  complete, touch, read,
}
use go_build_cache.Cache.Sessions.Publication.{Follows}
use go_build_cache.Cache.Sessions.Completion.{complete_lem}
use go_build_cache.Cache.Sessions.Reading.{accessed_by, read_lem, read-spares}
use go_build_cache.Tests.{sha, app, lib, two_entries, cache_on}

abbrev chunk : ℕ → ℕ → ℕ → ChunkSpec
chunk index offset size = record { index = index; offset = offset; size = size; digest = sha }

abbrev two_chunks : List ChunkSpec
two_chunks = chunk 1 2 3 ∷ chunk 0 0 2 ∷ []

two_chunks-Patterns : Patterns two_chunks
two_chunks-Patterns ch (inl q) = rw q (omega arith, omega arith)
two_chunks-Patterns ch (inr (inl q)) = rw q (omega arith, omega arith)
two_chunks-Patterns ch (inr (inr i)) = elim i [ ]

two_chunks-normal : normalize_chunks two_chunks 5 "sha256" ≡ ok (chunk 0 0 2 ∷ chunk 1 2 3 ∷ [])
unfolding normalize_chunks check_chunks check_chunk check_offsets sort_by insert_by lt64 le64 add64
    valid validate_hex
two_chunks-normal = refl

normalize_chunks-Covers_example : Covers 0 (chunk 0 0 2 ∷ chunk 1 2 3 ∷ []) 5
normalize_chunks-Covers_example =
    normalize_chunks-Covers two_chunks (chunk 0 0 2 ∷ chunk 1 2 3 ∷ []) 5 "sha256"
      two_chunks-Patterns two_chunks-normal refl

-- Two chunks with a gap between them, in the wrong order.
abbrev apart : List ChunkSpec
apart = chunk 9 5000 3 ∷ chunk 4 900 2 ∷ []

apart_accepted : normalize_chunks apart 7 "sha256" ≡ ok (chunk 4 900 2 ∷ chunk 9 5000 3 ∷ [])
unfolding normalize_chunks check_chunks check_chunk lt64 le64 valid validate_hex sort_by insert_by
apart_accepted = refl

apart-NoZero : NoZero apart
apart-NoZero ch (inl q) = λ e. absurd (omega (arith, ap (λ (x : ChunkSpec). x.index) q, e))
apart-NoZero ch (inr (inl q)) = λ e. absurd (omega (arith, ap (λ (x : ChunkSpec). x.index) q, e))
apart-NoZero ch (inr (inr i)) = elim i [ ]

-- All at the offset 40, for a total size of 1.
normalize_chunks-unchecked_example :
    normalize_chunks (chunk 9 40 3 ∷ chunk 4 40 2 ∷ []) 1 "sha256"
    ≡ ok (chunk 4 40 2 ∷ chunk 9 40 3 ∷ [])
unfolding lt64
normalize_chunks-unchecked_example =
    normalize_chunks-unchecked apart (chunk 4 900 2 ∷ chunk 9 5000 3 ∷ []) 7 1 "sha256" (λ ch. 40)
      apart-NoZero (λ ch. refl) apart_accepted

two_entries-IsKeyed : IsKeyed two_entries
two_entries-IsKeyed =
    put_entries-IsKeyed (stored app new_memory_store)
      (put_entries-IsKeyed new_memory_store IsKeyed-new app) lib

app_there : get_entry (norm_namespace "") "app" two_entries ≡ ok app
unfolding norm_namespace get_entry get put entry_map_key
app_there = refl

read_lem_example :
    ((read "" "app" (cache_on two_entries)).0 ≡ ok (accessed_by 10 app))
    × (get_entry (norm_namespace "") "app" (read "" "app" (cache_on two_entries)).1.store
        ≡ ok (accessed_by 10 app))
read_lem_example =
    read_lem "" "app" app (cache_on two_entries) two_entries-IsKeyed (omega arith) app_there

-- A decision that wants the entry gone.
abbrev candidate : EvictionCandidate
candidate = snapshot "default" app

abbrev decision : EvictionDecision
decision =
    record (new_decision
      (record { name = "default"; max_bytes = 120; created_at = 1; updated_at = 1 }) 30 "manual" ""
      8 1 two_entries) { candidates = candidate ∷ [] }

abbrev decided : Cache
decided = cache_on (save_decision decision two_entries)

decided-IsKeyed : IsKeyed decided.store
decided-IsKeyed = save_decision-IsKeyed two_entries two_entries-IsKeyed decision

decision_there : get_decision decision.id (read "" "app" decided).1.store ≡ ok decision
unfolding read touch norm_namespace get_entry put_entry put_entry_at get put entry_map_key lt64
    get_decision save_decision new_decision
decision_there =
    rw
      (
        get-put decision.id decision.id decision two_entries.decisions,
        (eq_iff decision.id decision.id).1 refl,
      )
      refl

app_decided : get_entry (norm_namespace "") "app" decided.store ≡ ok app
unfolding norm_namespace get_entry get put entry_map_key save_decision
app_decided = refl

older : (cand : EvictionCandidate) → In cand decision.candidates → cand.last_accessed_at < 10
unfolding snapshot
older cand (inl q) = rw q (omega arith)
older cand (inr i) = elim i [ ]

read-spares_example :
    get_entry
      (norm_namespace "")
      "app"
      (commit_eviction decision.id (read "" "app" decided).1).1.store
    ≡ ok (accessed_by 10 app)
read-spares_example =
    read-spares "" "app" decision.id app decision decided decided-IsKeyed (omega arith) app_decided
      decision_there older

-- A stand-in for SHA-256.
abbrev toy_hash : Bytes → String
toy_hash bytes = if length bytes == 2 then sha.hex else "00"

abbrev uploaded : Session
uploaded = record {
  id = "s1";
  namespace = "default";
  key = "new";
  idempotency_key = "";
  total_size = 2;
  final_digest = sha;
  chunks = chunk 0 0 2 ∷ [];
  created_at = 5;
  expires_at = 50;
  status = session_open;
  published_version = 0;
  received = (0, record { index = 0; digest = sha; size = 2; received_at = 6 }) ∷ [];
}

abbrev ready : MemoryStore
ready = record new_memory_store {
  blobs = (to_string sha, 1 ∷ 2 ∷ []) ∷ [];
  sessions = ("s1", uploaded) ∷ [];
  namespaces =
      ("default", record { name = "default"; max_bytes = 0; created_at = 1; updated_at = 1 }) ∷ [];
}

ready-IsKeyed : IsKeyed ready
unfolding get
ready-IsKeyed = record {
  unique_entries = tt;
  unique_pins = tt;
  unique_sessions = (refl, tt);
  entries_at = λ k v h. cc;
  pins_at = λ k v h. cc;
  sessions_at = λ k v h. ground (arith, eq_iff "s1" k);
}

abbrev nothing_published : PublishResult
nothing_published = record { entry = app; reused = false; eviction = none }

abbrev returned : Result Error PublishResult → PublishResult
returned (ok r) = r
returned (err e) = nothing_published

abbrev result : Result Error PublishResult
result = (complete toy_hash "s1" none (cache_on ready)).0

session_there : get_session "s1" ready ≡ ok uploaded
unfolding get_session get
session_there = refl

completes : result ≡ ok (returned result)
unfolding complete ensure_open missing gather content compute_final_digest hash_bytes entry_of
    publish_new publish enforce_quota put_entry put_entry_at get_entry get put delete delete_session
    get_session get_namespace get_blob norm_namespace require_namespace entry_map_key to_string
    equal sort_by insert_by lt64 le64 add64
completes = refl

complete_lem_example :
    (get_entry
        (norm_namespace "default")
        "new"
        (complete toy_hash "s1" none (cache_on ready)).1.store
      ≡ ok (returned result).entry)
    × Follows sha none
        (get_entry (norm_namespace "default") "new" ready)
        (returned result).entry.version
    × (missing uploaded.chunks uploaded.received ≡ [])
    × ((returned result).entry.digest ≡ sha)
    × (bytes : Bytes) × (content (sort_by index_before uploaded.chunks) uploaded.received ready
        ≡ ok bytes)
    × ((returned result).entry.digest.hex ≡ toy_hash bytes)
complete_lem_example =
    complete_lem toy_hash "s1" none (cache_on ready) (returned result) uploaded ready-IsKeyed
      session_there completes
