-- ===== src/Tests/Uploads.antt =====
-- Uploads and namespaces at concrete values.
use go_build_cache.Prelude.Int64.{lt64, le64, add64, sub64}
use go_build_cache.Errors.{Error}
use go_build_cache.Model.{Entry}
use go_build_cache.Store.Entries.{get_entry, put_entry, put_entry_at}
use go_build_cache.Cache.{norm_namespace}
use go_build_cache.Cache.Eviction.Plan.{namespace_used, used_from}
use go_build_cache.Cache.Eviction.Quota.{enforce_quota}
use go_build_cache.Cache.Eviction.Usage.{bytes_in}
use go_build_cache.Cache.Sessions.Publish.{PublishResult, publish, publish_new, entry_of}
use go_build_cache.Cache.Sessions.Room.{publish-room}
use go_build_cache.Prelude.{◌≤◌, false}
use go_build_cache.Model.{Namespace}
use go_build_cache.Prelude.Exec.{Result}
use go_build_cache.Prelude.{
  ◌<◌, String, ◌≡◌, refl, arith, none, [], ◌∷◌, if◌then◌else◌, ◌==◌, length, eq_iff,
}
use go_build_cache.Prelude.Exec.{ok}
use go_build_cache.Prelude.Maps.{get, put, string_eq, nat_eq}
use go_build_cache.Digest.{valid, validate_hex, equal}
use go_build_cache.Model.{ChunkReceipt, Session, session_open, Pin, pin_released, active}
use go_build_cache.Store.{MemoryStore, Bytes, new_memory_store}
use go_build_cache.Store.Blobs.{put_blob}
use go_build_cache.Store.Entries.{list_entries}
use go_build_cache.Store.Invariant.{IsKeyed, save_pin-IsKeyed}
use go_build_cache.Store.Pins.{save_pin, list_pins}
use go_build_cache.Store.Sessions.{get_session, get_namespace}
use go_build_cache.Cache.{next_reading, tick, require_namespace}
use go_build_cache.Cache.Namespaces.{delete_namespace, no_entry_left, clear_pins}
use go_build_cache.Cache.Namespaces.Deletion.{Emptied, delete_namespace-Emptied}
use go_build_cache.Cache.Sessions.Chunks.{chunk_spec_by_index}
use go_build_cache.Cache.Sessions.Upload.{upload_chunk, ensure_open, hash_bytes, receive}
use go_build_cache.Cache.Sessions.Repetition.{upload_chunk-again}
use go_build_cache.Prelude.{sort_by, insert_by}
use go_build_cache.Prelude.Maps.{values}
use go_build_cache.Tests.{sha, cache_on}

-- A stand-in for SHA-256.
abbrev toy_hash : Bytes → String
toy_hash bytes = if length bytes == 2 then sha.hex else "00"

abbrev fresh : Session
fresh = record {
  id = "s1";
  namespace = "default";
  key = "new";
  idempotency_key = "";
  total_size = 2;
  final_digest = sha;
  chunks = record { index = 0; offset = 0; size = 2; digest = sha } ∷ [];
  created_at = 5;
  expires_at = 50;
  status = session_open;
  published_version = 0;
  received = [];
}

abbrev opened : MemoryStore
opened = record new_memory_store {
  sessions = ("s1", fresh) ∷ [];
  namespaces =
      ("default", record { name = "default"; max_bytes = 0; created_at = 1; updated_at = 1 }) ∷ [];
}

opened-IsKeyed : IsKeyed opened
unfolding get
opened-IsKeyed = record {
  unique_entries = tt;
  unique_pins = tt;
  unique_sessions = (refl, tt);
  entries_at = λ k v h. cc;
  pins_at = λ k v h. cc;
  sessions_at = λ k v h. ground (arith, eq_iff "s1" k);
}

session_there : get_session "s1" opened ≡ ok fresh
unfolding get_session get
session_there = refl

abbrev receipt_made : ChunkReceipt
receipt_made = record { index = 0; digest = sha; size = 2; received_at = 10 }

uploads : (upload_chunk toy_hash "s1" 0 (1 ∷ 2 ∷ []) (cache_on opened)).0 ≡ ok receipt_made
unfolding upload_chunk get_session get ensure_open chunk_spec_by_index hash_bytes receive put_blob
    valid validate_hex equal
uploads = refl

still_open : next_reading (upload_chunk toy_hash "s1" 0 (1 ∷ 2 ∷ []) (cache_on opened)).1 < 50
unfolding upload_chunk get_session get ensure_open chunk_spec_by_index hash_bytes receive put_blob
    valid validate_hex equal
still_open = omega arith

upload_chunk-again_example :
    upload_chunk toy_hash "s1" 0
      (1 ∷ 2 ∷ [])
      (upload_chunk toy_hash "s1" 0 (1 ∷ 2 ∷ []) (cache_on opened)).1
    ≡ (ok receipt_made, tick (upload_chunk toy_hash "s1" 0 (1 ∷ 2 ∷ []) (cache_on opened)).1)
upload_chunk-again_example =
    upload_chunk-again toy_hash "s1" 0 (1 ∷ 2 ∷ []) (cache_on opened) fresh receipt_made
      opened-IsKeyed session_there refl uploads still_open

-- A lease that has ended does not keep its namespace.
abbrev ended : Pin
ended = record {
  namespace = "default";
  key = "old";
  version = 2;
  entry_version = 1;
  digest = sha;
  chunks = [];
  deadline = 90;
  status = pin_released;
  created_at = 1;
  updated_at = 2;
}

abbrev almost_empty : MemoryStore
almost_empty = save_pin ended opened

deletes : (delete_namespace "default" (cache_on almost_empty)).0 ≡ ok tt
unfolding delete_namespace require_namespace get_namespace get no_entry_left clear_pins list_entries
    list_pins sort_by insert_by values save_pin put active
deletes = refl

delete_namespace-Emptied_example :
    Emptied "default" (delete_namespace "default" (cache_on almost_empty)).1.store
delete_namespace-Emptied_example =
    delete_namespace-Emptied "default" (cache_on almost_empty) tt
      (save_pin-IsKeyed opened opened-IsKeyed ended) deletes

abbrev small_space : Namespace
small_space = record { name = "default"; max_bytes = 100; created_at = 1; updated_at = 1 }

abbrev roomy : MemoryStore
roomy = record opened { namespaces = ("default", small_space) ∷ [] }

roomy-IsKeyed : IsKeyed roomy
roomy-IsKeyed = record {
  unique_entries = opened-IsKeyed.unique_entries;
  unique_pins = opened-IsKeyed.unique_pins;
  unique_sessions = opened-IsKeyed.unique_sessions;
  entries_at = opened-IsKeyed.entries_at;
  pins_at = opened-IsKeyed.pins_at;
  sessions_at = opened-IsKeyed.sessions_at;
}

space_there : require_namespace (norm_namespace "default") roomy ≡ ok small_space
unfolding require_namespace get_namespace get norm_namespace
space_there = refl

default_name : "default" ≡ norm_namespace "default"
unfolding norm_namespace
default_name = refl

free_key :
    (x : Entry) → get_entry (norm_namespace "default") "new" roomy ≡ ok x → x.namespace ≡ "default"
unfolding get_entry get
free_key x h = absurd (cc h)

no_bytes : bytes_in "default" roomy ≡ 0
unfolding values
no_bytes = refl

abbrev outcome : Result Error PublishResult
outcome = (publish fresh [] 12 none (cache_on roomy)).0

abbrev published : PublishResult
published = record {
  entry = entry_of (norm_namespace "default") fresh 1 [] 12;
  reused = false;
  eviction = none;
}

publishes : outcome ≡ ok published
unfolding publish publish_new entry_of enforce_quota namespace_used used_from list_entries values
    sort_by put_entry put_entry_at get_entry get put norm_namespace require_namespace get_namespace
    lt64 le64 add64 sub64
publishes = refl

publish-room_example : bytes_in "default" (publish fresh [] 12 none (cache_on roomy)).1.store ≤ 100
publish-room_example =
    publish-room fresh [] 12 none (cache_on roomy) published small_space roomy-IsKeyed space_there
      default_name free_key (omega arith) (omega arith) (rw no_bytes (omega arith)) publishes refl
