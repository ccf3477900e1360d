-- ===== src/Cache/Sessions/Create.antt =====
-- cache.go: CreateSession. The identifier is what `newSessionID` draws at random, or its failure.
use go_build_cache.Prelude.{
  ℕ, ◌+◌, String, Bool, not, ◌&&◌, Option, none, some, List, [], if◌then◌else◌, str_eq, sort_by,
  length, ◌==◌,
}
use go_build_cache.Prelude.Exec.{Result, ok, err, pure, raise, lift, modify, reject, ◌>>=◌, ◌>>◌}
use go_build_cache.Prelude.Int64.{le64}
use go_build_cache.Prelude.Maps.{get, put, delete, string_eq}
use go_build_cache.Digest.{Digest, valid, equal}
use go_build_cache.Model.{Time, ChunkSpec, Session, session_open}
use go_build_cache.Errors.{Error, idempotency_conflict, plain}
use go_build_cache.Store.{MemoryStore}
use go_build_cache.Store.Sessions.{get_session, save_session}
use go_build_cache.Cache.{Cache, M, clock_now, query, write, norm_namespace, require_namespace}
use go_build_cache.Cache.Sessions.Sweep.{idem_composite, expired, is_open}
use go_build_cache.Cache.Sessions.Chunks.{normalize_chunks, index_before, same_chunks}

pub record CreateSessionOptions : Type 0 where
  pub namespace : String
  pub key : String
  pub idempotency_key : String
  pub total_size : ℕ
  pub final_digest : Digest
  pub chunks : List ChunkSpec
  pub lease_duration : ℕ

unfoldable pub same_params : Session → CreateSessionOptions → Bool
same_params s opts =
    str_eq (norm_namespace s.namespace) (norm_namespace opts.namespace)
    && (str_eq s.key opts.key
        && (s.total_size == opts.total_size
            && (equal s.final_digest opts.final_digest
                && (length s.chunks == length opts.chunks
                    && same_chunks (sort_by index_before opts.chunks) s.chunks))))

-- Whether the session that an idempotency key points to still takes uploads.
abbrev pub usable : Time → Result Error Session → Option Session
usable now (err e) = none
usable now (ok s) = if is_open s.status && not (expired s now) then some s else none

-- The answer that the idempotency map gives, and whether its mapping is stale.
pub data Remembered : Type 0 where
  nothing stale : Remembered
  same conflicting : Session → Remembered

abbrev pub compared : CreateSessionOptions → Option Session → Remembered
compared opts none = stale
compared opts (some s) = if same_params s opts then same s else conflicting s

abbrev pub pointed_to : CreateSessionOptions → Time → MemoryStore → Option String → Remembered
pointed_to opts now m none = nothing
pointed_to opts now m (some id) = compared opts (usable now (get_session id m))

unfoldable pub remembered : CreateSessionOptions → String → Time → Cache → Remembered
remembered opts namespace now c =
    if str_eq opts.idempotency_key ""
    then nothing
    else pointed_to opts now c.store (get (idem_composite namespace opts.idempotency_key) c.idem)

unfoldable pub new_session :
    CreateSessionOptions → String → List ChunkSpec → String → Time → ℕ → Session
new_session opts namespace chunks id now ttl = record {
  id = id;
  namespace = namespace;
  key = opts.key;
  idempotency_key = opts.idempotency_key;
  total_size = opts.total_size;
  final_digest = opts.final_digest;
  chunks = chunks;
  created_at = now;
  expires_at = now + (if le64 opts.lease_duration 0 then ttl else opts.lease_duration);
  status = session_open;
  published_version = 0;
  received = [];
}

-- What remains when no earlier request answers.
unfoldable pub open_session :
    CreateSessionOptions → String → List ChunkSpec → Result Error String → Time → M Session
open_session opts namespace chunks new_id now = do
  id ← lift new_id
  session ← (λ c. (ok (new_session opts namespace chunks id now c.ttl), c))
  write (save_session session)
  modify (λ (c : Cache).
      if str_eq opts.idempotency_key ""
      then c
      else record c { idem = put (idem_composite namespace opts.idempotency_key) id c.idem })
  pure session

abbrev pub answer : CreateSessionOptions → String → M Session → Remembered → M Session
answer opts namespace go nothing = go
answer opts namespace go stale = do
  modify (λ (c : Cache). record c {
    idem = delete (idem_composite namespace opts.idempotency_key) c.idem;
  })
  go
answer opts namespace go (same s) = pure s
answer opts namespace go (conflicting s) = raise (idempotency_conflict opts.idempotency_key s.id)

-- Cache.CreateSession
unfoldable pub create_session : CreateSessionOptions → Result Error String → M Session
create_session opts new_id = do
  reject (str_eq opts.key "") (plain "buildcache: cache key is required")
  reject (not (valid opts.final_digest)) (plain "buildcache: valid final digest is required")
  reject (le64 opts.total_size 0) (plain "buildcache: total size must be positive")
  chunks ← lift (normalize_chunks opts.chunks opts.total_size opts.final_digest.algo)
  let namespace = norm_namespace opts.namespace
  query (require_namespace namespace)
  now ← clock_now
  r ← (λ c. (ok (remembered opts namespace now c), c))
  answer opts namespace (open_session opts namespace chunks new_id now) r
