-- ===== src/Cache/Eviction/Plan.antt =====
-- cache.go: the choice of eviction candidates.
use Prim.Native.String.{◌++◌}
use go_build_cache.Prelude.{
  ℕ, String, Bool, not, ◌&&◌, List, [], ◌∷◌, ltb, ◌==◌, str_eq, if◌then◌else◌, any, keep, sort_by,
  length,
}
use go_build_cache.Prelude.Exec.{ok, reject, ◌>>=◌, ◌>>◌}
use go_build_cache.Prelude.Int64.{add64, le64}
use go_build_cache.Prelude.Text.{itoa, str_lt, decimal}
use go_build_cache.Digest.{no_digest}
use go_build_cache.Ids.{eviction_id}
use go_build_cache.Model.{
  Time, Entry, Pin, active, Namespace, EvictionCandidate, EvictionDecision, evict_pending,
  eviction_proposed, GcRecord, gc_eviction,
}
use go_build_cache.Errors.{plain}
use go_build_cache.Store.{MemoryStore}
use go_build_cache.Store.Audit.{append_audit}
use go_build_cache.Store.Entries.{list_entries}
use go_build_cache.Store.Pins.{list_pins}
use go_build_cache.Store.Decisions.{save_decision}
use go_build_cache.Cache.{M, clock_now, query, norm_namespace, require_namespace}

-- namespaceUsedLocked: the loop over the listed entries, an int64 sum
unfoldable pub used_from : String → ℕ → List Entry → ℕ
used_from namespace used [] = used
used_from namespace used (e ∷ es) =
    used_from namespace (if str_eq e.namespace namespace then add64 used e.total_size else used) es

unfoldable pub namespace_used : String → MemoryStore → ℕ
unfolding used_from
namespace_used namespace m = used_from namespace 0 (list_entries m)

-- Whether the map of active pins of a namespace has the key.
unfoldable pub is_pinned : String → Time → List Pin → String → Bool
is_pinned namespace now pins key =
    any (λ p. str_eq p.namespace namespace && active p now && str_eq p.key key) pins

unfoldable pub is_candidate : String → String → Time → List Pin → Entry → Bool
is_candidate namespace exclude_key now pins e =
    str_eq e.namespace namespace
    && not (str_eq e.key exclude_key)
    && not (is_pinned namespace now pins e.key)

-- Least recently used first, then by key.
unfoldable pub lru_before : Entry → Entry → Bool
lru_before a b =
    if not (a.last_accessed_at == b.last_accessed_at)
    then ltb a.last_accessed_at b.last_accessed_at
    else str_lt a.key b.key

unfoldable pub snapshot : String → Entry → EvictionCandidate
snapshot namespace e = record {
  namespace = namespace;
  key = e.key;
  digest = e.digest;
  version = e.version;
  size = e.total_size;
  last_accessed_at = e.last_accessed_at;
  outcome = evict_pending;
}

-- The loop that takes candidates until their sizes reach `need`.
unfoldable pub choose : String → ℕ → ℕ → List Entry → List EvictionCandidate
unfolding snapshot
choose namespace need accumulated [] = []
choose namespace need accumulated (e ∷ es) =
    let rest = choose namespace need (add64 accumulated e.total_size) es in
    if le64 need accumulated then [] else snapshot namespace e ∷ rest

-- The entries that may be evicted, in the order in which they are.
unfoldable pub lru_candidates : String → String → Time → MemoryStore → List Entry
lru_candidates namespace exclude_key now m =
    sort_by lru_before
      (keep (is_candidate namespace exclude_key now (list_pins m)) (list_entries m))

unfoldable pub new_decision :
    Namespace → ℕ → String → String → Time → ℕ → MemoryStore → EvictionDecision
new_decision ns need reason exclude_key now seq m = record {
  id = eviction_id seq;
  namespace = ns.name;
  reason = reason;
  max_bytes = ns.max_bytes;
  used_before = namespace_used ns.name m;
  needed_bytes = need;
  freed_bytes = 0;
  candidates = choose ns.name need 0 (lru_candidates ns.name exclude_key now m);
  status = eviction_proposed;
  decided_at = now;
  committed_at = 0;
}

abbrev pub eviction_record : Time → String → String → GcRecord
eviction_record now key detail = record {
  time = now;
  generation = 0;
  action = gc_eviction;
  blob = no_digest;
  key = key;
  session_id = "";
  reason = "";
  detail = detail;
}

unfoldable pub proposed_detail : EvictionDecision → String
proposed_detail d =
    "decision="
    ++ d.id
    ++ " phase=proposed reason="
    ++ d.reason
    ++ " candidates="
    ++ decimal (length d.candidates)
    ++ " need="
    ++ itoa d.needed_bytes

-- planEvictionLocked
unfoldable pub plan_eviction_locked : Namespace → ℕ → String → String → Time → M EvictionDecision
unfolding new_decision proposed_detail
plan_eviction_locked ns need reason exclude_key now c =
    let seq = add64 c.evict_seq 1 in
    let d = new_decision ns need reason exclude_key now seq c.store in
    (
      ok d,
      record c {
        store =
            append_audit (eviction_record now ns.name (proposed_detail d))
              (save_decision d c.store);
        evict_seq = seq;
      },
    )

-- Cache.PlanEviction
unfoldable pub plan_eviction : String → ℕ → M EvictionDecision
plan_eviction namespace need = do
  reject (le64 need 0) (plain "buildcache: need bytes must be positive")
  ns ← query (require_namespace (norm_namespace namespace))
  now ← clock_now
  plan_eviction_locked ns need "manual" "" now
