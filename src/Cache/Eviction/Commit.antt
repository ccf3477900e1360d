-- ===== src/Cache/Eviction/Commit.antt =====
-- cache.go: the commit of an eviction decision, candidate by candidate.
use Prim.Native.String.{◌++◌}
use go_build_cache.Prelude.{
  ℕ, suc, ◌-◌, String, Bool, true, false, not, ◌||◌, List, [], ◌∷◌, ◌==◌, str_eq, if◌then◌else◌,
  keep, length,
}
use go_build_cache.Prelude.Exec.{Result, ok, err, pure, ◌>>=◌}
use go_build_cache.Prelude.Int64.{add64}
use go_build_cache.Prelude.Text.{itoa, decimal}
use go_build_cache.Digest.{equal}
use go_build_cache.Model.{
  Time, after, Entry, EvictionCandidate, EvictionDecision, EvictionStatus, Outcome, evict_deleted,
  skipped_accessed, skipped_pinned, skipped_republished, skipped_missing, eviction_proposed,
  eviction_committed,
}
use go_build_cache.Errors.{Error}
use go_build_cache.Store.{MemoryStore}
use go_build_cache.Store.Audit.{append_audit}
use go_build_cache.Store.Entries.{get_entry, delete_entry}
use go_build_cache.Store.Pins.{list_pins}
use go_build_cache.Store.Decisions.{save_decision, get_decision, list_decisions}
use go_build_cache.Cache.{M, clock_now, query, look}
use go_build_cache.Cache.Eviction.Plan.{is_pinned, eviction_record}

-- What the re-check of a candidate finds. The memory store's GetEntry fails only on a missing entry.
unfoldable pub outcome_of : Bool → Result Error Entry → EvictionCandidate → Outcome
outcome_of pinned (err e) cand = skipped_missing
outcome_of pinned (ok entry) cand =
    if not (entry.version == cand.version) || not (equal entry.digest cand.digest)
    then skipped_republished
    else if after entry.last_accessed_at cand.last_accessed_at
    then skipped_accessed
    else if pinned
    then skipped_pinned
    else evict_deleted

abbrev pub is_deleted : Outcome → Bool
is_deleted evict_deleted = true
is_deleted _ = false

-- The loop over the candidates, with the bytes freed so far.
pub record Committing : Type 0 where
  pub candidates : List EvictionCandidate
  pub freed : ℕ
  pub store : MemoryStore

unfoldable pub with_candidate : EvictionCandidate → Committing → Committing
with_candidate cand r = record r { candidates = cand ∷ r.candidates }

unfoldable pub commit_candidates :
    String → (String → Bool) → List EvictionCandidate → ℕ → MemoryStore → Committing
unfolding with_candidate
commit_candidates namespace pinned [] freed m = record { candidates = []; freed = freed; store = m }
commit_candidates namespace pinned (cand ∷ cands) freed m =
    let outcome = outcome_of (pinned cand.key) (get_entry namespace cand.key m) cand in
    let deleted = is_deleted outcome in
    with_candidate (record cand { outcome = outcome })
      (commit_candidates namespace pinned cands (if deleted then add64 freed cand.size else freed)
        (if deleted then delete_entry namespace cand.key m else m))

unfoldable pub count_deleted : List EvictionCandidate → ℕ
count_deleted [] = 0
count_deleted (cand ∷ cands) =
    if is_deleted cand.outcome then suc (count_deleted cands) else count_deleted cands

pub committed_detail : EvictionDecision → String
committed_detail d =
    "decision="
    ++ d.id
    ++ " phase=committed deleted="
    ++ decimal (count_deleted d.candidates)
    ++ " skipped="
    ++ decimal (length d.candidates - count_deleted d.candidates)
    ++ " freed="
    ++ itoa d.freed_bytes

-- commitEvictionLocked; the decision comes back as it was changed
unfoldable pub commit_eviction_locked : EvictionDecision → Time → M EvictionDecision
unfolding committed_detail
commit_eviction_locked decision now c =
    let r =
      commit_candidates decision.namespace (is_pinned decision.namespace now (list_pins c.store))
        decision.candidates decision.freed_bytes c.store in
    let d : EvictionDecision = record decision {
      candidates = r.candidates;
      freed_bytes = r.freed;
      status = eviction_committed;
      committed_at = now;
    } in
    (
      ok d,
      record c {
        store =
            append_audit (eviction_record now decision.namespace (committed_detail d))
              (save_decision d r.store);
      },
    )

abbrev pub commit_once : EvictionDecision → EvictionStatus → M EvictionDecision
commit_once decision eviction_committed = pure decision
commit_once decision eviction_proposed = do now ← clock_now; commit_eviction_locked decision now

-- Cache.CommitEviction: a decision that was committed comes back as it is
unfoldable pub commit_eviction : String → M EvictionDecision
commit_eviction id = do decision ← query (get_decision id); commit_once decision decision.status

-- Cache.GetEvictionDecision
unfoldable pub get_eviction_decision : String → M EvictionDecision
get_eviction_decision id = query (get_decision id)

-- Cache.ListEvictionDecisions
unfoldable pub list_eviction_decisions : String → M (List EvictionDecision)
list_eviction_decisions namespace =
    look λ m. keep (λ d. str_eq namespace "" || str_eq d.namespace namespace) (list_decisions m)
