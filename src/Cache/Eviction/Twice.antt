-- ===== src/Cache/Eviction/Twice.antt =====
-- CommitEviction: what it may delete, and what a second call does.
use go_build_cache.Prelude.{String, ◌≡◌, refl, sym, ◌∙◌, eq_iff, inl, inr, ◌⊎◌}
use go_build_cache.Prelude.Exec.{ok}
use go_build_cache.Prelude.Maps.{get-put, string_eq}
use go_build_cache.Model.{
  Time, EvictionDecision, EvictionStatus, eviction_proposed, eviction_committed,
}
use go_build_cache.Store.Audit.{append_audit}
use go_build_cache.Store.Decisions.{save_decision, get_decision}
use go_build_cache.Store.Pins.{list_pins}
use go_build_cache.Cache.{Cache, next_reading, tick}
use go_build_cache.Cache.Eviction.Plan.{is_pinned}
use go_build_cache.Cache.Eviction.Commit.{
  commit_candidates, commit_eviction_locked, commit_eviction,
}
use go_build_cache.Cache.Eviction.Deletions.{Left, spared, found_at, commit_candidates-Left}

EvictionStatus-cases : (s : EvictionStatus) → (s ≡ eviction_proposed) ⊎ (s ≡ eviction_committed)
EvictionStatus-cases eviction_proposed = inl refl
EvictionStatus-cases eviction_committed = inr refl

-- A decision that is committed.
commit_eviction-committed :
    (id : String) (d : EvictionDecision) (c : Cache)
    → get_decision id c.store ≡ ok d
    → d.status ≡ eviction_committed
    → commit_eviction id c ≡ (ok d, c)
unfolding commit_eviction
commit_eviction-committed id d c g s = rw (g, s) refl

commit_eviction-proposed :
    (id : String) (d : EvictionDecision) (c : Cache)
    → get_decision id c.store ≡ ok d
    → d.status ≡ eviction_proposed
    → commit_eviction id c ≡ commit_eviction_locked d (next_reading c) (tick c)
unfolding commit_eviction
commit_eviction-proposed id d c g s = rw (g, s) refl

-- Whatever happened between the plan and the commit, a commit leaves every entry as it is, except that
-- it may delete one that a candidate of the decision was made from, that nothing has read since, and
-- that no active lease protects now.
pub commit_eviction-Left :
    (id : String) (d : EvictionDecision) (c : Cache) (k : String)
    → get_decision id c.store ≡ ok d
    → Left d.namespace k
        (is_pinned d.namespace (next_reading c) (list_pins c.store))
        d.candidates
        (found_at k c.store)
        (found_at k (commit_eviction id c).1.store)
unfolding commit_eviction_locked append_audit save_decision
commit_eviction-Left id d c k g = elim (EvictionStatus-cases d.status) [
  | inl s ↦ rw (commit_eviction-proposed id d c g s) (
      commit_candidates-Left d.namespace k
        (is_pinned d.namespace (next_reading c) (list_pins c.store)) d.candidates d.freed_bytes
        c.store)
  | inr s ↦ rw (commit_eviction-committed id d c g s) (spared refl)
]

saved_decision :
    (d : EvictionDecision) (now : Time) (c : Cache)
    → (x : EvictionDecision) × ((commit_eviction_locked d now c).0 ≡ ok x)
      × (x.status ≡ eviction_committed)
      × (get_decision d.id (commit_eviction_locked d now c).1.store ≡ ok x)
unfolding commit_eviction_locked append_audit save_decision get_decision
saved_decision d now c =
    let r =
      commit_candidates d.namespace (is_pinned d.namespace now (list_pins c.store)) d.candidates
        d.freed_bytes c.store in
    (_, refl, refl, rw (get-put d.id d.id _ r.store.decisions, (eq_iff d.id d.id).1 refl) refl)

-- A second CommitEviction returns what the first returned, and changes nothing, the clock included.
pub commit_eviction-again :
    (id : String) (d : EvictionDecision) (c : Cache)
    → get_decision id c.store ≡ ok d
    → d.id ≡ id
    → commit_eviction id (commit_eviction id c).1 ≡ commit_eviction id c
commit_eviction-again id d c g same = elim (EvictionStatus-cases d.status) [
  | inl s ↦
      let (x, res, st, found) = saved_decision d (next_reading c) (tick c) in
      let done = commit_eviction_locked d (next_reading c) (tick c) in
      rw (commit_eviction-proposed id d c g s)
        (commit_eviction-committed id x done.1 (rw (← same) found) st ∙ (λ i. (sym res i, done.1)))
  | inr s ↦ let e = commit_eviction-committed id d c g s in rw e e
]
