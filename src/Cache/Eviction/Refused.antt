-- ===== src/Cache/Eviction/Refused.antt =====
-- The quota check when it refuses: the candidates of its plan are deleted all the same.
use go_build_cache.Prelude.{
  ℕ, String, ◌≡◌, refl, ap, ◌∙◌, Bool, true, false, List, [], ◌∷◌, arith, eq_iff, ==_iff,
  Bool-cases, Option-cases, inl, inr, ◌⊎◌, In,
}
use go_build_cache.Prelude.Exec.{Result, ok, err, Result-cases}
use go_build_cache.Prelude.Int64.{add64, sub64, le64}
use go_build_cache.Prelude.Maps.{Map, get, string_eq}
use go_build_cache.Digest.{Digest, equal}
use go_build_cache.Model.{Time, Entry, Namespace, EvictionCandidate, EvictionDecision}
use go_build_cache.Errors.{Error, entry_not_found}
use go_build_cache.Store.{MemoryStore, entry_map_key, or_fail}
use go_build_cache.Store.Audit.{append_audit}
use go_build_cache.Store.Decisions.{save_decision}
use go_build_cache.Store.Entries.{get_entry, delete_entry}
use go_build_cache.Store.Invariant.{IsKeyed}
use go_build_cache.Store.Pins.{list_pins}
use go_build_cache.Cache.{Cache}
use go_build_cache.Cache.Eviction.Plan.{
  namespace_used, is_pinned, snapshot, choose, lru_candidates, plan_eviction_locked, new_decision,
}
use go_build_cache.Cache.Eviction.Commit.{outcome_of, is_deleted, commit_candidates, with_candidate}
use go_build_cache.Cache.Eviction.Quota.{evict_for, enforce_quota}
use go_build_cache.Cache.Eviction.Deletions.{
  Left, spared, evicted, found_at, found_at-delete_entry, still_there, commit_candidates-Left,
}
use go_build_cache.Cache.Eviction.Planned.{plan_store, planned-MayGo, planned_entry}
use go_build_cache.Cache.Eviction.Chosen.{none_pinned}
use go_build_cache.Cache.Eviction.Fits.{evicting, evict_for-entries}

-- A candidate is gone, or it still is the snapshot of the entry under its key, and unpinned.
abbrev Doomed : String → (String → Bool) → MemoryStore → EvictionCandidate → Type 0
Doomed ns pinned m cand =
    (pinned cand.key ≡ false)
    × ((e : Entry) → get_entry ns cand.key m ≡ ok e → cand ≡ snapshot ns e)

equal_self : (d : Digest) → equal d d ≡ true
unfolding equal
equal_self d = rw ((eq_iff d.algo d.algo).1 refl, (eq_iff d.hex d.hex).1 refl) refl

doomed_deleted :
    (ns : String) (pinned : Bool) (cand : EvictionCandidate) (e : Entry)
    → pinned ≡ false
    → cand ≡ snapshot ns e
    → is_deleted (outcome_of pinned (ok e) cand) ≡ true
unfolding outcome_of snapshot
doomed_deleted ns pinned cand e p q =
    rw (p, q, (==_iff e.version e.version).1 refl, equal_self e.digest) (ground arith)

-- What is missing stays missing.
Left-missing :
    (ns k : String) (pinned : String → Bool) (cands : List EvictionCandidate)
    (old new : Result Error Entry)
    → old ≡ err entry_not_found
    → Left ns k pinned cands old new
    → new ≡ err entry_not_found
Left-missing ns k pinned cands old new h (spared e) = e ∙ h
Left-missing ns k pinned cands old new h (evicted cand e i q o u p g) = g

found_at-missing :
    (k : String) (m : MemoryStore) (x : Error)
    → found_at k m ≡ err x
    → found_at k m ≡ err entry_not_found
found_at-missing k m x h = elim (Option-cases (get k m.entries)) [
  | inl g ↦ rw g refl
  | inr (e, g) ↦ absurd (cc (rw g at h))
]

module _ (ns : String) (pinned : String → Bool) where
  Doomed-delete :
      (key : String) (m : MemoryStore) (cand : EvictionCandidate)
      → Doomed ns pinned m cand
      → Doomed ns pinned (delete_entry ns key m) cand
  unfolding get_entry
  Doomed-delete key m cand (p, h) =
      (p, λ e g. h e (still_there ns key (entry_map_key ns cand.key) e m g))

  -- A commit deletes every candidate that has not changed.
  commit_candidates-Doomed :
      (cands : List EvictionCandidate) (freed : ℕ) (m : MemoryStore)
      → ((cand : EvictionCandidate) → In cand cands → Doomed ns pinned m cand)
      → (cand : EvictionCandidate) → In cand cands
      → found_at (entry_map_key ns cand.key) (commit_candidates ns pinned cands freed m).store
        ≡ err entry_not_found
  unfolding commit_candidates with_candidate get_entry outcome_of
  commit_candidates-Doomed [] freed m h cand i = elim i [ ]
  commit_candidates-Doomed (x ∷ cands) freed m h cand i =
      elim (Result-cases (found_at (entry_map_key ns x.key) m)) [
        | inl (e, g) ↦
            let (p, q) = h x (inl refl) in
            let y : is_deleted (outcome_of (pinned x.key) (get_entry ns x.key m) x) ≡ true =
              rw g (doomed_deleted ns (pinned x.key) x e p (q e g)) in
            let m1 = delete_entry ns x.key m in
            rw y (elim i [
              | inl same ↦ rw same (first_gone x (add64 freed x.size) m1 (deleted_missing x.key m))
              | inr j ↦
                  commit_candidates-Doomed cands (add64 freed x.size) m1
                    (λ z k. Doomed-delete x.key m z (h z (inr k))) cand j
            ])
        | inr (y, g) ↦
            let z : is_deleted (outcome_of (pinned x.key) (get_entry ns x.key m) x) ≡ false =
              rw g refl in
            rw z (elim i [
              | inl same ↦
                  rw same (first_gone x freed m (found_at-missing (entry_map_key ns x.key) m y g))
              | inr j ↦ commit_candidates-Doomed cands freed m (λ w k. h w (inr k)) cand j
            ])
      ]
    where
      deleted_missing :
          (key : String) (m : MemoryStore)
          → found_at (entry_map_key ns key) (delete_entry ns key m) ≡ err entry_not_found
      deleted_missing key m =
          found_at-delete_entry ns key (entry_map_key ns key) m
          ∙ rw ((eq_iff (entry_map_key ns key) (entry_map_key ns key)).1 refl) refl

      first_gone :
          (x : EvictionCandidate) (freed : ℕ) (m : MemoryStore)
          → found_at (entry_map_key ns x.key) m ≡ err entry_not_found
          → found_at (entry_map_key ns x.key) (commit_candidates ns pinned cands freed m).store
            ≡ err entry_not_found
      first_gone x freed m gone =
          Left-missing ns (entry_map_key ns x.key) pinned cands _ _ gone
            (commit_candidates-Left ns (entry_map_key ns x.key) pinned cands freed m)

module _ (ns : Namespace) (exclude : String) (used need : ℕ) (now : Time) (c : Cache)
    (v : IsKeyed c.store) where
  abbrev plan : List EvictionCandidate
  plan = choose ns.name need 0 (lru_candidates ns.name exclude now c.store)

  planned-Doomed :
      (cand : EvictionCandidate)
      → In cand plan
      → Doomed ns.name
          (is_pinned ns.name now (list_pins c.store))
          (plan_store ns need "quota_on_publish" exclude now c)
          cand
  unfolding plan_eviction_locked append_audit save_decision get_entry is_pinned snapshot
  planned-Doomed cand i =
      let (x, may, q) = planned-MayGo ns exclude need now c.store v cand i in
      let free = none_pinned ns.name exclude now c.store x.key (list_pins c.store) may.unpinned in
      (rw q free, λ e g. rw (planned_entry ns exclude need now c.store v cand e x may q g) q)

  after_evict_for :
      (k : String)
      → found_at k (evict_for ns exclude used need now c).1.store
        ≡ found_at k (evicting ns need exclude now c).store
  after_evict_for k =
      ap (λ (es : Map String Entry). or_fail (get k es) entry_not_found)
        (evict_for-entries ns exclude used need now c v)

  evict_for-gone :
      (cand : EvictionCandidate)
      → In cand plan
      → found_at (entry_map_key ns.name cand.key) (evict_for ns exclude used need now c).1.store
        ≡ err entry_not_found
  evict_for-gone cand i =
      after_evict_for (entry_map_key ns.name cand.key)
      ∙ commit_candidates-Doomed ns.name (is_pinned ns.name now (list_pins c.store)) plan 0
          (plan_store ns need "quota_on_publish" exclude now c) planned-Doomed cand i

  evict_for-kept :
      (k : String)
      → (found_at k (evict_for ns exclude used need now c).1.store ≡ found_at k c.store)
        ⊎ ((cand : EvictionCandidate) × In cand plan × (entry_map_key ns.name cand.key ≡ k))
  unfolding plan_eviction_locked append_audit save_decision
  evict_for-kept k =
      elim (commit_candidates-Left ns.name k (is_pinned ns.name now (list_pins c.store)) plan 0
        (plan_store ns need "quota_on_publish" exclude now c)) [
          | spared e ↦ inl (after_evict_for k ∙ e)
          | evicted cand e i q o u p g ↦ inr (cand, i, q)
        ]

-- By how much a publication passes the limit, on 64-bit patterns.
abbrev pub excess : Namespace → ℕ → ℕ → Cache → ℕ
excess ns old_size new_size c =
    sub64 (add64 (sub64 (namespace_used ns.name c.store) old_size) new_size) ns.max_bytes

-- Where enforceQuotaLocked refuses, it has deleted all the same what the plan for the excess proposes:
-- every candidate of that plan is gone, and every other entry is as it was.
pub enforce_quota-refused :
    (ns : Namespace) (exclude : String) (old_size new_size : ℕ) (now : Time) (c : Cache) (x : Error)
    (d : EvictionDecision)
    → IsKeyed c.store
    → (enforce_quota ns exclude old_size new_size now c).0 ≡ err x
    → (plan_eviction_locked ns (excess ns old_size new_size c) "quota_on_publish" exclude now c).0
      ≡ ok d
    → ((cand : EvictionCandidate)
        → In cand d.candidates
        → found_at
            (entry_map_key ns.name cand.key)
            (enforce_quota ns exclude old_size new_size now c).1.store
          ≡ err entry_not_found)
      × ((k : String)
          → (found_at k (enforce_quota ns exclude old_size new_size now c).1.store
              ≡ found_at k c.store)
            ⊎ ((cand : EvictionCandidate) × In cand d.candidates
                × (entry_map_key ns.name cand.key ≡ k)))
unfolding enforce_quota plan_eviction_locked new_decision
enforce_quota-refused ns exclude old_size new_size now c x d v h planned =
    let used = namespace_used ns.name c.store in
    let projected = add64 (sub64 used old_size) new_size in
    let need = sub64 projected ns.max_bytes in
    let same : d.candidates ≡ choose ns.name need 0 (lru_candidates ns.name exclude now c.store) =
      cc planned in
    elim (Bool-cases (le64 ns.max_bytes 0)) [
      | inl y ↦ absurd (cc (rw y at h))
      | inr n ↦ elim (Bool-cases (le64 projected ns.max_bytes)) [
        | inl y ↦ absurd (cc (rw (n, y) at h))
        | inr q ↦
            rw (n, q, same)
              (
                evict_for-gone ns exclude used need now c v,
                evict_for-kept ns exclude used need now c v,
              )
      ]
    ]
