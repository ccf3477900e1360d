-- ===== src/Cache/Eviction/Deletions.antt =====
-- What a commit deletes, and what it frees.
use go_build_cache.Prelude.{
  ℕ, ◌+◌, ◌<◌, ◌≤◌, String, ◌≡◌, refl, ◌∙◌, Bool, true, false, List, [], ◌∷◌, arith, str_eq, eq_iff,
  if◌then◌else◌, Bool-cases, inl, inr, In,
}
use go_build_cache.Prelude.Exec.{Result, ok, err}
use go_build_cache.Prelude.Int64.{add64, two64, add64_exact}
use go_build_cache.Prelude.Maps.{get, get-delete, string_eq}
use go_build_cache.Digest.{equal}
use go_build_cache.Model.{Entry, EvictionCandidate}
use go_build_cache.Errors.{Error, entry_not_found}
use go_build_cache.Store.{MemoryStore, entry_map_key, or_fail}
use go_build_cache.Store.Entries.{get_entry, delete_entry}
use go_build_cache.Store.Invariant.{IsKeyed, delete_entry-IsKeyed}
use go_build_cache.Cache.Eviction.Commit.{outcome_of, is_deleted, commit_candidates, with_candidate}
use go_build_cache.Cache.Eviction.Usage.{bytes_in, bytes_in-delete_entry}

-- The entry is the one that the candidate was made from, and nothing has read it since.
pub record Untouched (cand : EvictionCandidate) (e : Entry) : Type 0 where
  pub same_version : e.version ≡ cand.version
  pub same_digest : equal e.digest cand.digest ≡ true
  pub not_accessed : e.last_accessed_at ≤ cand.last_accessed_at

deleted_entry :
    (pinned : Bool) (cand : EvictionCandidate) (r : Result Error Entry)
    → is_deleted (outcome_of pinned r cand) ≡ true
    → (e : Entry) × (r ≡ ok e) × Untouched cand e × (pinned ≡ false)
unfolding outcome_of
deleted_entry pinned cand (err x) h = absurd (cc h)
deleted_entry pinned cand (ok e) h = (
  e,
  refl,
  record {
    same_version = ground (arith, h);
    same_digest = ground (arith, h);
    not_accessed = ground (arith, h);
  },
  ground (arith, h),
)

-- What a commit leaves under the map key `k`.
pub data Left (ns k : String) (pinned : String → Bool) (cands : List EvictionCandidate)
    (old new : Result Error Entry) : Type 0 where
  spared : new ≡ old → Left ns k pinned cands old new
  evicted :
      (cand : EvictionCandidate) (e : Entry)
      → In cand cands
      → entry_map_key ns cand.key ≡ k
      → old ≡ ok e
      → Untouched cand e
      → pinned cand.key ≡ false
      → new ≡ err entry_not_found
      → Left ns k pinned cands old new

-- What stands under a map key, as GetEntry gives it.
abbrev pub found_at : String → MemoryStore → Result Error Entry
found_at k m = or_fail (get k m.entries) entry_not_found

pub found_at-delete_entry :
    (ns key k : String) (m : MemoryStore)
    → found_at k (delete_entry ns key m)
      ≡ (if str_eq (entry_map_key ns key) k then err entry_not_found else found_at k m)
unfolding delete_entry
found_at-delete_entry ns key k m =
    rw (get-delete (entry_map_key ns key) k m.entries)
      (elim (Bool-cases (str_eq (entry_map_key ns key) k)) [
        | inl y ↦ rw y refl
        | inr n ↦ rw n refl
      ])

-- An entry that is there after a deletion was there before.
pub still_there :
    (ns key k : String) (e : Entry) (m : MemoryStore)
    → found_at k (delete_entry ns key m) ≡ ok e
    → found_at k m ≡ ok e
still_there ns key k e m h =
    let d = found_at-delete_entry ns key k m in
    elim (Bool-cases (str_eq (entry_map_key ns key) k)) [
      | inl y ↦ absurd (cc (rw y at d, h))
      | inr n ↦ cc (rw n at d, h)
    ]

module _ (ns k : String) (pinned : String → Bool) where
  Left-skip :
      (cand : EvictionCandidate) (cands : List EvictionCandidate) (old new : Result Error Entry)
      → Left ns k pinned cands old new
      → Left ns k pinned (cand ∷ cands) old new
  Left-skip cand cands old new (spared e) = spared e
  Left-skip cand cands old new (evicted x e i q o u p g) = evicted x e (inr i) q o u p g

  Left-delete :
      (cand : EvictionCandidate) (cands : List EvictionCandidate) (e : Entry) (m : MemoryStore)
      (new : Result Error Entry)
      → found_at (entry_map_key ns cand.key) m ≡ ok e
      → Untouched cand e
      → pinned cand.key ≡ false
      → Left ns k pinned cands (found_at k (delete_entry ns cand.key m)) new
      → Left ns k pinned (cand ∷ cands) (found_at k m) new
  Left-delete cand cands e m new f u p (evicted x y i q o w r g) =
      evicted x y (inr i) q (still_there ns cand.key k y m o) w r g
  Left-delete cand cands e m new f u p (spared s) =
      let d = found_at-delete_entry ns cand.key k m in
      elim (Bool-cases (str_eq (entry_map_key ns cand.key) k)) [
        | inl y ↦
            let same = (eq_iff (entry_map_key ns cand.key) k).0 y in
            evicted cand e (inl refl) same (rw (← same) f) u p (s ∙ (rw y at d))
        | inr n ↦ spared (s ∙ (rw n at d))
      ]

  -- Under every key a commit leaves what was there, or it has deleted an entry that a candidate was
  -- made from, that nothing has read since, and that no active lease protects.
  pub commit_candidates-Left :
      (cands : List EvictionCandidate) (freed : ℕ) (m : MemoryStore)
      → Left ns k pinned cands
          (found_at k m)
          (found_at k (commit_candidates ns pinned cands freed m).store)
  unfolding commit_candidates get_entry with_candidate
  commit_candidates-Left [] freed m = spared refl
  commit_candidates-Left (cand ∷ cands) freed m =
      elim (Bool-cases (is_deleted (outcome_of (pinned cand.key) (get_entry ns cand.key m) cand))) [
        | inl y ↦
            let (e, f, u, p) = deleted_entry (pinned cand.key) cand (get_entry ns cand.key m) y in
            rw y (
              Left-delete cand cands e m _ f u p
                (commit_candidates-Left cands (add64 freed cand.size) (delete_entry ns cand.key m)))
        | inr n ↦ rw n (Left-skip cand cands _ _ (commit_candidates-Left cands freed m))
      ]

-- The candidates give the true sizes: an entry that still has a candidate's version has its size, and
-- lies in the namespace.
abbrev pub Sized : String → List EvictionCandidate → MemoryStore → Type 0
Sized ns cands m =
    (cand : EvictionCandidate) (e : Entry)
    → In cand cands
    → get_entry ns cand.key m ≡ ok e
    → e.version ≡ cand.version
    → (e.namespace ≡ ns) × (e.total_size ≡ cand.size)

module _ (ns : String) (pinned : String → Bool) where
  Sized-delete :
      (cand : EvictionCandidate) (cands : List EvictionCandidate) (m : MemoryStore)
      → Sized ns (cand ∷ cands) m
      → Sized ns cands (delete_entry ns cand.key m)
  unfolding get_entry
  Sized-delete cand cands m s x e i g v =
      s x e (inr i) (still_there ns cand.key (entry_map_key ns x.key) e m g) v

  -- A commit frees what its deletions take from the namespace, to the byte.
  pub commit_candidates-freed :
      (cands : List EvictionCandidate) (freed : ℕ) (m : MemoryStore)
      → IsKeyed m
      → Sized ns cands m
      → freed + bytes_in ns m < two64
      → (freed + bytes_in ns m
          ≡ (commit_candidates ns pinned cands freed m).freed
            + bytes_in ns (commit_candidates ns pinned cands freed m).store)
        × IsKeyed (commit_candidates ns pinned cands freed m).store
  unfolding commit_candidates with_candidate
  commit_candidates-freed [] freed m v s h = (refl, v)
  commit_candidates-freed (cand ∷ cands) freed m v s h =
      elim (Bool-cases (is_deleted (outcome_of (pinned cand.key) (get_entry ns cand.key m) cand))) [
        | inl y ↦
            let (e, f, u, p) = deleted_entry (pinned cand.key) cand (get_entry ns cand.key m) y in
            let (inside, sz) = s cand e (inl refl) f u.same_version in
            let less = bytes_in-delete_entry ns cand.key e m v.unique_entries f inside in
            let exact = add64_exact freed cand.size (omega arith) in
            let (sum, w) =
              commit_candidates-freed cands (freed + cand.size) (delete_entry ns cand.key m)
                (delete_entry-IsKeyed m v ns cand.key) (Sized-delete cand cands m s)
                (omega arith) in
            rw (y, exact) (rw (← sum) (omega arith), w)
        | inr n ↦ rw n (commit_candidates-freed cands freed m v (λ x e i. s x e (inr i)) h)
      ]
