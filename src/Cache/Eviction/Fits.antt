-- ===== src/Cache/Eviction/Fits.antt =====
-- The quota check: when it passes, the publication fits, and it deletes only what may go.
use go_build_cache.Prelude.{
  ℕ, ◌+◌, ◌-◌, ◌<◌, ◌≤◌, String, ◌≡◌, refl, ap, ◌∙◌, false, Option, none, arith, if◌then◌else◌, leb,
  Bool-cases, inl, inr, ◌⊎◌,
}
use go_build_cache.Prelude.Exec.{ok}
use go_build_cache.Prelude.Int64.{
  add64, sub64, le64, lt64, two64, two63, add64_exact, sub64_exact, le64_nonneg, lt64_nonneg,
}
use go_build_cache.Prelude.Maps.{Map, get, values, string_eq}
use go_build_cache.Model.{Time, Entry, Namespace, EvictionDecision}
use go_build_cache.Errors.{entry_not_found}
use go_build_cache.Store.{entry_map_key, or_fail}
use go_build_cache.Store.Audit.{append_audit}
use go_build_cache.Store.Decisions.{save_decision}
use go_build_cache.Store.Entries.{get_entry}
use go_build_cache.Store.Invariant.{IsKeyed}
use go_build_cache.Store.Pins.{list_pins}
use go_build_cache.Cache.{Cache}
use go_build_cache.Cache.Eviction.Plan.{
  namespace_used, is_pinned, choose, lru_candidates, plan_eviction_locked, new_decision,
}
use go_build_cache.Cache.Eviction.Commit.{Committing, commit_candidates, commit_eviction_locked}
use go_build_cache.Cache.Eviction.Quota.{evict_for, enforce_quota}
use go_build_cache.Cache.Eviction.Usage.{bytes_in, size_sum, namespace_used_lem}
use go_build_cache.Cache.Eviction.Chosen.{MayGo}
use go_build_cache.Cache.Eviction.Deletions.{
  spared, evicted, found_at, commit_candidates-Left, commit_candidates-freed,
}
use go_build_cache.Cache.Eviction.Planned.{
  plan_store, plan_store-IsKeyed, planned-MayGo, planned-Sized, planned_entry,
}

-- What the commit makes of the plan.
abbrev pub evicting : Namespace → ℕ → String → Time → Cache → Committing
evicting ns need exclude now c =
    commit_candidates ns.name (is_pinned ns.name now (list_pins c.store))
      (choose ns.name need 0 (lru_candidates ns.name exclude now c.store)) 0
      (plan_store ns need "quota_on_publish" exclude now c)

module _ (ns : Namespace) (exclude : String) (used need : ℕ) (now : Time) (c : Cache)
    (v : IsKeyed c.store) where
  evicting-freed :
      bytes_in ns.name c.store < two64
      → bytes_in ns.name c.store
        ≡ (evicting ns need exclude now c).freed
          + bytes_in ns.name (evicting ns need exclude now c).store
  unfolding plan_eviction_locked append_audit save_decision get_entry
  evicting-freed h =
      let small : 0 + bytes_in ns.name c.store < two64 = omega arith in
      let sums : 0 + bytes_in ns.name c.store
          ≡ (evicting ns need exclude now c).freed
            + bytes_in ns.name (evicting ns need exclude now c).store =
        (commit_candidates-freed ns.name (is_pinned ns.name now (list_pins c.store))
          (choose ns.name need 0 (lru_candidates ns.name exclude now c.store)) 0
          (plan_store ns need "quota_on_publish" exclude now c)
          (plan_store-IsKeyed ns need "quota_on_publish" exclude now c v)
          (planned-Sized ns exclude need now c.store v) small).0 in
      omega arith

  evict_for-freed :
      (r : Option EvictionDecision)
      → (evict_for ns exclude used need now c).0 ≡ ok r
      → lt64 (evicting ns need exclude now c).freed need ≡ false
  unfolding evict_for plan_eviction_locked commit_eviction_locked new_decision append_audit
      save_decision list_pins
  evict_for-freed r h = elim (Bool-cases (lt64 (evicting ns need exclude now c).freed need)) [
    | inl y ↦ absurd (cc (rw y at h))
    | inr n ↦ n
  ]

  pub evict_for-entries :
      (evict_for ns exclude used need now c).1.store.entries
      ≡ (evicting ns need exclude now c).store.entries
  unfolding evict_for plan_eviction_locked commit_eviction_locked new_decision append_audit
      save_decision list_pins
  evict_for-entries = elim (Bool-cases (lt64 (evicting ns need exclude now c).freed need)) [
    | inl y ↦ rw y refl
    | inr n ↦ rw n refl
  ]

  -- An eviction that passes has freed what was needed.
  evict_for-frees :
      (r : Option EvictionDecision)
      → bytes_in ns.name c.store < two63
      → need < two63
      → (evict_for ns exclude used need now c).0 ≡ ok r
      → need + bytes_in ns.name (evict_for ns exclude used need now c).1.store
        ≤ bytes_in ns.name c.store
  evict_for-frees r b n h =
      let sums = evicting-freed (omega arith) in
      let passed = lt64_nonneg (evicting ns need exclude now c).freed need (omega arith) n in
      let f = evict_for-freed r h in
      let same : bytes_in ns.name (evict_for ns exclude used need now c).1.store
          ≡ bytes_in ns.name (evicting ns need exclude now c).store =
        ap (λ (es : Map String Entry). size_sum ns.name (values es)) evict_for-entries in
      rw same (ground arith)

  -- Under every key it leaves what was there, or it has removed an entry that may go.
  evict_for-spares :
      (k : String)
      → (found_at k (evict_for ns exclude used need now c).1.store ≡ found_at k c.store)
        ⊎ ((e : Entry) × (found_at k c.store ≡ ok e) × MayGo ns.name exclude now c.store e)
  unfolding plan_eviction_locked append_audit save_decision get_entry
  evict_for-spares k =
      let pinned = is_pinned ns.name now (list_pins c.store) in
      let cands = choose ns.name need 0 (lru_candidates ns.name exclude now c.store) in
      let same : found_at k (evict_for ns exclude used need now c).1.store
          ≡ found_at k (evicting ns need exclude now c).store =
        ap (λ (es : Map String Entry). or_fail (get k es) entry_not_found) evict_for-entries in
      elim (commit_candidates-Left ns.name k pinned cands 0
        (plan_store ns need "quota_on_publish" exclude now c)) [
          | spared e ↦ inl (same ∙ e)
          | evicted cand e i q o u p g ↦
              let (x, may, eq) = planned-MayGo ns exclude need now c.store v cand i in
              let there : found_at (entry_map_key ns.name cand.key) c.store ≡ ok e = rw q o in
              inr (e, o, rw (planned_entry ns exclude need now c.store v cand e x may eq there) may)
        ]

module _ (ns : Namespace) (exclude : String) (old_size new_size : ℕ) (now : Time) (c : Cache)
    (pos : 0 < ns.max_bytes) (small : ns.max_bytes < two63)
    (o : old_size ≤ bytes_in ns.name c.store)
    (b : bytes_in ns.name c.store + new_size < two63) where
  abbrev projected : ℕ
  projected = bytes_in ns.name c.store - old_size + new_size

  -- The tests on patterns are tests on the numbers.
  enforce_quota_exact : enforce_quota ns exclude old_size new_size now c ≡ (
      if leb projected ns.max_bytes
      then (ok none, c)
      else evict_for ns exclude (bytes_in ns.name c.store) (projected - ns.max_bytes) now c)
  unfolding enforce_quota
  enforce_quota_exact =
      let used = bytes_in ns.name c.store in
      let u = namespace_used_lem ns.name c.store (omega arith) in
      let s = sub64_exact used old_size o (omega arith) in
      let a = add64_exact (used - old_size) new_size (omega arith) in
      let t = le64_nonneg ns.max_bytes 0 small (omega arith) in
      let q = le64_nonneg projected ns.max_bytes (omega arith) small in
      let limited : leb ns.max_bytes 0 ≡ false = ground arith in
      elim (Bool-cases (leb projected ns.max_bytes)) [
        | inl y ↦ rw (u, s, a, t, limited, q, y) refl
        | inr n ↦
            let w = sub64_exact projected ns.max_bytes (ground arith) (omega arith) in
            rw (u, s, a, t, limited, q, n, w) refl
      ]

-- enforceQuotaLocked, when it passes under a limit, leaves room: what the namespace then holds, with
-- the new entry in the place of the old one, is within the limit. The sizes are below 2 ^ 63, and the
-- old entry is part of the namespace.
pub enforce_quota-fits :
    (ns : Namespace) (exclude : String) (old_size new_size : ℕ) (now : Time) (c : Cache)
    (r : Option EvictionDecision)
    → IsKeyed c.store
    → 0 < ns.max_bytes
    → ns.max_bytes < two63
    → old_size ≤ bytes_in ns.name c.store
    → bytes_in ns.name c.store + new_size < two63
    → (enforce_quota ns exclude old_size new_size now c).0 ≡ ok r
    → bytes_in ns.name (enforce_quota ns exclude old_size new_size now c).1.store + new_size
      ≤ ns.max_bytes + old_size
enforce_quota-fits ns exclude old_size new_size now c r v pos small o b h =
    let used = bytes_in ns.name c.store in
    let e = enforce_quota_exact ns exclude old_size new_size now c pos small o b in
    elim (Bool-cases (leb (used - old_size + new_size) ns.max_bytes)) [
      | inl y ↦ rw (e, y) (ground arith)
      | inr n ↦
          let need = used - old_size + new_size - ns.max_bytes in
          let freed =
            evict_for-frees ns exclude used need now c v r (omega arith) (omega arith)
              (rw (e, n) at h) in
          rw (e, n) (ground arith)
    ]

-- Whether it passes or refuses, enforceQuotaLocked leaves every entry as it was, except that it may
-- delete entries of the namespace that are not the excluded one and that no active lease protects. It
-- may do so where it refuses too.
pub enforce_quota-spares :
    (ns : Namespace) (exclude : String) (old_size new_size : ℕ) (now : Time) (c : Cache)
    (k : String)
    → IsKeyed c.store
    → (found_at k (enforce_quota ns exclude old_size new_size now c).1.store ≡ found_at k c.store)
      ⊎ ((e : Entry) × (found_at k c.store ≡ ok e) × MayGo ns.name exclude now c.store e)
unfolding enforce_quota
enforce_quota-spares ns exclude old_size new_size now c k v =
    let used = namespace_used ns.name c.store in
    let projected = add64 (sub64 used old_size) new_size in
    elim (Bool-cases (le64 ns.max_bytes 0)) [
      | inl y ↦ rw y (inl refl)
      | inr n ↦ elim (Bool-cases (le64 projected ns.max_bytes)) [
        | inl y ↦ rw (n, y) (inl refl)
        | inr q ↦
            rw (n, q) (evict_for-spares ns exclude used (sub64 projected ns.max_bytes) now c v k)
      ]
    ]
