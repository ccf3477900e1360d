-- ===== src/Cache/Eviction/Planned.antt =====
-- The plan of the quota check: its candidates are entries that may go, with their sizes.
use go_build_cache.Prelude.{ℕ, String, ◌≡◌, refl, List, [], ◌∷◌, Bool-cases, inl, inr, In}
use go_build_cache.Prelude.Exec.{ok}
use go_build_cache.Prelude.Int64.{add64, le64}
use go_build_cache.Prelude.Maps.{string_eq}
use go_build_cache.Model.{Time, Entry, Namespace, EvictionCandidate}
use go_build_cache.Store.{MemoryStore}
use go_build_cache.Store.Decisions.{save_decision}
use go_build_cache.Store.Entries.{get_entry}
use go_build_cache.Store.Invariant.{IsKeyed, append_audit-IsKeyed, save_decision-IsKeyed}
use go_build_cache.Cache.{Cache}
use go_build_cache.Cache.Eviction.Plan.{snapshot, choose, lru_candidates, plan_eviction_locked}
use go_build_cache.Cache.Eviction.Chosen.{MayGo, lru_candidates-MayGo}
use go_build_cache.Cache.Eviction.Deletions.{Sized}

-- A candidate is the snapshot of an entry of the list.
choose-snapshot :
    (ns : String) (need sum : ℕ) (cand : EvictionCandidate) (es : List Entry)
    → In cand (choose ns need sum es)
    → (e : Entry) × In e es × (cand ≡ snapshot ns e)
unfolding choose
choose-snapshot ns need sum cand [] h = elim h [ ]
choose-snapshot ns need sum cand (e ∷ es) h = elim (Bool-cases (le64 need sum)) [
  | inl y ↦ elim (rw y at h) [ ]
  | inr n ↦ elim (rw n at h) [
    | inl q ↦ (e, inl refl, q)
    | inr i ↦
        let (x, j, q) = choose-snapshot ns need (add64 sum e.total_size) cand es i in (x, inr j, q)
  ]
]

module _ (ns : Namespace) (exclude : String) (need : ℕ) (now : Time) (m : MemoryStore)
    (v : IsKeyed m) where
  abbrev planned : List EvictionCandidate
  planned = choose ns.name need 0 (lru_candidates ns.name exclude now m)

  pub planned-MayGo :
      (cand : EvictionCandidate)
      → In cand planned
      → (e : Entry) × MayGo ns.name exclude now m e × (cand ≡ snapshot ns.name e)
  planned-MayGo cand i =
      let (e, j, q) =
        choose-snapshot ns.name need 0 cand (lru_candidates ns.name exclude now m) i in
      (e, lru_candidates-MayGo ns.name exclude now m e v j, q)

  pub planned_entry :
      (cand : EvictionCandidate) (e x : Entry)
      → MayGo ns.name exclude now m x
      → cand ≡ snapshot ns.name x
      → get_entry ns.name cand.key m ≡ ok e
      → e ≡ x
  unfolding snapshot
  planned_entry cand e x g q h = cc (h, g.there, q)

  pub planned-Sized : Sized ns.name planned m
  unfolding snapshot
  planned-Sized cand e i g r =
      let (x, may, q) = planned-MayGo cand i in
      let same = planned_entry cand e x may q g in (rw same may.inside, rw (same, q) refl)

-- The store after the plan has been written down.
abbrev pub plan_store : Namespace → ℕ → String → String → Time → Cache → MemoryStore
plan_store ns need reason exclude now c =
    (plan_eviction_locked ns need reason exclude now c).1.store

pub plan_store-IsKeyed :
    (ns : Namespace) (need : ℕ) (reason exclude : String) (now : Time) (c : Cache)
    → IsKeyed c.store
    → IsKeyed (plan_store ns need reason exclude now c)
unfolding plan_eviction_locked
plan_store-IsKeyed ns need reason exclude now c v =
    append_audit-IsKeyed (save_decision _ c.store) (save_decision-IsKeyed c.store v _) _
