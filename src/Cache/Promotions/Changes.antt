-- ===== src/Cache/Promotions/Changes.antt =====
-- What a promotion may change under a key, and what it leaves at its target.
use go_build_cache.Prelude.{
  String, ◌≡◌, ◌≢◌, refl, sym, ap, ◌∙◌, true, Option, none, some, inl, inr, ◌⊎◌,
}
use go_build_cache.Prelude.Exec.{Result, ok, err, Result-cases}
use go_build_cache.Digest.{equal}
use go_build_cache.Model.{
  Time, Entry, Promotion, EvictionDecision, TxnPhase, txn_committing, txn_eviction, txn_entry,
}
use go_build_cache.Errors.{Error}
use go_build_cache.Store.{MemoryStore}
use go_build_cache.Store.Decisions.{get_decision}
use go_build_cache.Store.Pins.{list_pins}
use go_build_cache.Cache.Eviction.Plan.{is_pinned}
use go_build_cache.Cache.Eviction.Deletions.{Left}
use go_build_cache.Cache.Promotions.Phases.{refresh, refreshed, after_eviction}
use go_build_cache.Cache.Promotions.Apply.{target_entry, origin_present}
use go_build_cache.Cache.Promotions.Effects.{Evicted}

-- What becomes of an entry that is not the target: nothing, or the promotion's eviction deletes it, as
-- the store has the decision.
pub data Spared (p : Promotion) (now : Time) (m : MemoryStore) (k : String)
    (old new : Result Error Entry) : Type 0 where
  same : new ≡ old → Spared p now m k old new
  by_plan :
      (planned d : EvictionDecision)
      → p.eviction ≡ some planned
      → get_decision planned.id m ≡ ok d
      → Left d.namespace k (is_pinned d.namespace now (list_pins m)) d.candidates old new
      → Spared p now m k old new

abbrev eviction_of : Result Error Promotion → Option EvictionDecision
eviction_of (ok q) = q.eviction
eviction_of (err e) = none

stored_plan :
    (o : Option EvictionDecision) (p q : Promotion) (m : MemoryStore)
    → p.eviction ≡ o
    → refreshed o p m ≡ ok q
    → (q.eviction ≡ none)
      ⊎ ((planned d : EvictionDecision) × (p.eviction ≡ some planned)
          × (get_decision planned.id m ≡ ok d)
          × (q.eviction ≡ some d))
stored_plan none p q m e h = inl (sym (ap (λ (r : Result Error Promotion). eviction_of r) h) ∙ e)
stored_plan (some x) p q m e h = elim (Result-cases (get_decision x.id m)) [
  | inl (d, g) ↦
      inr (x, d, e, g, sym (ap (λ (r : Result Error Promotion). eviction_of r) (rw g at h)))
  | inr (z, g) ↦ absurd (cc (rw g at h))
]

pub Spared-Evicted :
    (p q : Promotion) (now : Time) (m : MemoryStore) (k : String) (old new : Result Error Entry)
    → refresh p m ≡ ok q
    → Evicted q.eviction now m k old new
    → Spared p now m k old new
unfolding refresh
Spared-Evicted p q now m k old new h e = elim (stored_plan p.eviction p q m refl h) [
  | inl n ↦ same (rw n at e)
  | inr (planned, d, a, b, n) ↦ by_plan planned d a b (rw n at e)
]

-- An entry that the promotion has written: the one that its record describes, or one of the same
-- source and request that was there before.
abbrev pub Promoted : Promotion → Time → Result Error Entry → Type 0
Promoted p now r =
    (r ≡ ok (target_entry p now))
    ⊎ ((e : Entry) × (r ≡ ok e)
        × (equal e.digest p.source_digest ≡ true)
        × (origin_present p e.promoted_from ≡ true))

pub not_entry : (phase : TxnPhase) → phase ≢ txn_entry → after_eviction phase ≡ txn_eviction
not_entry txn_committing ne = refl
not_entry txn_eviction ne = refl
not_entry txn_entry ne = absurd (ne refl)
