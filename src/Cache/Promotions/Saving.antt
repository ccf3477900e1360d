-- ===== src/Cache/Promotions/Saving.antt =====
-- PreparePromotion: saving what was planned touches neither entries nor their content.
use go_build_cache.Prelude.{
  ◌≡◌, ◌≢◌, refl, ◌∙◌, not, ◌&&◌, Option, some, str_eq, eq_iff, inl, inr, Bool-cases,
}
use go_build_cache.Prelude.Exec.{ok}
use go_build_cache.Prelude.Int64.{add64, sub64, le64, lt64}
use go_build_cache.Prelude.Maps.{get-put, string_eq}
use go_build_cache.Model.{Time, Namespace, Promotion, EvictionDecision}
use go_build_cache.Store.{MemoryStore}
use go_build_cache.Store.Audit.{append_audit}
use go_build_cache.Store.Decisions.{save_decision}
use go_build_cache.Store.Promotions.{
  save_promotion, save_promotion_request, get_promotion, get_promotion_request,
}
use go_build_cache.Cache.{Cache}
use go_build_cache.Cache.Promotions.Requests.{request_of, record_promotion_request}
use go_build_cache.Cache.Promotions.Plan.{
  new_promotion_decision, plan_promotion_eviction, freeable_from,
}
use go_build_cache.Cache.Promotions.Prepare.{with_plan, with_room, save_prepared}

-- The stored objects that a promotion may not touch before it is committed.
pub record SameData (old new : MemoryStore) : Type 0 where
  pub entries : new.entries ≡ old.entries
  pub blobs : new.blobs ≡ old.blobs
  pub pins : new.pins ≡ old.pins
  pub sessions : new.sessions ≡ old.sessions
  pub namespaces : new.namespaces ≡ old.namespaces

pub SameData-refl : (m : MemoryStore) → SameData m m
SameData-refl m = record {
  entries = refl;
  blobs = refl;
  pins = refl;
  sessions = refl;
  namespaces = refl;
}

pub SameData-trans : (a b d : MemoryStore) → SameData a b → SameData b d → SameData a d
SameData-trans a b d x y = record {
  entries = y.entries ∙ x.entries;
  blobs = y.blobs ∙ x.blobs;
  pins = y.pins ∙ x.pins;
  sessions = y.sessions ∙ x.sessions;
  namespaces = y.namespaces ∙ x.namespaces;
}

-- What is on record about a promotion that has been saved.
pub record Saved (p : Promotion) (now : Time) (m : MemoryStore) : Type 0 where
  pub found : get_promotion p.id m ≡ ok p
  pub requested : p.request_id ≢ "" → get_promotion_request p.request_id m ≡ ok (request_of p now)

pub save_prepared_lem :
    (p : Promotion) (now : Time) (c : Cache)
    → ((save_prepared p now c).0 ≡ ok p)
      × SameData c.store (save_prepared p now c).1.store
      × Saved p now (save_prepared p now c).1.store
unfolding save_prepared save_promotion record_promotion_request save_promotion_request append_audit
    get_promotion get_promotion_request request_of
save_prepared_lem p now c =
    let saved : get_promotion p.id (save_promotion p c.store) ≡ ok p =
      rw (get-put p.id p.id p c.store.promotions, (eq_iff p.id p.id).1 refl) refl in
    elim (Bool-cases (str_eq p.request_id "")) [
      | inl y ↦ rw y (
        refl,
        record { entries = refl; blobs = refl; pins = refl; sessions = refl; namespaces = refl },
        record { found = saved; requested = λ ne. absurd (ne ((eq_iff p.request_id "").0 y)) },
      )
      | inr n ↦ rw n (
        refl,
        record { entries = refl; blobs = refl; pins = refl; sessions = refl; namespaces = refl },
        record {
          found = saved;
          requested = λ ne.
              rw
                (
                  get-put p.request_id p.request_id (request_of p now) c.store.promo_reqs,
                  (eq_iff p.request_id p.request_id).1 refl,
                )
                refl;
        },
      )
    ]

-- A plan adds the decision to the promotion, and saves it; it changes nothing else that is stored.
pub with_room_lem :
    (ns : Namespace) (p q : Promotion) (now : Time) (c : Cache)
    → SameData c.store (with_room ns p now c).1.store
      × ((with_room ns p now c).0 ≡ ok q
          → (w : Option EvictionDecision) × (q ≡ record p { eviction = w }))
unfolding with_room with_plan plan_promotion_eviction save_decision append_audit
with_room_lem ns p q now c =
    let projected = add64 (sub64 p.used_before p.target_existing_size) p.source_size in
    let need = sub64 projected ns.max_bytes in
    let d =
      new_promotion_decision ns need p.target_key p.source_chunks now (add64 c.evict_seq 1)
        c.store in
    elim (Bool-cases (not (le64 ns.max_bytes 0) && lt64 ns.max_bytes projected)) [
      | inr n ↦ rw n (SameData-refl c.store, λ h. (p.eviction, cc h))
      | inl y ↦ elim (Bool-cases (lt64 (freeable_from 0 d.candidates) need)) [
        | inl s ↦
            rw (y, s)
              (
                record {
                  entries = refl;
                  blobs = refl;
                  pins = refl;
                  sessions = refl;
                  namespaces = refl;
                },
                λ h. absurd (cc h),
              )
        | inr s ↦
            rw (y, s)
              (
                record {
                  entries = refl;
                  blobs = refl;
                  pins = refl;
                  sessions = refl;
                  namespaces = refl;
                },
                λ h. (some d, cc h),
              )
      ]
    ]
