-- ===== src/Cache/Promotions/Writes.antt =====
-- What the second phase of a promotion's commit writes: the target's key, and nothing else.
use go_build_cache.Prelude.{
  String, ◌≡◌, ◌≢◌, refl, true, false, str_eq, eq_iff, Bool-cases, Option-cases, inl, inr, ◌⊎◌,
}
use go_build_cache.Prelude.Exec.{Result, ok, err, Done}
use go_build_cache.Prelude.Maps.{get, get-put, string_eq}
use go_build_cache.Digest.{equal}
use go_build_cache.Model.{
  Time, Entry, Promotion, target_conflict, TxnPhase, txn_committing, txn_eviction, txn_entry,
}
use go_build_cache.Errors.{Error, promotion_stale}
use go_build_cache.Store.{MemoryStore, entry_map_key}
use go_build_cache.Store.Entries.{get_entry}
use go_build_cache.Store.Entries.Swap.{stored, put_entry_outcome}
use go_build_cache.Store.Promotions.{save_promotion_txn}
use go_build_cache.Cache.{Cache}
use go_build_cache.Cache.Eviction.Deletions.{found_at}
use go_build_cache.Cache.Promotions.Validate.{validate_promotion}
use go_build_cache.Cache.Promotions.Phases.{save_phase}
use go_build_cache.Cache.Promotions.Apply.{
  target_entry, target_cas, origin_present, promotion_entry_present, put_target, write_phase,
  detail_of,
}
use go_build_cache.Cache.Promotions.Failing.{fail_promotion-entries, fail_promotion-err}

-- What the target's key holds after the second phase: the promoted entry, or one that a promotion of
-- the same source and request has written before.
pub data Published (p : Promotion) (now : Time) (old new : Result Error Entry) : Type 0 where
  written : new ≡ ok (target_entry p now) → Published p now old new
  already :
      (e : Entry)
      → old ≡ ok e
      → equal e.digest p.source_digest ≡ true
      → origin_present p e.promoted_from ≡ true
      → new ≡ old
      → Published p now old new

abbrev pub target_key_of : Promotion → String
target_key_of p = entry_map_key p.target_namespace p.target_key

-- Whether the entry is there already.
pub promotion_entry_present_lem :
    (p : Promotion) (m : MemoryStore)
    → (promotion_entry_present p m ≡ ok false)
      ⊎ ((e : Entry) × (get_entry p.target_namespace p.target_key m ≡ ok e)
          × (equal e.digest p.source_digest ≡ true)
          × (origin_present p e.promoted_from ≡ true)
          × (promotion_entry_present p m ≡ ok true))
unfolding promotion_entry_present get_entry
promotion_entry_present_lem p m = elim (Option-cases (get (target_key_of p) m.entries)) [
  | inl g ↦ inl (rw g refl)
  | inr (e, g) ↦ elim (Bool-cases (equal e.digest p.source_digest)) [
    | inr n ↦ inl (rw (g, n) refl)
    | inl y ↦ elim (Bool-cases (origin_present p e.promoted_from)) [
      | inr n ↦ inl (rw (g, y, n) refl)
      | inl z ↦ inr (e, rw g refl, y, z, rw (g, y, z) refl)
    ]
  ]
]

pub found_at-stored :
    (k : String) (e : Entry) (m : MemoryStore)
    → entry_map_key e.namespace e.key ≢ k
    → found_at k (stored e m) ≡ found_at k m
found_at-stored k e m ne =
    rw (get-put (entry_map_key e.namespace e.key) k e m.entries)
      (elim (Bool-cases (str_eq (entry_map_key e.namespace e.key) k)) [
        | inl y ↦ absurd (ne ((eq_iff _ k).0 y))
        | inr n ↦ rw n refl
      ])

-- The write of the target's key, and what happens where the condition does not hold.
module _ (format_time : Time → String) (p : Promotion) (now : Time) (c : Cache) where
  abbrev with_target : Cache
  with_target = record c { store = stored (target_entry p now) c.store }

  pub put_target-there : put_target format_time true p now c ≡ (ok tt, c)
  unfolding put_target
  put_target-there = refl

  put_target_lem :
      (put_target format_time false p now c ≡ (ok tt, with_target))
      ⊎ (((put_target format_time false p now c).0 ≡ err (promotion_stale p.id target_conflict))
          × ((k : String)
              → found_at k (put_target format_time false p now c).1.store ≡ found_at k c.store))
  unfolding put_target
  put_target_lem = elim (put_entry_outcome (target_entry p now) (target_cas p) c.store) [
    | inl e ↦ inl (rw e refl)
    | inr e ↦
        let detail = detail_of (validate_promotion format_time p c.store) in
        inr (
          rw e (fail_promotion-err Done p target_conflict detail now c),
          λ k. rw e (fail_promotion-entries Done k p target_conflict detail now c),
        )
  ]

  -- Where the second phase fails, no entry has changed.
  write_eviction-err :
      (x : Error) (k : String)
      → (write_phase format_time txn_eviction p now c).0 ≡ err x
      → found_at k (write_phase format_time txn_eviction p now c).1.store ≡ found_at k c.store
  unfolding write_phase save_phase
  write_eviction-err x k h = elim (promotion_entry_present_lem p c.store) [
    | inr (e, g, y, z, there) ↦ absurd (cc (rw (there, put_target-there) at h))
    | inl fresh ↦ elim put_target_lem [
      | inl w ↦ absurd (cc (rw (fresh, w) at h))
      | inr (w, same) ↦ rw (fresh, w) (same k)
    ]
  ]

  -- Where it succeeds, the target's key holds the promotion's entry.
  pub write_eviction-Published :
      (write_phase format_time txn_eviction p now c).0 ≡ ok tt
      → Published p now (get_entry p.target_namespace p.target_key c.store) (
          get_entry p.target_namespace p.target_key
            (write_phase format_time txn_eviction p now c).1.store)
  unfolding write_phase save_phase save_promotion_txn target_entry get_entry
  write_eviction-Published h = elim (promotion_entry_present_lem p c.store) [
    | inr (e, g, y, z, there) ↦ rw (there, put_target-there) (already e g y z refl)
    | inl fresh ↦ elim put_target_lem [
      | inl w ↦
          rw
            (
              fresh,
              w,
              get-put (target_key_of p) (target_key_of p) (target_entry p now) c.store.entries,
              (eq_iff (target_key_of p) (target_key_of p)).1 refl,
            )
            (written refl)
      | inr (w, same) ↦ absurd (cc (rw (fresh, w) at h))
    ]
  ]

  -- Every other key keeps what it holds.
  write_eviction-other :
      (k : String)
      → target_key_of p ≢ k
      → found_at k (write_phase format_time txn_eviction p now c).1.store ≡ found_at k c.store
  unfolding write_phase save_phase save_promotion_txn target_entry
  write_eviction-other k ne = elim (promotion_entry_present_lem p c.store) [
    | inr (e, g, y, z, there) ↦ rw (there, put_target-there) refl
    | inl fresh ↦ elim put_target_lem [
      | inl w ↦ rw (fresh, w) (found_at-stored k (target_entry p now) c.store ne)
      | inr (w, same) ↦ rw (fresh, w) (same k)
    ]
  ]

module _ (format_time : Time → String) (p : Promotion) (now : Time) where
  pub write_phase-err :
      (phase : TxnPhase) (c : Cache) (x : Error) (k : String)
      → (write_phase format_time phase p now c).0 ≡ err x
      → found_at k (write_phase format_time phase p now c).1.store ≡ found_at k c.store
  unfolding write_phase
  write_phase-err txn_committing c x k h = absurd (cc h)
  write_phase-err txn_eviction c x k h = write_eviction-err format_time p now c x k h
  write_phase-err txn_entry c x k h = absurd (cc h)

  pub write_phase-other :
      (phase : TxnPhase) (c : Cache) (k : String)
      → target_key_of p ≢ k
      → found_at k (write_phase format_time phase p now c).1.store ≡ found_at k c.store
  unfolding write_phase
  write_phase-other txn_committing c k ne = refl
  write_phase-other txn_eviction c k ne = write_eviction-other format_time p now c k ne
  write_phase-other txn_entry c k ne = refl
