-- ===== src/Cache/Promotions/Resumption.antt =====
-- Where a commit of a promotion goes on from its second or third phase: it succeeds, and writes once.
use go_build_cache.Prelude.{String, ◌≡◌, ◌≢◌, refl, ◌∙◌, true, false, Option, eq_iff, inl, inr, ◌⊎◌}
use go_build_cache.Prelude.Exec.{Result, ok}
use go_build_cache.Prelude.Maps.{get-put, string_eq}
use go_build_cache.Digest.{Digest, equal}
use go_build_cache.Model.{Time, Entry, Promotion, txn_eviction, txn_entry, EvictionDecision}
use go_build_cache.Errors.{Error}
use go_build_cache.Store.{MemoryStore}
use go_build_cache.Store.Entries.{get_entry}
use go_build_cache.Store.Entries.Swap.{Matches, stored, put_entry-stored}
use go_build_cache.Store.Promotions.{save_promotion_txn}
use go_build_cache.Cache.{Cache}
use go_build_cache.Cache.Eviction.Deletions.{found_at}
use go_build_cache.Cache.Promotions.Phases.{refresh, evict_phase, save_phase}
use go_build_cache.Cache.Promotions.Apply.{
  target_entry, target_cas, origin_present, promotion_entry_present, put_target, write_phase,
  finish_promotion,
}
use go_build_cache.Cache.Promotions.Effects.{
  refresh-ok, finish_promotion-entries, finish_promotion-Recorded,
}
use go_build_cache.Cache.Promotions.Writes.{
  promotion_entry_present_lem, target_key_of, put_target-there, found_at-stored,
}
use go_build_cache.Cache.Promotions.Commitment.{apply_from}

equal_refl : (d : Digest) → equal d d ≡ true
unfolding equal
equal_refl d = rw ((eq_iff d.algo d.algo).1 refl, (eq_iff d.hex d.hex).1 refl) refl

-- The entry that a promotion writes is one that it finds again.
origin_present-target :
    (p : Promotion) (now : Time) → origin_present p (target_entry p now).promoted_from ≡ true
unfolding target_entry
origin_present-target p now =
    rw
      (
        (eq_iff p.source_namespace p.source_namespace).1 refl,
        (eq_iff p.source_key p.source_key).1 refl,
        (eq_iff p.request_id p.request_id).1 refl,
      )
      refl

-- The target's key holds an entry of the promotion.
abbrev pub IsThere : Promotion → Result Error Entry → Type 0
IsThere p r =
    (e : Entry) × (r ≡ ok e)
    × (equal e.digest p.source_digest ≡ true)
    × (origin_present p e.promoted_from ≡ true)

-- The second phase can go on: the entry is there, or the version condition of its write holds.
abbrev pub Ready : Promotion → MemoryStore → Type 0
Ready p m =
    IsThere p (get_entry p.target_namespace p.target_key m)
    ⊎ Matches (target_cas p) (get_entry p.target_namespace p.target_key m)

-- What the second phase leaves in the entries.
pub record WentOn (p : Promotion) (old new : MemoryStore) : Type 0 where
  pub others : (k : String) → target_key_of p ≢ k → found_at k new ≡ found_at k old
  pub target : IsThere p (found_at (target_key_of p) new)
  pub once :
      IsThere p (found_at (target_key_of p) old)
      → found_at (target_key_of p) new ≡ found_at (target_key_of p) old

module _ (format_time : Time → String) (p : Promotion) (now : Time) (c : Cache) where
  abbrev rewritten : MemoryStore
  rewritten = stored (target_entry p now) c.store

  pub found_at-rewritten : found_at (target_key_of p) rewritten ≡ ok (target_entry p now)
  unfolding target_entry
  found_at-rewritten =
      rw
        (
          get-put (target_key_of p) (target_key_of p) (target_entry p now) c.store.entries,
          (eq_iff (target_key_of p) (target_key_of p)).1 refl,
        )
        refl

  pub IsThere-target : IsThere p (ok (target_entry p now))
  unfolding target_entry
  IsThere-target =
      (target_entry p now, refl, equal_refl p.source_digest, origin_present-target p now)

  pub present_true :
      IsThere p (get_entry p.target_namespace p.target_key c.store)
      → promotion_entry_present p c.store ≡ ok true
  unfolding promotion_entry_present
  present_true (e, g, d, o) = rw (g, d, o) refl

  IsThere-WentOn :
      IsThere p (get_entry p.target_namespace p.target_key c.store)
      → ((write_phase format_time txn_eviction p now c).0 ≡ ok tt)
        × WentOn p c.store (write_phase format_time txn_eviction p now c).1.store
  unfolding write_phase save_phase save_promotion_txn get_entry
  IsThere-WentOn t =
      rw (present_true t, put_target-there format_time p now c)
        (refl, record { others = λ k ne. refl; target = t; once = λ h. refl })

  put_target-ready :
      Matches (target_cas p) (get_entry p.target_namespace p.target_key c.store)
      → put_target format_time false p now c ≡ (ok tt, record c { store = rewritten })
  unfolding put_target target_entry
  put_target-ready m = rw (put_entry-stored (target_entry p now) (target_cas p) c.store m) refl

  Matches-WentOn :
      Matches (target_cas p) (get_entry p.target_namespace p.target_key c.store)
      → promotion_entry_present p c.store ≡ ok false
      → ((write_phase format_time txn_eviction p now c).0 ≡ ok tt)
        × WentOn p c.store (write_phase format_time txn_eviction p now c).1.store
  unfolding write_phase save_phase save_promotion_txn get_entry
  Matches-WentOn m fresh =
      rw (fresh, put_target-ready m)
        (
          refl,
          record {
            others =
                λ k ne. found_at-stored k (target_entry p now) c.store (unfold target_entry in ne);
            target = rw found_at-rewritten IsThere-target;
            once = λ h. absurd (cc (present_true h, fresh));
          },
        )

  -- The second phase goes on to its end, writes the target once, and touches nothing else.
  write_eviction-WentOn :
      Ready p c.store
      → ((write_phase format_time txn_eviction p now c).0 ≡ ok tt)
        × WentOn p c.store (write_phase format_time txn_eviction p now c).1.store
  write_eviction-WentOn (inl t) = IsThere-WentOn t
  write_eviction-WentOn (inr m) = elim (promotion_entry_present_lem p c.store) [
    | inl fresh ↦ Matches-WentOn m fresh
    | inr (e, g, d, o, there) ↦ IsThere-WentOn (e, g, d, o)
  ]

module _ (format_time : Time → String) (p : Promotion) (now : Time) where
  WentOn-evicting :
      (fresh : Promotion) (w : Option EvictionDecision) (a b : MemoryStore)
      → fresh ≡ record p { eviction = w }
      → WentOn fresh a b
      → WentOn p a b
  WentOn-evicting fresh w a b e h = record {
    others = rw e at (h.others);
    target = rw e at (h.target);
    once = rw e at (h.once);
  }

  pub Ready-evicting :
      (fresh : Promotion) (w : Option EvictionDecision) (m : MemoryStore)
      → fresh ≡ record p { eviction = w }
      → Ready p m
      → Ready fresh m
  unfolding target_cas
  Ready-evicting fresh w m e h = rw e h

  WentOn-finish :
      (ev : Promotion) (m : MemoryStore) (c : Cache)
      → WentOn p m c.store
      → WentOn p m (finish_promotion ev now c).1.store
  WentOn-finish ev m c h = record {
    others = λ k ne. finish_promotion-entries k ev now c ∙ h.others k ne;
    target = rw (finish_promotion-entries (target_key_of p) ev now c) (h.target);
    once = λ t. finish_promotion-entries (target_key_of p) ev now c ∙ h.once t;
  }

  -- From the second phase on, a commit that can go on succeeds.
  pub apply_from_eviction :
      (c : Cache) (fresh : Promotion)
      → refresh p c.store ≡ ok fresh
      → Ready p c.store
      → (q : Promotion) × ((apply_from format_time p now txn_eviction c).0 ≡ ok q)
        × WentOn p c.store (apply_from format_time p now txn_eviction c).1.store
  unfolding evict_phase
  apply_from_eviction c fresh e r =
      let (w, a) = refresh-ok p fresh c.store e in
      let (res, on) =
        write_eviction-WentOn format_time fresh now c (Ready-evicting fresh w c.store a r) in
      let c2 = (write_phase format_time txn_eviction fresh now c).1 in
      let (q, done, recorded) = finish_promotion-Recorded fresh now c2 in
      (
        q,
        rw (e, res) done,
        rw (e, res)
            (WentOn-finish fresh c.store c2 (WentOn-evicting fresh w c.store c2.store a on)),
      )

  -- After the second phase only the record is left to be made.
  pub apply_from_entry :
      (c : Cache) (fresh : Promotion)
      → refresh p c.store ≡ ok fresh
      → IsThere p (found_at (target_key_of p) c.store)
      → (q : Promotion) × ((apply_from format_time p now txn_entry c).0 ≡ ok q)
        × WentOn p c.store (apply_from format_time p now txn_entry c).1.store
  unfolding evict_phase write_phase
  apply_from_entry c fresh e t =
      let (q, done, recorded) = finish_promotion-Recorded fresh now c in
      (
        q,
        rw e done,
        rw e (
            WentOn-finish fresh c.store c
              (record { others = λ k ne. refl; target = t; once = λ h. refl })),
      )
