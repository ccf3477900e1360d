-- ===== src/Cache/Promotions/Recovery.antt =====
-- A commit that was interrupted after it had made room, and what a restart makes of it.
use go_build_cache.Prelude.{
  String, ◌≡◌, refl, sym, subst, ◌∙◌, eq_iff, Option, none, some, inl, inr, ◌⊎◌,
}
use go_build_cache.Prelude.Exec.{Result, ok, err, Done}
use go_build_cache.Prelude.Maps.{get-put, get-delete, string_eq}
use go_build_cache.Model.{
  Time, Promotion, promotion_prepared, promotion_committed, PromotionTxn, EvictionDecision,
  TxnPhase, txn_eviction, txn_entry, target_conflict,
}
use go_build_cache.Errors.{Error, promotion_stale}
use go_build_cache.Store.{MemoryStore}
use go_build_cache.Store.Decisions.{get_decision}
use go_build_cache.Store.Entries.{get_entry}
use go_build_cache.Store.Entries.Swap.{stored}
use go_build_cache.Store.Promotions.{
  save_promotion, save_promotion_request, get_promotion, get_promotion_txn, save_promotion_txn,
  delete_promotion_txn,
}
use go_build_cache.Cache.{Cache}
use go_build_cache.Cache.Eviction.Deletions.{found_at}
use go_build_cache.Cache.Promotions.Phases.{refresh, refreshed}
use go_build_cache.Cache.Promotions.Apply.{target_entry}
use go_build_cache.Cache.Promotions.Commit.{resume_txn}
use go_build_cache.Cache.Promotions.Writes.{target_key_of}
use go_build_cache.Cache.Promotions.Resumption.{
  IsThere, Ready, Ready-evicting, found_at-rewritten, IsThere-target, apply_from_eviction,
  apply_from_entry,
}
use go_build_cache.Cache.Promotions.Effects.{refresh-ok}
use go_build_cache.Cache.Promotions.Conflict.{
  Conflicted, Ready-cases, Ready-planned, resume_conflict,
}
use go_build_cache.Cache.Promotions.Interruptions.{
  Interrupted, Recovered, entry_recorded, entry_written, request_saved, result_saved,
  resume_prepared, resume_status-committed, resuming, room_made,
}

refreshed-decisions :
    (o : Option EvictionDecision) (p : Promotion) (m n : MemoryStore)
    → m.decisions ≡ n.decisions
    → refreshed o p m ≡ refreshed o p n
unfolding get_decision
refreshed-decisions none p m n e = refl
refreshed-decisions (some d) p m n e = rw e refl

Ready-entries : (p : Promotion) (m n : MemoryStore) → m.entries ≡ n.entries → Ready p n → Ready p m
unfolding get_entry
Ready-entries p m n e h = rw e h

-- What a restart comes to, over a store `b` in which room had been made: it has finished the commit, or
-- the target was taken, and the promotion has failed.
abbrev pub Settled :
    Promotion → MemoryStore → MemoryStore → Result Error Done → MemoryStore → Type 0
Settled p b old r new =
    ((r ≡ ok tt) × Recovered p old new)
    ⊎ ((¬ Ready p b) × (r ≡ err (promotion_stale p.id target_conflict)) × Conflicted p old new)

module _ (format_time : Time → String) (p fresh : Promotion) (before now : Time) (b : MemoryStore)
    (txn : PromotionTxn) (named : txn.promotion_id ≡ p.id) (known : get_promotion p.id b ≡ ok p)
    (prepared : p.status ≡ promotion_prepared) (planned : refresh p b ≡ ok fresh) where
  -- A store that differs from `b` in entries and in the log.
  record Resumable (phase : TxnPhase) (m : MemoryStore) : Type 0 where
    same_promotions : m.promotions ≡ b.promotions
    same_decisions : m.decisions ≡ b.decisions
    log : PromotionTxn
    logged : get_promotion_txn p.id m ≡ ok log
    at : log.phase ≡ phase

  known_in : (m : MemoryStore) → m.promotions ≡ b.promotions → get_promotion p.id m ≡ ok p
  unfolding get_promotion
  known_in m e = rw e known

  planned_in : (m : MemoryStore) → m.decisions ≡ b.decisions → refresh p m ≡ ok fresh
  unfolding refresh
  planned_in m e = refreshed-decisions p.eviction p m b e ∙ planned

  resume_evicted :
      (c : Cache)
      → Resumable txn_eviction c.store
      → Ready p c.store
      → ((resume_txn format_time now txn c).0 ≡ ok tt)
        × Recovered p c.store (resume_txn format_time now txn c).1.store
  resume_evicted c r ready =
      let (q, done, on) =
        apply_from_eviction format_time p now c fresh (planned_in c.store r.same_decisions) ready in
      resume_prepared format_time p now c txn r.log q named (known_in c.store r.same_promotions)
        prepared r.logged (rw (r.at) done) (rw (r.at) on)

  resume_written :
      (c : Cache)
      → Resumable txn_entry c.store
      → IsThere p (found_at (target_key_of p) c.store)
      → ((resume_txn format_time now txn c).0 ≡ ok tt)
        × Recovered p c.store (resume_txn format_time now txn c).1.store
  resume_written c r there =
      let (q, done, on) =
        apply_from_entry format_time p now c fresh (planned_in c.store r.same_decisions) there in
      resume_prepared format_time p now c txn r.log q named (known_in c.store r.same_promotions)
        prepared r.logged (rw (r.at) done) (rw (r.at) on)

  log_deleted :
      (c : Cache) (q : Promotion)
      → q.id ≡ p.id
      → get_promotion p.id c.store ≡ ok q
      → q.status ≡ promotion_committed
      → IsThere p (found_at (target_key_of p) c.store)
      → Recovered p c.store (delete_promotion_txn q.id c.store)
  unfolding delete_promotion_txn get_promotion get_promotion_txn
  log_deleted c q i g s there = record {
    entries = record { others = λ k ne. refl; target = there; once = λ h. refl };
    no_log = rw (get-delete q.id p.id c.store.promo_txns, (eq_iff q.id p.id).1 i) refl;
    result = q;
    kept = g;
    committed = s;
  }

  -- The result was saved before the crash: the log goes, and nothing else happens.
  resume_committed :
      (c : Cache) (q : Promotion)
      → get_promotion p.id c.store ≡ ok q
      → q.id ≡ p.id
      → q.status ≡ promotion_committed
      → IsThere p (found_at (target_key_of p) c.store)
      → ((resume_txn format_time now txn c).0 ≡ ok tt)
        × Recovered p c.store (resume_txn format_time now txn c).1.store
  resume_committed c q g i s there =
      let found : get_promotion q.id c.store ≡ ok q =
        subst (λ (z : String). get_promotion z c.store ≡ ok q) (sym i) g in
      rw
        (resuming format_time q now c txn (named ∙ sym i) found
          ∙ resume_status-committed format_time q now c q.status s)
        (refl, log_deleted c q i g s there)

  stored-IsThere :
      (c : Cache)
      → c.store.entries ≡ (stored (target_entry p before) b).entries
      → IsThere p (found_at (target_key_of p) c.store)
  stored-IsThere c e =
      let based : Cache = record c { store = b } in
      rw (e, found_at-rewritten format_time p before based)
        (IsThere-target format_time p before based)

  -- The second phase of a restart, whether it can go on or not.
  resume_room_made :
      (c : Cache)
      → Resumable txn_eviction c.store
      → c.store.entries ≡ b.entries
      → Settled p b c.store
          (resume_txn format_time now txn c).0
          (resume_txn format_time now txn c).1.store
  resume_room_made c r same =
      let here = planned_in c.store r.same_decisions in
      let (w, a) = refresh-ok p fresh c.store here in
      elim (Ready-cases fresh now c.store) [
        | inl ready ↦ inl (resume_evicted c r (Ready-planned p fresh w c.store a ready))
        | inr (n, absent, refused) ↦
            let conflicted =
              resume_conflict format_time p now c txn r.log fresh named
                (known_in c.store r.same_promotions) prepared r.logged r.at here absent refused in
            inr (
              λ ready. n (
                  Ready-evicting format_time p now fresh w c.store a
                    (Ready-entries p c.store b same ready)),
              conflicted.0,
              conflicted.1,
            )
      ]

  -- A restart settles what a crash has interrupted, for a prepared promotion whose eviction decision, if
  -- it has one, is stored. Whichever of the writes that follow the eviction the crash came after,
  -- resuming the promotion succeeds: the target's key holds the promotion's entry, which is not written
  -- again where it was there, every other entry is as the crash left it, the promotion is recorded as
  -- committed, and its log is gone. Only where the target, once room had been made, neither held the
  -- promotion's entry nor met the version condition of its write, resuming may fail with a target
  -- conflict instead: then every entry is as the crash left it, the promotion is recorded as failed, and
  -- its log is gone too.
  pub resume_txn-Recovered :
      (c : Cache)
      → Interrupted p before b c.store
      → Settled p b c.store
          (resume_txn format_time now txn c).0
          (resume_txn format_time now txn c).1.store
  unfolding save_promotion_txn save_promotion save_promotion_request get_promotion_txn get_promotion
  resume_txn-Recovered c (room_made e) =
      resume_room_made c
        (record {
          same_promotions = rw e refl;
          same_decisions = rw e refl;
          log = record { promotion_id = p.id; phase = txn_eviction; updated_at = before };
          logged = rw (e, get-put p.id p.id _ b.promo_txns, (eq_iff p.id p.id).1 refl) refl;
          at = refl;
        })
        (rw e refl)
  resume_txn-Recovered c (entry_written e) = inl (
      resume_evicted c
        (record {
          same_promotions = rw e refl;
          same_decisions = rw e refl;
          log = record { promotion_id = p.id; phase = txn_eviction; updated_at = before };
          logged = rw (e, get-put p.id p.id _ b.promo_txns, (eq_iff p.id p.id).1 refl) refl;
          at = refl;
        })
        (inl (unfold get_entry in stored-IsThere c (rw e refl))))
  resume_txn-Recovered c (entry_recorded e) = inl (
      resume_written c
        (record {
          same_promotions = rw e refl;
          same_decisions = rw e refl;
          log = record { promotion_id = p.id; phase = txn_entry; updated_at = before };
          logged = rw (e, get-put p.id p.id _ _, (eq_iff p.id p.id).1 refl) refl;
          at = refl;
        })
        (stored-IsThere c (rw e refl)))
  resume_txn-Recovered c (result_saved q i s e) = inl (
      resume_committed c q (rw (e, get-put q.id p.id q b.promotions, (eq_iff q.id p.id).1 i) refl) i
        s (stored-IsThere c (rw e refl)))
  resume_txn-Recovered c (request_saved q rec i s e) = inl (
      resume_committed c q (rw (e, get-put q.id p.id q b.promotions, (eq_iff q.id p.id).1 i) refl) i
        s (stored-IsThere c (rw e refl)))
