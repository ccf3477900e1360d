-- ===== src/Cache/Promotions/Effects.antt =====
-- What each phase of a promotion's commit does to the entries.
use go_build_cache.Prelude.{
  String, ◌≡◌, refl, ap, false, Option, none, some, str_eq, eq_iff, Bool-cases, inl, inr,
}
use go_build_cache.Prelude.Exec.{Result, ok, err, Result-cases}
use go_build_cache.Prelude.Maps.{get-put, get-delete, string_eq}
use go_build_cache.Prelude.Int64.{add64}
use go_build_cache.Model.{
  Time, Entry, Promotion, EvictionDecision, EvictionStatus, eviction_proposed, eviction_committed,
  quota_short, promotion_committed, no_failure, TxnPhase, txn_committing, txn_eviction, txn_entry,
}
use go_build_cache.Errors.{Error, not_found}
use go_build_cache.Store.{MemoryStore}
use go_build_cache.Store.Audit.{append_audit}
use go_build_cache.Store.Decisions.{save_decision, get_decision}
use go_build_cache.Store.Pins.{list_pins}
use go_build_cache.Store.Promotions.{
  get_promotion, save_promotion, save_promotion_request, get_promotion_txn, save_promotion_txn,
  delete_promotion_txn,
}
use go_build_cache.Cache.{Cache}
use go_build_cache.Cache.Eviction.Plan.{is_pinned, namespace_used}
use go_build_cache.Cache.Eviction.Commit.{commit_eviction_locked}
use go_build_cache.Cache.Eviction.Deletions.{Left, spared, found_at, commit_candidates-Left}
use go_build_cache.Cache.Promotions.Requests.{record_promotion_request}
use go_build_cache.Cache.Promotions.Phases.{
  refresh, refreshed, check_room, evict_planned, evict_phase, save_phase, is_short, commit_proposed,
}
use go_build_cache.Cache.Promotions.Apply.{finish_promotion}
use go_build_cache.Cache.Promotions.Failing.{
  fail_promotion-entries, fail_promotion-err, record_promotion_request-entries,
  record_promotion_request-ok,
}

-- What an eviction leaves under a map key; without one everything stays.
abbrev pub Evicted :
    Option EvictionDecision
    → Time
    → MemoryStore
    → String
    → Result Error Entry
    → Result Error Entry
    → Type 0
Evicted none now m k old new = new ≡ old
Evicted (some d) now m k old new =
    Left d.namespace k (is_pinned d.namespace now (list_pins m)) d.candidates old new

Evicted-same :
    (o : Option EvictionDecision) (now : Time) (m : MemoryStore) (k : String)
    (r : Result Error Entry)
    → Evicted o now m k r r
Evicted-same none now m k r = refl
Evicted-same (some d) now m k r = spared refl

commit_proposed-Left :
    (k : String) (d : EvictionDecision) (s : EvictionStatus) (now : Time) (c : Cache)
    → Evicted
        (some d)
        now
        c.store
        k
        (found_at k c.store)
        (found_at k (commit_proposed d s now c).1.store)
unfolding commit_eviction_locked append_audit save_decision
commit_proposed-Left k d eviction_committed now c = spared refl
commit_proposed-Left k d eviction_proposed now c =
    commit_candidates-Left d.namespace k (is_pinned d.namespace now (list_pins c.store))
      d.candidates d.freed_bytes c.store

commit_proposed-ok :
    (d : EvictionDecision) (s : EvictionStatus) (now : Time) (c : Cache)
    → (x : EvictionDecision) × ((commit_proposed d s now c).0 ≡ ok x)
unfolding commit_eviction_locked
commit_proposed-ok d eviction_committed now c = (d, refl)
commit_proposed-ok d eviction_proposed now c = (_, refl)

check_room-entries :
    (k : String) (p : Promotion) (now : Time) (c : Cache)
    → found_at k (check_room p now c).1.store ≡ found_at k c.store
unfolding check_room
check_room-entries k p now c =
    let used = namespace_used p.target_namespace c.store in
    elim (Bool-cases (is_short p used)) [
      | inl y ↦ rw y (fail_promotion-entries Promotion k p quota_short _ now c)
      | inr n ↦ rw n refl
    ]

-- A check that passes changes nothing.
check_room-ok :
    (p q : Promotion) (now : Time) (c : Cache)
    → (check_room p now c).0 ≡ ok q
    → (check_room p now c ≡ (ok p, c))
      × (is_short p (namespace_used p.target_namespace c.store) ≡ false)
unfolding check_room
check_room-ok p q now c h =
    elim (Bool-cases (is_short p (namespace_used p.target_namespace c.store))) [
      | inl y ↦ absurd (cc (rw y at h, fail_promotion-err Promotion p quota_short _ now c))
      | inr n ↦ (rw n refl, n)
    ]

evict_planned-Evicted :
    (k : String) (o : Option EvictionDecision) (p : Promotion) (now : Time) (c : Cache)
    → Evicted o now c.store k (found_at k c.store) (found_at k (evict_planned o p now c).1.store)
evict_planned-Evicted k none p now c = refl
evict_planned-Evicted k (some d) p now c =
    let (x, e) = commit_proposed-ok d d.status now c in
    let evicted : Promotion = record p { eviction = some x } in
    rw (e, check_room-entries k evicted now (commit_proposed d d.status now c).1)
      (commit_proposed-Left k d d.status now c)

-- The first phase touches no entry but by the planned eviction, whether it succeeds or fails.
pub evict_phase-Evicted :
    (k : String) (phase : TxnPhase) (p : Promotion) (now : Time) (c : Cache)
    → Evicted p.eviction now c.store k
        (found_at k c.store)
        (found_at k (evict_phase phase p now c).1.store)
unfolding evict_phase save_phase save_promotion_txn
evict_phase-Evicted k txn_committing p now c =
    let before = evict_planned-Evicted k p.eviction p now c in
    elim (Result-cases (evict_planned p.eviction p now c).0) [
      | inl (q, e) ↦ rw e before
      | inr (x, e) ↦ rw e before
    ]
evict_phase-Evicted k txn_eviction p now c = Evicted-same p.eviction now c.store k _
evict_phase-Evicted k txn_entry p now c = Evicted-same p.eviction now c.store k _

evict_planned-ok :
    (o : Option EvictionDecision) (p q : Promotion) (now : Time) (c : Cache)
    → (evict_planned o p now c).0 ≡ ok q
    → (w : Option EvictionDecision) × (q ≡ record p { eviction = w })
evict_planned-ok none p q now c h = (p.eviction, cc h)
evict_planned-ok (some d) p q now c h =
    let (x, e) = commit_proposed-ok d d.status now c in
    let evicted : Promotion = record p { eviction = some x } in
    let (same, room) =
      check_room-ok evicted q now (commit_proposed d d.status now c).1 (rw e at h) in
    (some x, cc (ap (λ (r : Result Error Promotion × Cache). r.0) same, rw e at h))

-- It changes nothing of the promotion but its eviction.
pub evict_phase-ok :
    (phase : TxnPhase) (p q : Promotion) (now : Time) (c : Cache)
    → (evict_phase phase p now c).0 ≡ ok q
    → (w : Option EvictionDecision) × (q ≡ record p { eviction = w })
unfolding evict_phase save_phase
evict_phase-ok txn_committing p q now c h =
    elim (Result-cases (evict_planned p.eviction p now c).0) [
      | inl (x, e) ↦
          let (w, same) = evict_planned-ok p.eviction p x now c e in (w, cc (rw e at h, same))
      | inr (x, e) ↦ absurd (cc (rw e at h))
    ]
evict_phase-ok txn_eviction p q now c h = (p.eviction, cc h)
evict_phase-ok txn_entry p q now c h = (p.eviction, cc h)

refreshed-ok :
    (o : Option EvictionDecision) (p q : Promotion) (m : MemoryStore)
    → refreshed o p m ≡ ok q
    → (w : Option EvictionDecision) × (q ≡ record p { eviction = w })
refreshed-ok none p q m h = (p.eviction, cc h)
refreshed-ok (some d) p q m h = elim (Result-cases (get_decision d.id m)) [
  | inl (x, e) ↦ (some x, cc (rw e at h))
  | inr (x, e) ↦ absurd (cc (rw e at h))
]

pub refresh-ok :
    (p q : Promotion) (m : MemoryStore)
    → refresh p m ≡ ok q
    → (w : Option EvictionDecision) × (q ≡ record p { eviction = w })
unfolding refresh
refresh-ok p q m h = refreshed-ok p.eviction p q m h

-- The last phase changes no entry, and records the result.
pub finish_promotion-entries :
    (k : String) (p : Promotion) (now : Time) (c : Cache)
    → found_at k (finish_promotion p now c).1.store ≡ found_at k c.store
unfolding finish_promotion save_promotion delete_promotion_txn append_audit
finish_promotion-entries k p now c =
    let done : Promotion = record p {
      status = promotion_committed;
      fail_reason = no_failure;
      target_version = add64 p.target_base_version 1;
      committed_at = now;
      used_after = namespace_used p.target_namespace c.store;
    } in
    let saved : Cache = record c { store = save_promotion done c.store } in
    rw (record_promotion_request-ok done now saved)
      (record_promotion_request-entries k done now saved)

-- What the log and the record say when the last phase is done.
pub record Recorded (p q : Promotion) (m : MemoryStore) : Type 0 where
  pub result : q.status ≡ promotion_committed
  pub version : q.target_version ≡ add64 p.target_base_version 1
  pub kept : get_promotion p.id m ≡ ok q
  pub no_log : get_promotion_txn p.id m ≡ err not_found

pub record_promotion_request-promotions :
    (p : Promotion) (now : Time) (c : Cache)
    → ((record_promotion_request p now c).1.store.promotions ≡ c.store.promotions)
      × ((record_promotion_request p now c).1.store.promo_txns ≡ c.store.promo_txns)
unfolding record_promotion_request save_promotion_request
record_promotion_request-promotions p now c = elim (Bool-cases (str_eq p.request_id "")) [
  | inl y ↦ rw y (refl, refl)
  | inr n ↦ rw n (refl, refl)
]

pub finish_promotion-Recorded :
    (p : Promotion) (now : Time) (c : Cache)
    → (q : Promotion) × ((finish_promotion p now c).0 ≡ ok q)
      × Recorded p q (finish_promotion p now c).1.store
unfolding finish_promotion save_promotion delete_promotion_txn append_audit get_promotion
    get_promotion_txn
finish_promotion-Recorded p now c =
    let done : Promotion = record p {
      status = promotion_committed;
      fail_reason = no_failure;
      target_version = add64 p.target_base_version 1;
      committed_at = now;
      used_after = namespace_used p.target_namespace c.store;
    } in
    let saved : Cache = record c { store = save_promotion done c.store } in
    let (same, logs) = record_promotion_request-promotions done now saved in
    let here = (eq_iff p.id p.id).1 refl in
    (
      done,
      rw (record_promotion_request-ok done now saved) refl,
      rw (record_promotion_request-ok done now saved) (record {
        result = refl;
        version = refl;
        kept = rw (same, get-put p.id p.id done c.store.promotions, here) refl;
        no_log = rw (logs, get-delete p.id p.id c.store.promo_txns, here) refl;
      }),
    )
