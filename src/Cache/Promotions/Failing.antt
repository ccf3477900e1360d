-- ===== src/Cache/Promotions/Failing.antt =====
-- promotion.go: what the failure of a promotion and the start of its redo log leave of the entries.
use go_build_cache.Prelude.{String, ◌≡◌, refl, str_eq, Bool-cases, Option-cases, inl, inr, ◌⊎◌}
use go_build_cache.Prelude.Exec.{ok, err}
use go_build_cache.Prelude.Maps.{get, string_eq}
use go_build_cache.Model.{
  Time, Promotion, PromotionFailure, promotion_failed, PromotionTxn, txn_committing,
}
use go_build_cache.Errors.{not_found, promotion_stale}
use go_build_cache.Store.Audit.{append_audit}
use go_build_cache.Store.Promotions.{
  save_promotion, save_promotion_request, get_promotion_txn, save_promotion_txn,
  delete_promotion_txn,
}
use go_build_cache.Cache.{Cache}
use go_build_cache.Cache.Eviction.Deletions.{found_at}
use go_build_cache.Cache.Promotions.Requests.{record_promotion_request}
use go_build_cache.Cache.Promotions.Phases.{fail_promotion, begin_txn}

pub record_promotion_request-entries :
    (k : String) (p : Promotion) (now : Time) (c : Cache)
    → found_at k (record_promotion_request p now c).1.store ≡ found_at k c.store
unfolding record_promotion_request save_promotion_request
record_promotion_request-entries k p now c = elim (Bool-cases (str_eq p.request_id "")) [
  | inl y ↦ rw y refl
  | inr n ↦ rw n refl
]

pub record_promotion_request-ok :
    (p : Promotion) (now : Time) (c : Cache) → (record_promotion_request p now c).0 ≡ ok tt
unfolding record_promotion_request
record_promotion_request-ok p now c = elim (Bool-cases (str_eq p.request_id "")) [
  | inl y ↦ rw y refl
  | inr n ↦ rw n refl
]

-- A promotion that fails changes no entry.
pub fail_promotion-entries :
    (A : Type 0) (k : String) (p : Promotion) (reason : PromotionFailure) (detail : String)
    (now : Time) (c : Cache)
    → found_at k (fail_promotion {A = A} p reason detail now c).1.store ≡ found_at k c.store
unfolding fail_promotion save_promotion delete_promotion_txn append_audit
fail_promotion-entries A k p reason detail now c =
    let failed : Promotion = record p {
      status = promotion_failed;
      fail_reason = reason;
      committed_at = now;
    } in
    let saved : Cache = record c { store = save_promotion failed c.store } in
    rw (record_promotion_request-ok failed now saved)
      (record_promotion_request-entries k failed now saved)

pub fail_promotion-err :
    (A : Type 0) (p : Promotion) (reason : PromotionFailure) (detail : String) (now : Time)
    (c : Cache)
    → (fail_promotion {A = A} p reason detail now c).0 ≡ err (promotion_stale p.id reason)
unfolding fail_promotion
fail_promotion-err A p reason detail now c =
    let failed : Promotion = record p {
      status = promotion_failed;
      fail_reason = reason;
      committed_at = now;
    } in
    let saved : Cache = record c { store = save_promotion failed c.store } in
    rw (record_promotion_request-ok failed now saved) refl

-- The redo log: where it stands, or that it is begun now.
pub begin_txn_lem :
    (p : Promotion) (now : Time) (c : Cache)
    → ((txn : PromotionTxn) × (get_promotion_txn p.id c.store ≡ ok txn)
        × (begin_txn p now c ≡ (ok txn.phase, c)))
      ⊎ ((get_promotion_txn p.id c.store ≡ err not_found)
          × (begin_txn p now c ≡ (
            ok txn_committing,
            record c {
              store =
                  save_promotion_txn
                    (record { promotion_id = p.id; phase = txn_committing; updated_at = now })
                    c.store;
            },
          )))
unfolding begin_txn get_promotion_txn
begin_txn_lem p now c = elim (Option-cases (get p.id c.store.promo_txns)) [
  | inl g ↦ inr (rw g refl, rw g refl)
  | inr (txn, g) ↦ inl (txn, rw g refl, rw g refl)
]
