-- ===== src/Files/Promotions.antt =====
-- file_store.go: eviction decisions, promotions, their request numbers and the redo log.
use go_build_cache.Prelude.{String, List, [], ◌∷◌, sort_by}
use go_build_cache.Prelude.Exec.{Result, Exec, Done}
use go_build_cache.Prelude.Text.{str_lt}
use go_build_cache.Model.{EvictionDecision, Promotion, PromotionRequest, PromotionTxn}
use go_build_cache.Errors.{Error, not_found, promotion_not_found}
use go_build_cache.Files.Paths.{FilePath, join}
use go_build_cache.Files.System.{Attempt}
use go_build_cache.Files.Metadata.{
  Codec, FileStore, remove_file, load, save, load_dir, mapped, record_path,
}

unfoldable pub decision_path : FilePath → String → FilePath
decision_path = record_path "evictions"

module _ (c : Codec EvictionDecision) where
  unfoldable pub save_decision_file : Attempt → EvictionDecision → Exec Error FileStore Done
  save_decision_file a d s = save c a (decision_path s.root d.id) d s

  unfoldable pub get_decision_file : String → FileStore → Result Error EvictionDecision
  get_decision_file id s = load c (decision_path s.root id) not_found s

  unfoldable pub list_decision_files : FileStore → Result Error (List EvictionDecision)
  list_decision_files s =
      mapped (sort_by (λ a b. str_lt a.id b.id))
        (load_dir c (join s.root ("evictions" ∷ [])) s.files)

unfoldable pub delete_decision_file : String → FileStore → FileStore
delete_decision_file id s = remove_file (decision_path s.root id) s

unfoldable pub promotion_path : FilePath → String → FilePath
promotion_path = record_path "promotions"

module _ (c : Codec Promotion) where
  unfoldable pub save_promotion_file : Attempt → Promotion → Exec Error FileStore Done
  save_promotion_file a p s = save c a (promotion_path s.root p.id) p s

  unfoldable pub get_promotion_file : String → FileStore → Result Error Promotion
  get_promotion_file id s = load c (promotion_path s.root id) promotion_not_found s

  unfoldable pub list_promotion_files : FileStore → Result Error (List Promotion)
  list_promotion_files s =
      mapped (sort_by (λ a b. str_lt a.id b.id))
        (load_dir c (join s.root ("promotions" ∷ [])) s.files)

unfoldable pub delete_promotion_file : String → FileStore → FileStore
delete_promotion_file id s = remove_file (promotion_path s.root id) s

unfoldable pub promo_request_path : FilePath → String → FilePath
promo_request_path = record_path "promo_requests"

module _ (c : Codec PromotionRequest) where
  unfoldable pub save_promo_request_file : Attempt → PromotionRequest → Exec Error FileStore Done
  save_promo_request_file a rec s = save c a (promo_request_path s.root rec.request_id) rec s

  unfoldable pub get_promo_request_file : String → FileStore → Result Error PromotionRequest
  get_promo_request_file id s = load c (promo_request_path s.root id) not_found s

  unfoldable pub list_promo_request_files : FileStore → Result Error (List PromotionRequest)
  list_promo_request_files s =
      mapped (sort_by (λ a b. str_lt a.request_id b.request_id))
        (load_dir c (join s.root ("promo_requests" ∷ [])) s.files)

unfoldable pub promo_txn_path : FilePath → String → FilePath
promo_txn_path = record_path "promo_txns"

module _ (c : Codec PromotionTxn) where
  unfoldable pub save_promo_txn_file : Attempt → PromotionTxn → Exec Error FileStore Done
  save_promo_txn_file a txn s = save c a (promo_txn_path s.root txn.promotion_id) txn s

  unfoldable pub get_promo_txn_file : String → FileStore → Result Error PromotionTxn
  get_promo_txn_file id s = load c (promo_txn_path s.root id) not_found s

  unfoldable pub list_promo_txn_files : FileStore → Result Error (List PromotionTxn)
  list_promo_txn_files s =
      mapped (sort_by (λ a b. str_lt a.promotion_id b.promotion_id))
        (load_dir c (join s.root ("promo_txns" ∷ [])) s.files)

unfoldable pub delete_promo_txn_file : String → FileStore → FileStore
delete_promo_txn_file id s = remove_file (promo_txn_path s.root id) s
