-- ===== src/Store/Promotions.antt =====
-- memory_store.go: promotions, their request numbers and their redo log.
use go_build_cache.Prelude.{List, sort_by, String}
use go_build_cache.Prelude.Exec.{Result}
use go_build_cache.Prelude.Maps.{get, put, delete, values, string_eq}
use go_build_cache.Prelude.Text.{str_lt}
use go_build_cache.Model.{Promotion, PromotionRequest, PromotionTxn}
use go_build_cache.Errors.{Error, not_found, promotion_not_found}
use go_build_cache.Store.{MemoryStore, or_fail}

unfoldable pub save_promotion : Promotion → MemoryStore → MemoryStore
save_promotion p m = record m { promotions = put p.id p m.promotions }

unfoldable pub get_promotion : String → MemoryStore → Result Error Promotion
get_promotion id m = or_fail (get id m.promotions) promotion_not_found

unfoldable pub list_promotions : MemoryStore → List Promotion
list_promotions m = sort_by (λ a b. str_lt a.id b.id) (values m.promotions)

unfoldable pub delete_promotion : String → MemoryStore → MemoryStore
delete_promotion id m = record m { promotions = delete id m.promotions }

unfoldable pub save_promotion_request : PromotionRequest → MemoryStore → MemoryStore
save_promotion_request rec m = record m { promo_reqs = put rec.request_id rec m.promo_reqs }

unfoldable pub get_promotion_request : String → MemoryStore → Result Error PromotionRequest
get_promotion_request id m = or_fail (get id m.promo_reqs) not_found

unfoldable pub list_promotion_requests : MemoryStore → List PromotionRequest
list_promotion_requests m = sort_by (λ a b. str_lt a.request_id b.request_id) (values m.promo_reqs)

unfoldable pub save_promotion_txn : PromotionTxn → MemoryStore → MemoryStore
save_promotion_txn txn m = record m { promo_txns = put txn.promotion_id txn m.promo_txns }

unfoldable pub get_promotion_txn : String → MemoryStore → Result Error PromotionTxn
get_promotion_txn id m = or_fail (get id m.promo_txns) not_found

unfoldable pub list_promotion_txns : MemoryStore → List PromotionTxn
list_promotion_txns m = sort_by (λ a b. str_lt a.promotion_id b.promotion_id) (values m.promo_txns)

unfoldable pub delete_promotion_txn : String → MemoryStore → MemoryStore
delete_promotion_txn id m = record m { promo_txns = delete id m.promo_txns }
