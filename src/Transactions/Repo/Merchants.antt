-- ===== src/Transactions/Repo/Merchants.antt =====
-- transactions/db/repo/merchant_repo.go.
use rvpay_go.Base.{ℕ, String, List}
use rvpay_go.Base.Effect.{Action, map_err, wrap_error, wrap_not_found}
use rvpay_go.Transactions.Model.{Uuid, MerchantStatus, Merchant, Db}
use rvpay_go.Transactions.Store.Merchants.{
  create_merchant, get_merchant_by_id, get_merchant_by_slug, list_merchants, count_merchants,
  update_merchant_status,
}

unfoldable pub create : String → String → MerchantStatus → Action Db Merchant
create name slug status =
    map_err wrap_error (create_merchant (record { name = name; slug = slug; status = status }))

unfoldable pub get_by_id : Uuid → Action Db Merchant
get_by_id id = map_err wrap_not_found (get_merchant_by_id id)

unfoldable pub get_by_slug : String → Action Db Merchant
get_by_slug slug = map_err wrap_not_found (get_merchant_by_slug slug)

unfoldable pub list : ℕ → ℕ → Action Db (List Merchant)
list limit offset = map_err wrap_error (list_merchants limit offset)

unfoldable pub count : Action Db ℕ
count = map_err wrap_error count_merchants

unfoldable pub update_status : Uuid → MerchantStatus → Action Db Merchant
update_status id status = map_err wrap_not_found (update_merchant_status id status)
