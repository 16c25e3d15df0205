-- ===== src/Transactions/Repo/Customers.antt =====
-- transactions/db/repo/customer_repo.go.
use rvpay_go.Base.{String, List}
use rvpay_go.Base.Effect.{Action, map_err, wrap_error, wrap_not_found}
use rvpay_go.Transactions.Model.{Uuid, CustomerStatus, Customer, Db}
use rvpay_go.Transactions.Store.Customers.{
  create_customer, get_customer_by_id, get_customer_by_client_and_merchant_and_phone,
  list_customers_by_client, list_customers_by_merchant, update_customer_status,
}

unfoldable pub create : Uuid → Uuid → String → CustomerStatus → Action Db Customer
create client_id merchant_id phone_number status = map_err wrap_error (
    create_customer (record {
      client_id = client_id;
      merchant_id = merchant_id;
      phone_number = phone_number;
      status = status;
    }))

unfoldable pub get_by_id : Uuid → Action Db Customer
get_by_id id = map_err wrap_not_found (get_customer_by_id id)

unfoldable pub get_by_client_and_merchant_and_phone : Uuid → Uuid → String → Action Db Customer
get_by_client_and_merchant_and_phone client_id merchant_id phone_number =
    map_err wrap_not_found
      (get_customer_by_client_and_merchant_and_phone client_id merchant_id phone_number)

unfoldable pub list_by_client : Uuid → Action Db (List Customer)
list_by_client client_id = map_err wrap_error (list_customers_by_client client_id)

unfoldable pub list_by_merchant : Uuid → Action Db (List Customer)
list_by_merchant merchant_id = map_err wrap_error (list_customers_by_merchant merchant_id)

unfoldable pub update_status : Uuid → CustomerStatus → Action Db Customer
update_status id status = map_err wrap_not_found (update_customer_status id status)
