-- ===== src/Transactions/Customers.antt =====
-- transactions/customers/service.go: the handlers of the CustomerService.
pub mod Duplicate
use rvpay_go.Base.{String, Option, none, some}
use rvpay_go.Base.Text.{is_empty, trim_space}
use rvpay_go.Base.Effect.{
  invalid_argument, not_found, already_exists, internal, Err, status, err_not_found, err_duplicate,
  err_constraint, ok, Action, lift, raise, raise_if, or_raise, map_err, ◌>>=◌, ◌>>◌,
}
use rvpay_go.Transactions.Model.{CustomerStatus, Env, Db}
use rvpay_go.Transactions.Repo.Customers as CustomerRepo
use rvpay_go.Transactions.Convert.{CustomerProto, customer_to_proto}

pub record CreateCustomerRequest : Type 0 where
  pub client_id : String
  pub merchant_id : String
  pub phone_number : String

unfoldable pub create_customer_error : Err → Err
create_customer_error err_duplicate = status already_exists "customer already exists"
create_customer_error err_constraint = status not_found "referenced merchant not found"
create_customer_error _ = status internal "could not create customer"

unfoldable pub get_customer_error : Err → Err
get_customer_error err_not_found = status not_found "customer not found"
get_customer_error _ = status internal "could not get customer"

module _ (env : Env) where
  unfoldable pub create_customer : Option CreateCustomerRequest → Action Db CustomerProto
  create_customer none = raise (status invalid_argument "customer request is required")
  create_customer (some req) = do
    client_id ←
        or_raise (env.parse_uuid req.client_id)
          (status invalid_argument "client_id must be a valid UUID")
    merchant_id ←
        or_raise (env.parse_uuid req.merchant_id)
          (status invalid_argument "merchant_id must be a valid UUID")
    let phone_number = trim_space req.phone_number
    raise_if (is_empty phone_number) (status invalid_argument "phone_number is required")
    customer ←
        map_err create_customer_error
          (CustomerRepo.create client_id merchant_id phone_number CustomerStatus.created)
    lift (ok (customer_to_proto env customer))

  -- The request is its `customer_id`.
  unfoldable pub get_customer : Option String → Action Db CustomerProto
  get_customer none = raise (status invalid_argument "customer request is required")
  get_customer (some id) = do
    customer_id ←
        or_raise (env.parse_uuid id) (status invalid_argument "customer_id must be a valid UUID")
    customer ← map_err get_customer_error (CustomerRepo.get_by_id customer_id)
    lift (ok (customer_to_proto env customer))
