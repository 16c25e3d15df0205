-- ===== src/Transactions/Deposits.antt =====
-- transactions/deposits/service.go: the handlers of the DepositService. Logging is left out; a
-- nil request is `none`.
pub mod Creation
pub mod Refusal
pub mod Acceptance
pub mod Storing
use rvpay_go.Base.{String, Option, none, some}
use rvpay_go.Base.Text.{is_empty, trim_space, map_runes}
use rvpay_go.Base.Effect.{
  invalid_argument, not_found, already_exists, internal, Err, status, err_not_found, err_duplicate,
  err_constraint, ok, Action, lift, raise, raise_if, or_raise, map_err, ◌>>=◌, ◌>>◌,
}
use rvpay_go.Transactions.Model.{
  Uuid, Numeric, PaymentProvider, PaymentType, DepositStatus, GrpcPaymentType, GrpcProvider,
  Customer, Deposit, Money, Env, Db, draw_uuid,
}
use rvpay_go.Transactions.Repo.Customers
use rvpay_go.Transactions.Repo.Deposits as DepositRepo
use rvpay_go.Transactions.Convert.{
  DepositProto, deposit_to_proto, validate_amount, grpc_payment_type_to_sqlc, grpc_provider_to_sqlc,
}

pub record CreateDepositRequest : Type 0 where
  pub client_id : String
  pub customer_id : String
  pub merchant_id : String
  pub amount : Option Money
  pub payment_type : GrpcPaymentType
  pub payer_phone_number : String
  pub provider : GrpcProvider

-- `req.GetAmount().GetCurrency()`.
abbrev pub currency_of : Option Money → String
currency_of none = ""
currency_of (some money) = money.currency

-- What the checks at the head of `InitiateDeposit` establish.
pub record DepositInput : Type 0 where
  pub client_id : Uuid
  pub customer_id : Uuid
  pub merchant_id : Uuid
  pub amount : Numeric
  pub currency : String
  pub payment_type : PaymentType
  pub phone_number : String
  pub provider : PaymentProvider

-- The errors of the customer lookup and of the insertion.
unfoldable pub customer_lookup_error : Err → Err
customer_lookup_error err_not_found =
    status not_found "customer not found for the given client, merchant, and phone number"
customer_lookup_error _ = status internal "could not validate customer for deposit"

unfoldable pub create_deposit_error : Err → Err
create_deposit_error err_duplicate = status already_exists "deposit already exists"
create_deposit_error err_constraint = status not_found "referenced merchant or customer not found"
create_deposit_error _ = status internal "could not create deposit"

unfoldable pub get_deposit_error : Err → Err
get_deposit_error err_not_found = status not_found "deposit not found"
get_deposit_error _ = status internal "could not get deposit"

-- The customer of the request's client and merchant with its phone number.
unfoldable pub find_customer : DepositInput → Action Db Customer
find_customer i =
    map_err customer_lookup_error
      (Customers.get_by_client_and_merchant_and_phone i.client_id i.merchant_id i.phone_number)

module _ (env : Env) where
  -- `status.Error(codes.InvalidArgument, err.Error())`.
  abbrev invalid : Err → Err
  invalid e = status invalid_argument (env.error_text e)

  unfoldable pub check_deposit : CreateDepositRequest → Action Db DepositInput
  check_deposit req = do
    client_id ←
        or_raise (env.parse_uuid req.client_id)
          (status invalid_argument "client_id must be a valid UUID")
    customer_id ←
        or_raise (env.parse_uuid req.customer_id)
          (status invalid_argument "customer_id must be a valid UUID")
    merchant_id ←
        or_raise (env.parse_uuid req.merchant_id)
          (status invalid_argument "merchant_id must be a valid UUID")
    amount ← lift (validate_amount env "deposit" req.amount)
    let currency = map_runes env.upper_rune (trim_space (currency_of req.amount))
    raise_if (is_empty currency) (status invalid_argument "currency is required")
    payment_type ← map_err invalid (lift (grpc_payment_type_to_sqlc env req.payment_type))
    let phone_number = trim_space req.payer_phone_number
    raise_if (is_empty phone_number) (status invalid_argument "payer_phone_number is required")
    provider ← map_err invalid (lift (grpc_provider_to_sqlc env req.provider))
    lift (
        ok (record {
          client_id = client_id;
          customer_id = customer_id;
          merchant_id = merchant_id;
          amount = amount;
          currency = currency;
          payment_type = payment_type;
          phone_number = phone_number;
          provider = provider;
        }))

  -- The deposit is stored as that of the customer who was found.
  unfoldable pub store_for_customer : DepositInput → Customer → Action Db Deposit
  store_for_customer i customer = do
    key ← draw_uuid
    map_err create_deposit_error (
        DepositRepo.create env i.client_id customer.id i.merchant_id i.amount i.currency
          i.payment_type i.phone_number i.provider DepositStatus.initiated key)

  -- The customer lookup and the insertion.
  unfoldable pub place_deposit : DepositInput → Action Db Deposit
  place_deposit i = find_customer i >>= store_for_customer i

  unfoldable pub initiate_deposit : Option CreateDepositRequest → Action Db DepositProto
  initiate_deposit none = raise (status invalid_argument "deposit request is required")
  initiate_deposit (some req) = do
    input ← check_deposit req
    deposit ← place_deposit input
    lift (ok (deposit_to_proto env deposit))

  -- The request is its `ghl_transaction_id`.
  unfoldable pub get_deposit_by_ghl_transaction_id : Option String → Action Db DepositProto
  get_deposit_by_ghl_transaction_id none =
      raise (status invalid_argument "deposit request is required")
  get_deposit_by_ghl_transaction_id (some id) = do
    let ghl_transaction_id = trim_space id
    raise_if (is_empty ghl_transaction_id)
        (status invalid_argument "ghl_transaction_id is required")
    deposit ←
        map_err get_deposit_error (DepositRepo.get_by_ghl_transaction_id env ghl_transaction_id)
    lift (ok (deposit_to_proto env deposit))

  -- The request is its `deposit_id`.
  unfoldable pub get_deposit : Option String → Action Db DepositProto
  get_deposit none = raise (status invalid_argument "deposit request is required")
  get_deposit (some id) = do
    deposit_id ←
        or_raise (env.parse_uuid id) (status invalid_argument "deposit_id must be a valid UUID")
    deposit ← map_err get_deposit_error (DepositRepo.get_by_id env deposit_id)
    lift (ok (deposit_to_proto env deposit))
