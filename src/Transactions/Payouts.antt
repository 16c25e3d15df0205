-- ===== src/Transactions/Payouts.antt =====
-- transactions/payouts/service.go: the handlers of the PayoutService.
pub mod Acceptance
pub mod Storing
use rvpay_go.Base.{String, Option, none, some}
use rvpay_go.Base.Text.{is_empty, trim_space, map_runes}
use rvpay_go.Base.Effect.{
  invalid_argument, not_found, already_exists, internal, Err, status, err_not_found, err_duplicate,
  err_constraint, ok, Action, lift, raise, raise_if, or_raise, map_err, ◌>>=◌, ◌>>◌,
}
use rvpay_go.Transactions.Model.{
  Uuid, Numeric, PaymentProvider, PayoutStatus, GrpcProvider, Payout, Money, Env, Db, draw_uuid,
}
use rvpay_go.Transactions.Repo.Payouts as PayoutRepo
use rvpay_go.Transactions.Convert.{
  PayoutProto, payout_to_proto, validate_amount, grpc_provider_to_sqlc,
}

pub record CreatePayoutRequest : Type 0 where
  pub client_id : String
  pub merchant_id : String
  pub amount : Option Money
  pub provider : GrpcProvider
  pub destination_reference : String

-- `req.GetAmount().GetCurrency()`.
abbrev pub currency_of : Option Money → String
currency_of none = ""
currency_of (some money) = money.currency

-- What the checks at the head of `RequestPayout` establish.
pub record PayoutInput : Type 0 where
  pub client_id : Uuid
  pub merchant_id : Uuid
  pub amount : Numeric
  pub currency : String
  pub provider : PaymentProvider
  pub destination_reference : String

unfoldable pub create_payout_error : Err → Err
create_payout_error err_duplicate = status already_exists "payout already exists"
create_payout_error err_constraint = status not_found "referenced merchant not found"
create_payout_error _ = status internal "could not create payout"

unfoldable pub get_payout_error : Err → Err
get_payout_error err_not_found = status not_found "payout not found"
get_payout_error _ = status internal "could not get payout"

module _ (env : Env) where
  -- `status.Error(codes.InvalidArgument, err.Error())`.
  abbrev invalid : Err → Err
  invalid e = status invalid_argument (env.error_text e)

  unfoldable pub check_payout : CreatePayoutRequest → Action Db PayoutInput
  check_payout req = do
    client_id ←
        or_raise (env.parse_uuid req.client_id)
          (status invalid_argument "client_id must be a valid UUID")
    merchant_id ←
        or_raise (env.parse_uuid req.merchant_id)
          (status invalid_argument "merchant_id must be a valid UUID")
    amount ← lift (validate_amount env "payout" req.amount)
    let currency = map_runes env.upper_rune (trim_space (currency_of req.amount))
    raise_if (is_empty currency) (status invalid_argument "currency is required")
    provider ← map_err invalid (lift (grpc_provider_to_sqlc env req.provider))
    let destination_reference = trim_space req.destination_reference
    raise_if (is_empty destination_reference)
        (status invalid_argument "destination_reference is required")
    lift (
        ok (record {
          client_id = client_id;
          merchant_id = merchant_id;
          amount = amount;
          currency = currency;
          provider = provider;
          destination_reference = destination_reference;
        }))

  unfoldable pub place_payout : PayoutInput → Action Db Payout
  place_payout i = do
    key ← draw_uuid
    map_err create_payout_error (
        PayoutRepo.create env i.client_id i.merchant_id i.amount i.currency i.provider
          i.destination_reference PayoutStatus.requested key)

  unfoldable pub request_payout : Option CreatePayoutRequest → Action Db PayoutProto
  request_payout none = raise (status invalid_argument "payout request is required")
  request_payout (some req) = do
    input ← check_payout req
    payout ← place_payout input
    lift (ok (payout_to_proto env payout))

  -- The request is its `payout_id`.
  unfoldable pub get_payout : Option String → Action Db PayoutProto
  get_payout none = raise (status invalid_argument "payout request is required")
  get_payout (some id) = do
    payout_id ←
        or_raise (env.parse_uuid id) (status invalid_argument "payout_id must be a valid UUID")
    payout ← map_err get_payout_error (PayoutRepo.get_by_id env payout_id)
    lift (ok (payout_to_proto env payout))
