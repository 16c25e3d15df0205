-- ===== src/Clients/Payments.antt =====
-- clients/payments/service.go: HighLevel's queries and payment events, and their delegation to the
-- payment service of the transactions service (transactions/payments/service.go), which is called
-- by gRPC. The two services have a database each.
pub mod Answers
use rvpay_go.Base.{String, Bool, not, ◌&&◌, Option, none, some, str_eq, if◌then◌else◌}
use rvpay_go.Base.Text.{is_empty, trim_space}
use rvpay_go.Base.Effect.{
  invalid_argument, not_found, failed_precondition, internal, unauthenticated, Err, status, ok,
  Action, lift, raise, raise_if, or_raise, map_err, ◌>>=◌, ◌>>◌,
}
use rvpay_go.Clients.Model.{Integration, PaymentProviderConfig, Db}
use rvpay_go.Clients.Errors.{found_or}
use rvpay_go.Clients.Repo.Integrations as IntegrationRepo
use rvpay_go.Clients.Repo.PaymentProviderConfigs as ConfigRepo
use rvpay_go.Clients.Events.{record_event}
use rvpay_go.Transactions.Model as Transactions
use rvpay_go.Transactions.Payments.{verify_payment, process_payment_webhook}

pub record QueryRequest : Type 0 where
  pub type : String
  pub transaction_id : String
  pub api_key : String
  pub charge_id : String
  pub subscription_id : String

pub record QueryResponse : Type 0 where
  pub success : Bool
  pub failed : Bool

pub record PaymentEvent : Type 0 where
  pub event_type : String
  pub event_id : String
  pub location_id : String
  pub charge_id : String
  pub transaction_id : String
  pub api_key : String
  pub payload : String

-- Both services' databases.
pub record System : Type 0 where
  pub clients : Db
  pub transactions : Transactions.Db

-- What one of the services does, for both.
abbrev pub on_clients : {A : Type 0} → Action Db A → Action System A
on_clients m w = let (r, db) = m w.clients in (r, record w { clients = db })

abbrev pub on_transactions : {A : Type 0} → Action Transactions.Db A → Action System A
on_transactions m w = let (r, db) = m w.transactions in (r, record w { transactions = db })

abbrev pub err_provider_config_not_found : Err
err_provider_config_not_found = status not_found "payment provider configuration not found"

abbrev pub err_invalid_api_key : Err
err_invalid_api_key = status unauthenticated "invalid provider API key"

abbrev pub err_missing_api_key : Err
err_missing_api_key = status invalid_argument "provider API key is required"

abbrev pub err_unsupported_type : Err
err_unsupported_type = status invalid_argument "unsupported query type"

abbrev pub err_missing_transaction_id : Err
err_missing_transaction_id = status invalid_argument "transaction_id or charge_id is required"

abbrev pub err_invalid_payload : Err
err_invalid_payload = status invalid_argument "invalid webhook payload"

abbrev pub err_integration_not_found : Err
err_integration_not_found = status not_found "integration not found"

unfoldable pub find_config_by_api_key : String → Action Db PaymentProviderConfig
find_config_by_api_key api_key = do
  config ← found_or err_invalid_api_key (ConfigRepo.get_by_api_key api_key)
  raise_if (not (str_eq config.provider_api_key api_key)) err_invalid_api_key
  lift (ok config)

-- The switch on `status.Code(err)`.
unfoldable pub verify_error : Err → Err
verify_error (status not_found _) = status not_found "transaction not found"
verify_error (status failed_precondition _) =
    status failed_precondition "subscription payments are not supported"
verify_error (status invalid_argument _) =
    status invalid_argument "invalid payment verification request"
verify_error _ = status internal "could not verify transaction"

-- `json.Unmarshal` of an event, and `json.Marshal` of its data.
pub record PaymentsEnv : Type 0 where
  pub transactions : Transactions.Env
  pub unmarshal : String → Option PaymentEvent
  pub marshal : String → Option String

module _ (env : PaymentsEnv) where
  unfoldable pub handle_verify : QueryRequest → Action System QueryResponse
  handle_verify req = do
    raise_if (is_empty (trim_space req.transaction_id) && is_empty (trim_space req.charge_id))
        err_missing_transaction_id
    response ← map_err verify_error (
        on_transactions (
          verify_payment env.transactions (
            some (record {
              ghl_transaction_id = req.transaction_id;
              ghl_charge_id = req.charge_id;
              subscription_id = req.subscription_id;
            }))))
    lift (ok (record { success = response.success; failed = response.failed }))

  -- The switch on the query's type.
  unfoldable pub answer_query : QueryRequest → Action System QueryResponse
  unfolding handle_verify
  answer_query req =
      if str_eq (trim_space req.type) "verify"
      then handle_verify req
      else raise err_unsupported_type

  unfoldable pub handle_query : Option QueryRequest → Action System QueryResponse
  handle_query none = raise (status invalid_argument "query request is required")
  handle_query (some req) = do
    raise_if (is_empty (trim_space req.api_key)) err_missing_api_key
    config ← on_clients (find_config_by_api_key req.api_key)
    answer_query req

  -- The part of `HandleWebhook` that authenticates an event: the integration of its location.
  unfoldable pub authenticate : PaymentEvent → Action Db Integration
  authenticate event = do
    config ←
        found_or err_provider_config_not_found (ConfigRepo.get_by_location_id event.location_id)
    raise_if (is_empty (trim_space event.api_key)) err_missing_api_key
    raise_if (not (str_eq config.provider_api_key event.api_key)) err_invalid_api_key
    found_or err_integration_not_found (IntegrationRepo.get_by_id config.integration_id)

  -- The part of `HandleWebhook` from the parsed event on.
  unfoldable pub handle_event : PaymentEvent → Action System (Unit {0})
  unfolding authenticate
  handle_event event = do
    raise_if (is_empty (trim_space event.event_id)) err_invalid_payload
    integration ← on_clients (authenticate event)
    payload ← or_raise (env.marshal event.payload) err_invalid_payload
    on_clients (record_event integration.id event.event_id event.event_type payload)
    map_err (λ _. status internal "could not process payment webhook")
        (on_transactions (
          process_payment_webhook env.transactions (
            some (record {
              event_type = event.event_type;
              transaction_id = event.transaction_id;
              charge_id = event.charge_id;
            }))))

  unfoldable pub handle_webhook : String → Action System (Unit {0})
  handle_webhook body = or_raise (env.unmarshal body) err_invalid_payload >>= handle_event
