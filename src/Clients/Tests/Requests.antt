-- ===== src/Clients/Tests/Requests.antt =====
-- Requests of a business whose account is connected.
use mathlib.Core.List.{Memᴰ}
use rvpay_go.Base.{◌⊎◌, true, false, none, some, [], ◌∷◌, map, str_eq, ◌&&◌, ◌≡◌, refl}
use rvpay_go.Base.Text
use rvpay_go.Base.Text.{is_empty, trim_space}
use rvpay_go.Base.Table
use rvpay_go.Base.Table.{any_row}
use rvpay_go.Base.Effect.{ok, err, status, invalid_argument}
use rvpay_go.Transactions.Payments as TransactionPayments
use rvpay_go.Transactions.Store.Deposits as DepositStore
use rvpay_go.Transactions.Repo.Deposits as DepositRepo
use rvpay_go.Transactions.Tests as TransactionTests
use rvpay_go.Clients.Model.{Client, PaymentProviderConfig, ClientStatus, IntegrationStatus, Db}
use rvpay_go.Clients.Query
use rvpay_go.Clients.Errors
use rvpay_go.Clients.Events.{has_event_key}
use rvpay_go.Clients.Repo.Platforms as PlatformRepo
use rvpay_go.Clients.Repo.Integrations as IntegrationRepo
use rvpay_go.Clients.Repo.PaymentProviderConfigs as ConfigRepo
use rvpay_go.Clients.Repo.WebhookSubscriptions as WebhookRepo
use rvpay_go.Clients.Providers
use rvpay_go.Clients.Providers.{Provider, Headers, get}
use rvpay_go.Clients.Providers.Lookup.{register_all, get-register_all}
use rvpay_go.Clients.Providers.Webhook.{Codec, new_high_level_webhook_provider}
use rvpay_go.Clients.Webhooks.Signed.{IsSigned, process_webhook_authentic}
use rvpay_go.Clients.Webhooks
use rvpay_go.Clients.Webhooks.{
  WebhookEnv, process_webhook, err_invalid_signature, register_webhook, deliver,
}
use rvpay_go.Clients.Payments
use rvpay_go.Clients.Payments.{QueryRequest, QueryResponse, System, handle_query, authenticate}
use rvpay_go.Clients.Payments.Answers.{VerifiedBy, handle_query_answers}
use rvpay_go.Clients.Http as Http
use rvpay_go.Clients.Http.{payment}
use rvpay_go.Clients.Http.Redelivery.{payment_redelivered}
use rvpay_go.Clients.Service.Convert as Convert
use rvpay_go.Clients.Service.Convert.{
  GrpcClientStatus, GrpcIntegrationStatus, sqlc_client_to_proto, sqlc_integration_to_proto,
  proto_status_to_sqlc_client_status, proto_status_to_sqlc_integration_status,
}
use rvpay_go.Clients.Service.Clients as ClientService
use rvpay_go.Clients.Service.Laws.{update_client_ignores_name, status_unspecified}
use rvpay_go.Clients.Runs.{Call}
use rvpay_go.Clients.Reports.{is_status}
use rvpay_go.Clients.Reports.Grpc
use rvpay_go.Clients.Reports.Grpc.{grpc_failure, grpc_reports}
use rvpay_go.Clients.Tests.Flows.{
  provider, business, account, config, recorded, configured, server, uuids, webhooks, payments_env,
  captured, system_configured,
}

abbrev renamed : Provider
renamed = record provider { name = "HighLevel" }

-- The only signature is of a body "[]".
abbrev codec : Codec
codec = record {
  decode_base64 = λ s. some s;
  size = λ s. 64;
  verify = λ key body sig. str_eq body "[]" && str_eq sig "signature";
  decode_key = λ pem. some "key";
  unmarshal = λ body. none;
  parse_time = λ s. none;
}

abbrev unsigned : Headers
unsigned = ("X-GHL-Signature", "signature") ∷ []

abbrev verifier : Provider
verifier = record provider { webhook_provider = some (new_high_level_webhook_provider codec "PEM") }

abbrev verifying : WebhookEnv
verifying = record webhooks { registry = ("highlevel", verifier) ∷ [] }

registered : get "highlevel" verifying.registry ≡ some verifier
unfolding get
registered = refl

abbrev question : QueryRequest
question = record {
  type = "verify";
  transaction_id = " tx ";
  api_key = "key";
  charge_id = "";
  subscription_id = "";
}

abbrev answer : QueryResponse
answer = record { success = true; failed = false }

abbrev after_question : System
after_question = (handle_query payments_env (some question) system_configured).1

answered : (handle_query payments_env (some question) system_configured).0 ≡ ok answer
unfolding Payments.handle_query Payments.find_config_by_api_key Payments.answer_query
    Payments.handle_verify Errors.found_or ConfigRepo.get_by_api_key
    ConfigRepo.get_payment_provider_config_by_api_key Query.select_one Query.one Text.trim_space
    Table.find_row TransactionPayments.verify_payment TransactionPayments.interpret_status
    TransactionPayments.resolve_deposit TransactionPayments.or_else
    DepositRepo.get_by_ghl_transaction_id DepositStore.get_deposit_by_ghl_transaction_id
    DepositStore.select_deposit DepositStore.find_deposit DepositStore.scan_deposit
answered = refl

handle_query_answers_example :
    (is_empty (trim_space "key") ≡ false)
    × ((c : PaymentProviderConfig) × Memᴰ c (config ∷ [])
        × (str_eq c.provider_api_key "key" ≡ true))
    × (is_empty (trim_space "") ≡ true)
    × VerifiedBy question answer TransactionTests.with_payment.deposits
    × (after_question.transactions.tables ≡ TransactionTests.with_payment)
handle_query_answers_example =
    handle_query_answers payments_env question system_configured (λ i. (answered i, after_question))

abbrev after_subscribe : Db
after_subscribe = (register_webhook webhooks 7 "https://rvpay/hook" (server configured)).1

abbrev after_authenticate : Db
after_authenticate = (authenticate payments_env captured (server configured)).1

has_id : is_empty (trim_space captured.event_id) ≡ false
unfolding trim_space
has_id = refl

authentic : (authenticate payments_env captured (server configured)).0 ≡ ok account
unfolding authenticate Errors.found_or ConfigRepo.get_by_location_id
    ConfigRepo.get_payment_provider_config_by_location_id IntegrationRepo.get_by_id
    IntegrationRepo.get_integration_by_id Query.select_one Query.one Text.trim_space Table.find_row
authentic = refl

known : any_row (has_event_key 7 "ev") (recorded ∷ []) ≡ true
unfolding any_row
known = refl

still_known : any_row (has_event_key 7 "ev") after_authenticate.webhook_events ≡ true
unfolding any_row authenticate Errors.found_or ConfigRepo.get_by_location_id
    ConfigRepo.get_payment_provider_config_by_location_id IntegrationRepo.get_by_id
    IntegrationRepo.get_integration_by_id Query.select_one Query.one Text.trim_space Table.find_row
still_known = refl

no_refusal : after_authenticate.fault after_authenticate.ticks ≡ none
unfolding authenticate Errors.found_or ConfigRepo.get_by_location_id
    ConfigRepo.get_payment_provider_config_by_location_id IntegrationRepo.get_by_id
    IntegrationRepo.get_integration_by_id Query.select_one Query.one Text.trim_space Table.find_row
no_refusal = refl

payment_redelivered_example :
    ((payment payments_env "captured" system_configured).0
      ≡ ok (Http.text 500 "payment webhook processing failed"))
    × ((payment payments_env "captured" system_configured).1.transactions
        ≡ TransactionTests.database TransactionTests.with_payment)
payment_redelivered_example =
    payment_redelivered payments_env "captured" captured "{}" system_configured refl has_id
      (λ i. (authentic i, after_authenticate)) refl still_known no_refusal

update_client_ignores_name_example :
    (map Client.client_name
        (ClientService.update_client uuids "1" "New" (server configured)).1.clients
      ≡ "Shop" ∷ [])
    × (ClientService.update_client uuids "1" "New" (server configured)
        ≡ ClientService.update_client uuids "1" "Other" (server configured))
update_client_ignores_name_example =
    update_client_ignores_name uuids "1" "New" "Other" (server configured) refl refl

status_unspecified_example :
    ((sqlc_client_to_proto uuids business).status ≡ GrpcClientStatus.unspecified)
    × ((sqlc_integration_to_proto uuids account).status ≡ GrpcIntegrationStatus.unspecified)
    × (proto_status_to_sqlc_client_status (sqlc_client_to_proto uuids business).status
        ≡ ClientStatus.registered)
    × (proto_status_to_sqlc_integration_status (sqlc_integration_to_proto uuids account).status
        ≡ IntegrationStatus.created)
status_unspecified_example = status_unspecified uuids business account

get-register_all_example :
    get "highlevel" (register_all (provider ∷ renamed ∷ []) []) ≡ some renamed
get-register_all_example = get-register_all "highlevel" (provider ∷ renamed ∷ []) []

process_webhook_authentic_example :
    IsSigned codec "PEM" unsigned "{}"
    ⊎ (process_webhook verifying "highlevel" unsigned "{}" (server configured)
        ≡ (err err_invalid_signature, server configured))
process_webhook_authentic_example =
    process_webhook_authentic verifying codec "PEM" verifier unsigned "{}" (server configured)
      registered refl

unknown_id :
    grpc_failure uuids (Call.get_client "one") (server configured)
    ≡ some (status invalid_argument "invalid UUID format")
unfolding Grpc.grpc_failure ClientService.get_client Convert.parse_uuid
unknown_id = refl

grpc_reports_example : is_status (status invalid_argument "invalid UUID format") ≡ true
grpc_reports_example =
    grpc_reports uuids (Call.get_client "one") (server configured)
      (status invalid_argument "invalid UUID format") unknown_id
