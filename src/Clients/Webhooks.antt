-- ===== src/Clients/Webhooks.antt =====
-- clients/webhooks/service.go: subscriptions, and the processing of deliveries. The Go `nil` of
-- `provider.WebhookProvider()` and of the dispatcher is `none`.
pub mod Subscriptions
pub mod Signed
use rvpay_go.Base.{String, not, ◌&&◌, Option, none, some, str_eq, if◌then◌else◌}
use rvpay_go.Base.Text.{is_empty}
use rvpay_go.Base.Effect.{
  invalid_argument, not_found, failed_precondition, Err, status, err_not_found, Result, ok, err,
  Action, lift, raise, raise_if, or_raise, map_err, try, ◌>>=◌, ◌>>◌,
}
use rvpay_go.Clients.Model.{Uuid, WebhookSubscriptionStatus, Integration, Db, now, outside}
use rvpay_go.Clients.Errors.{translate_error, translate, found_or}
use rvpay_go.Clients.Repo.Integrations as IntegrationRepo
use rvpay_go.Clients.Repo.Integrations.{integration_is_active}
use rvpay_go.Clients.Repo.Platforms as PlatformRepo
use rvpay_go.Clients.Repo.WebhookSubscriptions as WebhookRepo
use rvpay_go.Clients.Repo.PaymentProviderConfigs as ConfigRepo
use rvpay_go.Clients.Events.{record_event}
use rvpay_go.Clients.Providers.{
  Headers, ProviderEvent, WebhookProvider, WebhookDispatcher, Registry, get,
}
use rvpay_go.Clients.Providers.Dispatcher.{is_install}

abbrev pub err_webhook_not_found : Err
err_webhook_not_found = status not_found "webhook not found"

abbrev pub err_invalid_signature : Err
err_invalid_signature = status invalid_argument "invalid webhook signature"

abbrev pub err_invalid_payload : Err
err_invalid_payload = status invalid_argument "invalid webhook payload"

abbrev pub err_provider_not_supported : Err
err_provider_not_supported = status failed_precondition "provider not supported"

abbrev pub err_integration_not_found : Err
err_integration_not_found = status not_found "integration not found"

abbrev pub err_integration_not_active : Err
err_integration_not_active = status failed_precondition "integration is not active"

abbrev pub err_platform_not_found : Err
err_platform_not_found = status not_found "platform not found"

-- The service's fields, and `uuid.UUID.String`, `uuid.Parse` and `json.Marshal`.
pub record WebhookEnv : Type 0 where
  pub registry : Registry
  pub dispatcher : Option WebhookDispatcher
  pub uuid_string : Uuid → String
  pub parse_uuid : String → Option Uuid
  pub marshal : String → Option String

module _ (env : WebhookEnv) where
  unfoldable pub webhook_provider_of : String → Action Db WebhookProvider
  webhook_provider_of slug = do
    provider ← or_raise (get slug env.registry) err_provider_not_supported
    or_raise provider.webhook_provider err_provider_not_supported

  -- The webhook provider of an integration's platform.
  unfoldable pub integration_provider : Integration → Action Db WebhookProvider
  unfolding webhook_provider_of
  integration_provider integration = do
    platform ← found_or err_platform_not_found (PlatformRepo.get_by_id integration.platform_id)
    webhook_provider_of platform.slug

  -- The last part of `RegisterWebhook`.
  unfoldable pub subscribe : Uuid → String → WebhookProvider → Action Db (Unit {0})
  subscribe integration_id callback_url provider = do
    outside (provider.register_webhook (env.uuid_string integration_id) callback_url)
    subscription ← translate (
        WebhookRepo.create integration_id callback_url "highlevel" WebhookSubscriptionStatus.active)
    lift (ok tt)

  unfoldable pub register_webhook : Uuid → String → Action Db (Unit {0})
  unfolding integration_provider subscribe
  register_webhook integration_id callback_url = do
    integration ← found_or err_integration_not_found (IntegrationRepo.get_by_id integration_id)
    raise_if (not (integration_is_active integration)) err_integration_not_active
    provider ← integration_provider integration
    subscribe integration_id callback_url provider

  unfoldable pub unregister_webhook : Uuid → Action Db (Unit {0})
  unfolding integration_provider
  unregister_webhook integration_id = do
    webhook ←
        found_or err_webhook_not_found
          (WebhookRepo.get_by_integration_id_and_endpoint integration_id "")
    integration ← found_or err_integration_not_found (IntegrationRepo.get_by_id integration_id)
    provider ← integration_provider integration
    outside (provider.unregister_webhook (env.uuid_string integration_id))
    translate (WebhookRepo.delete webhook.id)

  -- The integration of an installation: what follows the lookup by the external account.
  unfoldable pub install_target : String → Result Integration → Action Db Uuid
  install_target location (ok i) = lift (ok i.id)
  install_target location (err err_not_found) = do
    config ← found_or err_integration_not_found (ConfigRepo.get_by_location_id location)
    lift (ok config.integration_id)
  install_target location (err e) = raise (translate_error e)

  unfoldable pub event_target : String → ProviderEvent → Action Db Uuid
  unfolding install_target
  event_target provider_id event =
      if not (str_eq provider_id "highlevel" && not (is_empty event.location_id))
      then or_raise (env.parse_uuid event.integration_id) err_invalid_payload
      else if is_install event.event_type
      then (try (IntegrationRepo.get_by_external_account_id event.location_id)
          >>= install_target event.location_id)
      else (found_or err_integration_not_found (ConfigRepo.get_by_location_id event.location_id)
          >>= λ config. lift (ok config.integration_id))

  -- `if s.dispatcher != nil { err = s.dispatcher.Dispatch(ctx, event); … }`.
  unfoldable pub run_dispatcher : ProviderEvent → Action Db (Unit {0})
  run_dispatcher event = elim env.dispatcher [ none ↦ lift (ok tt) | some d ↦ d event ]

  -- The part of `ProcessWebhook` for the events that need a subscription.
  unfoldable pub deliver : Uuid → ProviderEvent → Action Db (Unit {0})
  unfolding run_dispatcher
  deliver integration_id event = do
    webhook ←
        found_or err_webhook_not_found
          (WebhookRepo.get_by_integration_id_and_endpoint integration_id "")
    updated ← translate (λ db. WebhookRepo.update_last_delivery webhook.id (some (now db)) db)
    run_dispatcher event

  -- The part of `ProcessWebhook` after the event has been recorded.
  unfoldable pub act_on : String → Uuid → ProviderEvent → Action Db (Unit {0})
  unfolding run_dispatcher deliver
  act_on provider_id integration_id event =
      if str_eq provider_id "highlevel" && is_install event.event_type
      then run_dispatcher event
      else deliver integration_id event

  -- The part of `ProcessWebhook` from the parsed event on.
  unfoldable pub process_event : String → ProviderEvent → Action Db (Unit {0})
  unfolding event_target act_on
  process_event provider_id event = do
    integration_id ← event_target provider_id event
    payload ← or_raise (env.marshal event.payload) err_invalid_payload
    record_event integration_id event.provider_event_id event.event_type payload
    act_on provider_id integration_id event

  unfoldable pub process_webhook : String → Headers → String → Action Db (Unit {0})
  unfolding webhook_provider_of process_event
  process_webhook provider_id headers body = do
    provider ← webhook_provider_of provider_id
    map_err (λ _. err_invalid_signature) (lift (provider.verify_request headers body))
    event ← map_err (λ _. err_invalid_payload) (lift (provider.parse_event body))
    process_event provider_id event
