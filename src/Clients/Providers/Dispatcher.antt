-- ===== src/Clients/Providers/Dispatcher.antt =====
-- The events of HighLevel and what they set off: `HighLevelWebhookDispatcher` of
-- clients/providers/highlevel_webhook.go. The repositories are there (clients/cmd/grpc-service/main.go
-- sets them).
use rvpay_go.Base.{String, Bool, ◌||◌, str_eq, if◌then◌else◌}
use rvpay_go.Base.Text.{is_empty}
use rvpay_go.Base.Effect.{
  Err, err_not_found, err_duplicate, other, Result, ok, err, Action, lift, raise, raise_if, map_err,
  try, ◌>>=◌, ◌>>◌,
}
use rvpay_go.Clients.Model.{Uuid, Integration, PaymentProviderConfig, Db}
use rvpay_go.Clients.Repo.Integrations as IntegrationRepo
use rvpay_go.Clients.Repo.PaymentProviderConfigs as ConfigRepo
use rvpay_go.Clients.Repo.PaymentProviderConfigs.{PaymentProviderConfigParams}
use rvpay_go.Clients.Providers.{ProviderEvent, ProviderConfigSettings}

-- The error texts stand for `fmt.Errorf` with the wrapped error left out.
unfoldable pub no_integration_error : Err → Err
no_integration_error err_not_found = other "no integration found for GHL locationId"
no_integration_error _ = other "resolve payment provider config for locationId"

unfoldable pub lost_integration_error : Err → Err
lost_integration_error err_not_found = other "integration not found for GHL locationId"
lost_integration_error _ = other "resolve integration for locationId"

-- What follows the lookup by the external account: `ErrNotFound` leads to the configurations.
unfoldable pub resolve_by_config : String → Result Integration → Action Db Integration
resolve_by_config location (ok i) = lift (ok i)
resolve_by_config location (err err_not_found) = do
  config ← map_err no_integration_error (ConfigRepo.get_by_location_id location)
  map_err lost_integration_error (IntegrationRepo.get_by_id config.integration_id)
resolve_by_config location (err _) = raise (other "resolve integration by external account id")

unfoldable pub resolve_installed : String → Action Db Integration
unfolding resolve_by_config
resolve_installed location =
    try (IntegrationRepo.get_by_external_account_id location) >>= resolve_by_config location

abbrev pub installed_config : ProviderConfigSettings → Uuid → String → PaymentProviderConfigParams
installed_config s integration location = record {
  integration_id = integration;
  provider_name = s.name;
  provider_description = s.description;
  provider_image_url = s.image_url;
  location_id = location;
  query_url = s.query_url;
  payments_url = s.payments_url;
  supports_subscription_schedule = Bool.false;
  provider_api_key = "";
}

-- The outcome of `Create`: a configuration that is there by now will do.
unfoldable pub config_created : Result PaymentProviderConfig → Action Db (Unit {0})
config_created (ok _) = lift (ok tt)
config_created (err err_duplicate) = lift (ok tt)
config_created (err _) = raise (other "create payment provider config for integration")

-- The outcome of the lookup of the integration's configuration.
unfoldable pub create_if_missing :
    ProviderConfigSettings → Uuid → String → Result PaymentProviderConfig → Action Db (Unit {0})
unfolding config_created
create_if_missing s integration location (ok _) = lift (ok tt)
create_if_missing s integration location (err err_not_found) =
    try (ConfigRepo.create (installed_config s integration location)) >>= config_created
create_if_missing s integration location (err _) =
    raise (other "get payment provider config for integration")

unfoldable pub handle_integration_installed :
    ProviderConfigSettings → ProviderEvent → Action Db (Unit {0})
unfolding create_if_missing
handle_integration_installed s event = do
  raise_if (is_empty event.location_id) (other "INSTALL event missing locationId")
  integration ← resolve_installed event.location_id
  found ← try (ConfigRepo.get_by_integration_id integration.id)
  create_if_missing s integration.id event.location_id found

abbrev pub is_install : String → Bool
is_install event_type = str_eq event_type "INSTALL" || str_eq event_type "integration.installed"

-- The other handlers only log.
unfoldable pub dispatch : ProviderConfigSettings → ProviderEvent → Action Db (Unit {0})
dispatch s event =
    if is_install event.event_type then handle_integration_installed s event else lift (ok tt)
