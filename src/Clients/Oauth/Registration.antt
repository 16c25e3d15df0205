-- ===== src/Clients/Oauth/Registration.antt =====
-- The registration of RVPay as a payment provider: `RegisterProvider` of clients/oauth/service.go.
use rvpay_go.Base.{String, Bool, if◌then◌else◌}
use rvpay_go.Base.Text.{is_empty}
use rvpay_go.Base.Effect.{
  invalid_argument, failed_precondition, internal, Err, status, err_duplicate, Result, ok, err,
  Action, lift, raise, raise_if, or_raise, map_err, try, ◌>>=◌, ◌>>◌,
}
use rvpay_go.Clients.Model.{Uuid, PaymentProviderConfig, Db, outside}
use rvpay_go.Clients.Errors.{translate_error, translate, found_or}
use rvpay_go.Clients.Repo.Integrations as IntegrationRepo
use rvpay_go.Clients.Repo.Platforms as PlatformRepo
use rvpay_go.Clients.Repo.PaymentProviderConfigs as ConfigRepo
use rvpay_go.Clients.Repo.PaymentProviderConfigs.{PaymentProviderConfigParams}
use rvpay_go.Clients.Providers.{
  ProviderConfig, ProviderConfigSettings, PaymentProviderClient, already_there,
}
use rvpay_go.Clients.Oauth.{
  OauthEnv, provider_of, err_platform_not_found, err_integration_not_found,
}

abbrev pub err_missing_location_id : Err
err_missing_location_id = status invalid_argument "location ID is required"

abbrev pub err_missing_access_token : Err
err_missing_access_token = status invalid_argument "access token is required"

abbrev pub err_payment_provider_not_supported : Err
err_payment_provider_not_supported = status failed_precondition "payment provider not supported"

abbrev pub err_provider_association_failed : Err
err_provider_association_failed = status internal "provider association failed"

abbrev pub err_provider_config_failed : Err
err_provider_config_failed = status internal "provider configuration failed"

abbrev pub err_api_key_generation_failed : Err
err_api_key_generation_failed = status internal "provider API key generation failed"

-- The configuration that is sent to the provider.
abbrev pub wanted_config : ProviderConfigSettings → String → ProviderConfig
wanted_config s location = record {
  name = s.name;
  description = s.description;
  image_url = s.image_url;
  location_id = location;
  query_url = s.query_url;
  payments_url = s.payments_url;
  supports_subscription_schedule = Bool.false;
}

-- The configuration that is stored.
abbrev pub stored_config : Uuid → ProviderConfig → String → PaymentProviderConfigParams
stored_config integration config api_key = record {
  integration_id = integration;
  provider_name = config.name;
  provider_description = config.description;
  provider_image_url = config.image_url;
  location_id = config.location_id;
  query_url = config.query_url;
  payments_url = config.payments_url;
  supports_subscription_schedule = config.supports_subscription_schedule;
  provider_api_key = api_key;
}

-- The outcome of `CreateProviderAssociation`: an association that is there already will do.
unfoldable pub associated : Result (Unit {0}) → Action Db (Unit {0})
associated (ok _) = lift (ok tt)
associated (err e) =
    raise_if (if already_there e then Bool.false else Bool.true) err_provider_association_failed

-- The outcome of `CreateProviderConfig`: a configuration that may be there already is fetched.
unfoldable pub configured :
    PaymentProviderClient
    → (access_token location_id : String) → ProviderConfig
    → Result (Unit {0})
    → Action Db ProviderConfig
configured client access_token location_id config (ok _) = lift (ok config)
configured client access_token location_id config (err e) =
    if already_there e
    then map_err (λ _. err_provider_config_failed)
        (outside (client.fetch_provider_config access_token location_id))
    else raise err_provider_config_failed

-- The outcome of the repository's `Create`: a configuration that is there is updated.
unfoldable pub config_stored :
    PaymentProviderConfigParams → Result PaymentProviderConfig → Action Db (Unit {0})
config_stored arg (ok _) = lift (ok tt)
config_stored arg (err err_duplicate) = translate (ConfigRepo.update arg) >>= λ _. lift (ok tt)
config_stored arg (err e) = raise (translate_error e)

module _ (env : OauthEnv) where
  -- What the provider is told.
  unfoldable pub set_up_provider :
      PaymentProviderClient → (location_id access_token : String) → Action Db ProviderConfig
  unfolding associated configured
  set_up_provider client location_id access_token = do
    association ← try (outside (client.create_provider_association access_token location_id))
    associated association
    let config = wanted_config env.provider_config location_id
    created ← try (outside (client.create_provider_config access_token config))
    configured client access_token location_id config created

  -- What is stored.
  unfoldable pub store_config : Uuid → ProviderConfig → Action Db (Unit {0})
  unfolding config_stored
  store_config integration_id config = do
    api_key ← map_err (λ _. err_api_key_generation_failed) (outside env.generate_api_key)
    let arg = stored_config integration_id config api_key
    stored ← try (ConfigRepo.create arg)
    config_stored arg stored

  unfoldable pub payment_client_of : Uuid → Action Db PaymentProviderClient
  payment_client_of integration_id = do
    integration ← found_or err_integration_not_found (IntegrationRepo.get_by_id integration_id)
    platform ← found_or err_platform_not_found (PlatformRepo.get_by_id integration.platform_id)
    provider ← provider_of env platform.slug
    or_raise provider.payment_provider err_payment_provider_not_supported

  unfoldable pub register_provider :
      Uuid → (location_id access_token : String) → Action Db (Unit {0})
  unfolding payment_client_of set_up_provider store_config
  register_provider integration_id location_id access_token = do
    raise_if (is_empty location_id) err_missing_location_id
    raise_if (is_empty access_token) err_missing_access_token
    client ← payment_client_of integration_id
    config ← set_up_provider client location_id access_token
    store_config integration_id config
