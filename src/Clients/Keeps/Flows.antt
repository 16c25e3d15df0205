-- ===== src/Clients/Keeps/Flows.antt =====
-- The flows of clients/oauth against a property of the tables.
use rvpay_go.Base.{String}
use rvpay_go.Base.Effect.{Result, ok, err, err_not_found, err_duplicate, Action, raise}
use rvpay_go.Clients.Model.{
  Uuid, IntegrationStatus, Integration, OauthState, PaymentProviderConfig, Tables, Db,
}
use rvpay_go.Clients.Keeps.{Keeps, keeps_rules}
use rvpay_go.Clients.Keeps.Repo.{
  ConfigSteady, Steady, config_changed-Keeps, config_created-Keeps, integration_changed-Keeps,
  integration_created-Keeps, reads_rules, state_consumed-Keeps, state_created-Keeps,
  token_changed-Keeps, token_created-Keeps,
}
use rvpay_go.Clients.Errors.{translate}
use rvpay_go.Clients.Repo.Integrations as IntegrationRepo
use rvpay_go.Clients.Oauth
use rvpay_go.Clients.Oauth.{OauthEnv}
use rvpay_go.Clients.Oauth.Registration
use rvpay_go.Clients.Oauth.Tokens
use rvpay_go.Clients.Oauth.Callback
use rvpay_go.Clients.Providers.{ProviderConfig, PaymentProviderClient, Provider, TokenResponse}
use rvpay_go.Clients.Repo.PaymentProviderConfigs.{PaymentProviderConfigParams}

module _ {P : Tables → Type 0} where
  active_integration-Keeps : (id : Uuid) → Keeps Db.tables P (Tokens.active_integration id)
  unfolding Tokens.active_integration
  active_integration-Keeps id = search reads_rules depth 20

  associated-Keeps : (r : Result (Unit {0})) → Keeps Db.tables P (Registration.associated r)
  unfolding Registration.associated
  associated-Keeps (ok _) = search keeps_rules
  associated-Keeps (err e) = search keeps_rules

  configured-Keeps :
      (client : PaymentProviderClient) (token location : String) (config : ProviderConfig)
      (r : Result (Unit {0}))
      → Keeps Db.tables P (Registration.configured client token location config r)
  unfolding Registration.configured
  configured-Keeps client token location config (ok _) = search keeps_rules
  configured-Keeps client token location config (err e) = search keeps_rules depth 20

  consumed_state-Keeps :
      (state : String) (r : Result OauthState) → Keeps Db.tables P (Callback.consumed_state state r)
  unfolding Callback.consumed_state
  consumed_state-Keeps state (ok _) = search keeps_rules
  consumed_state-Keeps state (err err_not_found) = search reads_rules depth 20
  consumed_state-Keeps state (err _) = search keeps_rules

  location_integration-Keeps :
      (location : String) (r : Result Integration)
      → Keeps Db.tables P (Callback.location_integration location r)
  unfolding Callback.location_integration
  location_integration-Keeps location (ok _) = search keeps_rules
  location_integration-Keeps location (err err_not_found) = search reads_rules depth 20
  location_integration-Keeps location (err _) = search keeps_rules

module _ {P : Tables → Type 0} (env : OauthEnv) where
  enabled_platform-Keeps : (id : Uuid) → Keeps Db.tables P (Oauth.enabled_platform env id)
  unfolding Oauth.enabled_platform
  enabled_platform-Keeps id = search reads_rules depth 20

  active_client-Keeps : (id : Uuid) → Keeps Db.tables P (Oauth.active_client env id)
  unfolding Oauth.active_client
  active_client-Keeps id = search reads_rules depth 20

  provider_of-Keeps : (slug : String) → Keeps Db.tables P (Oauth.provider_of env slug)
  unfolding Oauth.provider_of
  provider_of-Keeps slug = search keeps_rules

  pub validate_token-Keeps : (id : Uuid) → Keeps Db.tables P (Tokens.validate_token env id)
  unfolding Tokens.validate_token Tokens.ask_provider
  validate_token-Keeps id =
      search (reads_rules, active_integration-Keeps, provider_of-Keeps) depth 30 fits 3000

  pub authorization_url-Keeps :
      (client platform : Uuid) (state : String)
      → Keeps Db.tables P (Oauth.authorization_url env client platform state)
  unfolding Oauth.authorization_url
  authorization_url-Keeps client platform state =
      search (keeps_rules, enabled_platform-Keeps, provider_of-Keeps) depth 20

  module _ (steady : ConfigSteady P) where
    config_stored-Keeps :
        (arg : PaymentProviderConfigParams) (r : Result PaymentProviderConfig)
        → Keeps Db.tables P (Registration.config_stored arg r)
    unfolding Registration.config_stored
    config_stored-Keeps arg (ok _) = search keeps_rules
    config_stored-Keeps arg (err err_duplicate) =
        search (keeps_rules, config_changed-Keeps steady) depth 20
    config_stored-Keeps arg (err _) = search keeps_rules

    store_config-Keeps :
        (id : Uuid) (config : ProviderConfig)
        → Keeps Db.tables P (Registration.store_config env id config)
    unfolding Registration.store_config
    store_config-Keeps id config =
        search (keeps_rules, config_created-Keeps steady, config_stored-Keeps) depth 20

    set_up_provider-Keeps :
        (client : PaymentProviderClient) (location token : String)
        → Keeps Db.tables P (Registration.set_up_provider env client location token)
    unfolding Registration.set_up_provider
    set_up_provider-Keeps client location token =
        search (keeps_rules, associated-Keeps, configured-Keeps) depth 20

    payment_client_of-Keeps :
        (id : Uuid) → Keeps Db.tables P (Registration.payment_client_of env id)
    unfolding Registration.payment_client_of
    payment_client_of-Keeps id = search (reads_rules, provider_of-Keeps) depth 20

    pub register_provider-Keeps :
        (id : Uuid) (location token : String)
        → Keeps Db.tables P (Registration.register_provider env id location token)
    unfolding Registration.register_provider
    register_provider-Keeps id location token =
        search (keeps_rules, payment_client_of-Keeps, set_up_provider-Keeps, store_config-Keeps)
          depth 30 fits 3000

  module _ (steady : Steady P) where
    pub begin_authorization-Keeps :
        (client platform : Uuid) → Keeps Db.tables P (Oauth.begin_authorization env client platform)
    unfolding Oauth.begin_authorization
    begin_authorization-Keeps client platform =
        search
          (
            keeps_rules,
            enabled_platform-Keeps,
            active_client-Keeps,
            provider_of-Keeps,
            state_created-Keeps steady,
          )
          depth 40 fits 3000

    pub refresh_access_token-Keeps :
        (id : Uuid) → Keeps Db.tables P (Tokens.refresh_access_token env id)
    unfolding Tokens.refresh_access_token
    refresh_access_token-Keeps id =
        search
          (reads_rules, active_integration-Keeps, provider_of-Keeps, token_changed-Keeps steady)
          depth 40 fits 3000

    install-Keeps :
        (client platform : Uuid) (user : String) (r : Result Integration)
        → Keeps Db.tables P (Callback.install client platform user r)
    unfolding Callback.install
    install-Keeps client platform user (ok i) = known i.status
      where
        known :
            (status : IntegrationStatus)
            → Keeps Db.tables P (elim status as (λ _. Action Db Integration) [
              | IntegrationStatus.created ↦
                  translate (IntegrationRepo.update_status i.id IntegrationStatus.active)
              | _ ↦ raise Callback.err_integration_already_exists
            ])
        known IntegrationStatus.created =
            search (keeps_rules, integration_changed-Keeps steady) depth 20
        known IntegrationStatus.oauth_pending = search keeps_rules
        known IntegrationStatus.active = search keeps_rules
        known IntegrationStatus.revoked = search keeps_rules
    install-Keeps client platform user (err err_not_found) =
        search (keeps_rules, integration_created-Keeps steady) depth 20
    install-Keeps client platform user (err _) = search keeps_rules

    persist-Keeps :
        (client platform : Uuid) (token : TokenResponse) (user : String)
        → Keeps Db.tables P (Callback.persist env client platform token user)
    unfolding Callback.persist Callback.store_token
    persist-Keeps client platform token user =
        search (reads_rules, install-Keeps, token_created-Keeps steady) depth 30 fits 3000

    follow_up-Keeps :
        (provider : Provider) (token : TokenResponse) (result : Callback.CallbackResult)
        → Keeps Db.tables P (Callback.follow_up env provider token result)
    unfolding Callback.follow_up
    follow_up-Keeps provider token result =
        search (keeps_rules, register_provider-Keeps steady.configs) depth 20

    pub process_callback-Keeps :
        (client platform : Uuid) (code : String)
        → Keeps Db.tables P (Callback.process_callback env client platform code)
    unfolding Callback.process_callback Callback.complete
    process_callback-Keeps client platform code =
        search
          (
            keeps_rules, enabled_platform-Keeps, active_client-Keeps, provider_of-Keeps,
            persist-Keeps, follow_up-Keeps,
          )
          depth 40 fits 4000

    with_state-Keeps :
        (code state : String)
        → Keeps Db.tables P (Callback.handle_callback_with_state env code state)
    unfolding Callback.handle_callback_with_state
    with_state-Keeps code state =
        search
          (keeps_rules, state_consumed-Keeps steady, consumed_state-Keeps, process_callback-Keeps)
          depth 30 fits 3000

    by_location-Keeps :
        (code : String) → Keeps Db.tables P (Callback.handle_callback_by_location env code)
    unfolding Callback.handle_callback_by_location
    by_location-Keeps code =
        search (reads_rules, provider_of-Keeps, location_integration-Keeps, process_callback-Keeps)
          depth 40 fits 4000

    pub handle_callback-Keeps :
        (code state : String) → Keeps Db.tables P (Callback.handle_callback env code state)
    unfolding Callback.handle_callback
    handle_callback-Keeps code state =
        search (keeps_rules, with_state-Keeps, by_location-Keeps) depth 20
