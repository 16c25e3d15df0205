-- ===== src/Clients/Keeps/Repo.antt =====
-- The statements of clients/db as the services use them, against a property of the tables.
mod Statements
pub use rvpay_go.Clients.Keeps.Repo.Statements.{
  ConfigSteady, Steady, AllowsRemoval, AllowsUninstall,
}
use rvpay_go.Base.{
  ℕ, suc, String, Bool, Bool-cases, inl, inr, Option, none, some, ◌++◌, ◌∷◌, [], ◌≡◌, refl, ◌==◌,
  if◌then◌else◌,
}
use rvpay_go.Base.Table.{find_row, update_rows, delete_rows, any_row}
use rvpay_go.Base.Effect.{ok, ◌>>=◌}
use rvpay_go.Clients.Model.{
  Uuid, Time, ClientStatus, IntegrationStatus, WebhookSubscriptionStatus, Client, Platform,
  Integration, OauthState, OauthToken, WebhookSubscription, WebhookEvent, PaymentProviderConfig,
  Tables, Db, now, draw_uuid,
}
use rvpay_go.Clients.Keeps.{
  Keeps, keeps_rules, Keeps-select_one, Keeps-select_page, Keeps-insert_into, Keeps-update_one,
  Keeps-delete_from, Keeps-delete_row, Keeps-map_err, Keeps-bind, Keeps-lift, Keeps-statement,
}
use rvpay_go.Clients.Repo.Clients as ClientRepo
use rvpay_go.Clients.Repo.Clients.{clients_table, client_refusal, set_client_status}
use rvpay_go.Clients.Repo.Platforms as PlatformRepo
use rvpay_go.Clients.Repo.Platforms.{platforms_table, platform_update_refusal, set_platform}
use rvpay_go.Clients.Repo.Integrations as IntegrationRepo
use rvpay_go.Clients.Repo.Integrations.{
  integrations_table, integration_refusal, set_integration_status, drop_dependents, new_integration,
}
use rvpay_go.Clients.Repo.OauthStates as OauthStateRepo
use rvpay_go.Clients.Repo.OauthStates.{
  oauth_states_table, oauth_state_refusal, new_oauth_state, is_consumable, set_consumed,
}
use rvpay_go.Clients.Repo.OauthTokens as OauthTokenRepo
use rvpay_go.Clients.Repo.OauthTokens.{
  oauth_tokens_table, oauth_token_refusal, new_oauth_token, set_oauth_token,
}
use rvpay_go.Clients.Repo.WebhookSubscriptions as WebhookRepo
use rvpay_go.Clients.Repo.WebhookSubscriptions.{
  webhook_subscriptions_table, webhook_subscription_refusal, new_webhook_subscription,
  set_last_delivery,
}
use rvpay_go.Clients.Repo.PaymentProviderConfigs as ConfigRepo
use rvpay_go.Clients.Repo.PaymentProviderConfigs.{
  payment_provider_configs_table, PaymentProviderConfigParams, payment_provider_config_refusal,
  new_config, set_config,
}
use rvpay_go.Clients.Events
use rvpay_go.Clients.Events.{
  new_event, has_event_key, insert_event, create_webhook_event, record_event,
}

no_rows_left :
    (b : Bool) → ◌≡◌ {A = Option String} (if b then some "23503" else none) none → b ≡ Bool.false
no_rows_left Bool.true e = cc
no_rows_left Bool.false e = refl

module _ {P : Tables → Type 0} where
  pub client_by_id-Keeps : (id : Uuid) → Keeps Db.tables P (ClientRepo.get_by_id id)
  unfolding ClientRepo.get_by_id ClientRepo.get_client_by_id
  client_by_id-Keeps id = Keeps-map_err _ _ (Keeps-select_one _ _)

  pub client_by_name-Keeps : (name : String) → Keeps Db.tables P (ClientRepo.get_by_name name)
  unfolding ClientRepo.get_by_name ClientRepo.get_client_by_name
  client_by_name-Keeps name = Keeps-map_err _ _ (Keeps-select_one _ _)

  pub platform_by_id-Keeps : (id : Uuid) → Keeps Db.tables P (PlatformRepo.get_by_id id)
  unfolding PlatformRepo.get_by_id PlatformRepo.get_platform_by_id
  platform_by_id-Keeps id = Keeps-map_err _ _ (Keeps-select_one _ _)

  pub integration_by_id-Keeps : (id : Uuid) → Keeps Db.tables P (IntegrationRepo.get_by_id id)
  unfolding IntegrationRepo.get_by_id IntegrationRepo.get_integration_by_id
  integration_by_id-Keeps id = Keeps-map_err _ _ (Keeps-select_one _ _)

  pub integration_by_client_and_platform-Keeps :
      (c p : Uuid) → Keeps Db.tables P (IntegrationRepo.get_by_client_and_platform c p)
  unfolding IntegrationRepo.get_by_client_and_platform
      IntegrationRepo.get_integration_by_client_and_platform
  integration_by_client_and_platform-Keeps c p = Keeps-map_err _ _ (Keeps-select_one _ _)

  pub integration_by_external_account_id-Keeps :
      (account : String) → Keeps Db.tables P (IntegrationRepo.get_by_external_account_id account)
  unfolding IntegrationRepo.get_by_external_account_id
      IntegrationRepo.get_integration_by_external_account_id
  integration_by_external_account_id-Keeps account = Keeps-map_err _ _ (Keeps-select_one _ _)

  pub state_by_state-Keeps :
      (state : String) → Keeps Db.tables P (OauthStateRepo.get_by_state state)
  unfolding OauthStateRepo.get_by_state OauthStateRepo.get_oauth_state_by_state
  state_by_state-Keeps state = Keeps-map_err _ _ (Keeps-select_one _ _)

  pub token_by_integration_id-Keeps :
      (id : Uuid) → Keeps Db.tables P (OauthTokenRepo.get_by_integration_id id)
  unfolding OauthTokenRepo.get_by_integration_id OauthTokenRepo.get_oauth_token_by_integration_id
  token_by_integration_id-Keeps id = Keeps-map_err _ _ (Keeps-select_one _ _)

  pub config_by_integration_id-Keeps :
      (id : Uuid) → Keeps Db.tables P (ConfigRepo.get_by_integration_id id)
  unfolding ConfigRepo.get_by_integration_id
      ConfigRepo.get_payment_provider_config_by_integration_id
  config_by_integration_id-Keeps id = Keeps-map_err _ _ (Keeps-select_one _ _)

  pub config_by_location_id-Keeps :
      (location : String) → Keeps Db.tables P (ConfigRepo.get_by_location_id location)
  unfolding ConfigRepo.get_by_location_id ConfigRepo.get_payment_provider_config_by_location_id
  config_by_location_id-Keeps location = Keeps-map_err _ _ (Keeps-select_one _ _)

  pub config_by_api_key-Keeps :
      (api_key : String) → Keeps Db.tables P (ConfigRepo.get_by_api_key api_key)
  unfolding ConfigRepo.get_by_api_key ConfigRepo.get_payment_provider_config_by_api_key
  config_by_api_key-Keeps api_key = Keeps-map_err _ _ (Keeps-select_one _ _)

  pub subscription_by_integration_id_and_endpoint-Keeps :
      (id : Uuid) (endpoint : String)
      → Keeps Db.tables P (WebhookRepo.get_by_integration_id_and_endpoint id endpoint)
  unfolding WebhookRepo.get_by_integration_id_and_endpoint
      WebhookRepo.get_webhook_subscription_by_integration_id_and_endpoint
  subscription_by_integration_id_and_endpoint-Keeps id endpoint =
      Keeps-map_err _ _ (Keeps-select_one _ _)

  pub clients_listed-Keeps : (limit offset : ℕ) → Keeps Db.tables P (ClientRepo.list limit offset)
  unfolding ClientRepo.list ClientRepo.list_clients
  clients_listed-Keeps limit offset = Keeps-map_err _ _ (Keeps-select_page _ _ _ limit offset)

  pub platforms_listed-Keeps :
      (limit offset : ℕ) → Keeps Db.tables P (PlatformRepo.list limit offset)
  unfolding PlatformRepo.list PlatformRepo.list_platforms
  platforms_listed-Keeps limit offset = Keeps-map_err _ _ (Keeps-select_page _ _ _ limit offset)

  pub integrations_listed-Keeps :
      (client : Uuid) (limit offset : ℕ)
      → Keeps Db.tables P (IntegrationRepo.list_by_client client limit offset)
  unfolding IntegrationRepo.list_by_client IntegrationRepo.list_integrations_by_client
  integrations_listed-Keeps client limit offset =
      Keeps-map_err _ _ (Keeps-select_page _ _ _ limit offset)

  pub client_deleted-Keeps :
      AllowsRemoval P → (id : Uuid) → Keeps Db.tables P (ClientRepo.delete id)
  unfolding ClientRepo.delete ClientRepo.delete_client
  client_deleted-Keeps removal id =
      Keeps-delete_row _
        (Keeps-delete_from _ _ _ _ (λ now t r h. removal id t (no_rows_left _ r) h))

  module _ (steady : ConfigSteady P) where
    pub config_created-Keeps :
        (arg : PaymentProviderConfigParams) → Keeps Db.tables P (ConfigRepo.create arg)
    unfolding ConfigRepo.create ConfigRepo.create_payment_provider_config
    config_created-Keeps arg =
        Keeps-map_err _ _ (Keeps-insert_into _ _ _ (λ id now t r h. steady.config_added _ t r h))

    pub config_changed-Keeps :
        (arg : PaymentProviderConfigParams) → Keeps Db.tables P (ConfigRepo.update arg)
    unfolding ConfigRepo.update ConfigRepo.update_payment_provider_config
    config_changed-Keeps arg =
        Keeps-map_err _ _
          (Keeps-update_one _ _ _ _ (λ now r t e n h. steady.config_changed arg now t h))

  module _ (steady : Steady P) where
    pub client_created-Keeps :
        (name : String) (to : ClientStatus) → Keeps Db.tables P (ClientRepo.create name to)
    unfolding ClientRepo.create ClientRepo.create_client
    client_created-Keeps name to =
        Keeps-map_err _ _ (Keeps-insert_into _ _ _ (λ id now t r h. steady.client_added _ t r h))

    pub client_changed-Keeps :
        (id : Uuid) (to : ClientStatus) → Keeps Db.tables P (ClientRepo.update_status id to)
    unfolding ClientRepo.update_status ClientRepo.update_client_status
    client_changed-Keeps id to =
        Keeps-map_err _ _
          (Keeps-update_one _ _ _ _ (λ now r t e n h. steady.client_changed id to now t h))

    pub platform_changed-Keeps :
        (id : Uuid) (name display_name slug : String) (enabled oauth webhook : Bool)
        → Keeps Db.tables P (PlatformRepo.update id name display_name slug enabled oauth webhook)
    unfolding PlatformRepo.update PlatformRepo.update_platform
    platform_changed-Keeps id name display_name slug enabled oauth webhook = Keeps-map_err _ _ (
        Keeps-update_one _ _ _ _ (λ now r t e n h.
          steady.platform_changed id name display_name slug enabled oauth webhook now r t e n h))

    pub integration_created-Keeps :
        (client platform : Uuid) (account : String) (to : IntegrationStatus)
        → Keeps Db.tables P (IntegrationRepo.create client platform account to)
    unfolding IntegrationRepo.create IntegrationRepo.create_integration
    integration_created-Keeps client platform account to =
        Keeps-map_err _ _
          (Keeps-insert_into _ _ _ (λ id now t r h. steady.integration_added _ t r h))

    pub integration_changed-Keeps :
        (id : Uuid) (to : IntegrationStatus)
        → Keeps Db.tables P (IntegrationRepo.update_status id to)
    unfolding IntegrationRepo.update_status IntegrationRepo.update_integration_status
    integration_changed-Keeps id to =
        Keeps-map_err _ _
          (Keeps-update_one _ _ _ _ (λ now r t e n h. steady.integration_changed id to now t h))

    pub integration_deleted-Keeps :
        AllowsUninstall P → (id : Uuid) → Keeps Db.tables P (IntegrationRepo.delete id)
    unfolding IntegrationRepo.delete IntegrationRepo.delete_integration
    integration_deleted-Keeps removal id =
        Keeps-delete_row _ (Keeps-delete_from _ _ _ _ (λ now t r h. removal id t h))

    pub state_created-Keeps :
        (state : String) (client platform : Uuid) (expires_at : Time)
        → Keeps Db.tables P (OauthStateRepo.create state client platform expires_at)
    unfolding OauthStateRepo.create OauthStateRepo.create_oauth_state
    state_created-Keeps state client platform expires_at =
        Keeps-map_err _ _
          (Keeps-insert_into _ _ _ (λ id now t r h. steady.oauth_state_added _ t r h))

    pub state_consumed-Keeps : (state : String) → Keeps Db.tables P (OauthStateRepo.consume state)
    unfolding OauthStateRepo.consume OauthStateRepo.consume_oauth_state
    state_consumed-Keeps state =
        Keeps-map_err _ _
          (Keeps-update_one _ _ _ _ (λ now r t e n h. steady.oauth_state_consumed state now t h))

    pub token_created-Keeps :
        (integration : Uuid) (access refresh : String) (expires_at : Time)
        (scope token_type : String)
        → Keeps Db.tables P
            (OauthTokenRepo.create integration access refresh expires_at scope token_type)
    unfolding OauthTokenRepo.create OauthTokenRepo.create_oauth_token
    token_created-Keeps integration access refresh expires_at scope token_type =
        Keeps-map_err _ _
          (Keeps-insert_into _ _ _ (λ id now t r h. steady.oauth_token_added _ t r h))

    pub token_changed-Keeps :
        (id : Uuid) (access refresh : String) (expires_at : Time) (scope token_type : String)
        → Keeps Db.tables P (OauthTokenRepo.update id access refresh expires_at scope token_type)
    unfolding OauthTokenRepo.update OauthTokenRepo.update_oauth_token
    token_changed-Keeps id access refresh expires_at scope token_type = Keeps-map_err _ _ (
        Keeps-update_one _ _ _ _ (λ now r t e n h.
          steady.oauth_token_changed id access refresh expires_at scope token_type now t h))

    pub subscription_created-Keeps :
        (integration : Uuid) (endpoint secret : String) (to : WebhookSubscriptionStatus)
        → Keeps Db.tables P (WebhookRepo.create integration endpoint secret to)
    unfolding WebhookRepo.create WebhookRepo.create_webhook_subscription
    subscription_created-Keeps integration endpoint secret to =
        Keeps-map_err _ _
          (Keeps-insert_into _ _ _ (λ id now t r h. steady.webhook_subscription_added _ t r h))

    pub subscription_changed-Keeps :
        (id : Uuid) (last : Option Time)
        → Keeps Db.tables P (WebhookRepo.update_last_delivery id last)
    unfolding WebhookRepo.update_last_delivery WebhookRepo.update_webhook_subscription_last_delivery
    subscription_changed-Keeps id last = Keeps-map_err _ _ (
        Keeps-update_one _ _ _ _
          (λ now r t e n h. steady.webhook_subscription_changed id last now t h))

    pub subscription_deleted-Keeps : (id : Uuid) → Keeps Db.tables P (WebhookRepo.delete id)
    unfolding WebhookRepo.delete WebhookRepo.delete_webhook_subscription
    subscription_deleted-Keeps id =
        Keeps-delete_row _
          (Keeps-delete_from _ _ _ _ (λ now t r h. steady.webhook_subscription_removed id t h))

    insert_event-Keeps : (row : WebhookEvent) → Keeps Db.tables P (insert_event row)
    unfolding insert_event
    insert_event-Keeps row = record {
      at = λ db h.
          elim (Bool-cases
            (any_row (has_event_key row.integration_id row.provider_event_id) db.webhook_events)) [
              | inl e ↦ rw (e, insert_event) h
              | inr e ↦ elim (Bool-cases (any_row (λ x. x.id == row.id) db.webhook_events)) [
                | inl f ↦ rw (e, f, insert_event) h
                | inr f ↦
                    elim (Bool-cases (any_row (λ i. i.id == row.integration_id) db.integrations)) [
                      | inl g ↦
                          rw (e, f, g, insert_event)
                            (steady.webhook_event_added row db.tables e f g h)
                      | inr g ↦ rw (e, f, g, insert_event) h
                    ]
              ]
            ];
    }

    pub record_event-Keeps :
        (integration : Uuid) (event_id event_type payload : String)
        → Keeps Db.tables P (record_event integration event_id event_type payload)
    unfolding record_event Events.create create_webhook_event
    record_event-Keeps integration event_id event_type payload =
        Keeps-bind _ _
          (Keeps-map_err _ _ (
            Keeps-map_err _ _ (
              Keeps-statement
                (draw_uuid >>= λ id db.
                  insert_event
                    (new_event
                      (record {
                        integration_id = integration;
                        provider_event_id = event_id;
                        event_type = event_type;
                        payload = payload;
                      })
                      id (now db))
                    db)
                (record {
                  at = λ db h. (insert_event-Keeps _).at (record db { drawn = suc db.drawn }) h;
                }))))
          (λ a. Keeps-lift (ok tt))

pub ruleset reads_rules = (
  keeps_rules, client_by_id-Keeps, client_by_name-Keeps, platform_by_id-Keeps,
  integration_by_id-Keeps, integration_by_client_and_platform-Keeps,
  integration_by_external_account_id-Keeps, state_by_state-Keeps, token_by_integration_id-Keeps,
  config_by_integration_id-Keeps, config_by_location_id-Keeps, config_by_api_key-Keeps,
  subscription_by_integration_id_and_endpoint-Keeps, clients_listed-Keeps, platforms_listed-Keeps,
  integrations_listed-Keeps,
)
