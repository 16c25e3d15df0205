-- ===== src/Clients/Keeps/Repo/Statements.antt =====
-- What a property of the tables has to allow for the statements that the services run to preserve
-- it (clients/db/sqlc).
use rvpay_go.Base.{String, Bool, Option, none, some, ◌++◌, ◌∷◌, [], ◌≡◌, ◌==◌}
use rvpay_go.Base.Table.{find_row, update_rows, delete_rows, any_row}
use rvpay_go.Clients.Model.{
  Uuid, Time, ClientStatus, IntegrationStatus, Client, Platform, Integration, OauthState,
  OauthToken, WebhookSubscription, WebhookEvent, PaymentProviderConfig, Tables,
}
use rvpay_go.Clients.Repo.Clients.{client_refusal, set_client_status}
use rvpay_go.Clients.Repo.Platforms.{platform_update_refusal, set_platform}
use rvpay_go.Clients.Repo.Integrations.{
  integration_refusal, set_integration_status, drop_dependents,
}
use rvpay_go.Clients.Repo.OauthStates.{oauth_state_refusal, is_consumable, set_consumed}
use rvpay_go.Clients.Repo.OauthTokens.{oauth_token_refusal, set_oauth_token}
use rvpay_go.Clients.Repo.WebhookSubscriptions.{webhook_subscription_refusal, set_last_delivery}
use rvpay_go.Clients.Repo.PaymentProviderConfigs.{
  PaymentProviderConfigParams, payment_provider_config_refusal, set_config,
}
use rvpay_go.Clients.Events.{has_event_key}

-- The changes that the registration of a payment provider makes.
pub record ConfigSteady (P : Tables → Type 0) : Type 0 where
  pub config_added :
      (row : PaymentProviderConfig) (t : Tables)
      → payment_provider_config_refusal row t ≡ none
      → P t
      → P (record t { payment_provider_configs = t.payment_provider_configs ++ row ∷ [] })
  pub config_changed :
      (arg : PaymentProviderConfigParams) (now : Time) (t : Tables)
      → P t
      → P (record t {
        payment_provider_configs =
            update_rows
              (λ c. c.integration_id == arg.integration_id)
              (set_config arg now)
              t.payment_provider_configs;
      })

-- A property that each change which a statement of the services can make keeps.
pub record Steady (P : Tables → Type 0) : Type 0 where
  pub client_added :
      (row : Client) (t : Tables)
      → client_refusal row t ≡ none
      → P t
      → P (record t { clients = t.clients ++ row ∷ [] })
  pub client_changed :
      (id : Uuid) (to : ClientStatus) (now : Time) (t : Tables)
      → P t
      → P (record t {
        clients = update_rows (λ c. c.id == id) (set_client_status to now) t.clients;
      })
  pub platform_changed :
      (id : Uuid) (name display_name slug : String) (enabled oauth_capable webhook_capable : Bool)
      (now : Time) (row : Platform) (t : Tables)
      → find_row (λ p. p.id == id) t.platforms ≡ some row
      → platform_update_refusal
          (set_platform name display_name slug enabled oauth_capable webhook_capable now row)
          t
        ≡ none
      → P t
      → P (record t {
        platforms =
            update_rows
              (λ p. p.id == id)
              (set_platform name display_name slug enabled oauth_capable webhook_capable now)
              t.platforms;
      })
  pub integration_added :
      (row : Integration) (t : Tables)
      → integration_refusal row t ≡ none
      → P t
      → P (record t { integrations = t.integrations ++ row ∷ [] })
  pub integration_changed :
      (id : Uuid) (to : IntegrationStatus) (now : Time) (t : Tables)
      → P t
      → P (record t {
        integrations = update_rows (λ i. i.id == id) (set_integration_status to now) t.integrations;
      })
  pub oauth_state_added :
      (row : OauthState) (t : Tables)
      → oauth_state_refusal row t ≡ none
      → P t
      → P (record t { oauth_states = t.oauth_states ++ row ∷ [] })
  pub oauth_state_consumed :
      (state : String) (now : Time) (t : Tables)
      → P t
      → P (record t {
        oauth_states = update_rows (is_consumable state now) (set_consumed now) t.oauth_states;
      })
  pub oauth_token_added :
      (row : OauthToken) (t : Tables)
      → oauth_token_refusal row t ≡ none
      → P t
      → P (record t { oauth_tokens = t.oauth_tokens ++ row ∷ [] })
  pub oauth_token_changed :
      (id : Uuid) (access_token refresh_token : String) (expires_at : Time)
      (scope token_type : String) (now : Time) (t : Tables)
      → P t
      → P (record t {
        oauth_tokens =
            update_rows
              (λ o. o.id == id)
              (set_oauth_token access_token refresh_token expires_at scope token_type now)
              t.oauth_tokens;
      })
  pub webhook_subscription_added :
      (row : WebhookSubscription) (t : Tables)
      → webhook_subscription_refusal row t ≡ none
      → P t
      → P (record t { webhook_subscriptions = t.webhook_subscriptions ++ row ∷ [] })
  pub webhook_subscription_changed :
      (id : Uuid) (last_delivery : Option Time) (now : Time) (t : Tables)
      → P t
      → P (record t {
        webhook_subscriptions =
            update_rows
              (λ w. w.id == id)
              (set_last_delivery last_delivery now)
              t.webhook_subscriptions;
      })
  pub webhook_subscription_removed :
      (id : Uuid) (t : Tables)
      → P t
      → P (record t {
        webhook_subscriptions = delete_rows (λ w. w.id == id) t.webhook_subscriptions;
      })
  pub webhook_event_added :
      (row : WebhookEvent) (t : Tables)
      → any_row (has_event_key row.integration_id row.provider_event_id) t.webhook_events
        ≡ Bool.false
      → any_row (λ e. e.id == row.id) t.webhook_events ≡ Bool.false
      → any_row (λ i. i.id == row.integration_id) t.integrations ≡ Bool.true
      → P t
      → P (record t { webhook_events = t.webhook_events ++ row ∷ [] })
  pub configs : ConfigSteady P

-- The removal of an integration, which takes the rows that depend on it with it.
abbrev pub AllowsUninstall : (Tables → Type 0) → Type 0
AllowsUninstall P =
    (id : Uuid) (t : Tables)
    → P t
    → P (
        drop_dependents id
          (record t { integrations = delete_rows (λ i. i.id == id) t.integrations }))

-- The removal of a client, which takes its OAuth states with it.
abbrev pub AllowsRemoval : (Tables → Type 0) → Type 0
AllowsRemoval P =
    (id : Uuid) (t : Tables)
    → any_row (λ i. i.client_id == id) t.integrations ≡ Bool.false
    → P t
    → P (record t {
      clients = delete_rows (λ c. c.id == id) t.clients;
      oauth_states = delete_rows (λ s. s.client_id == id) t.oauth_states;
    })
