-- ===== src/Clients/Providers.antt =====
-- The interfaces of clients/providers: provider.go, webhook.go, payment_provider.go and registry.go.
-- A call of a provider is given its number, since its answers may differ from call to call. An
-- error that wraps a sentinel error is that error.
pub mod Webhook
pub mod Dispatcher
pub mod Lookup
use rvpay_go.Base.{ℕ, String, Bool, Option, none, some, List, [], ◌∷◌, str_eq, if◌then◌else◌}
use rvpay_go.Base.Table.{filter_rows}
use rvpay_go.Base.Effect.{Err, Result, Action, other}
use rvpay_go.Clients.Model.{Db}

pub data Capability : Type 0 where
  oauth webhooks token_refresh installation uninstallation health_check payment_provider :
      Capability
  unknown : String → Capability

pub record TokenResponse : Type 0 where
  pub access_token : String
  pub refresh_token : String
  -- An int64, as its residue modulo 2^64.
  pub expires_in : ℕ
  pub token_type : String
  pub scope : String
  pub location_id : String

pub record OauthProvider : Type 0 where
  pub generate_authorization_url : (state redirect_uri : String) → Result String
  pub exchange_code : (code redirect_uri : String) → ℕ → Result TokenResponse
  pub refresh_access : String → ℕ → Result TokenResponse
  pub get_user_info : String → ℕ → Result String
  pub validate_token : String → ℕ → Result Bool

-- A payload is the text of its JSON value.
pub record ProviderEvent : Type 0 where
  pub provider : String
  pub event_type : String
  pub provider_event_id : String
  pub integration_id : String
  pub client_id : String
  pub platform_id : String
  pub location_id : String
  pub payload : String
  pub received_at : ℕ

abbrev pub Headers : Type 0
Headers = List (String × String)

-- `headers[key]`.
unfoldable pub header : String → Headers → String
header key [] = ""
header key ((k, v) ∷ rest) = if str_eq k key then v else header key rest

pub record WebhookProvider : Type 0 where
  pub verify_request : Headers → String → Result (Unit {0})
  pub parse_event : String → Result ProviderEvent
  pub register_webhook : (integration_id callback_url : String) → ℕ → Result (Unit {0})
  pub unregister_webhook : String → ℕ → Result (Unit {0})

-- What `WebhookDispatcher.Dispatch` does with an event.
abbrev pub WebhookDispatcher : Type 0
WebhookDispatcher = ProviderEvent → Action Db (Unit {0})

pub record ProviderConfig : Type 0 where
  pub name : String
  pub description : String
  pub image_url : String
  pub location_id : String
  pub query_url : String
  pub payments_url : String
  pub supports_subscription_schedule : Bool

pub record ProviderConfigSettings : Type 0 where
  pub name : String
  pub description : String
  pub image_url : String
  pub payments_url : String
  pub query_url : String

pub record PaymentProviderClient : Type 0 where
  pub create_provider_association : (access_token location_id : String) → ℕ → Result (Unit {0})
  pub create_provider_config : String → ProviderConfig → ℕ → Result (Unit {0})
  pub fetch_provider_config : (access_token location_id : String) → ℕ → Result ProviderConfig
  pub disconnect_provider : (access_token location_id : String) → ℕ → Result (Unit {0})

-- `ErrBadRequest` and the other sentinel errors.
abbrev pub err_bad_request : Err
err_bad_request = other "highlevel: bad request"

abbrev pub err_unauthorized : Err
err_unauthorized = other "highlevel: unauthorized"

abbrev pub err_unprocessable_entity : Err
err_unprocessable_entity = other "highlevel: unprocessable entity"

-- `errors.Is(err, ErrBadRequest) || errors.Is(err, ErrUnprocessableEntity)`.
unfoldable pub already_there : Err → Bool
already_there (other text) =
    if str_eq text "highlevel: bad request"
    then Bool.true
    else str_eq text "highlevel: unprocessable entity"
already_there _ = Bool.false

pub record Provider : Type 0 where
  pub id : String
  pub name : String
  pub capabilities : List Capability
  pub has_capability : Capability → Bool
  pub oauth_provider : OauthProvider
  pub webhook_provider : Option WebhookProvider
  pub payment_provider : Option PaymentProviderClient

-- The map of the registry, each key once.
abbrev pub Registry : Type 0
Registry = List (String × Provider)

unfoldable pub register : Provider → Registry → Registry
register p [] = (p.id, p) ∷ []
register p ((k, q) ∷ rest) = if str_eq k p.id then (p.id, p) ∷ rest else (k, q) ∷ register p rest

unfoldable pub get : String → Registry → Option Provider
get id [] = none
get id ((k, p) ∷ rest) = if str_eq k id then some p else get id rest

unfoldable pub list : Registry → List Provider
list [] = []
list ((_, p) ∷ rest) = p ∷ list rest

unfoldable pub get_by_capability : Capability → Registry → List Provider
unfolding list
get_by_capability capability r = filter_rows (λ p. p.has_capability capability) (list r)
