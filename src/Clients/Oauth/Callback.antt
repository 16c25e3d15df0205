-- ===== src/Clients/Oauth/Callback.antt =====
-- The provider's redirect: `HandleCallback` and `ProcessCallback` of clients/oauth/service.go.
use rvpay_go.Base.{String, Bool, not, Option, none, some, if◌then◌else◌}
use rvpay_go.Base.Text.{is_empty}
use rvpay_go.Base.Effect.{
  invalid_argument, already_exists, internal, Err, status, err_not_found, Result, ok, err, Action,
  lift, raise, raise_if, map_err, try, ◌>>=◌, ◌>>◌,
}
use rvpay_go.Clients.Model.{Uuid, Time, IntegrationStatus, Integration, OauthState, Db, outside}
use rvpay_go.Clients.Errors.{translate_error, translate, found_or}
use rvpay_go.Clients.Repo.Integrations as IntegrationRepo
use rvpay_go.Clients.Repo.OauthStates as OauthStateRepo
use rvpay_go.Clients.Repo.OauthTokens as OauthTokenRepo
use rvpay_go.Clients.Repo.PaymentProviderConfigs as ConfigRepo
use rvpay_go.Clients.Providers.{Capability, TokenResponse, Provider}
use rvpay_go.Clients.Oauth.{
  OauthEnv, enabled_platform, active_client, provider_of, from_now, seconds,
  err_integration_not_found,
}
use rvpay_go.Clients.Oauth.Registration.{register_provider, err_missing_location_id}

abbrev pub err_token_exchange_failed : Err
err_token_exchange_failed = status internal "token exchange failed"

abbrev pub err_user_info_failed : Err
err_user_info_failed = status internal "user info retrieval failed"

abbrev pub err_integration_already_exists : Err
err_integration_already_exists = status already_exists "integration already exists"

abbrev pub err_invalid_state : Err
err_invalid_state = status invalid_argument "invalid OAuth state"

abbrev pub err_state_expired : Err
err_state_expired = status invalid_argument "OAuth state expired"

abbrev pub err_state_consumed : Err
err_state_consumed = status invalid_argument "OAuth state already used"

abbrev pub err_missing_code : Err
err_missing_code = status invalid_argument "authorization code is required"

pub record CallbackResult : Type 0 where
  pub integration_id : Uuid
  pub client_id : Uuid
  pub platform_id : Uuid
  pub access_token : String
  pub refresh_token : String
  pub expires_at : Time
  pub scope : String
  pub provider_user_id : String
  pub provider_registered : Bool
  pub provider_registration_error : Option Err

-- What follows the lookup of the integration of a client and a platform.
unfoldable pub install :
    (client_id platform_id : Uuid) → String → Result Integration → Action Db Integration
install client_id platform_id user (ok existing) = elim existing.status [
  | IntegrationStatus.created ↦
      translate (IntegrationRepo.update_status existing.id IntegrationStatus.active)
  | _ ↦ raise err_integration_already_exists
]
install client_id platform_id user (err err_not_found) =
    translate (IntegrationRepo.create client_id platform_id user IntegrationStatus.active)
install client_id platform_id user (err e) = raise (translate_error e)

-- What a failed `Consume` means for the caller.
unfoldable pub state_error : Result OauthState → Err
state_error (ok existing) = elim existing.consumed_at [
  | some _ ↦ err_state_consumed
  | none ↦ err_state_expired
]
state_error (err _) = err_invalid_state

-- The outcome of `Consume`.
unfoldable pub consumed_state : String → Result OauthState → Action Db OauthState
unfolding state_error
consumed_state state (ok row) = lift (ok row)
consumed_state state (err err_not_found) =
    try (OauthStateRepo.get_by_state state) >>= λ existing. raise (state_error existing)
consumed_state state (err e) = raise (translate_error e)

-- What follows the lookup of the integration by the account.
unfoldable pub location_integration : String → Result Integration → Action Db Integration
location_integration location (ok i) = lift (ok i)
location_integration location (err err_not_found) = do
  config ← found_or err_integration_not_found (ConfigRepo.get_by_location_id location)
  found_or err_integration_not_found (IntegrationRepo.get_by_id config.integration_id)
location_integration location (err e) = raise (translate_error e)

abbrev pub without_registration :
    Integration → (client_id platform_id : Uuid) → TokenResponse → Time → String → CallbackResult
without_registration i client_id platform_id token expires_at user = record {
  integration_id = i.id;
  client_id = client_id;
  platform_id = platform_id;
  access_token = token.access_token;
  refresh_token = token.refresh_token;
  expires_at = expires_at;
  scope = token.scope;
  provider_user_id = user;
  provider_registered = Bool.false;
  provider_registration_error = none;
}

-- The outcome of `RegisterProvider`, noted in the result.
unfoldable pub note_registration : CallbackResult → Result (Unit {0}) → CallbackResult
note_registration r (ok _) = record r { provider_registered = Bool.true }
note_registration r (err e) = record r { provider_registration_error = some e }

module _ (env : OauthEnv) where
  -- The part of `ProcessCallback` that stores the token of its integration.
  unfoldable pub store_token :
      (client_id platform_id : Uuid)
      → TokenResponse
      → String
      → Integration
      → Action Db CallbackResult
  store_token client_id platform_id token user integration = do
    expires_at ← from_now (seconds token.expires_in)
    stored ← translate (
        OauthTokenRepo.create integration.id token.access_token token.refresh_token expires_at
          token.scope token.token_type)
    lift (ok (without_registration integration client_id platform_id token expires_at user))

  -- The part of `ProcessCallback` that stores the integration and its token.
  unfoldable pub persist :
      (client_id platform_id : Uuid) → TokenResponse → String → Action Db CallbackResult
  unfolding install store_token
  persist client_id platform_id token user = do
    found ← try (IntegrationRepo.get_by_client_and_platform client_id platform_id)
    integration ← install client_id platform_id user found
    store_token client_id platform_id token user integration

  -- The last part of `ProcessCallback`: a failed registration is no error.
  unfoldable pub follow_up : Provider → TokenResponse → CallbackResult → Action Db CallbackResult
  unfolding note_registration
  follow_up provider token result =
      if provider.has_capability Capability.payment_provider
      then (try (register_provider env result.integration_id token.location_id token.access_token)
          >>= λ outcome. lift (ok (note_registration result outcome)))
      else lift (ok result)

  -- The part of `ProcessCallback` after its checks.
  unfoldable pub complete :
      (client_id platform_id : Uuid) → String → Provider → Action Db CallbackResult
  unfolding persist follow_up
  complete client_id platform_id code provider = do
    token ←
        map_err (λ _. err_token_exchange_failed)
          (outside (provider.oauth_provider.exchange_code code env.redirect_uri))
    user ←
        map_err (λ _. err_user_info_failed)
          (outside (provider.oauth_provider.get_user_info token.access_token))
    result ← persist client_id platform_id token user
    follow_up provider token result

  unfoldable pub process_callback :
      (client_id platform_id : Uuid) → String → Action Db CallbackResult
  unfolding complete
  process_callback client_id platform_id code = do
    platform ← enabled_platform env platform_id
    provider ← provider_of env platform.slug
    client ← active_client env client_id
    complete client_id platform_id code provider

  -- The part of `HandleCallback` for a request with a state.
  unfoldable pub handle_callback_with_state : (code state : String) → Action Db CallbackResult
  unfolding consumed_state
  handle_callback_with_state code state = do
    outcome ← try (OauthStateRepo.consume state)
    row ← consumed_state state outcome
    process_callback row.client_id row.platform_id code

  -- The part of `HandleCallback` for a request without a state.
  unfoldable pub handle_callback_by_location : String → Action Db CallbackResult
  unfolding location_integration
  handle_callback_by_location code = do
    provider ← provider_of env "highlevel"
    token ←
        map_err (λ _. err_token_exchange_failed)
          (outside (provider.oauth_provider.exchange_code code env.redirect_uri))
    raise_if (is_empty token.location_id) err_missing_location_id
    found ← try (IntegrationRepo.get_by_external_account_id token.location_id)
    integration ← location_integration token.location_id found
    process_callback integration.client_id integration.platform_id code

  unfoldable pub handle_callback : (code state : String) → Action Db CallbackResult
  handle_callback code state =
      if is_empty code
      then raise err_missing_code
      else if not (is_empty state)
      then handle_callback_with_state code state
      else handle_callback_by_location code
