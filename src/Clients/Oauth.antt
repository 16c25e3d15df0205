-- ===== src/Clients/Oauth.antt =====
-- clients/oauth/service.go: the OAuth flows. The repository of the payment provider configurations
-- is there (clients/cmd/grpc-service/main.go sets it). Times
-- are nanoseconds; a duration is an int64 of nanoseconds, written as its residue modulo 2^64.
pub mod Registration
pub mod Tokens
pub mod Callback
pub mod Installed
pub mod Renewal
pub mod Completion
use rvpay_go.Base.{
  ℕ, ◌+◌, ◌-◌, ◌*◌, ◌%◌, String, Bool, true, false, not, Option, none, some, ltb, if◌then◌else◌,
}
use rvpay_go.Base.Effect.{
  invalid_argument, not_found, already_exists, failed_precondition, internal, Err, status, Result,
  ok, err, Action, lift, raise, raise_if, or_raise, map_err, try, ◌>>=◌, ◌>>◌,
}
use rvpay_go.Clients.Model.{Uuid, Time, Client, Platform, OauthState, Db, now, outside}
use rvpay_go.Clients.Errors.{translate, found_or}
use rvpay_go.Clients.Repo.Clients as ClientRepo
use rvpay_go.Clients.Repo.Clients.{client_is_active}
use rvpay_go.Clients.Repo.Platforms as PlatformRepo
use rvpay_go.Clients.Repo.OauthStates as OauthStateRepo
use rvpay_go.Clients.Providers.{ProviderConfigSettings, Provider, Registry, get}

abbrev pub err_platform_not_found : Err
err_platform_not_found = status not_found "platform not found"

abbrev pub err_platform_disabled : Err
err_platform_disabled = status failed_precondition "platform is disabled"

abbrev pub err_provider_not_supported : Err
err_provider_not_supported = status failed_precondition "provider not supported"

abbrev pub err_client_not_found : Err
err_client_not_found = status not_found "client not found"

abbrev pub err_client_inactive : Err
err_client_inactive = status failed_precondition "client is not active"

abbrev pub err_integration_not_found : Err
err_integration_not_found = status not_found "integration not found"

-- The service's fields, and the random sources: `providers.GenerateState` and `generateAPIKey`.
pub record OauthEnv : Type 0 where
  pub registry : Registry
  pub redirect_uri : String
  pub provider_config : ProviderConfigSettings
  pub generate_state : ℕ → Result String
  pub generate_api_key : ℕ → Result String

-- `10 * time.Minute`.
abbrev pub state_ttl : ℕ
state_ttl = 600000000000

-- `time.Duration(n) * time.Second`, which wraps around at 64 bits.
unfoldable pub seconds : ℕ → ℕ
seconds n = n * 1000000000 % 18446744073709551616

-- `t.Add(d)`, for a duration whose sign bit may be set.
unfoldable pub add_duration : ℕ → Time → Time
add_duration d t = if ltb d 9223372036854775808 then t + d else t - (18446744073709551616 - d)

-- `time.Now().Add(d)`.
abbrev pub from_now : ℕ → Action Db Time
from_now d db = (ok (add_duration d (now db)), db)

module _ (env : OauthEnv) where
  -- The platform, if it is enabled, and its provider are looked up in this order by all flows.
  unfoldable pub enabled_platform : Uuid → Action Db Platform
  enabled_platform id = do
    platform ← found_or err_platform_not_found (PlatformRepo.get_by_id id)
    raise_if (not platform.enabled) err_platform_disabled
    lift (ok platform)

  unfoldable pub active_client : Uuid → Action Db Client
  active_client id = do
    client ← found_or err_client_not_found (ClientRepo.get_by_id id)
    raise_if (not (client_is_active client)) err_client_inactive
    lift (ok client)

  unfoldable pub provider_of : String → Action Db Provider
  provider_of slug = or_raise (get slug env.registry) err_provider_not_supported

  unfoldable pub authorization_url : (client_id platform_id : Uuid) → String → Action Db String
  unfolding enabled_platform provider_of
  authorization_url client_id platform_id state = do
    platform ← enabled_platform platform_id
    provider ← provider_of platform.slug
    lift (provider.oauth_provider.generate_authorization_url state env.redirect_uri)

  unfoldable pub begin_authorization : (client_id platform_id : Uuid) → Action Db (String × String)
  unfolding enabled_platform active_client provider_of
  begin_authorization client_id platform_id = do
    platform ← enabled_platform platform_id
    client ← active_client client_id
    provider ← provider_of platform.slug
    state ← outside env.generate_state
    expires_at ← from_now state_ttl
    row ← translate (OauthStateRepo.create state client_id platform_id expires_at)
    url ← lift (provider.oauth_provider.generate_authorization_url state env.redirect_uri)
    lift (ok (url, state))
