-- ===== src/Clients/Oauth/Tokens.antt =====
-- Access tokens: `RefreshAccessToken` and `ValidateToken` of clients/oauth/service.go.
use rvpay_go.Base.{String, Bool, not, ltb, if◌then◌else◌}
use rvpay_go.Base.Effect.{
  not_found, failed_precondition, internal, Err, status, ok, Action, lift, raise_if, map_err, ◌>>=◌,
  ◌>>◌,
}
use rvpay_go.Clients.Model.{Uuid, Integration, Db, outside}
use rvpay_go.Clients.Errors.{translate, found_or}
use rvpay_go.Clients.Repo.Integrations as IntegrationRepo
use rvpay_go.Clients.Repo.Integrations.{integration_is_active}
use rvpay_go.Clients.Repo.Platforms as PlatformRepo
use rvpay_go.Clients.Repo.OauthTokens as OauthTokenRepo
use rvpay_go.Clients.Oauth.{
  OauthEnv, provider_of, from_now, seconds, err_platform_not_found, err_integration_not_found,
}

abbrev pub err_integration_not_active : Err
err_integration_not_active = status failed_precondition "integration is not active"

abbrev pub err_oauth_token_not_found : Err
err_oauth_token_not_found = status not_found "OAuth token not found"

abbrev pub err_token_refresh_failed : Err
err_token_refresh_failed = status internal "token refresh failed"

unfoldable pub active_integration : Uuid → Action Db Integration
active_integration id = do
  integration ← found_or err_integration_not_found (IntegrationRepo.get_by_id id)
  raise_if (not (integration_is_active integration)) err_integration_not_active
  lift (ok integration)

-- An expired token is invalid, and the provider is not asked.
abbrev pub unless_expired : Bool → Action Db Bool → Action Db Bool
unless_expired expired m = if expired then lift (ok Bool.false) else m

module _ (env : OauthEnv) where
  unfoldable pub refresh_access_token : Uuid → Action Db (Unit {0})
  unfolding active_integration
  refresh_access_token integration_id = do
    integration ← active_integration integration_id
    token ← found_or err_oauth_token_not_found (OauthTokenRepo.get_by_integration_id integration_id)
    platform ← found_or err_platform_not_found (PlatformRepo.get_by_id integration.platform_id)
    provider ← provider_of env platform.slug
    response ←
        map_err (λ _. err_token_refresh_failed)
          (outside (provider.oauth_provider.refresh_access token.refresh_token))
    expires_at ← from_now (seconds response.expires_in)
    updated ← translate (
        OauthTokenRepo.update token.id response.access_token response.refresh_token expires_at
          response.scope response.token_type)
    lift (ok tt)

  -- The part of `ValidateToken` for a token that has not expired.
  unfoldable pub ask_provider : Uuid → String → Action Db Bool
  unfolding active_integration
  ask_provider integration_id access_token = do
    integration ← active_integration integration_id
    platform ← found_or err_platform_not_found (PlatformRepo.get_by_id integration.platform_id)
    provider ← provider_of env platform.slug
    outside (provider.oauth_provider.validate_token access_token)

  unfoldable pub validate_token : Uuid → Action Db Bool
  unfolding ask_provider
  validate_token integration_id = do
    token ← found_or err_oauth_token_not_found (OauthTokenRepo.get_by_integration_id integration_id)
    t ← from_now 0
    unless_expired (ltb token.expires_at t) (ask_provider integration_id token.access_token)
