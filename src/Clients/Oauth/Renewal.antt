-- ===== src/Clients/Oauth/Renewal.antt =====
-- The renewal of a token (`RefreshAccessToken` of clients/oauth/service.go).
use rvpay_go.Base.{ℕ, suc, ◌+◌, ◌*◌, ◌≤◌, true, some, none, ◌≡◌, arith, ◌==◌}
use rvpay_go.Base.Table.{find_row, update_rows}
use rvpay_go.Base.Effect.{ok}
use rvpay_go.Clients.Model.{Uuid, Time, Platform, Integration, OauthToken, Db}
use rvpay_go.Clients.Errors.{found_or, translate}
use rvpay_go.Clients.Query.{select_one, one, update_one}
use rvpay_go.Clients.Repo.Integrations as IntegrationRepo
use rvpay_go.Clients.Repo.Integrations.{get_integration_by_id, integration_is_active}
use rvpay_go.Clients.Repo.Platforms as PlatformRepo
use rvpay_go.Clients.Repo.Platforms.{get_platform_by_id}
use rvpay_go.Clients.Repo.OauthTokens as OauthTokenRepo
use rvpay_go.Clients.Repo.OauthTokens.{get_oauth_token_by_integration_id, update_oauth_token}
use rvpay_go.Clients.Providers.{Provider, TokenResponse, get}
use rvpay_go.Clients.Oauth.{OauthEnv, provider_of, seconds, add_duration}
use rvpay_go.Clients.Oauth.Tokens.{refresh_access_token, active_integration}

-- A lifetime of at most 292 years does not wrap around.
add_duration-seconds :
    (n : ℕ) (t : Time) → n ≤ 9223372036 → add_duration (seconds n) t ≡ t + n * 1000000000
unfolding add_duration seconds
add_duration-seconds n t h = ground arith

-- Where the server refuses nothing and the provider answers, the renewal of the token of an active
-- integration succeeds, whether or not the old token has expired: the row has the provider's new
-- tokens, scope and token type, and a lifetime of at most 9223372036 seconds ends as long after the
-- answer as the provider says; its id, integration and creation time stay, and no other row changes.
pub refresh_access_token_renews :
    (env : OauthEnv) (id : Uuid) (db : Db) {i : Integration} {o : OauthToken} {p : Platform}
    {provider : Provider} {t : TokenResponse}
    → ((n : ℕ) → db.fault n ≡ none)
    → find_row (λ x. x.id == id) db.integrations ≡ some i
    → integration_is_active i ≡ true
    → find_row (λ x. x.integration_id == id) db.oauth_tokens ≡ some o
    → find_row (λ x. x.id == o.id) db.oauth_tokens ≡ some o
    → find_row (λ x. x.id == i.platform_id) db.platforms ≡ some p
    → get p.slug env.registry ≡ some provider
    → provider.oauth_provider.refresh_access o.refresh_token db.calls ≡ ok t
    → t.expires_in ≤ 9223372036
    → ((refresh_access_token env id db).0 ≡ ok tt)
      × ((refresh_access_token env id db).1.oauth_tokens
          ≡ update_rows
              (λ x. x.id == o.id)
              (λ x. record {
                id = x.id;
                integration_id = x.integration_id;
                access_token = t.access_token;
                refresh_token = t.refresh_token;
                expires_at = db.clock (suc (suc (suc db.ticks))) + t.expires_in * 1000000000;
                scope = t.scope;
                token_type = t.token_type;
                created_at = x.created_at;
                updated_at = db.clock (suc (suc (suc (suc db.ticks))));
              })
              db.oauth_tokens)
unfolding refresh_access_token active_integration provider_of found_or translate
    IntegrationRepo.get_by_id get_integration_by_id PlatformRepo.get_by_id get_platform_by_id
    OauthTokenRepo.get_by_integration_id get_oauth_token_by_integration_id OauthTokenRepo.update
    update_oauth_token select_one one update_one
refresh_access_token_renews env id db {i} {o} {p} {provider} {t} up found active token row platform
      registered answer short =
    let f0 = up db.ticks in
    let f1 = up (suc db.ticks) in
    let f2 = up (suc (suc db.ticks)) in
    let f3 = up (suc (suc (suc db.ticks))) in
    let end = add_duration-seconds t.expires_in (db.clock (suc (suc (suc db.ticks)))) short in
    ground arith
