-- ===== src/Clients/Tests/Callback.antt =====
-- The provider's redirect on a concrete database, and what follows it.
use mathlib.Core.List.{Memᴰ}
use rvpay_go.Base.{◌≤◌, Bool, false, ◌||◌, some, ◌==◌, true, List, [], ◌∷◌, ◌≡◌, refl, arith}
use rvpay_go.Base.Table
use rvpay_go.Base.Table.{any_row, count_rows}
use rvpay_go.Base.Effect
use rvpay_go.Base.Effect.{Err, Result, ok, err, other, status, invalid_argument}
use rvpay_go.Clients.Model.{
  Client, Platform, Integration, IntegrationStatus, OauthToken, Tables, Db,
}
use rvpay_go.Clients.Query
use rvpay_go.Clients.Errors
use rvpay_go.Clients.Repo.Clients as ClientRepo
use rvpay_go.Clients.Repo.Platforms as PlatformRepo
use rvpay_go.Clients.Repo.Integrations as IntegrationRepo
use rvpay_go.Clients.Repo.OauthStates as OauthStateRepo
use rvpay_go.Clients.Repo.OauthTokens as OauthTokenRepo
use rvpay_go.Clients.Providers
use rvpay_go.Clients.Providers.{
  Provider, OauthProvider, WebhookProvider, ProviderEvent, TokenResponse,
}
use rvpay_go.Clients.Oauth
use rvpay_go.Clients.Oauth.{OauthEnv}
use rvpay_go.Clients.Oauth.Callback
use rvpay_go.Clients.Oauth.Callback.{CallbackResult, process_callback, handle_callback}
use rvpay_go.Clients.Runs.{Call, run}
use rvpay_go.Clients.Runs.Unique.{IsUnique, run-IsUnique}
use rvpay_go.Clients.Events.{has_event_key}
use rvpay_go.Clients.Runs.States.{has_state, handle_callback_once}
use rvpay_go.Base.Table.{find_row, update_rows}
use rvpay_go.Clients.Providers.{get}
use rvpay_go.Clients.Repo.OauthTokens.{set_oauth_token}
use rvpay_go.Clients.Oauth.Tokens.{refresh_access_token}
use rvpay_go.Clients.Repo.Integrations.{of_client_and_platform}
use rvpay_go.Clients.Oauth.Completion.{process_callback_completes}
use rvpay_go.Clients.Oauth.Renewal.{refresh_access_token_renews}
use rvpay_go.Clients.Oauth.Installed.{HasActive, HasToken, process_callback_installs}
use rvpay_go.Clients.Reports.{is_status}
use rvpay_go.Clients.Reports.Handlers.{handle_callback_reports}
use rvpay_go.Clients.Repo.Clients.{client_is_active}
use rvpay_go.Clients.Tests.Flows.{
  business, highlevel, pending, oauth_env, clients_env, system, tables, server, connected, provider,
  account, configured,
}

abbrev pub after_callback : Db
after_callback = (handle_callback oauth_env "code" "state" (server tables)).1

callback_done : (handle_callback oauth_env "code" "state" (server tables)).0 ≡ ok connected
unfolding Oauth.add_duration Oauth.seconds Callback.handle_callback
    Callback.handle_callback_with_state OauthStateRepo.consume OauthStateRepo.consume_oauth_state
    Query.update_one Callback.consumed_state Callback.process_callback Oauth.enabled_platform
    Oauth.active_client Oauth.provider_of Errors.found_or Errors.translate PlatformRepo.get_by_id
    PlatformRepo.get_platform_by_id ClientRepo.get_by_id ClientRepo.get_client_by_id
    Query.select_one Query.one Providers.get Callback.complete Callback.persist Callback.follow_up
    Callback.install Callback.store_token IntegrationRepo.get_by_client_and_platform
    IntegrationRepo.get_integration_by_client_and_platform IntegrationRepo.create
    IntegrationRepo.create_integration IntegrationRepo.integration_refusal Query.insert_into
    Query.insert_row OauthTokenRepo.create OauthTokenRepo.create_oauth_token
    OauthTokenRepo.oauth_token_refusal Table.find_row Table.any_row Table.update_rows
    Effect.wrap_error Effect.wrap_not_found
callback_done = refl

abbrev connected_at_once : CallbackResult
connected_at_once = record connected { expires_at = 3600000000004 }

abbrev after_process : Db
after_process = (process_callback oauth_env 1 2 "code" (server tables)).1

processed : (process_callback oauth_env 1 2 "code" (server tables)).0 ≡ ok connected_at_once
unfolding Oauth.add_duration Oauth.seconds Callback.process_callback Oauth.enabled_platform
    Oauth.active_client Oauth.provider_of Errors.found_or Errors.translate PlatformRepo.get_by_id
    PlatformRepo.get_platform_by_id ClientRepo.get_by_id ClientRepo.get_client_by_id
    Query.select_one Query.one Providers.get Callback.complete Callback.persist Callback.follow_up
    Callback.install Callback.store_token IntegrationRepo.get_by_client_and_platform
    IntegrationRepo.get_integration_by_client_and_platform IntegrationRepo.create
    IntegrationRepo.create_integration IntegrationRepo.integration_refusal Query.insert_into
    Query.insert_row OauthTokenRepo.create OauthTokenRepo.create_oauth_token
    OauthTokenRepo.oauth_token_refusal Table.find_row Table.any_row Effect.wrap_not_found
processed = refl

one_pending : count_rows (has_state "state") (pending ∷ []) ≡ 1
unfolding count_rows
one_pending = refl

abbrev between : List Call
between = Call.oauth_callback "code" "state" ∷ Call.get_client "1" ∷ []

process_callback_installs_example :
    ((p : Platform) × Memᴰ p (highlevel ∷ []) × (p.id ≡ 2) × (p.enabled ≡ true))
    × ((c : Client) × Memᴰ c (business ∷ []) × (c.id ≡ 1) × (client_is_active c ≡ true))
    × (connected_at_once.client_id ≡ 1)
    × (connected_at_once.platform_id ≡ 2)
    × HasActive connected_at_once after_process.tables
    × HasToken connected_at_once after_process.tables
process_callback_installs_example =
    process_callback_installs oauth_env 1 2 "code" (server tables)
      (λ i. (processed i, after_process))

handle_callback_once_example : ¬ (
    (handle_callback oauth_env "again" "state"
      (run clients_env between (record system { clients = after_callback })).clients).0
    ≡ ok connected)
handle_callback_once_example =
    handle_callback_once clients_env "code" "again" "state" between system refl
      (rw one_pending (omega arith)) (refl, (refl, tt)) (λ i. (callback_done i, after_callback))

no_code :
    (handle_callback oauth_env "" "state" (server tables)).0
    ≡ err (status invalid_argument "authorization code is required")
unfolding handle_callback
no_code = refl

handle_callback_reports_example :
    is_status (status invalid_argument "authorization code is required") ≡ true
handle_callback_reports_example =
    handle_callback_reports oauth_env "" "state" (server tables)
      (status invalid_argument "authorization code is required") no_code

abbrev old_token : OauthToken
old_token = record {
  id = 9;
  integration_id = 7;
  access_token = "old";
  refresh_token = "old refresh";
  expires_at = 0;
  scope = "";
  token_type = "Bearer";
  created_at = 0;
  updated_at = 0;
}

abbrev expired : Tables
expired = record configured { oauth_tokens = old_token ∷ [] }

account_found : find_row (λ x. x.id == 7) (account ∷ []) ≡ some account
unfolding find_row
account_found = refl

token_found : find_row (λ x. x.integration_id == 7) (old_token ∷ []) ≡ some old_token
unfolding find_row
token_found = refl

row_found : find_row (λ x. x.id == 9) (old_token ∷ []) ≡ some old_token
unfolding find_row
row_found = refl

platform_found : find_row (λ x. x.id == 2) (highlevel ∷ []) ≡ some highlevel
unfolding find_row
platform_found = refl

provider_found : get "highlevel" oauth_env.registry ≡ some provider
unfolding get
provider_found = refl

short : 3600 ≤ 9223372036
short = omega arith

refresh_access_token_renews_example :
    ((refresh_access_token oauth_env 7 (server expired)).0 ≡ ok tt)
    × ((refresh_access_token oauth_env 7 (server expired)).1.oauth_tokens
        ≡ update_rows
            (λ x. x.id == 9)
            (set_oauth_token "access" "refresh" 3600000000003 "payments" "Bearer" 4)
            (old_token ∷ []))
refresh_access_token_renews_example =
    refresh_access_token_renews oauth_env 7 (server expired) (λ n. refl) account_found refl
      token_found row_found platform_found provider_found refl short

-- An integration that awaits its callback.
abbrev waiting : Integration
waiting = record account { status = IntegrationStatus.created }

abbrev waiting_tables : Tables
waiting_tables = record tables { integrations = waiting ∷ [] }

business_found : find_row (λ x. x.id == 1) (business ∷ []) ≡ some business
unfolding find_row
business_found = refl

waiting_found : find_row (of_client_and_platform 1 2) (waiting ∷ []) ≡ some waiting
unfolding find_row
waiting_found = refl

waiting_row : find_row (λ x. x.id == 7) (waiting ∷ []) ≡ some waiting
unfolding find_row
waiting_row = refl

no_tokens : (p : OauthToken → Bool) → any_row p [] ≡ false
unfolding any_row
no_tokens p = refl

process_callback_completes_example :
    (r : CallbackResult) × ((process_callback oauth_env 1 2 "code" (server waiting_tables)).0
      ≡ ok r)
    × (r.integration_id ≡ 7)
process_callback_completes_example =
    process_callback_completes oauth_env 1 2 "code" (server waiting_tables) (λ n. refl)
      platform_found refl provider_found business_found refl refl refl waiting_found refl
      waiting_row (no_tokens (λ o. o.id == 100 || o.integration_id == 7))

no_rows-counted : {R : Type 0} (p : R → Bool) → count_rows p [] ≤ 1
unfolding count_rows
no_rows-counted p = omega arith

run-IsUnique_example : IsUnique (run clients_env between system).clients.tables
run-IsUnique_example = run-IsUnique clients_env between system (record {
  pair = λ c p. no_rows-counted (of_client_and_platform c p);
  token = λ id. no_rows-counted (λ o. o.integration_id == id);
  config = λ id. no_rows-counted (λ o. o.integration_id == id);
  event = λ id e. no_rows-counted (has_event_key id e);
})
