-- ===== src/Clients/Reports/Handlers.antt =====
-- The handlers of the clients service (clients/service, clients/oauth, clients/webhooks) report
-- statuses.
use rvpay_go.Base.{String, true, Option, none, some, ◌≡◌, refl, arith}
use rvpay_go.Base.Pagination.{PaginationRequest}
use rvpay_go.Base.Effect.{
  Err, status, err_not_found, err_duplicate, err_constraint, no_rows, pg_error, other, Result, ok,
  err, Action, raise,
}
use rvpay_go.Clients.Model.{Uuid, IntegrationStatus, Client, Integration, OauthState, Db}
use rvpay_go.Clients.Errors.{translate}
use rvpay_go.Clients.Reports.{
  is_status, Reports, Reports-bind, Reports-try, Reports-status, reports_rules,
}
use rvpay_go.Clients.Repo.Integrations as IntegrationRepo
use rvpay_go.Clients.Repo.OauthStates as OauthStateRepo
use rvpay_go.Clients.Oauth
use rvpay_go.Clients.Oauth.{OauthEnv}
use rvpay_go.Clients.Oauth.Callback
use rvpay_go.Clients.Service.Convert.{UuidText, parse_uuid}
use rvpay_go.Clients.Service.Clients as ClientService
use rvpay_go.Clients.Service.Platforms as PlatformService
use rvpay_go.Clients.Service.Integrations as IntegrationService

module _ (text : UuidText) where
  parse_uuid-Reports : (id : String) → Reports (parse_uuid text id)
  unfolding parse_uuid
  parse_uuid-Reports id = search reports_rules

  no_namesake-Reports : (r : Result Client) → Reports (ClientService.no_namesake r)
  unfolding ClientService.no_namesake
  no_namesake-Reports (ok c) = search reports_rules
  no_namesake-Reports (err (status c m)) = search reports_rules depth 20
  no_namesake-Reports (err err_not_found) = search reports_rules depth 20
  no_namesake-Reports (err err_duplicate) = search reports_rules depth 20
  no_namesake-Reports (err err_constraint) = search reports_rules depth 20
  no_namesake-Reports (err no_rows) = search reports_rules depth 20
  no_namesake-Reports (err (pg_error c)) = search reports_rules depth 20
  no_namesake-Reports (err (other m)) = search reports_rules depth 20

  not_installed-Reports : (r : Result Integration) → Reports (IntegrationService.not_installed r)
  unfolding IntegrationService.not_installed
  not_installed-Reports (ok c) = search reports_rules
  not_installed-Reports (err (status c m)) = search reports_rules depth 20
  not_installed-Reports (err err_not_found) = search reports_rules depth 20
  not_installed-Reports (err err_duplicate) = search reports_rules depth 20
  not_installed-Reports (err err_constraint) = search reports_rules depth 20
  not_installed-Reports (err no_rows) = search reports_rules depth 20
  not_installed-Reports (err (pg_error c)) = search reports_rules depth 20
  not_installed-Reports (err (other m)) = search reports_rules depth 20

  ruleset handler_rules =
      (reports_rules, parse_uuid-Reports, no_namesake-Reports, not_installed-Reports)

  pub create_client-Reports :
      (name : Option String) → Reports (ClientService.create_client text name)
  unfolding ClientService.create_client
  create_client-Reports none = search reports_rules
  create_client-Reports (some name) = search handler_rules depth 30 fits 3000

  pub get_client-Reports : (id : String) → Reports (ClientService.get_client text id)
  unfolding ClientService.get_client ClientService.find_client
  get_client-Reports id = search handler_rules depth 30 fits 3000

  pub list_clients-Reports :
      (page : Option PaginationRequest) → Reports (ClientService.list_clients text page)
  unfolding ClientService.list_clients
  list_clients-Reports page = search handler_rules depth 30 fits 3000

  pub update_client-Reports :
      (id name : String) → Reports (ClientService.update_client text id name)
  unfolding ClientService.update_client
  update_client-Reports id name = search handler_rules depth 30 fits 3000

  pub delete_client-Reports : (id : String) → Reports (ClientService.delete_client text id)
  unfolding ClientService.delete_client
  delete_client-Reports id = search handler_rules depth 30 fits 3000

  pub activate_client-Reports : (id : String) → Reports (ClientService.activate_client text id)
  unfolding ClientService.activate_client ClientService.set_status
  activate_client-Reports id = search handler_rules depth 30 fits 3000

  pub deactivate_client-Reports : (id : String) → Reports (ClientService.deactivate_client text id)
  unfolding ClientService.deactivate_client ClientService.set_status
  deactivate_client-Reports id = search handler_rules depth 30 fits 3000

  pub list_platforms-Reports :
      (page : Option PaginationRequest) → Reports (PlatformService.list_platforms text page)
  unfolding PlatformService.list_platforms
  list_platforms-Reports page = search handler_rules depth 30 fits 3000

  pub get_platform-Reports : (id : String) → Reports (PlatformService.get_platform text id)
  unfolding PlatformService.get_platform
  get_platform-Reports id = search handler_rules depth 30 fits 3000

  pub enable_platform-Reports : (id : String) → Reports (PlatformService.enable_platform text id)
  unfolding PlatformService.enable_platform PlatformService.set_enabled
  enable_platform-Reports id = search handler_rules depth 30 fits 3000

  pub disable_platform-Reports : (id : String) → Reports (PlatformService.disable_platform text id)
  unfolding PlatformService.disable_platform PlatformService.set_enabled
  disable_platform-Reports id = search handler_rules depth 30 fits 3000

  pub install_integration-Reports :
      (r : IntegrationService.InstallIntegrationRequest)
      → Reports (IntegrationService.install_integration text r)
  unfolding IntegrationService.install_integration
  install_integration-Reports r = search handler_rules depth 30 fits 3000

  pub uninstall_integration-Reports :
      (id : String) → Reports (IntegrationService.uninstall_integration text id)
  unfolding IntegrationService.uninstall_integration IntegrationService.revoke_if_active
  uninstall_integration-Reports id = search handler_rules depth 30 fits 3000

  pub get_integration-Reports : (id : String) → Reports (IntegrationService.get_integration text id)
  unfolding IntegrationService.get_integration
  get_integration-Reports id = search handler_rules depth 30 fits 3000

  pub list_integrations-Reports :
      (id : String) (page : Option PaginationRequest)
      → Reports (IntegrationService.list_integrations text id page)
  unfolding IntegrationService.list_integrations
  list_integrations-Reports id page = search handler_rules depth 30 fits 3000

  pub reconnect_integration-Reports :
      (id : String) → Reports (IntegrationService.reconnect_integration text id)
  unfolding IntegrationService.reconnect_integration IntegrationService.set_status
  reconnect_integration-Reports id = search handler_rules depth 30 fits 3000

  pub disconnect_integration-Reports :
      (id : String) → Reports (IntegrationService.disconnect_integration text id)
  unfolding IntegrationService.disconnect_integration IntegrationService.set_status
  disconnect_integration-Reports id = search handler_rules depth 30 fits 3000

  pub sync_integration-Reports :
      (id : String) → Reports (IntegrationService.sync_integration text id)
  unfolding IntegrationService.sync_integration IntegrationService.set_status
  sync_integration-Reports id = search handler_rules depth 30 fits 3000

state_error-status : (r : Result OauthState) → is_status (Callback.state_error r) ≡ true
unfolding Callback.state_error is_status
state_error-status (ok row) = ground arith
state_error-status (err e) = refl

consumed_state-Reports :
    (state : String) (r : Result OauthState) → Reports (Callback.consumed_state state r)
unfolding Callback.consumed_state
consumed_state-Reports state (ok row) = search reports_rules
consumed_state-Reports state (err err_not_found) =
    Reports-bind _ _ (Reports-try (OauthStateRepo.get_by_state state))
      (λ r. Reports-status (Callback.state_error r) (state_error-status r))
consumed_state-Reports state (err (status c m)) = search reports_rules
consumed_state-Reports state (err err_duplicate) = search reports_rules
consumed_state-Reports state (err err_constraint) = search reports_rules
consumed_state-Reports state (err no_rows) = search reports_rules
consumed_state-Reports state (err (pg_error c)) = search reports_rules
consumed_state-Reports state (err (other m)) = search reports_rules

location_integration-Reports :
    (location : String) (r : Result Integration)
    → Reports (Callback.location_integration location r)
unfolding Callback.location_integration
location_integration-Reports location (ok i) = search reports_rules
location_integration-Reports location (err (status c m)) = search reports_rules depth 20
location_integration-Reports location (err err_not_found) = search reports_rules depth 20
location_integration-Reports location (err err_duplicate) = search reports_rules depth 20
location_integration-Reports location (err err_constraint) = search reports_rules depth 20
location_integration-Reports location (err no_rows) = search reports_rules depth 20
location_integration-Reports location (err (pg_error c)) = search reports_rules depth 20
location_integration-Reports location (err (other m)) = search reports_rules depth 20

install-Reports :
    (client platform : Uuid) (user : String) (r : Result Integration)
    → Reports (Callback.install client platform user r)
unfolding Callback.install
install-Reports client platform user (ok i) = known i.status
  where
    known :
        (s : IntegrationStatus)
        → Reports (elim s as (λ _. Action Db Integration) [
          | IntegrationStatus.created ↦
              translate (IntegrationRepo.update_status i.id IntegrationStatus.active)
          | _ ↦ raise Callback.err_integration_already_exists
        ])
    known IntegrationStatus.created = search reports_rules
    known IntegrationStatus.oauth_pending = search reports_rules
    known IntegrationStatus.active = search reports_rules
    known IntegrationStatus.revoked = search reports_rules
install-Reports client platform user (err (status c m)) = search reports_rules
install-Reports client platform user (err err_not_found) = search reports_rules
install-Reports client platform user (err err_duplicate) = search reports_rules
install-Reports client platform user (err err_constraint) = search reports_rules
install-Reports client platform user (err no_rows) = search reports_rules
install-Reports client platform user (err (pg_error c)) = search reports_rules
install-Reports client platform user (err (other m)) = search reports_rules

module _ (env : OauthEnv) where
  process_callback-Reports :
      (client platform : Uuid) (code : String)
      → Reports (Callback.process_callback env client platform code)
  unfolding Callback.process_callback Callback.complete Callback.persist Callback.store_token
      Callback.follow_up Oauth.enabled_platform Oauth.active_client Oauth.provider_of
  process_callback-Reports client platform code =
      search (reports_rules, install-Reports) depth 60 fits 8000

  -- `HandleCallback` fails with a gRPC status only: no error of the database, of the provider or of
  -- its HTTP client reaches the caller.
  pub handle_callback_reports :
      (code state : String) (db : Db) (e : Err)
      → (Callback.handle_callback env code state db).0 ≡ err e
      → is_status e ≡ true
  unfolding Callback.handle_callback Callback.handle_callback_with_state
      Callback.handle_callback_by_location Oauth.provider_of
  handle_callback_reports code state db e h =
      let reports : Reports (Callback.handle_callback env code state) =
        search
          (
            reports_rules, consumed_state-Reports, location_integration-Reports,
            process_callback-Reports,
          )
          depth 60 fits 8000 in
      reports.at db e h
