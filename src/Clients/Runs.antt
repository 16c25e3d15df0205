-- ===== src/Clients/Runs.antt =====
-- The calls that reach the clients service: those of its gRPC services (clients/service), of its
-- HTTP endpoints (clients/http) and of the flows of clients/oauth and clients/webhooks, one after
-- another.
pub mod States
pub mod Unique
pub mod Once
use rvpay_go.Base.{ℕ, String, Bool, true, false, Option, none, some, List, [], ◌∷◌, ◌≡◌, refl}
use rvpay_go.Base.Pagination.{PaginationRequest}
use rvpay_go.Base.Effect.{Action}
use rvpay_go.Clients.Model.{Uuid, Tables, Db}
use rvpay_go.Clients.Keeps.{Keeps}
use rvpay_go.Clients.Keeps.Repo.{Steady, AllowsRemoval, AllowsUninstall}
use rvpay_go.Clients.Keeps.Services.{
  get_client-Keeps, list_clients-Keeps, list_platforms-Keeps, get_platform-Keeps,
  get_integration-Keeps, list_integrations-Keeps, delete_client-Keeps, create_client-Keeps,
  update_client-Keeps, activate_client-Keeps, deactivate_client-Keeps, enable_platform-Keeps,
  disable_platform-Keeps, install_integration-Keeps, uninstall_integration-Keeps,
  reconnect_integration-Keeps, disconnect_integration-Keeps, sync_integration-Keeps,
}
use rvpay_go.Clients.Keeps.Flows.{
  validate_token-Keeps, authorization_url-Keeps, begin_authorization-Keeps,
  refresh_access_token-Keeps, register_provider-Keeps, handle_callback-Keeps,
}
use rvpay_go.Clients.Keeps.Deliveries.{
  dispatch-Keeps, handle_query-Keeps, handle_webhook-Keeps, register_webhook-Keeps,
  unregister_webhook-Keeps, process_webhook-Keeps,
}
use rvpay_go.Clients.Providers.{Headers, ProviderEvent, ProviderConfigSettings, Registry}
use rvpay_go.Clients.Providers.Dispatcher.{dispatch}
use rvpay_go.Clients.Webhooks.{
  WebhookEnv, register_webhook, unregister_webhook, process_webhook, run_dispatcher,
}
use rvpay_go.Clients.Oauth.{OauthEnv, authorization_url, begin_authorization}
use rvpay_go.Clients.Oauth.Registration.{register_provider}
use rvpay_go.Clients.Oauth.Tokens.{refresh_access_token, validate_token}
use rvpay_go.Clients.Oauth.Callback.{handle_callback, process_callback}
use rvpay_go.Clients.Payments.{PaymentsEnv, System, QueryRequest, handle_query, handle_webhook}
use rvpay_go.Clients.Service.Convert.{UuidText}
use rvpay_go.Clients.Service.Clients as ClientService
use rvpay_go.Clients.Service.Platforms as PlatformService
use rvpay_go.Clients.Service.Integrations as IntegrationService
use rvpay_go.Clients.Service.Integrations.{InstallIntegrationRequest}

-- What clients/cmd/grpc-service/main.go puts together.
pub record ClientsEnv : Type 0 where
  pub text : UuidText
  pub oauth : OauthEnv
  pub payments : PaymentsEnv
  pub settings : ProviderConfigSettings
  pub marshal : String → Option String

abbrev pub webhook_env : ClientsEnv → WebhookEnv
webhook_env env = record {
  registry = env.oauth.registry;
  dispatcher = some (dispatch env.settings);
  uuid_string = env.text.uuid_string;
  parse_uuid = env.text.parse;
  marshal = env.marshal;
}

pub data Call : Type 0 where
  create_client : Option String → Call
  get_client : String → Call
  list_clients : Option PaginationRequest → Call
  update_client : (id name : String) → Call
  delete_client : String → Call
  activate_client : String → Call
  deactivate_client : String → Call
  list_platforms : Option PaginationRequest → Call
  get_platform : String → Call
  enable_platform : String → Call
  disable_platform : String → Call
  install_integration : InstallIntegrationRequest → Call
  uninstall_integration : String → Call
  get_integration : String → Call
  list_integrations : String → Option PaginationRequest → Call
  reconnect_integration : String → Call
  disconnect_integration : String → Call
  sync_integration : String → Call
  authorize_url : (client_id platform_id : Uuid) → String → Call
  authorize : (client_id platform_id : Uuid) → Call
  oauth_callback : (code state : String) → Call
  register_payments : Uuid → (location_id access_token : String) → Call
  refresh_token : Uuid → Call
  check_token : Uuid → Call
  subscribe : Uuid → String → Call
  unsubscribe : Uuid → Call
  provider_webhook : String → Headers → String → Call
  payment_query : Option QueryRequest → Call
  payment_webhook : String → Call

-- A call on the clients service's own database.
abbrev pub after : {A : Type 0} → Action Db A → System → System
after m w = record w { clients = (m w.clients).1 }

unfoldable pub step : ClientsEnv → Call → System → System
step env (create_client name) w = after (ClientService.create_client env.text name) w
step env (get_client id) w = after (ClientService.get_client env.text id) w
step env (list_clients page) w = after (ClientService.list_clients env.text page) w
step env (update_client id name) w = after (ClientService.update_client env.text id name) w
step env (delete_client id) w = after (ClientService.delete_client env.text id) w
step env (activate_client id) w = after (ClientService.activate_client env.text id) w
step env (deactivate_client id) w = after (ClientService.deactivate_client env.text id) w
step env (list_platforms page) w = after (PlatformService.list_platforms env.text page) w
step env (get_platform id) w = after (PlatformService.get_platform env.text id) w
step env (enable_platform id) w = after (PlatformService.enable_platform env.text id) w
step env (disable_platform id) w = after (PlatformService.disable_platform env.text id) w
step env (install_integration r) w = after (IntegrationService.install_integration env.text r) w
step env (uninstall_integration id) w =
    after (IntegrationService.uninstall_integration env.text id) w
step env (get_integration id) w = after (IntegrationService.get_integration env.text id) w
step env (list_integrations id page) w =
    after (IntegrationService.list_integrations env.text id page) w
step env (reconnect_integration id) w =
    after (IntegrationService.reconnect_integration env.text id) w
step env (disconnect_integration id) w =
    after (IntegrationService.disconnect_integration env.text id) w
step env (sync_integration id) w = after (IntegrationService.sync_integration env.text id) w
step env (authorize_url client platform state) w =
    after (authorization_url env.oauth client platform state) w
step env (authorize client platform) w = after (begin_authorization env.oauth client platform) w
step env (oauth_callback code state) w = after (handle_callback env.oauth code state) w
step env (register_payments id location token) w =
    after (register_provider env.oauth id location token) w
step env (refresh_token id) w = after (refresh_access_token env.oauth id) w
step env (check_token id) w = after (validate_token env.oauth id) w
step env (subscribe id url) w = after (register_webhook (webhook_env env) id url) w
step env (unsubscribe id) w = after (unregister_webhook (webhook_env env) id) w
step env (provider_webhook id headers body) w =
    after (process_webhook (webhook_env env) id headers body) w
step env (payment_query req) w = (handle_query env.payments req w).1
step env (payment_webhook body) w = (handle_webhook env.payments body w).1

unfoldable pub run : ClientsEnv → List Call → System → System
unfolding step
run env [] w = w
run env (c ∷ cs) w = run env cs (step env c w)

-- The calls that remove a client.
abbrev pub removes_client : Call → Bool
removes_client (delete_client _) = true
removes_client _ = false

-- The calls that remove an integration.
abbrev pub removes_integration : Call → Bool
removes_integration (uninstall_integration _) = true
removes_integration _ = false

-- No call of the list removes an integration.
abbrev pub UninstallNone : List Call → Type 0
UninstallNone [] = Unit {0}
UninstallNone (c ∷ cs) = (removes_integration c ≡ false) × UninstallNone cs

-- No call of the list removes a client.
abbrev pub RemoveNone : List Call → Type 0
RemoveNone [] = Unit {0}
RemoveNone (c ∷ cs) = (removes_client c ≡ false) × RemoveNone cs

module _ {P : Tables → Type 0} (env : ClientsEnv) (steady : Steady P) where
  pub dispatched :
      (event : ProviderEvent) → Keeps Db.tables P (run_dispatcher (webhook_env env) event)
  unfolding run_dispatcher
  dispatched event = dispatch-Keeps steady env.settings event

  step_keeps :
      (c : Call) (w : System)
      → (removes_client c ≡ true → AllowsRemoval P)
      → (removes_integration c ≡ true → AllowsUninstall P)
      → P w.clients.tables
      → P (step env c w).clients.tables
  unfolding step
  step_keeps (create_client name) w r u h =
      (create_client-Keeps env.text steady name).at w.clients h
  step_keeps (get_client id) w r u h = (get_client-Keeps {P = P} env.text id).at w.clients h
  step_keeps (list_clients page) w r u h = (list_clients-Keeps {P = P} env.text page).at w.clients h
  step_keeps (update_client id name) w r u h =
      (update_client-Keeps env.text steady id name).at w.clients h
  step_keeps (delete_client id) w r u h = (delete_client-Keeps env.text (r refl) id).at w.clients h
  step_keeps (activate_client id) w r u h =
      (activate_client-Keeps env.text steady id).at w.clients h
  step_keeps (deactivate_client id) w r u h =
      (deactivate_client-Keeps env.text steady id).at w.clients h
  step_keeps (list_platforms page) w r u h =
      (list_platforms-Keeps {P = P} env.text page).at w.clients h
  step_keeps (get_platform id) w r u h = (get_platform-Keeps {P = P} env.text id).at w.clients h
  step_keeps (enable_platform id) w r u h =
      (enable_platform-Keeps env.text steady id).at w.clients h
  step_keeps (disable_platform id) w r u h =
      (disable_platform-Keeps env.text steady id).at w.clients h
  step_keeps (install_integration q) w r u h =
      (install_integration-Keeps env.text steady q).at w.clients h
  step_keeps (uninstall_integration id) w r u h =
      (uninstall_integration-Keeps env.text steady (u refl) id).at w.clients h
  step_keeps (get_integration id) w r u h =
      (get_integration-Keeps {P = P} env.text id).at w.clients h
  step_keeps (list_integrations id page) w r u h =
      (list_integrations-Keeps {P = P} env.text id page).at w.clients h
  step_keeps (reconnect_integration id) w r u h =
      (reconnect_integration-Keeps env.text steady id).at w.clients h
  step_keeps (disconnect_integration id) w r u h =
      (disconnect_integration-Keeps env.text steady id).at w.clients h
  step_keeps (sync_integration id) w r u h =
      (sync_integration-Keeps env.text steady id).at w.clients h
  step_keeps (authorize_url client platform state) w r u h =
      (authorization_url-Keeps {P = P} env.oauth client platform state).at w.clients h
  step_keeps (authorize client platform) w r u h =
      (begin_authorization-Keeps env.oauth steady client platform).at w.clients h
  step_keeps (oauth_callback code state) w r u h =
      (handle_callback-Keeps env.oauth steady code state).at w.clients h
  step_keeps (register_payments id location token) w r u h =
      (register_provider-Keeps env.oauth steady.configs id location token).at w.clients h
  step_keeps (refresh_token id) w r u h =
      (refresh_access_token-Keeps env.oauth steady id).at w.clients h
  step_keeps (check_token id) w r u h = (validate_token-Keeps {P = P} env.oauth id).at w.clients h
  step_keeps (subscribe id url) w r u h =
      (register_webhook-Keeps steady (webhook_env env) dispatched id url).at w.clients h
  step_keeps (unsubscribe id) w r u h =
      (unregister_webhook-Keeps steady (webhook_env env) dispatched id).at w.clients h
  step_keeps (provider_webhook id headers body) w r u h =
      (process_webhook-Keeps steady (webhook_env env) dispatched id headers body).at w.clients h
  step_keeps (payment_query req) w r u h = (handle_query-Keeps {P = P} env.payments req).at w h
  step_keeps (payment_webhook body) w r u h = (handle_webhook-Keeps steady env.payments body).at w h

  -- A list of calls keeps what every statement keeps, if it keeps it when a client or an integration
  -- is removed.
  pub run_keeps :
      AllowsRemoval P
      → AllowsUninstall P
      → (cs : List Call) (w : System) → P w.clients.tables
      → P (run env cs w).clients.tables
  unfolding run
  run_keeps removal uninstall [] w h = h
  run_keeps removal uninstall (c ∷ cs) w h =
      run_keeps removal uninstall cs (step env c w)
        (step_keeps c w (λ e. removal) (λ e. uninstall) h)

  -- The same of calls that remove no client.
  pub run_keeps_without_removal :
      AllowsUninstall P
      → (cs : List Call) (w : System) → RemoveNone cs
      → P w.clients.tables
      → P (run env cs w).clients.tables
  unfolding run
  run_keeps_without_removal uninstall [] w n h = h
  run_keeps_without_removal uninstall (c ∷ cs) w (n, ns) h =
      run_keeps_without_removal uninstall cs (step env c w) ns
        (step_keeps c w (λ e. cc) (λ e. uninstall) h)

  -- The same of calls that remove no integration.
  pub run_keeps_without_uninstall :
      AllowsRemoval P
      → (cs : List Call) (w : System) → UninstallNone cs
      → P w.clients.tables
      → P (run env cs w).clients.tables
  unfolding run
  run_keeps_without_uninstall removal [] w n h = h
  run_keeps_without_uninstall removal (c ∷ cs) w (n, ns) h =
      run_keeps_without_uninstall removal cs (step env c w) ns
        (step_keeps c w (λ e. removal) (λ e. cc) h)
