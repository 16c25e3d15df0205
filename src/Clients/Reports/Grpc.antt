-- ===== src/Clients/Reports/Grpc.antt =====
-- The errors of the gRPC services of clients/service.
use rvpay_go.Base.{true, Option, none, some, ◌≡◌, arith}
use rvpay_go.Base.Effect.{Err, Result, ok, err, Action}
use rvpay_go.Clients.Model.{Db}
use rvpay_go.Clients.Reports.{is_status, Reports}
use rvpay_go.Clients.Reports.Handlers.{
  create_client-Reports, get_client-Reports, list_clients-Reports, update_client-Reports,
  delete_client-Reports, activate_client-Reports, deactivate_client-Reports, list_platforms-Reports,
  get_platform-Reports, enable_platform-Reports, disable_platform-Reports,
  install_integration-Reports, uninstall_integration-Reports, get_integration-Reports,
  list_integrations-Reports, reconnect_integration-Reports, disconnect_integration-Reports,
  sync_integration-Reports,
}
use rvpay_go.Clients.Runs.{
  Call, create_client, get_client, list_clients, update_client, delete_client, activate_client,
  deactivate_client, list_platforms, get_platform, enable_platform, disable_platform,
  install_integration, uninstall_integration, get_integration, list_integrations,
  reconnect_integration, disconnect_integration, sync_integration, authorize_url, authorize,
  oauth_callback, register_payments, refresh_token, check_token, subscribe, unsubscribe,
  provider_webhook, payment_query, payment_webhook,
}
use rvpay_go.Clients.Service.Convert.{UuidText}
use rvpay_go.Clients.Service.Clients as ClientService
use rvpay_go.Clients.Service.Platforms as PlatformService
use rvpay_go.Clients.Service.Integrations as IntegrationService

-- The error that a handler ends with.
abbrev pub failure : {A : Type 0} → Action Db A → Db → Option Err
failure m db = elim (m db).0 [ ok _ ↦ none | err e ↦ some e ]

failure-status :
    {A : Type 0} (m : Action Db A)
    → Reports m
    → (db : Db) (e : Err) → failure m db ≡ some e
    → is_status e ≡ true
failure-status {A} m r db e = go (m db).0 (r.at db)
  where
    go :
        (x : Result A)
        → ((y : Err) → x ≡ err y → is_status y ≡ true)
        → elim x as (λ _. Option Err) [ ok _ ↦ none | err y ↦ some y ] ≡ some e
        → is_status e ≡ true
    go (ok a) k h = cc
    go (err y) k h = k e (ground arith)

-- The error of a call of the ClientsService, the PlatformsService or the IntegrationsService.
unfoldable pub grpc_failure : UuidText → Call → Db → Option Err
grpc_failure text (create_client name) db = failure (ClientService.create_client text name) db
grpc_failure text (get_client id) db = failure (ClientService.get_client text id) db
grpc_failure text (list_clients page) db = failure (ClientService.list_clients text page) db
grpc_failure text (update_client id name) db = failure (ClientService.update_client text id name) db
grpc_failure text (delete_client id) db = failure (ClientService.delete_client text id) db
grpc_failure text (activate_client id) db = failure (ClientService.activate_client text id) db
grpc_failure text (deactivate_client id) db = failure (ClientService.deactivate_client text id) db
grpc_failure text (list_platforms page) db = failure (PlatformService.list_platforms text page) db
grpc_failure text (get_platform id) db = failure (PlatformService.get_platform text id) db
grpc_failure text (enable_platform id) db = failure (PlatformService.enable_platform text id) db
grpc_failure text (disable_platform id) db = failure (PlatformService.disable_platform text id) db
grpc_failure text (install_integration r) db =
    failure (IntegrationService.install_integration text r) db
grpc_failure text (uninstall_integration id) db =
    failure (IntegrationService.uninstall_integration text id) db
grpc_failure text (get_integration id) db = failure (IntegrationService.get_integration text id) db
grpc_failure text (list_integrations id page) db =
    failure (IntegrationService.list_integrations text id page) db
grpc_failure text (reconnect_integration id) db =
    failure (IntegrationService.reconnect_integration text id) db
grpc_failure text (disconnect_integration id) db =
    failure (IntegrationService.disconnect_integration text id) db
grpc_failure text (sync_integration id) db =
    failure (IntegrationService.sync_integration text id) db
grpc_failure text _ db = none

-- Whatever a call of the three gRPC services is given, and whatever the database does, an error of it
-- is a gRPC status: no error of the database reaches the caller.
pub grpc_reports :
    (text : UuidText) (c : Call) (db : Db) (e : Err)
    → grpc_failure text c db ≡ some e
    → is_status e ≡ true
unfolding grpc_failure
grpc_reports text (create_client name) db e h =
    failure-status (ClientService.create_client text name) (create_client-Reports text name) db e h
grpc_reports text (get_client id) db e h =
    failure-status (ClientService.get_client text id) (get_client-Reports text id) db e h
grpc_reports text (list_clients page) db e h =
    failure-status (ClientService.list_clients text page) (list_clients-Reports text page) db e h
grpc_reports text (update_client id name) db e h =
    failure-status (ClientService.update_client text id name) (update_client-Reports text id name)
      db e h
grpc_reports text (delete_client id) db e h =
    failure-status (ClientService.delete_client text id) (delete_client-Reports text id) db e h
grpc_reports text (activate_client id) db e h =
    failure-status (ClientService.activate_client text id) (activate_client-Reports text id) db e h
grpc_reports text (deactivate_client id) db e h =
    failure-status (ClientService.deactivate_client text id) (deactivate_client-Reports text id) db
      e h
grpc_reports text (list_platforms page) db e h =
    failure-status (PlatformService.list_platforms text page) (list_platforms-Reports text page) db
      e h
grpc_reports text (get_platform id) db e h =
    failure-status (PlatformService.get_platform text id) (get_platform-Reports text id) db e h
grpc_reports text (enable_platform id) db e h =
    failure-status (PlatformService.enable_platform text id) (enable_platform-Reports text id) db e
      h
grpc_reports text (disable_platform id) db e h =
    failure-status (PlatformService.disable_platform text id) (disable_platform-Reports text id) db
      e h
grpc_reports text (install_integration r) db e h =
    failure-status (IntegrationService.install_integration text r)
      (install_integration-Reports text r) db e h
grpc_reports text (uninstall_integration id) db e h =
    failure-status (IntegrationService.uninstall_integration text id)
      (uninstall_integration-Reports text id) db e h
grpc_reports text (get_integration id) db e h =
    failure-status (IntegrationService.get_integration text id) (get_integration-Reports text id) db
      e h
grpc_reports text (list_integrations id page) db e h =
    failure-status (IntegrationService.list_integrations text id page)
      (list_integrations-Reports text id page) db e h
grpc_reports text (reconnect_integration id) db e h =
    failure-status (IntegrationService.reconnect_integration text id)
      (reconnect_integration-Reports text id) db e h
grpc_reports text (disconnect_integration id) db e h =
    failure-status (IntegrationService.disconnect_integration text id)
      (disconnect_integration-Reports text id) db e h
grpc_reports text (sync_integration id) db e h =
    failure-status (IntegrationService.sync_integration text id) (sync_integration-Reports text id)
      db e h
grpc_reports text (authorize_url client platform state) db e h = cc
grpc_reports text (authorize client platform) db e h = cc
grpc_reports text (oauth_callback code state) db e h = cc
grpc_reports text (register_payments id location token) db e h = cc
grpc_reports text (refresh_token id) db e h = cc
grpc_reports text (check_token id) db e h = cc
grpc_reports text (subscribe id url) db e h = cc
grpc_reports text (unsubscribe id) db e h = cc
grpc_reports text (provider_webhook id headers body) db e h = cc
grpc_reports text (payment_query req) db e h = cc
grpc_reports text (payment_webhook body) db e h = cc
