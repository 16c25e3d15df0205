-- ===== src/Clients/Keeps/Services.antt =====
-- The handlers of clients/service against a property of the tables.
use rvpay_go.Base.{String, Bool, Option, none, some}
use rvpay_go.Base.Effect.{Result, ok, err, err_not_found}
use rvpay_go.Base.Pagination.{PaginationRequest}
use rvpay_go.Clients.Model.{
  Uuid, ClientStatus, IntegrationStatus, Client, Integration, Platform, Tables, Db,
}
use rvpay_go.Clients.Keeps.{Keeps, keeps_rules}
use rvpay_go.Clients.Keeps.Repo.{
  AllowsRemoval, AllowsUninstall, Steady, client_changed-Keeps, client_created-Keeps,
  client_deleted-Keeps, integration_changed-Keeps, integration_created-Keeps,
  integration_deleted-Keeps, platform_changed-Keeps, reads_rules,
}
use rvpay_go.Clients.Service.Convert.{UuidText, parse_uuid}
use rvpay_go.Clients.Service.Clients as ClientService
use rvpay_go.Clients.Service.Platforms as PlatformService
use rvpay_go.Clients.Service.Integrations as IntegrationService

module _ {P : Tables → Type 0} (text : UuidText) where
  pub parse_uuid-Keeps : (id : String) → Keeps Db.tables P (parse_uuid text id)
  unfolding parse_uuid
  parse_uuid-Keeps id = search keeps_rules

  no_namesake-Keeps : (r : Result Client) → Keeps Db.tables P (ClientService.no_namesake r)
  unfolding ClientService.no_namesake
  no_namesake-Keeps (ok c) = search keeps_rules
  no_namesake-Keeps (err err_not_found) = search keeps_rules
  no_namesake-Keeps (err _) = search keeps_rules

  find_client-Keeps : (id : String) → Keeps Db.tables P (ClientService.find_client text id)
  unfolding ClientService.find_client
  find_client-Keeps id = search (reads_rules, parse_uuid-Keeps) depth 20

  pub get_client-Keeps : (id : String) → Keeps Db.tables P (ClientService.get_client text id)
  unfolding ClientService.get_client
  get_client-Keeps id = search (keeps_rules, find_client-Keeps) depth 20

  pub list_clients-Keeps :
      (page : Option PaginationRequest) → Keeps Db.tables P (ClientService.list_clients text page)
  unfolding ClientService.list_clients
  list_clients-Keeps page = search reads_rules depth 20

  pub list_platforms-Keeps :
      (page : Option PaginationRequest)
      → Keeps Db.tables P (PlatformService.list_platforms text page)
  unfolding PlatformService.list_platforms
  list_platforms-Keeps page = search reads_rules depth 20

  pub get_platform-Keeps : (id : String) → Keeps Db.tables P (PlatformService.get_platform text id)
  unfolding PlatformService.get_platform
  get_platform-Keeps id = search (reads_rules, parse_uuid-Keeps) depth 20

  pub get_integration-Keeps :
      (id : String) → Keeps Db.tables P (IntegrationService.get_integration text id)
  unfolding IntegrationService.get_integration
  get_integration-Keeps id = search (reads_rules, parse_uuid-Keeps) depth 20

  pub list_integrations-Keeps :
      (id : String) (page : Option PaginationRequest)
      → Keeps Db.tables P (IntegrationService.list_integrations text id page)
  unfolding IntegrationService.list_integrations
  list_integrations-Keeps id page = search reads_rules depth 20

  pub delete_client-Keeps :
      AllowsRemoval P → (id : String) → Keeps Db.tables P (ClientService.delete_client text id)
  unfolding ClientService.delete_client
  delete_client-Keeps removal id =
      search (reads_rules, parse_uuid-Keeps, client_deleted-Keeps removal) depth 20

  not_installed-Keeps :
      (r : Result Integration) → Keeps Db.tables P (IntegrationService.not_installed r)
  unfolding IntegrationService.not_installed
  not_installed-Keeps (ok c) = search keeps_rules
  not_installed-Keeps (err err_not_found) = search keeps_rules
  not_installed-Keeps (err _) = search keeps_rules

  module _ (steady : Steady P) where
    pub create_client-Keeps :
        (name : Option String) → Keeps Db.tables P (ClientService.create_client text name)
    unfolding ClientService.create_client
    create_client-Keeps none = search keeps_rules
    create_client-Keeps (some name) =
        search (reads_rules, no_namesake-Keeps, client_created-Keeps steady) depth 20

    pub update_client-Keeps :
        (id name : String) → Keeps Db.tables P (ClientService.update_client text id name)
    unfolding ClientService.update_client
    update_client-Keeps id name =
        search (reads_rules, parse_uuid-Keeps, client_changed-Keeps steady) depth 20

    set_client_status-Keeps :
        (id : Uuid) (has_it : Bool) (c : Client) (to : ClientStatus)
        → Keeps Db.tables P (ClientService.set_status text id has_it c to)
    unfolding ClientService.set_status
    set_client_status-Keeps id has_it c to =
        search (keeps_rules, client_changed-Keeps steady) depth 20

    pub activate_client-Keeps :
        (id : String) → Keeps Db.tables P (ClientService.activate_client text id)
    unfolding ClientService.activate_client
    activate_client-Keeps id =
        search (reads_rules, parse_uuid-Keeps, set_client_status-Keeps) depth 20

    pub deactivate_client-Keeps :
        (id : String) → Keeps Db.tables P (ClientService.deactivate_client text id)
    unfolding ClientService.deactivate_client
    deactivate_client-Keeps id =
        search (reads_rules, parse_uuid-Keeps, set_client_status-Keeps) depth 20

    set_enabled-Keeps :
        (id : Uuid) (p : Platform) (enabled : Bool)
        → Keeps Db.tables P (PlatformService.set_enabled text id p enabled)
    unfolding PlatformService.set_enabled
    set_enabled-Keeps id p enabled = search (keeps_rules, platform_changed-Keeps steady) depth 20

    pub enable_platform-Keeps :
        (id : String) → Keeps Db.tables P (PlatformService.enable_platform text id)
    unfolding PlatformService.enable_platform
    enable_platform-Keeps id = search (reads_rules, parse_uuid-Keeps, set_enabled-Keeps) depth 20

    pub disable_platform-Keeps :
        (id : String) → Keeps Db.tables P (PlatformService.disable_platform text id)
    unfolding PlatformService.disable_platform
    disable_platform-Keeps id = search (reads_rules, parse_uuid-Keeps, set_enabled-Keeps) depth 20

    pub install_integration-Keeps :
        (r : IntegrationService.InstallIntegrationRequest)
        → Keeps Db.tables P (IntegrationService.install_integration text r)
    unfolding IntegrationService.install_integration
    install_integration-Keeps r =
        search
          (reads_rules, parse_uuid-Keeps, not_installed-Keeps, integration_created-Keeps steady)
          depth 30 fits 3000

    revoke_if_active-Keeps :
        (id : Uuid) (i : Integration)
        → Keeps Db.tables P (IntegrationService.revoke_if_active text id i)
    unfolding IntegrationService.revoke_if_active
    revoke_if_active-Keeps id i = search (keeps_rules, integration_changed-Keeps steady) depth 20

    pub uninstall_integration-Keeps :
        AllowsUninstall P
        → (id : String) → Keeps Db.tables P (IntegrationService.uninstall_integration text id)
    unfolding IntegrationService.uninstall_integration
    uninstall_integration-Keeps removal id =
        search
          (
            reads_rules,
            parse_uuid-Keeps,
            revoke_if_active-Keeps,
            integration_deleted-Keeps steady removal,
          )
          depth 20

    set_integration_status-Keeps :
        (id : Uuid) (to : IntegrationStatus)
        → Keeps Db.tables P (IntegrationService.set_status text id to)
    unfolding IntegrationService.set_status
    set_integration_status-Keeps id to =
        search (keeps_rules, integration_changed-Keeps steady) depth 20

    pub reconnect_integration-Keeps :
        (id : String) → Keeps Db.tables P (IntegrationService.reconnect_integration text id)
    unfolding IntegrationService.reconnect_integration
    reconnect_integration-Keeps id =
        search (reads_rules, parse_uuid-Keeps, set_integration_status-Keeps) depth 20

    pub disconnect_integration-Keeps :
        (id : String) → Keeps Db.tables P (IntegrationService.disconnect_integration text id)
    unfolding IntegrationService.disconnect_integration
    disconnect_integration-Keeps id =
        search (reads_rules, parse_uuid-Keeps, set_integration_status-Keeps) depth 20

    pub sync_integration-Keeps :
        (id : String) → Keeps Db.tables P (IntegrationService.sync_integration text id)
    unfolding IntegrationService.sync_integration
    sync_integration-Keeps id =
        search (reads_rules, parse_uuid-Keeps, set_integration_status-Keeps) depth 20
