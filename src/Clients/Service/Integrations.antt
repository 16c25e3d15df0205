-- ===== src/Clients/Service/Integrations.antt =====
-- clients/service/integrations_service.go: the handlers of the IntegrationsService.
use rvpay_go.Base.{String, not, Option, none, some, List, map, if◌then◌else◌}
use rvpay_go.Base.Pagination.{PaginationRequest}
use rvpay_go.Base.Effect.{
  not_found, already_exists, failed_precondition, Err, status, err_not_found, Result, ok, err,
  Action, lift, raise, raise_if, try, ◌>>=◌, ◌>>◌,
}
use rvpay_go.Clients.Model.{Uuid, IntegrationStatus, Integration, Db}
use rvpay_go.Clients.Errors.{translate_error, translate, found_or}
use rvpay_go.Clients.Repo.Clients as ClientRepo
use rvpay_go.Clients.Repo.Clients.{client_is_active}
use rvpay_go.Clients.Repo.Platforms as PlatformRepo
use rvpay_go.Clients.Repo.Integrations as IntegrationRepo
use rvpay_go.Clients.Repo.Integrations.{integration_is_active}
use rvpay_go.Clients.Service.Convert.{
  UuidText, IntegrationProto, sqlc_integration_to_proto, parse_uuid,
}
use rvpay_go.Clients.Service.Clients.{page_of, err_client_not_found}
use rvpay_go.Clients.Service.Platforms.{err_platform_not_found}

abbrev pub err_client_inactive : Err
err_client_inactive = status failed_precondition "client is not active"

abbrev pub err_platform_disabled : Err
err_platform_disabled = status failed_precondition "platform is disabled"

abbrev pub err_integration_not_found : Err
err_integration_not_found = status not_found "integration not found"

abbrev pub err_integration_already_exists : Err
err_integration_already_exists =
    status already_exists "integration already exists for this client and platform"

abbrev pub err_integration_not_active : Err
err_integration_not_active = status failed_precondition "integration is not active"

pub record InstallIntegrationRequest : Type 0 where
  pub client_id : String
  pub platform_id : String
  pub external_account_id : String

-- The outcome of the lookup before an installation.
unfoldable pub not_installed : Result Integration → Action Db (Unit {0})
not_installed (ok _) = raise err_integration_already_exists
not_installed (err err_not_found) = lift (ok tt)
not_installed (err e) = raise (translate_error e)

-- `uuid.Nil`.
abbrev pub nil_uuid : Uuid
nil_uuid = 0

module _ (text : UuidText) where
  unfoldable pub install_integration : InstallIntegrationRequest → Action Db IntegrationProto
  unfolding not_installed
  install_integration req = do
    client_id ← parse_uuid text req.client_id
    platform_id ← parse_uuid text req.platform_id
    client ← found_or err_client_not_found (ClientRepo.get_by_id client_id)
    raise_if (not (client_is_active client)) err_client_inactive
    platform ← found_or err_platform_not_found (PlatformRepo.get_by_id platform_id)
    raise_if (not platform.enabled) err_platform_disabled
    existing ← try (IntegrationRepo.get_by_client_and_platform client_id platform_id)
    not_installed existing
    integration ← translate (
        IntegrationRepo.create client_id platform_id req.external_account_id
          IntegrationStatus.created)
    lift (ok (sqlc_integration_to_proto text integration))

  -- An active integration is revoked before it is removed.
  unfoldable pub revoke_if_active : Uuid → Integration → Action Db (Unit {0})
  revoke_if_active id i =
      if integration_is_active i
      then (translate (IntegrationRepo.update_status id IntegrationStatus.revoked) >>= λ _.
          lift (ok tt))
      else lift (ok tt)

  unfoldable pub uninstall_integration : String → Action Db String
  unfolding revoke_if_active
  uninstall_integration id = do
    uuid ← parse_uuid text id
    integration ← found_or err_integration_not_found (IntegrationRepo.get_by_id uuid)
    revoke_if_active uuid integration
    translate (IntegrationRepo.delete uuid)
    lift (ok (text.uuid_string uuid))

  unfoldable pub get_integration : String → Action Db IntegrationProto
  get_integration id = do
    uuid ← parse_uuid text id
    integration ← found_or err_integration_not_found (IntegrationRepo.get_by_id uuid)
    lift (ok (sqlc_integration_to_proto text integration))

  -- The integrations of a client; for an id that is no UUID, those of `uuid.Nil`.
  unfoldable pub list_integrations :
      String → Option PaginationRequest → Action Db (List IntegrationProto)
  list_integrations client_id page =
      let (size, offset) = page_of page in
      let client = elim (text.parse client_id) as (λ _. Uuid) [ some id ↦ id | none ↦ nil_uuid ] in
      (translate (IntegrationRepo.list_by_client client size offset) >>= λ integrations.
      lift (ok (map (sqlc_integration_to_proto text) integrations)))

  unfoldable pub set_status : Uuid → IntegrationStatus → Action Db IntegrationProto
  set_status uuid to = do
    updated ← translate (IntegrationRepo.update_status uuid to)
    lift (ok (sqlc_integration_to_proto text updated))

  unfoldable pub reconnect_integration : String → Action Db IntegrationProto
  unfolding set_status
  reconnect_integration id = do
    uuid ← parse_uuid text id
    integration ← found_or err_integration_not_found (IntegrationRepo.get_by_id uuid)
    raise_if (not (integration_is_active integration)) err_integration_not_active
    set_status uuid IntegrationStatus.created

  unfoldable pub disconnect_integration : String → Action Db IntegrationProto
  unfolding set_status
  disconnect_integration id = do
    uuid ← parse_uuid text id
    integration ← found_or err_integration_not_found (IntegrationRepo.get_by_id uuid)
    set_status uuid IntegrationStatus.revoked

  unfoldable pub sync_integration : String → Action Db IntegrationProto
  unfolding set_status
  sync_integration id = do
    uuid ← parse_uuid text id
    integration ← found_or err_integration_not_found (IntegrationRepo.get_by_id uuid)
    raise_if (not (integration_is_active integration)) err_integration_not_active
    set_status uuid IntegrationStatus.active
