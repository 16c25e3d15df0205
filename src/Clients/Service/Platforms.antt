-- ===== src/Clients/Service/Platforms.antt =====
-- clients/service/platforms_service.go: the handlers of the PlatformsService.
use rvpay_go.Base.{String, Bool, not, Option, List, map, if◌then◌else◌}
use rvpay_go.Base.Pagination.{PaginationRequest}
use rvpay_go.Base.Effect.{not_found, Err, status, ok, Action, lift, ◌>>=◌}
use rvpay_go.Clients.Model.{Uuid, Platform, Db}
use rvpay_go.Clients.Errors.{translate, found_or}
use rvpay_go.Clients.Repo.Platforms as PlatformRepo
use rvpay_go.Clients.Service.Convert.{UuidText, PlatformProto, sqlc_platform_to_proto, parse_uuid}
use rvpay_go.Clients.Service.Clients.{page_of}

abbrev pub err_platform_not_found : Err
err_platform_not_found = status not_found "platform not found"

module _ (text : UuidText) where
  unfoldable pub list_platforms : Option PaginationRequest → Action Db (List PlatformProto)
  list_platforms page =
      let (size, offset) = page_of page in
      (translate (PlatformRepo.list size offset) >>= λ platforms.
      lift (ok (map (sqlc_platform_to_proto text) platforms)))

  unfoldable pub get_platform : String → Action Db PlatformProto
  get_platform id = do
    uuid ← parse_uuid text id
    platform ← found_or err_platform_not_found (PlatformRepo.get_by_id uuid)
    lift (ok (sqlc_platform_to_proto text platform))

  -- The flag is written unless the platform has it.
  unfoldable pub set_enabled : Uuid → Platform → Bool → Action Db PlatformProto
  set_enabled uuid platform enabled =
      if (if enabled then platform.enabled else not platform.enabled)
      then lift (ok (sqlc_platform_to_proto text platform))
      else (translate (
            PlatformRepo.update uuid platform.name platform.display_name platform.slug enabled
              platform.oauth_capable platform.webhook_capable)
          >>= λ updated. lift (ok (sqlc_platform_to_proto text updated)))

  unfoldable pub enable_platform : String → Action Db PlatformProto
  unfolding set_enabled
  enable_platform id = do
    uuid ← parse_uuid text id
    platform ← found_or err_platform_not_found (PlatformRepo.get_by_id uuid)
    set_enabled uuid platform Bool.true

  unfoldable pub disable_platform : String → Action Db PlatformProto
  unfolding set_enabled
  disable_platform id = do
    uuid ← parse_uuid text id
    platform ← found_or err_platform_not_found (PlatformRepo.get_by_id uuid)
    set_enabled uuid platform Bool.false
