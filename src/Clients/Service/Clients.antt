-- ===== src/Clients/Service/Clients.antt =====
-- clients/service/clients_service.go: the handlers of the ClientsService. A request that is only
-- read through its getters is its fields.
use rvpay_go.Base.{ℕ, String, Bool, Option, none, some, List, map, if◌then◌else◌}
use rvpay_go.Base.Text.{is_empty}
use rvpay_go.Base.Pagination.{PaginationRequest, requested_size, default_page_size}
use rvpay_go.Base.Effect.{
  invalid_argument, not_found, already_exists, failed_precondition, Err, status, err_not_found,
  Result, ok, err, Action, lift, raise, raise_if, try, ◌>>=◌, ◌>>◌,
}
use rvpay_go.Clients.Model.{Uuid, ClientStatus, Client, Db}
use rvpay_go.Clients.Errors.{translate_error, translate, found_or}
use rvpay_go.Clients.Repo.Clients as ClientRepo
use rvpay_go.Clients.Repo.Clients.{client_is_active}
use rvpay_go.Clients.Service.Convert.{UuidText, ClientProto, sqlc_client_to_proto, parse_uuid}

abbrev pub err_client_not_found : Err
err_client_not_found = status not_found "client not found"

abbrev pub err_client_already_exists : Err
err_client_already_exists = status already_exists "client already exists"

abbrev pub err_client_has_integrations : Err
err_client_has_integrations = status failed_precondition "client has active integrations"

-- The page size and the offset of the three lists: any page token leads to the second page.
unfoldable pub page_of : Option PaginationRequest → ℕ × ℕ
page_of none = (default_page_size, 0)
page_of (some page) =
    let size = requested_size page.page_size in (size, if is_empty page.page_token then 0 else size)

-- The outcome of `GetByName` before a creation.
unfoldable pub no_namesake : Result Client → Action Db (Unit {0})
no_namesake (ok _) = raise err_client_already_exists
no_namesake (err err_not_found) = lift (ok tt)
no_namesake (err e) = raise (translate_error e)

abbrev pub client_is_closed : Client → Bool
client_is_closed c = elim c.status [ ClientStatus.closed ↦ Bool.true | _ ↦ Bool.false ]

module _ (text : UuidText) where
  unfoldable pub create_client : Option String → Action Db ClientProto
  unfolding no_namesake
  create_client none = raise (status invalid_argument "client name is required")
  create_client (some name) = do
    raise_if (is_empty name) (status invalid_argument "client name is required")
    existing ← try (ClientRepo.get_by_name name)
    no_namesake existing
    client ← translate (ClientRepo.create name ClientStatus.registered)
    lift (ok (sqlc_client_to_proto text client))

  -- The client whose id a request gives.
  unfoldable pub find_client : String → Action Db Client
  find_client id = do
    uuid ← parse_uuid text id
    found_or err_client_not_found (ClientRepo.get_by_id uuid)

  unfoldable pub get_client : String → Action Db ClientProto
  unfolding find_client
  get_client id = do client ← find_client id; lift (ok (sqlc_client_to_proto text client))

  unfoldable pub list_clients : Option PaginationRequest → Action Db (List ClientProto)
  unfolding page_of
  list_clients page =
      let (size, offset) = page_of page in
      (translate (ClientRepo.list size offset) >>= λ clients.
      lift (ok (map (sqlc_client_to_proto text) clients)))

  -- `req == nil` is an empty id. The new name is required, and the row is written with the status that it has.
  unfoldable pub update_client : (id name : String) → Action Db ClientProto
  update_client id name = do
    raise_if (is_empty id) (status invalid_argument "client id and name are required")
    raise_if (is_empty name) (status invalid_argument "client id and name are required")
    uuid ← parse_uuid text id
    client ← found_or err_client_not_found (ClientRepo.get_by_id uuid)
    updated ← translate (ClientRepo.update_status uuid client.status)
    lift (ok (sqlc_client_to_proto text updated))

  unfoldable pub delete_client : String → Action Db String
  delete_client id = do
    uuid ← parse_uuid text id
    client ← found_or err_client_not_found (ClientRepo.get_by_id uuid)
    raise_if (client_is_active client) err_client_has_integrations
    translate (ClientRepo.delete uuid)
    lift (ok (text.uuid_string uuid))

  -- The status is written unless the client has it.
  unfoldable pub set_status : Uuid → Bool → Client → ClientStatus → Action Db ClientProto
  set_status uuid has_it client to =
      if has_it
      then lift (ok (sqlc_client_to_proto text client))
      else (translate (ClientRepo.update_status uuid to) >>= λ updated.
          lift (ok (sqlc_client_to_proto text updated)))

  unfoldable pub activate_client : String → Action Db ClientProto
  unfolding set_status
  activate_client id = do
    uuid ← parse_uuid text id
    client ← found_or err_client_not_found (ClientRepo.get_by_id uuid)
    set_status uuid (client_is_active client) client ClientStatus.active

  unfoldable pub deactivate_client : String → Action Db ClientProto
  unfolding set_status
  deactivate_client id = do
    uuid ← parse_uuid text id
    client ← found_or err_client_not_found (ClientRepo.get_by_id uuid)
    set_status uuid (client_is_closed client) client ClientStatus.closed
