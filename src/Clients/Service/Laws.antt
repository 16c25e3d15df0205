-- ===== src/Clients/Service/Laws.antt =====
-- What the handlers of clients/service change, and what their replies say.
use rvpay_go.Base.{String, false, List, map, ◌≡◌, refl, ◌∙◌, ◌==◌}
use rvpay_go.Base.Text.{is_empty}
use rvpay_go.Base.Rows.{update_rows-map}
use rvpay_go.Clients.Model.{Uuid, ClientStatus, IntegrationStatus, Client, Integration, Tables, Db}
use rvpay_go.Clients.Repo.Clients as ClientRepo
use rvpay_go.Clients.Repo.Clients.{get_client_by_id, update_client_status, set_client_status}
use rvpay_go.Clients.Keeps.{Keeps, Keeps-map_err, Keeps-update_one}
use rvpay_go.Clients.Keeps.Repo.{reads_rules}
use rvpay_go.Clients.Keeps.Services.{parse_uuid-Keeps}
use rvpay_go.Clients.Service.Convert.{
  UuidText, GrpcClientStatus, GrpcIntegrationStatus, sqlc_client_to_proto,
  sqlc_integration_to_proto, client_status_text, client_status_value, integration_status_text,
  integration_status_value, proto_status_to_sqlc_client_status,
  proto_status_to_sqlc_integration_status,
}
use rvpay_go.Clients.Service.Clients as ClientService

client_unspecified :
    (s : ClientStatus) → client_status_value (client_status_text s) ≡ GrpcClientStatus.unspecified
unfolding client_status_value client_status_text
client_unspecified ClientStatus.registered = refl
client_unspecified ClientStatus.active = refl
client_unspecified ClientStatus.suspended = refl
client_unspecified ClientStatus.closed = refl

integration_unspecified :
    (s : IntegrationStatus)
    → integration_status_value (integration_status_text s) ≡ GrpcIntegrationStatus.unspecified
unfolding integration_status_value integration_status_text
integration_unspecified IntegrationStatus.created = refl
integration_unspecified IntegrationStatus.oauth_pending = refl
integration_unspecified IntegrationStatus.active = refl
integration_unspecified IntegrationStatus.revoked = refl

-- Every client and every integration is reported with an unspecified status, whatever its status, and
-- the converters of the other direction take that for a registered client and a created integration:
-- the statuses are looked up under the database's names, which the generated maps do not have.
pub status_unspecified :
    (text : UuidText) (c : Client) (i : Integration)
    → ((sqlc_client_to_proto text c).status ≡ GrpcClientStatus.unspecified)
      × ((sqlc_integration_to_proto text i).status ≡ GrpcIntegrationStatus.unspecified)
      × (proto_status_to_sqlc_client_status (sqlc_client_to_proto text c).status
          ≡ ClientStatus.registered)
      × (proto_status_to_sqlc_integration_status (sqlc_integration_to_proto text i).status
          ≡ IntegrationStatus.created)
unfolding sqlc_client_to_proto sqlc_integration_to_proto proto_status_to_sqlc_client_status
    proto_status_to_sqlc_integration_status
status_unspecified text c i =
    let client = client_unspecified c.status in
    let integration = integration_unspecified i.status in
    (client, integration, rw client refl, rw integration refl)

-- The clients have these names, in this order.
record HasNames (names : List String) (t : Tables) : Type 0 where
  are : map Client.client_name t.clients ≡ names

status_change-HasNames :
    (names : List String) (id : Uuid) (to : ClientStatus)
    → Keeps Db.tables (HasNames names) (ClientRepo.update_status id to)
unfolding ClientRepo.update_status update_client_status
status_change-HasNames names id to = Keeps-map_err _ _ (
    Keeps-update_one _ _ _ _ (λ now r t e n h. record {
      are =
          update_rows-map (λ c. c.id == id) (set_client_status to now) Client.client_name t.clients
            (λ c. refl)
          ∙ h.are;
    }))

update_client-HasNames :
    (names : List String) (text : UuidText) (id name : String)
    → Keeps Db.tables (HasNames names) (ClientService.update_client text id name)
unfolding ClientService.update_client
update_client-HasNames names text id name =
    search (reads_rules, parse_uuid-Keeps, status_change-HasNames) depth 20

-- `UpdateClient` requires a new name and does not store it: each client keeps the name that it has,
-- and one name that is not empty has the reply, and the effect, of any other.
pub update_client_ignores_name :
    (text : UuidText) (id name name' : String) (db : Db)
    → is_empty name ≡ false
    → is_empty name' ≡ false
    → (map Client.client_name (ClientService.update_client text id name db).1.clients
        ≡ map Client.client_name db.clients)
      × (ClientService.update_client text id name db ≡ ClientService.update_client text id name' db)
unfolding ClientService.update_client
update_client_ignores_name text id name name' db n n' =
    let kept =
      (update_client-HasNames (map Client.client_name db.clients) text id name).at db
        (record { are = refl }) in
    (kept.are, rw (n, n') refl)

-- No row refers to the integration, and it has none itself.
