-- ===== src/Clients/Repo/Clients.antt =====
-- The table `clients`: clients/db/sqlc/clients.sql.go and clients/db/repo/client_repo.go.
use rvpay_go.Base.{ℕ, String, Bool, Option, none, some, List, ◌==◌, str_eq, if◌then◌else◌}
use rvpay_go.Base.Table.{any_row, delete_rows}
use rvpay_go.Base.Effect.{Action, map_err, wrap_error, wrap_not_found}
use rvpay_go.Clients.Model.{Uuid, Time, ClientStatus, Client, Tables, Db}
use rvpay_go.Clients.Query.{
  Table, select_one, select_exists, select_count, select_page, insert_into, update_one, delete_from,
  unrestricted, delete_row,
}

abbrev pub clients_table : Table Client
clients_table = record { rows = λ t. t.clients; with_rows = λ rows t. record t { clients = rows } }

unfoldable pub client_refusal : Client → Tables → Option String
client_refusal row t = if any_row (λ c. c.id == row.id) t.clients then some "23505" else none

abbrev pub new_client : String → ClientStatus → Uuid → Time → Client
new_client client_name status id t = record {
  id = id;
  client_name = client_name;
  status = status;
  created_at = t;
  updated_at = t;
}

unfoldable pub create_client : String → ClientStatus → Action Db Client
create_client client_name status =
    insert_into clients_table client_refusal (new_client client_name status)

unfoldable pub get_client_by_id : Uuid → Action Db Client
get_client_by_id id = select_one clients_table (λ c. c.id == id)

unfoldable pub get_client_by_name : String → Action Db Client
get_client_by_name name = select_one clients_table (λ c. str_eq c.client_name name)

abbrev pub client_is_active : Client → Bool
client_is_active c = elim c.status [ ClientStatus.active ↦ Bool.true | _ ↦ Bool.false ]

unfoldable pub list_clients : ℕ → ℕ → Action Db (List Client)
list_clients limit offset =
    select_page clients_table (λ c. Bool.true) Client.created_at limit offset

unfoldable pub list_active_clients : ℕ → ℕ → Action Db (List Client)
list_active_clients limit offset =
    select_page clients_table client_is_active Client.created_at limit offset

unfoldable pub count_clients : Action Db ℕ
count_clients = select_count clients_table (λ c. Bool.true)

unfoldable pub client_exists_by_id : Uuid → Action Db Bool
client_exists_by_id id = select_exists clients_table (λ c. c.id == id)

abbrev pub set_client_status : ClientStatus → Time → Client → Client
set_client_status status t c = record c { status = status; updated_at = t }

unfoldable pub update_client_status : Uuid → ClientStatus → Action Db Client
update_client_status id status =
    update_one clients_table unrestricted (λ t c. c.id == id) (set_client_status status)

-- Integrations restrict the removal of their client; OAuth states go with it.
unfoldable pub delete_client : Uuid → Action Db ℕ
delete_client id =
    delete_from clients_table
      (λ t. if any_row (λ i. i.client_id == id) t.integrations then some "23503" else none)
      (λ t. record t { oauth_states = delete_rows (λ s. s.client_id == id) t.oauth_states })
      (λ t c. c.id == id)

-- The repository.
unfoldable pub create : String → ClientStatus → Action Db Client
create name status = map_err wrap_error (create_client name status)

unfoldable pub get_by_id : Uuid → Action Db Client
get_by_id id = map_err wrap_not_found (get_client_by_id id)

unfoldable pub get_by_name : String → Action Db Client
get_by_name name = map_err wrap_not_found (get_client_by_name name)

unfoldable pub list : ℕ → ℕ → Action Db (List Client)
list limit offset = map_err wrap_error (list_clients limit offset)

unfoldable pub list_active : ℕ → ℕ → Action Db (List Client)
list_active limit offset = map_err wrap_error (list_active_clients limit offset)

unfoldable pub count : Action Db ℕ
count = map_err wrap_error count_clients

unfoldable pub exists_by_id : Uuid → Action Db Bool
exists_by_id id = map_err wrap_error (client_exists_by_id id)

unfoldable pub update_status : Uuid → ClientStatus → Action Db Client
update_status id status = map_err wrap_not_found (update_client_status id status)

unfoldable pub delete : Uuid → Action Db (Unit {0})
delete id = delete_row (delete_client id)
