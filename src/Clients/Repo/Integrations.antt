-- ===== src/Clients/Repo/Integrations.antt =====
-- The table `integrations`: clients/db/sqlc/integrations.sql.go and
-- clients/db/repo/integration_repo.go.
use rvpay_go.Base.{
  ℕ, String, Bool, not, ◌&&◌, ◌||◌, Option, none, some, List, ◌==◌, str_eq, if◌then◌else◌,
}
use rvpay_go.Base.Table.{any_row, delete_rows}
use rvpay_go.Base.Effect.{Action, map_err, wrap_error, wrap_not_found}
use rvpay_go.Clients.Model.{Uuid, Time, IntegrationStatus, Integration, Tables, Db}
use rvpay_go.Clients.Query.{
  Table, select_one, select_exists, select_count, select_page, insert_into, update_one, delete_from,
  unrestricted, delete_row,
}

abbrev pub integrations_table : Table Integration
integrations_table = record {
  rows = λ t. t.integrations;
  with_rows = λ rows t. record t { integrations = rows };
}

abbrev pub of_client_and_platform : Uuid → Uuid → Integration → Bool
of_client_and_platform client platform i = i.client_id == client && i.platform_id == platform

unfoldable pub integration_refusal : Integration → Tables → Option String
integration_refusal row t =
    if any_row (λ i. i.id == row.id || of_client_and_platform row.client_id row.platform_id i)
      t.integrations
    then some "23505"
    else if not (any_row (λ c. c.id == row.client_id) t.clients)
    then some "23503"
    else if not (any_row (λ p. p.id == row.platform_id) t.platforms)
    then some "23503"
    else none

abbrev pub new_integration :
    (client_id platform_id : Uuid) → String → IntegrationStatus → Uuid → Time → Integration
new_integration client_id platform_id external_account_id status id t = record {
  id = id;
  client_id = client_id;
  platform_id = platform_id;
  external_account_id = external_account_id;
  status = status;
  installed_at = t;
  last_sync_at = none;
  created_at = t;
  updated_at = t;
}

unfoldable pub create_integration :
    (client_id platform_id : Uuid) → String → IntegrationStatus → Action Db Integration
create_integration client_id platform_id external_account_id status =
    insert_into integrations_table integration_refusal
      (new_integration client_id platform_id external_account_id status)

unfoldable pub get_integration_by_id : Uuid → Action Db Integration
get_integration_by_id id = select_one integrations_table (λ i. i.id == id)

unfoldable pub get_integration_by_client_and_platform : Uuid → Uuid → Action Db Integration
get_integration_by_client_and_platform client platform =
    select_one integrations_table (of_client_and_platform client platform)

unfoldable pub get_integration_by_external_account_id : String → Action Db Integration
get_integration_by_external_account_id account =
    select_one integrations_table (λ i. str_eq i.external_account_id account)

abbrev pub integration_is_active : Integration → Bool
integration_is_active i = elim i.status [ IntegrationStatus.active ↦ Bool.true | _ ↦ Bool.false ]

unfoldable pub list_integrations_by_client : Uuid → ℕ → ℕ → Action Db (List Integration)
list_integrations_by_client client limit offset =
    select_page integrations_table (λ i. i.client_id == client) Integration.created_at limit offset

unfoldable pub list_integrations_by_platform : Uuid → ℕ → ℕ → Action Db (List Integration)
list_integrations_by_platform platform limit offset =
    select_page integrations_table (λ i. i.platform_id == platform) Integration.created_at limit
      offset

unfoldable pub list_active_integrations_by_client : Uuid → ℕ → ℕ → Action Db (List Integration)
list_active_integrations_by_client client limit offset =
    select_page integrations_table (λ i. i.client_id == client && integration_is_active i)
      Integration.created_at limit offset

unfoldable pub count_integrations_by_client : Uuid → Action Db ℕ
count_integrations_by_client client = select_count integrations_table (λ i. i.client_id == client)

unfoldable pub integration_exists_by_client_and_platform : Uuid → Uuid → Action Db Bool
integration_exists_by_client_and_platform client platform =
    select_exists integrations_table (of_client_and_platform client platform)

abbrev pub set_integration_status : IntegrationStatus → Time → Integration → Integration
set_integration_status status t i = record i { status = status; updated_at = t }

unfoldable pub update_integration_status : Uuid → IntegrationStatus → Action Db Integration
update_integration_status id status =
    update_one integrations_table unrestricted (λ t i. i.id == id) (set_integration_status status)

unfoldable pub update_integration_last_sync_at : Uuid → Option Time → Action Db Integration
update_integration_last_sync_at id last_sync_at =
    update_one integrations_table unrestricted (λ t i. i.id == id)
      (λ t i. record i { last_sync_at = last_sync_at; updated_at = t })

-- What refers to an integration goes with it.
abbrev pub drop_dependents : Uuid → Tables → Tables
drop_dependents id t = record t {
  oauth_tokens = delete_rows (λ r. r.integration_id == id) t.oauth_tokens;
  webhook_subscriptions = delete_rows (λ r. r.integration_id == id) t.webhook_subscriptions;
  webhook_events = delete_rows (λ r. r.integration_id == id) t.webhook_events;
  payment_provider_configs = delete_rows (λ r. r.integration_id == id) t.payment_provider_configs;
}

unfoldable pub delete_integration : Uuid → Action Db ℕ
delete_integration id =
    delete_from integrations_table (λ t. none) (drop_dependents id) (λ t i. i.id == id)

-- The repository.
unfoldable pub create :
    (client_id platform_id : Uuid) → String → IntegrationStatus → Action Db Integration
create client_id platform_id external_account_id status =
    map_err wrap_error (create_integration client_id platform_id external_account_id status)

unfoldable pub get_by_id : Uuid → Action Db Integration
get_by_id id = map_err wrap_not_found (get_integration_by_id id)

unfoldable pub get_by_client_and_platform : Uuid → Uuid → Action Db Integration
get_by_client_and_platform client platform =
    map_err wrap_not_found (get_integration_by_client_and_platform client platform)

unfoldable pub get_by_external_account_id : String → Action Db Integration
get_by_external_account_id account =
    map_err wrap_not_found (get_integration_by_external_account_id account)

unfoldable pub list_by_client : Uuid → ℕ → ℕ → Action Db (List Integration)
list_by_client client limit offset =
    map_err wrap_error (list_integrations_by_client client limit offset)

unfoldable pub list_by_platform : Uuid → ℕ → ℕ → Action Db (List Integration)
list_by_platform platform limit offset =
    map_err wrap_error (list_integrations_by_platform platform limit offset)

unfoldable pub list_active_by_client : Uuid → ℕ → ℕ → Action Db (List Integration)
list_active_by_client client limit offset =
    map_err wrap_error (list_active_integrations_by_client client limit offset)

unfoldable pub count_by_client : Uuid → Action Db ℕ
count_by_client client = map_err wrap_error (count_integrations_by_client client)

unfoldable pub exists_by_client_and_platform : Uuid → Uuid → Action Db Bool
exists_by_client_and_platform client platform =
    map_err wrap_error (integration_exists_by_client_and_platform client platform)

unfoldable pub update_status : Uuid → IntegrationStatus → Action Db Integration
update_status id status = map_err wrap_not_found (update_integration_status id status)

unfoldable pub update_last_sync_at : Uuid → Option Time → Action Db Integration
update_last_sync_at id last_sync_at =
    map_err wrap_not_found (update_integration_last_sync_at id last_sync_at)

unfoldable pub delete : Uuid → Action Db (Unit {0})
delete id = delete_row (delete_integration id)
