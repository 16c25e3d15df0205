-- ===== src/Clients/Repo/PaymentProviderConfigs.antt =====
-- The table `payment_provider_configs`: clients/db/sqlc/payment_provider_configs.sql.go and
-- clients/db/repo/payment_provider_config_repo.go.
use rvpay_go.Base.{ℕ, String, Bool, not, ◌||◌, Option, none, some, ◌==◌, str_eq, if◌then◌else◌}
use rvpay_go.Base.Table.{any_row}
use rvpay_go.Base.Effect.{Action, map_err, wrap_error, wrap_not_found}
use rvpay_go.Clients.Model.{Uuid, Time, PaymentProviderConfig, Tables, Db}
use rvpay_go.Clients.Query.{
  Table, select_one, insert_into, update_one, delete_from, unrestricted, delete_row,
}

abbrev pub payment_provider_configs_table : Table PaymentProviderConfig
payment_provider_configs_table = record {
  rows = λ t. t.payment_provider_configs;
  with_rows = λ rows t. record t { payment_provider_configs = rows };
}

-- The arguments of `Create` and of `Update`, in their order.
pub record PaymentProviderConfigParams : Type 0 where
  pub integration_id : Uuid
  pub provider_name : String
  pub provider_description : String
  pub provider_image_url : String
  pub location_id : String
  pub query_url : String
  pub payments_url : String
  pub supports_subscription_schedule : Bool
  pub provider_api_key : String

unfoldable pub payment_provider_config_refusal : PaymentProviderConfig → Tables → Option String
payment_provider_config_refusal row t =
    if any_row (λ c. c.id == row.id || c.integration_id == row.integration_id)
      t.payment_provider_configs
    then some "23505"
    else if not (any_row (λ i. i.id == row.integration_id) t.integrations)
    then some "23503"
    else none

abbrev pub new_config : PaymentProviderConfigParams → Uuid → Time → PaymentProviderConfig
new_config arg id t = record {
  id = id;
  integration_id = arg.integration_id;
  provider_name = arg.provider_name;
  provider_description = arg.provider_description;
  provider_image_url = arg.provider_image_url;
  location_id = arg.location_id;
  query_url = arg.query_url;
  payments_url = arg.payments_url;
  supports_subscription_schedule = arg.supports_subscription_schedule;
  provider_api_key = arg.provider_api_key;
  created_at = t;
  updated_at = t;
}

unfoldable pub create_payment_provider_config :
    PaymentProviderConfigParams → Action Db PaymentProviderConfig
create_payment_provider_config arg =
    insert_into payment_provider_configs_table payment_provider_config_refusal (new_config arg)

unfoldable pub get_payment_provider_config_by_integration_id :
    Uuid → Action Db PaymentProviderConfig
get_payment_provider_config_by_integration_id integration =
    select_one payment_provider_configs_table (λ c. c.integration_id == integration)

unfoldable pub get_payment_provider_config_by_location_id : String → Action Db PaymentProviderConfig
get_payment_provider_config_by_location_id location =
    select_one payment_provider_configs_table (λ c. str_eq c.location_id location)

unfoldable pub get_payment_provider_config_by_api_key : String → Action Db PaymentProviderConfig
get_payment_provider_config_by_api_key api_key =
    select_one payment_provider_configs_table (λ c. str_eq c.provider_api_key api_key)

abbrev pub set_config :
    PaymentProviderConfigParams → Time → PaymentProviderConfig → PaymentProviderConfig
set_config arg t c = record c {
  provider_name = arg.provider_name;
  provider_description = arg.provider_description;
  provider_image_url = arg.provider_image_url;
  location_id = arg.location_id;
  query_url = arg.query_url;
  payments_url = arg.payments_url;
  supports_subscription_schedule = arg.supports_subscription_schedule;
  provider_api_key = arg.provider_api_key;
  updated_at = t;
}

unfoldable pub update_payment_provider_config :
    PaymentProviderConfigParams → Action Db PaymentProviderConfig
update_payment_provider_config arg =
    update_one payment_provider_configs_table unrestricted
      (λ t c. c.integration_id == arg.integration_id) (set_config arg)

unfoldable pub delete_payment_provider_config : Uuid → Action Db ℕ
delete_payment_provider_config integration =
    delete_from payment_provider_configs_table (λ t. none) (λ t. t)
      (λ t c. c.integration_id == integration)

-- The repository.
unfoldable pub create : PaymentProviderConfigParams → Action Db PaymentProviderConfig
create arg = map_err wrap_error (create_payment_provider_config arg)

unfoldable pub get_by_integration_id : Uuid → Action Db PaymentProviderConfig
get_by_integration_id integration =
    map_err wrap_not_found (get_payment_provider_config_by_integration_id integration)

unfoldable pub get_by_location_id : String → Action Db PaymentProviderConfig
get_by_location_id location =
    map_err wrap_not_found (get_payment_provider_config_by_location_id location)

unfoldable pub get_by_api_key : String → Action Db PaymentProviderConfig
get_by_api_key api_key = map_err wrap_not_found (get_payment_provider_config_by_api_key api_key)

unfoldable pub update : PaymentProviderConfigParams → Action Db PaymentProviderConfig
update arg = map_err wrap_not_found (update_payment_provider_config arg)

unfoldable pub delete : Uuid → Action Db (Unit {0})
delete integration = delete_row (delete_payment_provider_config integration)
