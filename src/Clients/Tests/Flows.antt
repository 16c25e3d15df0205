-- ===== src/Clients/Tests/Flows.antt =====
-- Data of the tests of the clients service: a business that has been sent to HighLevel to connect its
-- account, and one whose account is connected.
use rvpay_go.Base.{◌+◌, true, false, some, none, [], ◌∷◌, str_eq, ◌==◌, if◌then◌else◌}
use rvpay_go.Base.Effect.{err, other, ok}
use rvpay_go.Transactions.Tests as TransactionTests
use rvpay_go.Clients.Model.{
  ClientStatus, IntegrationStatus, Client, Platform, Integration, OauthState, WebhookEvent,
  PaymentProviderConfig, Tables, Db,
}
use rvpay_go.Clients.Providers.{Provider, OauthProvider, WebhookProvider, TokenResponse}
use rvpay_go.Clients.Oauth.{OauthEnv}
use rvpay_go.Clients.Oauth.Callback.{CallbackResult}
use rvpay_go.Clients.Payments.{PaymentsEnv, PaymentEvent, System}
use rvpay_go.Clients.Service.Convert.{UuidText}
use rvpay_go.Clients.Webhooks.{WebhookEnv}
use rvpay_go.Clients.Runs.{ClientsEnv, webhook_env}

abbrev pub business : Client
business = record {
  id = 1;
  client_name = "Shop";
  status = ClientStatus.active;
  created_at = 0;
  updated_at = 0;
}

abbrev pub highlevel : Platform
highlevel = record {
  id = 2;
  name = "GoHighLevel";
  display_name = "GoHighLevel";
  slug = "highlevel";
  enabled = true;
  oauth_capable = true;
  webhook_capable = true;
  created_at = 0;
  updated_at = 0;
}

abbrev pub pending : OauthState
pending = record {
  id = 3;
  state = "state";
  client_id = 1;
  platform_id = 2;
  expires_at = 600;
  consumed_at = none;
  created_at = 0;
  updated_at = 0;
}

abbrev pub token : TokenResponse
token = record {
  access_token = "access";
  refresh_token = "refresh";
  expires_in = 3600;
  token_type = "Bearer";
  scope = "payments";
  location_id = "loc";
}

abbrev pub oauth_provider : OauthProvider
oauth_provider = record {
  generate_authorization_url = λ state redirect_uri. ok "https://highlevel/authorize";
  exchange_code = λ code redirect_uri n. ok token;
  refresh_access = λ r n. ok token;
  get_user_info = λ t n. ok "loc";
  validate_token = λ t n. ok true;
}

abbrev pub webhook_provider : WebhookProvider
webhook_provider = record {
  verify_request = λ headers body. ok tt;
  parse_event = λ body. err (other "not JSON");
  register_webhook = λ id url n. ok tt;
  unregister_webhook = λ id n. ok tt;
}

abbrev pub provider : Provider
provider = record {
  id = "highlevel";
  name = "GoHighLevel";
  capabilities = [];
  has_capability = λ c. false;
  oauth_provider = oauth_provider;
  webhook_provider = some webhook_provider;
  payment_provider = none;
}

abbrev pub oauth_env : OauthEnv
oauth_env = record {
  registry = ("highlevel", provider) ∷ [];
  redirect_uri = "https://rvpay/callback";
  provider_config = record {
    name = "RVPay";
    description = "";
    image_url = "";
    payments_url = "";
    query_url = "";
  };
  generate_state = λ n. ok "state";
  generate_api_key = λ n. ok "key";
}

abbrev pub tables : Tables
tables = record {
  clients = business ∷ [];
  platforms = highlevel ∷ [];
  integrations = [];
  oauth_states = pending ∷ [];
  oauth_tokens = [];
  webhook_subscriptions = [];
  webhook_events = [];
  payment_provider_configs = [];
}

abbrev pub server : Tables → Db
server t = record {
  tables = t;
  clock = λ n. n;
  new_uuid = λ n. 100 + n;
  fault = λ n. none;
  ticks = 0;
  drawn = 0;
  calls = 0;
}

abbrev pub connected : CallbackResult
connected = record {
  integration_id = 100;
  client_id = 1;
  platform_id = 2;
  access_token = "access";
  refresh_token = "refresh";
  expires_at = 3600000000005;
  scope = "payments";
  provider_user_id = "loc";
  provider_registered = false;
  provider_registration_error = none;
}

abbrev pub uuids : UuidText
uuids = record {
  uuid_string = λ id. if id == 1 then "1" else if id == 7 then "7" else "uuid";
  parse = λ s. if str_eq s "1" then some 1 else if str_eq s "7" then some 7 else none;
}

abbrev pub captured : PaymentEvent
captured = record {
  event_type = "payment.captured";
  event_id = "ev";
  location_id = "loc";
  charge_id = "ch";
  transaction_id = "tx";
  api_key = "key";
  payload = "{}";
}

abbrev pub payments_env : PaymentsEnv
payments_env = record {
  transactions = TransactionTests.strict;
  unmarshal = λ body. if str_eq body "captured" then some captured else none;
  marshal = λ payload. some payload;
}

abbrev pub clients_env : ClientsEnv
clients_env = record {
  text = uuids;
  oauth = oauth_env;
  payments = payments_env;
  settings = oauth_env.provider_config;
  marshal = λ payload. some payload;
}

abbrev pub webhooks : WebhookEnv
webhooks = webhook_env clients_env

-- The tables once the account is connected and its payment provider is configured.
abbrev pub account : Integration
account = record {
  id = 7;
  client_id = 1;
  platform_id = 2;
  external_account_id = "loc";
  status = IntegrationStatus.active;
  installed_at = 0;
  last_sync_at = none;
  created_at = 0;
  updated_at = 0;
}

abbrev pub config : PaymentProviderConfig
config = record {
  id = 8;
  integration_id = 7;
  provider_name = "RVPay";
  provider_description = "";
  provider_image_url = "";
  location_id = "loc";
  query_url = "";
  payments_url = "";
  supports_subscription_schedule = false;
  provider_api_key = "key";
  created_at = 0;
  updated_at = 0;
}

abbrev pub recorded : WebhookEvent
recorded = record {
  id = 9;
  integration_id = 7;
  provider_event_id = "ev";
  event_type = "payment.captured";
  payload = "{}";
  received_at = 0;
  created_at = 0;
}

abbrev pub configured : Tables
configured = record tables {
  integrations = account ∷ [];
  webhook_events = recorded ∷ [];
  payment_provider_configs = config ∷ [];
}

abbrev pub system : System
system = record {
  clients = server tables;
  transactions = TransactionTests.database TransactionTests.with_payment;
}

abbrev pub system_configured : System
system_configured = record system { clients = server configured }
