-- ===== src/Clients/Model.antt =====
-- The data of the clients service: structs of clients/db/sqlc/models.go, and the database with the
-- tables of clients/db/migrations. Columns that may be NULL and that the code writes as texts
-- (`external_account_id`, `scope`, `provider_description`, `provider_image_url`) are texts.
use rvpay_go.Base.{ℕ, suc, String, Bool, Option, none, some, List}
use rvpay_go.Base.Effect.{Err, Result, ok, err, Action}

-- A UUID is only compared. A time is a number of nanoseconds.
abbrev pub Uuid : Type 0
Uuid = ℕ

abbrev pub Time : Type 0
Time = ℕ

pub data ClientStatus : Type 0 where
  registered active suspended closed : ClientStatus

pub data IntegrationStatus : Type 0 where
  created oauth_pending active revoked : IntegrationStatus

pub data WebhookSubscriptionStatus : Type 0 where
  active disabled : WebhookSubscriptionStatus

pub record Client : Type 0 where
  pub id : Uuid
  pub client_name : String
  pub status : ClientStatus
  pub created_at : Time
  pub updated_at : Time

pub record Platform : Type 0 where
  pub id : Uuid
  pub name : String
  pub display_name : String
  pub slug : String
  pub enabled : Bool
  pub oauth_capable : Bool
  pub webhook_capable : Bool
  pub created_at : Time
  pub updated_at : Time

pub record Integration : Type 0 where
  pub id : Uuid
  pub client_id : Uuid
  pub platform_id : Uuid
  pub external_account_id : String
  pub status : IntegrationStatus
  pub installed_at : Time
  pub last_sync_at : Option Time
  pub created_at : Time
  pub updated_at : Time

pub record OauthState : Type 0 where
  pub id : Uuid
  pub state : String
  pub client_id : Uuid
  pub platform_id : Uuid
  pub expires_at : Time
  pub consumed_at : Option Time
  pub created_at : Time
  pub updated_at : Time

pub record OauthToken : Type 0 where
  pub id : Uuid
  pub integration_id : Uuid
  pub access_token : String
  pub refresh_token : String
  pub expires_at : Time
  pub scope : String
  pub token_type : String
  pub created_at : Time
  pub updated_at : Time

pub record WebhookSubscription : Type 0 where
  pub id : Uuid
  pub integration_id : Uuid
  pub endpoint : String
  pub secret : String
  pub status : WebhookSubscriptionStatus
  pub last_delivery : Option Time
  pub created_at : Time
  pub updated_at : Time

pub record WebhookEvent : Type 0 where
  pub id : Uuid
  pub integration_id : Uuid
  pub provider_event_id : String
  pub event_type : String
  pub payload : String
  pub received_at : Time
  pub created_at : Time

pub record PaymentProviderConfig : Type 0 where
  pub id : Uuid
  pub integration_id : Uuid
  pub provider_name : String
  pub provider_description : String
  pub provider_image_url : String
  pub location_id : String
  pub query_url : String
  pub payments_url : String
  pub supports_subscription_schedule : Bool
  pub provider_api_key : String
  pub created_at : Time
  pub updated_at : Time

pub record Tables : Type 0 where
  pub clients : List Client
  pub platforms : List Platform
  pub integrations : List Integration
  pub oauth_states : List OauthState
  pub oauth_tokens : List OauthToken
  pub webhook_subscriptions : List WebhookSubscription
  pub webhook_events : List WebhookEvent
  pub payment_provider_configs : List PaymentProviderConfig

-- The database, with the time, fresh UUIDs and the server's refusals, as in the transactions
-- service, and the number of calls that have been made of other parties.
pub record Db : Type 0 where
  pub tables : Tables
  pub open tables use *
  pub clock : ℕ → Time
  pub new_uuid : ℕ → Uuid
  pub fault : ℕ → Option Err
  pub ticks : ℕ
  pub drawn : ℕ
  pub calls : ℕ

-- `NOW()` and `time.Now()`.
abbrev pub now : Db → Time
now db = db.clock db.ticks

-- One statement: it is refused, with no effect, or it runs.
abbrev pub statement : {A : Type 0} → Action Db A → Action Db A
statement q db =
    let db' = record db { ticks = suc db.ticks } in
    elim (db.fault db.ticks) [ some e ↦ (err e, db') | none ↦ q db' ]

-- `gen_random_uuid()`.
abbrev pub draw_uuid : Action Db Uuid
draw_uuid db = (ok (db.new_uuid db.drawn), record db { drawn = suc db.drawn })

-- A call of another party or of a random source: its answer may differ from call to call.
abbrev pub outside : {A : Type 0} → (ℕ → Result A) → Action Db A
outside answer db = (answer db.calls, record db { calls = suc db.calls })
