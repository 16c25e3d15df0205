-- ===== src/Clients/Repo/WebhookSubscriptions.antt =====
-- The table `webhook_subscriptions`: clients/db/sqlc/webhook_subscriptions.sql.go and
-- clients/db/repo/webhook_subscription_repo.go.
use rvpay_go.Base.{
  ℕ, String, Bool, not, ◌&&◌, ◌||◌, Option, none, some, List, ◌==◌, str_eq, if◌then◌else◌,
}
use rvpay_go.Base.Table.{any_row}
use rvpay_go.Base.Effect.{Action, map_err, wrap_error, wrap_not_found}
use rvpay_go.Clients.Model.{Uuid, Time, WebhookSubscriptionStatus, WebhookSubscription, Tables, Db}
use rvpay_go.Clients.Query.{
  Table, select_one, select_exists, select_count, select_all, select_page, insert_into, update_one,
  delete_from, unrestricted, delete_row,
}

abbrev pub webhook_subscriptions_table : Table WebhookSubscription
webhook_subscriptions_table = record {
  rows = λ t. t.webhook_subscriptions;
  with_rows = λ rows t. record t { webhook_subscriptions = rows };
}

abbrev pub of_endpoint : Uuid → String → WebhookSubscription → Bool
of_endpoint integration endpoint w = w.integration_id == integration && str_eq w.endpoint endpoint

unfoldable pub webhook_subscription_refusal : WebhookSubscription → Tables → Option String
webhook_subscription_refusal row t =
    if any_row (λ w. w.id == row.id || of_endpoint row.integration_id row.endpoint w)
      t.webhook_subscriptions
    then some "23505"
    else if not (any_row (λ i. i.id == row.integration_id) t.integrations)
    then some "23503"
    else none

abbrev pub new_webhook_subscription :
    (integration_id : Uuid) (endpoint secret : String)
    → WebhookSubscriptionStatus
    → Uuid
    → Time
    → WebhookSubscription
new_webhook_subscription integration_id endpoint secret status id t = record {
  id = id;
  integration_id = integration_id;
  endpoint = endpoint;
  secret = secret;
  status = status;
  last_delivery = none;
  created_at = t;
  updated_at = t;
}

unfoldable pub create_webhook_subscription :
    (integration_id : Uuid) (endpoint secret : String)
    → WebhookSubscriptionStatus
    → Action Db WebhookSubscription
create_webhook_subscription integration_id endpoint secret status =
    insert_into webhook_subscriptions_table webhook_subscription_refusal
      (new_webhook_subscription integration_id endpoint secret status)

unfoldable pub get_webhook_subscription_by_id : Uuid → Action Db WebhookSubscription
get_webhook_subscription_by_id id = select_one webhook_subscriptions_table (λ w. w.id == id)

unfoldable pub get_webhook_subscription_by_integration_id_and_endpoint :
    Uuid → String → Action Db WebhookSubscription
get_webhook_subscription_by_integration_id_and_endpoint integration endpoint =
    select_one webhook_subscriptions_table (of_endpoint integration endpoint)

abbrev pub subscription_is_active : WebhookSubscription → Bool
subscription_is_active w = elim w.status [
  | WebhookSubscriptionStatus.active ↦ Bool.true
  | _ ↦ Bool.false
]

unfoldable pub list_webhook_subscriptions_by_integration_id :
    Uuid → ℕ → ℕ → Action Db (List WebhookSubscription)
list_webhook_subscriptions_by_integration_id integration limit offset =
    select_page webhook_subscriptions_table (λ w. w.integration_id == integration)
      WebhookSubscription.created_at limit offset

unfoldable pub list_active_webhook_subscriptions_by_integration_id :
    Uuid → Action Db (List WebhookSubscription)
list_active_webhook_subscriptions_by_integration_id integration =
    select_all webhook_subscriptions_table
      (λ w. w.integration_id == integration && subscription_is_active w)
      WebhookSubscription.created_at

unfoldable pub count_webhook_subscriptions_by_integration_id : Uuid → Action Db ℕ
count_webhook_subscriptions_by_integration_id integration =
    select_count webhook_subscriptions_table (λ w. w.integration_id == integration)

unfoldable pub webhook_subscription_exists : Uuid → String → Action Db Bool
webhook_subscription_exists integration endpoint =
    select_exists webhook_subscriptions_table (of_endpoint integration endpoint)

unfoldable pub update_webhook_subscription_status :
    Uuid → WebhookSubscriptionStatus → Action Db WebhookSubscription
update_webhook_subscription_status id status =
    update_one webhook_subscriptions_table unrestricted (λ t w. w.id == id)
      (λ t w. record w { status = status; updated_at = t })

abbrev pub set_last_delivery : Option Time → Time → WebhookSubscription → WebhookSubscription
set_last_delivery last_delivery t w = record w { last_delivery = last_delivery; updated_at = t }

unfoldable pub update_webhook_subscription_last_delivery :
    Uuid → Option Time → Action Db WebhookSubscription
update_webhook_subscription_last_delivery id last_delivery =
    update_one webhook_subscriptions_table unrestricted (λ t w. w.id == id)
      (set_last_delivery last_delivery)

unfoldable pub delete_webhook_subscription : Uuid → Action Db ℕ
delete_webhook_subscription id =
    delete_from webhook_subscriptions_table (λ t. none) (λ t. t) (λ t w. w.id == id)

-- The repository.
unfoldable pub create :
    (integration_id : Uuid) (endpoint secret : String)
    → WebhookSubscriptionStatus
    → Action Db WebhookSubscription
create integration_id endpoint secret status =
    map_err wrap_error (create_webhook_subscription integration_id endpoint secret status)

unfoldable pub get_by_id : Uuid → Action Db WebhookSubscription
get_by_id id = map_err wrap_not_found (get_webhook_subscription_by_id id)

unfoldable pub get_by_integration_id_and_endpoint : Uuid → String → Action Db WebhookSubscription
get_by_integration_id_and_endpoint integration endpoint =
    map_err wrap_not_found
      (get_webhook_subscription_by_integration_id_and_endpoint integration endpoint)

unfoldable pub list_by_integration_id : Uuid → ℕ → ℕ → Action Db (List WebhookSubscription)
list_by_integration_id integration limit offset =
    map_err wrap_error (list_webhook_subscriptions_by_integration_id integration limit offset)

unfoldable pub list_active_by_integration_id : Uuid → Action Db (List WebhookSubscription)
list_active_by_integration_id integration =
    map_err wrap_error (list_active_webhook_subscriptions_by_integration_id integration)

unfoldable pub count_by_integration_id : Uuid → Action Db ℕ
count_by_integration_id integration =
    map_err wrap_error (count_webhook_subscriptions_by_integration_id integration)

unfoldable pub exists : Uuid → String → Action Db Bool
exists integration endpoint = map_err wrap_error (webhook_subscription_exists integration endpoint)

unfoldable pub update_status : Uuid → WebhookSubscriptionStatus → Action Db WebhookSubscription
update_status id status = map_err wrap_not_found (update_webhook_subscription_status id status)

unfoldable pub update_last_delivery : Uuid → Option Time → Action Db WebhookSubscription
update_last_delivery id last_delivery =
    map_err wrap_not_found (update_webhook_subscription_last_delivery id last_delivery)

unfoldable pub delete : Uuid → Action Db (Unit {0})
delete id = delete_row (delete_webhook_subscription id)
