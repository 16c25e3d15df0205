-- ===== src/Clients/Events.antt =====
-- The table `webhook_events`: clients/db/sqlc/webhook_events.sql.go,
-- clients/db/repo/webhook_event_repo.go, and the use that clients/webhooks/service.go makes of it.
pub mod Delivery
use rvpay_go.Base.{
  String, Bool, not, ◌&&◌, Option, none, some, List, [], ◌∷◌, ◌++◌, ◌==◌, str_eq, if◌then◌else◌,
}
use rvpay_go.Base.Table.{find_row, any_row}
use rvpay_go.Base.Effect.{
  not_found, already_exists, failed_precondition, internal, Err, status, err_not_found,
  err_duplicate, err_constraint, no_rows, pg_error, Result, ok, err, Action, lift, raise, map_err,
  try, wrap_error, wrap_not_found, ◌>>=◌,
}
use rvpay_go.Clients.Errors.{translate_error}
use rvpay_go.Clients.Model.{Uuid, Time, WebhookEvent, Db, statement, draw_uuid}

pub record CreateWebhookEventParams : Type 0 where
  pub integration_id : Uuid
  pub provider_event_id : String
  pub event_type : String
  pub payload : String

abbrev pub new_event : CreateWebhookEventParams → Uuid → Time → WebhookEvent
new_event arg id t = record {
  id = id;
  integration_id = arg.integration_id;
  provider_event_id = arg.provider_event_id;
  event_type = arg.event_type;
  payload = arg.payload;
  received_at = t;
  created_at = t;
}

-- The key of `uq_webhook_event_integration_provider`.
abbrev pub has_event_key : Uuid → String → WebhookEvent → Bool
has_event_key integration provider_event e =
    e.integration_id == integration && str_eq e.provider_event_id provider_event

-- `INSERT … ON CONFLICT (integration_id, provider_event_id) DO NOTHING RETURNING …`: a primary key
-- that is taken is an error, a row with the key of another is left out, and then no row is
-- returned; the foreign key is checked for a row that is inserted.
unfoldable pub insert_event : WebhookEvent → Action Db WebhookEvent
insert_event row db =
    if any_row (has_event_key row.integration_id row.provider_event_id) db.webhook_events
    then (err no_rows, db)
    else if any_row (λ e. e.id == row.id) db.webhook_events
    then (err (pg_error "23505"), db)
    else if not (any_row (λ i. i.id == row.integration_id) db.integrations)
    then (err (pg_error "23503"), db)
    else (
      ok row,
      record db { tables = record (db.tables) { webhook_events = db.webhook_events ++ row ∷ [] } },
    )

unfoldable pub create_webhook_event : CreateWebhookEventParams → Action Db WebhookEvent
create_webhook_event arg =
    statement (draw_uuid >>= λ id db. insert_event (new_event arg id (db.clock db.ticks)) db)

unfoldable pub get_webhook_event_by_integration_and_provider :
    Uuid → String → Action Db WebhookEvent
get_webhook_event_by_integration_and_provider integration provider_event = statement (λ db.
    elim (find_row (has_event_key integration provider_event) db.webhook_events) [
      | none ↦ (err no_rows, db)
      | some e ↦ (ok e, db)
    ])

-- The repository.
unfoldable pub create : Uuid → String → String → String → Action Db WebhookEvent
create integration provider_event event_type payload = map_err wrap_error (
    create_webhook_event (record {
      integration_id = integration;
      provider_event_id = provider_event;
      event_type = event_type;
      payload = payload;
    }))

unfoldable pub get_by_integration_and_provider : Uuid → String → Action Db WebhookEvent
get_by_integration_and_provider integration provider_event =
    map_err wrap_not_found
      (get_webhook_event_by_integration_and_provider integration provider_event)

-- What `ProcessWebhook` returns for an error of the insertion: `ErrDuplicateEvent` for
-- `ErrDuplicate`, and otherwise the error's translation.
unfoldable pub record_event_error : Err → Err
record_event_error err_duplicate = status already_exists "duplicate webhook event"
record_event_error e = translate_error e

-- The step of `ProcessWebhook` that records an event, before anything is done with it.
unfoldable pub record_event : Uuid → String → String → String → Action Db (Unit {0})
record_event integration provider_event event_type payload =
    map_err record_event_error (create integration provider_event event_type payload) >>= λ _.
    lift (ok tt)
