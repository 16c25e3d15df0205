-- ===== src/Clients/Events/Delivery.antt =====
-- An event that is delivered again (clients/webhooks/service.go).
use rvpay_go.Base.{
  Bool, true, none, suc, sym, eq_iff, List, [], ◌∷◌, ◌++◌, String, ◌≡◌, refl, arith, str_eq,
}
use rvpay_go.Base.Table.{any_row}
use rvpay_go.Base.Effect.{ok, err, status, internal, wrap_error}
use rvpay_go.Clients.Errors.{translate_error}
use rvpay_go.Clients.Model.{Uuid, WebhookEvent, Db}
use rvpay_go.Clients.Events.{
  new_event, has_event_key, insert_event, create_webhook_event, create, record_event_error,
  record_event,
}

-- A recorded event is in the table, under its key.
record_event_recorded :
    (integration : Uuid) (provider_event event_type payload : String) (db : Db) {u : Db}
    → record_event integration provider_event event_type payload db ≡ (ok tt, u)
    → (row : WebhookEvent) × (row.integration_id ≡ integration)
      × (row.provider_event_id ≡ provider_event)
      × (u.webhook_events ≡ db.webhook_events ++ row ∷ [])
unfolding record_event create create_webhook_event insert_event
record_event_recorded integration provider_event event_type payload db h =
    let row =
      new_event
        (record {
          integration_id = integration;
          provider_event_id = provider_event;
          event_type = event_type;
          payload = payload;
        })
        (db.new_uuid db.drawn) (db.clock (suc db.ticks)) in
    (row, refl, refl, (ground arith))

any_row-append :
    {A : Type 0} (p : A → Bool) (xs : List A) (x : A) → p x ≡ true → any_row p (xs ++ x ∷ []) ≡ true
unfolding any_row
any_row-append p [] x h = ground arith
any_row-append p (y ∷ ys) x h = let rest = any_row-append p ys x h in ground arith

str_eq_refl : (s : String) → str_eq s s ≡ true
str_eq_refl s = ground (arith, eq_iff s s)

has_key : (row : WebhookEvent) → has_event_key row.integration_id row.provider_event_id row ≡ true
has_key row = let s = str_eq_refl row.provider_event_id in ground arith

-- A row with the event's key keeps the insertion from running, and no row comes back.
pub record_event_conflict :
    (integration : Uuid) (provider_event event_type payload : String) (db : Db)
    → any_row (has_event_key integration provider_event) db.webhook_events ≡ true
    → db.fault db.ticks ≡ none
    → ((record_event integration provider_event event_type payload db).0
        ≡ err (status internal "internal error"))
      × ((record_event integration provider_event event_type payload db).1.tables ≡ db.tables)
unfolding record_event create create_webhook_event insert_event record_event_error translate_error
    wrap_error
record_event_conflict integration provider_event event_type payload db h f = ground arith

pub recorded_key :
    (integration : Uuid) (provider_event event_type payload : String) (db : Db) {u : Db}
    → record_event integration provider_event event_type payload db ≡ (ok tt, u)
    → any_row (has_event_key integration provider_event) u.webhook_events ≡ true
recorded_key integration provider_event event_type payload db {u} h =
    let (row, i, e, rows) =
      record_event_recorded integration provider_event event_type payload db h in
    known row i e rows
  where
    known :
        (row : WebhookEvent)
        → row.integration_id ≡ integration
        → row.provider_event_id ≡ provider_event
        → u.webhook_events ≡ db.webhook_events ++ row ∷ []
        → any_row (has_event_key integration provider_event) u.webhook_events ≡ true
    known row i e rows =
        rw (rows, sym i, sym e)
          (any_row-append (has_event_key row.integration_id row.provider_event_id) db.webhook_events
            row (has_key row))

-- An event that has been recorded and is delivered again, with whatever type and payload, changes no
-- table, and where the server runs the insertion the provider is told INTERNAL: the insertion
-- returns no row, which is not among the errors that are taken for a duplicate.
pub record_event_again :
    (integration : Uuid) (provider_event event_type payload : String) (db : Db) {u : Db}
    (event_type' payload' : String)
    → record_event integration provider_event event_type payload db ≡ (ok tt, u)
    → u.fault u.ticks ≡ none
    → ((record_event integration provider_event event_type' payload' u).0
        ≡ err (status internal "internal error"))
      × ((record_event integration provider_event event_type' payload' u).1.tables ≡ u.tables)
record_event_again integration provider_event event_type payload db {u} event_type' payload' h f =
    record_event_conflict integration provider_event event_type' payload' u
      (recorded_key integration provider_event event_type payload db h) f
