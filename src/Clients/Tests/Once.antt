-- ===== src/Clients/Tests/Once.antt =====
-- An event that is delivered twice, with a call in between.
use rvpay_go.Base.{List, [], ◌∷◌, ◌≡◌, refl}
use rvpay_go.Base.Table.{any_row}
use rvpay_go.Base.Effect.{ok}
use rvpay_go.Clients.Model.{Db}
use rvpay_go.Clients.Events
use rvpay_go.Clients.Events.{record_event}
use rvpay_go.Clients.Providers.{ProviderEvent}
use rvpay_go.Clients.Webhooks.{event_target, process_event}
use rvpay_go.Clients.Runs.{Call, run}
use rvpay_go.Clients.Runs.Once.{IsUnhandled, process_event_once}
use rvpay_go.Clients.Tests.Flows.{clients_env, webhooks, configured, server, system_configured}

abbrev opened : ProviderEvent
opened = record {
  provider = "highlevel";
  event_type = "OPENED";
  provider_event_id = "ev2";
  integration_id = "7";
  client_id = "1";
  platform_id = "";
  location_id = "";
  payload = "{}";
  received_at = 0;
}

abbrev opened_again : ProviderEvent
opened_again = record opened { payload = "[]" }

abbrev meanwhile : List Call
meanwhile = Call.oauth_callback "code" "state" ∷ Call.delete_client "1" ∷ []

targeted : (db : Db) → event_target webhooks "highlevel" opened db ≡ (ok 7, db)
unfolding event_target
targeted db = refl

targeted_again : (db : Db) → event_target webhooks "highlevel" opened_again db ≡ (ok 7, db)
unfolding event_target
targeted_again db = refl

opened_recorded : (record_event 7 "ev2" "OPENED" "{}" (server configured)).0 ≡ ok tt
unfolding record_event Events.create Events.create_webhook_event Events.insert_event any_row
opened_recorded = refl

abbrev delivered : Db
delivered = (process_event webhooks "highlevel" opened (server configured)).1

abbrev later : Db
later = (run clients_env meanwhile (record system_configured { clients = delivered })).clients

process_event_once_example : IsUnhandled webhooks "highlevel" opened_again later
process_event_once_example =
    process_event_once clients_env "highlevel" "highlevel" opened opened_again meanwhile
      system_configured (targeted (server configured)) refl opened_recorded (refl, (refl, tt)) refl
      (targeted_again later)
