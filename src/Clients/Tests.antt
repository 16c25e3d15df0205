-- ===== src/Clients/Tests.antt =====
-- Deliveries of concrete events.
mod Flows
mod Callback
mod Requests
mod Once
use rvpay_go.Base.{◌+◌, none, List, [], ◌∷◌, ◌≡◌, refl}
use rvpay_go.Base.Table.{any_row}
use rvpay_go.Base.Effect.{ok, err, internal, status}
use rvpay_go.Clients.Model.{IntegrationStatus, Integration, Db}
use rvpay_go.Clients.Events
use rvpay_go.Clients.Events.{record_event}
use rvpay_go.Clients.Events.Delivery.{record_event_again}

abbrev location : Integration
location = record {
  id = 7;
  client_id = 1;
  platform_id = 2;
  external_account_id = "loc";
  status = IntegrationStatus.active;
  installed_at = 0;
  last_sync_at = none;
  created_at = 0;
  updated_at = 0;
}

abbrev database : Db
database = record {
  tables = record {
    clients = [];
    platforms = [];
    integrations = location ∷ [];
    oauth_states = [];
    oauth_tokens = [];
    webhook_subscriptions = [];
    webhook_events = [];
    payment_provider_configs = [];
  };
  clock = λ n. n;
  new_uuid = λ n. 100 + n;
  fault = λ n. none;
  ticks = 0;
  drawn = 0;
  calls = 0;
}

abbrev after_install : Db
after_install = (record_event 7 "ev" "INSTALL" "{}" database).1

installed : (record_event 7 "ev" "INSTALL" "{}" database).0 ≡ ok tt
unfolding record_event Events.create Events.create_webhook_event Events.insert_event any_row
installed = refl

no_fault : after_install.fault after_install.ticks ≡ none
unfolding record_event Events.create Events.create_webhook_event Events.insert_event any_row
no_fault = refl

record_event_again_example :
    ((record_event 7 "ev" "INSTALL" "{}" after_install).0 ≡ err (status internal "internal error"))
    × ((record_event 7 "ev" "INSTALL" "{}" after_install).1.tables ≡ after_install.tables)
record_event_again_example =
    record_event_again 7 "ev" "INSTALL" "{}" database "INSTALL" "{}"
      (λ i. (installed i, after_install)) no_fault
