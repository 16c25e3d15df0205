-- ===== src/Clients/Runs/Once.antt =====
-- An event that is delivered again to the whole service (`ProcessWebhook` of
-- clients/webhooks/service.go), however its first delivery ended.
use rvpay_go.Base.{
  String, Option, none, some, List, Option-cases, inl, inr, ◌≡◌, refl, sym, ap, ◌∙◌, arith, true,
}
use rvpay_go.Base.Table.{any_row}
use rvpay_go.Base.Rows.{any_row-append_last}
use rvpay_go.Base.Effect.{Result, Result-cases, ok, err, Action, or_raise, ◌>>=◌}
use rvpay_go.Clients.Model.{Uuid, Tables, Db}
use rvpay_go.Clients.Keeps.Repo.{Steady}
use rvpay_go.Clients.Keeps.Deliveries.{act_on-Keeps}
use rvpay_go.Clients.Events.{
  has_event_key, record_event, create, create_webhook_event, insert_event,
}
use rvpay_go.Clients.Events.Delivery.{recorded_key}
use rvpay_go.Clients.Providers.{ProviderEvent, WebhookDispatcher}
use rvpay_go.Clients.Repo.Integrations as IntegrationRepo
use rvpay_go.Clients.Repo.PaymentProviderConfigs as ConfigRepo
use rvpay_go.Clients.Errors.{found_or}
use rvpay_go.Clients.Query.{select_one}
use rvpay_go.Clients.Webhooks.{
  WebhookEnv, event_target, install_target, act_on, process_event, err_invalid_payload,
}
use rvpay_go.Clients.Runs.{
  ClientsEnv, webhook_env, Call, run, UninstallNone, dispatched, run_keeps_without_uninstall,
}
use rvpay_go.Clients.Payments.{System}

-- The event of an identifier is in the table.
abbrev pub IsRecorded : Uuid → String → Tables → Type 0
IsRecorded i e t = any_row (has_event_key i e) t.webhook_events ≡ true

IsRecorded-Steady : (i : Uuid) (e : String) → Steady (IsRecorded i e)
IsRecorded-Steady i e = record {
  client_added = λ row t n h. h;
  client_changed = λ id to now t h. h;
  platform_changed = λ id a b c d e f now row t x y h. h;
  integration_added = λ row t n h. h;
  integration_changed = λ id to now t h. h;
  oauth_state_added = λ row t n h. h;
  oauth_state_consumed = λ state now t h. h;
  oauth_token_added = λ row t n h. h;
  oauth_token_changed = λ id a b c d e now t h. h;
  webhook_subscription_added = λ row t n h. h;
  webhook_subscription_changed = λ id l now t h. h;
  webhook_subscription_removed = λ id t h. h;
  webhook_event_added =
      λ row t a b c h. rw (any_row-append_last (has_event_key i e) t.webhook_events row, h) refl;
  configs = record { config_added = λ row t n h. h; config_changed = λ arg now t h. h };
}

-- The lookup of an event's integration changes no table, and does not ask the dispatcher.
target_tables :
    (env : WebhookEnv) (p : String) (event : ProviderEvent) (db : Db) {i : Uuid} {v : Db}
    → event_target env p event db ≡ (ok i, v)
    → v.tables ≡ db.tables
unfolding event_target install_target IntegrationRepo.get_by_external_account_id
    IntegrationRepo.get_integration_by_external_account_id ConfigRepo.get_by_location_id
    ConfigRepo.get_payment_provider_config_by_location_id found_or select_one
target_tables env p event db h = ground arith

target_undispatched :
    (env : WebhookEnv) (d : Option WebhookDispatcher) (p : String) (event : ProviderEvent) (db : Db)
    → event_target (record env { dispatcher = d }) p event db ≡ event_target env p event db
unfolding event_target install_target
target_undispatched env d p event db = refl

-- A recorded event is not recorded again.
unrecorded :
    (i : Uuid) (e type text : String) (db : Db)
    → IsRecorded i e db.tables
    → (¬ ((record_event i e type text db).0 ≡ ok tt))
      × ((record_event i e type text db).1.tables ≡ db.tables)
unfolding record_event create create_webhook_event insert_event
unrecorded i e type text db h = ((λ k. ground arith), ground arith)

bind_passed :
    {A : Type 0} (m : Action Db A) (f : A → Action Db (Unit {0})) (v : Db) {a : A} {u : Db}
    → m v ≡ (ok a, u)
    → (m >>= f) v ≡ f a u
bind_passed m f v h = ground arith

-- What `ProcessWebhook` does from the target on, for a payload that is JSON.
after_target :
    (env : WebhookEnv) (p : String) (event : ProviderEvent) (db : Db) {i : Uuid} {v : Db}
    {text : String}
    → event_target env p event db ≡ (ok i, v)
    → env.marshal event.payload ≡ some text
    → process_event env p event db
      ≡ (record_event i event.provider_event_id event.event_type text >>= λ _. act_on env p i event)
          v
unfolding process_event
after_target env p event db {i} {v} {text} h m =
    let rest = λ (i : Uuid) (text : String).
      record_event i event.provider_event_id event.event_type text >>= λ _. act_on env p i event in
    bind_passed (event_target env p event)
      (λ i. or_raise (env.marshal event.payload) err_invalid_payload >>= rest i) db h
    ∙ bind_passed (or_raise (env.marshal event.payload) err_invalid_payload) (rest i) v
        (ap (λ o. or_raise o err_invalid_payload v) m)

act_on_keeps :
    (env : ClientsEnv) (p : String) (i : Uuid) (event : ProviderEvent) (k : Uuid) (e : String)
    (db : Db)
    → IsRecorded k e db.tables
    → IsRecorded k e (act_on (webhook_env env) p i event db).1.tables
act_on_keeps env p i event k e db h =
    (act_on-Keeps (IsRecorded-Steady k e) (webhook_env env) (dispatched env (IsRecorded-Steady k e))
        p i event).at
      db h

-- After a delivery that got its event recorded the event is in the table, whatever its handler did.
delivered-IsRecorded :
    (env : ClientsEnv) (p : String) (event : ProviderEvent) (db : Db) {i : Uuid} {v : Db}
    {text : String}
    → event_target (webhook_env env) p event db ≡ (ok i, v)
    → env.marshal event.payload ≡ some text
    → (record_event i event.provider_event_id event.event_type text v).0 ≡ ok tt
    → IsRecorded i event.provider_event_id (process_event (webhook_env env) p event db).1.tables
delivered-IsRecorded env p event db {i} {v} {text} h m r =
    let recorded = record_event i event.provider_event_id event.event_type text v in
    let key =
      recorded_key i event.provider_event_id event.event_type text v {u = recorded.1}
        (λ k. (r k, recorded.1)) in
    let kept = act_on_keeps env p i event i event.provider_event_id recorded.1 key in
    rw
      (
        after_target (webhook_env env) p event db h m,
        bind_passed (record_event i event.provider_event_id event.event_type text)
            (λ _. act_on (webhook_env env) p i event) v (λ k. (r k, recorded.1)),
      )
      kept

-- What a delivery of a recorded event comes to: it has no dispatcher in it.
abbrev refusal : WebhookEnv → ProviderEvent → Uuid → Db → Result (Unit {0}) × Db
refusal env event i v = elim (env.marshal event.payload) [
  | none ↦ (err err_invalid_payload, v)
  | some text ↦ record_event i event.provider_event_id event.event_type text v
]

bind_failed :
    (m : Action Db (Unit {0})) (f : Unit {0} → Action Db (Unit {0})) (v : Db)
    → ¬ ((m v).0 ≡ ok tt)
    → (m >>= f) v ≡ m v
bind_failed m f v n = elim (Result-cases (m v).0) [
  | inl (x, h) ↦ absurd (n h)
  | inr (e, h) ↦ ground arith
]

refused :
    (env : WebhookEnv) (p : String) (event : ProviderEvent) (db : Db) {i : Uuid} {v : Db}
    → event_target env p event db ≡ (ok i, v)
    → IsRecorded i event.provider_event_id v.tables
    → process_event env p event db ≡ refusal env event i v
unfolding process_event
refused env p event db {i} {v} h known = elim (Option-cases (env.marshal event.payload)) [
  | inl m ↦
      bind_passed (event_target env p event)
        (λ i. or_raise (env.marshal event.payload) err_invalid_payload >>= λ text.
          record_event i event.provider_event_id event.event_type text >>= λ _.
          act_on env p i event)
        db h
      ∙ rw (refusal, m) refl
  | inr (text, m) ↦
      after_target env p event db h m
      ∙ bind_failed (record_event i event.provider_event_id event.event_type text)
          (λ _. act_on env p i event) v
          (unrecorded i event.provider_event_id event.event_type text v known).0
      ∙ rw (refusal, m) refl
]

refusal_is :
    (env : WebhookEnv) (event : ProviderEvent) (i : Uuid) (v : Db)
    → IsRecorded i event.provider_event_id v.tables
    → (¬ ((refusal env event i v).0 ≡ ok tt)) × ((refusal env event i v).1.tables ≡ v.tables)
refusal_is env event i v known = elim (Option-cases (env.marshal event.payload)) [
  | inl m ↦ rw (refusal, m) ((λ k. cc), refl)
  | inr (text, m) ↦
      rw (refusal, m) (unrecorded i event.provider_event_id event.event_type text v known)
]

-- A delivery that no dispatcher gets to see: with any dispatcher the service does what it does with
-- none, which fails and changes no table.
abbrev pub IsUnhandled : WebhookEnv → String → ProviderEvent → Db → Type 0
IsUnhandled env p event db =
    ((d : Option WebhookDispatcher)
      → process_event (record env { dispatcher = d }) p event db
        ≡ process_event (record env { dispatcher = none }) p event db)
    × (¬ ((process_event env p event db).0 ≡ ok tt))
    × ((process_event env p event db).1.tables ≡ db.tables)

recorded-IsUnhandled :
    (env : WebhookEnv) (p : String) (event : ProviderEvent) (db : Db) {i : Uuid} {v : Db}
    → event_target env p event db ≡ (ok i, v)
    → IsRecorded i event.provider_event_id db.tables
    → IsUnhandled env p event db
recorded-IsUnhandled env p event db {i} {v} h known =
    let same = target_tables env p event db h in
    let there : IsRecorded i event.provider_event_id v.tables = rw same known in
    let (fails, kept) = refusal_is env event i v there in
    let with_any = λ (d : Option WebhookDispatcher).
      refused (record env { dispatcher = d }) p event db (target_undispatched env d p event db ∙ h)
        there in
    let outcome = refused env p event db h there in
    ((λ d. with_any d ∙ sym (with_any none)), rw outcome fails, rw outcome (kept ∙ same))

-- Once a delivery has got its event recorded, however its handler ended, no later delivery for the
-- same integration with the same identifier gets to a handler, whatever calls that remove no
-- integration come between and whatever the server refuses: with any dispatcher, the service does
-- what it does with none, reports a failure, and changes no table.
pub process_event_once :
    (env : ClientsEnv) (p p' : String) (event event' : ProviderEvent) (cs : List Call) (w : System)
    {i : Uuid} {v v' : Db} {text : String}
    → event_target (webhook_env env) p event w.clients ≡ (ok i, v)
    → env.marshal event.payload ≡ some text
    → (record_event i event.provider_event_id event.event_type text v).0 ≡ ok tt
    → UninstallNone cs
    → event'.provider_event_id ≡ event.provider_event_id
    → let first = (process_event (webhook_env env) p event w.clients).1 in
      let later = (run env cs (record w { clients = first })).clients in
      event_target (webhook_env env) p' event' later ≡ (ok i, v')
      → IsUnhandled (webhook_env env) p' event' later
process_event_once env p p' event event' cs w {i} h m r none_removed same h' =
    let first = (process_event (webhook_env env) p event w.clients).1 in
    let later = (run env cs (record w { clients = first })).clients in
    let still =
      run_keeps_without_uninstall env (IsRecorded-Steady i event.provider_event_id) (λ id t n k. k)
        cs (record w { clients = first }) none_removed
        (delivered-IsRecorded env p event w.clients h m r) in
    let known : IsRecorded i event'.provider_event_id later.tables = rw same still in
    recorded-IsUnhandled (webhook_env env) p' event' later h' known
