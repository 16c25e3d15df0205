-- ===== src/Clients/Keeps/Deliveries.antt =====
-- The processing of deliveries and of payment events (clients/webhooks, clients/payments and the
-- dispatcher of clients/providers) against a property of the tables.
use rvpay_go.Base.{String, Option, none, some}
use rvpay_go.Base.Effect.{Result, ok, err, err_not_found, err_duplicate, Action}
use rvpay_go.Clients.Model.{Uuid, Integration, PaymentProviderConfig, Tables, Db, now}
use rvpay_go.Clients.Keeps.{Keeps, keeps_rules}
use rvpay_go.Clients.Keeps.Repo.{
  Steady, config_created-Keeps, reads_rules, record_event-Keeps, subscription_changed-Keeps,
  subscription_created-Keeps, subscription_deleted-Keeps,
}
use rvpay_go.Clients.Providers.{Headers, ProviderEvent, ProviderConfigSettings}
use rvpay_go.Clients.Providers.Dispatcher
use rvpay_go.Clients.Repo.WebhookSubscriptions as WebhookRepo
use rvpay_go.Clients.Webhooks
use rvpay_go.Clients.Webhooks.{WebhookEnv}
use rvpay_go.Clients.Payments
use rvpay_go.Clients.Payments.{
  PaymentsEnv, System, on_clients, on_transactions, PaymentEvent, QueryRequest,
}
use rvpay_go.Transactions.Model as Transactions

module _ {P : Tables → Type 0} where
  resolve_by_config-Keeps :
      (location : String) (r : Result Integration)
      → Keeps Db.tables P (Dispatcher.resolve_by_config location r)
  unfolding Dispatcher.resolve_by_config
  resolve_by_config-Keeps location (ok _) = search keeps_rules
  resolve_by_config-Keeps location (err err_not_found) = search reads_rules depth 20
  resolve_by_config-Keeps location (err _) = search keeps_rules

  resolve_installed-Keeps :
      (location : String) → Keeps Db.tables P (Dispatcher.resolve_installed location)
  unfolding Dispatcher.resolve_installed
  resolve_installed-Keeps location = search (reads_rules, resolve_by_config-Keeps) depth 20

  config_created-Keeps' :
      (r : Result PaymentProviderConfig) → Keeps Db.tables P (Dispatcher.config_created r)
  unfolding Dispatcher.config_created
  config_created-Keeps' (ok _) = search keeps_rules
  config_created-Keeps' (err err_duplicate) = search keeps_rules
  config_created-Keeps' (err _) = search keeps_rules

  install_target-Keeps :
      (env : WebhookEnv) (location : String) (r : Result Integration)
      → Keeps Db.tables P (Webhooks.install_target env location r)
  unfolding Webhooks.install_target
  install_target-Keeps env location (ok _) = search keeps_rules
  install_target-Keeps env location (err err_not_found) = search reads_rules depth 20
  install_target-Keeps env location (err _) = search keeps_rules

  authenticate-Keeps :
      (env : PaymentsEnv) (event : PaymentEvent)
      → Keeps Db.tables P (Payments.authenticate env event)
  unfolding Payments.authenticate
  authenticate-Keeps env event = search reads_rules depth 20

  find_config-Keeps :
      (api_key : String) → Keeps Db.tables P (Payments.find_config_by_api_key api_key)
  unfolding Payments.find_config_by_api_key
  find_config-Keeps api_key = search reads_rules depth 20

  on_clients-Keeps :
      {A : Type 0} (m : Action Db A)
      → Keeps Db.tables P m
      → Keeps (λ w. w.clients.tables) P (on_clients m)
  on_clients-Keeps m km = record { at = λ w h. km.at w.clients h }

  on_transactions-Keeps :
      {A : Type 0} (m : Action Transactions.Db A)
      → Keeps (λ w. w.clients.tables) P (on_transactions m)
  on_transactions-Keeps m = record { at = λ w h. h }

  pub handle_query-Keeps :
      (env : PaymentsEnv) (req : Option QueryRequest)
      → Keeps (λ w. w.clients.tables) P (Payments.handle_query env req)
  unfolding Payments.handle_query Payments.answer_query Payments.handle_verify
  handle_query-Keeps env none = search keeps_rules
  handle_query-Keeps env (some req) =
      search (keeps_rules, on_clients-Keeps, on_transactions-Keeps, find_config-Keeps) depth 20

  module _ (steady : Steady P) where
    create_if_missing-Keeps :
        (s : ProviderConfigSettings) (id : Uuid) (location : String)
        (r : Result PaymentProviderConfig)
        → Keeps Db.tables P (Dispatcher.create_if_missing s id location r)
    unfolding Dispatcher.create_if_missing
    create_if_missing-Keeps s id location (ok _) = search keeps_rules
    create_if_missing-Keeps s id location (err err_not_found) =
        search (keeps_rules, config_created-Keeps steady.configs, config_created-Keeps') depth 20
    create_if_missing-Keeps s id location (err _) = search keeps_rules

    installed-Keeps :
        (s : ProviderConfigSettings) (event : ProviderEvent)
        → Keeps Db.tables P (Dispatcher.handle_integration_installed s event)
    unfolding Dispatcher.handle_integration_installed
    installed-Keeps s event =
        search (reads_rules, resolve_installed-Keeps, create_if_missing-Keeps) depth 20

    pub dispatch-Keeps :
        (s : ProviderConfigSettings) (event : ProviderEvent)
        → Keeps Db.tables P (Dispatcher.dispatch s event)
    unfolding Dispatcher.dispatch
    dispatch-Keeps s event = search (keeps_rules, installed-Keeps) depth 20

    pub handle_webhook-Keeps :
        (env : PaymentsEnv) (body : String)
        → Keeps (λ w. w.clients.tables) P (Payments.handle_webhook env body)
    unfolding Payments.handle_webhook Payments.handle_event
    handle_webhook-Keeps env body =
        search
          (
            keeps_rules,
            on_clients-Keeps,
            on_transactions-Keeps,
            authenticate-Keeps,
            record_event-Keeps steady,
          )
          depth 40 fits 4000

    module _ (env : WebhookEnv)
        (dispatched : (event : ProviderEvent)
          → Keeps Db.tables P (Webhooks.run_dispatcher env event)) where
      provider_of-Keeps :
          (slug : String) → Keeps Db.tables P (Webhooks.webhook_provider_of env slug)
      unfolding Webhooks.webhook_provider_of
      provider_of-Keeps slug = search keeps_rules depth 20

      pub register_webhook-Keeps :
          (id : Uuid) (url : String) → Keeps Db.tables P (Webhooks.register_webhook env id url)
      unfolding Webhooks.register_webhook Webhooks.integration_provider Webhooks.subscribe
      register_webhook-Keeps id url =
          search (reads_rules, provider_of-Keeps, subscription_created-Keeps steady) depth 40 fits
            4000

      pub unregister_webhook-Keeps :
          (id : Uuid) → Keeps Db.tables P (Webhooks.unregister_webhook env id)
      unfolding Webhooks.unregister_webhook Webhooks.integration_provider
      unregister_webhook-Keeps id =
          search (reads_rules, provider_of-Keeps, subscription_deleted-Keeps steady) depth 40 fits
            4000

      event_target-Keeps :
          (id : String) (event : ProviderEvent)
          → Keeps Db.tables P (Webhooks.event_target env id event)
      unfolding Webhooks.event_target
      event_target-Keeps id event = search (reads_rules, install_target-Keeps) depth 20

      delivery_noted-Keeps :
          (id : Uuid)
          → Keeps Db.tables P (λ db. WebhookRepo.update_last_delivery id (some (now db)) db)
      delivery_noted-Keeps id = record {
        at = λ db h. (subscription_changed-Keeps steady id (some (now db))).at db h;
      }

      deliver-Keeps :
          (id : Uuid) (event : ProviderEvent) → Keeps Db.tables P (Webhooks.deliver env id event)
      unfolding Webhooks.deliver
      deliver-Keeps id event = search (reads_rules, dispatched, delivery_noted-Keeps) depth 20

      pub act_on-Keeps :
          (id : String) (target : Uuid) (event : ProviderEvent)
          → Keeps Db.tables P (Webhooks.act_on env id target event)
      unfolding Webhooks.act_on
      act_on-Keeps id target event = search (keeps_rules, dispatched, deliver-Keeps) depth 30

      process_event-Keeps :
          (id : String) (event : ProviderEvent)
          → Keeps Db.tables P (Webhooks.process_event env id event)
      unfolding Webhooks.process_event Webhooks.act_on
      process_event-Keeps id event =
          search
            (keeps_rules, event_target-Keeps, dispatched, deliver-Keeps, record_event-Keeps steady)
            depth 30

      pub process_webhook-Keeps :
          (id : String) (headers : Headers) (body : String)
          → Keeps Db.tables P (Webhooks.process_webhook env id headers body)
      unfolding Webhooks.process_webhook
      process_webhook-Keeps id headers body =
          search (keeps_rules, provider_of-Keeps, process_event-Keeps) depth 30
