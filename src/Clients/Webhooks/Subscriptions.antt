-- ===== src/Clients/Webhooks/Subscriptions.antt =====
-- A subscription after its registration (clients/webhooks/service.go).
use rvpay_go.Base.{false, Option, none, ◌≡◌, str_eq}
use rvpay_go.Base.Table.{any_row}
use rvpay_go.Base.Effect.{ok}
use rvpay_go.Clients.Model.{Uuid, Tables, Db}
use rvpay_go.Clients.Repo.Platforms as PlatformRepo
use rvpay_go.Clients.Repo.Integrations as IntegrationRepo
use rvpay_go.Clients.Repo.WebhookSubscriptions as WebhookRepo
use rvpay_go.Clients.Providers.{ProviderEvent, WebhookDispatcher}
use rvpay_go.Clients.Webhooks.{WebhookEnv, deliver}

-- No subscription has an empty endpoint.
abbrev pub NoEmptyEndpoint : Tables → Type 0
NoEmptyEndpoint t = any_row (λ w. str_eq w.endpoint "") t.webhook_subscriptions ≡ false

-- An event that no dispatcher gets to see: a server with the dispatcher does what one without does,
-- which fails and changes no table.
abbrev pub IsUndelivered :
    WebhookEnv → Option WebhookDispatcher → Uuid → ProviderEvent → Db → Type 0
IsUndelivered env d id event db =
    (deliver (record env { dispatcher = d }) id event db
      ≡ deliver (record env { dispatcher = none }) id event db)
    × (¬ ((deliver (record env { dispatcher = d }) id event db).0 ≡ ok tt))
    × ((deliver (record env { dispatcher = d }) id event db).1.tables ≡ db.tables)
