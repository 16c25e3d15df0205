-- ===== src/Clients/Http/Redelivery.antt =====
-- A payment event that HighLevel delivers again (clients/http/payment_webhook_handler.go and
-- clients/payments/service.go).
use rvpay_go.Base.{String, true, false, none, some, ◌≡◌, arith}
use rvpay_go.Base.Text.{is_empty, trim_space}
use rvpay_go.Base.Table.{any_row}
use rvpay_go.Base.Effect.{ok}
use rvpay_go.Clients.Model.{Integration, Db}
use rvpay_go.Clients.Events.{has_event_key}
use rvpay_go.Clients.Events.Delivery.{record_event_conflict}
use rvpay_go.Clients.Payments.{
  PaymentsEnv, System, PaymentEvent, authenticate, handle_event, handle_webhook,
}
use rvpay_go.Clients.Http as Http
use rvpay_go.Clients.Http.{payment, payment_webhook_error}

-- An authentic payment event that has been recorded before, whether or not it was then processed, is
-- answered 500 where the server runs the insertion, and not 200 as a duplicate is meant to be; the
-- payment service is not called.
pub payment_redelivered :
    (env : PaymentsEnv) (body : String) (event : PaymentEvent) (payload : String) (w : System)
    {i : Integration} {v : Db}
    → env.unmarshal body ≡ some event
    → is_empty (trim_space event.event_id) ≡ false
    → authenticate env event w.clients ≡ (ok i, v)
    → env.marshal event.payload ≡ some payload
    → any_row (has_event_key i.id event.event_id) v.webhook_events ≡ true
    → v.fault v.ticks ≡ none
    → ((payment env body w).0 ≡ ok (Http.text 500 "payment webhook processing failed"))
      × ((payment env body w).1.transactions ≡ w.transactions)
unfolding payment handle_webhook handle_event payment_webhook_error
payment_redelivered env body event payload w {i} {v} parsed named authentic marshalled known fault =
    let (refused, _) =
      record_event_conflict i.id event.event_id event.event_type payload v known fault in
    ground arith
