-- ===== src/Clients/Http.antt =====
-- The HTTP handlers of clients/http: which response a service's outcome becomes. Requests are
-- taken after their method has been checked and their body or query read.
pub mod Redelivery
use rvpay_go.Base.{ℕ, String, Option, none, some, ◌∷◌, []}
use rvpay_go.Base.Effect.{
  invalid_argument, not_found, already_exists, failed_precondition, unauthenticated, Err, status,
  ok, err, Action, try, lift, ◌>>=◌,
}
use rvpay_go.Clients.Model.{Db}
use rvpay_go.Clients.Webhooks.{WebhookEnv, process_webhook}
use rvpay_go.Clients.Oauth.{OauthEnv}
use rvpay_go.Clients.Oauth.Callback.{handle_callback}
use rvpay_go.Clients.Payments.{
  PaymentsEnv, System, QueryRequest, QueryResponse, handle_query, handle_webhook,
}

-- The status code and what the body says; a query's reply is encoded as JSON by Go's library.
pub data Response : Type 0 where
  text : ℕ → String → Response
  json : QueryResponse → Response

-- `writeWebhookError` of webhook_handler.go.
unfoldable pub webhook_error : Err → Response
webhook_error (status invalid_argument _) = text 400 "invalid webhook request"
webhook_error (status not_found _) = text 404 "webhook target not found"
webhook_error (status already_exists _) = text 200 "ok"
webhook_error (status failed_precondition _) = text 400 "webhook not permitted"
webhook_error _ = text 500 "webhook processing failed"

-- `writeCallbackError` of oauth_handler.go.
unfoldable pub callback_error : Err → Response
callback_error (status invalid_argument _) = text 400 "invalid OAuth callback parameters"
callback_error (status not_found _) = text 400 "OAuth context not found"
callback_error (status failed_precondition _) = text 400 "OAuth flow not permitted"
callback_error (status already_exists _) = text 409 "integration already exists"
callback_error _ = text 500 "OAuth callback processing failed"

-- `writeQueryError` of payment_query_handler.go.
unfoldable pub query_error : Err → Response
query_error (status invalid_argument _) = text 400 "invalid payment query request"
query_error (status unauthenticated _) = text 401 "invalid provider API key"
query_error (status not_found _) = text 404 "transaction not found"
query_error (status failed_precondition _) = text 400 "payment query not permitted"
query_error _ = text 500 "payment query processing failed"

-- `writeWebhookError` of payment_webhook_handler.go.
unfoldable pub payment_webhook_error : Err → Response
payment_webhook_error (status invalid_argument _) = text 400 "invalid payment webhook request"
payment_webhook_error (status not_found _) = text 404 "payment webhook target not found"
payment_webhook_error (status already_exists _) = text 200 "ok"
payment_webhook_error (status failed_precondition _) = text 400 "payment webhook not permitted"
payment_webhook_error _ = text 500 "payment webhook processing failed"

-- The response for an outcome.
abbrev pub respond :
    {W A : Type 0} → (A → Response) → (Err → Response) → Action W A → Action W Response
respond reply failure m = try m >>= λ r. lift (ok (elim r [ ok a ↦ reply a | err e ↦ failure e ]))

unfoldable pub high_level : WebhookEnv → (signature body : String) → Action Db Response
high_level env signature body =
    respond (λ _. text 200 "ok") webhook_error
      (process_webhook env "highlevel" (("X-GHL-Signature", signature) ∷ []) body)

unfoldable pub callback : OauthEnv → (code state : String) → Action Db Response
callback env code state =
    respond (λ _. text 200 "integration authorized successfully") callback_error
      (handle_callback env code state)

unfoldable pub query : PaymentsEnv → Option QueryRequest → Action System Response
query env none = lift (ok (text 400 "invalid payment query request"))
query env (some req) = respond json query_error (handle_query env (some req))

unfoldable pub payment : PaymentsEnv → String → Action System Response
payment env body = respond (λ _. text 200 "ok") payment_webhook_error (handle_webhook env body)
