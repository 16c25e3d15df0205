-- ===== src/Clients/Providers/Webhook.antt =====
-- Signed deliveries: `HighLevelWebhookProvider` of clients/providers/highlevel_webhook.go. The
-- parts of Go's libraries that it calls are parameters.
use rvpay_go.Base.{ℕ, String, Option, none, some, not, ◌==◌, if◌then◌else◌, Bool}
use rvpay_go.Base.Text.{is_empty, trim_space}
use rvpay_go.Base.Effect.{Result, ok, err, other}
use rvpay_go.Clients.Providers.{Headers, header, ProviderEvent, WebhookProvider}

-- The members of a payload that `ParseEvent` reads.
pub record WebhookPayload : Type 0 where
  pub type : String
  pub app_id : String
  pub location_id : String
  pub company_id : String
  pub payload : String
  pub timestamp : String
  pub webhook_id : String

-- `base64.StdEncoding.DecodeString`, `len`, `ed25519.Verify`, the decoding of a PEM block to an
-- Ed25519 key, `json.Unmarshal`, and `time.Parse(time.RFC3339Nano, …)` as a Unix time.
pub record Codec : Type 0 where
  pub decode_base64 : String → Option String
  pub size : String → ℕ
  pub verify : (key body signature : String) → Bool
  pub decode_key : String → Option String
  pub unmarshal : String → Option WebhookPayload
  pub parse_time : String → Option ℕ

module _ (codec : Codec) where
  unfoldable pub parse_ed25519_public_key : String → Option String
  parse_ed25519_public_key pem =
      let trimmed = trim_space pem in if is_empty trimmed then none else codec.decode_key trimmed

  -- The part after the signature header has been read.
  unfoldable pub check_signature : (key body signature : String) → Result (Unit {0})
  check_signature key body signature =
      if is_empty signature
      then err (other "missing signature header")
      else elim (codec.decode_base64 signature) [
        | none ↦ err (other "malformed signature")
        | some sig ↦
            if not (codec.size sig == 64)
            then err (other "malformed signature: unexpected length")
            else if not (codec.verify key body sig)
            then err (other "invalid signature")
            else ok tt
      ]

  unfoldable pub verify_request : Option String → Headers → String → Result (Unit {0})
  unfolding check_signature
  verify_request none headers body = err (other "webhook public key is not configured")
  verify_request (some key) headers body =
      check_signature key body (header "X-GHL-Signature" headers)

  unfoldable pub parse_event : String → Result ProviderEvent
  parse_event body = elim (codec.unmarshal body) [
    | none ↦ err (other "failed to parse webhook payload")
    | some p ↦ elim (codec.parse_time p.timestamp) [
      | none ↦ err (other "invalid webhook timestamp")
      | some t ↦ ok (record {
        provider = "highlevel";
        event_type = p.type;
        provider_event_id = p.webhook_id;
        integration_id = p.app_id;
        client_id = p.company_id;
        platform_id = "";
        location_id = p.location_id;
        payload = p.payload;
        received_at = t;
      })
    ]
  ]

  -- `RegisterWebhook` and `UnregisterWebhook` do nothing yet.
  unfoldable pub new_high_level_webhook_provider : String → WebhookProvider
  new_high_level_webhook_provider pem = record {
    verify_request = verify_request (parse_ed25519_public_key pem);
    parse_event = parse_event;
    register_webhook = λ id url n. ok tt;
    unregister_webhook = λ id n. ok tt;
  }
