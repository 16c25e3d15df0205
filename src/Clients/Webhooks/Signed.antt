-- ===== src/Clients/Webhooks/Signed.antt =====
-- The signature of a delivery of HighLevel's webhook (clients/webhooks/service.go and
-- clients/providers/highlevel_webhook.go).
use rvpay_go.Base.{String, true, some, Option-cases, ◌≡◌, inl, inr, ◌⊎◌, arith, ◌==◌}
use rvpay_go.Base.Effect.{Result-cases, ok, err}
use rvpay_go.Clients.Model.{Db}
use rvpay_go.Clients.Providers.{Headers, Provider, header, get}
use rvpay_go.Clients.Providers.Webhook.{
  Codec, parse_ed25519_public_key, check_signature, verify_request, new_high_level_webhook_provider,
}
use rvpay_go.Clients.Webhooks.{
  WebhookEnv, webhook_provider_of, process_webhook, err_invalid_signature,
}

-- The signature header is the base64 of 64 bytes which are a signature of the body under the key.
abbrev pub IsSigned : Codec → (pem : String) → Headers → (body : String) → Type 0
IsSigned codec pem headers body =
    (key : String) × (parse_ed25519_public_key codec pem ≡ some key)
    × ((sig : String) × (codec.decode_base64 (header "X-GHL-Signature" headers) ≡ some sig)
        × (codec.size sig == 64 ≡ true)
        × (codec.verify key body sig ≡ true))

check_signature_accepts :
    (codec : Codec) (key body signature : String)
    → check_signature codec key body signature ≡ ok tt
    → (sig : String) × (codec.decode_base64 signature ≡ some sig)
      × (codec.size sig == 64 ≡ true)
      × (codec.verify key body sig ≡ true)
unfolding check_signature
check_signature_accepts codec key body signature h =
    elim (Option-cases (codec.decode_base64 signature)) [
      | inl n ↦ ground arith
      | inr (sig, d) ↦ (sig, d, ground arith, ground arith)
    ]

verify_request-IsSigned :
    (codec : Codec) (pem : String) (headers : Headers) (body : String)
    → verify_request codec (parse_ed25519_public_key codec pem) headers body ≡ ok tt
    → IsSigned codec pem headers body
unfolding verify_request
verify_request-IsSigned codec pem headers body h =
    elim (Option-cases (parse_ed25519_public_key codec pem)) [
      | inl n ↦ ground arith
      | inr (key, k) ↦
          let (sig, d, size, valid) =
            check_signature_accepts codec key body (header "X-GHL-Signature" headers)
              (ground arith) in
          (key, k, (sig, d, size, valid))
    ]

-- Where HighLevel's provider is registered with a public key, a delivery is either signed with that
-- key, the signature being one of this very body, or it is refused with `ErrInvalidSignature` and
-- changes nothing: no event is parsed, recorded or dispatched.
pub process_webhook_authentic :
    (env : WebhookEnv) (codec : Codec) (pem : String) (p : Provider) (headers : Headers)
    (body : String) (db : Db)
    → get "highlevel" env.registry ≡ some p
    → p.webhook_provider ≡ some (new_high_level_webhook_provider codec pem)
    → IsSigned codec pem headers body
      ⊎ (process_webhook env "highlevel" headers body db ≡ (err err_invalid_signature, db))
unfolding process_webhook webhook_provider_of new_high_level_webhook_provider
process_webhook_authentic env codec pem p headers body db registered provider =
    elim (Result-cases (verify_request codec (parse_ed25519_public_key codec pem) headers body)) [
      | inl (u, h) ↦ inl (verify_request-IsSigned codec pem headers body h)
      | inr (e, h) ↦ inr (ground arith)
    ]
