-- ===== src/Clients/Oauth/Installed/FollowUp.antt =====
-- What the registration that follows a callback leaves (`ProcessCallback` of
-- clients/oauth/service.go).
use rvpay_go.Base.{Bool-cases, List, inl, inr, ◌≡◌, refl, sym, arith}
use rvpay_go.Base.Effect.{Result, ok, err}
use rvpay_go.Clients.Model.{Integration, OauthToken, Tables, Db}
use rvpay_go.Clients.Keeps.Repo.{ConfigSteady}
use rvpay_go.Clients.Keeps.Flows.{register_provider-Keeps}
use rvpay_go.Clients.Oauth.Registration.{register_provider}
use rvpay_go.Clients.Providers.{Capability, Provider, TokenResponse}
use rvpay_go.Clients.Oauth.{OauthEnv}
use rvpay_go.Clients.Oauth.Callback.{CallbackResult, follow_up, note_registration}

-- The tables that a registration leaves alone.
record SameRows (is : List Integration) (os : List OauthToken) (t : Tables) : Type 0 where
  integrations_same : t.integrations ≡ is
  tokens_same : t.oauth_tokens ≡ os

SameRows-steady : (is : List Integration) (os : List OauthToken) → ConfigSteady (SameRows is os)
SameRows-steady is os = record {
  config_added =
      λ row t n h. record { integrations_same = h.integrations_same; tokens_same = h.tokens_same };
  config_changed = λ arg now t h. record {
    integrations_same = h.integrations_same;
    tokens_same = h.tokens_same;
  };
}

noted :
    (x : CallbackResult) (o : Result (Unit {0}))
    → (x.client_id ≡ (note_registration x o).client_id)
      × (x.platform_id ≡ (note_registration x o).platform_id)
      × (x.integration_id ≡ (note_registration x o).integration_id)
      × (x.access_token ≡ (note_registration x o).access_token)
      × (x.refresh_token ≡ (note_registration x o).refresh_token)
      × (x.expires_at ≡ (note_registration x o).expires_at)
unfolding note_registration
noted x (ok _) = (refl, refl, refl, refl, refl, refl)
noted x (err e) = (refl, refl, refl, refl, refl, refl)

-- What a registration leaves of the result and of the tables.
abbrev pub Follows : CallbackResult → Tables → CallbackResult → Tables → Type 0
Follows x t r u =
    (x.client_id ≡ r.client_id)
    × (x.platform_id ≡ r.platform_id)
    × (x.integration_id ≡ r.integration_id)
    × (x.access_token ≡ r.access_token)
    × (x.refresh_token ≡ r.refresh_token)
    × (x.expires_at ≡ r.expires_at)
    × (u.integrations ≡ t.integrations)
    × (u.oauth_tokens ≡ t.oauth_tokens)

pub follow_up-Follows :
    (env : OauthEnv) (provider : Provider) (token : TokenResponse) (x : CallbackResult) (db : Db)
    {r : CallbackResult} {u : Db}
    → follow_up env provider token x db ≡ (ok r, u)
    → Follows x db.tables r u.tables
unfolding follow_up
follow_up-Follows env provider token x db {r} {u} h =
    elim (Bool-cases (provider.has_capability Capability.payment_provider)) [
      | inr e ↦ ground arith
      | inl e ↦
          let registration =
            register_provider env x.integration_id token.location_id token.access_token in
          let kept =
            (register_provider-Keeps env (SameRows-steady db.integrations db.oauth_tokens)
                x.integration_id token.location_id token.access_token).at
              db (record { integrations_same = refl; tokens_same = refl }) in
          let result : note_registration x (registration db).0 ≡ r = ground arith in
          let state : (registration db).1 ≡ u = ground arith in
          let (a, b, c, d, f, g) = noted x (registration db).0 in
          (
            rw (sym result) a,
            rw (sym result) b,
            rw (sym result) c,
            rw (sym result) d,
            rw (sym result) f,
            rw (sym result) g,
            rw (sym state) kept.integrations_same,
            rw (sym state) kept.tokens_same,
          )
    ]
