-- ===== src/Clients/Oauth/Completion.antt =====
-- The completion of a callback (`ProcessCallback` of clients/oauth/service.go).
use rvpay_go.Base.{
  ℕ, suc, String, true, some, none, ◌≡◌, refl, arith, ◌==◌, ◌||◌, false, inl, inr, Bool-cases, ◌∙◌,
}
use rvpay_go.Base.Table.{find_row, any_row}
use rvpay_go.Base.Rows.{any_row-update, find_row-any}
use rvpay_go.Base.Effect.{ok, err, Result-cases}
use rvpay_go.Clients.Model.{Uuid, IntegrationStatus, Client, Platform, Integration, Db}
use rvpay_go.Clients.Errors.{found_or, translate}
use rvpay_go.Clients.Query.{select_one, one, insert_into, insert_row, update_one}
use rvpay_go.Clients.Repo.Clients as ClientRepo
use rvpay_go.Clients.Repo.Clients.{get_client_by_id, client_is_active}
use rvpay_go.Clients.Repo.Integrations as IntegrationRepo
use rvpay_go.Clients.Repo.Integrations.{
  get_integration_by_client_and_platform, of_client_and_platform, update_integration_status,
  set_integration_status,
}
use rvpay_go.Clients.Repo.Platforms as PlatformRepo
use rvpay_go.Clients.Repo.Platforms.{get_platform_by_id}
use rvpay_go.Clients.Repo.OauthTokens as OauthTokenRepo
use rvpay_go.Clients.Repo.OauthTokens.{create_oauth_token, oauth_token_refusal, new_oauth_token}
use rvpay_go.Clients.Providers.{Capability, Provider, TokenResponse, get}
use rvpay_go.Clients.Oauth.{OauthEnv, enabled_platform, active_client, provider_of}
use rvpay_go.Clients.Oauth.Registration.{register_provider}
use rvpay_go.Clients.Oauth.Callback.{
  CallbackResult, process_callback, complete, persist, install, store_token, follow_up,
  note_registration,
}

module _ (env : OauthEnv) (client platform : Uuid) (t : TokenResponse) (user : String)
    {i : Integration} (db : Db) (up : (n : ℕ) → db.fault n ≡ none)
    (pending : find_row (of_client_and_platform client platform) db.integrations ≡ some i)
    (created : i.status ≡ IntegrationStatus.created)
    (row : find_row (λ x. x.id == i.id) db.integrations ≡ some i)
    (no_token : any_row
        (λ o. o.id == db.new_uuid db.drawn || o.integration_id == i.id)
        db.oauth_tokens
      ≡ false) where
  persist_completes :
      (r : CallbackResult) × ((persist env client platform t user db).0 ≡ ok r)
      × (r.integration_id ≡ i.id)
  unfolding persist install store_token translate IntegrationRepo.get_by_client_and_platform
      get_integration_by_client_and_platform IntegrationRepo.update_status update_integration_status
      OauthTokenRepo.create create_oauth_token oauth_token_refusal select_one one update_one
      insert_into insert_row
  persist_completes =
      let f0 = up db.ticks in
      let f1 = up (suc db.ticks) in
      let f2 = up (suc (suc db.ticks)) in
      let kept =
        any_row-update (λ x. x.id == i.id) (λ x. x.id == i.id)
          (set_integration_status IntegrationStatus.active (db.clock (suc (suc db.ticks))))
          db.integrations (λ x. refl) in
      let there = find_row-any (λ x. x.id == i.id) db.integrations row in
      elim (Result-cases (persist env client platform t user db).0) [
        | inl (r, h) ↦ (r, h, ground arith)
        | inr (e, h) ↦ ground arith
      ]

follow_up_total :
    (env : OauthEnv) (provider : Provider) (t : TokenResponse) (x : CallbackResult) (db : Db)
    → (r : CallbackResult) × ((follow_up env provider t x db).0 ≡ ok r)
      × (r.integration_id ≡ x.integration_id)
unfolding follow_up note_registration
follow_up_total env provider t x db =
    let registration = register_provider env x.integration_id t.location_id t.access_token in
    elim (Bool-cases (provider.has_capability Capability.payment_provider)) [
      | inr e ↦ (x, ground arith, refl)
      | inl e ↦ elim (Result-cases (registration db).0) [
        | inl (a, h) ↦ (note_registration x (ok a), ground arith, refl)
        | inr (a, h) ↦ (note_registration x (err a), ground arith, refl)
      ]
    ]

-- Where the server refuses nothing and the provider answers, the callback of an active client for an
-- enabled platform succeeds for the integration that has been created for the two and has no token:
-- it is the integration of the result. This holds whatever the registration as a payment provider
-- comes to.
pub process_callback_completes :
    (env : OauthEnv) (client platform : Uuid) (code : String) (db : Db) {p : Platform} {c : Client}
    {provider : Provider} {t : TokenResponse} {user : String} {i : Integration}
    → ((n : ℕ) → db.fault n ≡ none)
    → find_row (λ x. x.id == platform) db.platforms ≡ some p
    → p.enabled ≡ true
    → get p.slug env.registry ≡ some provider
    → find_row (λ x. x.id == client) db.clients ≡ some c
    → client_is_active c ≡ true
    → provider.oauth_provider.exchange_code code env.redirect_uri db.calls ≡ ok t
    → provider.oauth_provider.get_user_info t.access_token (suc db.calls) ≡ ok user
    → find_row (of_client_and_platform client platform) db.integrations ≡ some i
    → i.status ≡ IntegrationStatus.created
    → find_row (λ x. x.id == i.id) db.integrations ≡ some i
    → any_row (λ o. o.id == db.new_uuid db.drawn || o.integration_id == i.id) db.oauth_tokens
      ≡ false
    → (r : CallbackResult) × ((process_callback env client platform code db).0 ≡ ok r)
      × (r.integration_id ≡ i.id)
unfolding process_callback complete enabled_platform active_client provider_of found_or
    PlatformRepo.get_by_id get_platform_by_id ClientRepo.get_by_id get_client_by_id select_one one
process_callback_completes env client platform code db {p} {c} {provider} {t} {user} {i} up found
      enabled registered known active exchanged informed pending created row no_token =
    let f0 = up db.ticks in
    let f1 = up (suc db.ticks) in
    let v = record db { ticks = suc (suc db.ticks); calls = suc (suc db.calls) } in
    let (x, stored, same) =
      persist_completes env client platform t user v up pending created row no_token in
    let (r, done, kept) =
      follow_up_total env provider t x (persist env client platform t user v).1 in
    (r, ground arith, kept ∙ same)
