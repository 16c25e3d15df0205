-- ===== src/Clients/Oauth/Installed.antt =====
-- What a completed callback leaves (`ProcessCallback` and `HandleCallback` of
-- clients/oauth/service.go).
mod Storage
mod FollowUp
pub use rvpay_go.Clients.Oauth.Installed.Storage.{HasActive, HasToken}
use rvpay_go.Clients.Oauth.Installed.Storage.{mem-of_eq, persisted}
use rvpay_go.Clients.Oauth.Installed.FollowUp.{Follows, follow_up-Follows}
use mathlib.Core.List.{Memᴰ}
use mathlib.Core.Path.{subst}
use rvpay_go.Base.{
  suc, String, Bool, true, Bool-cases, Option-cases, some, List, [], ◌∷◌, ◌++◌, inl, inr, ◌≡◌, refl,
  sym, ◌∙◌, ap, ==→eq, arith, ◌+◌, ◌==◌,
}
use rvpay_go.Base.Table.{find_row, update_rows, find_row-mem}
use rvpay_go.Base.Effect.{
  Action, raise, err_not_found, err_duplicate, err_constraint, no_rows, pg_error, other, status,
  Result, ok, err, map_err, try, wrap_error, wrap_not_found, ◌>>=◌, >>=-eq-ok, Result-cases,
  map_err-eq-ok,
}
use rvpay_go.Clients.Model.{
  Uuid, Time, Client, Platform, IntegrationStatus, Integration, OauthToken, Tables, Db, now,
  outside,
}
use rvpay_go.Clients.Errors.{translate, translate_error, found_or}
use rvpay_go.Clients.Query.{select_one, insert_into, insert_row, update_one}
use rvpay_go.Clients.Repo.Clients as ClientRepo
use rvpay_go.Clients.Repo.Clients.{client_is_active, get_client_by_id}
use rvpay_go.Clients.Repo.Platforms as PlatformRepo
use rvpay_go.Clients.Repo.Platforms.{get_platform_by_id}
use rvpay_go.Clients.Repo.Integrations as IntegrationRepo
use rvpay_go.Clients.Repo.Integrations.{
  integration_is_active, create_integration, update_integration_status, of_client_and_platform,
  get_integration_by_client_and_platform,
}
use rvpay_go.Clients.Repo.OauthTokens as OauthTokenRepo
use rvpay_go.Clients.Repo.OauthTokens.{create_oauth_token}
use rvpay_go.Clients.Keeps.Repo.{ConfigSteady}
use rvpay_go.Clients.Keeps.Flows.{register_provider-Keeps}
use rvpay_go.Clients.Oauth.Registration.{register_provider}
use rvpay_go.Clients.Providers.{Capability, Provider, TokenResponse}
use rvpay_go.Clients.Oauth.{OauthEnv, enabled_platform, active_client, provider_of}
use rvpay_go.Clients.Oauth.Callback.{
  CallbackResult, err_integration_already_exists, err_token_exchange_failed, err_user_info_failed,
  install, persist, store_token, follow_up, note_registration, process_callback, complete, complete,
}

platform_enabled :
    (env : OauthEnv) (id : Uuid) (db : Db) {p : Platform} {u : Db}
    → enabled_platform env id db ≡ (ok p, u)
    → Memᴰ p db.platforms × ((p.id == id) ≡ true) × (p.enabled ≡ true) × (u.tables ≡ db.tables)
unfolding enabled_platform found_or PlatformRepo.get_by_id get_platform_by_id select_one
platform_enabled env id db {p} {u} h =
    elim (Option-cases (find_row (λ p. p.id == id) db.platforms)) [
      | inl e ↦ absurd (ground arith)
      | inr (q, e) ↦
          let (m, k) = find_row-mem (λ p. p.id == id) db.platforms e in
          let same : q ≡ p = ground arith in
          (
            subst (λ (x : Platform). Memᴰ x db.platforms) same m,
            rw (sym same) k,
            ground arith,
            ground arith,
          )
    ]

client_active :
    (env : OauthEnv) (id : Uuid) (db : Db) {c : Client} {u : Db}
    → active_client env id db ≡ (ok c, u)
    → Memᴰ c db.clients
      × ((c.id == id) ≡ true)
      × (client_is_active c ≡ true)
      × (u.tables ≡ db.tables)
unfolding active_client found_or ClientRepo.get_by_id get_client_by_id select_one
client_active env id db {c} {u} h = elim (Option-cases (find_row (λ p. p.id == id) db.clients)) [
  | inl e ↦ absurd (ground arith)
  | inr (q, e) ↦
      let (m, k) = find_row-mem (λ p. p.id == id) db.clients e in
      let same : q ≡ c = ground arith in
      (
        subst (λ (x : Client). Memᴰ x db.clients) same m,
        rw (sym same) k,
        ground arith,
        ground arith,
      )
]

provider_tables :
    (env : OauthEnv) (slug : String) (db : Db) {p : Provider} {u : Db}
    → provider_of env slug db ≡ (ok p, u)
    → u.tables ≡ db.tables
unfolding provider_of
provider_tables env slug db h = ground arith

completed :
    (env : OauthEnv) (c p : Uuid) (code : String) (provider : Provider) (db : Db)
    {r : CallbackResult} {u : Db}
    → complete env c p code provider db ≡ (ok r, u)
    → (r.client_id ≡ c) × (r.platform_id ≡ p) × HasActive r u.tables × HasToken r u.tables
unfolding complete
completed env c p code provider db {r} {u} h =
    let exchange =
      map_err (λ _. err_token_exchange_failed)
        (outside (provider.oauth_provider.exchange_code code env.redirect_uri)) in
    let info = λ (token : TokenResponse).
      map_err (λ _. err_user_info_failed)
        (outside (provider.oauth_provider.get_user_info token.access_token)) in
    let finish = λ (token : TokenResponse) (user : String).
      persist env c p token user >>= follow_up env provider token in
    let (token, v, _, k) = >>=-eq-ok exchange (λ t. info t >>= finish t) db h in
    let (user, w, _, l) = >>=-eq-ok (info token) (finish token) v k in
    let (x, y, stored, m) =
      >>=-eq-ok (persist env c p token user) (follow_up env provider token) w l in
    let (client, platform, (i, there, id, active), (o, kept, of, access, refresh, expires)) =
      persisted env c p token user w stored in
    let (rc, rp, ri, ra, rf, re, is, os) = follow_up-Follows env provider token x y m in
    (
      sym rc ∙ client,
      sym rp ∙ platform,
      (i, mem-of_eq is there, id ∙ ri, active),
      (o, mem-of_eq os kept, of ∙ ri, access ∙ ra, refresh ∙ rf, expires ∙ re),
    )

-- A callback that has a result was for an enabled platform and an active client, which the result
-- names, and it leaves the integration that the result names active, with the token of the result
-- stored for it. This holds whether the registration as a payment provider succeeds or not.
pub process_callback_installs :
    (env : OauthEnv) (client platform : Uuid) (code : String) (db : Db) {r : CallbackResult}
    {u : Db}
    → process_callback env client platform code db ≡ (ok r, u)
    → ((p : Platform) × Memᴰ p db.platforms × (p.id ≡ platform) × (p.enabled ≡ true))
      × ((c : Client) × Memᴰ c db.clients × (c.id ≡ client) × (client_is_active c ≡ true))
      × (r.client_id ≡ client)
      × (r.platform_id ≡ platform)
      × HasActive r u.tables
      × HasToken r u.tables
unfolding process_callback
process_callback_installs env client platform code db {r} {u} h =
    let after_client =
      λ (provider : Provider). λ (c : Client). complete env client platform code provider in
    let after_provider =
      λ (provider : Provider). active_client env client >>= after_client provider in
    let (p, v, found, k) =
      >>=-eq-ok (enabled_platform env platform) (λ p. provider_of env p.slug >>= after_provider) db
        h in
    let (provider, w, known, l) = >>=-eq-ok (provider_of env p.slug) after_provider v k in
    let (c, x, active, m) = >>=-eq-ok (active_client env client) (after_client provider) w l in
    let (pm, pid, pe, pt) = platform_enabled env platform db found in
    let (cm, cid, ca, ct) = client_active env client w active in
    let same : w.tables ≡ v.tables = provider_tables env p.slug v known in
    let (rc, rp, a, t) = completed env client platform code provider x m in
    (
      (p, pm, ==→eq p.id platform pid, pe),
      (c, mem-of_eq (sym (ap Tables.clients (same ∙ pt))) cm, ==→eq c.id client cid, ca),
      rc,
      rp,
      a,
      t,
    )
