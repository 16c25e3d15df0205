-- ===== src/Clients/Oauth/Installed/Storage.antt =====
-- What the storing of an integration and its token leaves (`ProcessCallback` of
-- clients/oauth/service.go).
use mathlib.Core.List.{Memᴰ}
use rvpay_go.Base.{
  suc, String, Bool, Bool-cases, Option-cases, some, List, [], ◌∷◌, ◌++◌, inl, inr, ◌≡◌, refl, sym,
  arith, ◌==◌,
}
use rvpay_go.Base.Table.{find_row, update_rows}
use rvpay_go.Base.Effect.{
  Action, raise, err_not_found, err_duplicate, err_constraint, no_rows, pg_error, other, status,
  Result, ok, err, try, wrap_error, wrap_not_found, ◌>>=◌, >>=-eq-ok, Result-cases, map_err-eq-ok,
}
use rvpay_go.Clients.Model.{Uuid, Time, IntegrationStatus, Integration, OauthToken, Tables, Db, now}
use rvpay_go.Clients.Errors.{translate, translate_error}
use rvpay_go.Clients.Query.{insert_into, insert_row, update_one}
use rvpay_go.Clients.Repo.Integrations as IntegrationRepo
use rvpay_go.Clients.Repo.Integrations.{
  integration_is_active, create_integration, update_integration_status, of_client_and_platform,
  get_integration_by_client_and_platform,
}
use rvpay_go.Clients.Repo.OauthTokens as OauthTokenRepo
use rvpay_go.Clients.Repo.OauthTokens.{create_oauth_token}
use rvpay_go.Clients.Providers.{TokenResponse}
use rvpay_go.Clients.Oauth.{OauthEnv, seconds, add_duration}
use rvpay_go.Clients.Oauth.Callback.{
  CallbackResult, err_integration_already_exists, install, persist, store_token,
}

-- The token that a result tells of is stored.
abbrev pub HasToken : CallbackResult → Tables → Type 0
HasToken r t =
    (o : OauthToken) × Memᴰ o t.oauth_tokens
    × (o.integration_id ≡ r.integration_id)
    × (o.access_token ≡ r.access_token)
    × (o.refresh_token ≡ r.refresh_token)
    × (o.expires_at ≡ r.expires_at)

pub mem-of_eq : {A : Type 0} {xs ys : List A} {x : A} → xs ≡ ys → Memᴰ x ys → Memᴰ x xs
mem-of_eq e m = rw e m

mem-last : {A : Type 0} (xs : List A) (x : A) → Memᴰ x (xs ++ x ∷ [])
mem-last [] x = Memᴰ.head refl
mem-last (y ∷ xs) x = Memᴰ.tail (mem-last xs x)

token_stored :
    (i : Uuid) (a f : String) (e : Time) (s k : String) (db : Db) {o : OauthToken} {u : Db}
    → OauthTokenRepo.create i a f e s k db ≡ (ok o, u)
    → (u.oauth_tokens ≡ db.oauth_tokens ++ o ∷ [])
      × (u.integrations ≡ db.integrations)
      × (o.integration_id ≡ i)
      × (o.access_token ≡ a)
      × (o.refresh_token ≡ f)
      × (o.expires_at ≡ e)
unfolding OauthTokenRepo.create create_oauth_token insert_into insert_row wrap_error
token_stored i a f e s k db h = ground arith

mem-updated :
    {A : Type 0} (p : A → Bool) (f : A → A) (xs : List A) {r : A}
    → find_row p xs ≡ some r
    → Memᴰ (f r) (update_rows p f xs)
unfolding find_row update_rows
mem-updated p f [] h = cc
mem-updated p f (x ∷ xs) {r} h = elim (Bool-cases (p x)) [
  | inl e ↦ Memᴰ.head (ground arith)
  | inr e ↦ Memᴰ.tail (mem-updated p f xs (ground arith))
]

integration_activated :
    (id : Uuid) (db : Db) {i : Integration} {u : Db}
    → IntegrationRepo.update_status id IntegrationStatus.active db ≡ (ok i, u)
    → (i.status ≡ IntegrationStatus.active) × Memᴰ i u.integrations
unfolding IntegrationRepo.update_status update_integration_status update_one wrap_not_found
integration_activated id db {i} {u} h =
    elim (Option-cases (find_row (λ x. x.id == id) db.integrations)) [
      | inl e ↦ ground arith
      | inr (r, e) ↦
          let t = db.clock (suc db.ticks) in
          let f =
            λ (x : Integration). record x { status = IntegrationStatus.active; updated_at = t } in
          let rows : u.integrations ≡ update_rows (λ x. x.id == id) f db.integrations =
            ground arith in
          let same : i ≡ f r = ground arith in
          (rw same refl, rw (rows, same) (mem-updated (λ x. x.id == id) f db.integrations e))
    ]

integration_created :
    (c p : Uuid) (account : String) (db : Db) {i : Integration} {u : Db}
    → IntegrationRepo.create c p account IntegrationStatus.active db ≡ (ok i, u)
    → (i.status ≡ IntegrationStatus.active) × Memᴰ i u.integrations
unfolding IntegrationRepo.create create_integration insert_into insert_row wrap_error
integration_created c p account db {i} {u} h =
    let rows : u.integrations ≡ db.integrations ++ i ∷ [] = ground arith in
    (ground arith, rw rows (mem-last db.integrations i))

installed_active :
    (c p : Uuid) (user : String) (found : Result Integration) (db : Db) {i : Integration} {u : Db}
    → install c p user found db ≡ (ok i, u)
    → (i.status ≡ IntegrationStatus.active) × Memᴰ i u.integrations
unfolding install translate
installed_active c p user (ok existing) db {i} {u} h = go existing.status h
  where
    go :
        (s : IntegrationStatus)
        → elim s as (λ _. Action Db Integration) [
          | IntegrationStatus.created ↦
              translate (IntegrationRepo.update_status existing.id IntegrationStatus.active)
          | _ ↦ raise err_integration_already_exists
        ]
            db
          ≡ (ok i, u)
        → (i.status ≡ IntegrationStatus.active) × Memᴰ i u.integrations
    go IntegrationStatus.created k = integration_activated existing.id db (
        map_err-eq-ok translate_error
          (IntegrationRepo.update_status existing.id IntegrationStatus.active) db k)
    go IntegrationStatus.oauth_pending k = cc
    go IntegrationStatus.active k = cc
    go IntegrationStatus.revoked k = cc
installed_active c p user (err err_not_found) db h =
    integration_created c p user db (
      map_err-eq-ok translate_error (IntegrationRepo.create c p user IntegrationStatus.active) db h)
installed_active c p user (err (status x y)) db h = cc
installed_active c p user (err err_duplicate) db h = cc
installed_active c p user (err err_constraint) db h = cc
installed_active c p user (err no_rows) db h = cc
installed_active c p user (err (pg_error x)) db h = cc
installed_active c p user (err (other x)) db h = cc

-- The integration that a result tells of is there and active.
abbrev pub HasActive : CallbackResult → Tables → Type 0
HasActive r t =
    (i : Integration) × Memᴰ i t.integrations
    × (i.id ≡ r.integration_id)
    × (i.status ≡ IntegrationStatus.active)

store_token_stored :
    (env : OauthEnv) (c p : Uuid) (token : TokenResponse) (user : String) (i : Integration)
    (db : Db) {r : CallbackResult} {u : Db}
    → store_token env c p token user i db ≡ (ok r, u)
    → (r.client_id ≡ c)
      × (r.platform_id ≡ p)
      × (r.integration_id ≡ i.id)
      × (u.integrations ≡ db.integrations)
      × HasToken r u.tables
unfolding store_token translate OauthTokenRepo.create create_oauth_token insert_into insert_row
    wrap_error translate_error
store_token_stored env c p token user i db {r} {u} h =
    elim (Result-cases
      (OauthTokenRepo.create i.id token.access_token token.refresh_token
        (add_duration (seconds token.expires_in) (now db)) token.scope token.token_type db).0) [
          | inr (e, k) ↦ absurd (ground arith)
          | inl (o, k) ↦
              let rows : u.oauth_tokens ≡ db.oauth_tokens ++ o ∷ [] = ground arith in
              (
                ground arith,
                ground arith,
                ground arith,
                ground arith,
                (
                  o,
                  rw rows (mem-last db.oauth_tokens o),
                  ground arith,
                  ground arith,
                  ground arith,
                  ground arith,
                ),
              )
        ]

pub persisted :
    (env : OauthEnv) (c p : Uuid) (token : TokenResponse) (user : String) (db : Db)
    {r : CallbackResult} {u : Db}
    → persist env c p token user db ≡ (ok r, u)
    → (r.client_id ≡ c) × (r.platform_id ≡ p) × HasActive r u.tables × HasToken r u.tables
unfolding persist
persisted env c p token user db {r} {u} h =
    let lookup = try (IntegrationRepo.get_by_client_and_platform c p) in
    let store = store_token env c p token user in
    let (found, v, _, k) = >>=-eq-ok lookup (λ f. install c p user f >>= store) db h in
    let (i, x, made, l) = >>=-eq-ok (install c p user found) store v k in
    let (active, there) = installed_active c p user found v made in
    let (client, platform, id, same, token) = store_token_stored env c p token user i x l in
    (client, platform, (i, mem-of_eq same there, sym id, active), token)
