-- ===== src/Clients/Payments/Answers.antt =====
-- HighLevel's queries (clients/payments/service.go) against the payment service that answers them
-- (transactions/payments/service.go).
use mathlib.Core.List.{Memᴰ}
use mathlib.Core.Path.{subst}
use rvpay_go.Base.{
  Bool, String, true, false, Option-cases, some, List, inl, inr, ◌⊎◌, ◌≡◌, ◌↔◌, sym, ◌∙◌, ap, arith,
  str_eq,
}
use rvpay_go.Base.Text.{is_empty, trim_space}
use rvpay_go.Base.Table.{find_row, find_row-mem}
use rvpay_go.Base.Effect.{Result-cases, ok, raise_if, ◌>>=◌, >>=-eq-ok}
use rvpay_go.Clients.Model.{PaymentProviderConfig, Db}
use rvpay_go.Clients.Errors.{found_or}
use rvpay_go.Clients.Query.{select_one}
use rvpay_go.Clients.Repo.PaymentProviderConfigs as ConfigRepo
use rvpay_go.Clients.Repo.PaymentProviderConfigs.{get_payment_provider_config_by_api_key}
use rvpay_go.Clients.Payments.{
  PaymentsEnv, System, QueryRequest, QueryResponse, on_clients, find_config_by_api_key,
  handle_verify, answer_query, handle_query, err_missing_api_key,
}
use rvpay_go.Transactions.Model as Transactions
use rvpay_go.Transactions.Model.{DepositRow, DepositStatus}
use rvpay_go.Transactions.Store.Columns.{is_text}
use rvpay_go.Transactions.Payments.{VerifyPaymentResponse, interpret_status, verify_payment}
use rvpay_go.Transactions.Payments.Verification.{verify_payment_found}

-- The configuration that a key finds has the key.
config_found :
    (key : String) (db : Db) {c : PaymentProviderConfig} {u : Db}
    → find_config_by_api_key key db ≡ (ok c, u)
    → Memᴰ c db.payment_provider_configs × (str_eq c.provider_api_key key ≡ true)
unfolding find_config_by_api_key found_or ConfigRepo.get_by_api_key
    get_payment_provider_config_by_api_key select_one
config_found key db {c} {u} h =
    elim (Option-cases
      (find_row (λ x. str_eq x.provider_api_key key) db.payment_provider_configs)) [
        | inl e ↦ absurd (ground arith)
        | inr (q, e) ↦
            let (m, k) =
              find_row-mem (λ x. str_eq x.provider_api_key key) db.payment_provider_configs e in
            let same : q ≡ c = ground arith in
            (
              subst (λ (x : PaymentProviderConfig). Memᴰ x db.payment_provider_configs) same m,
              rw (sym same) k,
            )
      ]

-- A reply to a query is the payment service's reply.
verified :
    (env : PaymentsEnv) (req : QueryRequest) (w : System) {r : QueryResponse} {u : System}
    → handle_verify env req w ≡ (ok r, u)
    → (v : VerifyPaymentResponse) × (verify_payment env.transactions
          (some (record {
            ghl_transaction_id = req.transaction_id;
            ghl_charge_id = req.charge_id;
            subscription_id = req.subscription_id;
          }))
          w.transactions
        ≡ (ok v, u.transactions))
      × (r.success ≡ v.success)
      × (r.failed ≡ v.failed)
      × (u.clients ≡ w.clients)
unfolding handle_verify
verified env req w {r} {u} h =
    let call = verify_payment env.transactions (
      some (record {
        ghl_transaction_id = req.transaction_id;
        ghl_charge_id = req.charge_id;
        subscription_id = req.subscription_id;
      })) in
    elim (Result-cases (call w.transactions).0) [
      | inr (e, k) ↦ absurd (ground arith)
      | inl (v, k) ↦ (v, ground arith, ground arith, ground arith, ground arith)
    ]

-- The deposit that a verification is about, and its status.
abbrev pub VerifiedBy : QueryRequest → QueryResponse → List DepositRow → Type 0
VerifiedBy req r rows =
    (row : DepositRow) × Memᴰ row rows
    × ((is_text row.ghl_transaction_id (trim_space req.transaction_id) ≡ true)
        ⊎ (is_text row.ghl_charge_id (trim_space req.charge_id) ≡ true))
    × ((r.success ≡ true) ↔ (row.status ≡ DepositStatus.completed))
    × ((r.failed ≡ true) ↔ (row.status ≡ DepositStatus.failed))

success_completed :
    (b : Bool) (s : DepositStatus)
    → b ≡ (interpret_status s).success
    → (b ≡ true) ↔ (s ≡ DepositStatus.completed)
unfolding interpret_status
success_completed b s e = ground arith

failed_failed :
    (b : Bool) (s : DepositStatus)
    → b ≡ (interpret_status s).failed
    → (b ≡ true) ↔ (s ≡ DepositStatus.failed)
unfolding interpret_status
failed_failed b s e = ground arith

-- A reply to a query was asked for with an API key that is not blank and that a stored provider
-- configuration has, the query named no subscription, and the reply is about a deposit in the payment
-- service's database that carries the transaction's or the charge's identifier: `success` is said of
-- it exactly if it is COMPLETED, and `failed` exactly if it is FAILED. No table of the payment service
-- changes.
pub handle_query_answers :
    (env : PaymentsEnv) (req : QueryRequest) (w : System) {r : QueryResponse} {u : System}
    → handle_query env (some req) w ≡ (ok r, u)
    → (is_empty (trim_space req.api_key) ≡ false)
      × ((c : PaymentProviderConfig) × Memᴰ c w.clients.payment_provider_configs
          × (str_eq c.provider_api_key req.api_key ≡ true))
      × (is_empty (trim_space req.subscription_id) ≡ true)
      × VerifiedBy req r w.transactions.deposits
      × (u.transactions.tables ≡ w.transactions.tables)
unfolding handle_query answer_query
handle_query_answers env req w {r} {u} h =
    let asked = on_clients (find_config_by_api_key req.api_key) in
    let blank = is_empty (trim_space req.api_key) in
    let (_, v, guard, k) =
      >>=-eq-ok (raise_if blank err_missing_api_key) (λ _. asked >>= λ _. answer_query env req) w
        h in
    let (c, x, found, l) = >>=-eq-ok asked (λ _. answer_query env req) v k in
    let same : v ≡ w = ground arith in
    let filled : blank ≡ false = ground arith in
    let config : find_config_by_api_key req.api_key v.clients ≡ (ok c, x.clients) = ground arith in
    let (m, key) = config_found req.api_key v.clients config in
    let kept : x.transactions ≡ w.transactions = ground arith in
    let verifying : handle_verify env req x ≡ (ok r, u) = ground arith in
    let (reply, called, s, f, _) = verified env req x verifying in
    let (subscription, tables, (row, there, about, meaning)) =
      verify_payment_found env.transactions _ x.transactions called in
    (
      filled,
      (c, subst (λ (y : System). Memᴰ c y.clients.payment_provider_configs) same m, key),
      subscription,
      (
        row,
        subst (λ (y : Transactions.Db). Memᴰ row y.deposits) kept there,
        about,
        success_completed r.success row.status (s ∙ ap VerifyPaymentResponse.success meaning),
        failed_failed r.failed row.status (f ∙ ap VerifyPaymentResponse.failed meaning),
      ),
      tables ∙ ap Transactions.Db.tables kept,
    )
