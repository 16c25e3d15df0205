-- ===== src/Transactions/Change/Payments.antt =====
-- The handlers of transactions/payments/service.go against the specification in Change.antt.
use rvpay_go.Base.{
  suc, not, Option, none, some, String, ◌≡◌, refl, arith, ◌==◌, Option-cases, Bool-cases, inl, inr,
  str_eq, ap, ◌∙◌, sym,
}
use mathlib.Core.Path.{subst}
use rvpay_go.Base.Text.{is_empty, trim_space}
use rvpay_go.Base.Table.{find_row}
use rvpay_go.Base.Effect.{
  Err, status, internal, Result, ok, err, err_not_found, Action, lift, raise, map_err, try,
  try-eq-ok, wrap_not_found, ◌>>=◌,
}
use rvpay_go.Transactions.Model.{Uuid, Deposit, DepositRow, Env, Db, statement}
use rvpay_go.Transactions.Change.{
  Change, same, reference_set, Changes, ReadOnly, ReadOnly-bind, ReadOnly-if, Changes-if,
  Changes-inspect, Changes-before, Changes-map_err, Changes-statement,
}
use rvpay_go.Transactions.Change.Deposits.{
  scan_deposit-ReadOnly, select_deposit_found, get_by_ghl_transaction_id-ReadOnly,
  get_by_ghl_charge_id-ReadOnly,
}
use rvpay_go.Transactions.Store.Columns.{is_text}
use rvpay_go.Transactions.Store.Deposits.{
  scan_deposit, get_deposit_by_ghl_transaction_id, modify_deposit, update_deposit,
  update_deposit_ghl_reference, set_ghl_reference,
}
use rvpay_go.Transactions.Repo.Deposits as DepositRepo
use rvpay_go.Transactions.Payments.{
  or_else, resolve_by_charge, resolve_deposit, verify_payment, VerifyPaymentRequest, record_charge,
  process_payment_webhook, ProcessPaymentWebhookRequest,
}

or_else-ReadOnly :
    (next : Action Db Deposit) → ReadOnly next → (r : Result Deposit) → ReadOnly (or_else next r)
unfolding or_else
or_else-ReadOnly next h (ok d) db = refl
or_else-ReadOnly next h (err err_not_found) db = h db
or_else-ReadOnly next h (err _) db = refl

modify_deposit-Change :
    (row : DepositRow) (transaction charge : String) (db : Db)
    → find_row (λ x. is_text x.ghl_transaction_id transaction) db.deposits ≡ some row
    → Change db.tables (modify_deposit row.id (set_ghl_reference transaction charge) db).1.tables
unfolding modify_deposit
modify_deposit-Change row transaction charge db f =
    elim (Option-cases (find_row (λ d. d.id == row.id) db.deposits)) [
      | inl e ↦ rw (e, modify_deposit) (same refl)
      | inr (d, e) ↦
          rw (e, modify_deposit) (reference_set row transaction charge (db.clock db.ticks) f refl)
    ]

module _ (env : Env) where
  resolve_by_charge-ReadOnly : (charge : String) → ReadOnly (resolve_by_charge env charge)
  unfolding resolve_by_charge
  resolve_by_charge-ReadOnly charge =
      ReadOnly-if (is_empty charge) (raise err_not_found) _ (λ db. refl)
        (ReadOnly-bind (try (DepositRepo.get_by_ghl_charge_id env charge))
          (or_else (raise err_not_found)) (get_by_ghl_charge_id-ReadOnly env charge)
          (or_else-ReadOnly (raise err_not_found) (λ db. refl)))

  pub resolve_deposit-ReadOnly :
      (transaction charge : String) → ReadOnly (resolve_deposit env transaction charge)
  unfolding resolve_deposit
  resolve_deposit-ReadOnly transaction charge =
      ReadOnly-if (is_empty transaction) (resolve_by_charge env charge) _
        (resolve_by_charge-ReadOnly charge)
        (ReadOnly-bind (try (DepositRepo.get_by_ghl_transaction_id env transaction))
          (or_else (resolve_by_charge env charge))
          (get_by_ghl_transaction_id-ReadOnly env transaction)
          (or_else-ReadOnly (resolve_by_charge env charge) (resolve_by_charge-ReadOnly charge)))

  -- Verifying a payment changes no table.
  pub verify_payment-ReadOnly :
      (req : Option VerifyPaymentRequest) → ReadOnly (verify_payment env req)
  unfolding verify_payment
  verify_payment-ReadOnly none db = refl
  verify_payment-ReadOnly (some req) db = ground (
    arith,
    resolve_deposit-ReadOnly (trim_space req.ghl_transaction_id) (trim_space req.ghl_charge_id) db,
  )

  -- The deposit that has the transaction's reference, found by the webhook's lookup.
  pub get_by_ghl_transaction_id_found :
      (t : String) (db : Db) {d : Deposit} {u : Db}
      → DepositRepo.get_by_ghl_transaction_id env t db ≡ (ok d, u)
      → (row : DepositRow) × (find_row (λ x. is_text x.ghl_transaction_id t) db.deposits ≡ some row)
        × (d.id ≡ row.id)
        × (d.status ≡ row.status)
        × (u.tables ≡ db.tables)
  unfolding DepositRepo.get_by_ghl_transaction_id get_deposit_by_ghl_transaction_id
  get_by_ghl_transaction_id_found t db h =
      select_deposit_found env (λ x. is_text x.ghl_transaction_id t) db (unwrap _ h)
    where
      unwrap :
          (r : Result Deposit × Db) {d : Deposit} {u : Db}
          → (elim r.0 as (λ _. Result Deposit × Db) [
            | ok a ↦ (ok a, r.1)
            | err e ↦ (err (wrap_not_found e), r.1)
          ])
            ≡ (ok d, u)
          → r ≡ (ok d, u)
      unwrap (ok a, v) e = e
      unwrap (err x, v) e = cc

  update_deposit-Change :
      (row : DepositRow) (transaction charge : String) (db : Db)
      → find_row (λ x. is_text x.ghl_transaction_id transaction) db.deposits ≡ some row
      → Change db.tables
          (update_deposit env row.id (set_ghl_reference transaction charge) db).1.tables
  unfolding update_deposit
  update_deposit-Change row transaction charge db f =
      let change = set_ghl_reference transaction charge in
      Changes-before (statement (modify_deposit row.id change)) (scan_deposit env) db
        (Changes-statement (modify_deposit row.id change) db
          (modify_deposit-Change row transaction charge (record db { ticks = suc db.ticks }) f))
        (scan_deposit-ReadOnly env)

  record_charge-Change :
      (req : ProcessPaymentWebhookRequest) (r : Result Deposit) (db : Db)
      → ((d : Deposit)
          → r ≡ ok d
          → (row : DepositRow) × (find_row
                (λ x. is_text x.ghl_transaction_id req.transaction_id)
                db.deposits
              ≡ some row)
            × (d.id ≡ row.id))
      → Change db.tables (record_charge env req r db).1.tables
  unfolding record_charge DepositRepo.update_ghl_reference update_deposit_ghl_reference
  record_charge-Change req (err err_not_found) db h = same refl
  record_charge-Change req (err _) db h = same refl
  record_charge-Change req (ok d) db h = elim (Bool-cases (is_empty req.charge_id)) [
    | inl e ↦ rw e (same refl)
    | inr e ↦
        let (row, f, i) = h d refl in
        let update = λ (id : Uuid).
          update_deposit env id (set_ghl_reference req.transaction_id req.charge_id) in
        let failed = λ (_ : Err). status internal "could not record payment reference" in
        rw (e, i)
          (Changes-before (map_err failed (map_err wrap_not_found (update row.id)))
            (λ _. lift (ok tt)) db
            (Changes-map_err failed (map_err wrap_not_found (update row.id)) db (
              Changes-map_err wrap_not_found (update row.id) db
                (update_deposit-Change row req.transaction_id req.charge_id db f)))
            (λ a u. refl))
  ]

  correlate-Changes :
      (req : ProcessPaymentWebhookRequest)
      → Changes (
          try (DepositRepo.get_by_ghl_transaction_id env req.transaction_id)
          >>= record_charge env req)
  correlate-Changes req db =
      Changes-inspect (try lookup) (record_charge env req) db (unchanged db) (λ r u p.
        let e : u.tables ≡ db.tables = ap (λ x. x.1.tables) (sym p) ∙ unchanged db in
        subst (λ t. Change t (record_charge env req r u).1.tables) e
          (record_charge-Change req r u (λ d q. found r u p d q e)))
    where
      lookup : Action Db Deposit
      lookup = DepositRepo.get_by_ghl_transaction_id env req.transaction_id

      unchanged : ReadOnly (try lookup)
      unchanged = get_by_ghl_transaction_id-ReadOnly env req.transaction_id

      found :
          (r : Result Deposit) (u : Db)
          → try lookup db ≡ (ok r, u)
          → (d : Deposit) → r ≡ ok d
          → u.tables ≡ db.tables
          → (row : DepositRow) × (find_row
                (λ x. is_text x.ghl_transaction_id req.transaction_id)
                u.deposits
              ≡ some row)
            × (d.id ≡ row.id)
      found r u p d q e =
          let (row, f, i, _, _) =
            get_by_ghl_transaction_id_found req.transaction_id db {d = d} {u = u}
              (try-eq-ok lookup db p q) in
          (row, rw e f, i)

  -- `ProcessPaymentWebhook`.
  pub process_payment_webhook-Changes :
      (req : Option ProcessPaymentWebhookRequest) → Changes (process_payment_webhook env req)
  unfolding process_payment_webhook
  process_payment_webhook-Changes none db = same refl
  process_payment_webhook-Changes (some req) db =
      let event_type = trim_space req.event_type in
      Changes-if (is_empty event_type) _ _ (λ u. same refl)
        (Changes-if (not (str_eq event_type "payment.captured")) _ _ (λ u. same refl)
          (Changes-if (is_empty (trim_space req.transaction_id)) _ _ (λ u. same refl)
            (correlate-Changes req)))
        db
