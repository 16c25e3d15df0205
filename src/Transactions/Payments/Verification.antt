-- ===== src/Transactions/Payments/Verification.antt =====
-- What a reply of `VerifyPayment` (transactions/payments/service.go) says of the deposits that are
-- stored.
use mathlib.Core.List.{Memᴰ}
use rvpay_go.Base.{
  true, ◌&&◌, some, String, ◌≡◌, refl, sym, ◌∙◌, ap, ◌⊎◌, inl, inr, arith, Bool-cases,
}
use rvpay_go.Base.Text.{is_empty, trim_space}
use rvpay_go.Base.Table.{find_row-mem}
use rvpay_go.Base.Effect.{
  err_not_found, Result, ok, err, Action, lift, raise, map_err, try, try-eq-ok, map_err-eq-ok,
  >>=-eq-ok, wrap_not_found,
}
use rvpay_go.Transactions.Model.{Deposit, DepositRow, Env, Db}
use rvpay_go.Transactions.Change.Deposits.{select_deposit_found, get_by_ghl_transaction_id-ReadOnly}
use rvpay_go.Transactions.Change.Payments.{get_by_ghl_transaction_id_found, verify_payment-ReadOnly}
use rvpay_go.Transactions.Store.Columns.{is_text}
use rvpay_go.Transactions.Store.Deposits.{get_deposit_by_ghl_charge_id}
use rvpay_go.Transactions.Repo.Deposits as DepositRepo
use rvpay_go.Transactions.Payments.{
  or_else, resolve_by_charge, resolve_deposit, verify_payment, VerifyPaymentRequest,
  VerifyPaymentResponse, interpret_status, verify_payment_error,
}

-- A lookup's outcome is passed on, or the next lookup is made.
or_else_cases :
    (next : Action Db Deposit) (r : Result Deposit) (v : Db) {d : Deposit} {u : Db}
    → or_else next r v ≡ (ok d, u)
    → ((r ≡ ok d) × (v ≡ u)) ⊎ ((r ≡ err err_not_found) × (next v ≡ (ok d, u)))
unfolding or_else
or_else_cases next (ok a) v h = inl (ground arith)
or_else_cases next (err err_not_found) v h = inr (refl, h)
or_else_cases next (err _) v h = cc

-- The row that a deposit was read from, with what identified it.
abbrev pub ReadFrom : String → String → Db → Deposit → Type 0
ReadFrom transaction charge db d =
    (row : DepositRow) × Memᴰ row db.deposits
    × ((is_text row.ghl_transaction_id transaction ≡ true)
        ⊎ (is_text row.ghl_charge_id charge ≡ true))
    × (d.status ≡ row.status)

module _ (env : Env) where
  charge_found :
      (transaction charge : String) (db : Db) {d : Deposit} {u : Db}
      → DepositRepo.get_by_ghl_charge_id env charge db ≡ (ok d, u)
      → ReadFrom transaction charge db d
  unfolding DepositRepo.get_by_ghl_charge_id get_deposit_by_ghl_charge_id
  charge_found transaction charge db h =
      let p = λ (x : DepositRow). is_text x.ghl_charge_id charge in
      let (row, f, _, s, _) =
        select_deposit_found env p db
          (map_err-eq-ok wrap_not_found (get_deposit_by_ghl_charge_id env charge) db h) in
      let (m, e) = find_row-mem p db.deposits f in (row, m, inr e, s)

  transaction_found :
      (transaction charge : String) (db : Db) {d : Deposit} {u : Db}
      → DepositRepo.get_by_ghl_transaction_id env transaction db ≡ (ok d, u)
      → ReadFrom transaction charge db d
  transaction_found transaction charge db h =
      let p = λ (x : DepositRow). is_text x.ghl_transaction_id transaction in
      let (row, f, _, s, _) = get_by_ghl_transaction_id_found env transaction db h in
      let (m, e) = find_row-mem p db.deposits f in (row, m, inl e, s)

  resolve_by_charge_found :
      (transaction charge : String) (db : Db) {d : Deposit} {u : Db}
      → resolve_by_charge env charge db ≡ (ok d, u)
      → ReadFrom transaction charge db d
  unfolding resolve_by_charge
  resolve_by_charge_found transaction charge db {d} {u} h = elim (Bool-cases (is_empty charge)) [
    | inl e ↦ cc (rw e at h)
    | inr e ↦
        let lookup = DepositRepo.get_by_ghl_charge_id env charge in
        let (r, v, p, q) =
          >>=-eq-ok (try lookup) (or_else (raise err_not_found)) db {b = d} {v = u} (rw e at h) in
        elim (or_else_cases (raise err_not_found) r v q) [
          | inl (x, _) ↦ charge_found transaction charge db (try-eq-ok lookup db p x)
          | inr (_, y) ↦ cc y
        ]
  ]

  resolve_deposit_found :
      (transaction charge : String) (db : Db) {d : Deposit} {u : Db}
      → resolve_deposit env transaction charge db ≡ (ok d, u)
      → ReadFrom transaction charge db d
  unfolding resolve_deposit
  resolve_deposit_found transaction charge db {d} {u} h = elim (Bool-cases (is_empty transaction)) [
    | inl e ↦ resolve_by_charge_found transaction charge db (rw e at h)
    | inr e ↦
        let lookup = DepositRepo.get_by_ghl_transaction_id env transaction in
        let (r, v, p, q) =
          >>=-eq-ok (try lookup) (or_else (resolve_by_charge env charge)) db {b = d} {v = u}
            (rw e at h) in
        let same : v.tables ≡ db.tables =
          ap (λ x. x.1.tables) (sym p) ∙ get_by_ghl_transaction_id-ReadOnly env transaction db in
        elim (or_else_cases (resolve_by_charge env charge) r v q) [
          | inl (x, _) ↦ transaction_found transaction charge db (try-eq-ok lookup db p x)
          | inr (_, y) ↦
              let (row, m, w, s) = resolve_by_charge_found transaction charge v y in
              (row, rw same at m, w, s)
        ]
  ]

  -- A payment that is verified is that of a stored deposit which carries the transaction's or the
  -- charge's identifier; the reply is the meaning of its status, no subscription was named, and no
  -- table has changed.
  pub verify_payment_found :
      (req : VerifyPaymentRequest) (db : Db) {r : VerifyPaymentResponse} {u : Db}
      → verify_payment env (some req) db ≡ (ok r, u)
      → (is_empty (trim_space req.subscription_id) ≡ true)
        × (u.tables ≡ db.tables)
        × ((row : DepositRow) × Memᴰ row db.deposits
            × ((is_text row.ghl_transaction_id (trim_space req.ghl_transaction_id) ≡ true)
                ⊎ (is_text row.ghl_charge_id (trim_space req.ghl_charge_id) ≡ true))
            × (r ≡ interpret_status row.status))
  unfolding verify_payment
  verify_payment_found req db {r} {u} h =
      let transaction = trim_space req.ghl_transaction_id in
      let charge = trim_space req.ghl_charge_id in
      elim (Bool-cases (is_empty (trim_space req.subscription_id))) [
        | inr e ↦ cc (rw e at h)
        | inl e ↦ elim (Bool-cases (is_empty transaction && is_empty charge)) [
          | inl f ↦ cc (rw (e, f) at h)
          | inr f ↦
              let resolve = map_err verify_payment_error (resolve_deposit env transaction charge) in
              let (d, v, p, q) =
                >>=-eq-ok resolve (λ d. lift (ok (interpret_status d.status))) db {b = r} {v = u}
                  (rw (e, f) at h) in
              let (row, m, w, s) = resolve_deposit_found transaction charge db (
                map_err-eq-ok verify_payment_error (resolve_deposit env transaction charge) db p) in
              let reply : r ≡ interpret_status d.status = ground arith in
              let unchanged : u.tables ≡ db.tables =
                ap (λ x. x.1.tables) (sym h) ∙ verify_payment-ReadOnly env (some req) db in
              (e, unchanged, (row, m, w, reply ∙ ap interpret_status s))
        ]
      ]
