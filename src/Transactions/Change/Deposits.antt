-- ===== src/Transactions/Change/Deposits.antt =====
-- The handlers of transactions/deposits/service.go against the specification in Change.antt.
use mathlib.Core.Path.{subst}
use rvpay_go.Base.{
  suc, Bool, Option, none, some, String, ◌≡◌, refl, ◌∙◌, ap, arith, ◌==◌, Option-cases, inl, inr,
}
use rvpay_go.Base.Text.{trim_space}
use rvpay_go.Base.Effect.{
  Result-cases, >>=-eq-ok, ok, lift, map_err, or_raise, wrap_error, wrap_not_found, ◌>>=◌,
}
use rvpay_go.Base.Table.{find_row}
use rvpay_go.Transactions.Convert.{deposit_to_proto}
use rvpay_go.Transactions.Model.{
  Uuid, Customer, DepositRow, Deposit, DepositStatus, Env, Db, statement,
}
use rvpay_go.Transactions.Change.{
  Change, same, deposit_added, Changes, ReadOnly, ReadOnly-bind, ReadOnly-map_err,
  ReadOnly-or_raise, ReadOnly-reply, Changes-inspect, Changes-after, Changes-before,
  Changes-map_err, Changes-reply, Changes-statement,
}
use rvpay_go.Transactions.Store.Columns.{is_text}
use rvpay_go.Transactions.Store.Deposits.{
  get_deposit_by_id, get_deposit_by_ghl_transaction_id, get_deposit_by_ghl_charge_id, find_deposit,
  select_deposit, scan_deposit, insert_deposit, store_deposit, create_deposit, CreateDepositParams,
  deposit_refusal,
}
use rvpay_go.Transactions.Store.Customers.{has_key, get_customer_by_client_and_merchant_and_phone}
use rvpay_go.Transactions.Repo.Customers as CustomerRepo
use rvpay_go.Transactions.Repo.Deposits as DepositRepo
use rvpay_go.Transactions.Deposits
use rvpay_go.Transactions.Deposits.{
  check_deposit, find_customer, store_for_customer, place_deposit, initiate_deposit, get_deposit,
  get_deposit_error, CreateDepositRequest, DepositInput, create_deposit_error,
}

module _ (env : Env) where
  pub scan_deposit-ReadOnly : (d : DepositRow) → ReadOnly (scan_deposit env d)
  unfolding scan_deposit
  scan_deposit-ReadOnly d db = ground arith

  insert_deposit-Change :
      (row : DepositRow) (c : Customer) (db : Db)
      → find_row (has_key row.client_id row.merchant_id row.payer_phone_number) db.customers
        ≡ some c
      → row.customer_id ≡ c.id
      → row.status ≡ DepositStatus.initiated
      → row.ghl_transaction_id ≡ none
      → row.ghl_charge_id ≡ none
      → Change db.tables (insert_deposit row db).1.tables
  unfolding insert_deposit
  insert_deposit-Change row c db f i s t g = elim (Option-cases (deposit_refusal row db.tables)) [
    | inl e ↦ rw (e, insert_deposit) (deposit_added row c e f i s t g refl)
    | inr (x, e) ↦ rw (e, insert_deposit) (same refl)
  ]

  store_deposit-Change :
      (arg : CreateDepositParams) (c : Customer) (db : Db)
      → find_row (has_key arg.client_id arg.merchant_id arg.payer_phone_number) db.customers
        ≡ some c
      → arg.customer_id ≡ c.id
      → arg.status ≡ DepositStatus.initiated
      → Change db.tables (store_deposit env arg db).1.tables
  unfolding store_deposit
  store_deposit-Change arg c db f i s = elim (Result-cases (env.store_numeric arg.amount)) [
    | inl (amount, e) ↦
        rw e (insert_deposit-Change _ c (record db { drawn = suc db.drawn }) f i s refl refl)
    | inr (x, e) ↦ rw e (same refl)
  ]

  create_deposit-Change :
      (arg : CreateDepositParams) (c : Customer) (db : Db)
      → find_row (has_key arg.client_id arg.merchant_id arg.payer_phone_number) db.customers
        ≡ some c
      → arg.customer_id ≡ c.id
      → arg.status ≡ DepositStatus.initiated
      → Change db.tables (create_deposit env arg db).1.tables
  unfolding create_deposit
  create_deposit-Change arg c db f i s =
      Changes-before (statement (store_deposit env arg)) (scan_deposit env) db
        (Changes-statement (store_deposit env arg) db
          (store_deposit-Change arg c (record db { ticks = suc db.ticks }) f i s))
        scan_deposit-ReadOnly

  -- The customer lookup finds what the table holds.
  pub find_customer_found :
      (i : DepositInput) (db : Db) {c : Customer} {u : Db}
      → find_customer i db ≡ (ok c, u)
      → (find_row (has_key i.client_id i.merchant_id i.phone_number) db.customers ≡ some c)
        × (u.tables ≡ db.tables)
  unfolding find_customer CustomerRepo.get_by_client_and_merchant_and_phone
      get_customer_by_client_and_merchant_and_phone
  find_customer_found i db h = ground arith

  find_customer-ReadOnly : (i : DepositInput) → ReadOnly (find_customer i)
  unfolding find_customer CustomerRepo.get_by_client_and_merchant_and_phone
      get_customer_by_client_and_merchant_and_phone
  find_customer-ReadOnly i db = ground arith

  store_for_customer-Change :
      (i : DepositInput) (c : Customer) (db : Db)
      → find_row (has_key i.client_id i.merchant_id i.phone_number) db.customers ≡ some c
      → Change db.tables (store_for_customer env i c db).1.tables
  unfolding store_for_customer DepositRepo.create
  store_for_customer-Change i c db f =
      let arg : CreateDepositParams = record {
        client_id = i.client_id;
        customer_id = c.id;
        merchant_id = i.merchant_id;
        amount = i.amount;
        currency = i.currency;
        payment_type = i.payment_type;
        payer_phone_number = i.phone_number;
        provider = i.provider;
        status = DepositStatus.initiated;
        idempotency_key = db.new_uuid db.drawn;
      } in
      let after : Db = record db { drawn = suc db.drawn } in
      let insertion = create_deposit env arg in
      Changes-map_err create_deposit_error (map_err wrap_error insertion) after
        (Changes-map_err wrap_error insertion after (create_deposit-Change arg c after f refl refl))

  place_deposit-Changes : (i : DepositInput) → Changes (place_deposit env i)
  unfolding place_deposit
  place_deposit-Changes i db =
      Changes-inspect (find_customer i) (store_for_customer env i) db (find_customer-ReadOnly i db)
        (λ c u p.
          let (f, e) = find_customer_found i db p in
          subst (λ t. Change t (store_for_customer env i c u).1.tables) e
            (store_for_customer-Change i c u (rw e f)))

  check_deposit-ReadOnly : (req : CreateDepositRequest) → ReadOnly (check_deposit env req)
  unfolding check_deposit
  check_deposit-ReadOnly req db = ground arith

  -- `InitiateDeposit`.
  pub initiate_deposit-Changes :
      (req : Option CreateDepositRequest) → Changes (initiate_deposit env req)
  unfolding initiate_deposit
  initiate_deposit-Changes none = λ db. same refl
  initiate_deposit-Changes (some req) =
      Changes-after (check_deposit env req)
        (λ i. place_deposit env i >>= λ d. lift (ok (deposit_to_proto env d)))
        (check_deposit-ReadOnly req)
        (λ i u.
          Changes-reply (place_deposit env i) (deposit_to_proto env) u (place_deposit-Changes i u))

  find_deposit-ReadOnly : (p : DepositRow → Bool) → ReadOnly (find_deposit p)
  unfolding find_deposit
  find_deposit-ReadOnly p db = ground arith

  pub select_deposit-ReadOnly : (p : DepositRow → Bool) → ReadOnly (select_deposit env p)
  unfolding select_deposit
  select_deposit-ReadOnly p =
      ReadOnly-bind (find_deposit p) (scan_deposit env) (find_deposit-ReadOnly p)
        scan_deposit-ReadOnly

  -- A lookup that succeeds has found a row, and returns its fields.
  pub scan_deposit_fields :
      (row : DepositRow) (db : Db) {d : Deposit} {u : Db}
      → scan_deposit env row db ≡ (ok d, u)
      → (d.id ≡ row.id) × (d.status ≡ row.status) × (u ≡ db)
  unfolding scan_deposit
  scan_deposit_fields row db h = ground arith

  find_deposit_found :
      (p : DepositRow → Bool) (db : Db) {row : DepositRow} {u : Db}
      → find_deposit p db ≡ (ok row, u)
      → (find_row p db.deposits ≡ some row) × (u.tables ≡ db.tables)
  unfolding find_deposit
  find_deposit_found p db h = ground arith

  pub select_deposit_found :
      (p : DepositRow → Bool) (db : Db) {d : Deposit} {u : Db}
      → select_deposit env p db ≡ (ok d, u)
      → (row : DepositRow) × (find_row p db.deposits ≡ some row)
        × (d.id ≡ row.id)
        × (d.status ≡ row.status)
        × (u.tables ≡ db.tables)
  unfolding select_deposit
  select_deposit_found p db h =
      let (row, v, e, s) = >>=-eq-ok (find_deposit p) (scan_deposit env) db h in
      let (f, t) = find_deposit_found p db e in
      let (i, st, w) = scan_deposit_fields row v s in (row, f, i, st, ap Db.tables w ∙ t)

  pub get_by_id-ReadOnly : (id : Uuid) → ReadOnly (DepositRepo.get_by_id env id)
  unfolding DepositRepo.get_by_id get_deposit_by_id
  get_by_id-ReadOnly id =
      ReadOnly-map_err wrap_not_found (select_deposit env (λ d. d.id == id))
        (select_deposit-ReadOnly (λ d. d.id == id))

  pub get_by_ghl_transaction_id-ReadOnly :
      (t : String) → ReadOnly (DepositRepo.get_by_ghl_transaction_id env t)
  unfolding DepositRepo.get_by_ghl_transaction_id get_deposit_by_ghl_transaction_id
  get_by_ghl_transaction_id-ReadOnly t =
      ReadOnly-map_err wrap_not_found (select_deposit env (λ d. is_text d.ghl_transaction_id t))
        (select_deposit-ReadOnly (λ d. is_text d.ghl_transaction_id t))

  pub get_by_ghl_charge_id-ReadOnly :
      (t : String) → ReadOnly (DepositRepo.get_by_ghl_charge_id env t)
  unfolding DepositRepo.get_by_ghl_charge_id get_deposit_by_ghl_charge_id
  get_by_ghl_charge_id-ReadOnly t =
      ReadOnly-map_err wrap_not_found (select_deposit env (λ d. is_text d.ghl_charge_id t))
        (select_deposit-ReadOnly (λ d. is_text d.ghl_charge_id t))

  pub get_deposit-ReadOnly : (id : Option String) → ReadOnly (get_deposit env id)
  unfolding get_deposit
  get_deposit-ReadOnly none = λ db. refl
  get_deposit-ReadOnly (some id) =
      ReadOnly-bind (or_raise (env.parse_uuid id) _)
        (λ k. map_err get_deposit_error (DepositRepo.get_by_id env k) >>= λ d.
          lift (ok (deposit_to_proto env d)))
        (ReadOnly-or_raise (env.parse_uuid id) _)
        (λ k.
          ReadOnly-reply (map_err get_deposit_error (DepositRepo.get_by_id env k))
            (deposit_to_proto env)
            (ReadOnly-map_err get_deposit_error (DepositRepo.get_by_id env k)
              (get_by_id-ReadOnly k)))

  pub get_deposit_by_ghl-ReadOnly :
      (id : Option String) → ReadOnly (Deposits.get_deposit_by_ghl_transaction_id env id)
  unfolding Deposits.get_deposit_by_ghl_transaction_id
  get_deposit_by_ghl-ReadOnly none db = refl
  get_deposit_by_ghl-ReadOnly (some id) db =
      ground (arith, get_by_ghl_transaction_id-ReadOnly (trim_space id) db)
