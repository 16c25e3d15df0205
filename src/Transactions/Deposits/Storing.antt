-- ===== src/Transactions/Deposits/Storing.antt =====
-- What `InitiateDeposit` (transactions/deposits/service.go) has stored, whatever it replies.
use rvpay_go.Base.{
  none, some, suc, [], ◌∷◌, ◌++◌, ◌≡◌, ◌⊎◌, inl, inr, refl, sym, ap, ◌∙◌, arith, Option-cases,
}
use rvpay_go.Base.Text.{trim_space, map_runes}
use rvpay_go.Base.Table.{find_row}
use rvpay_go.Base.Effect.{Result-cases, ok, err, Err}
use rvpay_go.Transactions.Model.{DepositStatus, Customer, DepositRow, Deposit, Numeric, Env, Db}
use rvpay_go.Transactions.Convert.{DepositProto}
use rvpay_go.Transactions.Store.Customers.{has_key, get_customer_by_client_and_merchant_and_phone}
use rvpay_go.Transactions.Store.Deposits.{
  deposit_refusal, insert_deposit, store_deposit, create_deposit, scan_deposit,
}
use rvpay_go.Transactions.Repo.Customers as CustomerRepo
use rvpay_go.Transactions.Repo.Deposits as DepositRepo
use rvpay_go.Transactions.Change.Deposits.{find_customer_found}
use rvpay_go.Transactions.Deposits.Creation.{check_deposit_fields}
use rvpay_go.Transactions.Deposits.{
  CreateDepositRequest, DepositInput, currency_of, check_deposit, find_customer, store_for_customer,
  place_deposit, initiate_deposit,
}

-- The one row that an input adds to the table for its customer.
pub record IsPlaced (i : DepositInput) (c : Customer) (row : DepositRow) : Type 0 where
  pub client : row.client_id ≡ i.client_id
  pub customer : row.customer_id ≡ c.id
  pub merchant : row.merchant_id ≡ i.merchant_id
  pub currency : row.currency ≡ i.currency
  pub phone : row.payer_phone_number ≡ i.phone_number
  pub status : row.status ≡ DepositStatus.initiated
  pub completed : row.completed_at ≡ none
  pub failed : row.failed_at ≡ none
  pub transaction : row.ghl_transaction_id ≡ none
  pub charge : row.ghl_charge_id ≡ none

module _ (env : Env) where
  abbrev placed : DepositInput → Customer → Numeric → Db → DepositRow
  placed i c amount db = record {
    id = db.new_uuid (suc db.drawn);
    client_id = i.client_id;
    customer_id = c.id;
    merchant_id = i.merchant_id;
    amount = amount;
    currency = i.currency;
    payment_type = i.payment_type;
    payer_phone_number = i.phone_number;
    provider = i.provider;
    status = DepositStatus.initiated;
    external_reference = none;
    idempotency_key = db.new_uuid db.drawn;
    initiated_at = db.clock (suc db.ticks);
    completed_at = none;
    failed_at = none;
    failure_reason = none;
    created_at = db.clock (suc db.ticks);
    updated_at = db.clock (suc db.ticks);
    ghl_transaction_id = none;
    ghl_charge_id = none;
  }

  store_for_customer_outcome :
      (i : DepositInput) (c : Customer) (db : Db)
      → ((store_for_customer env i c db).1.tables ≡ db.tables)
          × ((d : Deposit) → ¬ ((store_for_customer env i c db).0 ≡ ok d))
        ⊎ ((row : DepositRow) × IsPlaced i c row
            × ((store_for_customer env i c db).1.tables
                ≡ record (db.tables) { deposits = db.deposits ++ row ∷ [] }))
  unfolding store_for_customer DepositRepo.create create_deposit store_deposit insert_deposit
      scan_deposit
  store_for_customer_outcome i c db = elim (Option-cases (db.fault db.ticks)) [
    | inr (e, f) ↦ inl (ground arith, λ d h. ground arith)
    | inl f ↦ elim (Result-cases (env.store_numeric i.amount)) [
      | inr (e, k) ↦ inl (ground arith, λ d h. ground arith)
      | inl (a, k) ↦ elim (Option-cases (deposit_refusal (placed i c a db) db.tables)) [
        | inr (e, r) ↦ inl (ground arith, λ d h. ground arith)
        | inl r ↦ inr (
          placed i c a db,
          record {
            client = refl;
            customer = refl;
            merchant = refl;
            currency = refl;
            phone = refl;
            status = refl;
            completed = refl;
            failed = refl;
            transaction = refl;
            charge = refl;
          },
          ground arith,
        )
      ]
    ]
  ]

  find_customer_refused :
      (i : DepositInput) (db : Db) {e : Err}
      → (find_customer i db).0 ≡ err e
      → (place_deposit env i db ≡ (err e, (find_customer i db).1))
        × ((find_customer i db).1.tables ≡ db.tables)
  unfolding place_deposit find_customer CustomerRepo.get_by_client_and_merchant_and_phone
      get_customer_by_client_and_merchant_and_phone
  find_customer_refused i db h = ground arith

  find_customer_passed :
      (i : DepositInput) (db : Db) {c : Customer}
      → (find_customer i db).0 ≡ ok c
      → place_deposit env i db ≡ store_for_customer env i c (find_customer i db).1
  unfolding place_deposit
  find_customer_passed i db h = ground arith

  place_deposit_outcome :
      (i : DepositInput) (db : Db)
      → ((place_deposit env i db).1.tables ≡ db.tables)
          × ((d : Deposit) → ¬ ((place_deposit env i db).0 ≡ ok d))
        ⊎ ((row : DepositRow) × (c : Customer) × (find_row
                (has_key i.client_id i.merchant_id i.phone_number)
                db.customers
              ≡ some c)
            × IsPlaced i c row
            × ((place_deposit env i db).1.tables
                ≡ record (db.tables) { deposits = db.deposits ++ row ∷ [] }))
  place_deposit_outcome i db = elim (Result-cases (find_customer i db).0) [
    | inr (e, h) ↦
        let (refused, same) = find_customer_refused i db h in
        inl (ground arith, λ d k. ground arith)
    | inl (c, h) ↦
        let passed = find_customer_passed i db h in
        let (found, same) =
          find_customer_found env i db {c = c} (λ k. (h k, (find_customer i db).1)) in
        elim (store_for_customer_outcome i c (find_customer i db).1) [
          | inl (kept, none_made) ↦ inl (ground arith, λ d k. none_made d (ground arith))
          | inr (row, is, added) ↦ inr (row, c, found, is, ground arith)
        ]
  ]

  check_deposit_refused :
      (req : CreateDepositRequest) (db : Db) {e : Err}
      → (check_deposit env req db).0 ≡ err e
      → check_deposit env req db ≡ (err e, db)
  unfolding check_deposit
  check_deposit_refused req db h = ground arith

  -- The columns of a stored row that a request and the customer found for it determine.
  abbrev pub IsRequested : CreateDepositRequest → Customer → DepositRow → Type 0
  IsRequested req c row =
      (env.parse_uuid req.client_id ≡ some row.client_id)
      × (env.parse_uuid req.merchant_id ≡ some row.merchant_id)
      × (row.payer_phone_number ≡ trim_space req.payer_phone_number)
      × (row.currency ≡ map_runes env.upper_rune (trim_space (currency_of req.amount)))
      × (row.customer_id ≡ c.id)
      × (row.status ≡ DepositStatus.initiated)
      × (row.completed_at ≡ none)
      × (row.failed_at ≡ none)
      × (row.ghl_transaction_id ≡ none)
      × (row.ghl_charge_id ≡ none)

  -- Whatever `InitiateDeposit` is asked, and whatever the server refuses, it changes no table and has
  -- no reply, or it adds exactly one deposit: INITIATED, neither completed nor failed and without
  -- GoHighLevel references, of the request's client and merchant, with its trimmed phone number and
  -- its currency in capitals, and of the customer that the client and merchant have with that phone
  -- number, whom the request's own customer id does not choose.
  pub initiate_deposit_stored :
      (req : CreateDepositRequest) (db : Db)
      → ((initiate_deposit env (some req) db).1.tables ≡ db.tables)
          × ((r : DepositProto) → ¬ ((initiate_deposit env (some req) db).0 ≡ ok r))
        ⊎ ((row : DepositRow) × (c : Customer) × (find_row
                (has_key row.client_id row.merchant_id row.payer_phone_number)
                db.customers
              ≡ some c)
            × IsRequested req c row
            × ((initiate_deposit env (some req) db).1.tables
                ≡ record (db.tables) { deposits = db.deposits ++ row ∷ [] }))
  unfolding initiate_deposit
  initiate_deposit_stored req db = elim (Result-cases (check_deposit env req db).0) [
    | inr (e, h) ↦
        let refused = check_deposit_refused req db h in inl (ground arith, λ r k. ground arith)
    | inl (i, h) ↦
        let (client, merchant, phone, currency, same) =
          check_deposit_fields env req db {i = i} (λ k. (h k, (check_deposit env req db).1)) in
        elim (place_deposit_outcome i db) [
          | inl (kept, none_made) ↦ inl (
            ground arith,
            λ r k. elim (Result-cases (place_deposit env i db).0) [
              | inl (p, q) ↦ none_made p q
              | inr (e, q) ↦ ground arith
            ],
          )
          | inr (row, c, found, is, added) ↦ inr (
            row,
            c,
            rw (is.client, is.merchant, is.phone) found,
            (
              client ∙ ap some (sym is.client),
              merchant ∙ ap some (sym is.merchant),
              is.phone ∙ phone,
              is.currency ∙ currency,
              is.customer,
              is.status,
              is.completed,
              is.failed,
              is.transaction,
              is.charge,
            ),
            ground arith,
          )
        ]
  ]
