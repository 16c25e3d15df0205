-- ===== src/Transactions/Store/Deposits.antt =====
-- transactions/db/sqlc/deposits.sql.go and the table `deposits`.
use rvpay_go.Base.{
  String, Bool, true, false, not, ◌&&◌, ◌||◌, Option, none, some, List, [], ◌∷◌, ◌++◌, ◌==◌,
  if◌then◌else◌,
}
use rvpay_go.Base.Effect.{Err, no_rows, pg_error, ok, err, Action, lift, ◌>>=◌}
use rvpay_go.Base.Table.{find_row, any_row, filter_rows, update_rows, order_rows}
use mathlib.Core.List.{reverse}
use rvpay_go.Transactions.Store.Columns.{
  is_deposit_status, same_deposit_status, is_payment_provider, is_payment_type, is_currency,
  is_over_three, is_text,
}
use rvpay_go.Transactions.Model.{
  Uuid, Time, Numeric, PaymentProvider, PaymentType, DepositStatus, DepositRow, Deposit, Env,
  Tables, Db, now, statement, draw_uuid,
}

pub record CreateDepositParams : Type 0 where
  pub client_id : Uuid
  pub customer_id : Uuid
  pub merchant_id : Uuid
  pub amount : Numeric
  pub currency : String
  pub payment_type : PaymentType
  pub payer_phone_number : String
  pub provider : PaymentProvider
  pub status : DepositStatus
  pub idempotency_key : Uuid

abbrev pub new_deposit : CreateDepositParams → Numeric → Uuid → Time → DepositRow
new_deposit arg amount id t = record {
  id = id;
  client_id = arg.client_id;
  customer_id = arg.customer_id;
  merchant_id = arg.merchant_id;
  amount = amount;
  currency = arg.currency;
  payment_type = arg.payment_type;
  payer_phone_number = arg.payer_phone_number;
  provider = arg.provider;
  status = arg.status;
  external_reference = none;
  idempotency_key = arg.idempotency_key;
  initiated_at = t;
  completed_at = none;
  failed_at = none;
  failure_reason = none;
  created_at = t;
  updated_at = t;
  ghl_transaction_id = none;
  ghl_charge_id = none;
}

abbrev pub deposit_conflicts : DepositRow → DepositRow → Bool
deposit_conflicts row d = d.id == row.id || d.idempotency_key == row.idempotency_key

abbrev pub with_deposits : List DepositRow → Db → Db
with_deposits rows db = record db { tables = record (db.tables) { deposits = rows } }

-- The first check that refuses a row: the enums, VARCHAR(3), the CHECK on the currency, the unique
-- keys, and the foreign keys.
unfoldable pub deposit_refusal : DepositRow → Tables → Option Err
deposit_refusal row t =
    if not (
      is_payment_type row.payment_type
      && is_payment_provider row.provider
      && is_deposit_status row.status)
    then some (pg_error "22P02")
    else if is_over_three row.currency
    then some (pg_error "22001")
    else if not (is_currency row.currency)
    then some (pg_error "23514")
    else if any_row (deposit_conflicts row) t.deposits
    then some (pg_error "23505")
    else if not (any_row (λ c. c.id == row.customer_id) t.customers)
    then some (pg_error "23503")
    else if not (any_row (λ m. m.id == row.merchant_id) t.merchants)
    then some (pg_error "23503")
    else none

-- The row is stored unless a check refuses it.
unfoldable pub insert_deposit : DepositRow → Action Db DepositRow
insert_deposit row db = elim (deposit_refusal row db.tables) [
  | some e ↦ (err e, db)
  | none ↦ (ok row, with_deposits (db.deposits ++ row ∷ []) db)
]

-- The change of `UpdateDepositGHLReference`.
abbrev pub set_ghl_reference : String → String → Time → DepositRow → DepositRow
set_ghl_reference transaction charge t d = record d {
  ghl_transaction_id = some transaction;
  ghl_charge_id = some charge;
  updated_at = t;
}

-- The first row that the condition admits.
unfoldable pub find_deposit : (DepositRow → Bool) → Action Db DepositRow
find_deposit p =
    statement
      (λ db. elim (find_row p db.deposits) [ none ↦ (err no_rows, db) | some d ↦ (ok d, db) ])

-- `UPDATE … WHERE id = $1 RETURNING …`.
unfoldable pub modify_deposit : Uuid → (Time → DepositRow → DepositRow) → Action Db DepositRow
modify_deposit id f db = elim (find_row (λ d. d.id == id) db.deposits) [
  | none ↦ (err no_rows, db)
  | some d ↦
      (ok (f (now db) d), with_deposits (update_rows (λ d. d.id == id) (f (now db)) db.deposits) db)
]

module _ (env : Env) where
  -- `row.Scan(&i.ID, …)`: the nullable texts are scanned into Go strings.
  unfoldable pub scan_deposit : DepositRow → Action Db Deposit
  scan_deposit d = do
    external_reference ← lift (env.scan_text d.external_reference)
    failure_reason ← lift (env.scan_text d.failure_reason)
    ghl_transaction_id ← lift (env.scan_text d.ghl_transaction_id)
    ghl_charge_id ← lift (env.scan_text d.ghl_charge_id)
    lift (
        ok (record {
          id = d.id;
          client_id = d.client_id;
          customer_id = d.customer_id;
          merchant_id = d.merchant_id;
          amount = d.amount;
          currency = d.currency;
          payment_type = d.payment_type;
          payer_phone_number = d.payer_phone_number;
          provider = d.provider;
          status = d.status;
          external_reference = external_reference;
          idempotency_key = d.idempotency_key;
          initiated_at = d.initiated_at;
          completed_at = d.completed_at;
          failed_at = d.failed_at;
          failure_reason = failure_reason;
          created_at = d.created_at;
          updated_at = d.updated_at;
          ghl_transaction_id = ghl_transaction_id;
          ghl_charge_id = ghl_charge_id;
        }))

  scan_deposits : List DepositRow → Action Db (List Deposit)
  unfolding scan_deposit
  scan_deposits [] = lift (ok [])
  scan_deposits (d ∷ ds) = do lift (ok ((← scan_deposit d) ∷ (← scan_deposits ds)))

  -- The `INSERT` as the server runs it.
  unfoldable pub store_deposit : CreateDepositParams → Action Db DepositRow
  store_deposit arg = draw_uuid >>= λ id. lift (env.store_numeric arg.amount) >>= λ amount db.
      insert_deposit (new_deposit arg amount id (now db)) db

  -- The row stays stored where scanning the returned columns fails.
  unfoldable pub create_deposit : CreateDepositParams → Action Db Deposit
  create_deposit arg = statement (store_deposit arg) >>= scan_deposit

  unfoldable pub select_deposit : (DepositRow → Bool) → Action Db Deposit
  select_deposit p = find_deposit p >>= scan_deposit

  unfoldable pub get_deposit_by_id : Uuid → Action Db Deposit
  get_deposit_by_id id = select_deposit (λ d. d.id == id)

  unfoldable pub get_deposit_by_external_reference : String → Action Db Deposit
  get_deposit_by_external_reference t = select_deposit (λ d. is_text d.external_reference t)

  unfoldable pub get_deposit_by_ghl_transaction_id : String → Action Db Deposit
  get_deposit_by_ghl_transaction_id t = select_deposit (λ d. is_text d.ghl_transaction_id t)

  unfoldable pub get_deposit_by_ghl_charge_id : String → Action Db Deposit
  get_deposit_by_ghl_charge_id t = select_deposit (λ d. is_text d.ghl_charge_id t)

  unfoldable pub get_deposit_by_idempotency_key : Uuid → Action Db Deposit
  get_deposit_by_idempotency_key key = select_deposit (λ d. d.idempotency_key == key)

  -- `ORDER BY created_at DESC`.
  list_deposits : (DepositRow → Bool) → Action Db (List Deposit)
  unfolding scan_deposits
  list_deposits p =
      statement
        (λ db. (ok (reverse (order_rows DepositRow.created_at (filter_rows p db.deposits))), db))
      >>= scan_deposits

  unfoldable pub list_deposits_by_client : Uuid → Action Db (List Deposit)
  unfolding list_deposits
  list_deposits_by_client id = list_deposits (λ d. d.client_id == id)

  unfoldable pub list_deposits_by_customer : Uuid → Action Db (List Deposit)
  unfolding list_deposits
  list_deposits_by_customer id = list_deposits (λ d. d.customer_id == id)

  unfoldable pub list_deposits_by_merchant : Uuid → Action Db (List Deposit)
  unfolding list_deposits
  list_deposits_by_merchant id = list_deposits (λ d. d.merchant_id == id)

  -- The parameter is of the enum's type, so that the server refuses other texts.
  unfoldable pub list_deposits_by_status : DepositStatus → Action Db (List Deposit)
  unfolding list_deposits
  list_deposits_by_status status = elim (is_deposit_status status) [
    | true ↦ list_deposits (λ d. same_deposit_status d.status status)
    | false ↦ statement (lift (err (pg_error "22P02")))
  ]

  unfoldable pub update_deposit : Uuid → (Time → DepositRow → DepositRow) → Action Db Deposit
  update_deposit id f = statement (modify_deposit id f) >>= scan_deposit

  abbrev valid_status : DepositStatus → Action Db Deposit → Action Db Deposit
  valid_status status m = elim (is_deposit_status status) [
    | true ↦ m
    | false ↦ statement (lift (err (pg_error "22P02")))
  ]

  unfoldable pub update_deposit_status : Uuid → DepositStatus → Action Db Deposit
  unfolding update_deposit
  update_deposit_status id status =
      valid_status status (update_deposit id (λ t d. record d { status = status; updated_at = t }))

  unfoldable pub update_deposit_status_and_completed_at : Uuid → DepositStatus → Action Db Deposit
  unfolding update_deposit
  update_deposit_status_and_completed_at id status = valid_status status (
      update_deposit id
        (λ t d. record d { status = status; completed_at = some t; updated_at = t }))

  unfoldable pub update_deposit_status_and_failed_at :
      Uuid → DepositStatus → String → Action Db Deposit
  unfolding update_deposit
  update_deposit_status_and_failed_at id status reason = valid_status status (
      update_deposit id (λ t d. record d {
        status = status;
        failed_at = some t;
        failure_reason = some reason;
        updated_at = t;
      }))

  unfoldable pub update_deposit_ghl_reference : Uuid → String → String → Action Db Deposit
  update_deposit_ghl_reference id transaction charge =
      update_deposit id (set_ghl_reference transaction charge)
