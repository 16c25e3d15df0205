-- ===== src/Transactions/Store/Payouts.antt =====
-- transactions/db/sqlc/payouts.sql.go and the table `payouts`.
use rvpay_go.Base.{
  String, Bool, true, false, not, ◌&&◌, ◌||◌, Option, none, some, List, [], ◌∷◌, ◌++◌, ◌==◌,
  if◌then◌else◌,
}
use rvpay_go.Base.Effect.{Err, no_rows, pg_error, ok, err, Action, lift, ◌>>=◌}
use rvpay_go.Base.Table.{find_row, any_row, filter_rows, update_rows, order_rows}
use mathlib.Core.List.{reverse}
use rvpay_go.Transactions.Store.Columns.{
  is_payout_status, same_payout_status, is_payment_provider, is_currency, is_over_three, is_text,
}
use rvpay_go.Transactions.Model.{
  Uuid, Time, Numeric, PaymentProvider, PayoutStatus, PayoutRow, Payout, Env, Tables, Db, now,
  statement, draw_uuid,
}

pub record CreatePayoutParams : Type 0 where
  pub client_id : Uuid
  pub merchant_id : Uuid
  pub amount : Numeric
  pub currency : String
  pub provider : PaymentProvider
  pub destination_reference : String
  pub status : PayoutStatus
  pub idempotency_key : Uuid

abbrev pub new_payout : CreatePayoutParams → Numeric → Uuid → Time → PayoutRow
new_payout arg amount id t = record {
  id = id;
  client_id = arg.client_id;
  merchant_id = arg.merchant_id;
  amount = amount;
  currency = arg.currency;
  provider = arg.provider;
  destination_reference = some arg.destination_reference;
  status = arg.status;
  external_reference = none;
  idempotency_key = arg.idempotency_key;
  requested_at = t;
  completed_at = none;
  failed_at = none;
  failure_reason = none;
  created_at = t;
  updated_at = t;
}

abbrev pub payout_conflicts : PayoutRow → PayoutRow → Bool
payout_conflicts row p = p.id == row.id || p.idempotency_key == row.idempotency_key

abbrev pub with_payouts : List PayoutRow → Db → Db
with_payouts rows db = record db { tables = record (db.tables) { payouts = rows } }

-- The first check that refuses a row: the enums, VARCHAR(3), the CHECK on the currency, the unique
-- keys, and the foreign key.
unfoldable pub payout_refusal : PayoutRow → Tables → Option Err
payout_refusal row t =
    if not (is_payment_provider row.provider && is_payout_status row.status)
    then some (pg_error "22P02")
    else if is_over_three row.currency
    then some (pg_error "22001")
    else if not (is_currency row.currency)
    then some (pg_error "23514")
    else if any_row (payout_conflicts row) t.payouts
    then some (pg_error "23505")
    else if not (any_row (λ m. m.id == row.merchant_id) t.merchants)
    then some (pg_error "23503")
    else none

-- The row is stored unless a check refuses it.
unfoldable pub insert_payout : PayoutRow → Action Db PayoutRow
insert_payout row db = elim (payout_refusal row db.tables) [
  | some e ↦ (err e, db)
  | none ↦ (ok row, with_payouts (db.payouts ++ row ∷ []) db)
]

-- The first row that the condition admits.
unfoldable pub find_payout : (PayoutRow → Bool) → Action Db PayoutRow
find_payout q =
    statement
      (λ db. elim (find_row q db.payouts) [ none ↦ (err no_rows, db) | some p ↦ (ok p, db) ])

module _ (env : Env) where
  -- `row.Scan(&i.ID, …)`: the nullable texts are scanned into Go strings.
  unfoldable pub scan_payout : PayoutRow → Action Db Payout
  scan_payout p = do
    destination_reference ← lift (env.scan_text p.destination_reference)
    external_reference ← lift (env.scan_text p.external_reference)
    failure_reason ← lift (env.scan_text p.failure_reason)
    lift (
        ok (record {
          id = p.id;
          client_id = p.client_id;
          merchant_id = p.merchant_id;
          amount = p.amount;
          currency = p.currency;
          provider = p.provider;
          destination_reference = destination_reference;
          status = p.status;
          external_reference = external_reference;
          idempotency_key = p.idempotency_key;
          requested_at = p.requested_at;
          completed_at = p.completed_at;
          failed_at = p.failed_at;
          failure_reason = failure_reason;
          created_at = p.created_at;
          updated_at = p.updated_at;
        }))

  scan_payouts : List PayoutRow → Action Db (List Payout)
  unfolding scan_payout
  scan_payouts [] = lift (ok [])
  scan_payouts (p ∷ ps) = do lift (ok ((← scan_payout p) ∷ (← scan_payouts ps)))

  -- The `INSERT` as the server runs it.
  unfoldable pub store_payout : CreatePayoutParams → Action Db PayoutRow
  store_payout arg = draw_uuid >>= λ id. lift (env.store_numeric arg.amount) >>= λ amount db.
      insert_payout (new_payout arg amount id (now db)) db

  -- The row stays stored where scanning the returned columns fails.
  unfoldable pub create_payout : CreatePayoutParams → Action Db Payout
  create_payout arg = statement (store_payout arg) >>= scan_payout

  unfoldable pub select_payout : (PayoutRow → Bool) → Action Db Payout
  select_payout q = find_payout q >>= scan_payout

  unfoldable pub get_payout_by_id : Uuid → Action Db Payout
  get_payout_by_id id = select_payout (λ p. p.id == id)

  unfoldable pub get_payout_by_external_reference : String → Action Db Payout
  get_payout_by_external_reference t = select_payout (λ p. is_text p.external_reference t)

  unfoldable pub get_payout_by_idempotency_key : Uuid → Action Db Payout
  get_payout_by_idempotency_key key = select_payout (λ p. p.idempotency_key == key)

  -- `ORDER BY created_at DESC`.
  list_payouts : (PayoutRow → Bool) → Action Db (List Payout)
  unfolding scan_payouts
  list_payouts q =
      statement
        (λ db. (ok (reverse (order_rows PayoutRow.created_at (filter_rows q db.payouts))), db))
      >>= scan_payouts

  unfoldable pub list_payouts_by_client : Uuid → Action Db (List Payout)
  unfolding list_payouts
  list_payouts_by_client id = list_payouts (λ p. p.client_id == id)

  unfoldable pub list_payouts_by_merchant : Uuid → Action Db (List Payout)
  unfolding list_payouts
  list_payouts_by_merchant id = list_payouts (λ p. p.merchant_id == id)

  -- The parameter is of the enum's type, so that the server refuses other texts.
  unfoldable pub list_payouts_by_status : PayoutStatus → Action Db (List Payout)
  unfolding list_payouts
  list_payouts_by_status status = elim (is_payout_status status) [
    | true ↦ list_payouts (λ p. same_payout_status p.status status)
    | false ↦ statement (lift (err (pg_error "22P02")))
  ]

  -- `UPDATE … WHERE id = $1 RETURNING …`.
  unfoldable pub update_payout : Uuid → (Time → PayoutRow → PayoutRow) → Action Db Payout
  update_payout id f =
      statement (λ db. elim (find_row (λ p. p.id == id) db.payouts) [
        | none ↦ (err no_rows, db)
        | some p ↦ (
          ok (f (now db) p),
          with_payouts (update_rows (λ p. p.id == id) (f (now db)) db.payouts) db,
        )
      ])
      >>= scan_payout

  abbrev valid_status : PayoutStatus → Action Db Payout → Action Db Payout
  valid_status status m = elim (is_payout_status status) [
    | true ↦ m
    | false ↦ statement (lift (err (pg_error "22P02")))
  ]

  unfoldable pub update_payout_status : Uuid → PayoutStatus → Action Db Payout
  unfolding update_payout
  update_payout_status id status =
      valid_status status (update_payout id (λ t p. record p { status = status; updated_at = t }))

  unfoldable pub update_payout_status_and_completed_at : Uuid → PayoutStatus → Action Db Payout
  unfolding update_payout
  update_payout_status_and_completed_at id status = valid_status status (
      update_payout id (λ t p. record p { status = status; completed_at = some t; updated_at = t }))

  unfoldable pub update_payout_status_and_failed_at :
      Uuid → PayoutStatus → String → Action Db Payout
  unfolding update_payout
  update_payout_status_and_failed_at id status reason = valid_status status (
      update_payout id (λ t p. record p {
        status = status;
        failed_at = some t;
        failure_reason = some reason;
        updated_at = t;
      }))
