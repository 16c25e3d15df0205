-- ===== src/Transactions/Store/Merchants.antt =====
-- transactions/db/sqlc/merchants.sql.go and the table `merchants`.
use rvpay_go.Base.{
  ℕ, String, Bool, true, false, not, ◌||◌, Option, none, some, List, [], ◌∷◌, ◌++◌, ◌==◌, str_eq,
  length, if◌then◌else◌,
}
use rvpay_go.Base.Pagination.{take, drop}
use rvpay_go.Base.Effect.{Err, no_rows, pg_error, ok, err, Action, ◌>>=◌}
use rvpay_go.Base.Table.{find_row, any_row, update_rows, order_rows}
use rvpay_go.Transactions.Model.{
  Uuid, Time, MerchantStatus, Merchant, Tables, Db, now, statement, draw_uuid,
}

-- The values of the type `merchant_status`.
abbrev pub is_merchant_status : MerchantStatus → Bool
is_merchant_status (MerchantStatus.unknown _) = false
is_merchant_status _ = true

pub record CreateMerchantParams : Type 0 where
  pub name : String
  pub slug : String
  pub status : MerchantStatus

-- The row with the defaults of the columns that the statement leaves out.
abbrev pub new_merchant : CreateMerchantParams → Uuid → Time → Merchant
new_merchant arg id t = record {
  id = id;
  name = arg.name;
  slug = arg.slug;
  status = arg.status;
  created_at = t;
  updated_at = t;
}

abbrev pub merchant_conflicts : Merchant → Merchant → Bool
merchant_conflicts row m = m.id == row.id || str_eq m.slug row.slug

abbrev pub with_merchants : List Merchant → Db → Db
with_merchants rows db = record db { tables = record (db.tables) { merchants = rows } }

-- The first check that refuses a row: the enum, and the unique keys.
unfoldable pub merchant_refusal : Merchant → Tables → Option Err
merchant_refusal row t =
    if not (is_merchant_status row.status)
    then some (pg_error "22P02")
    else if any_row (merchant_conflicts row) t.merchants
    then some (pg_error "23505")
    else none

-- The row is stored unless a check refuses it.
unfoldable pub insert_merchant : Merchant → Action Db Merchant
insert_merchant row db = elim (merchant_refusal row db.tables) [
  | some e ↦ (err e, db)
  | none ↦ (ok row, with_merchants (db.merchants ++ row ∷ []) db)
]

unfoldable pub create_merchant : CreateMerchantParams → Action Db Merchant
create_merchant arg =
    statement (draw_uuid >>= λ id db. insert_merchant (new_merchant arg id (now db)) db)

-- A query that returns one row.
abbrev select_merchant : (Merchant → Bool) → Action Db Merchant
select_merchant p =
    statement
      (λ db. elim (find_row p db.merchants) [ none ↦ (err no_rows, db) | some m ↦ (ok m, db) ])

unfoldable pub get_merchant_by_id : Uuid → Action Db Merchant
get_merchant_by_id id = select_merchant (λ m. m.id == id)

unfoldable pub get_merchant_by_slug : String → Action Db Merchant
get_merchant_by_slug slug = select_merchant (λ m. str_eq m.slug slug)

-- `ORDER BY created_at LIMIT $1 OFFSET $2`.
unfoldable pub list_merchants : ℕ → ℕ → Action Db (List Merchant)
list_merchants limit offset =
    statement
      (λ db. (ok (take limit (drop offset (order_rows Merchant.created_at db.merchants))), db))

unfoldable pub count_merchants : Action Db ℕ
count_merchants = statement (λ db. (ok (length db.merchants), db))

unfoldable pub update_merchant_status : Uuid → MerchantStatus → Action Db Merchant
update_merchant_status id status = statement (λ db.
    let f = λ (m : Merchant). record m { status = status; updated_at = now db } in
    elim (is_merchant_status status) [
      | false ↦ (err (pg_error "22P02"), db)
      | true ↦ elim (find_row (λ m. m.id == id) db.merchants) [
        | none ↦ (err no_rows, db)
        | some m ↦ (ok (f m), with_merchants (update_rows (λ m. m.id == id) f db.merchants) db)
      ]
    ])
