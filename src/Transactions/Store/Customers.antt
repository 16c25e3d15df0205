-- ===== src/Transactions/Store/Customers.antt =====
-- transactions/db/sqlc/customers.sql.go and the table `customers`.
use rvpay_go.Base.{
  String, Bool, true, false, not, ◌&&◌, ◌||◌, Option, none, some, List, [], ◌∷◌, ◌++◌, ◌==◌, str_eq,
  if◌then◌else◌,
}
use rvpay_go.Base.Effect.{Err, no_rows, pg_error, ok, err, Action, ◌>>=◌}
use rvpay_go.Base.Table.{find_row, any_row, filter_rows, update_rows, order_rows}
use rvpay_go.Transactions.Model.{
  Uuid, Time, CustomerStatus, Customer, Tables, Db, now, statement, draw_uuid,
}

-- The values of the type `customer_status`.
abbrev pub is_customer_status : CustomerStatus → Bool
is_customer_status (CustomerStatus.unknown _) = false
is_customer_status _ = true

pub record CreateCustomerParams : Type 0 where
  pub client_id : Uuid
  pub merchant_id : Uuid
  pub phone_number : String
  pub status : CustomerStatus

abbrev pub new_customer : CreateCustomerParams → Uuid → Time → Customer
new_customer arg id t = record {
  id = id;
  client_id = arg.client_id;
  merchant_id = arg.merchant_id;
  phone_number = arg.phone_number;
  status = arg.status;
  created_at = t;
  updated_at = t;
}

-- The key of `uq_customer_client_merchant_phone`.
abbrev pub has_key : Uuid → Uuid → String → Customer → Bool
has_key client merchant phone c =
    c.client_id == client && c.merchant_id == merchant && str_eq c.phone_number phone

abbrev pub customer_conflicts : Customer → Customer → Bool
customer_conflicts row c =
    c.id == row.id || has_key row.client_id row.merchant_id row.phone_number c

abbrev pub with_customers : List Customer → Db → Db
with_customers rows db = record db { tables = record (db.tables) { customers = rows } }

-- The first check that refuses a row: the enum, the unique keys, and the foreign key.
unfoldable pub customer_refusal : Customer → Tables → Option Err
customer_refusal row t =
    if not (is_customer_status row.status)
    then some (pg_error "22P02")
    else if any_row (customer_conflicts row) t.customers
    then some (pg_error "23505")
    else if not (any_row (λ m. m.id == row.merchant_id) t.merchants)
    then some (pg_error "23503")
    else none

-- The row is stored unless a check refuses it.
unfoldable pub insert_customer : Customer → Action Db Customer
insert_customer row db = elim (customer_refusal row db.tables) [
  | some e ↦ (err e, db)
  | none ↦ (ok row, with_customers (db.customers ++ row ∷ []) db)
]

unfoldable pub create_customer : CreateCustomerParams → Action Db Customer
create_customer arg =
    statement (draw_uuid >>= λ id db. insert_customer (new_customer arg id (now db)) db)

abbrev select_customer : (Customer → Bool) → Action Db Customer
select_customer p =
    statement
      (λ db. elim (find_row p db.customers) [ none ↦ (err no_rows, db) | some c ↦ (ok c, db) ])

unfoldable pub get_customer_by_id : Uuid → Action Db Customer
get_customer_by_id id = select_customer (λ c. c.id == id)

unfoldable pub get_customer_by_client_and_merchant_and_phone :
    Uuid → Uuid → String → Action Db Customer
get_customer_by_client_and_merchant_and_phone client merchant phone =
    select_customer (has_key client merchant phone)

abbrev list_customers : (Customer → Bool) → Action Db (List Customer)
list_customers p =
    statement (λ db. (ok (order_rows Customer.created_at (filter_rows p db.customers)), db))

unfoldable pub list_customers_by_client : Uuid → Action Db (List Customer)
list_customers_by_client client = list_customers (λ c. c.client_id == client)

unfoldable pub list_customers_by_merchant : Uuid → Action Db (List Customer)
list_customers_by_merchant merchant = list_customers (λ c. c.merchant_id == merchant)

unfoldable pub update_customer_status : Uuid → CustomerStatus → Action Db Customer
update_customer_status id status = statement (λ db.
    let f = λ (c : Customer). record c { status = status; updated_at = now db } in
    elim (is_customer_status status) [
      | false ↦ (err (pg_error "22P02"), db)
      | true ↦ elim (find_row (λ c. c.id == id) db.customers) [
        | none ↦ (err no_rows, db)
        | some c ↦ (ok (f c), with_customers (update_rows (λ c. c.id == id) f db.customers) db)
      ]
    ])
