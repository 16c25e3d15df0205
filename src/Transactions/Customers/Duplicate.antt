-- ===== src/Transactions/Customers/Duplicate.antt =====
-- `CreateCustomer` (transactions/customers/service.go) for a customer who is there already.
use rvpay_go.Base.{suc, true, false, none, some, List, [], ◌∷◌, ◌≡◌, arith, Bool-cases, inl, inr}
use rvpay_go.Base.Text.{is_empty, trim_space}
use rvpay_go.Base.Table.{any_row}
use rvpay_go.Base.Effect.{err, already_exists, status, wrap_error}
use rvpay_go.Transactions.Model.{Uuid, CustomerStatus, Customer, Env, Db}
use rvpay_go.Transactions.Store.Customers.{
  has_key, customer_conflicts, customer_refusal, insert_customer, create_customer,
}
use rvpay_go.Transactions.Repo.Customers as CustomerRepo
use rvpay_go.Transactions.Customers as CustomerService
use rvpay_go.Transactions.Customers.{CreateCustomerRequest, create_customer_error}

-- A row with the key of another conflicts with it.
key_conflicts :
    (row : Customer) (cs : List Customer)
    → any_row (has_key row.client_id row.merchant_id row.phone_number) cs ≡ true
    → any_row (customer_conflicts row) cs ≡ true
unfolding any_row
key_conflicts row [] h = cc
key_conflicts row (c ∷ cs) h =
    elim (Bool-cases (has_key row.client_id row.merchant_id row.phone_number c)) [
      | inl e ↦ ground arith
      | inr e ↦ let rest = key_conflicts row cs (ground arith) in ground arith
    ]

-- A request whose client and merchant have a customer with its trimmed phone number ends in
-- ALREADY_EXISTS where the server runs the insertion, and no table changes.
pub create_customer_duplicate :
    (env : Env) (req : CreateCustomerRequest) (db : Db) {client merchant : Uuid}
    → env.parse_uuid req.client_id ≡ some client
    → env.parse_uuid req.merchant_id ≡ some merchant
    → is_empty (trim_space req.phone_number) ≡ false
    → any_row (has_key client merchant (trim_space req.phone_number)) db.customers ≡ true
    → db.fault db.ticks ≡ none
    → ((CustomerService.create_customer env (some req) db).0
        ≡ err (status already_exists "customer already exists"))
      × ((CustomerService.create_customer env (some req) db).1.tables ≡ db.tables)
unfolding CustomerService.create_customer create_customer_error CustomerRepo.create create_customer
    insert_customer customer_refusal wrap_error
create_customer_duplicate env req db {client} {merchant} p q b h f =
    let row : Customer = record {
      id = db.new_uuid db.drawn;
      client_id = client;
      merchant_id = merchant;
      phone_number = trim_space req.phone_number;
      status = CustomerStatus.created;
      created_at = db.clock (suc db.ticks);
      updated_at = db.clock (suc db.ticks);
    } in
    let conflict = key_conflicts row db.customers h in ground arith
