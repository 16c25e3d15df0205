-- ===== src/Transactions/Deposits/Acceptance.antt =====
-- `InitiateDeposit` (transactions/deposits/service.go) for a request that nothing stands against.
use rvpay_go.Base.{none, some, suc, [], ◌∷◌, ◌++◌, ◌≡◌, arith}
use rvpay_go.Base.Table.{find_row}
use rvpay_go.Base.Effect.{ok}
use rvpay_go.Transactions.Model.{Customer, DepositStatus, DepositRow, Numeric, Env, Db}
use rvpay_go.Transactions.Store.Customers.{has_key, get_customer_by_client_and_merchant_and_phone}
use rvpay_go.Transactions.Store.Deposits.{
  new_deposit, deposit_refusal, insert_deposit, store_deposit, create_deposit, scan_deposit,
}
use rvpay_go.Transactions.Repo.Customers as CustomerRepo
use rvpay_go.Transactions.Repo.Deposits as DepositRepo
use rvpay_go.Transactions.Deposits.{
  CreateDepositRequest, DepositInput, check_deposit, find_customer, place_deposit,
  store_for_customer, initiate_deposit,
}

-- The row that a request's input makes for its customer.
abbrev pub row_of : DepositInput → Customer → Numeric → Db → DepositRow
row_of i c amount db =
    new_deposit
      (record {
        client_id = i.client_id;
        customer_id = c.id;
        merchant_id = i.merchant_id;
        amount = i.amount;
        currency = i.currency;
        payment_type = i.payment_type;
        payer_phone_number = i.phone_number;
        provider = i.provider;
        status = DepositStatus.initiated;
        idempotency_key = db.new_uuid db.drawn;
      })
      amount (db.new_uuid (suc db.drawn)) (db.clock (suc (suc db.ticks)))

module _ (env : Env) where
  -- A request that passes the checks, with a customer who has its phone number, and whose row no
  -- constraint refuses, is stored where the server runs the two statements, even where the row
  -- that comes back cannot be scanned.
  pub initiate_deposit_accepted :
      (req : CreateDepositRequest) (db : Db) {i : DepositInput} {c : Customer} {amount : Numeric}
      → check_deposit env req db ≡ (ok i, db)
      → find_row (has_key i.client_id i.merchant_id i.phone_number) db.customers ≡ some c
      → env.store_numeric i.amount ≡ ok amount
      → deposit_refusal (row_of i c amount db) db.tables ≡ none
      → db.fault db.ticks ≡ none
      → db.fault (suc db.ticks) ≡ none
      → (initiate_deposit env (some req) db).1.deposits ≡ db.deposits ++ row_of i c amount db ∷ []
  unfolding initiate_deposit place_deposit find_customer store_for_customer
      CustomerRepo.get_by_client_and_merchant_and_phone
      get_customer_by_client_and_merchant_and_phone DepositRepo.create create_deposit store_deposit
      insert_deposit scan_deposit
  initiate_deposit_accepted req db h f a r p q = ground arith
