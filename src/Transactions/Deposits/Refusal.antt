-- ===== src/Transactions/Deposits/Refusal.antt =====
-- `InitiateDeposit` (transactions/deposits/service.go) for a phone number that no customer has.
use rvpay_go.Base.{none, some, ◌≡◌, arith}
use rvpay_go.Base.Table.{find_row}
use rvpay_go.Base.Effect.{ok, err, not_found, status, wrap_not_found}
use rvpay_go.Transactions.Model.{Env, Db}
use rvpay_go.Transactions.Store.Customers.{has_key, get_customer_by_client_and_merchant_and_phone}
use rvpay_go.Transactions.Repo.Customers as CustomerRepo
use rvpay_go.Transactions.Deposits.{
  CreateDepositRequest, DepositInput, check_deposit, find_customer, place_deposit, initiate_deposit,
  customer_lookup_error,
}

-- A request that passes the checks, but whose client and merchant have no customer with its phone
-- number, ends in NOT_FOUND where the server runs the lookup, and no table changes.
pub initiate_deposit_unknown :
    (env : Env) (req : CreateDepositRequest) (db : Db) {i : DepositInput}
    → check_deposit env req db ≡ (ok i, db)
    → find_row (has_key i.client_id i.merchant_id i.phone_number) db.customers ≡ none
    → db.fault db.ticks ≡ none
    → ((initiate_deposit env (some req) db).0
        ≡ err (
            status not_found "customer not found for the given client, merchant, and phone number"))
      × ((initiate_deposit env (some req) db).1.tables ≡ db.tables)
unfolding initiate_deposit place_deposit find_customer customer_lookup_error
    CustomerRepo.get_by_client_and_merchant_and_phone get_customer_by_client_and_merchant_and_phone
    wrap_not_found
initiate_deposit_unknown env req db h k f = ground arith
