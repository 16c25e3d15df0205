-- ===== src/Transactions/Tests/Runs.antt =====
-- Runs of the transactions service on concrete databases.
use rvpay_go.Transactions.Tests.{
  lenient, strict, no_rows_yet, database, order, day, stocked, with_payment, transaction,
  no_deposits-AllFresh, success,
}
use rvpay_go.Base.{true, some, ◌≡◌, refl}
use rvpay_go.Base.Text
use rvpay_go.Base.Effect
use rvpay_go.Transactions.Convert
use rvpay_go.Transactions.Model
use rvpay_go.Transactions.Deposits
use rvpay_go.Transactions.Store.Deposits as DepositStore
use rvpay_go.Transactions.Store.Customers as CustomerStore
use rvpay_go.Transactions.Store.Columns as Columns
use rvpay_go.Transactions.Repo.Deposits as DepositRepo
use rvpay_go.Transactions.Repo.Customers as CustomerRepo
use rvpay_go.Base.Text.{is_empty, trim_space, map_runes}
use rvpay_go.Base.Table.{find_row, any_row}
use rvpay_go.Base.Effect.{Err, other, Result, ok, err, invalid_argument, internal, status}
use rvpay_go.Transactions.Convert.{
  DepositProto, validate_amount, merchant_to_proto, sqlc_payment_type_to_grpc,
  sqlc_payment_provider_to_grpc,
}
use rvpay_go.Transactions.Store.Columns.{is_text}
use rvpay_go.Transactions.Store.Customers.{has_key}
use rvpay_go.Transactions.Change.{Change}
use rvpay_go.Transactions.Deposits.{CreateDepositRequest, initiate_deposit}
use rvpay_go.Transactions.Payments.{verify_payment}
use rvpay_go.Transactions.Service.{Call, outcome, perform, run}
use rvpay_go.Transactions.Service.Refinement.{perform-Change}
use rvpay_go.Transactions.Service.Invariant.{IsConsistent, empty-IsConsistent, run-IsConsistent}
use rvpay_go.Transactions.Service.References.{AllFresh, run-AllFresh, verify_payment_never_replies}
use rvpay_go.Transactions.Service.Errors.{is_status, outcome-Reports}
use rvpay_go.Transactions.Service.History.{Keeps, run-Keeps}
use rvpay_go.Transactions.Service.Keys.{HasKeys, run-HasKeys}

order_refused :
    (outcome strict (Call.initiate_deposit (some order)) (database stocked)).0
    ≡ err (status internal "could not create deposit")
unfolding outcome Deposits.initiate_deposit Deposits.check_deposit Convert.validate_amount
    Model.not_positive Convert.grpc_payment_type_to_sqlc Convert.grpc_provider_to_sqlc
    Text.trim_space Text.map_runes Deposits.place_deposit Deposits.find_customer
    Deposits.store_for_customer Deposits.create_deposit_error Effect.wrap_error
    CustomerRepo.get_by_client_and_merchant_and_phone
    CustomerStore.get_customer_by_client_and_merchant_and_phone find_row any_row DepositRepo.create
    DepositStore.create_deposit DepositStore.store_deposit DepositStore.insert_deposit
    DepositStore.deposit_refusal DepositStore.scan_deposit Columns.is_currency Columns.is_over_three
    Convert.deposit_to_proto Convert.amount_text Convert.sqlc_deposit_status_to_grpc
    Convert.sqlc_payment_type_to_grpc Convert.sqlc_payment_provider_to_grpc
order_refused = refl

stocked-HasKeys : HasKeys stocked
stocked-HasKeys = record {
  merchant_ids = (λ j m. elim m [ ], tt);
  merchant_slugs = (λ j m. elim m [ ], tt);
  customer_ids = (λ j m. elim m [ ], tt);
  customer_phones = (λ j m. elim m [ ], tt);
  deposit_ids = tt;
  deposit_idempotency_keys = tt;
  payout_ids = tt;
  payout_idempotency_keys = tt;
}

run-IsConsistent_example : IsConsistent (run lenient day (database no_rows_yet)).tables
run-IsConsistent_example = run-IsConsistent lenient day (database no_rows_yet) empty-IsConsistent

run-HasKeys_example : HasKeys (run strict day (database stocked)).tables
run-HasKeys_example = run-HasKeys strict day (database stocked) stocked-HasKeys

run-Keeps_example : Keeps with_payment (run lenient day (database with_payment)).tables
run-Keeps_example = run-Keeps lenient day (database with_payment)

run-AllFresh_example : AllFresh (run lenient day (database stocked)).tables
run-AllFresh_example = run-AllFresh lenient day (database stocked) no_deposits-AllFresh

perform-Change_example :
    Change stocked (perform lenient (Call.initiate_deposit (some order)) (database stocked)).tables
perform-Change_example =
    perform-Change lenient (Call.initiate_deposit (some order)) (database stocked)

outcome-Reports_example : is_status (status internal "could not create deposit") ≡ true
outcome-Reports_example =
    outcome-Reports strict (Call.initiate_deposit (some order)) (database stocked)
      (status internal "could not create deposit") order_refused

verify_payment_never_replies_example : ¬ (
    (verify_payment lenient (some transaction) (run lenient day (database stocked))).0 ≡ ok success)
verify_payment_never_replies_example =
    verify_payment_never_replies lenient day (some transaction) (database stocked)
      no_deposits-AllFresh success
