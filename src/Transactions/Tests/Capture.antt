-- ===== src/Transactions/Tests/Capture.antt =====
-- Payment events on a concrete database.
use rvpay_go.Base.{some, ◌≡◌, ◌⊎◌}
use rvpay_go.Base.Table.{find_row}
use rvpay_go.Base.Effect.{ok, err, err_not_found}
use rvpay_go.Transactions.Model.{DepositRow}
use rvpay_go.Transactions.Store.Columns.{is_text}
use rvpay_go.Transactions.Repo.Deposits as DepositRepo
use rvpay_go.Transactions.Payments.{process_payment_webhook}
use rvpay_go.Transactions.Payments.Capture.{IsCharge, charged, process_payment_webhook_captured}
use rvpay_go.Transactions.Tests.{strict, database, with_payment, captured}

process_payment_webhook_captured_example :
    ((row : DepositRow) × IsCharge captured
      × (find_row (λ x. is_text x.ghl_transaction_id "tx") with_payment.deposits ≡ some row)
      × ((process_payment_webhook strict (some captured) (database with_payment)).1.tables
          ≡ charged captured row 2 with_payment))
    ⊎ (((process_payment_webhook strict (some captured) (database with_payment)).1.tables
          ≡ with_payment)
        × ((process_payment_webhook strict (some captured) (database with_payment)).0 ≡ ok tt
            → IsCharge captured
            → (DepositRepo.get_by_ghl_transaction_id strict "tx" (database with_payment)).0
              ≡ err err_not_found))
process_payment_webhook_captured_example =
    process_payment_webhook_captured strict captured (database with_payment)
