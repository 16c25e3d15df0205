-- ===== src/Transactions/Service.antt =====
-- The transactions service as a whole: the calls of its gRPC handlers, in the order in which they
-- come, on one database. Each call is run to its end before the next.
pub mod Refinement
pub mod Invariant
pub mod References
pub mod Errors
pub mod History
pub mod Keys
use rvpay_go.Base.Pagination.{PaginationRequest}
use rvpay_go.Base.{String, Option, List, [], ◌∷◌}
use rvpay_go.Base.Effect.{ok, Action, lift, ◌>>=◌}
use rvpay_go.Transactions.Model.{Env, Db}
use rvpay_go.Transactions.Customers
use rvpay_go.Transactions.Customers.{CreateCustomerRequest}
use rvpay_go.Transactions.Merchants
use rvpay_go.Transactions.Merchants.{CreateMerchantRequest}
use rvpay_go.Transactions.Deposits
use rvpay_go.Transactions.Deposits.{CreateDepositRequest}
use rvpay_go.Transactions.Payouts
use rvpay_go.Transactions.Payouts.{CreatePayoutRequest}
use rvpay_go.Transactions.Payments
use rvpay_go.Transactions.Payments.{VerifyPaymentRequest, ProcessPaymentWebhookRequest}

-- A request to one of the handlers; `none` is a nil message.
pub data Call : Type 0 where
  create_customer : Option CreateCustomerRequest → Call
  get_customer : Option String → Call
  create_merchant : Option CreateMerchantRequest → Call
  get_merchant : Option String → Call
  list_merchants : Option (Option PaginationRequest) → Call
  initiate_deposit : Option CreateDepositRequest → Call
  get_deposit : Option String → Call
  get_deposit_by_ghl_transaction_id : Option String → Call
  request_payout : Option CreatePayoutRequest → Call
  get_payout : Option String → Call
  verify_payment : Option VerifyPaymentRequest → Call
  process_payment_webhook : Option ProcessPaymentWebhookRequest → Call

-- A handler, with its reply left out.
abbrev pub discard : {A : Type 0} → Action Db A → Action Db (Unit {0})
discard m = m >>= λ _. lift (ok tt)

module _ (env : Env) where
  unfoldable pub outcome : Call → Action Db (Unit {0})
  outcome (Call.create_customer r) = discard (Customers.create_customer env r)
  outcome (Call.get_customer r) = discard (Customers.get_customer env r)
  outcome (Call.create_merchant r) = discard (Merchants.create_merchant env r)
  outcome (Call.get_merchant r) = discard (Merchants.get_merchant env r)
  outcome (Call.list_merchants r) = discard (Merchants.list_merchants env r)
  outcome (Call.initiate_deposit r) = discard (Deposits.initiate_deposit env r)
  outcome (Call.get_deposit r) = discard (Deposits.get_deposit env r)
  outcome (Call.get_deposit_by_ghl_transaction_id r) =
      discard (Deposits.get_deposit_by_ghl_transaction_id env r)
  outcome (Call.request_payout r) = discard (Payouts.request_payout env r)
  outcome (Call.get_payout r) = discard (Payouts.get_payout env r)
  outcome (Call.verify_payment r) = discard (Payments.verify_payment env r)
  outcome (Call.process_payment_webhook r) = discard (Payments.process_payment_webhook env r)

  -- The database after a call, and after a list of calls.
  abbrev pub perform : Call → Db → Db
  perform c db = (outcome c db).1

  unfoldable pub run : List Call → Db → Db
  run [] db = db
  run (c ∷ cs) db = run cs (perform c db)
