-- ===== src/Transactions/Service/Refinement.antt =====
-- The calls of the service against the specification in Transactions/Change.antt.
use rvpay_go.Base.{List, [], ◌∷◌}
use rvpay_go.Base.Effect.{Action}
use rvpay_go.Transactions.Model.{Env, Tables, Db}
use rvpay_go.Transactions.Change.{Change, same, Changes, ReadOnly, Changes-reply}
use rvpay_go.Transactions.Change.Deposits
use rvpay_go.Transactions.Change.Payouts
use rvpay_go.Transactions.Change.Records
use rvpay_go.Transactions.Change.Payments
use rvpay_go.Transactions.Service.{Call, discard, outcome, perform, run}

discard-Changes : {A : Type 0} (m : Action Db A) → Changes m → Changes (discard m)
discard-Changes m h db = Changes-reply m (λ _. tt) db (h db)

discard-ReadOnly : {A : Type 0} (m : Action Db A) → ReadOnly m → Changes (discard m)
discard-ReadOnly m h = discard-Changes m (λ db. same (h db))

module _ (env : Env) where
  -- Whatever the request and whatever statements the server refuses, the tables after a call come
  -- from those before it by one step of the specification.
  pub perform-Change : (c : Call) (db : Db) → Change db.tables (perform env c db).tables
  unfolding outcome
  perform-Change (Call.create_customer r) =
      discard-Changes _ (Records.create_customer-Changes env r)
  perform-Change (Call.get_customer r) = discard-ReadOnly _ (Records.get_customer-ReadOnly env r)
  perform-Change (Call.create_merchant r) =
      discard-Changes _ (Records.create_merchant-Changes env r)
  perform-Change (Call.get_merchant r) = discard-ReadOnly _ (Records.get_merchant-ReadOnly env r)
  perform-Change (Call.list_merchants r) =
      discard-ReadOnly _ (Records.list_merchants-ReadOnly env r)
  perform-Change (Call.initiate_deposit r) =
      discard-Changes _ (Deposits.initiate_deposit-Changes env r)
  perform-Change (Call.get_deposit r) = discard-ReadOnly _ (Deposits.get_deposit-ReadOnly env r)
  perform-Change (Call.get_deposit_by_ghl_transaction_id r) =
      discard-ReadOnly _ (Deposits.get_deposit_by_ghl-ReadOnly env r)
  perform-Change (Call.request_payout r) = discard-Changes _ (Payouts.request_payout-Changes env r)
  perform-Change (Call.get_payout r) = discard-ReadOnly _ (Payouts.get_payout-ReadOnly env r)
  perform-Change (Call.verify_payment r) =
      discard-ReadOnly _ (Payments.verify_payment-ReadOnly env r)
  perform-Change (Call.process_payment_webhook r) =
      discard-Changes _ (Payments.process_payment_webhook-Changes env r)

  -- What every step keeps, every list of calls keeps.
  pub run_keeps :
      (P : Tables → Type 0)
      → ((t u : Tables) → Change t u → P t → P u)
      → (cs : List Call) (db : Db) → P db.tables
      → P (run env cs db).tables
  unfolding run
  run_keeps P keep [] db h = h
  run_keeps P keep (c ∷ cs) db h =
      run_keeps P keep cs (perform env c db) (keep _ _ (perform-Change c db) h)
