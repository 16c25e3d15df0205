-- ===== src/Transactions/Payouts/Acceptance.antt =====
-- `RequestPayout` (transactions/payouts/service.go) for a request that nothing stands against.
use rvpay_go.Base.{String, none, some, suc, [], ◌∷◌, ◌++◌, ◌≡◌, arith}
use rvpay_go.Base.Effect.{ok, err, wrap_error}
use rvpay_go.Transactions.Model.{PayoutStatus, PayoutRow, Numeric, Env, Db}
use rvpay_go.Transactions.Store.Payouts.{
  payout_refusal, insert_payout, store_payout, create_payout, scan_payout,
}
use rvpay_go.Transactions.Repo.Payouts as PayoutRepo
use rvpay_go.Transactions.Payouts.{
  CreatePayoutRequest, PayoutInput, check_payout, place_payout, request_payout, create_payout_error,
}
use rvpay_go.Base.Effect.{status, internal, other}

-- The row that a request's input makes.
abbrev pub row_of : PayoutInput → Numeric → Db → PayoutRow
row_of i amount db = record {
  id = db.new_uuid (suc db.drawn);
  client_id = i.client_id;
  merchant_id = i.merchant_id;
  amount = amount;
  currency = i.currency;
  provider = i.provider;
  destination_reference = some i.destination_reference;
  status = PayoutStatus.requested;
  external_reference = none;
  idempotency_key = db.new_uuid db.drawn;
  requested_at = db.clock (suc db.ticks);
  completed_at = none;
  failed_at = none;
  failure_reason = none;
  created_at = db.clock (suc db.ticks);
  updated_at = db.clock (suc db.ticks);
}

module _ (env : Env) where
  -- Where pgx refuses to scan a NULL text into a Go string, but scans the destination reference, the
  -- caller is told INTERNAL all the same, though the payout has been stored.
  pub request_payout_unseen :
      (req : CreatePayoutRequest) (db : Db) {i : PayoutInput} {amount : Numeric} (text : String)
      → check_payout env req db ≡ (ok i, db)
      → env.store_numeric i.amount ≡ ok amount
      → payout_refusal (row_of i amount db) db.tables ≡ none
      → db.fault db.ticks ≡ none
      → env.scan_text none ≡ err (other text)
      → env.scan_text (some i.destination_reference) ≡ ok i.destination_reference
      → ((request_payout env (some req) db).0 ≡ err (status internal "could not create payout"))
        × ((request_payout env (some req) db).1.payouts ≡ db.payouts ++ row_of i amount db ∷ [])
  unfolding request_payout place_payout PayoutRepo.create create_payout store_payout insert_payout
      scan_payout create_payout_error wrap_error
  request_payout_unseen req db text h a r p n k = ground arith
