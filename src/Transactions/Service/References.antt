-- ===== src/Transactions/Service/References.antt =====
-- The status and the GoHighLevel references of deposits over the calls of the service, and what the
-- verification of payments (transactions/payments/service.go) makes of them.
use mathlib.Core.List.{Memᴰ}
use rvpay_go.Base.{true, Option, none, some, List, ◌≡◌, inl, inr, String}
use rvpay_go.Base.Effect.{ok}
use rvpay_go.Base.Table.{find_row-mem}
use rvpay_go.Transactions.Model.{DepositStatus, DepositRow, Tables, Env, Db}
use rvpay_go.Transactions.Change.{
  Change, same, merchant_added, customer_added, deposit_added, payout_added, reference_set,
}
use rvpay_go.Transactions.Store.Columns.{is_text}
use rvpay_go.Transactions.Payments.{VerifyPaymentRequest, VerifyPaymentResponse, verify_payment}
use rvpay_go.Transactions.Payments.Verification.{verify_payment_found}
use rvpay_go.Transactions.Service.{Call, run}
use rvpay_go.Transactions.Service.Refinement.{run_keeps}
use rvpay_go.Transactions.Service.Invariant.{on_append}

-- No deposit has been taken up by the provider: each is INITIATED, with no reference.
abbrev pub IsFresh : DepositRow → Type 0
IsFresh d =
    (d.status ≡ DepositStatus.initiated) × (d.ghl_transaction_id ≡ none) × (d.ghl_charge_id ≡ none)

abbrev pub AllFresh : Tables → Type 0
AllFresh t = (d : DepositRow) → Memᴰ d t.deposits → IsFresh d

not-is_text : (o : Option String) (s : String) → o ≡ none → is_text o s ≡ true → ⊥
not-is_text o s e h = cc (rw e at h)

Change-AllFresh : (t u : Tables) → Change t u → AllFresh t → AllFresh u
Change-AllFresh t u (same e) h = rw e h
Change-AllFresh t u (merchant_added row r e) h = rw e h
Change-AllFresh t u (customer_added row r e) h = rw e h
Change-AllFresh t u (deposit_added row c r f i s x y e) h =
    rw e (on_append IsFresh t.deposits row h (s, x, y))
Change-AllFresh t u (payout_added row r s e) h = rw e h
Change-AllFresh t u (reference_set d x y n f e) h =
    let (m, k) = find_row-mem (λ z. is_text z.ghl_transaction_id x) t.deposits f in
    absurd (not-is_text d.ghl_transaction_id x (h d m).1 k)

module _ (env : Env) where
  -- From tables in which every deposit is INITIATED and has no GoHighLevel reference, no list of
  -- calls reaches others: the service by itself neither completes nor fails a deposit, nor
  -- correlates one with the provider.
  pub run-AllFresh :
      (calls : List Call) (db : Db) → AllFresh db.tables → AllFresh (run env calls db).tables
  run-AllFresh = run_keeps env AllFresh Change-AllFresh

  -- From tables in which every deposit is INITIATED and has no GoHighLevel reference, after any list
  -- of calls, `VerifyPayment` never has a reply: every request ends in
  -- an error.
  pub verify_payment_never_replies :
      (calls : List Call) (req : Option VerifyPaymentRequest) (db : Db)
      → AllFresh db.tables
      → (r : VerifyPaymentResponse) → ¬ ((verify_payment env req (run env calls db)).0 ≡ ok r)
  unfolding verify_payment
  verify_payment_never_replies calls none db h r e = cc
  verify_payment_never_replies calls (some req) db h r e =
      let (_, _, (row, m, w, _)) =
        verify_payment_found env req (run env calls db) {r = r}
          (λ i. (e i, (verify_payment env (some req) (run env calls db)).1)) in
      let fresh = run-AllFresh calls db h row m in
      elim w [
        | inl k ↦ not-is_text row.ghl_transaction_id _ fresh.1 k
        | inr k ↦ not-is_text row.ghl_charge_id _ fresh.2 k
      ]
