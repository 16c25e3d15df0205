-- ===== src/Transactions/Service/Errors.antt =====
-- The errors that reach a caller of the service (the ends of the handlers of
-- transactions/{customers,merchants,deposits,payouts,payments}/service.go).
use rvpay_go.Base.Pagination.{PaginationRequest}
use rvpay_go.Base.{String, Bool, true, false, Option, none, some, ◌≡◌, ap, arith}
use rvpay_go.Base.Effect.{Err, status, Result, ok, err, Action, lift, ◌>>=◌}
use rvpay_go.Transactions.Model.{Env, Db}
use rvpay_go.Transactions.Convert.{validate_amount, deposit_to_proto, payout_to_proto}
use rvpay_go.Transactions.Customers as CustomerService
use rvpay_go.Transactions.Merchants as MerchantService
use rvpay_go.Transactions.Deposits as DepositService
use rvpay_go.Transactions.Payouts as PayoutService
use rvpay_go.Transactions.Payments as PaymentService
use rvpay_go.Transactions.Service.{Call, outcome}

-- The error is a gRPC status.
unfoldable pub is_status : Err → Bool
is_status (status _ _) = true
is_status _ = false

-- A call fails with a status only.
abbrev pub Reports : {A : Type 0} → Action Db A → Type 0
Reports m = (db : Db) (e : Err) → (m db).0 ≡ err e → is_status e ≡ true

-- A chain reports if its parts do.
then_ :
    {A B : Type 0} (m : Action Db A) (f : A → Action Db B)
    → Reports m
    → ((a : A) → Reports (f a))
    → Reports (m >>= f)
then_ {A} {B} m f h k db e = go (m db) (h db e)
  where
    go :
        (r : Result A × Db)
        → (r.0 ≡ err e → is_status e ≡ true)
        → (elim r.0 as (λ _. Result B × Db) [ ok a ↦ f a r.1 | err x ↦ (err x, r.1) ]).0 ≡ err e
        → is_status e ≡ true
    go (ok a, v) p q = k a v e q
    go (err x, v) p q = let same : x ≡ e = ground arith in p (ap err same)

-- A reply made from what the call returned.
replies :
    {A B : Type 0} (m : Action Db A) (g : A → B) → Reports m → Reports (m >>= λ a. lift (ok (g a)))
replies m g h = then_ m (λ a. lift (ok (g a))) h (λ a db e q. absurd (ok≢err q))
  where
    ok≢err : {A : Type 0} {a : A} {e : Err} → ◌≡◌ {A = Result A} (ok a) (err e) → ⊥
    ok≢err q = cc

module _ (env : Env) where
  create_customer-Reports :
      (r : Option CustomerService.CreateCustomerRequest)
      → Reports (CustomerService.create_customer env r)
  unfolding CustomerService.create_customer CustomerService.create_customer_error is_status
  create_customer-Reports none db e h = ground arith
  create_customer-Reports (some r) db e h = ground arith

  get_customer-Reports : (r : Option String) → Reports (CustomerService.get_customer env r)
  unfolding CustomerService.get_customer CustomerService.get_customer_error is_status
  get_customer-Reports none db e h = ground arith
  get_customer-Reports (some r) db e h = ground arith

  create_merchant-Reports :
      (r : Option MerchantService.CreateMerchantRequest)
      → Reports (MerchantService.create_merchant env r)
  unfolding MerchantService.create_merchant MerchantService.create_merchant_error is_status
  create_merchant-Reports none db e h = ground arith
  create_merchant-Reports (some r) db e h = ground arith

  get_merchant-Reports : (r : Option String) → Reports (MerchantService.get_merchant env r)
  unfolding MerchantService.get_merchant MerchantService.get_merchant_error is_status
  get_merchant-Reports none db e h = ground arith
  get_merchant-Reports (some r) db e h = ground arith

  list_merchants-Reports :
      (r : Option (Option PaginationRequest)) → Reports (MerchantService.list_merchants env r)
  unfolding MerchantService.list_merchants is_status
  list_merchants-Reports none db e h = ground arith
  list_merchants-Reports (some r) db e h = ground arith

  check_deposit-Reports :
      (r : DepositService.CreateDepositRequest) → Reports (DepositService.check_deposit env r)
  unfolding DepositService.check_deposit validate_amount is_status
  check_deposit-Reports r db e h = ground arith

  place_deposit-Reports :
      (r : DepositService.DepositInput) → Reports (DepositService.place_deposit env r)
  unfolding DepositService.place_deposit DepositService.find_customer
      DepositService.store_for_customer DepositService.customer_lookup_error
      DepositService.create_deposit_error is_status
  place_deposit-Reports r db e h = ground arith

  initiate_deposit-Reports :
      (r : Option DepositService.CreateDepositRequest)
      → Reports (DepositService.initiate_deposit env r)
  unfolding DepositService.initiate_deposit is_status
  initiate_deposit-Reports none db e h = ground arith
  initiate_deposit-Reports (some r) db e h =
      then_ (DepositService.check_deposit env r)
        (λ i. DepositService.place_deposit env i >>= λ d. lift (ok (deposit_to_proto env d)))
        (check_deposit-Reports r)
        (λ i.
          replies (DepositService.place_deposit env i) (deposit_to_proto env)
            (place_deposit-Reports i))
        db e h

  get_deposit-Reports : (r : Option String) → Reports (DepositService.get_deposit env r)
  unfolding DepositService.get_deposit DepositService.get_deposit_error is_status
  get_deposit-Reports none db e h = ground arith
  get_deposit-Reports (some r) db e h = ground arith

  get_deposit_by_ghl-Reports :
      (r : Option String) → Reports (DepositService.get_deposit_by_ghl_transaction_id env r)
  unfolding DepositService.get_deposit_by_ghl_transaction_id DepositService.get_deposit_error
      is_status
  get_deposit_by_ghl-Reports none db e h = ground arith
  get_deposit_by_ghl-Reports (some r) db e h = ground arith

  check_payout-Reports :
      (r : PayoutService.CreatePayoutRequest) → Reports (PayoutService.check_payout env r)
  unfolding PayoutService.check_payout validate_amount is_status
  check_payout-Reports r db e h = ground arith

  place_payout-Reports :
      (r : PayoutService.PayoutInput) → Reports (PayoutService.place_payout env r)
  unfolding PayoutService.place_payout PayoutService.create_payout_error is_status
  place_payout-Reports r db e h = ground arith

  request_payout-Reports :
      (r : Option PayoutService.CreatePayoutRequest) → Reports (PayoutService.request_payout env r)
  unfolding PayoutService.request_payout is_status
  request_payout-Reports none db e h = ground arith
  request_payout-Reports (some r) db e h =
      then_ (PayoutService.check_payout env r)
        (λ i. PayoutService.place_payout env i >>= λ p. lift (ok (payout_to_proto env p)))
        (check_payout-Reports r)
        (λ i.
          replies (PayoutService.place_payout env i) (payout_to_proto env) (place_payout-Reports i))
        db e h

  get_payout-Reports : (r : Option String) → Reports (PayoutService.get_payout env r)
  unfolding PayoutService.get_payout PayoutService.get_payout_error is_status
  get_payout-Reports none db e h = ground arith
  get_payout-Reports (some r) db e h = ground arith

  verify_payment-Reports :
      (r : Option PaymentService.VerifyPaymentRequest)
      → Reports (PaymentService.verify_payment env r)
  unfolding PaymentService.verify_payment PaymentService.verify_payment_error is_status
  verify_payment-Reports none db e h = ground arith
  verify_payment-Reports (some r) db e h = ground arith

  process_payment_webhook-Reports :
      (r : Option PaymentService.ProcessPaymentWebhookRequest)
      → Reports (PaymentService.process_payment_webhook env r)
  unfolding PaymentService.process_payment_webhook PaymentService.record_charge is_status
  process_payment_webhook-Reports none db e h = ground arith
  process_payment_webhook-Reports (some r) db e h = ground arith

  -- Whatever the request, the tables and the faults of the server, a call that fails does so with a
  -- gRPC status: no error of the database or of a repository reaches the caller.
  pub outcome-Reports : (c : Call) → Reports (outcome env c)
  unfolding outcome
  outcome-Reports (Call.create_customer r) =
      replies (CustomerService.create_customer env r) (λ _. tt) (create_customer-Reports r)
  outcome-Reports (Call.get_customer r) =
      replies (CustomerService.get_customer env r) (λ _. tt) (get_customer-Reports r)
  outcome-Reports (Call.create_merchant r) =
      replies (MerchantService.create_merchant env r) (λ _. tt) (create_merchant-Reports r)
  outcome-Reports (Call.get_merchant r) =
      replies (MerchantService.get_merchant env r) (λ _. tt) (get_merchant-Reports r)
  outcome-Reports (Call.list_merchants r) =
      replies (MerchantService.list_merchants env r) (λ _. tt) (list_merchants-Reports r)
  outcome-Reports (Call.initiate_deposit r) =
      replies (DepositService.initiate_deposit env r) (λ _. tt) (initiate_deposit-Reports r)
  outcome-Reports (Call.get_deposit r) =
      replies (DepositService.get_deposit env r) (λ _. tt) (get_deposit-Reports r)
  outcome-Reports (Call.get_deposit_by_ghl_transaction_id r) =
      replies (DepositService.get_deposit_by_ghl_transaction_id env r) (λ _. tt)
        (get_deposit_by_ghl-Reports r)
  outcome-Reports (Call.request_payout r) =
      replies (PayoutService.request_payout env r) (λ _. tt) (request_payout-Reports r)
  outcome-Reports (Call.get_payout r) =
      replies (PayoutService.get_payout env r) (λ _. tt) (get_payout-Reports r)
  outcome-Reports (Call.verify_payment r) =
      replies (PaymentService.verify_payment env r) (λ _. tt) (verify_payment-Reports r)
  outcome-Reports (Call.process_payment_webhook r) =
      replies (PaymentService.process_payment_webhook env r) (λ _. tt)
        (process_payment_webhook-Reports r)
