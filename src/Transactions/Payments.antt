-- ===== src/Transactions/Payments.antt =====
-- transactions/payments/service.go: payment verification and the payment webhook.
pub mod Verification
pub mod Capture
use rvpay_go.Base.{String, Bool, true, false, not, ◌&&◌, Option, none, some, str_eq, if◌then◌else◌}
use rvpay_go.Base.Text.{is_empty, trim_space}
use rvpay_go.Base.Effect.{
  invalid_argument, not_found, failed_precondition, internal, Err, status, err_not_found, Result,
  ok, err, Action, lift, raise, raise_if, map_err, try, ◌>>=◌, ◌>>◌,
}
use rvpay_go.Transactions.Model.{DepositStatus, Deposit, Env, Db}
use rvpay_go.Transactions.Repo.Deposits as DepositRepo

pub record VerifyPaymentRequest : Type 0 where
  pub ghl_transaction_id : String
  pub ghl_charge_id : String
  pub subscription_id : String

pub record VerifyPaymentResponse : Type 0 where
  pub success : Bool
  pub failed : Bool

pub record ProcessPaymentWebhookRequest : Type 0 where
  pub event_type : String
  pub transaction_id : String
  pub charge_id : String

-- The switch on `deposit.Status`.
unfoldable pub interpret_status : DepositStatus → VerifyPaymentResponse
interpret_status DepositStatus.completed = record { success = true; failed = false }
interpret_status DepositStatus.failed = record { success = false; failed = true }
interpret_status _ = record { success = false; failed = false }

unfoldable pub verify_payment_error : Err → Err
verify_payment_error err_not_found = status not_found "transaction not found"
verify_payment_error _ = status internal "could not verify payment"

-- The outcome of one lookup: the deposit, an error other than `ErrNotFound`, or the next lookup.
unfoldable pub or_else : Action Db Deposit → Result Deposit → Action Db Deposit
or_else next (err err_not_found) = next
or_else next r = lift r

module _ (env : Env) where
  unfoldable pub resolve_by_charge : String → Action Db Deposit
  unfolding or_else
  resolve_by_charge charge =
      if is_empty charge
      then raise err_not_found
      else (try (DepositRepo.get_by_ghl_charge_id env charge) >>= or_else (raise err_not_found))

  unfoldable pub resolve_deposit : String → String → Action Db Deposit
  unfolding or_else
  resolve_deposit transaction charge =
      if is_empty transaction
      then resolve_by_charge charge
      else (try (DepositRepo.get_by_ghl_transaction_id env transaction)
          >>= or_else (resolve_by_charge charge))

  unfoldable pub verify_payment : Option VerifyPaymentRequest → Action Db VerifyPaymentResponse
  verify_payment none = raise (status invalid_argument "verify payment request is required")
  verify_payment (some req) = do
    let transaction = trim_space req.ghl_transaction_id
    let charge = trim_space req.ghl_charge_id
    raise_if (not (is_empty (trim_space req.subscription_id)))
        (status failed_precondition "subscription payments are not supported")
    raise_if (is_empty transaction && is_empty charge)
        (status invalid_argument "ghl_transaction_id or ghl_charge_id is required")
    deposit ← map_err verify_payment_error (resolve_deposit transaction charge)
    lift (ok (interpret_status deposit.status))

  -- The part from the correlation on: an unknown transaction is acknowledged.
  unfoldable pub record_charge :
      ProcessPaymentWebhookRequest → Result Deposit → Action Db (Unit {0})
  record_charge req (err err_not_found) = lift (ok tt)
  record_charge req (err _) = raise (status internal "could not correlate payment event")
  record_charge req (ok deposit) =
      if is_empty req.charge_id
      then lift (ok tt)
      else (map_err (λ _. status internal "could not record payment reference")
            (DepositRepo.update_ghl_reference env deposit.id req.transaction_id req.charge_id)
          >>= λ _. lift (ok tt))

  unfoldable pub process_payment_webhook :
      Option ProcessPaymentWebhookRequest → Action Db (Unit {0})
  process_payment_webhook none =
      raise (status invalid_argument "payment webhook request is required")
  process_payment_webhook (some req) =
      let event_type = trim_space req.event_type in
      if is_empty event_type
      then raise (status invalid_argument "event_type is required")
      else if not (str_eq event_type "payment.captured")
      then lift (ok tt)
      else if is_empty (trim_space req.transaction_id)
      then lift (ok tt)
      else (try (DepositRepo.get_by_ghl_transaction_id env req.transaction_id)
          >>= record_charge req)
