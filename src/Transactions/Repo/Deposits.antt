-- ===== src/Transactions/Repo/Deposits.antt =====
-- transactions/db/repo/deposit_repo.go.
use rvpay_go.Base.{String, List}
use rvpay_go.Base.Effect.{Action, map_err, wrap_error, wrap_not_found}
use rvpay_go.Transactions.Model.{
  Uuid, Numeric, PaymentProvider, PaymentType, DepositStatus, Deposit, Env, Db,
}
use rvpay_go.Transactions.Store.Deposits as Store

module _ (env : Env) where
  unfoldable pub create :
      Uuid
      → Uuid
      → Uuid
      → Numeric
      → String
      → PaymentType
      → String
      → PaymentProvider
      → DepositStatus
      → Uuid
      → Action Db Deposit
  create client_id customer_id merchant_id amount currency payment_type phone provider status key =
      map_err wrap_error (
        Store.create_deposit env (record {
          client_id = client_id;
          customer_id = customer_id;
          merchant_id = merchant_id;
          amount = amount;
          currency = currency;
          payment_type = payment_type;
          payer_phone_number = phone;
          provider = provider;
          status = status;
          idempotency_key = key;
        }))

  unfoldable pub get_by_id : Uuid → Action Db Deposit
  get_by_id id = map_err wrap_not_found (Store.get_deposit_by_id env id)

  unfoldable pub get_by_external_reference : String → Action Db Deposit
  get_by_external_reference t =
      map_err wrap_not_found (Store.get_deposit_by_external_reference env t)

  unfoldable pub get_by_ghl_transaction_id : String → Action Db Deposit
  get_by_ghl_transaction_id t =
      map_err wrap_not_found (Store.get_deposit_by_ghl_transaction_id env t)

  unfoldable pub get_by_ghl_charge_id : String → Action Db Deposit
  get_by_ghl_charge_id t = map_err wrap_not_found (Store.get_deposit_by_ghl_charge_id env t)

  unfoldable pub get_by_idempotency_key : Uuid → Action Db Deposit
  get_by_idempotency_key key = map_err wrap_not_found (Store.get_deposit_by_idempotency_key env key)

  unfoldable pub list_by_client : Uuid → Action Db (List Deposit)
  list_by_client id = map_err wrap_error (Store.list_deposits_by_client env id)

  unfoldable pub list_by_customer : Uuid → Action Db (List Deposit)
  list_by_customer id = map_err wrap_error (Store.list_deposits_by_customer env id)

  unfoldable pub list_by_merchant : Uuid → Action Db (List Deposit)
  list_by_merchant id = map_err wrap_error (Store.list_deposits_by_merchant env id)

  unfoldable pub list_by_status : DepositStatus → Action Db (List Deposit)
  list_by_status status = map_err wrap_error (Store.list_deposits_by_status env status)

  unfoldable pub update_status : Uuid → DepositStatus → Action Db Deposit
  update_status id status = map_err wrap_not_found (Store.update_deposit_status env id status)

  unfoldable pub mark_completed : Uuid → DepositStatus → Action Db Deposit
  mark_completed id status =
      map_err wrap_not_found (Store.update_deposit_status_and_completed_at env id status)

  unfoldable pub mark_failed : Uuid → DepositStatus → String → Action Db Deposit
  mark_failed id status reason =
      map_err wrap_not_found (Store.update_deposit_status_and_failed_at env id status reason)

  unfoldable pub update_ghl_reference : Uuid → String → String → Action Db Deposit
  update_ghl_reference id transaction charge =
      map_err wrap_not_found (Store.update_deposit_ghl_reference env id transaction charge)
