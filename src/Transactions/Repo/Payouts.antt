-- ===== src/Transactions/Repo/Payouts.antt =====
-- transactions/db/repo/payout_repo.go.
use rvpay_go.Base.{String, List}
use rvpay_go.Base.Effect.{Action, map_err, wrap_error, wrap_not_found}
use rvpay_go.Transactions.Model.{Uuid, Numeric, PaymentProvider, PayoutStatus, Payout, Env, Db}
use rvpay_go.Transactions.Store.Payouts as Store

module _ (env : Env) where
  unfoldable pub create :
      Uuid
      → Uuid
      → Numeric
      → String
      → PaymentProvider
      → String
      → PayoutStatus
      → Uuid
      → Action Db Payout
  create client_id merchant_id amount currency provider destination status key =
      map_err wrap_error (
        Store.create_payout env (record {
          client_id = client_id;
          merchant_id = merchant_id;
          amount = amount;
          currency = currency;
          provider = provider;
          destination_reference = destination;
          status = status;
          idempotency_key = key;
        }))

  unfoldable pub get_by_id : Uuid → Action Db Payout
  get_by_id id = map_err wrap_not_found (Store.get_payout_by_id env id)

  unfoldable pub get_by_external_reference : String → Action Db Payout
  get_by_external_reference t =
      map_err wrap_not_found (Store.get_payout_by_external_reference env t)

  unfoldable pub get_by_idempotency_key : Uuid → Action Db Payout
  get_by_idempotency_key key = map_err wrap_not_found (Store.get_payout_by_idempotency_key env key)

  unfoldable pub list_by_client : Uuid → Action Db (List Payout)
  list_by_client id = map_err wrap_error (Store.list_payouts_by_client env id)

  unfoldable pub list_by_merchant : Uuid → Action Db (List Payout)
  list_by_merchant id = map_err wrap_error (Store.list_payouts_by_merchant env id)

  unfoldable pub list_by_status : PayoutStatus → Action Db (List Payout)
  list_by_status status = map_err wrap_error (Store.list_payouts_by_status env status)

  unfoldable pub update_status : Uuid → PayoutStatus → Action Db Payout
  update_status id status = map_err wrap_not_found (Store.update_payout_status env id status)

  unfoldable pub mark_completed : Uuid → PayoutStatus → Action Db Payout
  mark_completed id status =
      map_err wrap_not_found (Store.update_payout_status_and_completed_at env id status)

  unfoldable pub mark_failed : Uuid → PayoutStatus → String → Action Db Payout
  mark_failed id status reason =
      map_err wrap_not_found (Store.update_payout_status_and_failed_at env id status reason)
