-- ===== src/Transactions/Payments/Capture.antt =====
-- What `ProcessPaymentWebhook` (transactions/payments/service.go) records, whatever the event.
use rvpay_go.Base.{
  true, false, some, suc, str_eq, ◌==◌, ◌≡◌, ◌⊎◌, inl, inr, arith, Bool-cases, Option-cases, refl,
  eq_iff,
}
use rvpay_go.Base.Text.{is_empty, trim_space}
use rvpay_go.Base.Table.{find_row, update_rows}
use rvpay_go.Base.Effect.{Result-cases, ok, err, err_not_found, wrap_not_found}
use rvpay_go.Transactions.Model.{Time, DepositRow, Tables, Env, Db}
use rvpay_go.Transactions.Store.Columns.{is_text}
use rvpay_go.Transactions.Store.Deposits.{
  get_deposit_by_ghl_transaction_id, select_deposit, find_deposit, scan_deposit,
  update_deposit_ghl_reference, update_deposit, modify_deposit,
}
use rvpay_go.Transactions.Repo.Deposits as DepositRepo
use rvpay_go.Transactions.Payments.{
  ProcessPaymentWebhookRequest, record_charge, process_payment_webhook,
}

-- The deposits after one of them got the references of a charge: no other row and no other column
-- differs.
abbrev pub charged : ProcessPaymentWebhookRequest → DepositRow → Time → Tables → Tables
charged req row now t = record t {
  deposits =
      update_rows (λ d. d.id == row.id)
        (λ d. record {
          id = d.id;
          client_id = d.client_id;
          customer_id = d.customer_id;
          merchant_id = d.merchant_id;
          amount = d.amount;
          currency = d.currency;
          payment_type = d.payment_type;
          payer_phone_number = d.payer_phone_number;
          provider = d.provider;
          status = d.status;
          external_reference = d.external_reference;
          idempotency_key = d.idempotency_key;
          initiated_at = d.initiated_at;
          completed_at = d.completed_at;
          failed_at = d.failed_at;
          failure_reason = d.failure_reason;
          created_at = d.created_at;
          updated_at = now;
          ghl_transaction_id = some req.transaction_id;
          ghl_charge_id = some req.charge_id;
        })
        t.deposits;
}

-- The event is a captured payment with a transaction and a charge.
abbrev pub IsCharge : ProcessPaymentWebhookRequest → Type 0
IsCharge req =
    (str_eq (trim_space req.event_type) "payment.captured" ≡ true)
    × (is_empty (trim_space req.transaction_id) ≡ false)
    × (is_empty req.charge_id ≡ false)

module _ (env : Env) where
  -- Without a charge, nothing is run after the lookup.
  uncharged :
      (req : ProcessPaymentWebhookRequest) (db : Db)
      → str_eq (trim_space req.event_type) "payment.captured" ≡ true
      → is_empty (trim_space req.event_type) ≡ false
      → is_empty (trim_space req.transaction_id) ≡ false
      → is_empty req.charge_id ≡ true
      → (process_payment_webhook env (some req) db).1.tables ≡ db.tables
  unfolding process_payment_webhook record_charge DepositRepo.get_by_ghl_transaction_id
      get_deposit_by_ghl_transaction_id select_deposit find_deposit scan_deposit wrap_not_found
  uncharged req db e n b c = ground arith

  -- What happens to an event with a transaction and a charge, below.
  capture_outcome :
      (req : ProcessPaymentWebhookRequest) (db : Db)
      → str_eq (trim_space req.event_type) "payment.captured" ≡ true
      → is_empty (trim_space req.transaction_id) ≡ false
      → is_empty req.charge_id ≡ false
      → ((row : DepositRow) × IsCharge req
          × (find_row (λ x. is_text x.ghl_transaction_id req.transaction_id) db.deposits ≡ some row)
          × ((process_payment_webhook env (some req) db).1.tables
              ≡ charged req row (db.clock (suc (suc db.ticks))) db.tables))
        ⊎ (((process_payment_webhook env (some req) db).1.tables ≡ db.tables)
            × ((process_payment_webhook env (some req) db).0 ≡ ok tt
                → IsCharge req
                → (DepositRepo.get_by_ghl_transaction_id env req.transaction_id db).0
                  ≡ err err_not_found))
  unfolding process_payment_webhook record_charge DepositRepo.get_by_ghl_transaction_id
      get_deposit_by_ghl_transaction_id select_deposit find_deposit scan_deposit
      DepositRepo.update_ghl_reference update_deposit_ghl_reference update_deposit modify_deposit
      wrap_not_found
  capture_outcome req db e b c =
      let n : is_empty (trim_space req.event_type) ≡ false =
        rw ((eq_iff (trim_space req.event_type) "payment.captured").0 e) refl in
      elim (Option-cases
        (find_row (λ x. is_text x.ghl_transaction_id req.transaction_id) db.deposits)) [
          | inl z ↦ inr (ground arith, λ h k. ground arith)
          | inr (row, found) ↦ elim (Option-cases (db.fault db.ticks)) [
            | inr (x, f) ↦ inr (ground arith, λ h k. ground arith)
            | inl f ↦ elim (Result-cases (env.scan_text row.external_reference)) [
              | inr (x, q) ↦ inr (ground arith, λ h k. ground arith)
              | inl (s, q) ↦ elim (Result-cases (env.scan_text row.failure_reason)) [
                | inr (x, q2) ↦ inr (ground arith, λ h k. ground arith)
                | inl (s2, q2) ↦ elim (Result-cases (env.scan_text row.ghl_transaction_id)) [
                  | inr (x, q3) ↦ inr (ground arith, λ h k. ground arith)
                  | inl (s3, q3) ↦ elim (Result-cases (env.scan_text row.ghl_charge_id)) [
                    | inr (x, q4) ↦ inr (ground arith, λ h k. ground arith)
                    | inl (s4, q4) ↦ elim (Option-cases (db.fault (suc db.ticks))) [
                      | inr (x, f2) ↦ inr (ground arith, λ h k. ground arith)
                      | inl f2 ↦ elim (Option-cases (find_row (λ d. d.id == row.id) db.deposits)) [
                        | inl z ↦ inr (ground arith, λ h k. ground arith)
                        | inr (kept, there) ↦ inl (row, (e, b, c), found, ground arith)
                      ]
                    ]
                  ]
                ]
              ]
            ]
          ]
        ]

  -- Whatever the event and whatever the server refuses, either the event is a captured payment with
  -- a transaction and a charge, the transaction is that of a stored deposit, and of all tables only
  -- the GoHighLevel references and the update time of the deposit with that deposit's id change, or
  -- no table changes; where no table changes and such an event is acknowledged, the repository has
  -- reported that no deposit has its transaction.
  pub process_payment_webhook_captured :
      (req : ProcessPaymentWebhookRequest) (db : Db)
      → ((row : DepositRow) × IsCharge req
          × (find_row (λ x. is_text x.ghl_transaction_id req.transaction_id) db.deposits ≡ some row)
          × ((process_payment_webhook env (some req) db).1.tables
              ≡ charged req row (db.clock (suc (suc db.ticks))) db.tables))
        ⊎ (((process_payment_webhook env (some req) db).1.tables ≡ db.tables)
            × ((process_payment_webhook env (some req) db).0 ≡ ok tt
                → IsCharge req
                → (DepositRepo.get_by_ghl_transaction_id env req.transaction_id db).0
                  ≡ err err_not_found))
  unfolding process_payment_webhook
  process_payment_webhook_captured req db =
      elim (Bool-cases (str_eq (trim_space req.event_type) "payment.captured")) [
        | inr e ↦ inr (ground arith, λ h k. ground arith)
        | inl e ↦
            let n : is_empty (trim_space req.event_type) ≡ false =
              rw ((eq_iff (trim_space req.event_type) "payment.captured").0 e) refl in
            elim (Bool-cases (is_empty (trim_space req.transaction_id))) [
              | inl b ↦ inr (ground arith, λ h k. ground arith)
              | inr b ↦ elim (Bool-cases (is_empty req.charge_id)) [
                | inl c ↦ inr (uncharged req db e n b c, λ h k. ground arith)
                | inr c ↦ capture_outcome req db e b c
              ]
            ]
      ]
