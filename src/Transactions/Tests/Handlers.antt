-- ===== src/Transactions/Tests/Handlers.antt =====
-- The handlers of the transactions service on concrete requests.
use rvpay_go.Base.Pagination.{pos, take, drop}
use rvpay_go.Transactions.Tests.{
  order_input, lenient, strict, no_rows_yet, database, order, the_merchant, the_customer, paid,
  stocked, with_payment, transaction, receipt, page, after_page, success, buyer_again,
}
use mathlib.Core.List.{Memᴰ}
use rvpay_go.Base.{ℕ, ◌↔◌, ◌≤◌, true, false, none, some, [], ◌∷◌, ◌++◌, map, String, ◌≡◌, refl, ◌⊎◌}
use rvpay_go.Base.Text
use rvpay_go.Base.Effect
use rvpay_go.Transactions.Convert
use rvpay_go.Transactions.Model
use rvpay_go.Transactions.Deposits
use rvpay_go.Transactions.Merchants
use rvpay_go.Transactions.Payments
use rvpay_go.Transactions.Store.Deposits as DepositStore
use rvpay_go.Transactions.Store.Customers as CustomerStore
use rvpay_go.Transactions.Store.Merchants as MerchantStore
use rvpay_go.Transactions.Store.Columns as Columns
use rvpay_go.Transactions.Repo.Deposits as DepositRepo
use rvpay_go.Transactions.Repo.Customers as CustomerRepo
use rvpay_go.Transactions.Repo.Merchants as MerchantRepo
use rvpay_go.Base.Text.{is_empty, trim_space, map_runes}
use rvpay_go.Base.Table.{find_row, any_row, order_rows, insert_row}
use rvpay_go.Base.Effect.{
  Err, other, Result, ok, err, invalid_argument, internal, not_found, already_exists, status,
}
use rvpay_go.Transactions.Model.{
  Uuid, Numeric, Float, DepositStatus, PaymentProvider, PaymentType, GrpcPaymentType, GrpcProvider,
  GrpcDepositStatus, Merchant, Customer, DepositRow, Money,
}
use rvpay_go.Transactions.Convert.{
  DepositProto, validate_amount, merchant_to_proto, sqlc_payment_type_to_grpc,
  sqlc_payment_provider_to_grpc,
}
use rvpay_go.Transactions.Convert.Requests.{
  IsAmount, validate_amount_checked, payment_fields_round_trip,
}
use rvpay_go.Transactions.Store.Columns.{is_text}
use rvpay_go.Transactions.Store.Customers.{has_key}
use rvpay_go.Transactions.Merchants.{
  CreateMerchantRequest, ListMerchantsResponse, list_merchants, page_bounds,
}
use rvpay_go.Transactions.Merchants.Pages.{IsOrdered, list_merchants_reach, page_bounds_range}
use rvpay_go.Transactions.Deposits.{CreateDepositRequest, check_deposit, initiate_deposit}
use rvpay_go.Transactions.Deposits.Acceptance.{row_of, initiate_deposit_accepted}
use rvpay_go.Transactions.Deposits.Refusal.{initiate_deposit_unknown}
use rvpay_go.Transactions.Customers.{create_customer}
use rvpay_go.Transactions.Customers.Duplicate.{create_customer_duplicate}
use rvpay_go.Transactions.Deposits.Creation.{initiate_deposit_unseen}
use rvpay_go.Transactions.Deposits.Storing.{IsRequested, initiate_deposit_stored}
use rvpay_go.Transactions.Payments.{
  VerifyPaymentRequest, VerifyPaymentResponse, ProcessPaymentWebhookRequest, interpret_status,
  verify_payment, process_payment_webhook,
}
use rvpay_go.Transactions.Payments.Verification.{verify_payment_found}

order_placed : (initiate_deposit lenient (some order) (database stocked)).0 ≡ ok receipt
unfolding Deposits.initiate_deposit Deposits.check_deposit Convert.validate_amount
    Model.not_positive Convert.grpc_payment_type_to_sqlc Convert.grpc_provider_to_sqlc
    Text.trim_space Text.map_runes Deposits.place_deposit Deposits.find_customer
    Deposits.store_for_customer Deposits.create_deposit_error Effect.wrap_error
    CustomerRepo.get_by_client_and_merchant_and_phone
    CustomerStore.get_customer_by_client_and_merchant_and_phone find_row any_row DepositRepo.create
    DepositStore.create_deposit DepositStore.store_deposit DepositStore.insert_deposit
    DepositStore.deposit_refusal DepositStore.scan_deposit Columns.is_currency Columns.is_over_three
    Convert.deposit_to_proto Convert.amount_text Convert.sqlc_deposit_status_to_grpc
    Convert.sqlc_payment_type_to_grpc Convert.sqlc_payment_provider_to_grpc
order_placed = refl

payment_verified :
    verify_payment strict (some transaction) (database with_payment)
    ≡ (ok success, record (database with_payment) { ticks = 1 })
unfolding Payments.verify_payment Payments.interpret_status Payments.resolve_deposit
    Payments.or_else Text.trim_space DepositRepo.get_by_ghl_transaction_id
    DepositStore.get_deposit_by_ghl_transaction_id DepositStore.select_deposit
    DepositStore.find_deposit DepositStore.scan_deposit find_row
payment_verified = refl

page_listed : (list_merchants lenient (some none) (database stocked)).0 ≡ ok page
unfolding Merchants.list_merchants Merchants.page_bounds MerchantRepo.list MerchantRepo.count
    MerchantStore.list_merchants MerchantStore.count_merchants order_rows insert_row
    Convert.merchant_to_proto
page_listed = refl

verify_payment_found_example :
    (is_empty (trim_space "") ≡ true)
    × (with_payment ≡ with_payment)
    × ((row : DepositRow) × Memᴰ row (paid ∷ [])
        × ((is_text row.ghl_transaction_id (trim_space " tx ") ≡ true)
            ⊎ (is_text row.ghl_charge_id (trim_space "") ≡ true))
        × (success ≡ interpret_status row.status))
verify_payment_found_example =
    verify_payment_found strict transaction (database with_payment) payment_verified

initiate_deposit_unseen_example :
    ¬ ((initiate_deposit strict (some order) (database stocked)).0 ≡ ok receipt)
initiate_deposit_unseen_example =
    initiate_deposit_unseen strict (some order) (database stocked) refl receipt

initiate_deposit_stored_example :
    ((initiate_deposit strict (some order) (database stocked)).1.tables ≡ stocked)
      × ((r : DepositProto)
          → ¬ ((initiate_deposit strict (some order) (database stocked)).0 ≡ ok r))
    ⊎ ((row : DepositRow) × (c : Customer) × (find_row
            (has_key row.client_id row.merchant_id row.payer_phone_number)
            (the_customer ∷ [])
          ≡ some c)
        × IsRequested strict order c row
        × ((initiate_deposit strict (some order) (database stocked)).1.tables
            ≡ record stocked { deposits = row ∷ [] }))
initiate_deposit_stored_example = initiate_deposit_stored strict order (database stocked)

list_merchants_reach_example :
    IsOrdered (order_rows Merchant.created_at (the_merchant ∷ []))
    × (size : ℕ) × (offset : ℕ) × (page_bounds none ≡ (size, offset))
    × (size ≤ 100)
    × ((offset ≡ 0) ⊎ (offset ≡ size))
    × (page.merchants
        ≡ map
            (merchant_to_proto lenient)
            (take size (drop offset (order_rows Merchant.created_at (the_merchant ∷ [])))))
    × ((m : Merchant)
        → Memᴰ m (take size (drop offset (order_rows Merchant.created_at (the_merchant ∷ []))))
        → Memᴰ m (take 200 (order_rows Merchant.created_at (the_merchant ∷ []))))
    × (page.total_count ≡ 1)
list_merchants_reach_example =
    list_merchants_reach lenient none (database stocked) (λ i. (page_listed i, after_page))

page_bounds_range_example :
    (1 ≤ (page_bounds (some (record { page_size = pos 500; page_token = "next" }))).0)
    × ((page_bounds (some (record { page_size = pos 500; page_token = "next" }))).0 ≤ 100)
    × (((page_bounds (some (record { page_size = pos 500; page_token = "next" }))).1 ≡ 0)
        ⊎ ((page_bounds (some (record { page_size = pos 500; page_token = "next" }))).1
            ≡ (page_bounds (some (record { page_size = pos 500; page_token = "next" }))).0))
page_bounds_range_example =
    page_bounds_range (some (record { page_size = pos 500; page_token = "next" }))

abbrev five : Money
five = record { amount = "5"; currency = "XAF" }

validate_amount_checked_example :
    ((a : Numeric)
      → (validate_amount lenient "deposit" (some five) ≡ ok a) ↔ IsAmount lenient (some five) a)
    × ((e : Err)
        → validate_amount lenient "deposit" (some five) ≡ err e
        → (text : String) × (e ≡ status invalid_argument text))
validate_amount_checked_example = validate_amount_checked lenient "deposit" (some five)

payment_fields_round_trip_example :
    (sqlc_payment_type_to_grpc PaymentType.mmo ≡ GrpcPaymentType.mmo)
    × (sqlc_payment_provider_to_grpc PaymentProvider.mtn_momo ≡ GrpcProvider.mtn_momo)
unfolding Convert.grpc_payment_type_to_sqlc Convert.grpc_provider_to_sqlc
payment_fields_round_trip_example =
    payment_fields_round_trip lenient GrpcPaymentType.mmo GrpcProvider.mtn_momo refl refl

unregistered-has_no_customer : find_row (has_key 1 100 "670000000") [] ≡ none
unfolding find_row
unregistered-has_no_customer = refl

order_checked : check_deposit lenient order (database no_rows_yet) ≡ (
  ok (record {
    client_id = 1;
    customer_id = 101;
    merchant_id = 100;
    amount = 5;
    currency = "XAF";
    payment_type = PaymentType.mmo;
    phone_number = "670000000";
    provider = PaymentProvider.mtn_momo;
  }),
  database no_rows_yet,
)
unfolding Deposits.check_deposit Convert.validate_amount Model.not_positive
    Convert.grpc_payment_type_to_sqlc Convert.grpc_provider_to_sqlc Text.trim_space Text.map_runes
order_checked = refl

initiate_deposit_unknown_example :
    ((initiate_deposit lenient (some order) (database no_rows_yet)).0
      ≡ err
          (status not_found "customer not found for the given client, merchant, and phone number"))
    × ((initiate_deposit lenient (some order) (database no_rows_yet)).1.tables ≡ no_rows_yet)
initiate_deposit_unknown_example =
    initiate_deposit_unknown lenient order (database no_rows_yet) order_checked
      unregistered-has_no_customer refl

buyer_known : any_row (has_key 1 100 (trim_space " 670000000")) (the_customer ∷ []) ≡ true
unfolding any_row trim_space
buyer_known = refl

buyer_has_phone : is_empty (trim_space " 670000000") ≡ false
unfolding trim_space
buyer_has_phone = refl

create_customer_duplicate_example :
    ((create_customer strict (some buyer_again) (database stocked)).0
      ≡ err (status already_exists "customer already exists"))
    × ((create_customer strict (some buyer_again) (database stocked)).1.tables ≡ stocked)
create_customer_duplicate_example =
    create_customer_duplicate strict buyer_again (database stocked) refl refl buyer_has_phone
      buyer_known refl

order_checked_strictly :
    check_deposit strict order (database stocked) ≡ (ok order_input, database stocked)
unfolding Deposits.check_deposit Convert.validate_amount Model.not_positive
    Convert.grpc_payment_type_to_sqlc Convert.grpc_provider_to_sqlc Text.trim_space Text.map_runes
order_checked_strictly = refl

order_customer : find_row (has_key 1 100 "670000000") (the_customer ∷ []) ≡ some the_customer
unfolding find_row
order_customer = refl

order_admitted :
    DepositStore.deposit_refusal (row_of order_input the_customer 5 (database stocked)) stocked
    ≡ none
unfolding DepositStore.deposit_refusal Columns.is_currency Columns.is_over_three any_row
order_admitted = refl

initiate_deposit_accepted_example :
    (initiate_deposit strict (some order) (database stocked)).1.deposits
    ≡ [] ++ row_of order_input the_customer 5 (database stocked) ∷ []
initiate_deposit_accepted_example =
    initiate_deposit_accepted strict order (database stocked) order_checked_strictly order_customer
      refl order_admitted refl refl
