-- ===== src/Transactions/Tests.antt =====
-- The transactions service on concrete databases: the data that its tests share.
mod Handlers
mod Runs
mod Payouts
mod Capture
use mathlib.Core.List.{Memᴰ}
use rvpay_go.Base.Pagination.{PaginationRequest, pos, take, ℤ}
use rvpay_go.Base.{
  ◌+◌, ◌≤◌, true, false, Option, none, some, List, [], ◌∷◌, ◌++◌, map, length, String, str_eq, ◌==◌,
  ◌≡◌, refl, ◌⊎◌, inl, if◌then◌else◌,
}
use rvpay_go.Base.Text
use rvpay_go.Base.Effect
use rvpay_go.Transactions.Convert
use rvpay_go.Transactions.Deposits
use rvpay_go.Transactions.Merchants
use rvpay_go.Transactions.Payouts.{CreatePayoutRequest, PayoutInput}
use rvpay_go.Transactions.Payments
use rvpay_go.Transactions.Store.Deposits as DepositStore
use rvpay_go.Transactions.Store.Customers as CustomerStore
use rvpay_go.Transactions.Store.Merchants as MerchantStore
use rvpay_go.Transactions.Store.Columns as Columns
use rvpay_go.Transactions.Repo.Deposits as DepositRepo
use rvpay_go.Transactions.Repo.Customers as CustomerRepo
use rvpay_go.Transactions.Repo.Merchants as MerchantRepo
use rvpay_go.Base.Text.{is_empty, trim_space, map_runes}
use rvpay_go.Base.Table.{find_row, any_row, order_rows, insert_row}
use rvpay_go.Base.Effect.{Err, other, Result, ok, err, invalid_argument, internal, status}
use rvpay_go.Transactions.Model.{
  Uuid, Numeric, Float, CustomerStatus, MerchantStatus, DepositStatus, PaymentProvider, PaymentType,
  GrpcPaymentType, GrpcProvider, GrpcDepositStatus, Merchant, Customer, DepositRow, Money, Env,
  Tables, Db,
}
use rvpay_go.Transactions.Convert.{
  DepositProto, validate_amount, merchant_to_proto, sqlc_payment_type_to_grpc,
  sqlc_payment_provider_to_grpc,
}
use rvpay_go.Transactions.Convert.Requests.{validate_amount_checked, payment_fields_round_trip}
use rvpay_go.Transactions.Store.Columns.{is_text}
use rvpay_go.Transactions.Store.Customers.{has_key}
use rvpay_go.Transactions.Store.Merchants.{}
use rvpay_go.Transactions.Change.{Change}
use rvpay_go.Transactions.Customers.{CreateCustomerRequest}
use rvpay_go.Transactions.Merchants.{
  CreateMerchantRequest, ListMerchantsResponse, list_merchants, page_bounds,
}
use rvpay_go.Transactions.Merchants.Pages.{list_merchants_reach, page_bounds_range}
use rvpay_go.Transactions.Deposits.{CreateDepositRequest, DepositInput, initiate_deposit}
use rvpay_go.Transactions.Deposits.Creation.{initiate_deposit_unseen}
use rvpay_go.Transactions.Payments.{
  VerifyPaymentRequest, VerifyPaymentResponse, ProcessPaymentWebhookRequest, interpret_status,
  verify_payment, process_payment_webhook,
}
use rvpay_go.Transactions.Payments.Verification.{verify_payment_found}
use rvpay_go.Transactions.Service.{Call, outcome, perform, run}
use rvpay_go.Transactions.Service.Refinement.{perform-Change}
use rvpay_go.Transactions.Service.Invariant.{IsConsistent, empty-IsConsistent, run-IsConsistent}
use rvpay_go.Transactions.Service.References.{AllFresh, run-AllFresh, verify_payment_never_replies}
use rvpay_go.Transactions.Service.Errors.{is_status, outcome-Reports}
use rvpay_go.Transactions.Service.History.{Keeps, run-Keeps}
use rvpay_go.Transactions.Service.Keys.{HasKeys, run-HasKeys}

-- Libraries: three UUIDs, every amount is five, and a NULL text is scanned as an empty string.
abbrev pub lenient : Env
lenient = record {
  parse_uuid = λ s.
      if str_eq s "client"
      then some 1
      else if str_eq s "merchant"
      then some 100
      else if str_eq s "customer"
      then some 101
      else none;
  uuid_string = λ id. if id == 100 then "merchant" else if id == 101 then "customer" else "uuid";
  upper_rune = λ c. c;
  scan_numeric = λ s. if str_eq s "5" then ok 5 else err (other "bad number");
  float64_value = λ n. ok (some (Float.number (pos n)));
  format_cents = λ f. "5.00";
  store_numeric = λ n. ok n;
  scan_text = λ o. elim o [ none ↦ ok "" | some s ↦ ok s ];
  error_text = λ e. "error";
  payment_type_text = λ t. "type";
  provider_text = λ p. "provider";
}

-- The same, but a NULL text is refused, as pgx does.
abbrev pub strict : Env
strict = record lenient {
  scan_text = λ o. elim o [ none ↦ err (other "cannot scan NULL into *string") | some s ↦ ok s ];
}

abbrev pub no_rows_yet : Tables
no_rows_yet = record { merchants = []; customers = []; deposits = []; payouts = [] }

abbrev pub database : Tables → Db
database t = record {
  tables = t;
  clock = λ n. n;
  new_uuid = λ n. 100 + n;
  fault = λ n. none;
  ticks = 0;
  drawn = 0;
}

abbrev pub shop : Call
shop = Call.create_merchant (some (record { name = "Shop"; slug = "shop" }))

abbrev pub buyer : Call
buyer =
    Call.create_customer
      (some (record { client_id = "client"; merchant_id = "merchant"; phone_number = "670000000" }))

abbrev pub order : CreateDepositRequest
order = record {
  client_id = "client";
  customer_id = "customer";
  merchant_id = "merchant";
  amount = some (record { amount = "5"; currency = " XAF " });
  payment_type = GrpcPaymentType.mmo;
  payer_phone_number = "670000000";
  provider = GrpcProvider.mtn_momo;
}

abbrev pub day : List Call
day = shop ∷ buyer ∷ Call.initiate_deposit (some order) ∷ []

-- A merchant, its customer, and a completed deposit that the provider knows.
abbrev pub the_merchant : Merchant
the_merchant = record {
  id = 100;
  name = "Shop";
  slug = "shop";
  status = MerchantStatus.active;
  created_at = 1;
  updated_at = 1;
}

abbrev pub the_customer : Customer
the_customer = record {
  id = 101;
  client_id = 1;
  merchant_id = 100;
  phone_number = "670000000";
  status = CustomerStatus.active;
  created_at = 1;
  updated_at = 1;
}

abbrev pub paid : DepositRow
paid = record {
  id = 102;
  client_id = 1;
  customer_id = 101;
  merchant_id = 100;
  amount = 5;
  currency = "XAF";
  payment_type = PaymentType.mmo;
  payer_phone_number = "670000000";
  provider = PaymentProvider.mtn_momo;
  status = DepositStatus.completed;
  external_reference = some "ext";
  idempotency_key = 103;
  initiated_at = 1;
  completed_at = some 2;
  failed_at = none;
  failure_reason = some "";
  created_at = 1;
  updated_at = 2;
  ghl_transaction_id = some "tx";
  ghl_charge_id = some "ch";
}

abbrev pub stocked : Tables
stocked = record {
  merchants = the_merchant ∷ [];
  customers = the_customer ∷ [];
  deposits = [];
  payouts = [];
}

abbrev pub with_payment : Tables
with_payment = record stocked { deposits = paid ∷ [] }

abbrev pub transaction : VerifyPaymentRequest
transaction = record { ghl_transaction_id = " tx "; ghl_charge_id = ""; subscription_id = "" }

abbrev pub no_deposits-AllFresh : AllFresh stocked
no_deposits-AllFresh d m = elim m [ ]

abbrev pub after_order : Db
after_order = (initiate_deposit lenient (some order) (database stocked)).1

abbrev pub receipt : DepositProto
receipt = record {
  id = "customer";
  client_id = "uuid";
  customer_id = "customer";
  merchant_id = "merchant";
  amount = record { amount = "5.00"; currency = "XAF" };
  payment_type = GrpcPaymentType.mmo;
  payer_phone_number = "670000000";
  provider = GrpcProvider.mtn_momo;
  status = GrpcDepositStatus.initiated;
  external_reference = "";
  initiated_at = 2;
  completed_at = none;
  failed_at = none;
  failure_reason = "";
  created_at = 2;
  updated_at = 2;
}

abbrev pub page : ListMerchantsResponse
page = record {
  merchants = merchant_to_proto lenient the_merchant ∷ [];
  next_page_token = "";
  total_count = 1;
}

abbrev pub after_page : Db
after_page = (list_merchants lenient (some none) (database stocked)).1

abbrev pub success : VerifyPaymentResponse
success = record { success = true; failed = false }

abbrev pub buyer_again : CreateCustomerRequest
buyer_again = record { client_id = "client"; merchant_id = "merchant"; phone_number = " 670000000" }

-- What the checks make of the order.
abbrev pub order_input : DepositInput
order_input = record {
  client_id = 1;
  customer_id = 101;
  merchant_id = 100;
  amount = 5;
  currency = "XAF";
  payment_type = PaymentType.mmo;
  phone_number = "670000000";
  provider = PaymentProvider.mtn_momo;
}

abbrev pub withdrawal : CreatePayoutRequest
withdrawal = record {
  client_id = "client";
  merchant_id = "merchant";
  amount = some (record { amount = "5"; currency = "XAF" });
  provider = GrpcProvider.orange_momo;
  destination_reference = "dest ";
}

abbrev pub withdrawal_input : PayoutInput
withdrawal_input = record {
  client_id = 1;
  merchant_id = 100;
  amount = 5;
  currency = "XAF";
  provider = PaymentProvider.orange_momo;
  destination_reference = "dest";
}

abbrev pub captured : ProcessPaymentWebhookRequest
captured = record { event_type = "payment.captured "; transaction_id = "tx"; charge_id = "ch2" }
