-- ===== src/Transactions/Convert.antt =====
-- The converters of transactions/{customers,merchants,deposits,payouts}/converters.go, and the
-- validation that the deposit and payout services share in form (service.go of both).
pub mod Requests
use Prim.Native.String.{◌++◌ as str_append}
use rvpay_go.Base.{String, Option, none, some, if◌then◌else◌}
use rvpay_go.Base.Effect.{invalid_argument, Err, status, Result, ok, err}
use rvpay_go.Transactions.Model.{not_positive}
use rvpay_go.Transactions.Model.{
  Time, Numeric, CustomerStatus, MerchantStatus, DepositStatus, PayoutStatus, PaymentProvider,
  PaymentType, GrpcPaymentType, GrpcProvider, GrpcDepositStatus, GrpcPayoutStatus,
  GrpcCustomerStatus, GrpcMerchantStatus, Merchant, Customer, Deposit, Payout, Money, Env,
}

unfoldable pub sqlc_deposit_status_to_grpc : DepositStatus → GrpcDepositStatus
sqlc_deposit_status_to_grpc DepositStatus.initiated = GrpcDepositStatus.initiated
sqlc_deposit_status_to_grpc DepositStatus.processing = GrpcDepositStatus.processing
sqlc_deposit_status_to_grpc DepositStatus.completed = GrpcDepositStatus.completed
sqlc_deposit_status_to_grpc DepositStatus.failed = GrpcDepositStatus.failed
sqlc_deposit_status_to_grpc (DepositStatus.unknown _) = GrpcDepositStatus.unspecified

unfoldable pub sqlc_payout_status_to_grpc : PayoutStatus → GrpcPayoutStatus
sqlc_payout_status_to_grpc PayoutStatus.requested = GrpcPayoutStatus.requested
sqlc_payout_status_to_grpc PayoutStatus.processing = GrpcPayoutStatus.processing
sqlc_payout_status_to_grpc PayoutStatus.completed = GrpcPayoutStatus.completed
sqlc_payout_status_to_grpc PayoutStatus.failed = GrpcPayoutStatus.failed
sqlc_payout_status_to_grpc (PayoutStatus.unknown _) = GrpcPayoutStatus.unspecified

unfoldable pub sqlc_customer_status_to_grpc : CustomerStatus → GrpcCustomerStatus
sqlc_customer_status_to_grpc CustomerStatus.created = GrpcCustomerStatus.created
sqlc_customer_status_to_grpc CustomerStatus.active = GrpcCustomerStatus.active
sqlc_customer_status_to_grpc (CustomerStatus.unknown _) = GrpcCustomerStatus.unspecified

unfoldable pub sqlc_merchant_status_to_grpc : MerchantStatus → GrpcMerchantStatus
sqlc_merchant_status_to_grpc MerchantStatus.onboarded = GrpcMerchantStatus.onboarded
sqlc_merchant_status_to_grpc MerchantStatus.active = GrpcMerchantStatus.active
sqlc_merchant_status_to_grpc MerchantStatus.suspended = GrpcMerchantStatus.suspended
sqlc_merchant_status_to_grpc MerchantStatus.retired = GrpcMerchantStatus.retired
sqlc_merchant_status_to_grpc (MerchantStatus.unknown _) = GrpcMerchantStatus.unspecified

unfoldable pub sqlc_payment_type_to_grpc : PaymentType → GrpcPaymentType
sqlc_payment_type_to_grpc PaymentType.mmo = GrpcPaymentType.mmo
sqlc_payment_type_to_grpc PaymentType.credit_card = GrpcPaymentType.credit_card
sqlc_payment_type_to_grpc (PaymentType.unknown _) = GrpcPaymentType.unspecified

unfoldable pub sqlc_payment_provider_to_grpc : PaymentProvider → GrpcProvider
sqlc_payment_provider_to_grpc PaymentProvider.mtn_momo = GrpcProvider.mtn_momo
sqlc_payment_provider_to_grpc PaymentProvider.orange_momo = GrpcProvider.orange_momo
sqlc_payment_provider_to_grpc (PaymentProvider.unknown _) = GrpcProvider.unspecified

-- `transactionsgrpc.Customer` and `transactionsgrpc.Merchant`.
pub record CustomerProto : Type 0 where
  pub id : String
  pub client_id : String
  pub merchant_id : String
  pub phone_number : String
  pub status : GrpcCustomerStatus
  pub created_at : Time
  pub updated_at : Time

pub record MerchantProto : Type 0 where
  pub id : String
  pub name : String
  pub slug : String
  pub status : GrpcMerchantStatus
  pub created_at : Time
  pub updated_at : Time

-- `transactionsgrpc.Deposit`.
pub record DepositProto : Type 0 where
  pub id : String
  pub client_id : String
  pub customer_id : String
  pub merchant_id : String
  pub amount : Money
  pub payment_type : GrpcPaymentType
  pub payer_phone_number : String
  pub provider : GrpcProvider
  pub status : GrpcDepositStatus
  pub external_reference : String
  pub initiated_at : Time
  pub completed_at : Option Time
  pub failed_at : Option Time
  pub failure_reason : String
  pub created_at : Time
  pub updated_at : Time

-- `transactionsgrpc.Payout`.
pub record PayoutProto : Type 0 where
  pub id : String
  pub client_id : String
  pub merchant_id : String
  pub amount : Money
  pub provider : GrpcProvider
  pub destination_reference : String
  pub status : GrpcPayoutStatus
  pub external_reference : String
  pub requested_at : Time
  pub completed_at : Option Time
  pub failed_at : Option Time
  pub failure_reason : String
  pub created_at : Time
  pub updated_at : Time

abbrev pub must_be_positive : String → Err
must_be_positive what =
    status invalid_argument (str_append what " amount must be greater than zero")

module _ (env : Env) where
  -- The amount as a decimal text, left empty where it is no valid float.
  unfoldable pub amount_text : Numeric → String
  amount_text amount = elim (env.float64_value amount) [ ok (some f) ↦ env.format_cents f | _ ↦ "" ]

  unfoldable pub customer_to_proto : Customer → CustomerProto
  customer_to_proto c = record {
    id = env.uuid_string c.id;
    client_id = env.uuid_string c.client_id;
    merchant_id = env.uuid_string c.merchant_id;
    phone_number = c.phone_number;
    status = sqlc_customer_status_to_grpc c.status;
    created_at = c.created_at;
    updated_at = c.updated_at;
  }

  unfoldable pub merchant_to_proto : Merchant → MerchantProto
  merchant_to_proto m = record {
    id = env.uuid_string m.id;
    name = m.name;
    slug = m.slug;
    status = sqlc_merchant_status_to_grpc m.status;
    created_at = m.created_at;
    updated_at = m.updated_at;
  }

  unfoldable pub deposit_to_proto : Deposit → DepositProto
  deposit_to_proto d = record {
    id = env.uuid_string d.id;
    client_id = env.uuid_string d.client_id;
    customer_id = env.uuid_string d.customer_id;
    merchant_id = env.uuid_string d.merchant_id;
    amount = record { amount = amount_text d.amount; currency = d.currency };
    payment_type = sqlc_payment_type_to_grpc d.payment_type;
    payer_phone_number = d.payer_phone_number;
    provider = sqlc_payment_provider_to_grpc d.provider;
    status = sqlc_deposit_status_to_grpc d.status;
    external_reference = d.external_reference;
    initiated_at = d.initiated_at;
    completed_at = d.completed_at;
    failed_at = d.failed_at;
    failure_reason = d.failure_reason;
    created_at = d.created_at;
    updated_at = d.updated_at;
  }

  unfoldable pub payout_to_proto : Payout → PayoutProto
  payout_to_proto p = record {
    id = env.uuid_string p.id;
    client_id = env.uuid_string p.client_id;
    merchant_id = env.uuid_string p.merchant_id;
    amount = record { amount = amount_text p.amount; currency = p.currency };
    provider = sqlc_payment_provider_to_grpc p.provider;
    destination_reference = p.destination_reference;
    status = sqlc_payout_status_to_grpc p.status;
    external_reference = p.external_reference;
    requested_at = p.requested_at;
    completed_at = p.completed_at;
    failed_at = p.failed_at;
    failure_reason = p.failure_reason;
    created_at = p.created_at;
    updated_at = p.updated_at;
  }

  unfoldable pub grpc_payment_type_to_sqlc : GrpcPaymentType → Result PaymentType
  grpc_payment_type_to_sqlc GrpcPaymentType.mmo = ok PaymentType.mmo
  grpc_payment_type_to_sqlc GrpcPaymentType.credit_card = ok PaymentType.credit_card
  grpc_payment_type_to_sqlc t =
      err (
        status invalid_argument (str_append "unsupported payment type: " (env.payment_type_text t)))

  unfoldable pub grpc_provider_to_sqlc : GrpcProvider → Result PaymentProvider
  grpc_provider_to_sqlc GrpcProvider.mtn_momo = ok PaymentProvider.mtn_momo
  grpc_provider_to_sqlc GrpcProvider.orange_momo = ok PaymentProvider.orange_momo
  grpc_provider_to_sqlc p =
      err (status invalid_argument (str_append "unsupported provider: " (env.provider_text p)))

  abbrev pub invalid_amount : String → Err → Err
  invalid_amount what e =
      status invalid_argument
        (str_append "invalid " (str_append what (str_append " amount: " (env.error_text e))))

  -- `validateAmount` of the deposit service (`what` is "deposit") and of the payout service.
  unfoldable pub validate_amount : String → Option Money → Result Numeric
  validate_amount what none = err (status invalid_argument "amount is required")
  validate_amount what (some money) = elim (env.scan_numeric money.amount) [
    | err e ↦ err (invalid_amount what e)
    | ok amount ↦ elim (env.float64_value amount) [
      | err e ↦ err (invalid_amount what e)
      | ok none ↦ err (must_be_positive what)
      | ok (some f) ↦ if not_positive f then err (must_be_positive what) else ok amount
    ]
  ]
