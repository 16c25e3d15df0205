-- ===== src/Transactions/Model.antt =====
-- The data of the transactions service: the enums, rows and Go structs of
-- transactions/db/sqlc/models.go and transactions/db/migrations, the protobuf messages of
-- protobuf/common.proto and protobuf/transactions.proto that its handlers read and write, the
-- database as the state of a call, and the code outside the repository as a record of functions.
use rvpay_go.Base.Pagination.{ℤ, pos, negsuc}
use rvpay_go.Base.{zero, suc, true, false, Bool}
use Prim.Native.Char.{Char}
use rvpay_go.Base.{ℕ, suc, String, Bool, Option, none, some, List}
use rvpay_go.Base.Effect.{Err, Result, ok, err, Action}

-- A UUID is only compared; its text form is given by the environment.
abbrev pub Uuid : Type 0
Uuid = ℕ

-- `time.Time` and `timestamppb.Timestamp`, as a count of ticks.
abbrev pub Time : Type 0
Time = ℕ

-- `pgtype.Numeric` is handed from one library call to the next, never inspected.
abbrev pub Numeric : Type 0
Numeric = ℕ

-- A `float64`: NaN, or a number by its place in the order of the floats, which is 0 for zero.
pub data Float : Type 0 where
  nan : Float
  number : ℤ → Float

-- `f <= 0`, which is false of NaN.
unfoldable pub not_positive : Float → Bool
not_positive Float.nan = false
not_positive (Float.number (pos zero)) = true
not_positive (Float.number (pos (suc n))) = false
not_positive (Float.number (negsuc n)) = true

-- The enums of sqlc are strings, so that each has values with no constant.
pub data CustomerStatus : Type 0 where
  created active : CustomerStatus
  unknown : String → CustomerStatus

pub data MerchantStatus : Type 0 where
  onboarded active suspended retired : MerchantStatus
  unknown : String → MerchantStatus

pub data DepositStatus : Type 0 where
  initiated processing completed failed : DepositStatus
  unknown : String → DepositStatus

pub data PayoutStatus : Type 0 where
  requested processing completed failed : PayoutStatus
  unknown : String → PayoutStatus

pub data PaymentProvider : Type 0 where
  mtn_momo orange_momo : PaymentProvider
  unknown : String → PaymentProvider

pub data PaymentType : Type 0 where
  mmo credit_card : PaymentType
  unknown : String → PaymentType

-- The protobuf enums are numbers, with a zero value and unrecognised ones.
pub data GrpcPaymentType : Type 0 where
  unspecified mmo credit_card : GrpcPaymentType
  unrecognized : ℕ → GrpcPaymentType

pub data GrpcProvider : Type 0 where
  unspecified mtn_momo orange_momo : GrpcProvider
  unrecognized : ℕ → GrpcProvider

pub data GrpcDepositStatus : Type 0 where
  unspecified initiated processing completed failed : GrpcDepositStatus

pub data GrpcPayoutStatus : Type 0 where
  unspecified requested processing completed failed : GrpcPayoutStatus

pub data GrpcCustomerStatus : Type 0 where
  unspecified created active : GrpcCustomerStatus

pub data GrpcMerchantStatus : Type 0 where
  unspecified onboarded active suspended retired : GrpcMerchantStatus

pub record Merchant : Type 0 where
  pub id : Uuid
  pub name : String
  pub slug : String
  pub status : MerchantStatus
  pub created_at : Time
  pub updated_at : Time

pub record Customer : Type 0 where
  pub id : Uuid
  pub client_id : Uuid
  pub merchant_id : Uuid
  pub phone_number : String
  pub status : CustomerStatus
  pub created_at : Time
  pub updated_at : Time

-- A row of `deposits`: the nullable columns are options.
pub record DepositRow : Type 0 where
  pub id : Uuid
  pub client_id : Uuid
  pub customer_id : Uuid
  pub merchant_id : Uuid
  pub amount : Numeric
  pub currency : String
  pub payment_type : PaymentType
  pub payer_phone_number : String
  pub provider : PaymentProvider
  pub status : DepositStatus
  pub external_reference : Option String
  pub idempotency_key : Uuid
  pub initiated_at : Time
  pub completed_at : Option Time
  pub failed_at : Option Time
  pub failure_reason : Option String
  pub created_at : Time
  pub updated_at : Time
  pub ghl_transaction_id : Option String
  pub ghl_charge_id : Option String

-- `sqlc.Deposit`: the nullable texts are plain strings.
pub record Deposit : Type 0 where
  pub id : Uuid
  pub client_id : Uuid
  pub customer_id : Uuid
  pub merchant_id : Uuid
  pub amount : Numeric
  pub currency : String
  pub payment_type : PaymentType
  pub payer_phone_number : String
  pub provider : PaymentProvider
  pub status : DepositStatus
  pub external_reference : String
  pub idempotency_key : Uuid
  pub initiated_at : Time
  pub completed_at : Option Time
  pub failed_at : Option Time
  pub failure_reason : String
  pub created_at : Time
  pub updated_at : Time
  pub ghl_transaction_id : String
  pub ghl_charge_id : String

pub record PayoutRow : Type 0 where
  pub id : Uuid
  pub client_id : Uuid
  pub merchant_id : Uuid
  pub amount : Numeric
  pub currency : String
  pub provider : PaymentProvider
  pub destination_reference : Option String
  pub status : PayoutStatus
  pub external_reference : Option String
  pub idempotency_key : Uuid
  pub requested_at : Time
  pub completed_at : Option Time
  pub failed_at : Option Time
  pub failure_reason : Option String
  pub created_at : Time
  pub updated_at : Time

pub record Payout : Type 0 where
  pub id : Uuid
  pub client_id : Uuid
  pub merchant_id : Uuid
  pub amount : Numeric
  pub currency : String
  pub provider : PaymentProvider
  pub destination_reference : String
  pub status : PayoutStatus
  pub external_reference : String
  pub idempotency_key : Uuid
  pub requested_at : Time
  pub completed_at : Option Time
  pub failed_at : Option Time
  pub failure_reason : String
  pub created_at : Time
  pub updated_at : Time

-- `commongrpc.Money`.
pub record Money : Type 0 where
  pub amount : String
  pub currency : String

-- The code that the repository calls and does not contain.
pub record Env : Type 0 where
  -- `uuid.Parse` and `uuid.UUID.String`.
  pub parse_uuid : String → Option Uuid
  pub uuid_string : Uuid → String
  -- `unicode.ToUpper`.
  pub upper_rune : Char → Char
  -- `pgtype.Numeric.Scan` and `Float64Value` (`none` is a float with `Valid` false).
  pub scan_numeric : String → Result Numeric
  pub float64_value : Numeric → Result (Option Float)
  -- `strconv.FormatFloat(f, 'f', 2, 64)`.
  pub format_cents : Float → String
  -- What PostgreSQL stores in a NUMERIC(18,2) column.
  pub store_numeric : Numeric → Result Numeric
  -- How pgx scans a nullable text column into a Go `string`.
  pub scan_text : Option String → Result String
  -- `error.Error`, and `String` of the protobuf enums.
  pub error_text : Err → String
  pub payment_type_text : GrpcPaymentType → String
  pub provider_text : GrpcProvider → String

pub record Tables : Type 0 where
  pub merchants : List Merchant
  pub customers : List Customer
  pub deposits : List DepositRow
  pub payouts : List PayoutRow

-- The database, with what a statement takes from the outside: the time at which it runs, fresh
-- UUIDs (`gen_random_uuid()` and `uuid.New()`), and whether the server refuses it. The functions
-- are indexed by the number of statements run, and of UUIDs drawn, so far.
pub record Db : Type 0 where
  pub tables : Tables
  pub open tables use *
  pub clock : ℕ → Time
  pub new_uuid : ℕ → Uuid
  pub fault : ℕ → Option Err
  pub ticks : ℕ
  pub drawn : ℕ

-- `NOW()`.
abbrev pub now : Db → Time
now db = db.clock db.ticks

-- One statement: it is refused, with no effect, or it runs.
abbrev pub statement : {A : Type 0} → Action Db A → Action Db A
statement q db =
    let db' = record db { ticks = suc db.ticks } in
    elim (db.fault db.ticks) [ some e ↦ (err e, db') | none ↦ q db' ]

-- `gen_random_uuid()`, `uuid.New()`.
abbrev pub draw_uuid : Action Db Uuid
draw_uuid db = (ok (db.new_uuid db.drawn), record db { drawn = suc db.drawn })
