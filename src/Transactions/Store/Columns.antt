-- ===== src/Transactions/Store/Columns.antt =====
-- The column types and checks of transactions/db/migrations that the tables `deposits` and
-- `payouts` share: the enums, the currency code, and comparison with a nullable column.
use Prim.Native.Char.{code}
use rvpay_go.Base.{ℕ, String, Bool, true, false, ◌&&◌, Option, none, some, str_eq, leb}
use rvpay_go.Transactions.Model.{DepositStatus, PayoutStatus, PaymentProvider, PaymentType}

-- The values of the types `deposit_status`, `payout_status`, `payment_provider`, `payment_type`.
abbrev pub is_deposit_status : DepositStatus → Bool
is_deposit_status (DepositStatus.unknown _) = false
is_deposit_status _ = true

abbrev pub is_payout_status : PayoutStatus → Bool
is_payout_status (PayoutStatus.unknown _) = false
is_payout_status _ = true

abbrev pub is_payment_provider : PaymentProvider → Bool
is_payment_provider (PaymentProvider.unknown _) = false
is_payment_provider _ = true

abbrev pub is_payment_type : PaymentType → Bool
is_payment_type (PaymentType.unknown _) = false
is_payment_type _ = true

-- Equality of two values of `deposit_status`, and of `payout_status`.
abbrev pub same_deposit_status : DepositStatus → DepositStatus → Bool
same_deposit_status DepositStatus.initiated DepositStatus.initiated = true
same_deposit_status DepositStatus.processing DepositStatus.processing = true
same_deposit_status DepositStatus.completed DepositStatus.completed = true
same_deposit_status DepositStatus.failed DepositStatus.failed = true
same_deposit_status _ _ = false

abbrev pub same_payout_status : PayoutStatus → PayoutStatus → Bool
same_payout_status PayoutStatus.requested PayoutStatus.requested = true
same_payout_status PayoutStatus.processing PayoutStatus.processing = true
same_payout_status PayoutStatus.completed PayoutStatus.completed = true
same_payout_status PayoutStatus.failed PayoutStatus.failed = true
same_payout_status _ _ = false

abbrev pub is_upper : ℕ → Bool
is_upper c = leb b'A' c && leb c b'Z'

-- `currency ~ '^[A-Z]{3}$'`.
unfoldable pub is_currency : String → Bool
is_currency (String.◌∷◌ a (String.◌∷◌ b (String.◌∷◌ c String.[]))) =
    is_upper (code a) && is_upper (code b) && is_upper (code c)
is_currency _ = false

-- Longer than VARCHAR(3).
unfoldable pub is_over_three : String → Bool
is_over_three (String.◌∷◌ _ (String.◌∷◌ _ (String.◌∷◌ _ (String.◌∷◌ _ _)))) = true
is_over_three _ = false

-- A column's value, of a nullable column compared with `=`: NULL equals nothing.
abbrev pub is_text : Option String → String → Bool
is_text none _ = false
is_text (some s) t = str_eq s t
