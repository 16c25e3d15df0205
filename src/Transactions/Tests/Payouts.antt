-- ===== src/Transactions/Tests/Payouts.antt =====
-- Payout requests on a concrete database.
use rvpay_go.Base.{some, none, [], ◌∷◌, ◌++◌, ◌≡◌, ◌⊎◌, refl}
use rvpay_go.Base.Table.{any_row}
use rvpay_go.Base.Text
use rvpay_go.Base.Effect.{ok, err, internal, status}
use rvpay_go.Transactions.Convert
use rvpay_go.Transactions.Model
use rvpay_go.Transactions.Payouts
use rvpay_go.Transactions.Payouts.{check_payout, request_payout}
use rvpay_go.Transactions.Payouts.Acceptance.{row_of, request_payout_unseen}
use rvpay_go.Transactions.Payouts.Storing.{IsRequested, request_payout_stored}
use rvpay_go.Transactions.Model.{PayoutRow}
use rvpay_go.Transactions.Convert.{PayoutProto}
use rvpay_go.Transactions.Store.Payouts as PayoutStore
use rvpay_go.Transactions.Store.Columns as Columns
use rvpay_go.Transactions.Tests.{strict, database, stocked, withdrawal, withdrawal_input}

withdrawal_checked :
    check_payout strict withdrawal (database stocked) ≡ (ok withdrawal_input, database stocked)
unfolding Payouts.check_payout Convert.validate_amount Model.not_positive
    Convert.grpc_provider_to_sqlc Text.trim_space Text.map_runes
withdrawal_checked = refl

withdrawal_admitted :
    PayoutStore.payout_refusal (row_of withdrawal_input 5 (database stocked)) stocked ≡ none
unfolding PayoutStore.payout_refusal Columns.is_currency Columns.is_over_three any_row
withdrawal_admitted = refl

request_payout_stored_example :
    ((request_payout strict (some withdrawal) (database stocked)).1.tables ≡ stocked)
      × ((r : PayoutProto)
          → ¬ ((request_payout strict (some withdrawal) (database stocked)).0 ≡ ok r))
    ⊎ ((row : PayoutRow) × IsRequested strict withdrawal row
        × ((request_payout strict (some withdrawal) (database stocked)).1.tables
            ≡ record stocked { payouts = row ∷ [] }))
request_payout_stored_example = request_payout_stored strict withdrawal (database stocked)

request_payout_unseen_example :
    ((request_payout strict (some withdrawal) (database stocked)).0
      ≡ err (status internal "could not create payout"))
    × ((request_payout strict (some withdrawal) (database stocked)).1.payouts
        ≡ [] ++ row_of withdrawal_input 5 (database stocked) ∷ [])
request_payout_unseen_example =
    request_payout_unseen strict withdrawal (database stocked) "cannot scan NULL into *string"
      withdrawal_checked refl withdrawal_admitted refl refl refl
