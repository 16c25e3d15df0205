-- ===== src/Transactions/Payouts/Storing.antt =====
-- What `RequestPayout` (transactions/payouts/service.go) has stored, whatever it replies.
use rvpay_go.Base.{
  none, some, [], ◌∷◌, ◌++◌, ◌≡◌, ◌⊎◌, inl, inr, refl, arith, Option-cases, sym, ap, ◌∙◌,
}
use rvpay_go.Base.Text.{trim_space, map_runes}
use rvpay_go.Base.Effect.{Result-cases, ok, err, Err}
use rvpay_go.Transactions.Model.{PayoutStatus, PayoutRow, Payout, Env, Db}
use rvpay_go.Transactions.Convert.{PayoutProto}
use rvpay_go.Transactions.Store.Payouts.{
  payout_refusal, insert_payout, store_payout, create_payout, scan_payout,
}
use rvpay_go.Transactions.Repo.Payouts as PayoutRepo
use rvpay_go.Transactions.Payouts.Acceptance.{row_of}
use rvpay_go.Transactions.Payouts.{
  CreatePayoutRequest, PayoutInput, currency_of, check_payout, place_payout, request_payout,
}

-- The one payout that a request's input has added to the table.
pub record IsPlaced (i : PayoutInput) (row : PayoutRow) : Type 0 where
  pub client : row.client_id ≡ i.client_id
  pub merchant : row.merchant_id ≡ i.merchant_id
  pub currency : row.currency ≡ i.currency
  pub provider : row.provider ≡ i.provider
  pub destination : row.destination_reference ≡ some i.destination_reference
  pub status : row.status ≡ PayoutStatus.requested
  pub completed : row.completed_at ≡ none
  pub failed : row.failed_at ≡ none

module _ (env : Env) where
  place_payout_outcome :
      (i : PayoutInput) (db : Db)
      → ((place_payout env i db).1.tables ≡ db.tables)
          × ((p : Payout) → ¬ ((place_payout env i db).0 ≡ ok p))
        ⊎ ((row : PayoutRow) × IsPlaced i row
            × ((place_payout env i db).1.tables
                ≡ record (db.tables) { payouts = db.payouts ++ row ∷ [] }))
  unfolding place_payout PayoutRepo.create create_payout store_payout insert_payout scan_payout
  place_payout_outcome i db = elim (Option-cases (db.fault db.ticks)) [
    | inr (e, f) ↦ inl (ground arith, λ p h. ground arith)
    | inl f ↦ elim (Result-cases (env.store_numeric i.amount)) [
      | inr (e, k) ↦ inl (ground arith, λ p h. ground arith)
      | inl (a, k) ↦ elim (Option-cases (payout_refusal (row_of i a db) db.tables)) [
        | inr (e, r) ↦ inl (ground arith, λ p h. ground arith)
        | inl r ↦ inr (
          row_of i a db,
          record {
            client = refl;
            merchant = refl;
            currency = refl;
            provider = refl;
            destination = refl;
            status = refl;
            completed = refl;
            failed = refl;
          },
          ground arith,
        )
      ]
    ]
  ]

  check_payout_fields :
      (req : CreatePayoutRequest) (db : Db) {i : PayoutInput} {u : Db}
      → check_payout env req db ≡ (ok i, u)
      → (env.parse_uuid req.client_id ≡ some i.client_id)
        × (env.parse_uuid req.merchant_id ≡ some i.merchant_id)
        × (i.currency ≡ map_runes env.upper_rune (trim_space (currency_of req.amount)))
        × (i.destination_reference ≡ trim_space req.destination_reference)
        × (u ≡ db)
  unfolding check_payout
  check_payout_fields req db h = ground arith

  check_payout_refused :
      (req : CreatePayoutRequest) (db : Db) {e : Err}
      → (check_payout env req db).0 ≡ err e
      → check_payout env req db ≡ (err e, db)
  unfolding check_payout
  check_payout_refused req db h = ground arith

  -- The columns of a stored row that a request determines.
  abbrev pub IsRequested : CreatePayoutRequest → PayoutRow → Type 0
  IsRequested req row =
      (env.parse_uuid req.client_id ≡ some row.client_id)
      × (env.parse_uuid req.merchant_id ≡ some row.merchant_id)
      × (row.currency ≡ map_runes env.upper_rune (trim_space (currency_of req.amount)))
      × (row.destination_reference ≡ some (trim_space req.destination_reference))
      × (row.status ≡ PayoutStatus.requested)
      × (row.completed_at ≡ none)
      × (row.failed_at ≡ none)

  -- Whatever `RequestPayout` is asked, and whatever the server refuses, it changes no table and has
  -- no reply, or it adds exactly one payout: REQUESTED, neither completed nor failed, of the
  -- request's client and merchant, with its currency in capitals and its trimmed destination.
  pub request_payout_stored :
      (req : CreatePayoutRequest) (db : Db)
      → ((request_payout env (some req) db).1.tables ≡ db.tables)
          × ((r : PayoutProto) → ¬ ((request_payout env (some req) db).0 ≡ ok r))
        ⊎ ((row : PayoutRow) × IsRequested req row
            × ((request_payout env (some req) db).1.tables
                ≡ record (db.tables) { payouts = db.payouts ++ row ∷ [] }))
  unfolding request_payout
  request_payout_stored req db = elim (Result-cases (check_payout env req db).0) [
    | inr (e, h) ↦
        let refused = check_payout_refused req db h in inl (ground arith, λ r k. ground arith)
    | inl (i, h) ↦
        let (client, merchant, currency, destination, same) =
          check_payout_fields req db (λ k. (h k, (check_payout env req db).1)) in
        elim (place_payout_outcome i db) [
          | inl (kept, none_made) ↦ inl (
            ground arith,
            λ r k. elim (Result-cases (place_payout env i db).0) [
              | inl (p, q) ↦ none_made p q
              | inr (e, q) ↦ ground arith
            ],
          )
          | inr (row, placed, added) ↦ inr (
            row,
            (
              client ∙ ap some (sym placed.client),
              merchant ∙ ap some (sym placed.merchant),
              placed.currency ∙ currency,
              placed.destination ∙ ap some destination,
              placed.status,
              placed.completed,
              placed.failed,
            ),
            ground arith,
          )
        ]
  ]
