-- ===== src/Transactions/Convert/Requests.antt =====
-- The conversion of a request's fields (the ends of transactions/deposits/service.go).
use rvpay_go.Base.Pagination.{pos, negsuc}
use rvpay_go.Base.{
  ℕ, zero, suc, sym, ap, ◌∙◌, ◌↔◌, false, Option, none, some, String, ◌≡◌, refl, arith, ◌⊎◌, inl,
  inr, Bool-cases,
}
use rvpay_go.Base.Effect.{Err, Result-cases, ok, err, invalid_argument, status}
use rvpay_go.Transactions.Model.{
  Numeric, Float, not_positive, Money, PaymentType, PaymentProvider, GrpcPaymentType, GrpcProvider,
  Env,
}
use rvpay_go.Transactions.Convert.{
  validate_amount, invalid_amount, must_be_positive, grpc_payment_type_to_sqlc,
  grpc_provider_to_sqlc, sqlc_payment_type_to_grpc, sqlc_payment_provider_to_grpc,
}

-- The number is a float above zero, or NaN.
abbrev pub IsAmount : Env → Option Money → Numeric → Type 0
IsAmount env m a =
    (money : Money) × (m ≡ some money)
    × (env.scan_numeric money.amount ≡ ok a)
    × ((f : Float) × (env.float64_value a ≡ ok (some f))
        × ((f ≡ Float.nan) ⊎ ((n : ℕ) × (f ≡ Float.number (pos (suc n))))))

positive :
    (f : Float)
    → not_positive f ≡ false
    → (f ≡ Float.nan) ⊎ ((n : ℕ) × (f ≡ Float.number (pos (suc n))))
unfolding not_positive
positive Float.nan h = inl refl
positive (Float.number (pos zero)) h = absurd (ground arith)
positive (Float.number (pos (suc n))) h = inr (n, refl)
positive (Float.number (negsuc n)) h = absurd (ground arith)

accepted :
    (f : Float)
    → (f ≡ Float.nan) ⊎ ((n : ℕ) × (f ≡ Float.number (pos (suc n))))
    → not_positive f ≡ false
unfolding not_positive
accepted f (inl e) = rw e refl
accepted f (inr (n, e)) = rw e refl

module _ (env : Env) where
  validate_amount-IsAmount :
      (what : String) (m : Option Money) {a : Numeric}
      → validate_amount env what m ≡ ok a
      → IsAmount env m a
  unfolding validate_amount
  validate_amount-IsAmount what none {a} h = absurd (ground arith)
  validate_amount-IsAmount what (some money) {a} h =
      elim (Result-cases (env.scan_numeric money.amount)) [
        | inr (e, p) ↦ absurd (ground arith)
        | inl (b, p) ↦ elim (Result-cases (env.float64_value b)) [
          | inr (e, q) ↦ absurd (ground arith)
          | inl (none, q) ↦ absurd (ground arith)
          | inl (some f, q) ↦
              let same : b ≡ a = ground arith in
              (
                money,
                refl,
                p ∙ ap ok same,
                (f, ap env.float64_value (sym same) ∙ q, positive f (ground arith)),
              )
        ]
      ]

  validate_amount_accepts :
      (what : String) (m : Option Money) {a : Numeric}
      → IsAmount env m a
      → validate_amount env what m ≡ ok a
  unfolding validate_amount
  validate_amount_accepts what m (money, e, p, (f, q, k)) =
      let fine = accepted f k in rw (e, p, q, fine, validate_amount) refl

  validate_amount_refuses :
      (what : String) (m : Option Money) (e : Err)
      → validate_amount env what m ≡ err e
      → (text : String) × (e ≡ status invalid_argument text)
  unfolding validate_amount
  validate_amount_refuses what none e h = ("amount is required", ground arith)
  validate_amount_refuses what (some money) e h =
      elim (Result-cases (env.scan_numeric money.amount)) [
        | inr (x, p) ↦ let same : invalid_amount env what x ≡ e = ground arith in (_, sym same)
        | inl (b, p) ↦ elim (Result-cases (env.float64_value b)) [
          | inr (x, q) ↦ let same : invalid_amount env what x ≡ e = ground arith in (_, sym same)
          | inl (none, q) ↦ let same : must_be_positive what ≡ e = ground arith in (_, sym same)
          | inl (some f, q) ↦ elim (Bool-cases (not_positive f)) [
            | inl r ↦ let same : must_be_positive what ≡ e = ground arith in (_, sym same)
            | inr r ↦ absurd (ground arith)
          ]
        ]
      ]

  -- An amount is accepted exactly if there is one, its text scans as a number, and that number is a
  -- float above zero or NaN; every refusal is INVALID_ARGUMENT.
  pub validate_amount_checked :
      (what : String) (m : Option Money)
      → ((a : Numeric) → (validate_amount env what m ≡ ok a) ↔ IsAmount env m a)
        × ((e : Err)
            → validate_amount env what m ≡ err e
            → (text : String) × (e ≡ status invalid_argument text))
  validate_amount_checked what m = (
    (λ a. (validate_amount-IsAmount what m, validate_amount_accepts what m)),
    validate_amount_refuses what m,
  )

  -- A payment type that is stored comes back in the reply as it was in the request, and so does a
  -- provider.
  pub payment_fields_round_trip :
      (t : GrpcPaymentType) (p : GrpcProvider) {s : PaymentType} {q : PaymentProvider}
      → grpc_payment_type_to_sqlc env t ≡ ok s
      → grpc_provider_to_sqlc env p ≡ ok q
      → (sqlc_payment_type_to_grpc s ≡ t) × (sqlc_payment_provider_to_grpc q ≡ p)
  unfolding grpc_payment_type_to_sqlc grpc_provider_to_sqlc sqlc_payment_type_to_grpc
      sqlc_payment_provider_to_grpc
  payment_fields_round_trip t p h k = ground arith
