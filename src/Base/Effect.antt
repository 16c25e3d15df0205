-- ===== src/Base/Effect.antt =====
-- Errors as values, and calls that change a state: what the services, the repositories and the
-- queries of every module return. The state comes back after an error too, since a statement
-- that has run stays run.
use mathlib.Core.Path.{◌≡◌, refl}
use mathlib.Core.Logic.{◌⊎◌, inl, inr}
use mathlib.Core.Bool.{Bool}
use mathlib.Core.Option.{Option, none, some}
use Prim.Native.String.{String}
use native.Mathlib.Omega.{arith}
use rvpay_go.Base.Tests.{if◌then◌else◌, str_eq}

-- The codes of google.golang.org/grpc/codes that the services return.
pub data Code : Type 0 where
  invalid_argument not_found already_exists failed_precondition internal unauthenticated : Code

-- Go's `error`, by what the code distinguishes: a gRPC status, the sentinels of the `repo`
-- packages, `pgx.ErrNoRows`, a `*pgconn.PgError` with its SQLSTATE code, and any other error.
pub data Err : Type 0 where
  status : Code → String → Err
  err_not_found err_duplicate err_constraint : Err
  no_rows : Err
  pg_error : String → Err
  other : String → Err

pub data Result (A : Type 0) : Type 0 where
  ok : A → Result A
  err : Err → Result A

abbrev pub Action : Type 0 → Type 0 → Type 0
Action W A = W → Result A × W

module _ {W : Type 0} {A : Type 0} where
  abbrev pub raise : Err → Action W A
  raise e w = (err e, w)

  abbrev pub lift : Result A → Action W A
  lift r w = (r, w)

  -- `if err != nil { return nil, f(err) }`.
  abbrev pub map_err : (Err → Err) → Action W A → Action W A
  map_err f m w = let (r, w') = m w in elim r [ ok a ↦ (ok a, w') | err e ↦ (err (f e), w') ]

  -- `value, err := m()`, with both cases handled by what follows.
  abbrev pub try : Action W A → Action W (Result A)
  try m w = let (r, w') = m w in (ok r, w')

  -- `value, ok := …`, with an error where there is none.
  abbrev pub or_raise : Option A → Err → Action W A
  or_raise none e w = (err e, w)
  or_raise (some a) _ w = (ok a, w)

infixl 5 ◌>>=◌ ◌>>◌
abbrev pub ◌>>=◌ : {W A B : Type 0} → Action W A → (A → Action W B) → Action W B
◌>>=◌ m f w = let (r, w') = m w in elim r [ ok a ↦ f a w' | err e ↦ (err e, w') ]

abbrev pub ◌>>◌ : {W B : Type 0} → Action W (Unit {0}) → Action W B → Action W B
m >> k = m >>= λ _. k

-- `if c { return nil, e }`.
abbrev pub raise_if : {W : Type 0} → Bool → Err → Action W (Unit {0})
raise_if c e w = (if c then err e else ok tt, w)

-- `wrapError` of clients/db/repo/errors.go and of transactions/db/repo/errors.go.
unfoldable pub wrap_error : Err → Err
wrap_error (pg_error code) =
    if str_eq code "23505"
    then err_duplicate
    else if str_eq code "23503"
    then err_constraint
    else if str_eq code "23514"
    then err_constraint
    else pg_error code
wrap_error e = e

-- `wrapNotFound` of the same files.
unfoldable pub wrap_not_found : Err → Err
wrap_not_found no_rows = err_not_found
wrap_not_found e = e

-- What a successful chain went through.
pub >>=-eq-ok :
    {W A B : Type 0} (m : Action W A) (f : A → Action W B) (w : W) {b : B} {v : W}
    → (m >>= f) w ≡ (ok b, v)
    → (a : A) × (u : W) × (m w ≡ (ok a, u)) × (f a u ≡ (ok b, v))
>>=-eq-ok {W} {A} {B} m f w {b} {v} h = go (m w) refl h
  where
    go :
        (r : Result A × W)
        → m w ≡ r
        → elim r.0 as (λ _. Result B × W) [ ok a ↦ f a r.1 | err e ↦ (err e, r.1) ] ≡ (ok b, v)
        → (a : A) × (u : W) × (m w ≡ (ok a, u)) × (f a u ≡ (ok b, v))
    go (ok a, u) e h = (a, u, e, h)
    go (err x, u) e h = cc

-- An error that is replaced was an error before.
pub map_err-eq-ok :
    {W A : Type 0} (f : Err → Err) (m : Action W A) (w : W) {a : A} {u : W}
    → map_err f m w ≡ (ok a, u)
    → m w ≡ (ok a, u)
map_err-eq-ok {W} {A} f m w {a} {u} = go (m w)
  where
    go :
        (r : Result A × W)
        → elim r.0 as (λ _. Result A × W) [ ok a ↦ (ok a, r.1) | err e ↦ (err (f e), r.1) ]
          ≡ (ok a, u)
        → r ≡ (ok a, u)
    go (ok b, v) h = h
    go (err e, v) h = cc

pub Result-cases : {A : Type 0} (r : Result A) → ((a : A) × (r ≡ ok a)) ⊎ ((e : Err) × (r ≡ err e))
Result-cases (ok a) = inl (a, refl)
Result-cases (err e) = inr (e, refl)

-- A result that is taken as a value is the call's.
pub try-eq-ok :
    {W A : Type 0} (m : Action W A) (w : W) {r : Result A} {a : A} {u : W}
    → try m w ≡ (ok r, u)
    → r ≡ ok a
    → m w ≡ (ok a, u)
try-eq-ok {W} {A} m w {r} {a} {u} = go (m w)
  where
    go :
        (x : Result A × W)
        → ◌≡◌ {A = Result (Result A) × W} (ok x.0, x.1) (ok r, u)
        → r ≡ ok a
        → x ≡ (ok a, u)
    go (y, v) p q = ground arith
