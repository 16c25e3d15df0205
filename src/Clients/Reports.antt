-- ===== src/Clients/Reports.antt =====
-- The errors that the clients service reports, one rule for each way to build an action.
pub mod Handlers
pub mod Grpc
use rvpay_go.Base.{
  String, Bool, true, false, Option, none, some, ◌≡◌, refl, sym, arith, if◌then◌else◌,
}
use rvpay_go.Base.Effect.{
  Code, Err, status, err_not_found, err_duplicate, err_constraint, no_rows, pg_error, other, Result,
  ok, err, Action, map_err, try, or_raise, raise, raise_if, ◌>>=◌,
}
use rvpay_go.Clients.Errors.{translate_error, missing_error, translate, found_or}

-- The error is a gRPC status.
unfoldable pub is_status : Err → Bool
is_status (status _ _) = true
is_status _ = false

-- `m` fails with a status only.
pub record Reports {W A : Type 0} (m : Action W A) : Type 0 where
  pub at : (w : W) (e : Err) → (m w).0 ≡ err e → is_status e ≡ true

-- A translated error is a status.
pub translated : (x : Err) → is_status (translate_error x) ≡ true
unfolding translate_error is_status
translated (status c m) = refl
translated err_not_found = refl
translated err_duplicate = refl
translated err_constraint = refl
translated no_rows = refl
translated (pg_error c) = refl
translated (other m) = refl

missing : (c : Code) (m : String) (x : Err) → is_status (missing_error (status c m) x) ≡ true
unfolding missing_error is_status translate_error
missing c m (status d n) = refl
missing c m err_not_found = refl
missing c m err_duplicate = refl
missing c m err_constraint = refl
missing c m no_rows = refl
missing c m (pg_error d) = refl
missing c m (other n) = refl

module _ {W : Type 0} where
  pub Reports-ok : {A : Type 0} (f : W → A) → Reports {W = W} (λ w. (ok (f w), w))
  Reports-ok f = record { at = λ w e h. cc }

  pub Reports-status :
      {A : Type 0} (x : Err) → is_status x ≡ true → Reports {W = W} {A = A} (raise x)
  Reports-status x k = record { at = λ w e h. let same : x ≡ e = ground arith in rw (sym same) k }

  pub Reports-raise :
      {A : Type 0} (c : Code) (m : String) → Reports {W = W} {A = A} (λ w. (err (status c m), w))
  unfolding is_status
  Reports-raise c m = record { at = λ w e h. ground arith }

  pub Reports-raise_if :
      (b : Bool) (c : Code) (m : String) → Reports {W = W} (raise_if b (status c m))
  unfolding is_status
  Reports-raise_if b c m = record { at = λ w e h. ground arith }

  pub Reports-or_raise :
      {A : Type 0} (o : Option A) (c : Code) (m : String)
      → Reports {W = W} (or_raise o (status c m))
  unfolding is_status
  Reports-or_raise none c m = record { at = λ w e h. ground arith }
  Reports-or_raise (some a) c m = record { at = λ w e h. cc }

  pub Reports-try : {A : Type 0} (m : Action W A) → Reports (try m)
  Reports-try m = record { at = λ w e h. cc }

  pub Reports-bind :
      {A B : Type 0} (m : Action W A) (f : A → Action W B)
      → Reports m
      → ((a : A) → Reports (f a))
      → Reports (m >>= f)
  Reports-bind {A} {B} m f rm rf = record { at = λ w e h. go w (m w) (rm.at w) e h }
    where
      go :
          (w : W) (r : Result A × W)
          → ((e : Err) → r.0 ≡ err e → is_status e ≡ true)
          → (e : Err)
          → (elim r.0 as (λ _. Result B × W) [ ok a ↦ f a r.1 | err x ↦ (err x, r.1) ]).0 ≡ err e
          → is_status e ≡ true
      go w (ok a, u) k e h = (rf a).at u e h
      go w (err x, u) k e h = k e (ground arith)

  -- An error that is replaced: what replaces it is a status.
  pub Reports-map_err :
      {A : Type 0} (f : Err → Err) (m : Action W A)
      → ((x : Err) → is_status (f x) ≡ true)
      → Reports (map_err f m)
  Reports-map_err {A} f m k = record { at = λ w e h. go (m w) e h }
    where
      go :
          (r : Result A × W) (e : Err)
          → (elim r.0 as (λ _. Result A × W) [ ok a ↦ (ok a, r.1) | err x ↦ (err (f x), r.1) ]).0
            ≡ err e
          → is_status e ≡ true
      go (ok a, u) e h = cc
      go (err x, u) e h = let same : f x ≡ e = ground arith in rw (sym same) (k x)

  pub Reports-translate : {A : Type 0} (m : Action W A) → Reports (translate m)
  unfolding translate
  Reports-translate m = Reports-map_err translate_error m translated

  pub Reports-found_or :
      {A : Type 0} (c : Code) (t : String) (m : Action W A) → Reports (found_or (status c t) m)
  unfolding found_or
  Reports-found_or c t m = Reports-map_err (missing_error (status c t)) m (missing c t)

  pub Reports-replaced :
      {A : Type 0} (c : Code) (t : String) (m : Action W A) → Reports (map_err (λ x. status c t) m)
  unfolding is_status
  Reports-replaced c t m = Reports-map_err (λ x. status c t) m (λ x. refl)

  pub Reports-translated :
      {A : Type 0} (x : Err) → Reports {W = W} {A = A} (λ w. (err (translate_error x), w))
  Reports-translated x = record {
    at = λ w e h. let same : translate_error x ≡ e = ground arith in rw (sym same) (translated x);
  }

  pub Reports-if :
      {A : Type 0} (b : Bool) (m n : Action W A)
      → Reports m
      → Reports n
      → Reports (if b then m else n)
  Reports-if true m n rm rn = rm
  Reports-if false m n rm rn = rn

pub ruleset reports_rules = (
  Reports-ok, Reports-raise, Reports-raise_if, Reports-or_raise, Reports-try, Reports-bind,
  Reports-translate, Reports-found_or, Reports-replaced, Reports-translated, Reports-if,
)
