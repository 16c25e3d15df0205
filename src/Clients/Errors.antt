-- ===== src/Clients/Errors.antt =====
-- The translation of the repositories' errors: clients/webhooks/errors.go, clients/oauth/errors.go,
-- clients/payments/errors.go and clients/service/errors.go have the same.
use rvpay_go.Base.Effect.{
  Action, Err, err_constraint, err_duplicate, err_not_found, already_exists, failed_precondition,
  internal, not_found, status, map_err,
}

-- `translateError`, and `translateRepoError` of clients/service.
unfoldable pub translate_error : Err → Err
translate_error err_not_found = status not_found "record not found"
translate_error err_duplicate = status already_exists "record already exists"
translate_error err_constraint = status failed_precondition "constraint violation"
translate_error _ = status internal "internal error"

-- `if err == repo.ErrNotFound { return missing }; if err != nil { return translateError(err) }`.
unfoldable pub missing_error : Err → Err → Err
missing_error missing err_not_found = missing
missing_error missing e = translate_error e

unfoldable pub translate : {W A : Type 0} → Action W A → Action W A
translate m = map_err translate_error m

unfoldable pub found_or : {W A : Type 0} → Err → Action W A → Action W A
found_or missing m = map_err (missing_error missing) m
