-- ===== src/Base/Pagination.antt =====
-- The message `PaginationRequest` of protobuf/common.proto, as the services read it, and the clauses
-- LIMIT and OFFSET of a query.
use Prim.Native.Nat.{ℕ, zero, suc}
use Prim.Native.String.{String}
use mathlib.Core.List.{List, [], ◌∷◌}
use rvpay_go.Base.Tests.{ltb, if◌then◌else◌}

-- `negsuc n` is -(n + 1).
pub data ℤ : Type 0 where
  pos : ℕ → ℤ
  negsuc : ℕ → ℤ

pub record PaginationRequest : Type 0 where
  pub page_size : ℤ
  pub page_token : String

abbrev pub default_page_size : ℕ
default_page_size = 20

-- `if size > 0 { pageSize = size }`, from the default.
abbrev pub requested_size : ℤ → ℕ
requested_size (pos n) = if ltb 0 n then n else default_page_size
requested_size (negsuc _) = default_page_size

abbrev pub take {ℓ} : {A : Type ℓ} → ℕ → List A → List A
take zero _ = []
take (suc n) [] = []
take (suc n) (x ∷ xs) = x ∷ take n xs

abbrev pub drop {ℓ} : {A : Type ℓ} → ℕ → List A → List A
drop zero xs = xs
drop (suc n) [] = []
drop (suc n) (_ ∷ xs) = drop n xs
