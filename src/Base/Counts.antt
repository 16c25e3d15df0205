-- ===== src/Base/Counts.antt =====
-- How many rows of a table fit a condition, after an insertion, an update and a deletion.
use rvpay_go.Base.Tests.{if◌then◌else◌, Bool-cases}
use rvpay_go.Base.Table.{any_row, update_rows, delete_rows, count_rows}
use Prim.Native.Nat.{◌≤◌, suc}
use mathlib.Core.Path.{◌≡◌, refl}
use mathlib.Core.Logic.{inl, inr}
use mathlib.Core.Bool.{Bool, true, false}
use mathlib.Core.List.{List, [], ◌∷◌, ◌++◌}
use native.Mathlib.Omega.{arith}

module _ {R : Type 0} where
  count_rows-absent : (p : R → Bool) (xs : List R) → any_row p xs ≡ false → count_rows p xs ≡ 0
  unfolding any_row count_rows
  count_rows-absent p [] h = refl
  count_rows-absent p (x ∷ xs) h = let rest = count_rows-absent p xs (ground arith) in ground arith

  count_rows-append_last :
      (p : R → Bool) (xs : List R) (y : R)
      → count_rows p (xs ++ y ∷ []) ≡ (if p y then suc (count_rows p xs) else count_rows p xs)
  unfolding count_rows
  count_rows-append_last p [] y = refl
  count_rows-append_last p (x ∷ xs) y =
      let rest = count_rows-append_last p xs y in
      elim (Bool-cases (p y)) [ inl e ↦ ground arith | inr e ↦ ground arith ]

  -- A row that no other of its key precedes leaves the key with one row at most.
  pub one-append_last :
      (p : R → Bool) (xs : List R) (y : R)
      → (p y ≡ true → any_row p xs ≡ false)
      → count_rows p xs ≤ 1
      → count_rows p (xs ++ y ∷ []) ≤ 1
  one-append_last p xs y k h =
      let counted = count_rows-append_last p xs y in
      elim (Bool-cases (p y)) [
        | inl e ↦ let empty = count_rows-absent p xs (k e) in ground arith
        | inr e ↦ ground arith
      ]

  pub count_rows-update :
      (p q : R → Bool) (f : R → R) (xs : List R)
      → ((x : R) → p (f x) ≡ p x)
      → count_rows p (update_rows q f xs) ≡ count_rows p xs
  unfolding count_rows update_rows
  count_rows-update p q f [] k = refl
  count_rows-update p q f (x ∷ xs) k =
      let rest = count_rows-update p q f xs k in let e = k x in ground arith

  pub count_rows-delete :
      (p q : R → Bool) (xs : List R) → count_rows p (delete_rows q xs) ≤ count_rows p xs
  unfolding count_rows delete_rows
  count_rows-delete p q [] = ground arith
  count_rows-delete p q (x ∷ xs) = let rest = count_rows-delete p q xs in ground arith
