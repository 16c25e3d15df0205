-- ===== src/Base/Table.antt =====
-- A database table as the list of its rows, and what the SQL statements do with it.
use Prim.Native.Nat.{ℕ, suc}
use mathlib.Core.Path.{◌≡◌, refl}
use mathlib.Core.Logic.{◌⊎◌, inl, inr}
use mathlib.Core.Bool.{Bool, true, false, ◌||◌}
use mathlib.Core.Option.{Option, none, some}
use mathlib.Core.List.{List, [], ◌∷◌, ◌++◌, Memᴰ}
use native.Mathlib.Omega.{arith}
use rvpay_go.Base.Tests.{if◌then◌else◌, leb, Bool-cases}

module _ {A : Type 0} where
  -- `SELECT * FROM t WHERE p`, read as `:one`: the first row in table order.
  unfoldable pub find_row : (A → Bool) → List A → Option A
  find_row p [] = none
  find_row p (x ∷ xs) = if p x then some x else find_row p xs

  -- `EXISTS (SELECT 1 FROM t WHERE p)`.
  unfoldable pub any_row : (A → Bool) → List A → Bool
  any_row p [] = false
  any_row p (x ∷ xs) = p x || any_row p xs

  -- `SELECT * FROM t WHERE p`, read as `:many`.
  unfoldable pub filter_rows : (A → Bool) → List A → List A
  filter_rows p [] = []
  filter_rows p (x ∷ xs) = let rest = filter_rows p xs in if p x then x ∷ rest else rest

  -- `UPDATE t SET f WHERE p`.
  unfoldable pub update_rows : (A → Bool) → (A → A) → List A → List A
  update_rows p f [] = []
  update_rows p f (x ∷ xs) = (if p x then f x else x) ∷ update_rows p f xs

  -- `DELETE FROM t WHERE p`.
  unfoldable pub delete_rows : (A → Bool) → List A → List A
  delete_rows p [] = []
  delete_rows p (x ∷ xs) = let rest = delete_rows p xs in if p x then rest else x ∷ rest

  -- `SELECT COUNT(*) FROM t WHERE p`.
  unfoldable pub count_rows : (A → Bool) → List A → ℕ
  count_rows p [] = 0
  count_rows p (x ∷ xs) = if p x then suc (count_rows p xs) else count_rows p xs

  -- `ORDER BY key`, rows with equal keys in table order.
  unfoldable pub insert_row : (A → ℕ) → A → List A → List A
  insert_row key x [] = x ∷ []
  insert_row key x (y ∷ ys) = if leb (key x) (key y) then x ∷ y ∷ ys else y ∷ insert_row key x ys

  unfoldable pub order_rows : (A → ℕ) → List A → List A
  unfolding insert_row
  order_rows key [] = []
  order_rows key (x ∷ xs) = insert_row key x (order_rows key xs)

  -- A statement that returns the first row which a condition admits, and the row's place.
  pub find_row-mem :
      (p : A → Bool) (xs : List A) {x : A} → find_row p xs ≡ some x → Memᴰ x xs × (p x ≡ true)
  unfolding find_row
  find_row-mem p [] h = cc
  find_row-mem p (y ∷ ys) {x} h = elim (Bool-cases (p y)) [
    | inl e ↦ (Memᴰ.head (ground arith), ground arith)
    | inr e ↦ let r = find_row-mem p ys {x = x} (ground arith) in (Memᴰ.tail r.0, r.1)
  ]

  pub any_row-true :
      (p : A → Bool) (xs : List A) → any_row p xs ≡ true → (x : A) × Memᴰ x xs × (p x ≡ true)
  unfolding any_row
  any_row-true p [] h = cc
  any_row-true p (y ∷ ys) h = elim (Bool-cases (p y)) [
    | inl e ↦ (y, Memᴰ.head refl, e)
    | inr e ↦ let (x, m, q) = any_row-true p ys (ground arith) in (x, Memᴰ.tail m, q)
  ]

  pub mem-append_left : {x : A} (xs ys : List A) → Memᴰ x xs → Memᴰ x (xs ++ ys)
  mem-append_left [] ys m = elim m [ ]
  mem-append_left (y ∷ xs) ys (Memᴰ.head e) = Memᴰ.head e
  mem-append_left (y ∷ xs) ys (Memᴰ.tail m) = Memᴰ.tail (mem-append_left xs ys m)

  pub mem-append_cases : {x : A} (xs : List A) (y : A) → Memᴰ x (xs ++ y ∷ []) → Memᴰ x xs ⊎ (x ≡ y)
  mem-append_cases [] y (Memᴰ.head e) = inr e
  mem-append_cases [] y (Memᴰ.tail m) = elim m [ ]
  mem-append_cases (z ∷ xs) y (Memᴰ.head e) = inl (Memᴰ.head e)
  mem-append_cases (z ∷ xs) y (Memᴰ.tail m) = elim (mem-append_cases xs y m) [
    | inl n ↦ inl (Memᴰ.tail n)
    | inr e ↦ inr e
  ]

  -- Each row after an `UPDATE` is a row from before, changed if the condition admitted it.
  pub mem-update_rows :
      (p : A → Bool) (f : A → A) (xs : List A) {y : A}
      → Memᴰ y (update_rows p f xs)
      → (x : A) × Memᴰ x xs × (y ≡ (if p x then f x else x))
  unfolding update_rows
  mem-update_rows p f [] m = elim m [ ]
  mem-update_rows p f (x ∷ xs) (Memᴰ.head e) = (x, Memᴰ.head refl, e)
  mem-update_rows p f (x ∷ xs) (Memᴰ.tail m) =
      let (z, n, e) = mem-update_rows p f xs m in (z, Memᴰ.tail n, e)
