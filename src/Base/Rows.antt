-- ===== src/Base/Rows.antt =====
-- Which rows of a table a condition fits, after rows have been added, changed and removed.
use Prim.Native.Nat.{◌≤◌}
use mathlib.Core.Path.{◌≡◌, refl}
use mathlib.Core.Logic.{inl, inr}
use mathlib.Core.Bool.{Bool, true, false}
use mathlib.Core.Option.{none, some}
use mathlib.Core.List.{List, [], ◌∷◌, ◌++◌, map}
use native.Mathlib.Omega.{arith}
use rvpay_go.Base.Tests.{if◌then◌else◌, Bool-cases}
use rvpay_go.Base.Table.{find_row, any_row, update_rows, count_rows}

module _ {R : Type 0} where
  pub any_row-weaken :
      (p q : R → Bool) (xs : List R)
      → ((x : R) → p x ≡ true → q x ≡ true)
      → any_row p xs ≡ true
      → any_row q xs ≡ true
  unfolding any_row
  any_row-weaken p q [] k h = h
  any_row-weaken p q (x ∷ xs) k h = elim (Bool-cases (p x)) [
    | inl e ↦ let f = k x e in ground arith
    | inr e ↦ let rest = any_row-weaken p q xs k (ground arith) in ground arith
  ]

  pub any_row-append_last :
      (p : R → Bool) (xs : List R) (y : R)
      → any_row p (xs ++ y ∷ []) ≡ (if any_row p xs then true else p y)
  unfolding any_row
  any_row-append_last p [] y = ground arith
  any_row-append_last p (x ∷ xs) y = let rest = any_row-append_last p xs y in ground arith

  pub any_row-update :
      (p q : R → Bool) (f : R → R) (xs : List R)
      → ((x : R) → p (f x) ≡ p x)
      → any_row p (update_rows q f xs) ≡ any_row p xs
  unfolding any_row update_rows
  any_row-update p q f [] k = refl
  any_row-update p q f (x ∷ xs) k =
      let rest = any_row-update p q f xs k in let e = k x in ground arith

  pub any_row-update_false :
      (p q : R → Bool) (f : R → R) (xs : List R)
      → ((x : R) → p (f x) ≡ false)
      → any_row p xs ≡ false
      → any_row p (update_rows q f xs) ≡ false
  unfolding any_row update_rows
  any_row-update_false p q f [] k h = h
  any_row-update_false p q f (x ∷ xs) k h =
      let rest = any_row-update_false p q f xs k (ground arith) in let e = k x in ground arith

  pub any_row-none :
      (p q : R → Bool) (xs : List R)
      → ((x : R) → p x ≡ true → q x ≡ true)
      → count_rows q xs ≡ 0
      → any_row p xs ≡ false
  unfolding any_row count_rows
  any_row-none p q [] k h = refl
  any_row-none p q (x ∷ xs) k h = elim (Bool-cases (p x)) [
    | inl e ↦ let f = k x e in ground arith
    | inr e ↦ elim (Bool-cases (q x)) [
      | inl f ↦ ground arith
      | inr f ↦ let rest = any_row-none p q xs k (ground arith) in ground arith
    ]
  ]

  pub any_row-false :
      (p q : R → Bool) (xs : List R)
      → ((x : R) → p x ≡ true → q x ≡ true)
      → any_row q xs ≡ false
      → any_row p xs ≡ false
  any_row-false p q xs k h = elim (Bool-cases (any_row p xs)) [
    | inl e ↦ absurd (cc (rw (any_row-weaken p q xs k e) at h))
    | inr e ↦ e
  ]

  pub find_row-none : (p : R → Bool) (xs : List R) → any_row p xs ≡ false → find_row p xs ≡ none
  unfolding any_row find_row
  find_row-none p [] h = refl
  find_row-none p (x ∷ xs) h = let rest = find_row-none p xs (ground arith) in ground arith

  pub find_row-any :
      (p : R → Bool) (xs : List R) {r : R} → find_row p xs ≡ some r → any_row p xs ≡ true
  unfolding any_row find_row
  find_row-any p [] h = cc
  find_row-any p (x ∷ xs) {r} h = elim (Bool-cases (p x)) [
    | inl e ↦ ground arith
    | inr e ↦ let rest = find_row-any p xs {r = r} (ground arith) in ground arith
  ]

  -- One row has the key; the update finds it and closes it.
  pub update-closes :
      (fresh consumable has : R → Bool) (f : R → R) (xs : List R)
      → ((x : R) → fresh x ≡ true → has x ≡ true)
      → ((x : R) → consumable x ≡ true → has x ≡ true)
      → ((x : R) → fresh (f x) ≡ false)
      → count_rows has xs ≤ 1
      → any_row consumable xs ≡ true
      → any_row fresh (update_rows consumable f xs) ≡ false
  unfolding any_row update_rows count_rows
  update-closes o c has f [] ko kc kf n h = refl
  update-closes o c has f (x ∷ xs) ko kc kf n h = elim (Bool-cases (c x)) [
    | inl e ↦
        let hx = kc x e in
        let rest = any_row-update_false o c f xs kf (any_row-none o has xs ko (ground arith)) in
        let fx = kf x in ground arith
    | inr e ↦ elim (Bool-cases (has x)) [
      | inl g ↦ let none_left = any_row-none c has xs kc (ground arith) in ground arith
      | inr g ↦
          let rest = update-closes o c has f xs ko kc kf (ground arith) (ground arith) in
          elim (Bool-cases (o x)) [
            | inl ox ↦ let hx = ko x ox in ground arith
            | inr ox ↦ ground arith
          ]
    ]
  ]

pub update_rows-map :
    {A B : Type 0} (p : A → Bool) (f : A → A) (g : A → B) (xs : List A)
    → ((x : A) → g (f x) ≡ g x)
    → map g (update_rows p f xs) ≡ map g xs
unfolding update_rows
update_rows-map p f g [] k = refl
update_rows-map p f g (x ∷ xs) k =
    let rest = update_rows-map p f g xs k in let e = k x in ground arith
