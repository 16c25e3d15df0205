-- ===== src/Transactions/Merchants/Pages.antt =====
-- Which merchants a client of `ListMerchants` (transactions/merchants/service.go) can see.
use mathlib.Core.List.{Memᴰ}
use rvpay_go.Base.Pagination.{PaginationRequest, drop, negsuc, pos, requested_size, take, ℤ}
use rvpay_go.Base.{
  leb, Bool-cases, ap, ℕ, zero, suc, ◌+◌, ◌≤◌, Bool, true, false, Option, none, some, List, [], ◌∷◌,
  map, ltb, length, ◌≡◌, refl, ◌⊎◌, inl, inr, arith, if◌then◌else◌,
}
use rvpay_go.Base.Text.{is_empty}
use rvpay_go.Base.Effect.{ok}
use rvpay_go.Base.Table.{order_rows, insert_row}
use rvpay_go.Transactions.Model.{Merchant, Env, Db}
use rvpay_go.Transactions.Convert.{merchant_to_proto}
use rvpay_go.Transactions.Repo.Merchants as MerchantRepo
use rvpay_go.Transactions.Store.Merchants.{list_merchants, count_merchants}
use rvpay_go.Transactions.Merchants as Service
use rvpay_go.Transactions.Merchants.{ListMerchantsResponse, page_bounds, max_page_size}

-- Whatever page is asked for, it has between 1 and 100 merchants at most, and starts either at the
-- first merchant or at the one after the first page: no request reaches further.
pub page_bounds_range :
    (page : Option PaginationRequest)
    → (1 ≤ (page_bounds page).0)
      × ((page_bounds page).0 ≤ 100)
      × (((page_bounds page).1 ≡ 0) ⊎ ((page_bounds page).1 ≡ (page_bounds page).0))
unfolding page_bounds
page_bounds_range none = (ground arith, ground arith, inl refl)
page_bounds_range (some page) = go page.page_size (is_empty page.page_token)
  where
    go :
        (n : ℤ) (first : Bool)
        → let asked = requested_size n in
          let size = if ltb max_page_size asked then max_page_size else asked in
          (1 ≤ size)
          × (size ≤ 100)
          × (((if first then 0 else size) ≡ 0) ⊎ ((if first then 0 else size) ≡ size))
    go (pos n) true = (ground arith, ground arith, inl refl)
    go (pos n) false = (ground arith, ground arith, inr refl)
    go (negsuc n) true = (ground arith, ground arith, inl refl)
    go (negsuc n) false = (ground arith, ground arith, inr refl)

-- A window of a list lies in its beginning.
module _ {A : Type 0} where
  mem-take_more : (k n : ℕ) (xs : List A) {x : A} → k ≤ n → Memᴰ x (take k xs) → Memᴰ x (take n xs)
  mem-take_more zero n xs h m = elim m [ ]
  mem-take_more (suc k) zero xs h m = absurd (omega arith)
  mem-take_more (suc k) (suc n) [] h m = elim m [ ]
  mem-take_more (suc k) (suc n) (y ∷ ys) h (Memᴰ.head e) = Memᴰ.head e
  mem-take_more (suc k) (suc n) (y ∷ ys) h (Memᴰ.tail m) =
      Memᴰ.tail (mem-take_more k n ys (omega arith) m)

  mem-take-drop :
      (o k n : ℕ) (xs : List A) {x : A}
      → o + k ≤ n
      → Memᴰ x (take k (drop o xs))
      → Memᴰ x (take n xs)
  mem-take-drop zero k n xs h m = mem-take_more k n xs (omega arith) m
  mem-take-drop (suc o) k zero xs h m = absurd (omega arith)
  mem-take-drop (suc o) zero (suc n) [] h m = elim m [ ]
  mem-take-drop (suc o) (suc k) (suc n) [] h m = elim m [ ]
  mem-take-drop (suc o) k (suc n) (y ∷ ys) h m = Memᴰ.tail (mem-take-drop o k n ys (omega arith) m)

  length-take : (k : ℕ) (xs : List A) → length (take k xs) ≤ k
  length-take zero xs = ground arith
  length-take (suc k) [] = ground arith
  length-take (suc k) (x ∷ xs) = let h = length-take k xs in ground arith

-- The two queries succeeded, and the reply is made of what they returned.
listed :
    (env : Env) (page : Option PaginationRequest) (db : Db) {r : ListMerchantsResponse} {u : Db}
    → Service.list_merchants env (some page) db ≡ (ok r, u)
    → let rows =
        take
          (page_bounds page).0
          (drop (page_bounds page).1 (order_rows Merchant.created_at db.merchants)) in
      (r.merchants ≡ map (merchant_to_proto env) rows)
      × (r.total_count ≡ length db.merchants)
      × (r.next_page_token
          ≡ (if ltb ((page_bounds page).1 + length rows) (length db.merchants) then "next" else ""))
unfolding Service.list_merchants MerchantRepo.list MerchantRepo.count list_merchants count_merchants
listed env page db h = ground arith

-- In the order of creation.
abbrev pub IsOrdered : List Merchant → Type 0
IsOrdered [] = Unit {0}
IsOrdered (m ∷ ms) = ((x : Merchant) → Memᴰ x ms → m.created_at ≤ x.created_at) × IsOrdered ms

mem-insert_row :
    (y : Merchant) (ms : List Merchant) {x : Merchant}
    → Memᴰ x (insert_row Merchant.created_at y ms)
    → (x ≡ y) ⊎ Memᴰ x ms
unfolding insert_row
mem-insert_row y [] (Memᴰ.head e) = inl e
mem-insert_row y [] (Memᴰ.tail j) = elim j [ ]
mem-insert_row y (m ∷ ms) i = elim (Bool-cases (leb y.created_at m.created_at)) [
  | inl e ↦ elim (rw e at i) [ Memᴰ.head q ↦ inl q | Memᴰ.tail j ↦ inr j ]
  | inr e ↦ elim (rw e at i) [
    | Memᴰ.head q ↦ inr (Memᴰ.head q)
    | Memᴰ.tail j ↦ elim (mem-insert_row y ms j) [ inl q ↦ inl q | inr k ↦ inr (Memᴰ.tail k) ]
  ]
]

insert_row-IsOrdered :
    (y : Merchant) (ms : List Merchant)
    → IsOrdered ms
    → IsOrdered (insert_row Merchant.created_at y ms)
unfolding insert_row
insert_row-IsOrdered y [] o = ((λ x i. elim i [ ]), tt)
insert_row-IsOrdered y (m ∷ ms) (first, rest) = elim (Bool-cases (leb y.created_at m.created_at)) [
  | inl e ↦ rw e (
    (λ x i. elim i [
      | Memᴰ.head q ↦ let at = ap Merchant.created_at q in ground arith
      | Memᴰ.tail j ↦ let after = first x j in ground arith
    ]),
    (first, rest),
  )
  | inr e ↦ rw e (
    (λ x i. elim (mem-insert_row y ms i) [
      | inl q ↦ let at = ap Merchant.created_at q in ground arith
      | inr k ↦ first x k
    ]),
    insert_row-IsOrdered y ms rest,
  )
]

order_rows-IsOrdered : (ms : List Merchant) → IsOrdered (order_rows Merchant.created_at ms)
unfolding order_rows
order_rows-IsOrdered [] = tt
order_rows-IsOrdered (m ∷ ms) =
    insert_row-IsOrdered m (order_rows Merchant.created_at ms) (order_rows-IsOrdered ms)

-- A reply of `ListMerchants` is the page of its request, of at most a hundred merchants from the
-- order of creation: the first of them, or those that follow as many, and its total is the number of
-- merchants; yet each merchant of the reply is among the first two hundred, whatever page was asked for.
pub list_merchants_reach :
    (env : Env) (page : Option PaginationRequest) (db : Db) {r : ListMerchantsResponse} {u : Db}
    → Service.list_merchants env (some page) db ≡ (ok r, u)
    → let rows = order_rows Merchant.created_at db.merchants in
      IsOrdered rows
      × (size : ℕ) × (offset : ℕ) × (page_bounds page ≡ (size, offset))
      × (size ≤ 100)
      × ((offset ≡ 0) ⊎ (offset ≡ size))
      × (r.merchants ≡ map (merchant_to_proto env) (take size (drop offset rows)))
      × ((m : Merchant) → Memᴰ m (take size (drop offset rows)) → Memᴰ m (take 200 rows))
      × (r.total_count ≡ length db.merchants)
list_merchants_reach env page db h =
    let (size, offset) = page_bounds page in
    let rows = order_rows Merchant.created_at db.merchants in
    let (e, t, _) = listed env page db h in
    let (_, small, start) = page_bounds_range page in
    (
      order_rows-IsOrdered db.merchants,
      size,
      offset,
      refl,
      small,
      start,
      e,
      (λ m i.
          mem-take-drop offset size 200 rows
            (elim start [ inl z ↦ omega arith | inr z ↦ omega arith ]) i),
      t,
    )
