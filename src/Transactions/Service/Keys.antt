-- ===== src/Transactions/Service/Keys.antt =====
-- The unique keys of the tables of transactions/db/migrations.
use mathlib.Core.List.{Memᴰ, map-append}
use rvpay_go.Base.Rows.{update_rows-map}
use rvpay_go.Base.{
  map, sym, inl, inr, eq_iff, String, Bool, true, false, none, List, [], ◌∷◌, ◌++◌, ◌==◌, ◌≡◌, ◌∙◌,
  refl, ap, arith,
}
use rvpay_go.Base.Table.{any_row, update_rows, mem-append_cases}
use rvpay_go.Transactions.Model.{
  Uuid, Time, Merchant, Customer, DepositRow, PayoutRow, Tables, Env, Db,
}
use rvpay_go.Transactions.Store.Merchants.{merchant_refusal, merchant_conflicts}
use rvpay_go.Transactions.Store.Customers.{customer_refusal, customer_conflicts}
use rvpay_go.Transactions.Store.Deposits.{deposit_refusal, deposit_conflicts, set_ghl_reference}
use rvpay_go.Transactions.Store.Payouts.{payout_refusal, payout_conflicts}
use rvpay_go.Transactions.Change.{
  Change, same, merchant_added, customer_added, deposit_added, payout_added, reference_set,
}
use rvpay_go.Transactions.Service.{Call, run}
use rvpay_go.Transactions.Service.Refinement.{run_keeps}

-- No value of the list occurs twice.
abbrev pub NoRepeat : {K : Type 0} → List K → Type 0
NoRepeat [] = Unit
NoRepeat {K} (k ∷ ks) = ((j : K) → Memᴰ j ks → ¬ (j ≡ k)) × NoRepeat ks

abbrev pub phone_key : Customer → Uuid × Uuid × String
phone_key c = (c.client_id, c.merchant_id, c.phone_number)

-- The unique keys of the schema, column by column.
pub record HasKeys (t : Tables) : Type 0 where
  pub merchant_ids : NoRepeat (map Merchant.id t.merchants)
  pub merchant_slugs : NoRepeat (map Merchant.slug t.merchants)
  pub customer_ids : NoRepeat (map Customer.id t.customers)
  pub customer_phones : NoRepeat (map phone_key t.customers)
  pub deposit_ids : NoRepeat (map DepositRow.id t.deposits)
  pub deposit_idempotency_keys : NoRepeat (map DepositRow.idempotency_key t.deposits)
  pub payout_ids : NoRepeat (map PayoutRow.id t.payouts)
  pub payout_idempotency_keys : NoRepeat (map PayoutRow.idempotency_key t.payouts)

module _ {K : Type 0} where
  NoRepeat-append_last :
      (ks : List K) (k : K)
      → ((j : K) → Memᴰ j ks → ¬ (j ≡ k))
      → NoRepeat ks
      → NoRepeat (ks ++ k ∷ [])
  NoRepeat-append_last [] k f n = ((λ j m. elim m [ ]), tt)
  NoRepeat-append_last (x ∷ ks) k f (new, n) = (
    (λ j m e. elim (mem-append_cases ks k m) [
      | inl i ↦ new j i e
      | inr q ↦ f x (Memᴰ.head refl) (sym e ∙ q)
    ]),
    NoRepeat-append_last ks k (λ j m. f j (Memᴰ.tail m)) n,
  )

module _ {A K : Type 0} (key : A → K) (clash : A → A → Bool)
    (clashes : (x y : A) → key x ≡ key y → clash y x ≡ true) where
  -- A row that clashes with none has a key of its own.
  fresh_key :
      (row : A) (xs : List A)
      → any_row (clash row) xs ≡ false
      → (j : K) → Memᴰ j (map key xs)
      → ¬ (j ≡ key row)
  unfolding any_row
  fresh_key row [] h j m k = elim m [ ]
  fresh_key row (x ∷ xs) h j (Memᴰ.head e) k =
      let same = clashes x row (sym e ∙ k) in absurd (ground arith)
  fresh_key row (x ∷ xs) h j (Memᴰ.tail m) k = fresh_key row xs (ground arith) j m k

  NoRepeat-insert :
      (row : A) (xs : List A)
      → any_row (clash row) xs ≡ false
      → NoRepeat (map key xs)
      → NoRepeat (map key (xs ++ row ∷ []))
  NoRepeat-insert row xs h n =
      rw (map-append key xs (row ∷ []))
        (NoRepeat-append_last (map key xs) (key row) (fresh_key row xs h) n)

merchant_admitted :
    (row : Merchant) (t : Tables)
    → merchant_refusal row t ≡ none
    → any_row (merchant_conflicts row) t.merchants ≡ false
unfolding merchant_refusal
merchant_admitted row t h = ground arith

customer_admitted :
    (row : Customer) (t : Tables)
    → customer_refusal row t ≡ none
    → any_row (customer_conflicts row) t.customers ≡ false
unfolding customer_refusal
customer_admitted row t h = ground arith

deposit_admitted :
    (row : DepositRow) (t : Tables)
    → deposit_refusal row t ≡ none
    → any_row (deposit_conflicts row) t.deposits ≡ false
unfolding deposit_refusal
deposit_admitted row t h = ground arith

payout_admitted :
    (row : PayoutRow) (t : Tables)
    → payout_refusal row t ≡ none
    → any_row (payout_conflicts row) t.payouts ≡ false
unfolding payout_refusal
payout_admitted row t h = ground arith

same_slug : (x y : Merchant) → x.slug ≡ y.slug → merchant_conflicts y x ≡ true
same_slug x y e = ground (arith, eq_iff x.slug y.slug)

same_phone : (x y : Customer) → phone_key x ≡ phone_key y → customer_conflicts y x ≡ true
same_phone x y e =
    let c : x.client_id ≡ y.client_id = ap (λ q. q.0) e in
    let m : x.merchant_id ≡ y.merchant_id = ap (λ q. q.1) e in
    let p : x.phone_number ≡ y.phone_number = ap (λ q. q.2) e in
    ground (arith, eq_iff x.phone_number y.phone_number)

-- A change of the GoHighLevel reference leaves a column alone.
column_kept :
    {K : Type 0} (key : DepositRow → K) (p : DepositRow → Bool) (a b : String) (n : Time)
    (ds : List DepositRow)
    → ((d : DepositRow) → key (set_ghl_reference a b n d) ≡ key d)
    → map key (update_rows p (set_ghl_reference a b n) ds) ≡ map key ds
column_kept key p a b n ds k = update_rows-map p (set_ghl_reference a b n) key ds k

Change-HasKeys : (t u : Tables) → Change t u → HasKeys t → HasKeys u
Change-HasKeys t u (same e) k = rw e k
Change-HasKeys t u (merchant_added row r e) k = rw e (record {
  merchant_ids =
      NoRepeat-insert Merchant.id merchant_conflicts (λ a b e. ground arith) row t.merchants
        (merchant_admitted row t r) k.merchant_ids;
  merchant_slugs =
      NoRepeat-insert Merchant.slug merchant_conflicts (same_slug) row t.merchants
        (merchant_admitted row t r) k.merchant_slugs;
  customer_ids = k.customer_ids;
  customer_phones = k.customer_phones;
  deposit_ids = k.deposit_ids;
  deposit_idempotency_keys = k.deposit_idempotency_keys;
  payout_ids = k.payout_ids;
  payout_idempotency_keys = k.payout_idempotency_keys;
})
Change-HasKeys t u (customer_added row r e) k = rw e (record {
  merchant_ids = k.merchant_ids;
  merchant_slugs = k.merchant_slugs;
  customer_ids =
      NoRepeat-insert Customer.id customer_conflicts (λ a b e. ground arith) row t.customers
        (customer_admitted row t r) k.customer_ids;
  customer_phones =
      NoRepeat-insert phone_key customer_conflicts (same_phone) row t.customers
        (customer_admitted row t r) k.customer_phones;
  deposit_ids = k.deposit_ids;
  deposit_idempotency_keys = k.deposit_idempotency_keys;
  payout_ids = k.payout_ids;
  payout_idempotency_keys = k.payout_idempotency_keys;
})
Change-HasKeys t u (deposit_added row c r f i x y z e) k = rw e (record {
  merchant_ids = k.merchant_ids;
  merchant_slugs = k.merchant_slugs;
  customer_ids = k.customer_ids;
  customer_phones = k.customer_phones;
  deposit_ids =
      NoRepeat-insert DepositRow.id deposit_conflicts (λ a b e. ground arith) row t.deposits
        (deposit_admitted row t r) k.deposit_ids;
  deposit_idempotency_keys =
      NoRepeat-insert DepositRow.idempotency_key deposit_conflicts (λ a b e. ground arith) row
        t.deposits (deposit_admitted row t r) k.deposit_idempotency_keys;
  payout_ids = k.payout_ids;
  payout_idempotency_keys = k.payout_idempotency_keys;
})
Change-HasKeys t u (payout_added row r x e) k = rw e (record {
  merchant_ids = k.merchant_ids;
  merchant_slugs = k.merchant_slugs;
  customer_ids = k.customer_ids;
  customer_phones = k.customer_phones;
  deposit_ids = k.deposit_ids;
  deposit_idempotency_keys = k.deposit_idempotency_keys;
  payout_ids =
      NoRepeat-insert PayoutRow.id payout_conflicts (λ a b e. ground arith) row t.payouts
        (payout_admitted row t r) k.payout_ids;
  payout_idempotency_keys =
      NoRepeat-insert PayoutRow.idempotency_key payout_conflicts (λ a b e. ground arith) row
        t.payouts (payout_admitted row t r) k.payout_idempotency_keys;
})
Change-HasKeys t u (reference_set d x y n f e) k = rw e (record {
  merchant_ids = k.merchant_ids;
  merchant_slugs = k.merchant_slugs;
  customer_ids = k.customer_ids;
  customer_phones = k.customer_phones;
  deposit_ids =
      rw (column_kept DepositRow.id (λ z. z.id == d.id) x y n t.deposits (λ q. refl)) k.deposit_ids;
  deposit_idempotency_keys =
      rw (column_kept DepositRow.idempotency_key (λ z. z.id == d.id) x y n t.deposits (λ q. refl))
        k.deposit_idempotency_keys;
  payout_ids = k.payout_ids;
  payout_idempotency_keys = k.payout_idempotency_keys;
})

-- No list of calls breaks a unique key: no two merchants have an id or a slug in common, no two
-- customers an id or a client, merchant and phone number, no two deposits and no two payouts an id
-- or an idempotency key.
pub run-HasKeys :
    (env : Env) (calls : List Call) (db : Db)
    → HasKeys db.tables
    → HasKeys (run env calls db).tables
run-HasKeys env = run_keeps env HasKeys Change-HasKeys
