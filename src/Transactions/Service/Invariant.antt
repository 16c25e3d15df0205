-- ===== src/Transactions/Service/Invariant.antt =====
-- What is to hold of the tables of transactions/db/migrations between two calls.
use mathlib.Core.List.{Memᴰ}
use mathlib.Core.Path.{subst}
use rvpay_go.Base.{
  Bool, true, false, none, List, [], ◌∷◌, ◌++◌, ◌==◌, ◌≡◌, sym, ◌∙◌, ap, inl, inr, arith, eq_iff,
  ==→eq, if◌then◌else◌, Bool-cases, String,
}
use rvpay_go.Base.Table.{
  find_row-mem, any_row, any_row-true, mem-append_left, mem-append_cases, mem-update_rows,
  update_rows,
}
use rvpay_go.Transactions.Model.{Uuid, Merchant, Customer, DepositRow, PayoutRow, Tables, Env, Db}
use rvpay_go.Transactions.Store.Columns.{is_currency}
use rvpay_go.Transactions.Store.Customers.{customer_refusal, has_key}
use rvpay_go.Transactions.Store.Deposits.{deposit_refusal, deposit_conflicts, set_ghl_reference}
use rvpay_go.Transactions.Store.Payouts.{payout_refusal}
use rvpay_go.Transactions.Change.{
  Change, same, merchant_added, customer_added, deposit_added, payout_added, reference_set,
}
use rvpay_go.Transactions.Service.{Call, run}
use rvpay_go.Transactions.Service.Refinement.{run_keeps}

-- The merchant that a row refers to is there.
abbrev pub HasMerchant : List Merchant → Uuid → Type 0
HasMerchant ms id = (m : Merchant) × Memᴰ m ms × (m.id ≡ id)

-- The customer of a deposit is there, and is a customer of its client and merchant, with its phone.
abbrev pub HasCustomer : List Customer → DepositRow → Type 0
HasCustomer cs d =
    (c : Customer) × Memᴰ c cs
    × (c.id ≡ d.customer_id)
    × (c.client_id ≡ d.client_id)
    × (c.merchant_id ≡ d.merchant_id)
    × (c.phone_number ≡ d.payer_phone_number)

pub record IsConsistent (t : Tables) : Type 0 where
  pub customer_merchants :
      (c : Customer) → Memᴰ c t.customers → HasMerchant t.merchants c.merchant_id
  pub deposit_merchants :
      (d : DepositRow) → Memᴰ d t.deposits → HasMerchant t.merchants d.merchant_id
  pub deposit_customers : (d : DepositRow) → Memᴰ d t.deposits → HasCustomer t.customers d
  pub payout_merchants : (p : PayoutRow) → Memᴰ p t.payouts → HasMerchant t.merchants p.merchant_id
  pub deposit_currencies : (d : DepositRow) → Memᴰ d t.deposits → is_currency d.currency ≡ true
  pub payout_currencies : (p : PayoutRow) → Memᴰ p t.payouts → is_currency p.currency ≡ true

-- The tables of the database before any call.
pub empty-IsConsistent :
    IsConsistent (record { merchants = []; customers = []; deposits = []; payouts = [] })
empty-IsConsistent = record {
  customer_merchants = λ c m. elim m [ ];
  deposit_merchants = λ d m. elim m [ ];
  deposit_customers = λ d m. elim m [ ];
  payout_merchants = λ p m. elim m [ ];
  deposit_currencies = λ d m. elim m [ ];
  payout_currencies = λ p m. elim m [ ];
}

merchant_known :
    (id : Uuid) (t : Tables)
    → any_row (λ m. m.id == id) t.merchants ≡ true
    → HasMerchant t.merchants id
merchant_known id t h =
    let (m, i, e) = any_row-true (λ m. m.id == id) t.merchants h in (m, i, ==→eq m.id id e)

-- What a row that the constraints admit satisfies.
pub deposit_admitted :
    (row : DepositRow) (t : Tables)
    → deposit_refusal row t ≡ none
    → (is_currency row.currency ≡ true)
      × (any_row (deposit_conflicts row) t.deposits ≡ false)
      × (any_row (λ m. m.id == row.merchant_id) t.merchants ≡ true)
unfolding deposit_refusal
deposit_admitted row t h = ground arith

pub payout_admitted :
    (row : PayoutRow) (t : Tables)
    → payout_refusal row t ≡ none
    → (is_currency row.currency ≡ true)
      × (any_row (λ m. m.id == row.merchant_id) t.merchants ≡ true)
unfolding payout_refusal
payout_admitted row t h = ground arith

customer_admitted :
    (row : Customer) (t : Tables)
    → customer_refusal row t ≡ none
    → any_row (λ m. m.id == row.merchant_id) t.merchants ≡ true
unfolding customer_refusal
customer_admitted row t h = ground arith

has_key_fields :
    (client merchant : Uuid) (phone : String) (c : Customer)
    → has_key client merchant phone c ≡ true
    → (c.client_id ≡ client) × (c.merchant_id ≡ merchant) × (c.phone_number ≡ phone)
has_key_fields client merchant phone c h = ground (arith, eq_iff c.phone_number phone)

-- Every row after an append is an old row or the new one.
pub on_append :
    {A : Type 0} (P : A → Type 0) (xs : List A) (x : A)
    → ((y : A) → Memᴰ y xs → P y)
    → P x
    → (y : A) → Memᴰ y (xs ++ x ∷ [])
    → P y
on_append P xs x h p y m = elim (mem-append_cases xs x m) [ inl n ↦ h y n | inr e ↦ rw e p ]

-- Every row after an update satisfies what the old rows did, if the change keeps it.
pub on_update :
    {A : Type 0} (P : A → Type 0) (p : A → Bool) (f : A → A) (xs : List A)
    → ((y : A) → Memᴰ y xs → P y)
    → ((y : A) → P y → P (f y))
    → (y : A) → Memᴰ y (update_rows p f xs)
    → P y
on_update P p f xs h k y m =
    let (x, i, e) = mem-update_rows p f xs m in
    elim (Bool-cases (p x)) [
      | inl c ↦ subst P (sym (e ∙ ap (λ b. if b then f x else x) c)) (k x (h x i))
      | inr c ↦ subst P (sym (e ∙ ap (λ b. if b then f x else x) c)) (h x i)
    ]

Change-IsConsistent : (t u : Tables) → Change t u → IsConsistent t → IsConsistent u
Change-IsConsistent t u (same e) h = rw e h
Change-IsConsistent t u (merchant_added row r e) h = rw e (record {
  customer_merchants = λ c m. grow (h.customer_merchants c m);
  deposit_merchants = λ d m. grow (h.deposit_merchants d m);
  deposit_customers = h.deposit_customers;
  payout_merchants = λ p m. grow (h.payout_merchants p m);
  deposit_currencies = h.deposit_currencies;
  payout_currencies = h.payout_currencies;
})
  where
    grow : {id : Uuid} → HasMerchant t.merchants id → HasMerchant (t.merchants ++ row ∷ []) id
    grow (m, i, q) = (m, mem-append_left t.merchants (row ∷ []) i, q)
Change-IsConsistent t u (customer_added row r e) h = rw e (record {
  customer_merchants =
      on_append (λ c. HasMerchant t.merchants c.merchant_id) t.customers row h.customer_merchants
        (merchant_known row.merchant_id t (customer_admitted row t r));
  deposit_merchants = h.deposit_merchants;
  deposit_customers = λ d m. grow d (h.deposit_customers d m);
  payout_merchants = h.payout_merchants;
  deposit_currencies = h.deposit_currencies;
  payout_currencies = h.payout_currencies;
})
  where
    grow : (d : DepositRow) → HasCustomer t.customers d → HasCustomer (t.customers ++ row ∷ []) d
    grow d (c, i, a, b, m, n) = (c, mem-append_left t.customers (row ∷ []) i, a, b, m, n)
Change-IsConsistent t u (deposit_added row c r f i s x y e) h =
    let (currency, _, merchant) = deposit_admitted row t r in
    let (place, key) =
      find_row-mem (has_key row.client_id row.merchant_id row.payer_phone_number) t.customers f in
    let (client, its_merchant, phone) =
      has_key_fields row.client_id row.merchant_id row.payer_phone_number c key in
    rw e (record {
      customer_merchants = h.customer_merchants;
      deposit_merchants =
          on_append (λ d. HasMerchant t.merchants d.merchant_id) t.deposits row h.deposit_merchants
            (merchant_known row.merchant_id t merchant);
      deposit_customers =
          on_append (HasCustomer t.customers) t.deposits row h.deposit_customers
            (c, place, sym i, client, its_merchant, phone);
      payout_merchants = h.payout_merchants;
      deposit_currencies =
          on_append (λ d. is_currency d.currency ≡ true) t.deposits row h.deposit_currencies
            currency;
      payout_currencies = h.payout_currencies;
    })
Change-IsConsistent t u (payout_added row r s e) h =
    let (currency, merchant) = payout_admitted row t r in
    rw e (record {
      customer_merchants = h.customer_merchants;
      deposit_merchants = h.deposit_merchants;
      deposit_customers = h.deposit_customers;
      payout_merchants =
          on_append (λ p. HasMerchant t.merchants p.merchant_id) t.payouts row h.payout_merchants
            (merchant_known row.merchant_id t merchant);
      deposit_currencies = h.deposit_currencies;
      payout_currencies =
          on_append (λ p. is_currency p.currency ≡ true) t.payouts row h.payout_currencies currency;
    })
Change-IsConsistent t u (reference_set d x y n f e) h = rw e (record {
  customer_merchants = h.customer_merchants;
  deposit_merchants =
      on_update (λ d. HasMerchant t.merchants d.merchant_id) (λ k. k.id == d.id)
        (set_ghl_reference x y n) t.deposits h.deposit_merchants (λ k q. q);
  deposit_customers =
      on_update (HasCustomer t.customers) (λ k. k.id == d.id) (set_ghl_reference x y n) t.deposits
        h.deposit_customers (λ k q. q);
  payout_merchants = h.payout_merchants;
  deposit_currencies =
      on_update (λ d. is_currency d.currency ≡ true) (λ k. k.id == d.id) (set_ghl_reference x y n)
        t.deposits h.deposit_currencies (λ k q. q);
  payout_currencies = h.payout_currencies;
})

-- No list of calls, with whatever faults of the server, breaks the consistency of the tables: each
-- customer, deposit and payout refers to a merchant that is there, each deposit to a customer of its
-- own client and merchant with its phone number, and each currency is three capital letters.
pub run-IsConsistent :
    (env : Env) (calls : List Call) (db : Db)
    → IsConsistent db.tables
    → IsConsistent (run env calls db).tables
run-IsConsistent env = run_keeps env IsConsistent Change-IsConsistent
