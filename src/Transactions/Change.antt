-- ===== src/Transactions/Change.antt =====
-- The specification of the transactions service as a state machine on its tables: what one call
-- may do to them, and the rules by which the calls are shown to do no more.
pub mod Deposits
pub mod Payouts
pub mod Records
pub mod Payments
use mathlib.Core.Path.{subst}
use rvpay_go.Base.{
  if◌then◌else◌, Bool, true, false, suc, Option, none, some, List, [], ◌∷◌, ◌++◌, ◌==◌, String, ◌≡◌,
  refl, sym, ap, ◌∙◌,
}
use rvpay_go.Base.Effect.{Err, Result, ok, err, Action, lift, map_err, or_raise, try, ◌>>=◌}
use rvpay_go.Base.Table.{find_row, update_rows}
use rvpay_go.Transactions.Model.{
  Time, DepositStatus, PayoutStatus, Merchant, Customer, DepositRow, PayoutRow, Tables, Db,
  statement,
}
use rvpay_go.Transactions.Store.Columns.{is_text}
use rvpay_go.Transactions.Store.Merchants.{merchant_refusal}
use rvpay_go.Transactions.Store.Customers.{customer_refusal, has_key}
use rvpay_go.Transactions.Store.Deposits.{deposit_refusal, set_ghl_reference}
use rvpay_go.Transactions.Store.Payouts.{payout_refusal}

-- One row that the constraints admit is appended, or the GoHighLevel reference of one deposit is
-- set, or nothing happens. A deposit is that of the customer with its client, merchant and phone.
pub data Change (t u : Tables) : Type 0 where
  same : u ≡ t → Change t u
  merchant_added :
      (row : Merchant)
      → merchant_refusal row t ≡ none
      → u ≡ record t { merchants = t.merchants ++ row ∷ [] }
      → Change t u
  customer_added :
      (row : Customer)
      → customer_refusal row t ≡ none
      → u ≡ record t { customers = t.customers ++ row ∷ [] }
      → Change t u
  deposit_added :
      (row : DepositRow) (c : Customer)
      → deposit_refusal row t ≡ none
      → find_row (has_key row.client_id row.merchant_id row.payer_phone_number) t.customers ≡ some c
      → row.customer_id ≡ c.id
      → row.status ≡ DepositStatus.initiated
      → row.ghl_transaction_id ≡ none
      → row.ghl_charge_id ≡ none
      → u ≡ record t { deposits = t.deposits ++ row ∷ [] }
      → Change t u
  payout_added :
      (row : PayoutRow)
      → payout_refusal row t ≡ none
      → row.status ≡ PayoutStatus.requested
      → u ≡ record t { payouts = t.payouts ++ row ∷ [] }
      → Change t u
  reference_set :
      (d : DepositRow) (transaction charge : String) (now : Time)
      → find_row (λ x. is_text x.ghl_transaction_id transaction) t.deposits ≡ some d
      → u ≡ record t {
        deposits =
            update_rows (λ x. x.id == d.id) (set_ghl_reference transaction charge now) t.deposits;
      }
      → Change t u

-- A call changes the tables as the specification admits; a call leaves them alone.
abbrev pub Changes : {A : Type 0} → Action Db A → Type 0
Changes m = (db : Db) → Change db.tables (m db).1.tables

abbrev pub ReadOnly : {A : Type 0} → Action Db A → Type 0
ReadOnly m = (db : Db) → (m db).1.tables ≡ db.tables

module _ {A B : Type 0} where
  pub ReadOnly-bind :
      (m : Action Db A) (f : A → Action Db B)
      → ReadOnly m
      → ((a : A) → ReadOnly (f a))
      → ReadOnly (m >>= f)
  ReadOnly-bind m f h k db = go (m db) (h db)
    where
      go :
          (r : Result A × Db)
          → r.1.tables ≡ db.tables
          → (elim r.0 as (λ _. Result B × Db) [ ok a ↦ f a r.1 | err e ↦ (err e, r.1) ]).1.tables
            ≡ db.tables
      go (ok a, u) e = k a u ∙ e
      go (err x, u) e = e

  -- Reading comes first, and the change last, which may depend on what was read.
  pub Changes-inspect :
      (m : Action Db A) (f : A → Action Db B) (db : Db)
      → (m db).1.tables ≡ db.tables
      → ((a : A) (u : Db) → m db ≡ (ok a, u) → Change db.tables (f a u).1.tables)
      → Change db.tables ((m >>= f) db).1.tables
  Changes-inspect m f db h k = go (m db) refl h
    where
      go :
          (r : Result A × Db)
          → m db ≡ r
          → r.1.tables ≡ db.tables
          → Change db.tables
              (elim r.0 as (λ _. Result B × Db) [ ok a ↦ f a r.1 | err e ↦ (err e, r.1) ]).1.tables
      go (ok a, u) p e = k a u p
      go (err x, u) p e = same e

  pub Changes-after :
      (m : Action Db A) (f : A → Action Db B)
      → ReadOnly m
      → ((a : A) → Changes (f a))
      → Changes (m >>= f)
  Changes-after m f h k db = Changes-inspect m f db (h db) (λ a u p.
      subst (λ t. Change t (f a u).1.tables) (ap (λ r. r.1.tables) (sym p) ∙ h db) (k a u))

  -- The change comes first, and reading after it.
  pub Changes-before :
      (m : Action Db A) (f : A → Action Db B) (db : Db)
      → Change db.tables (m db).1.tables
      → ((a : A) → ReadOnly (f a))
      → Change db.tables ((m >>= f) db).1.tables
  Changes-before m f db h k = go (m db) h
    where
      go :
          (r : Result A × Db)
          → Change db.tables r.1.tables
          → Change db.tables
              (elim r.0 as (λ _. Result B × Db) [ ok a ↦ f a r.1 | err e ↦ (err e, r.1) ]).1.tables
      go (ok a, u) c = rw (k a u) c
      go (err x, u) c = c

-- The reply is made from what the call returned.
pub Changes-reply :
    {A B : Type 0} (m : Action Db A) (g : A → B) (db : Db)
    → Change db.tables (m db).1.tables
    → Change db.tables ((m >>= λ a. lift (ok (g a))) db).1.tables
Changes-reply m g db h = Changes-before m (λ a. lift (ok (g a))) db h (λ a u. refl)

pub ReadOnly-reply :
    {A B : Type 0} (m : Action Db A) (g : A → B)
    → ReadOnly m
    → ReadOnly (m >>= λ a. lift (ok (g a)))
ReadOnly-reply m g h = ReadOnly-bind m (λ a. lift (ok (g a))) h (λ a u. refl)

module _ {A : Type 0} where
  pub ReadOnly-map_err : (f : Err → Err) (m : Action Db A) → ReadOnly m → ReadOnly (map_err f m)
  ReadOnly-map_err f m h db = go (m db) (h db)
    where
      go :
          (r : Result A × Db)
          → r.1.tables ≡ db.tables
          → (elim r.0 as (λ _. Result A × Db) [
            | ok a ↦ (ok a, r.1)
            | err e ↦ (err (f e), r.1)
          ]).1.tables
            ≡ db.tables
      go (ok a, u) e = e
      go (err x, u) e = e

  pub Changes-map_err :
      (f : Err → Err) (m : Action Db A) (db : Db)
      → Change db.tables (m db).1.tables
      → Change db.tables (map_err f m db).1.tables
  Changes-map_err f m db h = go (m db) h
    where
      go :
          (r : Result A × Db)
          → Change db.tables r.1.tables
          → Change db.tables
              (elim r.0 as (λ _. Result A × Db) [
                | ok a ↦ (ok a, r.1)
                | err e ↦ (err (f e), r.1)
              ]).1.tables
      go (ok a, u) c = c
      go (err x, u) c = c

  -- The error of a call is taken as a value.
  pub ReadOnly-try : (m : Action Db A) → ReadOnly m → ReadOnly (try m)
  ReadOnly-try m h = h

  pub ReadOnly-if :
      (b : Bool) (m n : Action Db A) → ReadOnly m → ReadOnly n → ReadOnly (if b then m else n)
  ReadOnly-if true m n h k = h
  ReadOnly-if false m n h k = k

  pub Changes-if :
      (b : Bool) (m n : Action Db A) → Changes m → Changes n → Changes (if b then m else n)
  Changes-if true m n h k = h
  Changes-if false m n h k = k

  pub ReadOnly-or_raise : (o : Option A) (e : Err) → ReadOnly (or_raise o e)
  ReadOnly-or_raise none e db = refl
  ReadOnly-or_raise (some a) e db = refl

  -- A refused statement does nothing.
  pub ReadOnly-statement : (q : Action Db A) → ReadOnly q → ReadOnly (statement q)
  ReadOnly-statement q h db = go (db.fault db.ticks)
    where
      next : Db
      next = record db { ticks = suc db.ticks }

      go :
          (o : Option Err)
          → (elim o as (λ _. Result A × Db) [ some e ↦ (err e, next) | none ↦ q next ]).1.tables
            ≡ db.tables
      go none = h next
      go (some e) = refl

  pub Changes-statement :
      (q : Action Db A) (db : Db)
      → Change db.tables (q (record db { ticks = suc db.ticks })).1.tables
      → Change db.tables (statement q db).1.tables
  Changes-statement q db h = go (db.fault db.ticks)
    where
      next : Db
      next = record db { ticks = suc db.ticks }

      go :
          (o : Option Err)
          → Change db.tables
              (elim o as (λ _. Result A × Db) [ some e ↦ (err e, next) | none ↦ q next ]).1.tables
      go none = h
      go (some e) = same refl
