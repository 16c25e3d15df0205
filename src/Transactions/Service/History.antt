-- ===== src/Transactions/Service/History.antt =====
-- What a call of the transactions service may do to the rows that are stored.
use mathlib.Core.List.{map, map-append, append-nil, append_assoc}
use rvpay_go.Base.{
  List, [], ◌∷◌, ◌++◌, ◌≡◌, refl, sym, ◌∙◌, ap, Option, Bool, true, false, if◌then◌else◌, String,
  ◌==◌,
}
use rvpay_go.Base.Table.{update_rows}
use rvpay_go.Transactions.Model.{
  Uuid, Time, Numeric, PaymentProvider, PaymentType, DepositStatus, DepositRow, Tables, Env, Db,
}
use rvpay_go.Transactions.Store.Deposits.{set_ghl_reference}
use rvpay_go.Transactions.Change.{
  Change, same, merchant_added, customer_added, deposit_added, payout_added, reference_set,
}
use rvpay_go.Transactions.Service.{Call, run}
use rvpay_go.Transactions.Service.Refinement.{run_keeps}

-- All of a deposit but its GoHighLevel references and the time of its last update.
pub record Terms : Type 0 where
  pub id : Uuid
  pub client_id : Uuid
  pub customer_id : Uuid
  pub merchant_id : Uuid
  pub amount : Numeric
  pub currency : String
  pub payment_type : PaymentType
  pub payer_phone_number : String
  pub provider : PaymentProvider
  pub status : DepositStatus
  pub external_reference : Option String
  pub idempotency_key : Uuid
  pub initiated_at : Time
  pub completed_at : Option Time
  pub failed_at : Option Time
  pub failure_reason : Option String
  pub created_at : Time

abbrev pub terms : DepositRow → Terms
terms d = record {
  id = d.id;
  client_id = d.client_id;
  customer_id = d.customer_id;
  merchant_id = d.merchant_id;
  amount = d.amount;
  currency = d.currency;
  payment_type = d.payment_type;
  payer_phone_number = d.payer_phone_number;
  provider = d.provider;
  status = d.status;
  external_reference = d.external_reference;
  idempotency_key = d.idempotency_key;
  initiated_at = d.initiated_at;
  completed_at = d.completed_at;
  failed_at = d.failed_at;
  failure_reason = d.failure_reason;
  created_at = d.created_at;
}

-- One list is the other with something appended.
abbrev pub Extends : {A : Type 0} → List A → List A → Type 0
Extends {A} xs ys = (zs : List A) × (ys ≡ xs ++ zs)

-- The tables `u` keep what `t` had, and in its order.
pub record Keeps (t u : Tables) : Type 0 where
  pub merchants : Extends t.merchants u.merchants
  pub customers : Extends t.customers u.customers
  pub deposits : Extends (map terms t.deposits) (map terms u.deposits)
  pub payouts : Extends t.payouts u.payouts

module _ {A : Type 0} where
  none_added : (xs : List A) → Extends xs xs
  none_added xs = ([], sym (append-nil xs))

  added_again : (xs ys zs : List A) → Extends xs ys → Extends xs (ys ++ zs)
  added_again xs ys zs (more, e) = (more ++ zs, ap (λ l. l ++ zs) e ∙ append_assoc xs more zs)

-- The GoHighLevel reference of a deposit is none of its terms.
terms-update_rows :
    (p : DepositRow → Bool) (a b : String) (n : Time) (ds : List DepositRow)
    → map terms (update_rows p (set_ghl_reference a b n) ds) ≡ map terms ds
unfolding update_rows
terms-update_rows p a b n [] = refl
terms-update_rows p a b n (d ∷ ds) =
    rw (terms-update_rows p a b n ds) (ap (λ x. x ∷ map terms ds) (head (p d)))
  where
    head : (c : Bool) → terms (if c then set_ghl_reference a b n d else d) ≡ terms d
    head true = refl
    head false = refl

Keeps-refl : (t : Tables) → Keeps t t
Keeps-refl t = record {
  merchants = none_added t.merchants;
  customers = none_added t.customers;
  deposits = none_added (map terms t.deposits);
  payouts = none_added t.payouts;
}

Change-Keeps : (s t u : Tables) → Change t u → Keeps s t → Keeps s u
Change-Keeps s t u (same e) k = rw e k
Change-Keeps s t u (merchant_added row r e) k = rw e (record {
  merchants = added_again s.merchants t.merchants (row ∷ []) k.merchants;
  customers = k.customers;
  deposits = k.deposits;
  payouts = k.payouts;
})
Change-Keeps s t u (customer_added row r e) k = rw e (record {
  merchants = k.merchants;
  customers = added_again s.customers t.customers (row ∷ []) k.customers;
  deposits = k.deposits;
  payouts = k.payouts;
})
Change-Keeps s t u (deposit_added row c r f i x y z e) k = rw e (record {
  merchants = k.merchants;
  customers = k.customers;
  deposits =
      rw (map-append terms t.deposits (row ∷ []))
        (added_again (map terms s.deposits) (map terms t.deposits) (terms row ∷ []) k.deposits);
  payouts = k.payouts;
})
Change-Keeps s t u (payout_added row r x e) k = rw e (record {
  merchants = k.merchants;
  customers = k.customers;
  deposits = k.deposits;
  payouts = added_again s.payouts t.payouts (row ∷ []) k.payouts;
})
Change-Keeps s t u (reference_set d x y n f e) k = rw e (record {
  merchants = k.merchants;
  customers = k.customers;
  deposits = rw (terms-update_rows (λ z. z.id == d.id) x y n t.deposits) k.deposits;
  payouts = k.payouts;
})

-- No list of calls removes or reorders a row, nor alters a merchant, a customer, a payout or any
-- column of a deposit but its two GoHighLevel references and the time of its last update: the tables
-- after it are those before it with rows appended, up to these three columns of deposits.
pub run-Keeps :
    (env : Env) (calls : List Call) (db : Db) → Keeps db.tables (run env calls db).tables
run-Keeps env calls db =
    run_keeps env (Keeps db.tables) (Change-Keeps db.tables) calls db (Keeps-refl db.tables)
