-- ===== src/Transactions/Deposits/Creation.antt =====
-- Why `InitiateDeposit` (transactions/deposits/service.go) has no reply where NULL texts are refused.
use rvpay_go.Base.{Option, none, some, [], ◌∷◌, ◌++◌, ◌≡◌, refl, sym, ◌∙◌, ap, arith}
use rvpay_go.Base.Text.{trim_space, map_runes}
use rvpay_go.Base.Table.{find_row}
use rvpay_go.Base.Effect.{
  Err, Result, ok, err, >>=-eq-ok, lift, wrap_error, map_err, map_err-eq-ok, ◌>>=◌,
}
use rvpay_go.Transactions.Model.{
  Uuid, Customer, DepositRow, Deposit, DepositStatus, Env, Db, statement, draw_uuid,
}
use rvpay_go.Transactions.Convert.{DepositProto, deposit_to_proto}
use rvpay_go.Transactions.Store.Customers.{has_key}
use rvpay_go.Transactions.Store.Deposits.{
  CreateDepositParams, insert_deposit, store_deposit, create_deposit, scan_deposit,
}
use rvpay_go.Transactions.Repo.Deposits as DepositRepo
use rvpay_go.Transactions.Change.Deposits.{find_customer_found}
use rvpay_go.Transactions.Deposits.{
  CreateDepositRequest, DepositInput, currency_of, check_deposit, find_customer, store_for_customer,
  place_deposit, initiate_deposit, create_deposit_error,
}

-- What the statement stored.
abbrev Stored : CreateDepositParams → Db → DepositRow → Db → Type 0
Stored arg db row u =
    (row.client_id ≡ arg.client_id)
    × (row.customer_id ≡ arg.customer_id)
    × (row.merchant_id ≡ arg.merchant_id)
    × (row.currency ≡ arg.currency)
    × (row.payer_phone_number ≡ arg.payer_phone_number)
    × (row.status ≡ arg.status)
    × (row.external_reference ≡ none)
    × (u.deposits ≡ db.deposits ++ row ∷ [])

module _ (env : Env) where
  store_deposit-Stored :
      (arg : CreateDepositParams) (db : Db) {row : DepositRow} {u : Db}
      → statement (store_deposit env arg) db ≡ (ok row, u)
      → Stored arg db row u
  unfolding store_deposit insert_deposit
  store_deposit-Stored arg db h = ground arith

  -- A NULL reference is refused by `Scan`.
  scan_deposit_refused :
      (row : DepositRow) (db : Db) {e : Err} {d : Deposit}
      → env.scan_text none ≡ err e
      → row.external_reference ≡ none
      → ¬ ((scan_deposit env row db).0 ≡ ok d)
  unfolding scan_deposit
  scan_deposit_refused row db n x h = cc (rw (x, n) at h)

  pub check_deposit_fields :
      (req : CreateDepositRequest) (db : Db) {i : DepositInput} {u : Db}
      → check_deposit env req db ≡ (ok i, u)
      → (env.parse_uuid req.client_id ≡ some i.client_id)
        × (env.parse_uuid req.merchant_id ≡ some i.merchant_id)
        × (i.phone_number ≡ trim_space req.payer_phone_number)
        × (i.currency ≡ map_runes env.upper_rune (trim_space (currency_of req.amount)))
        × (u ≡ db)
  unfolding check_deposit
  check_deposit_fields req db h = ground arith

  -- The arguments of the insertion.
  abbrev arguments : DepositInput → Customer → Uuid → CreateDepositParams
  arguments i c key = record {
    client_id = i.client_id;
    customer_id = c.id;
    merchant_id = i.merchant_id;
    amount = i.amount;
    currency = i.currency;
    payment_type = i.payment_type;
    payer_phone_number = i.phone_number;
    provider = i.provider;
    status = DepositStatus.initiated;
    idempotency_key = key;
  }

  store_for_customer_inserted :
      (i : DepositInput) (c : Customer) (db : Db) {d : Deposit} {u : Db}
      → store_for_customer env i c db ≡ (ok d, u)
      → (v : Db) × (v.tables ≡ db.tables)
        × (create_deposit env (arguments i c (db.new_uuid db.drawn)) v ≡ (ok d, u))
  unfolding store_for_customer DepositRepo.create
  store_for_customer_inserted i c db h =
      let after = (draw_uuid db).1 in
      let insertion = create_deposit env (arguments i c (db.new_uuid db.drawn)) in
      (
        after,
        refl,
        map_err-eq-ok wrap_error insertion after
            (map_err-eq-ok create_deposit_error (map_err wrap_error insertion) after h),
      )

  place_deposit_inserted :
      (i : DepositInput) (db : Db) {d : Deposit} {u : Db}
      → place_deposit env i db ≡ (ok d, u)
      → (c : Customer) × (key : Uuid) × (v : Db) × (find_row
            (has_key i.client_id i.merchant_id i.phone_number)
            db.customers
          ≡ some c)
        × (v.tables ≡ db.tables)
        × (create_deposit env (arguments i c key) v ≡ (ok d, u))
  unfolding place_deposit
  place_deposit_inserted i db h =
      let (c, w, p, q) = >>=-eq-ok (find_customer i) (store_for_customer env i) db h in
      let (f, e) = find_customer_found env i db p in
      let (v, t, k) = store_for_customer_inserted i c w q in (c, w.new_uuid w.drawn, v, f, t ∙ e, k)

  initiate_deposit_parts :
      (req : CreateDepositRequest) (db : Db) {r : DepositProto} {u : Db}
      → initiate_deposit env (some req) db ≡ (ok r, u)
      → (i : DepositInput) × (d : Deposit) × (check_deposit env req db ≡ (ok i, db))
        × (place_deposit env i db ≡ (ok d, u))
        × (r ≡ deposit_to_proto env d)
  unfolding initiate_deposit
  initiate_deposit_parts req db {r} {u} h =
      let reply = λ (d : Deposit). lift {W = Db} (ok (deposit_to_proto env d)) in
      let (i, w, p, q) =
        >>=-eq-ok (check_deposit env req) (λ i. place_deposit env i >>= reply) db {b = r} {v = u}
          h in
      let (_, _, _, _, e) = check_deposit_fields req db p in
      let (d, v, a, b) = >>=-eq-ok (place_deposit env i) reply w {b = r} {v = u} q in
      (i, d, p ∙ ap (λ x. (ok i, x)) e, same_reply w i e a b, ground arith)
    where
      same_reply :
          (w : Db) (i : DepositInput) {d : Deposit} {v : Db}
          → w ≡ db
          → place_deposit env i w ≡ (ok d, v)
          → ◌≡◌ {A = Result DepositProto × Db} (ok (deposit_to_proto env d), v) (ok r, u)
          → place_deposit env i db ≡ (ok d, u)
      same_reply w i {d} {v} e a b =
          let vu : v ≡ u = ap (λ x. x.1) b in
          ap (λ x. place_deposit env i x) (sym e) ∙ a ∙ ap (λ x. (ok d, x)) vu

  create_deposit_refused :
      (arg : CreateDepositParams) (db : Db) {e : Err} {d : Deposit} {u : Db}
      → env.scan_text none ≡ err e
      → ¬ (create_deposit env arg db ≡ (ok d, u))
  unfolding create_deposit
  create_deposit_refused arg db n h =
      let (row, v, p, q) = >>=-eq-ok (statement (store_deposit env arg)) (scan_deposit env) db h in
      let (_, _, _, _, _, _, x, _) = store_deposit-Stored arg db p in
      scan_deposit_refused row v n x (ap (λ z. z.0) q)

  -- Where pgx refuses to scan a NULL text into a Go string, as it does, `InitiateDeposit` never
  -- has a reply, whether or not it has stored the deposit.
  pub initiate_deposit_unseen :
      (req : Option CreateDepositRequest) (db : Db) {e : Err}
      → env.scan_text none ≡ err e
      → (r : DepositProto) → ¬ ((initiate_deposit env req db).0 ≡ ok r)
  unfolding initiate_deposit
  initiate_deposit_unseen none db n r h = cc
  initiate_deposit_unseen (some req) db n r h =
      let (i, d, _, q, _) =
        initiate_deposit_parts req db {r = r}
          (λ k. (h k, (initiate_deposit env (some req) db).1)) in
      let (c, key, v, _, _, k) = place_deposit_inserted i db q in
      create_deposit_refused (arguments i c key) v n k
