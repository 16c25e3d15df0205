-- ===== src/Transactions/Change/Payouts.antt =====
-- The handlers of transactions/payouts/service.go against the specification in Change.antt.
use rvpay_go.Base.{
  suc, Bool, Option, none, some, String, ◌≡◌, refl, arith, ◌==◌, Option-cases, inl, inr,
}
use rvpay_go.Base.Effect.{
  Result-cases, ok, lift, map_err, or_raise, wrap_error, wrap_not_found, ◌>>=◌,
}
use rvpay_go.Transactions.Convert.{payout_to_proto}
use rvpay_go.Transactions.Model.{Uuid, PayoutRow, PayoutStatus, Env, Db, statement}
use rvpay_go.Transactions.Change.{
  Change, same, payout_added, Changes, ReadOnly, ReadOnly-bind, ReadOnly-map_err, ReadOnly-or_raise,
  ReadOnly-reply, Changes-after, Changes-before, Changes-map_err, Changes-reply, Changes-statement,
}
use rvpay_go.Transactions.Store.Payouts.{
  CreatePayoutParams, payout_refusal, insert_payout, scan_payout, store_payout, create_payout,
  find_payout, select_payout, get_payout_by_id,
}
use rvpay_go.Transactions.Repo.Payouts as PayoutRepo
use rvpay_go.Transactions.Payouts.{
  CreatePayoutRequest, PayoutInput, create_payout_error, get_payout_error, check_payout,
  place_payout, request_payout, get_payout,
}

insert_payout-Change :
    (row : PayoutRow) (db : Db)
    → row.status ≡ PayoutStatus.requested
    → Change db.tables (insert_payout row db).1.tables
unfolding insert_payout
insert_payout-Change row db s = elim (Option-cases (payout_refusal row db.tables)) [
  | inl e ↦ rw (e, insert_payout) (payout_added row e s refl)
  | inr (x, e) ↦ rw (e, insert_payout) (same refl)
]

find_payout-ReadOnly : (q : PayoutRow → Bool) → ReadOnly (find_payout q)
unfolding find_payout
find_payout-ReadOnly q db = ground arith

module _ (env : Env) where
  scan_payout-ReadOnly : (p : PayoutRow) → ReadOnly (scan_payout env p)
  unfolding scan_payout
  scan_payout-ReadOnly p db = ground arith

  store_payout-Change :
      (arg : CreatePayoutParams) (db : Db)
      → arg.status ≡ PayoutStatus.requested
      → Change db.tables (store_payout env arg db).1.tables
  unfolding store_payout
  store_payout-Change arg db s = elim (Result-cases (env.store_numeric arg.amount)) [
    | inl (amount, e) ↦ rw e (insert_payout-Change _ (record db { drawn = suc db.drawn }) s)
    | inr (x, e) ↦ rw e (same refl)
  ]

  create_payout-Change :
      (arg : CreatePayoutParams) (db : Db)
      → arg.status ≡ PayoutStatus.requested
      → Change db.tables (create_payout env arg db).1.tables
  unfolding create_payout
  create_payout-Change arg db s =
      Changes-before (statement (store_payout env arg)) (scan_payout env) db
        (Changes-statement (store_payout env arg) db
          (store_payout-Change arg (record db { ticks = suc db.ticks }) s))
        scan_payout-ReadOnly

  check_payout-ReadOnly : (req : CreatePayoutRequest) → ReadOnly (check_payout env req)
  unfolding check_payout
  check_payout-ReadOnly req db = ground arith

  place_payout-Changes : (i : PayoutInput) → Changes (place_payout env i)
  unfolding place_payout PayoutRepo.create
  place_payout-Changes i db =
      let arg : CreatePayoutParams = record {
        client_id = i.client_id;
        merchant_id = i.merchant_id;
        amount = i.amount;
        currency = i.currency;
        provider = i.provider;
        destination_reference = i.destination_reference;
        status = PayoutStatus.requested;
        idempotency_key = db.new_uuid db.drawn;
      } in
      let after : Db = record db { drawn = suc db.drawn } in
      let insertion = create_payout env arg in
      Changes-map_err create_payout_error (map_err wrap_error insertion) after
        (Changes-map_err wrap_error insertion after (create_payout-Change arg after refl))

  -- `RequestPayout`.
  pub request_payout-Changes : (req : Option CreatePayoutRequest) → Changes (request_payout env req)
  unfolding request_payout
  request_payout-Changes none = λ db. same refl
  request_payout-Changes (some req) =
      Changes-after (check_payout env req)
        (λ i. place_payout env i >>= λ p. lift (ok (payout_to_proto env p)))
        (check_payout-ReadOnly req)
        (λ i u.
          Changes-reply (place_payout env i) (payout_to_proto env) u (place_payout-Changes i u))

  select_payout-ReadOnly : (q : PayoutRow → Bool) → ReadOnly (select_payout env q)
  unfolding select_payout
  select_payout-ReadOnly q =
      ReadOnly-bind (find_payout q) (scan_payout env) (find_payout-ReadOnly q) scan_payout-ReadOnly

  get_by_id-ReadOnly : (id : Uuid) → ReadOnly (PayoutRepo.get_by_id env id)
  unfolding PayoutRepo.get_by_id get_payout_by_id
  get_by_id-ReadOnly id =
      ReadOnly-map_err wrap_not_found (select_payout env (λ p. p.id == id))
        (select_payout-ReadOnly (λ p. p.id == id))

  pub get_payout-ReadOnly : (id : Option String) → ReadOnly (get_payout env id)
  unfolding get_payout
  get_payout-ReadOnly none = λ db. refl
  get_payout-ReadOnly (some id) =
      ReadOnly-bind (or_raise (env.parse_uuid id) _)
        (λ k. map_err get_payout_error (PayoutRepo.get_by_id env k) >>= λ p.
          lift (ok (payout_to_proto env p)))
        (ReadOnly-or_raise (env.parse_uuid id) _)
        (λ k.
          ReadOnly-reply (map_err get_payout_error (PayoutRepo.get_by_id env k))
            (payout_to_proto env)
            (ReadOnly-map_err get_payout_error (PayoutRepo.get_by_id env k) (get_by_id-ReadOnly k)))
