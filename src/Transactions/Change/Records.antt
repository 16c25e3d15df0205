-- ===== src/Transactions/Change/Records.antt =====
-- The handlers of transactions/customers/service.go and transactions/merchants/service.go against
-- the specification in Change.antt.
use rvpay_go.Base.Pagination.{PaginationRequest}
use rvpay_go.Base.{suc, Option, none, some, String, refl, arith, Option-cases, Bool-cases, inl, inr}
use rvpay_go.Base.Text.{is_empty, trim_space}
use rvpay_go.Base.Effect.{map_err, wrap_error, ◌>>=◌}
use rvpay_go.Transactions.Convert.{customer_to_proto, merchant_to_proto}
use rvpay_go.Transactions.Model.{
  Uuid, Customer, Merchant, CustomerStatus, MerchantStatus, Env, draw_uuid,
}
use rvpay_go.Transactions.Change.{
  same, customer_added, merchant_added, Changes, ReadOnly, Changes-map_err, Changes-reply,
  Changes-statement,
}
use rvpay_go.Transactions.Store.Customers.{customer_refusal, insert_customer, get_customer_by_id}
use rvpay_go.Transactions.Store.Customers as CustomerStore
use rvpay_go.Transactions.Store.Merchants as MerchantStore
use rvpay_go.Transactions.Store.Merchants.{
  merchant_refusal, insert_merchant, get_merchant_by_id, count_merchants,
}
use rvpay_go.Transactions.Repo.Customers as CustomerRepo
use rvpay_go.Transactions.Repo.Merchants as MerchantRepo
use rvpay_go.Transactions.Customers.{
  CreateCustomerRequest, create_customer, get_customer, create_customer_error,
}
use rvpay_go.Transactions.Merchants.{
  CreateMerchantRequest, create_merchant, create_merchant_error, get_merchant, list_merchants,
}

insert_customer-Changes : (row : Customer) → Changes (insert_customer row)
unfolding insert_customer
insert_customer-Changes row db = elim (Option-cases (customer_refusal row db.tables)) [
  | inl e ↦ rw (e, insert_customer) (customer_added row e refl)
  | inr (x, e) ↦ rw (e, insert_customer) (same refl)
]

insert_merchant-Changes : (row : Merchant) → Changes (insert_merchant row)
unfolding insert_merchant
insert_merchant-Changes row db = elim (Option-cases (merchant_refusal row db.tables)) [
  | inl e ↦ rw (e, insert_merchant) (merchant_added row e refl)
  | inr (x, e) ↦ rw (e, insert_merchant) (same refl)
]

create_customer_row-Changes :
    (arg : CustomerStore.CreateCustomerParams) → Changes (CustomerStore.create_customer arg)
unfolding CustomerStore.create_customer
create_customer_row-Changes arg db =
    Changes-statement
      (draw_uuid >>= λ id u.
        insert_customer (CustomerStore.new_customer arg id (u.clock u.ticks)) u)
      db (insert_customer-Changes _ (record db { ticks = suc db.ticks; drawn = suc db.drawn }))

create_merchant_row-Changes :
    (arg : MerchantStore.CreateMerchantParams) → Changes (MerchantStore.create_merchant arg)
unfolding MerchantStore.create_merchant
create_merchant_row-Changes arg db =
    Changes-statement
      (draw_uuid >>= λ id u.
        insert_merchant (MerchantStore.new_merchant arg id (u.clock u.ticks)) u)
      db (insert_merchant-Changes _ (record db { ticks = suc db.ticks; drawn = suc db.drawn }))

store_customer-Changes :
    (client merchant : Uuid) (phone : String)
    → Changes (
        map_err create_customer_error
          (CustomerRepo.create client merchant phone CustomerStatus.created))
unfolding CustomerRepo.create
store_customer-Changes client merchant phone db =
    let arg : CustomerStore.CreateCustomerParams = record {
      client_id = client;
      merchant_id = merchant;
      phone_number = phone;
      status = CustomerStatus.created;
    } in
    let insertion = CustomerStore.create_customer arg in
    Changes-map_err create_customer_error (map_err wrap_error insertion) db
      (Changes-map_err wrap_error insertion db (create_customer_row-Changes arg db))

store_merchant-Changes :
    (name slug : String)
    → Changes
        (map_err create_merchant_error (MerchantRepo.create name slug MerchantStatus.onboarded))
unfolding MerchantRepo.create
store_merchant-Changes name slug db =
    let arg : MerchantStore.CreateMerchantParams = record {
      name = name;
      slug = slug;
      status = MerchantStatus.onboarded;
    } in
    let insertion = MerchantStore.create_merchant arg in
    Changes-map_err create_merchant_error (map_err wrap_error insertion) db
      (Changes-map_err wrap_error insertion db (create_merchant_row-Changes arg db))

module _ (env : Env) where
  -- `CreateCustomer`.
  pub create_customer-Changes :
      (req : Option CreateCustomerRequest) → Changes (create_customer env req)
  unfolding create_customer
  create_customer-Changes none db = same refl
  create_customer-Changes (some req) db = elim (Option-cases (env.parse_uuid req.client_id)) [
    | inl e ↦ rw e (same refl)
    | inr (client, e) ↦ elim (Option-cases (env.parse_uuid req.merchant_id)) [
      | inl f ↦ rw (e, f) (same refl)
      | inr (merchant, f) ↦
          let phone = trim_space req.phone_number in
          elim (Bool-cases (is_empty phone)) [
            | inl b ↦ rw (e, f, b) (same refl)
            | inr b ↦
                rw (e, f, b)
                  (Changes-reply
                    (map_err create_customer_error
                      (CustomerRepo.create client merchant phone CustomerStatus.created))
                    (customer_to_proto env) db (store_customer-Changes client merchant phone db))
          ]
    ]
  ]

  -- `CreateMerchant`.
  pub create_merchant-Changes :
      (req : Option CreateMerchantRequest) → Changes (create_merchant env req)
  unfolding create_merchant
  create_merchant-Changes none db = same refl
  create_merchant-Changes (some req) db =
      let name = trim_space req.name in
      let slug = trim_space req.slug in
      elim (Bool-cases (is_empty name)) [
        | inl e ↦ rw e (same refl)
        | inr e ↦ elim (Bool-cases (is_empty slug)) [
          | inl f ↦ rw (e, f) (same refl)
          | inr f ↦
              rw (e, f)
                (Changes-reply
                  (map_err create_merchant_error
                    (MerchantRepo.create name slug MerchantStatus.onboarded))
                  (merchant_to_proto env) db (store_merchant-Changes name slug db))
        ]
      ]

  pub get_customer-ReadOnly : (id : Option String) → ReadOnly (get_customer env id)
  unfolding get_customer CustomerRepo.get_by_id get_customer_by_id
  get_customer-ReadOnly none db = refl
  get_customer-ReadOnly (some id) db = ground arith

  pub get_merchant-ReadOnly : (id : Option String) → ReadOnly (get_merchant env id)
  unfolding get_merchant MerchantRepo.get_by_id get_merchant_by_id
  get_merchant-ReadOnly none db = refl
  get_merchant-ReadOnly (some id) db = ground arith

  pub list_merchants-ReadOnly :
      (req : Option (Option PaginationRequest)) → ReadOnly (list_merchants env req)
  unfolding list_merchants MerchantRepo.list MerchantRepo.count MerchantStore.list_merchants
      count_merchants
  list_merchants-ReadOnly none db = refl
  list_merchants-ReadOnly (some page) db = ground arith
