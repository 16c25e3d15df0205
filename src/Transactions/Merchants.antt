-- ===== src/Transactions/Merchants.antt =====
-- transactions/merchants/service.go: the handlers of the MerchantService. An int32 page size is
-- an integer; from its first test on it is positive, and so a natural number.
pub mod Pages
use rvpay_go.Base.{ℕ, ◌+◌, String, Option, none, some, List, map, ltb, length, if◌then◌else◌}
use rvpay_go.Base.Text.{is_empty, trim_space}
use rvpay_go.Base.Pagination.{PaginationRequest, requested_size, default_page_size}
use rvpay_go.Base.Effect.{
  invalid_argument, not_found, already_exists, internal, Err, status, err_not_found, err_duplicate,
  ok, Action, lift, raise, raise_if, or_raise, map_err, ◌>>=◌, ◌>>◌,
}
use rvpay_go.Transactions.Model.{MerchantStatus, Env, Db}
use rvpay_go.Transactions.Repo.Merchants as MerchantRepo
use rvpay_go.Transactions.Convert.{MerchantProto, merchant_to_proto}

pub record CreateMerchantRequest : Type 0 where
  pub name : String
  pub slug : String

pub record ListMerchantsResponse : Type 0 where
  pub merchants : List MerchantProto
  pub next_page_token : String
  pub total_count : ℕ

abbrev pub max_page_size : ℕ
max_page_size = 100

-- The page size and the offset that a request asks for.
unfoldable pub page_bounds : Option PaginationRequest → ℕ × ℕ
page_bounds none = (default_page_size, 0)
page_bounds (some page) =
    let asked = requested_size page.page_size in
    let size = if ltb max_page_size asked then max_page_size else asked in
    (size, if is_empty page.page_token then 0 else size)

unfoldable pub create_merchant_error : Err → Err
create_merchant_error err_duplicate = status already_exists "merchant already exists"
create_merchant_error _ = status internal "could not create merchant"

unfoldable pub get_merchant_error : Err → Err
get_merchant_error err_not_found = status not_found "merchant not found"
get_merchant_error _ = status internal "could not get merchant"

module _ (env : Env) where
  unfoldable pub create_merchant : Option CreateMerchantRequest → Action Db MerchantProto
  create_merchant none = raise (status invalid_argument "merchant request is required")
  create_merchant (some req) = do
    let name = trim_space req.name
    raise_if (is_empty name) (status invalid_argument "merchant name is required")
    let slug = trim_space req.slug
    raise_if (is_empty slug) (status invalid_argument "merchant slug is required")
    merchant ←
        map_err create_merchant_error (MerchantRepo.create name slug MerchantStatus.onboarded)
    lift (ok (merchant_to_proto env merchant))

  -- The request is its `merchant_id`.
  unfoldable pub get_merchant : Option String → Action Db MerchantProto
  get_merchant none = raise (status invalid_argument "merchant request is required")
  get_merchant (some id) = do
    merchant_id ←
        or_raise (env.parse_uuid id) (status invalid_argument "merchant_id must be a valid UUID")
    merchant ← map_err get_merchant_error (MerchantRepo.get_by_id merchant_id)
    lift (ok (merchant_to_proto env merchant))

  -- The request is its page, if it has one.
  unfoldable pub list_merchants :
      Option (Option PaginationRequest) → Action Db ListMerchantsResponse
  list_merchants none = raise (status invalid_argument "merchant request is required")
  list_merchants (some page) =
      let (size, offset) = page_bounds page in
      (do
        merchants ←
            map_err (λ _. status internal "could not list merchants")
              (MerchantRepo.list size offset)
        total ← map_err (λ _. status internal "could not count merchants") MerchantRepo.count
        lift (
            ok (record {
              merchants = map (merchant_to_proto env) merchants;
              next_page_token = if ltb (offset + length merchants) total then "next" else "";
              total_count = total;
            })))
