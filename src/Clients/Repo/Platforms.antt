-- ===== src/Clients/Repo/Platforms.antt =====
-- The table `platforms`: clients/db/sqlc/platforms.sql.go and clients/db/repo/platform_repo.go.
use rvpay_go.Base.{
  ℕ, String, Bool, not, ◌&&◌, ◌||◌, Option, none, some, List, ◌==◌, str_eq, if◌then◌else◌,
}
use rvpay_go.Base.Table.{any_row, delete_rows}
use rvpay_go.Base.Effect.{Action, map_err, wrap_error, wrap_not_found}
use rvpay_go.Clients.Model.{Uuid, Time, Platform, Tables, Db}
use rvpay_go.Clients.Query.{
  Table, select_one, select_exists, select_count, select_page, insert_into, update_one, delete_from,
  delete_row,
}

abbrev pub platforms_table : Table Platform
platforms_table = record {
  rows = λ t. t.platforms;
  with_rows = λ rows t. record t { platforms = rows };
}

unfoldable pub platform_refusal : Platform → Tables → Option String
platform_refusal row t =
    if any_row (λ p. p.id == row.id || str_eq p.slug row.slug) t.platforms
    then some "23505"
    else none

-- The slug of another platform.
unfoldable pub platform_update_refusal : Platform → Tables → Option String
platform_update_refusal row t =
    if any_row (λ p. not (p.id == row.id) && str_eq p.slug row.slug) t.platforms
    then some "23505"
    else none

unfoldable pub create_platform :
    (name display_name slug : String) (enabled oauth_capable webhook_capable : Bool)
    → Action Db Platform
create_platform name display_name slug enabled oauth_capable webhook_capable =
    insert_into platforms_table platform_refusal (λ id t. record {
      id = id;
      name = name;
      display_name = display_name;
      slug = slug;
      enabled = enabled;
      oauth_capable = oauth_capable;
      webhook_capable = webhook_capable;
      created_at = t;
      updated_at = t;
    })

unfoldable pub get_platform_by_id : Uuid → Action Db Platform
get_platform_by_id id = select_one platforms_table (λ p. p.id == id)

unfoldable pub get_platform_by_name : String → Action Db Platform
get_platform_by_name name = select_one platforms_table (λ p. str_eq p.name name)

unfoldable pub get_platform_by_slug : String → Action Db Platform
get_platform_by_slug slug = select_one platforms_table (λ p. str_eq p.slug slug)

unfoldable pub list_platforms : ℕ → ℕ → Action Db (List Platform)
list_platforms limit offset =
    select_page platforms_table (λ p. Bool.true) Platform.created_at limit offset

unfoldable pub list_enabled_platforms : ℕ → ℕ → Action Db (List Platform)
list_enabled_platforms limit offset =
    select_page platforms_table Platform.enabled Platform.created_at limit offset

unfoldable pub count_platforms : Action Db ℕ
count_platforms = select_count platforms_table (λ p. Bool.true)

unfoldable pub platform_exists_by_slug : String → Action Db Bool
platform_exists_by_slug slug = select_exists platforms_table (λ p. str_eq p.slug slug)

abbrev pub set_platform :
    (name display_name slug : String) (enabled oauth_capable webhook_capable : Bool)
    → Time
    → Platform
    → Platform
set_platform name display_name slug enabled oauth_capable webhook_capable t p = record p {
  name = name;
  display_name = display_name;
  slug = slug;
  enabled = enabled;
  oauth_capable = oauth_capable;
  webhook_capable = webhook_capable;
  updated_at = t;
}

unfoldable pub update_platform :
    (id : Uuid) (name display_name slug : String) (enabled oauth_capable webhook_capable : Bool)
    → Action Db Platform
update_platform id name display_name slug enabled oauth_capable webhook_capable =
    update_one platforms_table platform_update_refusal (λ t p. p.id == id)
      (set_platform name display_name slug enabled oauth_capable webhook_capable)

-- Integrations restrict the removal of their platform; OAuth states go with it.
unfoldable pub delete_platform : Uuid → Action Db ℕ
delete_platform id =
    delete_from platforms_table
      (λ t. if any_row (λ i. i.platform_id == id) t.integrations then some "23503" else none)
      (λ t. record t { oauth_states = delete_rows (λ s. s.platform_id == id) t.oauth_states })
      (λ t p. p.id == id)

-- The repository.
unfoldable pub create :
    (name display_name slug : String) (enabled oauth_capable webhook_capable : Bool)
    → Action Db Platform
create name display_name slug enabled oauth_capable webhook_capable =
    map_err wrap_error
      (create_platform name display_name slug enabled oauth_capable webhook_capable)

unfoldable pub get_by_id : Uuid → Action Db Platform
get_by_id id = map_err wrap_not_found (get_platform_by_id id)

unfoldable pub get_by_name : String → Action Db Platform
get_by_name name = map_err wrap_not_found (get_platform_by_name name)

unfoldable pub get_by_slug : String → Action Db Platform
get_by_slug slug = map_err wrap_not_found (get_platform_by_slug slug)

unfoldable pub list : ℕ → ℕ → Action Db (List Platform)
list limit offset = map_err wrap_error (list_platforms limit offset)

unfoldable pub list_enabled : ℕ → ℕ → Action Db (List Platform)
list_enabled limit offset = map_err wrap_error (list_enabled_platforms limit offset)

unfoldable pub count : Action Db ℕ
count = map_err wrap_error count_platforms

unfoldable pub exists_by_slug : String → Action Db Bool
exists_by_slug slug = map_err wrap_error (platform_exists_by_slug slug)

unfoldable pub update :
    (id : Uuid) (name display_name slug : String) (enabled oauth_capable webhook_capable : Bool)
    → Action Db Platform
update id name display_name slug enabled oauth_capable webhook_capable =
    map_err wrap_not_found
      (update_platform id name display_name slug enabled oauth_capable webhook_capable)

unfoldable pub delete : Uuid → Action Db (Unit {0})
delete id = delete_row (delete_platform id)
