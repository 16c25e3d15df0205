-- ===== src/Clients/Repo/OauthTokens.antt =====
-- The table `oauth_tokens`: clients/db/sqlc/oauth_tokens.sql.go and
-- clients/db/repo/oauth_token_repo.go.
use rvpay_go.Base.{ℕ, String, Bool, not, ◌||◌, Option, none, some, ◌==◌, if◌then◌else◌}
use rvpay_go.Base.Table.{any_row}
use rvpay_go.Base.Effect.{ok, Action, lift, map_err, wrap_error, wrap_not_found, ◌>>=◌}
use rvpay_go.Clients.Model.{Uuid, Time, OauthToken, Tables, Db}
use rvpay_go.Clients.Query.{
  Table, select_one, select_exists, insert_into, update_one, delete_from, unrestricted, delete_row,
}

abbrev pub oauth_tokens_table : Table OauthToken
oauth_tokens_table = record {
  rows = λ t. t.oauth_tokens;
  with_rows = λ rows t. record t { oauth_tokens = rows };
}

unfoldable pub oauth_token_refusal : OauthToken → Tables → Option String
oauth_token_refusal row t =
    if any_row (λ o. o.id == row.id || o.integration_id == row.integration_id) t.oauth_tokens
    then some "23505"
    else if not (any_row (λ i. i.id == row.integration_id) t.integrations)
    then some "23503"
    else none

abbrev pub new_oauth_token :
    (integration_id : Uuid) (access_token refresh_token : String) (expires_at : Time)
    (scope token_type : String)
    → Uuid
    → Time
    → OauthToken
new_oauth_token integration_id access_token refresh_token expires_at scope token_type id t =
    record {
      id = id;
      integration_id = integration_id;
      access_token = access_token;
      refresh_token = refresh_token;
      expires_at = expires_at;
      scope = scope;
      token_type = token_type;
      created_at = t;
      updated_at = t;
    }

unfoldable pub create_oauth_token :
    (integration_id : Uuid) (access_token refresh_token : String) (expires_at : Time)
    (scope token_type : String)
    → Action Db OauthToken
create_oauth_token integration_id access_token refresh_token expires_at scope token_type =
    insert_into oauth_tokens_table oauth_token_refusal
      (new_oauth_token integration_id access_token refresh_token expires_at scope token_type)

unfoldable pub get_oauth_token_by_id : Uuid → Action Db OauthToken
get_oauth_token_by_id id = select_one oauth_tokens_table (λ o. o.id == id)

unfoldable pub get_oauth_token_by_integration_id : Uuid → Action Db OauthToken
get_oauth_token_by_integration_id integration =
    select_one oauth_tokens_table (λ o. o.integration_id == integration)

unfoldable pub oauth_token_exists_by_integration_id : Uuid → Action Db Bool
oauth_token_exists_by_integration_id integration =
    select_exists oauth_tokens_table (λ o. o.integration_id == integration)

abbrev pub set_oauth_token :
    (access_token refresh_token : String) (expires_at : Time) (scope token_type : String)
    → Time
    → OauthToken
    → OauthToken
set_oauth_token access_token refresh_token expires_at scope token_type t o = record o {
  access_token = access_token;
  refresh_token = refresh_token;
  expires_at = expires_at;
  scope = scope;
  token_type = token_type;
  updated_at = t;
}

unfoldable pub update_oauth_token :
    (id : Uuid) (access_token refresh_token : String) (expires_at : Time)
    (scope token_type : String)
    → Action Db OauthToken
update_oauth_token id access_token refresh_token expires_at scope token_type =
    update_one oauth_tokens_table unrestricted (λ t o. o.id == id)
      (set_oauth_token access_token refresh_token expires_at scope token_type)

unfoldable pub delete_oauth_token : Uuid → Action Db ℕ
delete_oauth_token id = delete_from oauth_tokens_table (λ t. none) (λ t. t) (λ t o. o.id == id)

unfoldable pub delete_oauth_token_by_integration_id : Uuid → Action Db ℕ
delete_oauth_token_by_integration_id integration =
    delete_from oauth_tokens_table (λ t. none) (λ t. t) (λ t o. o.integration_id == integration)

-- The repository.
unfoldable pub create :
    (integration_id : Uuid) (access_token refresh_token : String) (expires_at : Time)
    (scope token_type : String)
    → Action Db OauthToken
create integration_id access_token refresh_token expires_at scope token_type =
    map_err wrap_error
      (create_oauth_token integration_id access_token refresh_token expires_at scope token_type)

unfoldable pub get_by_id : Uuid → Action Db OauthToken
get_by_id id = map_err wrap_not_found (get_oauth_token_by_id id)

unfoldable pub get_by_integration_id : Uuid → Action Db OauthToken
get_by_integration_id integration =
    map_err wrap_not_found (get_oauth_token_by_integration_id integration)

unfoldable pub exists_by_integration_id : Uuid → Action Db Bool
exists_by_integration_id integration =
    map_err wrap_error (oauth_token_exists_by_integration_id integration)

unfoldable pub update :
    (id : Uuid) (access_token refresh_token : String) (expires_at : Time)
    (scope token_type : String)
    → Action Db OauthToken
update id access_token refresh_token expires_at scope token_type =
    map_err wrap_not_found
      (update_oauth_token id access_token refresh_token expires_at scope token_type)

unfoldable pub delete : Uuid → Action Db (Unit {0})
delete id = delete_row (delete_oauth_token id)

-- The number of rows is not looked at.
unfoldable pub delete_by_integration_id : Uuid → Action Db (Unit {0})
delete_by_integration_id integration =
    map_err wrap_error (delete_oauth_token_by_integration_id integration) >>= λ _. lift (ok tt)
