-- ===== src/Clients/Repo/OauthStates.antt =====
-- The table `oauth_states`: clients/db/sqlc/oauth_states.sql.go and
-- clients/db/repo/oauth_state_repo.go.
use rvpay_go.Base.{
  ℕ, String, Bool, not, ◌&&◌, ◌||◌, Option, none, some, ◌==◌, str_eq, ltb, leb, if◌then◌else◌,
}
use rvpay_go.Base.Table.{any_row}
use rvpay_go.Base.Effect.{Action, map_err, wrap_error, wrap_not_found}
use rvpay_go.Clients.Model.{Uuid, Time, OauthState, Tables, Db}
use rvpay_go.Clients.Query.{Table, select_one, insert_into, update_one, delete_from, unrestricted}

abbrev pub oauth_states_table : Table OauthState
oauth_states_table = record {
  rows = λ t. t.oauth_states;
  with_rows = λ rows t. record t { oauth_states = rows };
}

unfoldable pub oauth_state_refusal : OauthState → Tables → Option String
oauth_state_refusal row t =
    if any_row (λ s. s.id == row.id || str_eq s.state row.state) t.oauth_states
    then some "23505"
    else if not (any_row (λ c. c.id == row.client_id) t.clients)
    then some "23503"
    else if not (any_row (λ p. p.id == row.platform_id) t.platforms)
    then some "23503"
    else none

abbrev pub new_oauth_state :
    (state : String) (client_id platform_id : Uuid) (expires_at : Time) → Uuid → Time → OauthState
new_oauth_state state client_id platform_id expires_at id t = record {
  id = id;
  state = state;
  client_id = client_id;
  platform_id = platform_id;
  expires_at = expires_at;
  consumed_at = none;
  created_at = t;
  updated_at = t;
}

unfoldable pub create_oauth_state :
    (state : String) (client_id platform_id : Uuid) (expires_at : Time) → Action Db OauthState
create_oauth_state state client_id platform_id expires_at =
    insert_into oauth_states_table oauth_state_refusal
      (new_oauth_state state client_id platform_id expires_at)

unfoldable pub get_oauth_state_by_state : String → Action Db OauthState
get_oauth_state_by_state state = select_one oauth_states_table (λ s. str_eq s.state state)

-- `state = $1 AND consumed_at IS NULL AND expires_at > NOW()`.
abbrev pub is_consumable : String → Time → OauthState → Bool
is_consumable state t s =
    str_eq s.state state
    && elim s.consumed_at [ none ↦ Bool.true | some _ ↦ Bool.false ]
    && ltb t s.expires_at

abbrev pub set_consumed : Time → OauthState → OauthState
set_consumed t s = record s { consumed_at = some t; updated_at = t }

unfoldable pub consume_oauth_state : String → Action Db OauthState
consume_oauth_state state =
    update_one oauth_states_table unrestricted (is_consumable state) set_consumed

unfoldable pub delete_expired_oauth_states : Action Db ℕ
delete_expired_oauth_states =
    delete_from oauth_states_table (λ t. none) (λ t. t) (λ t s. leb s.expires_at t)

-- The repository.
unfoldable pub create :
    (state : String) (client_id platform_id : Uuid) (expires_at : Time) → Action Db OauthState
create state client_id platform_id expires_at =
    map_err wrap_error (create_oauth_state state client_id platform_id expires_at)

unfoldable pub get_by_state : String → Action Db OauthState
get_by_state state = map_err wrap_not_found (get_oauth_state_by_state state)

unfoldable pub consume : String → Action Db OauthState
consume state = map_err wrap_not_found (consume_oauth_state state)

unfoldable pub delete_expired : Action Db ℕ
delete_expired = map_err wrap_error delete_expired_oauth_states
