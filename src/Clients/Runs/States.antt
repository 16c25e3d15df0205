-- ===== src/Clients/Runs/States.antt =====
-- An OAuth state over the calls of the service: `Consume` of clients/db/repo/oauth_state_repo.go and
-- its use by `HandleCallback` of clients/oauth/service.go.
use mathlib.Core.Path.{subst}
use rvpay_go.Base.{
  suc, ◌≤◌, String, Bool, true, false, Bool-cases, Option-cases, ◌&&◌, ◌||◌, ◌==◌, none, some, List,
  inl, inr, ◌≡◌, refl, arith, str_eq, eq_iff,
}
use rvpay_go.Base.Text.{is_empty}
use rvpay_go.Base.Table.{find_row, any_row, update_rows, count_rows}
use rvpay_go.Base.Rows.{
  any_row-weaken, any_row-append_last, any_row-update, any_row-update_false, find_row-any,
  update-closes,
}
use rvpay_go.Base.Effect.{
  Err, status, err_duplicate, err_constraint, pg_error, other, ◌>>=◌, Result, ok, err, no_rows,
  err_not_found, wrap_not_found, >>=-eq-ok,
}
use rvpay_go.Clients.Model.{Time, OauthState, Tables, Db}
use rvpay_go.Clients.Query.{update_one}
use rvpay_go.Clients.Repo.OauthStates as OauthStateRepo
use rvpay_go.Clients.Repo.OauthStates.{
  oauth_state_refusal, is_consumable, set_consumed, consume_oauth_state,
}
use rvpay_go.Clients.Keeps.Repo.{Steady}
use rvpay_go.Clients.Keeps.Flows.{process_callback-Keeps}
use rvpay_go.Clients.Oauth.{OauthEnv}
use rvpay_go.Clients.Oauth.Callback.{
  CallbackResult, consumed_state, process_callback, handle_callback_with_state, handle_callback,
}
use rvpay_go.Clients.Runs.{ClientsEnv, Call, run, RemoveNone, run_keeps_without_removal}
use rvpay_go.Clients.Payments.{System}

-- The rows of a state, and those of them that have not been consumed.
abbrev pub has_state : String → OauthState → Bool
has_state s r = str_eq r.state s

abbrev pub is_open : String → OauthState → Bool
is_open s r = str_eq r.state s && elim r.consumed_at [ none ↦ true | some _ ↦ false ]

-- The state has a row, and each row of it has been consumed.
pub record IsSpent (s : String) (t : Tables) : Type 0 where
  pub known : any_row (has_state s) t.oauth_states ≡ true
  pub closed : any_row (is_open s) t.oauth_states ≡ false

open_has : (s : String) (r : OauthState) → is_open s r ≡ true → has_state s r ≡ true
open_has s r h = ground arith

consumable_has :
    (s : String) (t : Time) (r : OauthState) → is_consumable s t r ≡ true → has_state s r ≡ true
consumable_has s t r h = ground arith

consumable_open :
    (s : String) (t : Time) (r : OauthState) → is_consumable s t r ≡ true → is_open s r ≡ true
consumable_open s t r h = ground arith

consumed_closed : (s : String) (t : Time) (r : OauthState) → is_open s (set_consumed t r) ≡ false
consumed_closed s t r = ground arith

-- A new row has another state, as the unique key has it.
new_state :
    (s : String) (row : OauthState) (t : Tables)
    → oauth_state_refusal row t ≡ none
    → any_row (has_state s) t.oauth_states ≡ true
    → has_state s row ≡ false
unfolding oauth_state_refusal
new_state s row t n h = elim (Bool-cases (has_state s row)) [
  | inr e ↦ e
  | inl e ↦
      let taken =
        any_row-weaken (has_state s) (λ x. x.id == row.id || str_eq x.state row.state)
          t.oauth_states
          (λ x k. same_state x row.state (ground (arith, eq_iff row.state s, eq_iff x.state s)))
          h in
      ground arith
]
  where
    same_state :
        (x : OauthState) (a : String) → x.state ≡ a → (x.id == row.id || str_eq x.state a) ≡ true
    same_state x a e = ground (arith, eq_iff x.state a)

IsSpent-Steady : (s : String) → Steady (IsSpent s)
IsSpent-Steady s = record {
  client_added = λ row t n h. record { known = h.known; closed = h.closed };
  client_changed = λ id to now t h. record { known = h.known; closed = h.closed };
  platform_changed =
      λ id a b c d e f now row t x y h. record { known = h.known; closed = h.closed };
  integration_added = λ row t n h. record { known = h.known; closed = h.closed };
  integration_changed = λ id to now t h. record { known = h.known; closed = h.closed };
  oauth_state_added = λ row t n h. record {
    known = rw (any_row-append_last (has_state s) t.oauth_states row, h.known) refl;
    closed =
        rw (any_row-append_last (is_open s) t.oauth_states row, h.closed)
          (let other = new_state s row t n h.known in ground arith);
  };
  oauth_state_consumed = λ state now t h. record {
    known =
        rw
          (any_row-update (has_state s) (is_consumable state now) (set_consumed now) t.oauth_states
            (λ x. refl))
          h.known;
    closed =
        any_row-update_false (is_open s) (is_consumable state now) (set_consumed now) t.oauth_states
          (consumed_closed s now) h.closed;
  };
  oauth_token_added = λ row t n h. record { known = h.known; closed = h.closed };
  oauth_token_changed = λ id a b c d e now t h. record { known = h.known; closed = h.closed };
  webhook_subscription_added = λ row t n h. record { known = h.known; closed = h.closed };
  webhook_subscription_changed = λ id l now t h. record { known = h.known; closed = h.closed };
  webhook_subscription_removed = λ id t h. record { known = h.known; closed = h.closed };
  webhook_event_added = λ row t a b c h. record { known = h.known; closed = h.closed };
  configs = record {
    config_added = λ row t n h. record { known = h.known; closed = h.closed };
    config_changed = λ arg now t h. record { known = h.known; closed = h.closed };
  };
}

-- What a statement that consumes a state found, and what it left.
consumed_rows :
    (s : String) (db : Db) {row : OauthState} {u : Db}
    → OauthStateRepo.consume s db ≡ (ok row, u)
    → let t = db.clock (suc db.ticks) in
      (any_row (is_consumable s t) db.oauth_states ≡ true)
      × (u.oauth_states ≡ update_rows (is_consumable s t) (set_consumed t) db.oauth_states)
unfolding OauthStateRepo.consume consume_oauth_state update_one wrap_not_found
consumed_rows s db {row} {u} h =
    let t = db.clock (suc db.ticks) in
    elim (Option-cases (find_row (is_consumable s t) db.oauth_states)) [
      | inl e ↦ ground arith
      | inr (r, e) ↦ (find_row-any (is_consumable s t) db.oauth_states e, (ground arith))
    ]

-- The statement that consumes a state leaves it spent, where the state has one row at most.
consumed-IsSpent :
    (s : String) (db : Db) {row : OauthState} {u : Db}
    → count_rows (has_state s) db.oauth_states ≤ 1
    → OauthStateRepo.consume s db ≡ (ok row, u)
    → IsSpent s u.tables
consumed-IsSpent s db n h =
    let t = db.clock (suc db.ticks) in
    let (found, rows) = consumed_rows s db h in
    record {
      known =
          rw
            (
              rows,
              any_row-update (has_state s) (is_consumable s t) (set_consumed t) db.oauth_states
                  (λ x. refl),
            )
            (any_row-weaken (is_consumable s t) (has_state s) db.oauth_states (consumable_has s t)
              found);
      closed = rw rows (
          update-closes (is_open s) (is_consumable s t) (has_state s) (set_consumed t)
            db.oauth_states (open_has s) (consumable_has s t) (consumed_closed s t) n found);
    }

-- No statement consumes a spent state.
spent_not_consumed :
    (s : String) (db : Db) {row : OauthState} {u : Db}
    → IsSpent s db.tables
    → ¬ (OauthStateRepo.consume s db ≡ (ok row, u))
spent_not_consumed s db h e =
    let t = db.clock (suc db.ticks) in
    let o =
      any_row-weaken (is_consumable s t) (is_open s) db.oauth_states (consumable_open s t)
        (consumed_rows s db e).0 in
    cc (rw h.closed at o)

consumed_state_failed :
    (s : String) (e : Err) (db : Db) {row : OauthState} {u : Db}
    → ¬ (consumed_state s (err e) db ≡ (ok row, u))
unfolding consumed_state
consumed_state_failed s (status c m) db h = cc
consumed_state_failed s err_not_found db h = ground arith
consumed_state_failed s err_duplicate db h = cc
consumed_state_failed s err_constraint db h = cc
consumed_state_failed s no_rows db h = cc
consumed_state_failed s (pg_error c) db h = cc
consumed_state_failed s (other m) db h = cc

-- A request with a state that has a reply has consumed its state.
reply_consumed :
    (env : OauthEnv) (code s : String) (db : Db) {r : CallbackResult} {u : Db}
    → is_empty s ≡ false
    → handle_callback env code s db ≡ (ok r, u)
    → (row : OauthState) × (v : Db) × (OauthStateRepo.consume s db ≡ (ok row, v))
      × (process_callback env row.client_id row.platform_id code v ≡ (ok r, u))
unfolding handle_callback handle_callback_with_state
reply_consumed env code s db {r} {u} n h = elim (Bool-cases (is_empty code)) [
  | inl e ↦ absurd (cc (rw (e, handle_callback) at h))
  | inr e ↦ go (OauthStateRepo.consume s db) refl (rw (e, n, handle_callback) at h)
]
  where
    go :
        (x : Result OauthState × Db)
        → OauthStateRepo.consume s db ≡ x
        → (consumed_state s x.0 >>= λ row. process_callback env row.client_id row.platform_id code)
            x.1
          ≡ (ok r, u)
        → (row : OauthState) × (v : Db) × (OauthStateRepo.consume s db ≡ (ok row, v))
          × (process_callback env row.client_id row.platform_id code v ≡ (ok r, u))
    go (ok row, v) e k = (row, v, e, unfold consumed_state in k)
    go (err x, v) e k =
        let (row, w, m, _) =
          >>=-eq-ok (consumed_state s (err x))
            (λ row. process_callback env row.client_id row.platform_id code) v k in
        absurd (consumed_state_failed s x v m)

-- Once a state has got a reply, no request with it gets one, whatever calls that remove no client come
-- between, and whatever the server refuses; the state is taken to have one row at most, as its
-- unique key has it.
pub handle_callback_once :
    (env : ClientsEnv) (code code' s : String) (cs : List Call) (w : System) {r r' : CallbackResult}
    {u : Db}
    → is_empty s ≡ false
    → count_rows (has_state s) w.clients.oauth_states ≤ 1
    → RemoveNone cs
    → handle_callback env.oauth code s w.clients ≡ (ok r, u)
    → ¬ (
        (handle_callback env.oauth code' s (run env cs (record w { clients = u })).clients).0
        ≡ ok r')
handle_callback_once env code code' s cs w {r} {r'} {u} n one no_removal h again =
    let (row, v, consumed, rest) = reply_consumed env.oauth code s w.clients n h in
    let spent = consumed-IsSpent s w.clients one consumed in
    let kept =
      (process_callback-Keeps env.oauth (IsSpent-Steady s) row.client_id row.platform_id code).at v
        spent in
    let later = run env cs (record w { clients = u }) in
    let still =
      run_keeps_without_removal env (IsSpent-Steady s)
        (λ id t k. record { known = k.known; closed = k.closed }) cs (record w { clients = u })
        no_removal (subst (λ (x : Result CallbackResult × Db). IsSpent s x.1.tables) rest kept) in
    let (_, _, e, _) =
      reply_consumed env.oauth code' s later.clients {r = r'} n
        (λ i. (again i, (handle_callback env.oauth code' s later.clients).1)) in
    spent_not_consumed s later.clients still e
