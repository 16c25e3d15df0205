-- ===== src/Clients/Runs/Unique.antt =====
-- The unique keys of the tables of clients/db/migrations that concern an integration.
use rvpay_go.Base.{String, Bool, true, false, ◌≡◌, refl, ◌≤◌, ◌==◌, ◌||◌, arith, List, none, eq_iff}
use rvpay_go.Base.Table.{any_row, count_rows, delete_rows}
use rvpay_go.Base.Rows.{any_row-false}
use rvpay_go.Base.Counts.{one-append_last, count_rows-update, count_rows-delete}
use rvpay_go.Clients.Model.{
  Uuid, Integration, OauthToken, WebhookEvent, PaymentProviderConfig, Tables,
}
use rvpay_go.Clients.Events.{has_event_key}
use rvpay_go.Clients.Repo.Integrations.{
  of_client_and_platform, integration_refusal, set_integration_status,
}
use rvpay_go.Clients.Repo.OauthTokens.{oauth_token_refusal, set_oauth_token}
use rvpay_go.Clients.Repo.PaymentProviderConfigs.{payment_provider_config_refusal, set_config}
use rvpay_go.Clients.Keeps.Repo.{AllowsUninstall, Steady, ConfigSteady}
use rvpay_go.Clients.Payments.{System}
use rvpay_go.Clients.Runs.{ClientsEnv, Call, run, run_keeps}

-- A client has one integration with a platform at most, and an integration one token one
-- configuration of a payment provider, and one event of a provider's identifier at most.
pub record IsUnique (t : Tables) : Type 0 where
  pub pair : (c p : Uuid) → count_rows (of_client_and_platform c p) t.integrations ≤ 1
  pub token : (id : Uuid) → count_rows (λ o. o.integration_id == id) t.oauth_tokens ≤ 1
  pub config : (id : Uuid) → count_rows (λ o. o.integration_id == id) t.payment_provider_configs ≤ 1
  pub event :
      (id : Uuid) (event : String) → count_rows (has_event_key id event) t.webhook_events ≤ 1

new_pair :
    (c p : Uuid) (row : Integration) (t : Tables)
    → integration_refusal row t ≡ none
    → of_client_and_platform c p row ≡ true
    → any_row (of_client_and_platform c p) t.integrations ≡ false
unfolding integration_refusal
new_pair c p row t n h =
    any_row-false (of_client_and_platform c p)
      (λ i. i.id == row.id || of_client_and_platform row.client_id row.platform_id i) t.integrations
      (λ x e. ground arith) (ground arith)

new_token :
    (id : Uuid) (row : OauthToken) (t : Tables)
    → oauth_token_refusal row t ≡ none
    → (row.integration_id == id) ≡ true
    → any_row (λ o. o.integration_id == id) t.oauth_tokens ≡ false
unfolding oauth_token_refusal
new_token id row t n h =
    any_row-false (λ o. o.integration_id == id)
      (λ o. o.id == row.id || o.integration_id == row.integration_id) t.oauth_tokens
      (λ x e. ground arith) (ground arith)

new_config :
    (id : Uuid) (row : PaymentProviderConfig) (t : Tables)
    → payment_provider_config_refusal row t ≡ none
    → (row.integration_id == id) ≡ true
    → any_row (λ o. o.integration_id == id) t.payment_provider_configs ≡ false
unfolding payment_provider_config_refusal
new_config id row t n h =
    any_row-false (λ o. o.integration_id == id)
      (λ o. o.id == row.id || o.integration_id == row.integration_id) t.payment_provider_configs
      (λ x e. ground arith) (ground arith)

new_event :
    (id : Uuid) (event : String) (row : WebhookEvent) (t : Tables)
    → any_row (has_event_key row.integration_id row.provider_event_id) t.webhook_events ≡ false
    → has_event_key id event row ≡ true
    → any_row (has_event_key id event) t.webhook_events ≡ false
new_event id event row t n h =
    any_row-false (has_event_key id event) (has_event_key row.integration_id row.provider_event_id)
      t.webhook_events
      (λ x e. ground (
        arith,
        eq_iff row.provider_event_id event,
        eq_iff x.provider_event_id event,
        eq_iff x.provider_event_id row.provider_event_id,
      ))
      n

-- The rows that are left.
fewer :
    {R : Type 0} (p q : R → Bool) (xs : List R)
    → count_rows p xs ≤ 1
    → count_rows p (delete_rows q xs) ≤ 1
fewer p q xs h = let less = count_rows-delete p q xs in ground arith

IsUnique-ConfigSteady : ConfigSteady IsUnique
IsUnique-ConfigSteady = record {
  config_added = λ row t n h. record {
    pair = h.pair;
    token = h.token;
    config = λ id.
        one-append_last (λ o. o.integration_id == id) t.payment_provider_configs row
          (new_config id row t n) (h.config id);
    event = h.event;
  };
  config_changed = λ arg now t h. record {
    pair = h.pair;
    token = h.token;
    config = λ id.
        rw
          (count_rows-update (λ o. o.integration_id == id)
            (λ c. c.integration_id == arg.integration_id) (set_config arg now)
            t.payment_provider_configs (λ x. refl))
          (h.config id);
    event = h.event;
  };
}

IsUnique-Steady : Steady IsUnique
IsUnique-Steady = record {
  client_added =
      λ row t n h. record { pair = h.pair; token = h.token; config = h.config; event = h.event };
  client_changed = λ id to now t h. record {
    pair = h.pair;
    token = h.token;
    config = h.config;
    event = h.event;
  };
  platform_changed = λ id a b c d e f now row t x y h. record {
    pair = h.pair;
    token = h.token;
    config = h.config;
    event = h.event;
  };
  integration_added = λ row t n h. record {
    pair = λ c p.
        one-append_last (of_client_and_platform c p) t.integrations row (new_pair c p row t n)
          (h.pair c p);
    token = h.token;
    config = h.config;
    event = h.event;
  };
  integration_changed = λ id to now t h. record {
    pair = λ c p.
        rw
          (count_rows-update (of_client_and_platform c p) (λ i. i.id == id)
            (set_integration_status to now) t.integrations (λ x. refl))
          (h.pair c p);
    token = h.token;
    config = h.config;
    event = h.event;
  };
  oauth_state_added =
      λ row t n h. record { pair = h.pair; token = h.token; config = h.config; event = h.event };
  oauth_state_consumed = λ state now t h. record {
    pair = h.pair;
    token = h.token;
    config = h.config;
    event = h.event;
  };
  oauth_token_added = λ row t n h. record {
    pair = h.pair;
    token = λ id.
        one-append_last (λ o. o.integration_id == id) t.oauth_tokens row (new_token id row t n)
          (h.token id);
    config = h.config;
    event = h.event;
  };
  oauth_token_changed = λ id a b x c d now t h. record {
    pair = h.pair;
    token = λ k.
        rw
          (count_rows-update (λ o. o.integration_id == k) (λ o. o.id == id)
            (set_oauth_token a b x c d now) t.oauth_tokens (λ x. refl))
          (h.token k);
    config = h.config;
    event = h.event;
  };
  webhook_subscription_added =
      λ row t n h. record { pair = h.pair; token = h.token; config = h.config; event = h.event };
  webhook_subscription_changed =
      λ id d now t h. record { pair = h.pair; token = h.token; config = h.config; event = h.event };
  webhook_subscription_removed =
      λ id t h. record { pair = h.pair; token = h.token; config = h.config; event = h.event };
  webhook_event_added = λ row t k n i h. record {
    pair = h.pair;
    token = h.token;
    config = h.config;
    event = λ id e.
        one-append_last (has_event_key id e) t.webhook_events row (new_event id e row t k)
          (h.event id e);
  };
  configs = IsUnique-ConfigSteady;
}

IsUnique-uninstalled : AllowsUninstall IsUnique
IsUnique-uninstalled = λ id t h. record {
  pair = λ c p. fewer (of_client_and_platform c p) (λ i. i.id == id) t.integrations (h.pair c p);
  token = λ k.
      fewer (λ o. o.integration_id == k) (λ r. r.integration_id == id) t.oauth_tokens (h.token k);
  config = λ k.
      fewer (λ o. o.integration_id == k) (λ r. r.integration_id == id) t.payment_provider_configs
        (h.config k);
  event =
      λ k e. fewer (has_event_key k e) (λ r. r.integration_id == id) t.webhook_events (h.event k e);
}

-- Whatever calls of the clients service run, and whatever the server refuses, a client keeps one
-- integration with a platform at most, and an integration keeps one token, one configuration of a
-- payment provider and one event of an identifier at most.
pub run-IsUnique :
    (env : ClientsEnv) (cs : List Call) (w : System)
    → IsUnique w.clients.tables
    → IsUnique (run env cs w).clients.tables
run-IsUnique env cs w h =
    run_keeps env IsUnique-Steady
      (λ id t n k. record { pair = k.pair; token = k.token; config = k.config; event = k.event })
      IsUnique-uninstalled cs w h
