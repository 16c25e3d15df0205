-- ===== src/Clients/Repo.antt =====
-- The tables of the clients service (clients/db): for each, the statements that run on it and its
-- repository. The table of the webhook events is in Events.antt.
pub mod Clients
pub mod Platforms
pub mod Integrations
pub mod OauthStates
pub mod OauthTokens
pub mod WebhookSubscriptions
pub mod PaymentProviderConfigs
