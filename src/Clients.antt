-- ===== src/Clients.antt =====
-- The clients service (clients/): accounts of businesses, the platforms they connect to, and the
-- integrations that join the two.
pub mod Model
pub mod Query
pub mod Repo
pub mod Errors
pub mod Keeps
pub mod Providers
pub mod Events
pub mod Webhooks
pub mod Oauth
pub mod Payments
pub mod Service
pub mod Http
pub mod Runs
pub mod Reports
mod Tests
