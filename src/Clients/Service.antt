-- ===== src/Clients/Service.antt =====
-- The gRPC services of clients/service.
pub mod Convert
pub mod Clients
pub mod Platforms
pub mod Integrations
pub mod Laws
