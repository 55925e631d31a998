-- ===== src/Gateway.antt =====
-- src/hermes_auto/gateway: errors, ingress, the upstream client and the relay.
pub mod Errors
pub mod Auth
pub mod Loopback
pub mod Admin
pub mod Ingress
pub mod Upstream
pub mod Relay
pub mod Endpoints
