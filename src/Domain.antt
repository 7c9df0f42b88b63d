-- ===== src/Domain.antt =====
-- domain/: the value sets of the gateway, their orders, and the canonical request.
pub mod Enums
pub mod Strictest
pub mod Requests
pub mod Routing
