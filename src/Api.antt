-- ===== src/Api.antt =====
-- apps/api: the HTTP handlers, each a step on the rows of one tenant.
pub mod Signing
pub mod Gateway
pub mod Sessions
pub mod Access
pub mod Actions
