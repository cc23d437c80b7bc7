-- ===== src/Worker.antt =====
-- apps/worker: the processors, each a step on the rows of one tenant.
pub mod Store
pub mod Outcomes
pub mod Robust
pub mod Messaging
pub mod Relay
pub mod Inbound
pub mod Takeover
pub mod Runs
pub mod FirstTouch
pub mod Booking
pub mod Conversation
pub mod Assignment
pub mod Escalation
pub mod CrmSync
pub mod CrmInbound
pub mod Mapping
pub mod Ingest
