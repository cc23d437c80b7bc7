-- ===== src/Core.antt =====
-- packages/core: the domain logic, pure functions with the clock injected.
pub mod Types
pub mod StateMachine
pub mod Policy
pub mod OptOut
pub mod Scoring
pub mod Routing
pub mod Dedup
pub mod Slots
pub mod Qualification
pub mod Workflow
pub mod Templating
pub mod Normalize
pub mod Auth
