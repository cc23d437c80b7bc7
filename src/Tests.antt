-- ===== src/Tests.antt =====
-- Runs of the definitions on concrete inputs, and each theorem at an input where its hypotheses hold.
mod Policy
mod OptOut
mod States
mod Scoring
mod Routing
mod Slots
mod Dedup
mod Qualification
mod Data
mod Messages
mod Relay
mod Inbound
mod Takeover
mod Runs
mod FirstTouch
mod Booking
mod Conversation
mod Assignment
mod Crm
mod Ingest
mod Gateway
mod Access
