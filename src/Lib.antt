-- ===== src/Lib.antt =====
-- A model of the speed-to-lead automation: the decision rules of packages/core, the processors of
-- apps/worker and the webhook gateway of apps/api, with proofs of what they promise.
--
-- The program. A web form posts to the gateway, which checks the signature, stores the payload and
-- enqueues it once per idempotency key; the ingest processor normalizes it, decides on duplicates, records
-- consent, scores the lead and starts the first touch. Follow-up messages take one path
-- (apps/worker/src/messaging.ts): a template is rendered, the policy gate decides, and a message row, an
-- outbox row and a job are written in one transaction; the first touch repeats these steps. The relay
-- takes the outbox row to the provider. Inbound messages pass the opt-out detector before anything else;
-- the handler of an opt-out revokes consent, suppresses the number, cancels what waits and moves the lead
-- to opted_out. Other messages go to the conversation engine: the language model proposes a turn, the
-- policy gate and the code dispose, and a lead whose answers are complete is qualified, assigned to a rep
-- and mirrored to the CRM, whose closed deals come back as outcomes. Follow-up workflows run step by step
-- and stop when the lead's state says so; a person can take a lead over; a booking holds its slot before
-- it calls the calendar.
--
-- Files.
--   Base        the shared names: Boolean tests, lists with JavaScript's methods, texts as UTF-16 code
--               units, integers, printing of numbers
--   Regex       the regular expressions that the code uses, as a matcher and as a relation
--   Core.Types          packages/core/src/types.ts
--   Core.StateMachine   packages/core/src/state-machine.ts: canTransition, assertTransition
--   Core.Policy         packages/core/src/policy-gate.ts: evaluatePolicy and its patterns
--   Core.OptOut         packages/core/src/optout.ts: detectOptOut
--   Core.Scoring        packages/core/src/scoring.ts and verticals/roofing-hvac.ts: scoreLead
--   Core.Routing        packages/core/src/routing.ts: routeLead
--   Core.Dedup          packages/core/src/dedup.ts: resolveDuplicate
--   Core.Slots          packages/core/src/slots.ts: computeSlots
--   Core.Qualification  packages/core/src/qualification.ts: nextQuestion, mergeAnswers
--   Core.Workflow       packages/core/src/workflow.ts: shouldStop, stepAt, the default sequences
--   Core.Templating     packages/core/src/templating.ts: renderTemplate
--   Core.Normalize      packages/core/src/normalize.ts: names, e-mail addresses, phones, postal codes
--   Worker.Store        packages/db/src/schema.ts, client.ts and apps/worker/src/events.ts: the rows of one
--                       tenant, transactions, events and audit entries; the jobs of
--                       packages/queue/src/index.ts with what they carry
--   Worker.Messaging    apps/worker/src/messaging.ts: composeAndEnqueue
--   Worker.Relay        apps/worker/src/processors/relay.ts: processMessagingOut
--   Worker.Inbound      apps/worker/src/processors/messaging-events.ts: processInbound, handleOptOut,
--                       processStatus
--   Worker.Takeover     apps/worker/src/processors/takeover.ts
--   Worker.Runs         apps/worker/src/processors/workflow.ts: startRun, advanceRun, executeAction
--   Worker.FirstTouch   apps/worker/src/processors/first-touch.ts: processFirstTouch
--   Worker.Booking      apps/worker/src/processors/booking.ts: processBooking, releaseExpiredHolds
--   Worker.Mapping      apps/worker/src/mapping.ts: mapRawToNormalized
--   Worker.Ingest       apps/worker/src/processors/ingest.ts: processIngest; Ingest.Match the candidates for
--                       duplicates, Ingest.Facts consent and scoring facts
--   Worker.Assignment   apps/worker/src/processors/assignment.ts: processAssignment
--   Worker.Escalation   apps/worker/src/processors/escalation.ts: processEscalation, acknowledgeLead
--   Worker.Conversation apps/worker/src/processors/conversation.ts: processConversation; Conversation.Prompt
--                       the request to the model, Conversation.Turn packages/adapters/llm/src/types.ts:
--                       parseAgentTurn, Conversation.Reply the reply that is written
--   Worker.CrmSync      apps/worker/src/processors/crm-sync.ts: processCrmSync
--   Worker.CrmInbound   apps/worker/src/processors/crm-inbound.ts: processCrmInbound
--   Worker.Outcomes     what an outcome leaves behind: invariants of results and errors that compose
--   Worker.Robust       properties of the tables that the handler of messages, the engine, the first touch
--                       and the composer all keep, and sequences of their steps in any order
--   Api.Signing         apps/api/src/signing.ts: sign, verifySignature
--   Api.Gateway         apps/api/src/routes/ingest.ts: the signed gateway
--   Core.Auth           packages/core/src/auth.ts: passwords and roles
--   Api.Sessions        apps/api/src/auth/service.ts: login, resolveSession, logout
--   Api.Access          apps/api/src/auth/context.ts and devAuthAllowed of packages/config/src/index.ts
--   Api.Actions         apps/api/src/routes/lead-actions.ts: takeover, resume, acknowledge, retry
--   Tests               concrete runs of the definitions and of the theorems
--
-- State. A processor is a function on a World: the rows of one tenant, the jobs enqueued and the requests
-- that the message provider and the CRM have received. withTenant rolls the rows back when its body
-- throws, and nothing else: jobs and requests stay. Identifiers are numbers from one counter. A function
-- that can throw returns an Outcome, a result or an error with the world it leaves. The lead actions of
-- the API choose among the worlds of several tenants by the session's tenant.
--
-- Numbers. Identifiers, hours, delays and instants (in milliseconds) are natural numbers, score points
-- integers; the code's numbers are doubles, exact in the range that the program uses. Numbers with a
-- fraction, such as a fractional amount of a deal or timestamp of a request, are outside the model.
--
-- Fuel. The loop over a slot window has one round per millisecond of the window at most, and the cursor
-- moves by at least one in each, so that many rounds are enough; the substitution of template variables
-- has one round per character. The other loops go down their list. What repeats a regular expression
-- consumes something in each round. The conversation engine asks the model twice at most.
--
-- Parameters. The hour that Intl.DateTimeFormat prints (local_hour), digests (digest, hmac, hash, scrypt),
-- the answers of the message provider (send), the calendar (answer), the CRM (crm) and the language model
-- (llm), JSON.parse with the check of the schema (validate), what libphonenumber makes of a number
-- (parse_phone), what Number() makes of a text (number), the string of given code units (string_of) and
-- the clock (now, clock). Where a theorem on ingest needs it, a valid phone number is not the empty text.
--
-- Not modelled. The cookies of a session, the routes of the API other than the gateway and the lead
-- actions, analytics (averages, square roots and divisions of doubles); the adapters, the connection to
-- the queue, configuration and logging; the web application. Of the tables, columns that no modelled code
-- reads and row-level security. Payloads of events and audit entries are left out. An enqueued job is a
-- row of the state with its payload, less tenant and correlation id, also where BullMQ would drop it
-- because of its id. Letters outside ASCII are left as they are by toLowerCase, but for U+0130 and U+212A,
-- whose lower case is or has an ASCII letter.
pub mod Base
pub mod Regex
pub mod Core
pub mod Worker
pub mod Api
pub mod Tests
