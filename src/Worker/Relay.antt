-- ===== src/Worker/Relay.antt =====
-- apps/worker/src/processors/relay.ts: the outbox relay. What the provider answers to a request, and
-- so the adapter behind `sms.send`, is the argument `send`.
pub mod Laws
use insurnace_automations.Base.{
  ℕ, suc, ◌+◌, String, ◌+++◌, Bool, true, false, Option, none, some, List, [], ◌∷◌, ◌++◌, find,
  update_where, ◌==◌, if◌then◌else◌,
}
use insurnace_automations.Base.Show.{show_ℕ}
use insurnace_automations.Worker.Store.{
  Conversation, Message, MessageStatus, Outbox, OutboxStatus, SendPayload, DeliveryEvent, Db, World,
  Outcome, ok, error, with_tenant, settle, emit_event,
}

-- SendResult of packages/adapters/messaging/src/types.ts
pub data SendResult : Type 0 where
  accepted : (provider_sid : String) → SendResult
  refused : (retryable : Bool) (code message : String) → SendResult

pub data RelayResult : Type 0 where
  sent : (provider_sid : String) → RelayResult
  already_dispatched : RelayResult
  failed : (error_code : String) → RelayResult

abbrev pub outbox_with : ℕ → Db → Option Outbox
outbox_with id d = find (λ o. o.id == id) d.outbox

-- `update messages set … where id = …` and the same for the outbox
abbrev pub set_message : ℕ → (Message → Message) → Db → Db
set_message id f d = record d { messages = update_where (λ m. m.id == id) f d.messages }

abbrev pub set_outbox : ℕ → OutboxStatus → ℕ → Db → Db
set_outbox id status attempts d = record d {
  outbox =
      update_where (λ o. o.id == id) (λ o. record o { status = status; attempts = attempts })
        d.outbox;
}

abbrev pub add_delivery : ℕ → MessageStatus → Db → Db
add_delivery message_id status d = record d {
  deliveries = d.deliveries ++ record { message_id = message_id; status = status } ∷ [];
}

-- `emitMessageEvent`: nothing where the message or its conversation is missing.
unfoldable pub emit_message_event : ℕ → String → Db → Db
emit_message_event message_id type d = elim (find (λ m. m.id == message_id) d.messages) [
  | none ↦ d
  | some m ↦ elim (find (λ c. c.id == m.conversation_id) d.conversations) [
    | none ↦ d
    | some c ↦ emit_event c.lead_id type d
  ]
]

-- The second transaction, which records the answer.
pub record_answer : ℕ → Outbox → SendResult → World → Outcome RelayResult
unfolding emit_message_event
record_answer id row (accepted sid) w = ok (sent sid) (record w {
  db = emit_message_event row.payload.message_id "message.sent" (
      add_delivery row.payload.message_id MessageStatus.sent (
        set_outbox id OutboxStatus.dispatched (row.attempts + 1) (
          set_message row.payload.message_id
            (λ m. record m { status = MessageStatus.sent; provider_sid = some sid }) w.db)));
})
record_answer id row (refused true code message) w =
    error ("retryable send failure: " +++ code +++ " " +++ message)
      (record w { db = set_outbox id OutboxStatus.failed (row.attempts + 1) w.db })
record_answer id row (refused false code message) w = ok (failed code) (record w {
  db = emit_message_event row.payload.message_id "message.failed" (
      add_delivery row.payload.message_id MessageStatus.failed (
        set_outbox id OutboxStatus.failed (row.attempts + 1) (
          set_message row.payload.message_id (λ m. record m { status = MessageStatus.failed })
            w.db)));
})

-- The request, outside of any transaction, and what follows it.
unfoldable pub send_row : (SendPayload → SendResult) → ℕ → Outbox → World → Outcome RelayResult
unfolding record_answer settle
send_row send id row w =
    with_tenant (record_answer id row (send row.payload))
      (record w { sends = w.sends ++ row.payload ∷ [] })

abbrev pub is_dispatched : OutboxStatus → Bool
is_dispatched OutboxStatus.dispatched = true
is_dispatched _ = false

pub relay_row : (SendPayload → SendResult) → ℕ → Option Outbox → World → Outcome RelayResult
unfolding send_row
relay_row send id none w = error ("outbox " +++ show_ℕ id +++ " not found") w
relay_row send id (some row) w =
    if is_dispatched row.status then ok already_dispatched w else send_row send id row w

unfoldable pub process_messaging_out : (SendPayload → SendResult) → ℕ → World → Outcome RelayResult
unfolding relay_row
process_messaging_out send id w = relay_row send id (outbox_with id w.db) w
