-- ===== src/Worker/Inbound.antt =====
-- apps/worker/src/processors/messaging-events.ts: what happens on a message from a lead and on a
-- delivery status from the provider. The clock is the argument `now`.
pub mod Laws
pub mod OptOut
pub mod Status
use insurnace_automations.Base.{
  ℕ, suc, ◌+◌, String, ◌+++◌, Bool, true, false, ◌&&◌, ◌||◌, Option, none, some, List, [], ◌∷◌,
  ◌++◌, Text, find, any, filter, map, update_where, get_or, str_eq, ◌==◌, ltb, if◌then◌else◌,
}
use insurnace_automations.Base.Show.{show_ℕ}
use insurnace_automations.Core.Types.{
  LeadState, contacted, new, engaged, Channel, sms, channel_eq, ConsentStatus, state_eq,
}
use insurnace_automations.Core.StateMachine.{assert_transition}
use insurnace_automations.Core.OptOut.{OptOutMatch, detect_opt_out}
use insurnace_automations.Worker.Store.{
  conversation_job, Lead, Conversation, Message, MessageStatus, queued, received, sent, delivered,
  undelivered, failed, Direction, Outbox, OutboxStatus, ConsentRecord, SuppressionEntry,
  DeliveryEvent, Db, World, Outcome, ok, error, with_tenant, settle, bind, enqueue, emit_event,
  audit, lead_with, set_state, conversation_of, ensure_conversation, is_duplicate,
}

pub data InboundResult : Type 0 where
  opted_out : (lead_id : ℕ) → InboundResult
  recorded : (lead_id : ℕ) → InboundResult
  help : (lead_id : ℕ) → InboundResult
  no_lead : InboundResult

-- The lead of the number that was created last; of several created at once the first.
pub latest : List Lead → Option Lead
latest [] = none
latest (l ∷ ls) = elim (latest ls) [
  | none ↦ some l
  | some m ↦ if ltb l.created_at m.created_at then some m else some l
]

abbrev pub phone_is : String → Lead → Bool
phone_is from lead = elim lead.phone_e164 [ none ↦ false | some p ↦ str_eq p from ]

unfoldable pub lead_of_phone : String → Db → Option Lead
unfolding latest
lead_of_phone from d = latest (filter (phone_is from) d.leads)

-- `providerSid ? \`in:${providerSid}\` : null`
abbrev pub inbound_key : String → Option String
inbound_key sid = if str_eq sid "" then none else some ("in:" +++ sid)

-- The insertion of the message, which a key that is taken makes void.
unfoldable pub record_inbound : ℕ → Text → String → Db → Db
unfolding is_duplicate
record_inbound conversation_id body sid d =
    if is_duplicate conversation_id (inbound_key sid) d.messages then d else record d {
      next_id = suc d.next_id;
      messages =
          d.messages
          ++ record {
            id = d.next_id;
            conversation_id = conversation_id;
            direction = Direction.inbound;
            channel = sms;
            body = body;
            template_key = none;
            dedupe_key = inbound_key sid;
            provider_sid = some sid;
            status = received;
            scheduled_for = none;
          }
            ∷ [];
    }

abbrev pub set_first_reply : ℕ → Lead → Db → Db
set_first_reply now lead d = elim lead.first_reply_at [
  | some t ↦ d
  | none ↦ record d {
    leads =
        update_where (λ l. l.id == lead.id) (λ l. record l { first_reply_at = some now }) d.leads;
  }
]

-- `safeTransition`, by the message of the error that the state machine throws, if it throws.
unfoldable pub move_unless : {A : Type 0} → Option String → A → ℕ → LeadState → World → Outcome A
move_unless (some message) a lead_id to w = error message w
move_unless none a lead_id to w = ok a (record w { db = set_state lead_id to w.db })

unfoldable pub safe_transition : {A : Type 0} → A → ℕ → LeadState → LeadState → World → Outcome A
unfolding move_unless
safe_transition a lead_id from to w = move_unless (assert_transition from to) a lead_id to w

abbrev pub is_pending : OutboxStatus → Bool
is_pending OutboxStatus.pending = true
is_pending _ = false

abbrev pub is_queued : MessageStatus → Bool
is_queued queued = true
is_queued _ = false

-- One round of the loop over the queued messages.
abbrev pub void_message : ℕ → Db → Db
void_message id d = record d {
  outbox =
      update_where (λ o. (o.aggregate_id == id) && is_pending o.status)
        (λ o. record o { status = OutboxStatus.failed }) d.outbox;
  messages = update_where (λ m. m.id == id) (λ m. record m { status = failed }) d.messages;
}

unfoldable pub void_all : List Message → Db → Db
void_all [] d = d
void_all (m ∷ ms) d = void_all ms (void_message m.id d)

abbrev pub pending_in : ℕ → Db → List Message
pending_in conversation_id d =
    filter (λ m. (m.conversation_id == conversation_id) && is_queued m.status) d.messages

unfoldable pub cancel_pending : Option Conversation → Db → Db
unfolding void_all
cancel_pending none d = d
cancel_pending (some c) d = void_all (pending_in c.id d) d

abbrev pub revoke_consent : ℕ → Db → Db
revoke_consent lead_id d = record d {
  consents =
      d.consents
      ++ record { lead_id = lead_id; channel = sms; status = ConsentStatus.revoked } ∷ [];
}

unfoldable pub suppress : String → Db → Db
suppress phone d =
    if any (λ s. channel_eq s.channel sms && str_eq s.value phone) d.suppressions
    then d
    else record d { suppressions = d.suppressions ++ record { channel = sms; value = phone } ∷ [] }

unfoldable pub handle_opt_out : Lead → String → World → Outcome InboundResult
unfolding suppress cancel_pending safe_transition bind
handle_opt_out lead phone w =
    let d = suppress phone (revoke_consent lead.id w.db) in
    bind
      (safe_transition (opted_out lead.id) lead.id lead.state LeadState.opted_out
        (record w { db = cancel_pending (conversation_of lead.id d) d }))
      (λ r w'. ok r (record w' {
        db = audit "lead.opted_out" lead.id (emit_event lead.id "lead.opted_out" w'.db);
      }))

-- What the handler does with a reply that is neither an opt-out nor a request for help.
unfoldable pub hand_off : ℕ → Lead → String → World → Outcome InboundResult
unfolding safe_transition bind
hand_off now lead sid w =
    let job = "conv:" +++ show_ℕ lead.id +++ ":" +++ (if str_eq sid "" then show_ℕ now else sid) in
    if state_eq lead.state contacted || state_eq lead.state new
    then bind (safe_transition (recorded lead.id) lead.id lead.state engaged w)
        (λ r w'. ok r (enqueue "conversation" job (conversation_job lead.id) 0 w'))
    else ok (recorded lead.id) (enqueue "conversation" job (conversation_job lead.id) 0 w)

-- The database once the message is recorded, before its content is looked at.
unfoldable pub take_in : ℕ → Lead → Text → String → Db → Db
unfolding ensure_conversation record_inbound
take_in now lead body sid d =
    let (c, d1) = ensure_conversation lead.id d in
    set_first_reply now lead
      (emit_event lead.id "message.received" (record_inbound c.id body sid d1))

unfoldable pub respond : ℕ → Lead → String → String → OptOutMatch → World → Outcome InboundResult
unfolding handle_opt_out hand_off
respond now lead from sid match w =
    if match.is_opt_out
    then handle_opt_out lead from w
    else if match.is_help
    then ok (help lead.id) (record w { db = emit_event lead.id "message.help_requested" w.db })
    else hand_off now lead sid w

unfoldable pub process_for :
    ℕ → Option Lead → Text → String → String → World → Outcome InboundResult
unfolding respond
process_for now none body from sid w = ok no_lead w
process_for now (some lead) body from sid w =
    respond now lead from sid (detect_opt_out body)
      (record w { db = take_in now lead body sid w.db })

unfoldable pub process_inbound : ℕ → Text → String → String → World → Outcome InboundResult
unfolding process_for settle
process_inbound now body from sid =
    with_tenant (λ w. process_for now (lead_of_phone from w.db) body from sid w)

-- STATUS_RANK and `isStatusNewer` of packages/adapters/messaging/src/types.ts; a comparison with a
-- status that has no rank is false.
unfoldable pub status_rank : MessageStatus → Option ℕ
status_rank queued = some 0
status_rank sent = some 1
status_rank delivered = some 3
status_rank undelivered = some 2
status_rank failed = some 2
status_rank received = none

unfoldable pub is_status_newer : MessageStatus → MessageStatus → Bool
unfolding status_rank
is_status_newer incoming current = elim (status_rank incoming) [
  | none ↦ false
  | some i ↦ elim (status_rank current) [ none ↦ false | some c ↦ ltb c i ]
]

-- The status that a string of the provider's names, if the program knows it.
abbrev pub parse_status : String → Option MessageStatus
parse_status s =
    if str_eq s "queued"
    then some queued
    else if str_eq s "sent"
    then some sent
    else if str_eq s "delivered"
    then some delivered
    else if str_eq s "undelivered"
    then some undelivered
    else if str_eq s "failed"
    then some failed
    else if str_eq s "received"
    then some received
    else none

abbrev pub sid_is : String → Message → Bool
sid_is sid m = elim m.provider_sid [ none ↦ false | some s ↦ str_eq s sid ]

unfoldable pub set_status : Message → MessageStatus → Db → Db
set_status m status d = record d {
  messages = update_where (λ n. n.id == m.id) (λ n. record n { status = status }) d.messages;
  deliveries = d.deliveries ++ record { message_id = m.id; status = status } ∷ [];
}

-- `processStatus`, on the database; it cannot fail.
unfoldable pub process_status : String → String → Db → Db
unfolding is_status_newer set_status
process_status sid status d = elim (find (sid_is sid) d.messages) [
  | none ↦ d
  | some m ↦ elim (parse_status status) [
    | none ↦ d
    | some s ↦ if is_status_newer s m.status then set_status m s d else d
  ]
]
