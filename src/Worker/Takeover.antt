-- ===== src/Worker/Takeover.antt =====
-- apps/worker/src/processors/takeover.ts: a person takes a lead over, hands it back, and retries a
-- message that failed.
pub mod Laws
use insurnace_automations.Base.{
  ℕ, String, Bool, true, false, ◌&&◌, Option, none, some, List, [], ◌∷◌, find, update_where, get_or,
  ◌==◌, if◌then◌else◌,
}
use insurnace_automations.Core.Types.{LeadState, opted_out, human_owned, engaged, state_eq}
use insurnace_automations.Core.StateMachine.{assert_transition}
use insurnace_automations.Worker.Store.{
  Lead, Conversation, Message, MessageStatus, Outbox, OutboxStatus, WorkflowRun, RunStatus, Db,
  World, Outcome, ok, error, settle, with_tenant, emit_event, audit, lead_with,
}
use insurnace_automations.Worker.Relay.{set_message}

-- `{ ok, reason }`: the reason of a refusal.
pub data Reply : Type 0 where
  done : Reply
  refused : (reason : String) → Reply

abbrev pub pause_ai : Bool → ℕ → Db → Db
pause_ai paused lead_id d = record d {
  conversations =
      update_where (λ c. c.lead_id == lead_id) (λ c. record c { ai_paused = paused })
        d.conversations;
}

abbrev pub is_running : RunStatus → Bool
is_running RunStatus.running = true
is_running _ = false

abbrev pub stop_runs : ℕ → Db → Db
stop_runs lead_id d = record d {
  runs =
      update_where (λ r. (r.lead_id == lead_id) && is_running r.status)
        (λ r. record r { status = RunStatus.stopped; stop_reason = some "human_takeover" }) d.runs;
}

-- `set({ state: "human_owned", customFields: { …, preTakeoverState } })`
abbrev pub own : ℕ → LeadState → Db → Db
own lead_id before d = record d {
  leads =
      update_where (λ l. l.id == lead_id)
        (λ l. record l { state = human_owned; pre_takeover_state = some before }) d.leads;
}

-- The move to `human_owned`, by the error that the state machine throws, if it throws.
unfoldable pub own_unless : Option String → Lead → World → Outcome Reply
own_unless (some message) lead w = error message w
own_unless none lead w = ok done (record w { db = own lead.id lead.state w.db })

unfoldable pub logged : String → String → ℕ → Outcome Reply → Outcome Reply
logged event action lead_id (error e w) = error e w
logged event action lead_id (ok r w) =
    ok r (record w { db = audit action lead_id (emit_event lead_id event w.db) })

unfoldable pub take : Lead → World → Outcome Reply
unfolding own_unless logged
take lead w =
    if state_eq lead.state opted_out
    then ok (refused "lead opted out") w
    else let w1 : World = record w { db = stop_runs lead.id (pause_ai true lead.id w.db) } in
      logged "human.takeover_started" "human.takeover" lead.id (
        if state_eq lead.state human_owned
        then ok done w1
        else own_unless (assert_transition lead.state human_owned) lead w1)

unfoldable pub take_found : Option Lead → World → Outcome Reply
unfolding take
take_found none w = ok (refused "lead not found") w
take_found (some lead) w = take lead w

unfoldable pub takeover_lead : ℕ → World → Outcome Reply
unfolding take_found settle
takeover_lead lead_id = with_tenant (λ w. take_found (lead_with lead_id w.db) w)

abbrev pub give_state : ℕ → LeadState → Db → Db
give_state lead_id state d = record d {
  leads = update_where (λ l. l.id == lead_id) (λ l. record l { state = state }) d.leads;
}

unfoldable pub return_unless : Option String → ℕ → LeadState → World → Outcome Reply
return_unless (some message) lead_id before w = error message w
return_unless none lead_id before w = ok done (record w { db = give_state lead_id before w.db })

unfoldable pub hand_back : Lead → World → Outcome Reply
unfolding return_unless logged
hand_back lead w =
    if state_eq lead.state human_owned
    then (let before = get_or lead.pre_takeover_state engaged in
        logged "human.takeover_ended" "human.resume" lead.id (
          return_unless (assert_transition human_owned before) lead.id before
            (record w { db = pause_ai false lead.id w.db })))
    else ok (refused "lead is not human-owned") w

unfoldable pub hand_back_found : Option Lead → World → Outcome Reply
unfolding hand_back
hand_back_found none w = ok (refused "lead not found") w
hand_back_found (some lead) w = hand_back lead w

unfoldable pub resume_lead : ℕ → World → Outcome Reply
unfolding hand_back_found settle
resume_lead lead_id = with_tenant (λ w. hand_back_found (lead_with lead_id w.db) w)

abbrev pub is_failed : MessageStatus → Bool
is_failed MessageStatus.failed = true
is_failed _ = false

abbrev pub outbox_failed : OutboxStatus → Bool
outbox_failed OutboxStatus.failed = true
outbox_failed _ = false

-- `retryFailedMessage`: whether it was done, with the outbox row that was opened again.
pub data Retried : Type 0 where
  not_failed : Retried
  retried : (outbox_id : Option ℕ) → Retried

abbrev pub failed_row : ℕ → Outbox → Bool
failed_row message_id o = (o.aggregate_id == message_id) && outbox_failed o.status

abbrev pub id_of : Option Outbox → Option ℕ
id_of none = none
id_of (some o) = some o.id

unfoldable pub retry : Message → Db → Retried × Db
retry m d =
    if is_failed m.status
    then (
      retried (id_of (find (failed_row m.id) d.outbox)),
      audit "message.retried" m.id (
          set_message m.id (λ n. record n { status = MessageStatus.queued })
            (record d {
              outbox =
                  update_where (failed_row m.id) (λ o. record o { status = OutboxStatus.pending })
                    d.outbox;
            })),
    )
    else (not_failed, d)

unfoldable pub retry_failed_message : ℕ → Db → Retried × Db
unfolding retry
retry_failed_message message_id d = elim (find (λ m. m.id == message_id) d.messages) [
  | none ↦ (not_failed, d)
  | some m ↦ retry m d
]
