-- ===== src/Worker/Conversation.antt =====
-- apps/worker/src/processors/conversation.ts: the answer to a message of a lead. The language model
-- proposes a turn, and the policy gate and the code decide. `llm request attempt` is the model's answer,
-- `digest` the first sixteen hexadecimal digits of a SHA-256, `local_hour` as in the policy gate, and
-- `now` the clock. The look-ups of settings, consent and suppression are those of the message path.
pub mod Reply
pub mod Turn
pub mod Prompt
pub mod Mail
pub mod Laws
pub mod Handoff
pub mod Heard
pub mod Shipped
pub mod Concludes
pub mod Returns
pub mod Lost
pub mod Fences
use insurnace_automations.Base.{
  ℕ, suc, String, ◌+++◌, Bool, true, false, ◌&&◌, ◌||◌, Option, none, some, List, [], ◌∷◌, ◌++◌,
  any, update_where, Text, codes, ◌==◌, if◌then◌else◌,
}
use insurnace_automations.Base.Show.{show_ℕ}
use insurnace_automations.Core.Types.{LeadState, engaged, qualifying, human_owned, sms, state_eq}
use insurnace_automations.Core.StateMachine.{assert_transition}
use insurnace_automations.Core.Policy.{
  PolicyContext, ProposedAction, GateRejectCode, GateVerdict, allowed, rejected, evaluate_policy,
}
use insurnace_automations.Core.OptOut.{detect_opt_out}
use insurnace_automations.Core.Qualification.{
  QualificationAnswers, is_qualification_complete, merge_answers, roofing_hvac_qualification_schema,
}
use insurnace_automations.Worker.Store.{
  crm_sync_job, routing_job, Lead, Conversation, Message, MessageStatus, Direction, Outbox,
  OutboxStatus, QualificationRow, Disposal, fallback, redirected, judged, Db, World, Outcome, ok,
  error, bind, settle, with_tenant, enqueue, emit_event, audit, lead_with, conversation_of,
  is_duplicate,
}
use insurnace_automations.Worker.Messaging.{Settings, load_settings, current_consent, is_suppressed}
use insurnace_automations.Worker.Inbound.{move_unless}
use Turn.{Intent, wants_human, dissatisfied, AgentTurn, Answer, Asked, asked, threw, ask}
use Prompt.{
  LlmRequest, window, last_inbound, load_approved_knowledge, get_qualification_answers, request_for,
}
use Reply.{
  ConversationResult, blocked, clarify, handoff, opted_out, qualified, record_interaction, replied,
  transition, reply_message, reply_outbox, fallback_text, reply_key, with_reply, enqueue_reply,
  send_fallback,
}

-- `pauseForHuman`
unfoldable pub pause_for_human : Lead → ℕ → World → Outcome ConversationResult
unfolding transition bind
pause_for_human lead conversation_id w =
    bind
      (transition handoff lead.id lead.state human_owned (record w {
        db = record w.db {
          conversations =
              update_where (λ c. c.id == conversation_id) (λ c. record c { ai_paused = true })
                w.db.conversations;
        };
      }))
      (λ r w'. ok r (record w' {
        db =
            audit "human.handoff_suggested" lead.id
              (emit_event lead.id "human.takeover_started" w'.db);
      }))

-- `upsertQualification`: the lead has one row at most.
abbrev pub qualification_row : ℕ → QualificationAnswers → Bool → QualificationRow
qualification_row lead_id answers complete = record {
  lead_id = lead_id;
  schema_key = roofing_hvac_qualification_schema.key;
  answers = answers;
  complete = complete;
}

unfoldable pub upsert_row :
    ℕ → QualificationAnswers → Bool → List QualificationRow → List QualificationRow
unfolding roofing_hvac_qualification_schema
upsert_row lead_id answers complete [] = qualification_row lead_id answers complete ∷ []
upsert_row lead_id answers complete (q ∷ qs) =
    let rest = upsert_row lead_id answers complete qs in
    if q.lead_id == lead_id
    then record q { answers = answers; complete = complete } ∷ qs
    else q ∷ rest

abbrev pub upsert_qualification : ℕ → QualificationAnswers → Bool → World → World
upsert_qualification lead_id answers complete w = record w {
  db = record w.db { qualifications = upsert_row lead_id answers complete w.db.qualifications };
}

abbrev pub is_wants_human : Intent → Bool
is_wants_human wants_human = true
is_wants_human dissatisfied = true
is_wants_human _ = false

abbrev pub asks_for_human : AgentTurn → Bool
asks_for_human turn = any is_wants_human turn.detected_intents

abbrev pub opts_out : Option Message → Bool
opts_out none = false
opts_out (some m) = (detect_opt_out m.body).is_opt_out

-- The context that the gate is given.
unfoldable pub reply_context : ℕ → Lead → Db → PolicyContext
unfolding load_settings current_consent is_suppressed load_approved_knowledge
reply_context now lead d =
    let settings : Settings = load_settings d in
    record {
      channel = sms;
      consent = record { channel = sms; status = current_consent lead.id sms d };
      is_suppressed = is_suppressed lead.phone_e164 d;
      quiet_hours = record {
        start_hour = settings.quiet_hours_start;
        end_hour = settings.quiet_hours_end;
        timezone = settings.timezone;
      };
      now = now;
      follow_ups_sent_in_window = 0;
      follow_up_cap = settings.follow_up_cap;
      delivery_lockout = false;
      approved_knowledge = load_approved_knowledge now d;
    }

abbrev pub proposal : AgentTurn → ProposedAction
proposal turn = record {
  action = "send_reply";
  reply_text = some turn.proposed_reply;
  knowledge_refs = some turn.knowledge_refs;
}

module _ (digest : Text → String) where
  abbrev pub set_qualified : ℕ → ℕ → World → World
  set_qualified now lead_id w = record w {
    db = audit "lead.qualified" lead_id (
        emit_event lead_id "lead.qualified" (record w.db {
          leads =
              update_where (λ l. l.id == lead_id) (λ l. record l { qualified_at = some now })
                w.db.leads;
        }));
  }

  -- What follows a reply that is shipped.
  unfoldable pub advance : ℕ → Lead → AgentTurn → Bool → World → Outcome ConversationResult
  unfolding transition bind
  advance now lead turn complete w =
      if complete
      then bind
          (transition (qualified turn.proposed_reply) lead.id lead.state LeadState.qualified w)
          (λ r w'. ok r (
            enqueue "crm-sync" ("crm:" +++ show_ℕ lead.id) (crm_sync_job lead.id) 0 (
              enqueue "routing" ("assign:" +++ show_ℕ lead.id) (routing_job lead.id) 0
                (set_qualified now lead.id w'))))
      else let result =
          if turn.needs_clarification
          then clarify turn.proposed_reply
          else replied turn.proposed_reply in
        if state_eq lead.state engaged
        then transition result lead.id lead.state qualifying w
        else ok result w

  -- What follows the gate's verdict.
  unfoldable pub dispose :
      ℕ → Lead → ℕ → AgentTurn → Bool → GateVerdict → World → Outcome ConversationResult
  unfolding send_fallback enqueue_reply advance
  dispose now lead conversation_id turn complete (rejected code why) w =
      send_fallback digest lead.id conversation_id (some code)
        (record w { db = emit_event lead.id "message.blocked" w.db })
  dispose now lead conversation_id turn complete (allowed schedule) w =
      advance now lead turn complete
        (enqueue_reply digest conversation_id lead.phone_e164 turn.proposed_reply "ai_reply" w)

  module _ (local_hour : String → ℕ → ℕ) (now : ℕ) where
    -- The facts of a turn merged into the answers, and the gate.
    unfoldable pub propose : Lead → ℕ → Text → AgentTurn → World → Outcome ConversationResult
    unfolding dispose upsert_row
    propose lead conversation_id raw turn w =
        let merged = merge_answers (get_qualification_answers lead.id w.db) turn.extracted_facts in
        let complete = is_qualification_complete roofing_hvac_qualification_schema merged in
        let w1 : World = upsert_qualification lead.id merged complete w in
        let verdict = evaluate_policy local_hour (reply_context now lead w1.db) (proposal turn) in
        dispose now lead conversation_id turn complete verdict
          (record_interaction lead.id conversation_id raw (judged verdict) w1)

    -- What is done with a valid turn; `last` is the last message of the lead in the window.
    unfoldable pub take_turn :
        Lead → ℕ → Option Message → Text → AgentTurn → World → Outcome ConversationResult
    unfolding propose pause_for_human bind
    take_turn lead conversation_id last raw turn w =
        if opts_out last
        then ok opted_out (record_interaction lead.id conversation_id raw (redirected "opt_out") w)
        else if asks_for_human turn
        then bind (pause_for_human lead conversation_id w) (λ r w'.
          ok r (record_interaction lead.id conversation_id raw (redirected "handoff") w'))
        else propose lead conversation_id raw turn w

    unfoldable pub respond_to : Lead → Conversation → Asked → World → Outcome ConversationResult
    unfolding take_turn send_fallback
    respond_to lead c (Asked.threw message) w = error message w
    respond_to lead c (asked none raw) w =
        send_fallback digest lead.id c.id none (record_interaction lead.id c.id raw fallback w)
    respond_to lead c (asked (some turn) raw) w =
        take_turn lead c.id (last_inbound (window c.id w.db)) raw turn w

    module _ (validate : Text → Option AgentTurn) (llm : LlmRequest → ℕ → Answer) where
      abbrev pub asked_for : Lead → Conversation → World → Asked
      asked_for lead c w = ask validate (llm (request_for now lead.id c w.db)) 2 0 []

      unfoldable pub converse_in : Lead → Option Conversation → World → Outcome ConversationResult
      unfolding respond_to ask request_for
      converse_in lead none w = ok handoff w
      converse_in lead (some c) w =
          if c.ai_paused then ok handoff w else respond_to lead c (asked_for lead c w) w

      unfoldable pub converse_for : ℕ → Option Lead → World → Outcome ConversationResult
      unfolding converse_in
      converse_for lead_id none w = error ("lead " +++ show_ℕ lead_id +++ " not found") w
      converse_for lead_id (some lead) w = converse_in lead (conversation_of lead_id w.db) w

      unfoldable pub process_conversation : ℕ → World → Outcome ConversationResult
      unfolding converse_for settle
      process_conversation lead_id =
          with_tenant (λ w. converse_for lead_id (lead_with lead_id w.db) w)
