-- ===== src/Worker/Conversation/Lost.antt =====
-- Replies of apps/worker/src/processors/conversation.ts that are rolled back.
use insurnace_automations.Base.{ℕ, suc, String, ◌+++◌, true, false, Option, some, Text, ◌≡◌}
use insurnace_automations.Base.Show.{show_ℕ}
use insurnace_automations.Core.Types.{qualified, state_eq}
use insurnace_automations.Core.StateMachine.{assert_transition}
use insurnace_automations.Core.Policy.{Schedule, allowed, evaluate_policy}
use insurnace_automations.Core.Qualification.{
  merge_answers, is_qualification_complete, roofing_hvac_qualification_schema,
}
use insurnace_automations.Worker.Store.{
  messaging_out_job, Lead, Conversation, World, error, bind, settle, enqueue, lead_with,
  conversation_of, is_duplicate,
}
use insurnace_automations.Worker.Inbound.{move_unless}
use insurnace_automations.Worker.Conversation.Turn.{AgentTurn, Answer, asked}
use insurnace_automations.Worker.Conversation.Prompt.{
  LlmRequest, window, last_inbound, get_qualification_answers,
}
use insurnace_automations.Worker.Conversation.{
  asks_for_human, opts_out, reply_context, proposal, advance, dispose, propose, take_turn,
  respond_to, asked_for, converse_in, converse_for, process_conversation,
}
use insurnace_automations.Worker.Conversation.Reply.{reply_key, enqueue_reply}
use insurnace_automations.Worker.Conversation.Reply.{transition}
use insurnace_automations.Worker.Conversation.Mail.{reply_context-upsert}

module _ (digest : Text → String) (local_hour : String → ℕ → ℕ) (now : ℕ)
    (validate : Text → Option AgentTurn) (llm : LlmRequest → ℕ → Answer) (lead : Lead)
    (c : Conversation) (turn : AgentTurn) (raw : Text) (w : World)
    (found : lead_with lead.id w.db ≡ some lead) (there : conversation_of lead.id w.db ≡ some c)
    (runs : c.ai_paused ≡ false)
    (said : asked_for digest local_hour now validate llm lead c w ≡ asked (some turn) raw)
    (stays : opts_out (last_inbound (window c.id w.db)) ≡ false)
    (fine : asks_for_human turn ≡ false) where
  -- The run comes to the gate.
  proposed :
      process_conversation digest local_hour now validate llm lead.id w
      ≡ settle w.db (propose digest local_hour now lead c.id raw turn w)
  unfolding process_conversation converse_for converse_in respond_to take_turn
  proposed = rw (found, converse_for) (rw (there, converse_in) (simp (runs, said, stays, fine)))

  -- When a lead's qualification is complete with the facts of a turn whose reply the gate allows, and
  -- the state machine has no step from the lead's state to qualified, as after a booking, the run throws
  -- after the reply is enqueued: the database stays as it was, so neither the reply nor the facts are
  -- kept, while the job for the reply's outbox row stays in the queue.
  pub complete_reply_lost :
      (schedule : Option Schedule) (message : String)
      → is_qualification_complete roofing_hvac_qualification_schema
          (merge_answers (get_qualification_answers lead.id w.db) turn.extracted_facts)
        ≡ true
      → evaluate_policy local_hour (reply_context now lead w.db) (proposal turn) ≡ allowed schedule
      → is_duplicate c.id (some (reply_key digest "ai_reply" turn.proposed_reply)) w.db.messages
        ≡ false
      → state_eq lead.state qualified ≡ false
      → assert_transition lead.state qualified ≡ some message
      → process_conversation digest local_hour now validate llm lead.id w
        ≡ error message (
            enqueue "messaging-out"
              ("relay:" +++ show_ℕ (suc w.db.next_id))
              (messaging_out_job (suc w.db.next_id))
              0
              w)
  unfolding propose dispose enqueue_reply advance transition bind settle
  complete_reply_lost schedule message complete passes fresh not_yet throws =
      rw proposed
        (simp (reply_context-upsert, complete, passes, fresh, not_yet, throws, move_unless))
