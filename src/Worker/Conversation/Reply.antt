-- ===== src/Worker/Conversation/Reply.antt =====
-- apps/worker/src/processors/conversation.ts: what a run ends with, and the reply that it writes.
use insurnace_automations.Base.{
  ℕ, suc, String, ◌+++◌, Option, none, some, [], ◌∷◌, ◌++◌, Text, codes, if◌then◌else◌,
}
use insurnace_automations.Base.Show.{show_ℕ}
use insurnace_automations.Core.Types.{LeadState, sms, state_eq}
use insurnace_automations.Core.StateMachine.{assert_transition}
use insurnace_automations.Core.Policy.{GateRejectCode}
use insurnace_automations.Worker.Store.{
  messaging_out_job, Message, MessageStatus, Direction, Outbox, OutboxStatus, Disposal, World,
  Outcome, ok, enqueue, audit, is_duplicate,
}
use insurnace_automations.Worker.Inbound.{move_unless}

-- The outcome with the reply; the code of a blocked one is none for "parse_failure".
pub data ConversationResult : Type 0 where
  replied qualified clarify : (reply : Text) → ConversationResult
  handoff opted_out : ConversationResult
  blocked : (code : Option GateRejectCode) → ConversationResult

-- `transition`
unfoldable pub transition : {A : Type 0} → A → ℕ → LeadState → LeadState → World → Outcome A
unfolding move_unless
transition a lead_id from to w =
    if state_eq from to then ok a w else move_unless (assert_transition from to) a lead_id to w

abbrev pub record_interaction : ℕ → ℕ → Text → Disposal → World → World
record_interaction lead_id conversation_id raw verdict w = record w {
  db = record w.db {
    interactions =
        w.db.interactions
        ++ record {
          lead_id = lead_id;
          conversation_id = conversation_id;
          raw_response = raw;
          gate_verdict = verdict;
        }
          ∷ [];
  };
}

-- The two rows that a reply is written as.
abbrev pub reply_message : ℕ → Text → String → String → ℕ → Message
reply_message conversation_id body template key id = record {
  id = id;
  conversation_id = conversation_id;
  direction = Direction.outbound;
  channel = sms;
  body = body;
  template_key = some template;
  dedupe_key = some key;
  provider_sid = none;
  status = MessageStatus.queued;
  scheduled_for = none;
}

abbrev pub reply_outbox : Option String → Text → String → ℕ → Outbox
reply_outbox to body key message_id = record {
  id = suc message_id;
  aggregate_id = message_id;
  intent_type = "sms.send";
  payload = record { message_id = message_id; to = to; body = body; dedupe_key = key };
  status = OutboxStatus.pending;
  attempts = 0;
}

unfoldable pub fallback_text : Text
fallback_text = codes "Thanks! A specialist will confirm that for you and follow up shortly."

module _ (digest : Text → String) where
  abbrev pub reply_key : String → Text → String
  reply_key template body = template +++ ":" +++ digest body

  -- A reply that is written, with its job.
  abbrev pub with_reply : ℕ → Option String → Text → String → World → World
  with_reply conversation_id to body template w =
      let id = w.db.next_id in
      let key = reply_key template body in
      enqueue "messaging-out" ("relay:" +++ show_ℕ (suc id)) (messaging_out_job (suc id)) 0
        (record w {
          db = record w.db {
            next_id = suc (suc id);
            messages = w.db.messages ++ reply_message conversation_id body template key id ∷ [];
            outbox = w.db.outbox ++ reply_outbox to body key id ∷ [];
          };
        })

  unfoldable pub enqueue_reply : ℕ → Option String → Text → String → World → World
  unfolding is_duplicate
  enqueue_reply conversation_id to body template w =
      if is_duplicate conversation_id (some (reply_key template body)) w.db.messages
      then w
      else with_reply conversation_id to body template w

  -- `sendFallback`: the number that it is sent to is null.
  unfoldable pub send_fallback : ℕ → ℕ → Option GateRejectCode → World → Outcome ConversationResult
  unfolding enqueue_reply fallback_text
  send_fallback lead_id conversation_id code w =
      let w' : World = enqueue_reply conversation_id none fallback_text "uncertainty" w in
      ok (blocked code) (record w' { db = audit "conversation.fallback" lead_id w'.db })
