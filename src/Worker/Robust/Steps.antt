-- ===== src/Worker/Robust/Steps.antt =====
-- Sequences of steps of apps/worker: the handler of messages, the conversation engine, the first touch and
-- the composer of messages, in any order and for any leads.
use insurnace_automations.Base.{ℕ, String, Option, Text}
use insurnace_automations.Worker.Store.{World}
use insurnace_automations.Worker.Messaging.{ComposeArgs, compose_and_enqueue}
use insurnace_automations.Worker.Inbound.{process_inbound}
use insurnace_automations.Worker.FirstTouch.{process_first_touch}
use insurnace_automations.Worker.Conversation.Turn.{AgentTurn, Answer}
use insurnace_automations.Worker.Conversation.Prompt.{LlmRequest}
use insurnace_automations.Worker.Conversation.{process_conversation}
use insurnace_automations.Worker.Outcomes.{world_of}
use insurnace_automations.Worker.Robust.{Tables, Robust, HoldsAt}
use insurnace_automations.Worker.Robust.Message.{process_inbound-Holds}
use insurnace_automations.Worker.Robust.Compose.{compose-Holds, first_touch-Holds}
use insurnace_automations.Worker.Robust.Engine.{engine-Holds}

pub data Step : World → World → Type 0 where
  on_message :
      (w : World) (now : ℕ) (body : Text) (from sid : String)
      → Step w (world_of (process_inbound now body from sid w))
  on_engine :
      (w : World) (digest : Text → String) (local_hour : String → ℕ → ℕ) (now : ℕ)
      (validate : Text → Option AgentTurn) (llm : LlmRequest → ℕ → Answer) (lead_id : ℕ)
      → Step w (world_of (process_conversation digest local_hour now validate llm lead_id w))
  on_first_touch :
      (w : World) (local_hour : String → ℕ → ℕ) (now lead_id : ℕ)
      → Step w (world_of (process_first_touch local_hour now lead_id w))
  on_compose :
      (w : World) (digest : Text → String) (local_hour : String → ℕ → ℕ) (now : ℕ)
      (args : ComposeArgs)
      → Step w (world_of (compose_and_enqueue digest local_hour now args w))

pub data Steps : World → World → Type 0 where
  at_once : (w : World) → Steps w w
  after : (w w1 w2 : World) → Step w w1 → Steps w1 w2 → Steps w w2

module _ (P : Tables) (robust : Robust P) where
  Step-HoldsAt : {w w' : World} → Step w w' → HoldsAt P w → HoldsAt P w'
  Step-HoldsAt (on_message w now body from sid) h =
      process_inbound-Holds P robust now body from sid w h
  Step-HoldsAt (on_engine w digest local_hour now validate llm lead_id) h =
      engine-Holds P robust digest local_hour now validate llm lead_id w h
  Step-HoldsAt (on_first_touch w local_hour now lead_id) h =
      first_touch-Holds P robust local_hour now lead_id w h
  Step-HoldsAt (on_compose w digest local_hour now args) h =
      compose-Holds P robust local_hour now digest args w h

  pub Steps-HoldsAt : {w w' : World} → Steps w w' → HoldsAt P w → HoldsAt P w'
  Steps-HoldsAt (at_once w) h = h
  Steps-HoldsAt (after w w1 w2 s ss) h = Steps-HoldsAt ss (Step-HoldsAt s h)
