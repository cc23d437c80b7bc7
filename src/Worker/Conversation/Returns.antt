-- ===== src/Worker/Conversation/Returns.antt =====
-- Runs of apps/worker/src/processors/conversation.ts that end with a result.
use insurnace_automations.Base.{ℕ, String, Option, none, some, Text, ◌≡◌, if◌then◌else◌}
use insurnace_automations.Worker.Store.{Lead, Conversation, World}
use insurnace_automations.Worker.Conversation.Turn.{AgentTurn}
use insurnace_automations.Worker.Conversation.Prompt.{LlmRequest, request_for}
use insurnace_automations.Worker.Conversation.Reply.{ConversationResult}
use insurnace_automations.Worker.Conversation.Heard.{heard}
use insurnace_automations.Worker.Conversation.Concludes.{Concludes}

module _ (digest : Text → String) (local_hour : String → ℕ → ℕ) (now : ℕ) (lead : Lead) where
  -- Without a conversation, or in one that is paused, nothing happens. Else the two answers of the model
  -- to the request decide.
  abbrev pub Returned :
      (Text → Option AgentTurn)
      → (LlmRequest → Text × Text)
      → Option Conversation
      → World
      → ConversationResult
      → World
      → Type 0
  Returned validate texts none w r w' = (r ≡ ConversationResult.handoff) × (w' ≡ w)
  Returned validate texts (some c) w r w' =
      if c.ai_paused
      then (r ≡ ConversationResult.handoff) × (w' ≡ w)
      else let t = texts (request_for now lead.id c w.db) in
        Concludes digest local_hour now lead c w (heard validate t.0 t.1) r w'
