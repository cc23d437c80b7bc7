-- ===== src/Worker/Conversation/Handoff.antt =====
-- Conversations that belong to a person: apps/worker/src/processors/conversation.ts after a request for
-- a person, and after apps/worker/src/processors/takeover.ts.
use insurnace_automations.Base.{
  ℕ, String, true, false, Option, none, some, List, [], ◌∷◌, Text, find, filter, All, ◌==◌,
  update_where, ◌≡◌, refl, arith, Bool-cases, Option-cases, inl, inr, find-update_where,
  find-update_where_other,
}
use insurnace_automations.Core.Types.{human_owned, state_eq, opted_out}
use insurnace_automations.Core.StateMachine.{assert_transition}
use insurnace_automations.Worker.Store.{
  Lead, Conversation, World, ok, bind, settle, lead_with, conversation_of, redirected, audit,
  emit_event, set_state,
}
use insurnace_automations.Worker.Inbound.{move_unless}
use insurnace_automations.Worker.Takeover.{done, takeover_lead}
use insurnace_automations.Worker.Takeover.Laws.{owned, taken, taken-lead, take_run}
use insurnace_automations.Worker.Robust.{Holds, HoldsAt}
use insurnace_automations.Worker.Robust.Held.{Held, Held-Robust}
use insurnace_automations.Worker.Robust.Steps.{Steps, Steps-HoldsAt}
use insurnace_automations.Worker.Outcomes.{world_of}
use insurnace_automations.Worker.Conversation.Turn.{AgentTurn, Answer, asked}
use insurnace_automations.Worker.Conversation.Prompt.{LlmRequest, window, last_inbound}
use insurnace_automations.Worker.Conversation.{
  pause_for_human, asks_for_human, opts_out, asked_for, take_turn, respond_to, converse_in,
  converse_for, process_conversation,
}
use insurnace_automations.Worker.Conversation.Reply.{record_interaction, handoff, transition}
use insurnace_automations.Worker.Conversation.Mail.{SameMail}

-- Whatever the model, the clock and the digest, a run hands the lead over and changes nothing.
abbrev pub IsSilent : ℕ → World → Type 0
IsSilent id w =
    (digest : Text → String) (local_hour : String → ℕ → ℕ) (now : ℕ)
    (validate : Text → Option AgentTurn) (llm : LlmRequest → ℕ → Answer)
    → process_conversation digest local_hour now validate llm id w ≡ ok handoff w

-- The AI may not speak in the conversation.
abbrev Paused : Option Conversation → Type 0
Paused none = Unit {0}
Paused (some c) = c.ai_paused ≡ true

all-Paused :
    (id : ℕ) (cs : List Conversation)
    → All (λ c. c.ai_paused ≡ true) (filter (λ c. c.lead_id == id) cs)
    → Paused (find (λ c. c.lead_id == id) cs)
all-Paused id [] h = tt
all-Paused id (c ∷ cs) h = elim (Bool-cases (c.lead_id == id)) [
  | inl e ↦ rw e (rw e at h).0
  | inr e ↦ rw e (all-Paused id cs (rw e at h))
]

Paused-IsSilent :
    (id : ℕ) (lead : Lead) (w : World)
    → lead_with id w.db ≡ some lead
    → Paused (conversation_of id w.db)
    → IsSilent id w
unfolding process_conversation converse_for converse_in settle
Paused-IsSilent id lead w found h digest local_hour now validate llm =
    rw (found, converse_for)
      (elim (Option-cases (conversation_of id w.db)) [
        | inl e ↦ rw (e, converse_in) refl
        | inr (c, e) ↦
            let paused : c.ai_paused ≡ true = rw e at h in rw (e, converse_in) (simp paused)
      ])

Held-IsSilent : (id : ℕ) (w : World) → HoldsAt (Held id) w → IsSilent id w
Held-IsSilent id w (l, c, found, there, paused) = Paused-IsSilent id l w found (rw there paused)

-- Once a person has taken over a lead that has a conversation, from a state in which the state machine
-- allows it and that is neither opted out nor a person's already, the engine is silent: after any sequence
-- of messages handled, runs of the engine, first touches and compositions, for this lead or others, a run
-- on the lead, with any model, hands it over and changes nothing.
pub takeover_silences :
    (lead : Lead) (c : Conversation) (w w2 : World)
    → lead_with lead.id w.db ≡ some lead
    → conversation_of lead.id w.db ≡ some c
    → state_eq lead.state opted_out ≡ false
    → state_eq lead.state human_owned ≡ false
    → assert_transition lead.state human_owned ≡ none
    → Steps (world_of (takeover_lead lead.id w)) w2
    → (takeover_lead lead.id w ≡ ok done (world_of (takeover_lead lead.id w))) × IsSilent lead.id w2
takeover_silences lead c w w2 found there not_out not_owned may steps =
    let run = take_run lead w not_out not_owned may found in
    let held : Holds (Held lead.id) (taken lead w.db) = (
      owned lead,
      record c { ai_paused = true },
      taken-lead lead w.db found,
      find-update_where (λ x. x.lead_id == lead.id) (λ x. record x { ai_paused = true }) (λ x. refl)
          w.db.conversations c there,
      refl,
    ) in
    let start : HoldsAt (Held lead.id) (world_of (takeover_lead lead.id w)) = rw run held in
    (
      rw run refl,
      Held-IsSilent lead.id w2 (Steps-HoldsAt (Held lead.id) (Held-Robust lead.id) steps start),
    )

module _ (digest : Text → String) (local_hour : String → ℕ → ℕ) (now : ℕ)
    (validate : Text → Option AgentTurn) (llm : LlmRequest → ℕ → Answer) (lead : Lead)
    (c : Conversation) (turn : AgentTurn) (raw : Text) where
  -- The world after the model has asked for a person on the lead's behalf.
  abbrev handed : World → World
  handed w = record_interaction lead.id c.id raw (redirected "handoff") (record w {
    db = audit "human.handoff_suggested" lead.id (
        emit_event lead.id "human.takeover_started" (
          set_state lead.id human_owned (record w.db {
            conversations =
                update_where (λ c'. c'.id == c.id) (λ c'. record c' { ai_paused = true })
                  w.db.conversations;
          })));
  })

  handed-run :
      (w : World)
      → lead_with lead.id w.db ≡ some lead
      → conversation_of lead.id w.db ≡ some c
      → c.ai_paused ≡ false
      → asked_for digest local_hour now validate llm lead c w ≡ asked (some turn) raw
      → opts_out (last_inbound (window c.id w.db)) ≡ false
      → asks_for_human turn ≡ true
      → state_eq lead.state human_owned ≡ false
      → assert_transition lead.state human_owned ≡ none
      → process_conversation digest local_hour now validate llm lead.id w ≡ ok handoff (handed w)
  unfolding process_conversation converse_for converse_in settle respond_to take_turn
      pause_for_human transition bind
  handed-run w found there runs said stays asks not_owned may =
      rw (found, converse_for)
        (rw (there, converse_in) (simp (runs, said, stays, asks, not_owned, may, move_unless)))

  -- When a valid turn of the model reports that the lead wants a person or is dissatisfied, and the
  -- lead's last message is no opt-out, the run hands the lead over, in every state from which the state
  -- machine allows it: the lead is human-owned, no message is written, the conversation is paused, and
  -- every later run of the engine, with any model, changes nothing.
  pub human_request_hands_over :
      (w : World)
      → lead_with lead.id w.db ≡ some lead
      → conversation_of lead.id w.db ≡ some c
      → c.ai_paused ≡ false
      → asked_for digest local_hour now validate llm lead c w ≡ asked (some turn) raw
      → opts_out (last_inbound (window c.id w.db)) ≡ false
      → asks_for_human turn ≡ true
      → state_eq lead.state human_owned ≡ false
      → assert_transition lead.state human_owned ≡ none
      → (w' : World) × (process_conversation digest local_hour now validate llm lead.id w
          ≡ ok handoff w')
        × (lead_with lead.id w'.db ≡ some (record lead { state = human_owned }))
        × SameMail w w'
        × IsSilent lead.id w'
  human_request_hands_over w found there runs said stays asks not_owned may =
      let owned =
        find-update_where (λ l. l.id == lead.id) (λ l. record l { state = human_owned }) (λ l. refl)
          w.db.leads lead found in
      let paused =
        find-update_where_other (λ c'. c'.lead_id == lead.id) (λ c'. c'.id == c.id)
          (λ c'. record c' { ai_paused = true }) (λ c'. refl) w.db.conversations c there in
      (
        handed w,
        handed-run w found there runs said stays asks not_owned may,
        owned,
        (refl, refl),
        Paused-IsSilent lead.id _ (handed w) owned (rw paused (ground arith)),
      )
