-- ===== src/Worker/Conversation/Heard.antt =====
-- The two attempts at a turn in apps/worker/src/processors/conversation.ts.
use insurnace_automations.Base.{
  ℕ, Option, none, some, [], Text, ◌≡◌, refl, sym, ◌∙◌, Option-cases, inl, inr,
}
use insurnace_automations.Worker.Conversation.Turn.{
  AgentTurn, Answer, answered, Asked, asked, ask, parse_agent_turn,
}
use insurnace_automations.Worker.Conversation.Prompt.{LlmRequest}

-- The model answers the two calls of a run with these texts, and no call fails.
abbrev pub Says : (LlmRequest → ℕ → Answer) → (LlmRequest → Text × Text) → Type 0
Says llm texts =
    (r : LlmRequest) → (llm r 0 ≡ answered (texts r).0) × (llm r 1 ≡ answered (texts r).1)

-- The turn that two answers give: that of the first, or else that of the second.
abbrev pub heard : (Text → Option AgentTurn) → Text → Text → Option AgentTurn
heard validate t0 t1 = elim (parse_agent_turn validate t0) [
  | some turn ↦ some turn
  | none ↦ parse_agent_turn validate t1
]

heard_first :
    (validate : Text → Option AgentTurn) (t0 t1 : Text) (turn : AgentTurn)
    → parse_agent_turn validate t0 ≡ some turn
    → heard validate t0 t1 ≡ some turn
heard_first validate t0 t1 turn e = rw (e, heard) refl

heard_second :
    (validate : Text → Option AgentTurn) (t0 t1 : Text)
    → parse_agent_turn validate t0 ≡ none
    → heard validate t0 t1 ≡ parse_agent_turn validate t1
heard_second validate t0 t1 e = rw (e, heard) refl

-- The loop ends with the turn of its answers.
abbrev pub Holds : Option AgentTurn → Asked → Type 0
Holds turn (asked turn' raw) = turn' ≡ turn
Holds turn (Asked.threw message) = ⊥

pub ask-Holds :
    (validate : Text → Option AgentTurn) (llm : ℕ → Answer) (t0 t1 : Text)
    → llm 0 ≡ answered t0
    → llm 1 ≡ answered t1
    → Holds (heard validate t0 t1) (ask validate llm 2 0 [])
unfolding ask
ask-Holds validate llm t0 t1 e0 e1 = elim (Option-cases (parse_agent_turn validate t0)) [
  | inr (turn, good) ↦ rw (e0, ask) (rw (good, ask) (sym (heard_first validate t0 t1 turn good)))
  | inl bad ↦
      let second = heard_second validate t0 t1 bad in
      rw (e0, ask)
        (rw (bad, ask)
          (rw (e1, ask)
            (elim (Option-cases (parse_agent_turn validate t1)) [
              | inr (turn, good) ↦ rw (good, ask) (sym (second ∙ good))
              | inl still ↦ rw (still, ask) (sym (second ∙ still))
            ])))
]
