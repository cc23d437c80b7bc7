-- ===== src/Worker/Conversation/Turn.antt =====
-- packages/adapters/llm/src/types.ts: the turn that the language model proposes, and its validation.
-- `validate` stands for JSON.parse and the check of the zod schema.
use insurnace_automations.Base.{
  ℕ, zero, suc, String, Bool, Option, none, some, List, [], ◌∷◌, Text, codes, trim, to_lower_char,
  get_or, ◌==◌, if◌then◌else◌,
}
use mathlib.Core.List.{reverse}
use insurnace_automations.Core.Qualification.{QualificationAnswers}

pub data Intent : Type 0 where
  question_pricing question_faq wants_appointment wants_human dissatisfied : Intent
  possible_opt_out off_topic objection : Intent

-- `confidence` is validated and never read.
pub record AgentTurn : Type 0 where
  pub extracted_facts : QualificationAnswers
  pub detected_intents : List Intent
  pub proposed_reply : Text
  pub knowledge_refs : List String
  pub needs_clarification : Bool
  pub internal_summary : Text

-- The text after a prefix, whose units `f` reads.
unfoldable pub after : (ℕ → ℕ) → Text → Text → Option Text
after f [] s = some s
after f (p ∷ ps) [] = none
after f (p ∷ ps) (c ∷ s) = let rest = after f ps s in if f c == p then rest else none

-- `.replace(/^```(?:json)?/i, "")`
unfoldable pub drop_open : Text → Text
unfolding after
drop_open s = elim (after (λ c. c) (codes "```") s) [
  | none ↦ s
  | some rest ↦ get_or (after to_lower_char (codes "json") rest) rest
]

-- `.replace(/```$/i, "")`
unfoldable pub drop_close : Text → Text
unfolding after
drop_close s = elim (after (λ c. c) (codes "```") (reverse s)) [
  | none ↦ s
  | some rest ↦ reverse rest
]

unfoldable pub clean : Text → Text
unfolding drop_open drop_close
clean raw = trim (drop_close (drop_open (trim raw)))

-- What a call of the model gives: its text, or an error.
pub data Answer : Type 0 where
  answered : Text → Answer
  threw : (message : String) → Answer

-- The loop's end: the turn, if there is one, and the last raw text.
pub data Asked : Type 0 where
  asked : Option AgentTurn → Text → Asked
  threw : (message : String) → Asked

module _ (validate : Text → Option AgentTurn) where
  -- `parseAgentTurn`, without the text of the error
  unfoldable pub parse_agent_turn : Text → Option AgentTurn
  unfolding clean
  parse_agent_turn raw = validate (clean raw)

  -- The attempts that are left, the number of the next one, and the last raw text.
  unfoldable pub ask : (ℕ → Answer) → ℕ → ℕ → Text → Asked
  unfolding parse_agent_turn
  ask llm zero attempt raw = asked none raw
  ask llm (suc left) attempt raw = elim (llm attempt) [
    | Answer.threw message ↦ Asked.threw message
    | answered text ↦ elim (parse_agent_turn text) [
      | some turn ↦ asked (some turn) text
      | none ↦ ask llm left (suc attempt) text
    ]
  ]
