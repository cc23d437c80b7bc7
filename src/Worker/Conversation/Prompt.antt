-- ===== src/Worker/Conversation/Prompt.antt =====
-- apps/worker/src/processors/conversation.ts: what the language model is told.
use insurnace_automations.Base.{
  ℕ, String, ◌+++◌, Bool, true, false, not, ◌&&◌, Option, none, some, List, [], ◌∷◌, map, filter,
  find, take, Text, leb, str_eq, ◌==◌, if◌then◌else◌,
}
use mathlib.Core.List.{reverse}
use insurnace_automations.Core.Policy.{KnowledgeRef}
use insurnace_automations.Core.Qualification.{
  QualificationField, QualificationAnswers, next_question, roofing_hvac_qualification_schema,
}
use insurnace_automations.Worker.Store.{
  Conversation, Message, inbound, outbound, KnowledgeEntry, Db,
}

pub data Role : Type 0 where
  user assistant : Role

pub record ChatTurn : Type 0 where
  pub role : Role
  pub content : Text

-- `maxTokens` and `temperature` are the same in every request.
pub record LlmRequest : Type 0 where
  pub system : String
  pub messages : List ChatTurn

-- The last ten messages of the conversation, oldest first.
unfoldable pub window : ℕ → Db → List Message
window conversation_id d =
    reverse (take 10 (reverse (filter (λ m. m.conversation_id == conversation_id) d.messages)))

abbrev pub is_inbound : Message → Bool
is_inbound m = elim m.direction [ inbound ↦ true | outbound ↦ false ]

unfoldable pub last_inbound : List Message → Option Message
last_inbound ordered = find is_inbound (reverse ordered)

abbrev pub chat_turn : Message → ChatTurn
chat_turn m = record {
  role = elim m.direction [ inbound ↦ Role.user | outbound ↦ Role.assistant ];
  content = m.body;
}

-- `!r.validFrom || r.validFrom <= now`, and the same for its end
abbrev pub is_current : ℕ → KnowledgeEntry → Bool
is_current now k =
    elim k.valid_from [ none ↦ true | some t ↦ leb t now ]
    && elim k.valid_until [ none ↦ true | some t ↦ leb now t ]

unfoldable pub load_approved_knowledge : ℕ → Db → List KnowledgeRef
load_approved_knowledge now d =
    map (λ k. record { id = k.id; type = k.type })
      (filter (is_current now) (filter (λ k. k.approved) d.knowledge))

-- `getQualificationAnswers`, and no answers where there is no row
unfoldable pub get_qualification_answers : ℕ → Db → QualificationAnswers
get_qualification_answers lead_id d = elim (find (λ q. q.lead_id == lead_id) d.qualifications) [
  | none ↦ []
  | some row ↦ row.answers
]

-- `parts.filter(Boolean).join(sep)`, and `join` of all
unfoldable pub join : String → List String → String
join sep [] = ""
join sep (s ∷ []) = s
join sep (s ∷ t ∷ ts) = s +++ sep +++ join sep (t ∷ ts)

abbrev pub or_none : String → String
or_none s = if str_eq s "" then "(none)" else s

abbrev pub question_line : Option String → String
question_line none = ""
question_line (some q) = if str_eq q "" then "" else "The next question to work toward: " +++ q

unfoldable pub build_system_prompt : List KnowledgeRef → Option String → String
unfolding join
build_system_prompt knowledge next_q = join "\n" (
    filter (λ s. not (str_eq s ""))
      ("You are a lead-qualification assistant for a home-services company."
        ∷ "Answer ONLY from approved knowledge. If unsure, say a specialist will confirm."
        ∷ "Never invent pricing, discounts, guarantees, or availability."
        ∷ "Respond in JSON matching the AgentTurn schema. Keep replies under 320 characters."
        ∷ question_line next_q
        ∷ ("Approved knowledge entry ids available: "
            +++ or_none (join ", " (map (λ k. k.id) knowledge)))
        ∷ []))

abbrev pub question_of : Option QualificationField → Option String
question_of none = none
question_of (some f) = some f.question

-- What is asked on behalf of a lead: the prompt, and the chat of its conversation.
unfoldable pub request_for : ℕ → ℕ → Conversation → Db → LlmRequest
unfolding build_system_prompt load_approved_knowledge get_qualification_answers window
request_for now lead_id c d = record {
  system = build_system_prompt (load_approved_knowledge now d) (
      question_of
        (next_question roofing_hvac_qualification_schema (get_qualification_answers lead_id d)));
  messages = map chat_turn (window c.id d);
}
