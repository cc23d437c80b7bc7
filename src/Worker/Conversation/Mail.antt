-- ===== src/Worker/Conversation/Mail.antt =====
-- The messages that the parts of `processConversation` of apps/worker/src/processors/conversation.ts
-- write.
use insurnace_automations.Base.{
  ℕ, String, Bool, true, false, Option, none, some, [], ◌∷◌, ◌++◌, Text, ◌≡◌, refl, ◌∙◌, ◌⊎◌, inl,
  inr, Bool-cases,
}
use insurnace_automations.Core.Types.{LeadState, state_eq}
use insurnace_automations.Core.StateMachine.{assert_transition}
use insurnace_automations.Core.Qualification.{QualificationAnswers}
use insurnace_automations.Worker.Store.{Lead, World, is_duplicate}
use insurnace_automations.Worker.Messaging.{current_consent, is_suppressed, load_settings}
use insurnace_automations.Worker.Outcomes.{Ends, bind-Ends, move_unless-Ends}
use insurnace_automations.Worker.Conversation.Turn.{AgentTurn}
use insurnace_automations.Worker.Conversation.Prompt.{load_approved_knowledge}
use insurnace_automations.Worker.Conversation.{
  pause_for_human, reply_context, upsert_qualification, advance,
}
use insurnace_automations.Worker.Conversation.Reply.{
  reply_message, reply_outbox, reply_key, enqueue_reply,
}
use insurnace_automations.Worker.Conversation.Reply.{transition}

-- No message is written.
abbrev pub SameMail : World → World → Type 0
SameMail w w' = (w'.db.outbox ≡ w.db.outbox) × (w'.db.messages ≡ w.db.messages)

-- One message is written, with its outbox row.
abbrev pub OneMail : ℕ → Option String → Text → String → String → World → World → Type 0
OneMail conversation_id to body template key w w' =
    (w'.db.outbox ≡ w.db.outbox ++ reply_outbox to body key w.db.next_id ∷ [])
    × (w'.db.messages
        ≡ w.db.messages ++ reply_message conversation_id body template key w.db.next_id ∷ [])

pub transition-Same :
    {A : Type 0} (a : A) (id : ℕ) (from to : LeadState) (w w' : World)
    → SameMail w w'
    → Ends (SameMail w) (transition a id from to w')
unfolding transition
transition-Same a id from to w w' h = elim (Bool-cases (state_eq from to)) [
  | inl same ↦ rw same h
  | inr moves ↦ rw moves (move_unless-Ends (SameMail w) (assert_transition from to) a id to w' h)
]

pub pause-Same :
    (lead : Lead) (conversation_id : ℕ) (w : World)
    → Ends (SameMail w) (pause_for_human lead conversation_id w)
unfolding pause_for_human
pause-Same lead conversation_id w =
    bind-Ends (SameMail w) (SameMail w) _ _
      (transition-Same _ lead.id lead.state LeadState.human_owned w _ (refl, refl)) (λ a w' h. h)

-- The gate's context does not depend on the qualification row.
pub is_suppressed-upsert :
    (contact : Option String) (id : ℕ) (answers : QualificationAnswers) (complete : Bool)
    (w : World)
    → is_suppressed contact (upsert_qualification id answers complete w).db
      ≡ is_suppressed contact w.db
unfolding is_suppressed
is_suppressed-upsert none id answers complete w = refl
is_suppressed-upsert (some phone) id answers complete w = refl

pub reply_context-upsert :
    (now : ℕ) (lead : Lead) (id : ℕ) (answers : QualificationAnswers) (complete : Bool) (w : World)
    → reply_context now lead (upsert_qualification id answers complete w).db
      ≡ reply_context now lead w.db
unfolding reply_context current_consent load_settings load_approved_knowledge
reply_context-upsert now lead id answers complete w =
    rw (is_suppressed-upsert lead.phone_e164 id answers complete w) refl

module _ (digest : Text → String) where
  -- One message, or none where the conversation has its key.
  abbrev pub MayMail : ℕ → Option String → Text → String → World → World → Type 0
  MayMail conversation_id to body template w w' =
      SameMail w w' ⊎ OneMail conversation_id to body template (reply_key digest template body) w w'

  pub enqueue_reply-MayMail :
      (conversation_id : ℕ) (to : Option String) (body : Text) (template : String) (w : World)
      → MayMail conversation_id to body template w
          (enqueue_reply digest conversation_id to body template w)
  unfolding enqueue_reply
  enqueue_reply-MayMail conversation_id to body template w =
      elim (Bool-cases
        (is_duplicate conversation_id (some (reply_key digest template body)) w.db.messages)) [
          | inl old ↦ rw old (inl (refl, refl))
          | inr fresh ↦ rw fresh (inr (refl, refl))
        ]

  pub MayMail-Same :
      (conversation_id : ℕ) (to : Option String) (body : Text) (template : String) (w w1 w2 : World)
      → MayMail conversation_id to body template w w1
      → SameMail w1 w2
      → MayMail conversation_id to body template w w2
  MayMail-Same conversation_id to body template w w1 w2 (inl m) (o, l) = inl (o ∙ m.0, l ∙ m.1)
  MayMail-Same conversation_id to body template w w1 w2 (inr m) (o, l) = inr (o ∙ m.0, l ∙ m.1)

  pub advance-Same :
      (now : ℕ) (lead : Lead) (turn : AgentTurn) (complete : Bool) (w : World)
      → Ends (SameMail w) (advance digest now lead turn complete w)
  unfolding advance
  advance-Same now lead turn true w =
      bind-Ends (SameMail w) (SameMail w) _ _
        (transition-Same _ lead.id lead.state LeadState.qualified w w (refl, refl)) (λ a w' h. h)
  advance-Same now lead turn false w = elim (Bool-cases (state_eq lead.state LeadState.engaged)) [
    | inl e ↦ rw e (transition-Same _ lead.id lead.state LeadState.qualifying w w (refl, refl))
    | inr e ↦ rw e (refl, refl)
  ]
