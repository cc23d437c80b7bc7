-- ===== src/Worker/Conversation/Concludes.antt =====
-- What a run of apps/worker/src/processors/conversation.ts ends with after the model has answered.
use insurnace_automations.Base.{
  ℕ, String, Bool, true, false, Option, none, some, Text, ◌≡◌, refl, subst, Bool-cases, ◌⊎◌, inl,
  inr, if◌then◌else◌,
}
use insurnace_automations.Core.Types.{
  LeadState, engaged, qualifying, qualified, human_owned, state_eq, state_eq_iff,
}
use insurnace_automations.Core.StateMachine.{assert_transition}
use insurnace_automations.Core.Policy.{
  GateVerdict, GateRejectCode, Schedule, allowed, rejected, evaluate_policy,
}
use insurnace_automations.Core.Qualification.{
  merge_answers, is_qualification_complete, roofing_hvac_qualification_schema,
}
use insurnace_automations.Worker.Store.{
  Lead, Conversation, World, Outcome, emit_event, judged, fallback,
}
use insurnace_automations.Worker.Inbound.{move_unless}
use insurnace_automations.Worker.Outcomes.{OkWith, returns, bind-OkWith, if-OkWith}
use insurnace_automations.Worker.Conversation.Turn.{AgentTurn, Asked, asked}
use insurnace_automations.Worker.Conversation.Prompt.{
  window, last_inbound, get_qualification_answers,
}
use insurnace_automations.Worker.Conversation.{
  pause_for_human, advance, dispose, propose, take_turn, respond_to, opts_out, asks_for_human,
  reply_context, proposal, upsert_qualification,
}
use insurnace_automations.Worker.Conversation.Reply.{
  ConversationResult, transition, send_fallback, fallback_text, enqueue_reply, record_interaction,
}
use insurnace_automations.Worker.Conversation.Mail.{SameMail, reply_context-upsert}
use insurnace_automations.Worker.Conversation.Heard.{Holds}
use insurnace_automations.Worker.Conversation.Shipped.{
  Shipped, Level, enqueue_reply-Shipped, Shipped-Same,
}

-- The outcomes of a turn that is shipped.
abbrev pub Replies : AgentTurn → ConversationResult → Type 0
Replies turn r =
    (r ≡ ConversationResult.replied turn.proposed_reply)
    ⊎ (r ≡ ConversationResult.clarify turn.proposed_reply)
    ⊎ (r ≡ ConversationResult.qualified turn.proposed_reply)

pub weaken-OkWith :
    {A : Type 0} {P Q : A → World → Type 0} {o : Outcome A}
    → OkWith P o
    → ((r : A) (w : World) → P r w → Q r w)
    → OkWith Q o
weaken-OkWith (returns r w h) k = returns r w (k r w h)

transition-OkWith :
    {A : Type 0} (a : A) (id : ℕ) (from to : LeadState) (w w0 : World)
    → assert_transition from to ≡ none
    → SameMail w0 w
    → OkWith (λ r w'. (r ≡ a) × SameMail w0 w') (transition a id from to w)
unfolding transition move_unless
transition-OkWith a id from to w w0 may same =
    if-OkWith (state_eq from to) (λ e. returns _ _ (refl, same))
      (λ e. rw (may, move_unless) (returns _ _ (refl, same)))

module _ (digest : Text → String) (local_hour : String → ℕ → ℕ) (now : ℕ) (lead : Lead) where
  module _ (c : Conversation) where
    -- The fallback, addressed to no number.
    abbrev pub FellBack : World → World → Type 0
    FellBack w w' = Shipped digest c.id none fallback_text "uncertainty" w w'

    abbrev pub verdict_on : AgentTurn → World → GateVerdict
    verdict_on turn w = evaluate_policy local_hour (reply_context now lead w.db) (proposal turn)

    -- What a run ends with, by the turn that the model's answers give.
    pub data Concludes (w : World) : Option AgentTurn → ConversationResult → World → Type 0 where
      falls_back :
          (w' : World) → FellBack w w' → Concludes w none (ConversationResult.blocked none) w'
      opts :
          (turn : AgentTurn) (w' : World)
          → opts_out (last_inbound (window c.id w.db)) ≡ true
          → SameMail w w'
          → Concludes w (some turn) ConversationResult.opted_out w'
      hands_over :
          (turn : AgentTurn) (w' : World)
          → opts_out (last_inbound (window c.id w.db)) ≡ false
          → asks_for_human turn ≡ true
          → SameMail w w'
          → Concludes w (some turn) ConversationResult.handoff w'
      is_blocked :
          (turn : AgentTurn) (code : GateRejectCode) (why : String) (w' : World)
          → opts_out (last_inbound (window c.id w.db)) ≡ false
          → asks_for_human turn ≡ false
          → verdict_on turn w ≡ rejected code why
          → FellBack w w'
          → Concludes w (some turn) (ConversationResult.blocked (some code)) w'
      replies :
          (turn : AgentTurn) (schedule : Option Schedule) (r : ConversationResult) (w' : World)
          → opts_out (last_inbound (window c.id w.db)) ≡ false
          → asks_for_human turn ≡ false
          → verdict_on turn w ≡ allowed schedule
          → Replies turn r
          → Shipped digest c.id lead.phone_e164 turn.proposed_reply "ai_reply" w w'
          → Concludes w (some turn) r w'

module _ (digest : Text → String) (local_hour : String → ℕ → ℕ) (now : ℕ) (lead : Lead)
    (may_qualify : assert_transition lead.state qualified ≡ none)
    (may_hand_over : assert_transition lead.state human_owned ≡ none) where
  to_qualifying :
      state_eq lead.state engaged ≡ true → assert_transition lead.state qualifying ≡ none
  unfolding assert_transition
  to_qualifying e = rw ((state_eq_iff lead.state engaged).0 e) refl

  not_qualified :
      (turn : AgentTurn)
      → Replies turn (
          if turn.needs_clarification
          then ConversationResult.clarify turn.proposed_reply
          else ConversationResult.replied turn.proposed_reply)
  not_qualified turn = elim (Bool-cases turn.needs_clarification) [
    | inl e ↦ rw e (inr (inl refl))
    | inr e ↦ rw e (inl refl)
  ]

  advance-OkWith :
      (turn : AgentTurn) (complete : Bool) (w : World)
      → OkWith (λ r w'. Replies turn r × SameMail w w') (advance digest now lead turn complete w)
  unfolding advance
  advance-OkWith turn true w =
      bind-OkWith (transition-OkWith _ lead.id lead.state qualified w w may_qualify (refl, refl))
        (λ a w' h. returns _ _ (inr (inr h.0), h.1))
  advance-OkWith turn false w = elim (Bool-cases (state_eq lead.state engaged)) [
    | inl e ↦ rw e (
        weaken-OkWith
          (transition-OkWith _ lead.id lead.state qualifying w w (to_qualifying e) (refl, refl))
          (λ r w' h. (rw h.0 (not_qualified turn), h.1)))
    | inr e ↦ rw e (returns _ _ (not_qualified turn, (refl, refl)))
  ]

  pause-OkWith :
      (id : ℕ) (w : World)
      → OkWith
          (λ r w'. (r ≡ ConversationResult.handoff) × SameMail w w')
          (pause_for_human lead id w)
  unfolding pause_for_human
  pause-OkWith id w =
      bind-OkWith
        (transition-OkWith _ lead.id lead.state human_owned _ w may_hand_over (refl, refl))
        (λ a w' h. returns _ _ h)

  module _ (c : Conversation) where
    dispose-Concludes :
        (turn : AgentTurn) (complete : Bool) (v : GateVerdict) (w w1 : World)
        → Level digest w w1
        → opts_out (last_inbound (window c.id w.db)) ≡ false
        → asks_for_human turn ≡ false
        → verdict_on digest local_hour now lead c turn w ≡ v
        → OkWith
            (Concludes digest local_hour now lead c w (some turn))
            (dispose digest now lead c.id turn complete v w1)
    unfolding dispose send_fallback
    dispose-Concludes turn complete (rejected code why) w w1 same stays fine e = returns _ _ (
        is_blocked turn code why _ stays fine e (
          enqueue_reply-Shipped digest c.id none fallback_text "uncertainty" w
            (record w1 { db = emit_event lead.id "message.blocked" w1.db }) same))
    dispose-Concludes turn complete (allowed schedule) w w1 same stays fine e =
        let sent : World =
          enqueue_reply digest c.id lead.phone_e164 turn.proposed_reply "ai_reply" w1 in
        weaken-OkWith (advance-OkWith turn complete sent) (λ r w' h.
          replies turn schedule r w' stays fine e h.0 (
            Shipped-Same digest c.id lead.phone_e164 turn.proposed_reply "ai_reply" w sent w'
              (enqueue_reply-Shipped digest c.id lead.phone_e164 turn.proposed_reply "ai_reply" w w1
                same)
              h.1))

    take_turn-Concludes :
        (raw : Text) (turn : AgentTurn) (w : World)
        → OkWith
            (Concludes digest local_hour now lead c w (some turn))
            (take_turn digest local_hour now lead c.id (last_inbound (window c.id w.db)) raw turn w)
    unfolding take_turn propose
    take_turn-Concludes raw turn w =
        if-OkWith (opts_out (last_inbound (window c.id w.db)))
          (λ out. returns _ _ (opts turn _ out (refl, refl)))
          (λ stays.
            if-OkWith (asks_for_human turn)
              (λ asks.
                bind-OkWith (pause-OkWith c.id w)
                  (λ a w' h. returns _ _ (rw h.0 (hands_over turn _ stays asks h.1))))
              (λ fine.
                let merged =
                  merge_answers (get_qualification_answers lead.id w.db) turn.extracted_facts in
                let complete = is_qualification_complete roofing_hvac_qualification_schema merged in
                let w1 : World = upsert_qualification lead.id merged complete w in
                let verdict =
                  evaluate_policy local_hour (reply_context now lead w1.db) (proposal turn) in
                dispose-Concludes turn complete verdict w
                  (record_interaction lead.id c.id raw (judged verdict) w1) (refl, refl, refl) stays
                  fine (rw (reply_context-upsert now lead lead.id merged complete w) refl)))

    fallback-Concludes :
        (w w1 : World)
        → Level digest w w1
        → OkWith
            (Concludes digest local_hour now lead c w none)
            (send_fallback digest lead.id c.id none w1)
    unfolding send_fallback
    fallback-Concludes w w1 same = returns _ _ (
        falls_back _ (enqueue_reply-Shipped digest c.id none fallback_text "uncertainty" w w1 same))

    pub respond_to-Concludes :
        (turn : Option AgentTurn) (a : Asked) (w : World)
        → Holds turn a
        → OkWith
            (Concludes digest local_hour now lead c w turn)
            (respond_to digest local_hour now lead c a w)
    unfolding respond_to
    respond_to-Concludes turn (Asked.threw message) w h = absurd h
    respond_to-Concludes turn (asked none raw) w h =
        subst
          (λ t.
            OkWith (Concludes digest local_hour now lead c w t)
              (respond_to digest local_hour now lead c (asked none raw) w))
          h
          (fallback-Concludes w (record_interaction lead.id c.id raw fallback w) (refl, refl, refl))
    respond_to-Concludes turn (asked (some turn') raw) w h =
        subst
          (λ t.
            OkWith (Concludes digest local_hour now lead c w t)
              (respond_to digest local_hour now lead c (asked (some turn') raw) w))
          h (take_turn-Concludes raw turn' w)
