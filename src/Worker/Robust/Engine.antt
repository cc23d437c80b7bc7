-- ===== src/Worker/Robust/Engine.antt =====
-- Runs of apps/worker/src/processors/conversation.ts.
use insurnace_automations.Base.{
  ℕ, String, Bool, true, false, Option, none, some, Text, ◌≡◌, refl, Bool-cases, inl, inr, ◌==◌,
}
use insurnace_automations.Core.Types.{LeadState, state_eq, engaged}
use insurnace_automations.Core.StateMachine.{assert_transition}
use insurnace_automations.Core.Policy.{GateVerdict, allowed, rejected, evaluate_policy}
use insurnace_automations.Core.Policy.Laws.{allowed_iff}
use insurnace_automations.Core.Qualification.{
  merge_answers, is_qualification_complete, roofing_hvac_qualification_schema,
}
use insurnace_automations.Worker.Store.{
  Lead, Conversation, World, lead_with, conversation_of, is_duplicate, emit_event, judged, fallback,
}
use insurnace_automations.Worker.Messaging.{is_suppressed}
use insurnace_automations.Worker.Outcomes.{Ends, bind-Ends, if-Ends, world_of}
use insurnace_automations.Worker.Conversation.Turn.{AgentTurn, Answer, Asked, asked}
use insurnace_automations.Worker.Conversation.Prompt.{
  LlmRequest, window, last_inbound, get_qualification_answers,
}
use insurnace_automations.Worker.Conversation.{
  pause_for_human, advance, dispose, propose, take_turn, respond_to, asked_for, converse_in,
  converse_for, process_conversation, opts_out, asks_for_human, reply_context, proposal,
  upsert_qualification,
}
use insurnace_automations.Worker.Conversation.Reply.{
  transition, send_fallback, fallback_text, enqueue_reply, reply_key, reply_outbox,
  record_interaction,
}
use insurnace_automations.Worker.Robust.{
  Tables, Robust, Clear, unsuppressed-Clear, HoldsAt, settle-Holds, move-Holds,
}

abbrev is_allowed : GateVerdict → Bool
is_allowed (allowed schedule) = true
is_allowed (rejected code why) = false

unmoved :
    (to : Option String) (w w' : World)
    → w'.db.suppressions ≡ w.db.suppressions
    → is_suppressed to w.db ≡ false
    → is_suppressed to w'.db ≡ false
unfolding is_suppressed
unmoved none w w' e h = h
unmoved (some contact) w w' e h = rw e h

module _ (P : Tables) (robust : Robust P) where
  transition-Holds :
      {A : Type 0} (a : A) (id : ℕ) (from to : LeadState) (w : World)
      → HoldsAt P w
      → Ends (HoldsAt P) (transition a id from to w)
  unfolding transition
  transition-Holds a id from to w h =
      if-Ends (HoldsAt P) (state_eq from to) _ _ (λ e. h)
        (λ e. move-Holds P robust (assert_transition from to) a id to w h)

  pause-Holds :
      (lead : Lead) (id : ℕ) (w : World)
      → HoldsAt P w
      → Ends (HoldsAt P) (pause_for_human lead id w)
  unfolding pause_for_human
  pause-Holds lead id w h =
      bind-Ends (HoldsAt P) (HoldsAt P) _ _
        (transition-Holds _ lead.id lead.state LeadState.human_owned _
          (robust.pauses w.db.leads w.db.conversations w.db.suppressions w.db.outbox id h))
        (λ a w' k. k)

  module _ (digest : Text → String) (local_hour : String → ℕ → ℕ) (now : ℕ) (lead : Lead) where
    enqueue-Holds :
        (id : ℕ) (to : Option String) (body : Text) (template : String) (w : World)
        → Clear to w.db.suppressions
        → HoldsAt P w
        → HoldsAt P (enqueue_reply digest id to body template w)
    unfolding enqueue_reply
    enqueue-Holds id to body template w clear h =
        elim (Bool-cases (is_duplicate id (some (reply_key digest template body)) w.db.messages)) [
          | inl old ↦ rw old h
          | inr fresh ↦ rw fresh (
              robust.mails w.db.leads w.db.conversations w.db.suppressions w.db.outbox
                (reply_outbox to body (reply_key digest template body) w.db.next_id) clear h)
        ]

    advance-Holds :
        (turn : AgentTurn) (complete : Bool) (w : World)
        → HoldsAt P w
        → Ends (HoldsAt P) (advance digest now lead turn complete w)
    unfolding advance
    advance-Holds turn true w h =
        bind-Ends (HoldsAt P) (HoldsAt P) _ _
          (transition-Holds _ lead.id lead.state LeadState.qualified w h)
          (λ a w' k.
            robust.moves w'.db.leads w'.db.conversations w'.db.suppressions w'.db.outbox
              (λ l. l.id == lead.id) (λ l. record l { qualified_at = some now }) (λ l. refl) k)
    advance-Holds turn false w h =
        if-Ends (HoldsAt P) (state_eq lead.state engaged) _ _
          (λ e. transition-Holds _ lead.id lead.state LeadState.qualifying w h) (λ e. h)

    dispose-Holds :
        (id : ℕ) (turn : AgentTurn) (complete : Bool) (v : GateVerdict) (w : World)
        → (is_allowed v ≡ true → is_suppressed lead.phone_e164 w.db ≡ false)
        → HoldsAt P w
        → Ends (HoldsAt P) (dispose digest now lead id turn complete v w)
    unfolding dispose send_fallback
    dispose-Holds id turn complete (rejected code why) w gate h =
        enqueue-Holds id none fallback_text "uncertainty"
          (record w { db = emit_event lead.id "message.blocked" w.db }) tt h
    dispose-Holds id turn complete (allowed schedule) w gate h = advance-Holds turn complete _ (
        enqueue-Holds id lead.phone_e164 turn.proposed_reply "ai_reply" w
          (unsuppressed-Clear lead.phone_e164 w.db (gate refl)) h)

    gate_asked :
        (turn : AgentTurn) (w : World) (v : GateVerdict)
        → evaluate_policy local_hour (reply_context now lead w.db) (proposal turn) ≡ v
        → is_allowed v ≡ true
        → is_suppressed lead.phone_e164 w.db ≡ false
    unfolding reply_context
    gate_asked turn w (rejected code why) e h = cc
    gate_asked turn w (allowed schedule) e h =
        ((allowed_iff local_hour (reply_context now lead w.db) (proposal turn) schedule).0 e).1

    propose-Holds :
        (id : ℕ) (raw : Text) (turn : AgentTurn) (w : World)
        → HoldsAt P w
        → Ends (HoldsAt P) (propose digest local_hour now lead id raw turn w)
    unfolding propose
    propose-Holds id raw turn w h =
        let merged = merge_answers (get_qualification_answers lead.id w.db) turn.extracted_facts in
        let complete = is_qualification_complete roofing_hvac_qualification_schema merged in
        let w1 : World = upsert_qualification lead.id merged complete w in
        let verdict = evaluate_policy local_hour (reply_context now lead w1.db) (proposal turn) in
        let w2 : World = record_interaction lead.id id raw (judged verdict) w1 in
        dispose-Holds id turn complete verdict w2
          (λ e. unmoved lead.phone_e164 w1 w2 refl (gate_asked turn w1 verdict refl e)) h

    respond_to-Holds :
        (c : Conversation) (a : Asked) (w : World)
        → HoldsAt P w
        → Ends (HoldsAt P) (respond_to digest local_hour now lead c a w)
    unfolding respond_to send_fallback take_turn
    respond_to-Holds c (Asked.threw message) w h = tt
    respond_to-Holds c (asked none raw) w h =
        enqueue-Holds c.id none fallback_text "uncertainty"
          (record_interaction lead.id c.id raw fallback w) tt h
    respond_to-Holds c (asked (some turn) raw) w h =
        if-Ends (HoldsAt P) (opts_out (last_inbound (window c.id w.db))) _ _ (λ e. h)
          (λ e.
            if-Ends (HoldsAt P) (asks_for_human turn) _ _
              (λ f. bind-Ends (HoldsAt P) (HoldsAt P) _ _ (pause-Holds lead c.id w h) (λ a w' k. k))
              (λ f. propose-Holds c.id raw turn w h))

  module _ (digest : Text → String) (local_hour : String → ℕ → ℕ) (now : ℕ)
      (validate : Text → Option AgentTurn) (llm : LlmRequest → ℕ → Answer) where
    converse_in-Holds :
        (lead : Lead) (o : Option Conversation) (w : World)
        → HoldsAt P w
        → Ends (HoldsAt P) (converse_in digest local_hour now validate llm lead o w)
    unfolding converse_in
    converse_in-Holds lead none w h = h
    converse_in-Holds lead (some c) w h =
        if-Ends (HoldsAt P) c.ai_paused _ _ (λ e. h)
          (λ e.
            respond_to-Holds digest local_hour now lead c
              (asked_for digest local_hour now validate llm lead c w) w h)

    converse_for-Holds :
        (lead_id : ℕ) (o : Option Lead) (w : World)
        → HoldsAt P w
        → Ends (HoldsAt P) (converse_for digest local_hour now validate llm lead_id o w)
    unfolding converse_for
    converse_for-Holds lead_id none w h = tt
    converse_for-Holds lead_id (some lead) w h =
        converse_in-Holds lead (conversation_of lead_id w.db) w h

    pub engine-Holds :
        (lead_id : ℕ) (w : World)
        → HoldsAt P w
        → HoldsAt P (world_of (process_conversation digest local_hour now validate llm lead_id w))
    unfolding process_conversation
    engine-Holds lead_id w h =
        settle-Holds P w.db
          (converse_for digest local_hour now validate llm lead_id (lead_with lead_id w.db) w) h
          (converse_for-Holds lead_id (lead_with lead_id w.db) w h)
