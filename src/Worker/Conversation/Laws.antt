-- ===== src/Worker/Conversation/Laws.antt =====
-- What a run of `processConversation` of apps/worker/src/processors/conversation.ts may write.
use insurnace_automations.Base.{
  ℕ, String, Bool, false, Option, none, some, [], Text, trim, ◌≡◌, refl, ◌≢◌, ◌⊎◌, inl, inr,
}
use insurnace_automations.Core.Types.{granted, sms}
use insurnace_automations.Core.Policy.{
  GateVerdict, allowed, rejected, evaluate_policy, claim_patterns, GateRejectCode,
}
use insurnace_automations.Core.Policy.Laws.{allowed_iff, Clears, ClaimsBacked}
use insurnace_automations.Core.Qualification.{
  merge_answers, is_qualification_complete, roofing_hvac_qualification_schema,
}
use insurnace_automations.Worker.Store.{
  Lead, Conversation, Db, World, judged, emit_event, lead_with, conversation_of,
}
use insurnace_automations.Worker.Messaging.{current_consent, is_suppressed}
use insurnace_automations.Worker.Outcomes.{
  Ends, Atomic, bind-Ends, settle-Atomic, Ends-weaken, if-Ends,
}
use insurnace_automations.Worker.Conversation.Turn.{AgentTurn, Answer, Asked, asked}
use insurnace_automations.Worker.Conversation.Prompt.{
  LlmRequest, get_qualification_answers, window, last_inbound,
}
use insurnace_automations.Worker.Conversation.{
  asks_for_human, opts_out, reply_context, proposal, upsert_qualification, advance, dispose,
  propose, take_turn, respond_to, asked_for, converse_in, converse_for, process_conversation,
}
use insurnace_automations.Worker.Conversation.Reply.{fallback_text, enqueue_reply, send_fallback}
use insurnace_automations.Worker.Conversation.Reply.{record_interaction}
use insurnace_automations.Worker.Conversation.Mail.{
  SameMail, pause-Same, reply_context-upsert, MayMail, enqueue_reply-MayMail, MayMail-Same,
  advance-Same,
}

module _ (digest : Text → String) where
  -- What a run may write, given what the language model was asked and has answered.
  module _ (local_hour : String → ℕ → ℕ) (now : ℕ) (lead : Lead) (c : Conversation) where
    abbrev pub Fallback : World → World → Type 0
    Fallback = MayMail digest c.id none fallback_text "uncertainty"

    -- The reply of a turn that the gate has allowed.
    pub record Cleared (turn : AgentTurn) (d : Db) : Type 0 where
      pub listed : is_suppressed lead.phone_e164 d ≡ false
      pub consented : current_consent lead.id sms d ≡ granted
      pub some_text : trim turn.proposed_reply ≢ []
      pub backed : ClaimsBacked claim_patterns (reply_context now lead d) (proposal turn)

    cleared :
        (turn : AgentTurn) (d : Db)
        → (reply_context now lead d).is_suppressed ≡ false
        → Clears (reply_context now lead d) (proposal turn)
        → Cleared turn d
    unfolding reply_context current_consent
    cleared turn d unlisted clears = record {
      listed = unlisted;
      consented = clears.consented;
      some_text = clears.some_text;
      backed = clears.backed;
    }

    abbrev pub Reply : AgentTurn → Db → World → World → Type 0
    Reply turn d w w' =
        Cleared turn d × MayMail digest c.id lead.phone_e164 turn.proposed_reply "ai_reply" w w'

    -- What a run writes after a turn: nothing, the fallback, or the turn's reply.
    abbrev pub Written : AgentTurn → Db → World → World → Type 0
    Written turn d w w' = Fallback w w' ⊎ Reply turn d w w'

    send_fallback-Ends :
        (code : Option GateRejectCode) (w : World)
        → Ends (Fallback w) (send_fallback digest lead.id c.id code w)
    unfolding send_fallback
    send_fallback-Ends code w = enqueue_reply-MayMail digest c.id none fallback_text "uncertainty" w

    dispose-Ends :
        (turn : AgentTurn) (complete : Bool) (v : GateVerdict) (d : Db) (w : World)
        → evaluate_policy local_hour (reply_context now lead d) (proposal turn) ≡ v
        → Ends (Written turn d w) (dispose digest now lead c.id turn complete v w)
    unfolding dispose
    dispose-Ends turn complete (rejected code why) d w e =
        let told : World = record w { db = emit_event lead.id "message.blocked" w.db } in
        Ends-weaken (Fallback w) (Written turn d w)
          (send_fallback digest lead.id c.id (some code) told) (λ w' h. inl h)
          (send_fallback-Ends (some code) told)
    dispose-Ends turn complete (allowed schedule) d w e =
        let may =
          (allowed_iff local_hour (reply_context now lead d) (proposal turn) schedule).0 e in
        let shipped : World =
          enqueue_reply digest c.id lead.phone_e164 turn.proposed_reply "ai_reply" w in
        let written =
          enqueue_reply-MayMail digest c.id lead.phone_e164 turn.proposed_reply "ai_reply" w in
        Ends-weaken (SameMail shipped) (Written turn d w)
          (advance digest now lead turn complete shipped)
          (λ w' h. inr (
            cleared turn d may.1 may.2.0,
            MayMail-Same digest c.id lead.phone_e164 turn.proposed_reply "ai_reply" w shipped w'
                written h,
          ))
          (advance-Same digest now lead turn complete shipped)

    propose-Ends :
        (raw : Text) (turn : AgentTurn) (w : World)
        → Ends (Written turn w.db w) (propose digest local_hour now lead c.id raw turn w)
    unfolding propose
    propose-Ends raw turn w =
        let merged = merge_answers (get_qualification_answers lead.id w.db) turn.extracted_facts in
        let complete = is_qualification_complete roofing_hvac_qualification_schema merged in
        let w1 : World = upsert_qualification lead.id merged complete w in
        let verdict = evaluate_policy local_hour (reply_context now lead w1.db) (proposal turn) in
        dispose-Ends turn complete verdict w.db
          (record_interaction lead.id c.id raw (judged verdict) w1)
          (rw (reply_context-upsert now lead lead.id merged complete w) refl)

    -- No message, or what the answer of the model permits: the fallback, or the reply of a turn that
    -- does not ask for a person, after a message that is no opt-out.
    abbrev pub Permitted : Asked → World → World → Type 0
    Permitted (asked (some turn) raw) w w' =
        SameMail w w'
        ⊎ ((opts_out (last_inbound (window c.id w.db)) ≡ false)
            × (asks_for_human turn ≡ false)
            × Written turn w.db w w')
    Permitted (asked none raw) w w' = Fallback w w'
    Permitted (Asked.threw message) w w' = SameMail w w'

    take_turn-Ends :
        (raw : Text) (turn : AgentTurn) (w : World)
        → Ends
            (Permitted (asked (some turn) raw) w)
            (take_turn digest local_hour now lead c.id (last_inbound (window c.id w.db)) raw turn w)
    unfolding take_turn
    take_turn-Ends raw turn w =
        let P = Permitted (asked (some turn) raw) w in
        if-Ends P (opts_out (last_inbound (window c.id w.db))) _ _ (λ out. inl (refl, refl))
          (λ stays.
            if-Ends P (asks_for_human turn) _ _
              (λ asks. bind-Ends (SameMail w) P _ _ (pause-Same lead c.id w) (λ a w' h. inl h))
              (λ fine.
                Ends-weaken (Written turn w.db w) P
                  (propose digest local_hour now lead c.id raw turn w)
                  (λ w' h. inr (stays, fine, h)) (propose-Ends raw turn w)))

    respond_to-Ends :
        (a : Asked) (w : World) → Ends (Permitted a w) (respond_to digest local_hour now lead c a w)
    unfolding respond_to
    respond_to-Ends (Asked.threw message) w = tt
    respond_to-Ends (asked none raw) w = send_fallback-Ends none _
    respond_to-Ends (asked (some turn) raw) w = take_turn-Ends raw turn w

    module _ (validate : Text → Option AgentTurn) (llm : LlmRequest → ℕ → Answer) where
      -- No message, or one that the model's answer permits, in a conversation that is not paused.
      abbrev pub Lawful : World → World → Type 0
      Lawful w w' =
          SameMail w w'
          ⊎ ((c.ai_paused ≡ false)
              × Permitted (asked_for digest local_hour now validate llm lead c w) w w')

      converse_in-Ends :
          (w : World)
          → Ends (Lawful w) (converse_in digest local_hour now validate llm lead (some c) w)
      unfolding converse_in
      converse_in-Ends w =
          let a = asked_for digest local_hour now validate llm lead c w in
          if-Ends (Lawful w) c.ai_paused _ _ (λ paused. inl (refl, refl))
            (λ runs.
              Ends-weaken (Permitted a w) (Lawful w) (respond_to digest local_hour now lead c a w)
                (λ w' h. inr (runs, h)) (respond_to-Ends a w))

      -- Whatever the language model answers, a run on a lead in a conversation either throws and leaves
      -- the database as it was, or writes at most one message and its outbox row. Such a message is the
      -- fixed fallback text, addressed to no number, or the reply of a turn that the schema accepts,
      -- addressed to the lead's phone number. A reply is written only if the phone number is not
      -- suppressed, consent to text messages is granted, the reply has text, every claim in it is backed
      -- by a cited entry of the approved knowledge that is valid now, the turn does not ask for a person
      -- and the lead's last message is no opt-out. A paused conversation gets no message.
      pub reply_is_cleared :
          (w : World)
          → lead_with lead.id w.db ≡ some lead
          → conversation_of lead.id w.db ≡ some c
          → Atomic w.db
              (λ r w'. Lawful w w')
              (process_conversation digest local_hour now validate llm lead.id w)
      unfolding process_conversation converse_for
      reply_is_cleared w found there =
          rw (found, converse_for) (rw there (settle-Atomic w.db (Lawful w) _ (converse_in-Ends w)))
