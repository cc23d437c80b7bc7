-- ===== src/Worker/Inbound/OptOut.antt =====
-- Opt-outs in apps/worker/src/processors/messaging-events.ts.
pub mod Tables
use insurnace_automations.Base.{
  ℕ, String, Bool, true, false, ◌&&◌, ◌||◌, Option, none, some, List, [], ◌∷◌, ◌++◌, Text, All,
  update_where, ◌≡◌, refl, ap, sym, filter, ◌∙◌, ◌≢◌, str_eq, eq_iff, ◌==◌, ==_iff, arith,
  Bool-cases, Option-cases, inl, inr, if◌then◌else◌,
}
use insurnace_automations.Core.Types.{LeadState, sms, ConsentStatus}
use insurnace_automations.Core.StateMachine.{assert_transition}
use insurnace_automations.Core.OptOut.{OptOutMatch, detect_opt_out}
use insurnace_automations.Core.Policy.{suppressed}
use insurnace_automations.Worker.Store.{
  Lead, Conversation, Message, Db, World, Outcome, ok, error, bind, settle, set_state, emit_event,
  audit, lead_with, conversation_of,
}
use insurnace_automations.Worker.Messaging.{
  current_consent, is_suppressed, ComposeArgs, ComposeResult, blocked, contact_for,
  compose_and_enqueue,
}
use insurnace_automations.Worker.Messaging.Laws.{suppressed_is_blocked}
use insurnace_automations.Worker.Inbound.{
  InboundResult, opted_out, lead_of_phone, take_in, revoke_consent, suppress, cancel_pending,
  safe_transition, move_unless, handle_opt_out, respond, process_for, process_inbound,
}
use Tables.{waits, cancel-waits, cancel_keeps, suppress_keeps, consent-revoked, phone-suppressed}

-- The messages of a lead's conversation that wait to be sent.
abbrev pub waiting : Option Conversation → List Message → List Message
waiting none ms = []
waiting (some c) ms = filter (waits c.id) ms

-- The number is closed: consent is revoked and the contact suppressed; the lead is out, and nothing
-- of its conversation waits to be sent.
pub record Closed (lead_id : ℕ) (phone : String) (d : Db) : Type 0 where
  pub revoked : current_consent lead_id sms d ≡ ConsentStatus.revoked
  pub listed : is_suppressed (some phone) d ≡ true
  pub out : All (λ l. l.state ≡ LeadState.opted_out) (filter (λ l. l.id == lead_id) d.leads)
  pub silent : waiting (conversation_of lead_id d) d.messages ≡ []

all_out :
    (id : ℕ) (ls : List Lead)
    → All
        (λ l. l.state ≡ LeadState.opted_out)
        (filter
          (λ l. l.id == id)
          (update_where (λ l. l.id == id) (λ l. record l { state = LeadState.opted_out }) ls))
all_out id [] = ground arith
all_out id (l ∷ ls) = elim (Bool-cases (l.id == id)) [
  | inl e ↦ rw (e, e) (refl, all_out id ls)
  | inr e ↦ rw (e, e) (all_out id ls)
]

none_waits :
    (c : ℕ) (ms : List Message) → All (λ m. waits c m ≡ false) ms → filter (waits c) ms ≡ []
none_waits c [] h = refl
none_waits c (m ∷ ms) h = rw (h.0) (none_waits c ms h.1)

module _ (lead : Lead) (phone : String) where
  -- The database after an opt-out that the state machine lets through.
  abbrev pub closed_db : Db → Db
  closed_db d0 =
      let d = suppress phone (revoke_consent lead.id d0) in
      audit "lead.opted_out" lead.id (
        emit_event lead.id "lead.opted_out"
          (set_state lead.id LeadState.opted_out (cancel_pending (conversation_of lead.id d) d)))

  -- The database that an opt-out which throws has reached by then.
  abbrev unsettled : Db → Db
  unsettled d0 =
      let d = suppress phone (revoke_consent lead.id d0) in
      cancel_pending (conversation_of lead.id d) d

  silent_after : (d : Db) (o : Option Conversation) → waiting o (cancel_pending o d).messages ≡ []
  silent_after d none = refl
  silent_after d (some b) = none_waits b.id _ (cancel-waits b d)

  closed : (d : Db) → Closed lead.id phone (closed_db d)
  closed d0 =
      let d = suppress phone (revoke_consent lead.id d0) in
      let (convs, cons, sups) = cancel_keeps (conversation_of lead.id d) d in
      record {
        revoked =
            consent-revoked lead.id d0 (closed_db d0)
              (cons ∙ (suppress_keeps phone (revoke_consent lead.id d0)).0);
        listed = phone-suppressed phone (revoke_consent lead.id d0) (closed_db d0) sups;
        out = all_out lead.id (cancel_pending (conversation_of lead.id d) d).leads;
        silent = rw convs (silent_after d (conversation_of lead.id d));
      }

  handled :
      (w : World)
      → assert_transition lead.state LeadState.opted_out ≡ none
      → handle_opt_out lead phone w ≡ ok (opted_out lead.id) (record w { db = closed_db w.db })
  unfolding handle_opt_out safe_transition bind
  handled w e = rw (e, move_unless) refl

  thrown :
      (w : World) (message : String)
      → assert_transition lead.state LeadState.opted_out ≡ some message
      → handle_opt_out lead phone w ≡ error message (record w { db = unsettled w.db })
  unfolding handle_opt_out safe_transition bind
  thrown w message e = rw (e, move_unless) refl

abbrev world_of : Outcome InboundResult → World
world_of (ok r w) = w
world_of (error e w) = w

module _ (now : ℕ) (body : Text) (from sid : String) (w : World) (lead : Lead)
    (found : lead_of_phone from w.db ≡ some lead)
    (out : (detect_opt_out body).is_opt_out ≡ true) where
  abbrev pub closed_world : World
  closed_world = record w { db = closed_db lead from (take_in now lead body sid w.db) }

  -- The handler's run on such a message.
  pub processed :
      assert_transition lead.state LeadState.opted_out ≡ none
      → process_inbound now body from sid w ≡ ok (opted_out lead.id) closed_world
  unfolding process_inbound process_for respond settle
  processed e =
      rw (found, process_for)
        (rw (out, respond)
          (rw (handled lead from (record w { db = take_in now lead body sid w.db }) e) refl))

  -- A message that is an opt-out, from a lead whose state allows it, closes the number: the lead's
  -- consent is revoked, the contact is suppressed, every row of the lead is in the state opted_out
  -- and no message of the conversation is left waiting. The jobs and the sends stay as they were: no job
  -- that waits is removed, and no reply that confirms the opt-out is enqueued.
  pub opt_out-Closed :
      assert_transition lead.state LeadState.opted_out ≡ none
      → (w' : World) × (process_inbound now body from sid w ≡ ok (opted_out lead.id) w')
        × Closed lead.id from w'.db
        × (w'.jobs ≡ w.jobs)
        × (w'.sends ≡ w.sends)
  opt_out-Closed e =
      (closed_world, processed e, closed lead from (take_in now lead body sid w.db), refl, refl)

  -- A message that is an opt-out, from a lead whose state does not allow it, throws, and leaves the
  -- database as it was: neither is consent revoked nor the contact suppressed.
  pub opt_out_lost :
      (message : String)
      → assert_transition lead.state LeadState.opted_out ≡ some message
      → (w' : World) × (process_inbound now body from sid w ≡ error message w') × (w'.db ≡ w.db)
  unfolding process_inbound process_for respond settle
  opt_out_lost message e = (
    w,
    rw (found, process_for)
        (rw (out, respond)
          (rw (thrown lead from (record w { db = take_in now lead body sid w.db }) message e)
            refl)),
    refl,
  )
