-- ===== src/Worker/Robust/Message.antt =====
-- Messages that apps/worker/src/processors/messaging-events.ts handles.
use insurnace_automations.Base.{
  ℕ, String, Option, none, some, List, [], ◌∷◌, Text, refl, ◌==◌, ◌&&◌, Option-cases, inl, inr,
  ◌||◌,
}
use insurnace_automations.Core.Types.{sms, LeadState, contacted, engaged, new, state_eq}
use insurnace_automations.Core.OptOut.{OptOutMatch, detect_opt_out}
use insurnace_automations.Core.StateMachine.{assert_transition}
use insurnace_automations.Worker.Store.{
  Lead, Conversation, Message, Db, World, conversation_of, ensure_conversation,
}
use insurnace_automations.Worker.Inbound.{
  lead_of_phone, record_inbound, set_first_reply, take_in, safe_transition, void_message, void_all,
  pending_in, cancel_pending, revoke_consent, suppress, is_pending, handle_opt_out, hand_off,
  respond, process_for, process_inbound,
}
use insurnace_automations.Worker.Outcomes.{Ends, bind-Ends, if-Ends, world_of}
use insurnace_automations.Worker.Robust.{
  Tables, Robust, Holds, HoldsAt, either-Holds, settle-Holds, update-Holds, ensure-Holds,
  move-Holds,
}

module _ (P : Tables) (robust : Robust P) where
  record-Holds :
      (conversation_id : ℕ) (body : Text) (sid : String) (d : Db)
      → Holds P d
      → Holds P (record_inbound conversation_id body sid d)
  unfolding record_inbound
  record-Holds conversation_id body sid d h = either-Holds P _ _ _ h h

  set_first_reply-Holds :
      (now : ℕ) (lead : Lead) (d : Db) → Holds P d → Holds P (set_first_reply now lead d)
  set_first_reply-Holds now lead d h = elim (Option-cases lead.first_reply_at) [
    | inr (t, e) ↦ rw (e, set_first_reply) h
    | inl e ↦
        rw (e, set_first_reply)
          (update-Holds P robust (λ l. l.id == lead.id)
            (λ l. record l { first_reply_at = some now }) d (λ l. refl) h)
  ]

  take_in-Holds :
      (now : ℕ) (lead : Lead) (body : Text) (sid : String) (d : Db)
      → Holds P d
      → Holds P (take_in now lead body sid d)
  unfolding take_in
  take_in-Holds now lead body sid d h =
      let (c, d1) = ensure_conversation lead.id d in
      set_first_reply-Holds now lead _ (
        record-Holds (ensure_conversation lead.id d).0.id body sid (ensure_conversation lead.id d).1
          (ensure-Holds P robust lead.id d h))

  void_all-Holds : (ms : List Message) (d : Db) → Holds P d → Holds P (void_all ms d)
  unfolding void_all
  void_all-Holds [] d h = h
  void_all-Holds (m ∷ ms) d h = void_all-Holds ms (void_message m.id d) (
      robust.voids d.leads d.conversations d.suppressions d.outbox
        (λ o. (o.aggregate_id == m.id) && is_pending o.status) h)

  cancel-Holds : (o : Option Conversation) (d : Db) → Holds P d → Holds P (cancel_pending o d)
  unfolding cancel_pending
  cancel-Holds none d h = h
  cancel-Holds (some c) d h = void_all-Holds (pending_in c.id d) d h

  suppress-Holds : (phone : String) (d : Db) → Holds P d → Holds P (suppress phone d)
  unfolding suppress
  suppress-Holds phone d h = either-Holds P _ _ _ h (
      robust.suppresses d.leads d.conversations d.suppressions d.outbox
        (record { channel = sms; value = phone }) h)

  move-HoldsAt :
      {A : Type 0} (a : A) (lead_id : ℕ) (from to : LeadState) (w : World)
      → HoldsAt P w
      → Ends (HoldsAt P) (safe_transition a lead_id from to w)
  unfolding safe_transition
  move-HoldsAt a lead_id from to w h =
      move-Holds P robust (assert_transition from to) a lead_id to w h

  handle_opt_out-HoldsAt :
      (lead : Lead) (phone : String) (w : World)
      → HoldsAt P w
      → Ends (HoldsAt P) (handle_opt_out lead phone w)
  unfolding handle_opt_out
  handle_opt_out-HoldsAt lead phone w h =
      let d = suppress phone (revoke_consent lead.id w.db) in
      bind-Ends (HoldsAt P) (HoldsAt P) _ _
        (move-HoldsAt _ lead.id lead.state LeadState.opted_out
          (record w { db = cancel_pending (conversation_of lead.id d) d })
          (cancel-Holds (conversation_of lead.id d) d
            (suppress-Holds phone (revoke_consent lead.id w.db) h)))
        (λ r w' k. k)

  hand_off-HoldsAt :
      (now : ℕ) (lead : Lead) (sid : String) (w : World)
      → HoldsAt P w
      → Ends (HoldsAt P) (hand_off now lead sid w)
  unfolding hand_off
  hand_off-HoldsAt now lead sid w h =
      if-Ends (HoldsAt P) (state_eq lead.state contacted || state_eq lead.state new) _ _
        (λ e.
          bind-Ends (HoldsAt P) (HoldsAt P) _ _ (move-HoldsAt _ lead.id lead.state engaged w h)
            (λ r w' k. k))
        (λ e. h)

  respond-HoldsAt :
      (now : ℕ) (lead : Lead) (from sid : String) (match : OptOutMatch) (w : World)
      → HoldsAt P w
      → Ends (HoldsAt P) (respond now lead from sid match w)
  unfolding respond
  respond-HoldsAt now lead from sid match w h =
      if-Ends (HoldsAt P) match.is_opt_out _ _ (λ e. handle_opt_out-HoldsAt lead from w h)
        (λ e.
          if-Ends (HoldsAt P) match.is_help _ _ (λ f. h) (λ f. hand_off-HoldsAt now lead sid w h))

  process_for-HoldsAt :
      (now : ℕ) (o : Option Lead) (body : Text) (from sid : String) (w : World)
      → HoldsAt P w
      → Ends (HoldsAt P) (process_for now o body from sid w)
  unfolding process_for
  process_for-HoldsAt now none body from sid w h = h
  process_for-HoldsAt now (some lead) body from sid w h =
      respond-HoldsAt now lead from sid (detect_opt_out body)
        (record w { db = take_in now lead body sid w.db }) (take_in-Holds now lead body sid w.db h)

  -- A message, whosever it is, leaves it so.
  pub process_inbound-Holds :
      (now : ℕ) (body : Text) (from sid : String) (w : World)
      → Holds P w.db
      → Holds P (world_of (process_inbound now body from sid w)).db
  unfolding process_inbound
  process_inbound-Holds now body from sid w h =
      settle-Holds P w.db (process_for now (lead_of_phone from w.db) body from sid w) h
        (process_for-HoldsAt now (lead_of_phone from w.db) body from sid w h)
