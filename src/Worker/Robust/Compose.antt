-- ===== src/Worker/Robust/Compose.antt =====
-- Messages that apps/worker/src/messaging.ts and apps/worker/src/processors/first-touch.ts write.
use insurnace_automations.Base.{
  ℕ, String, Option, none, some, Text, ◌≡◌, refl, Bool-cases, Option-cases, inl, inr,
}
use insurnace_automations.Core.Types.{contacted}
use insurnace_automations.Core.StateMachine.{assert_transition}
use insurnace_automations.Core.Policy.{Schedule, GateVerdict, allowed, rejected, evaluate_policy}
use insurnace_automations.Worker.Store.{
  Lead, Conversation, World, lead_with, ensure_conversation, is_duplicate,
}
use insurnace_automations.Worker.Messaging.{
  ComposeArgs, body_of, contact_for, context_of, reply_with, outbox_row, key_of, write_message,
  deliver, compose_for, compose_and_enqueue,
}
use insurnace_automations.Worker.Messaging.Laws.{gate_passed}
use insurnace_automations.Worker.FirstTouch.{
  touch_key, touch_args, opener, add_touch, touch, touch_in, touch_for, process_first_touch,
}
use insurnace_automations.Worker.Outcomes.{Ends, bind-Ends, if-Ends, world_of}
use insurnace_automations.Worker.Robust.{
  Tables, Robust, Clear, unsuppressed-Clear, HoldsAt, settle-Holds, ensure-Holds, move-Holds,
}

module _ (P : Tables) (robust : Robust P) (local_hour : String → ℕ → ℕ) (now : ℕ) where
  module _ (digest : Text → String) (args : ComposeArgs) where
    written-Holds :
        (lead : Lead) (body : Text) (schedule : Option Schedule) (w : World)
        → Clear (contact_for lead args.channel) w.db.suppressions
        → HoldsAt P w
        → HoldsAt P (world_of (write_message digest local_hour args lead body schedule w))
    unfolding write_message
    written-Holds lead body schedule w clear h =
        elim (Bool-cases (
          is_duplicate args.conversation_id (some (key_of digest local_hour args body))
            w.db.messages)) [
              | inl old ↦ rw old h
              | inr fresh ↦ rw fresh (
                  robust.mails w.db.leads w.db.conversations w.db.suppressions w.db.outbox
                    (outbox_row args lead body (key_of digest local_hour args body) w.db.next_id)
                    clear h)
            ]

    deliver-Holds :
        (lead : Lead) (body : Text) (v : GateVerdict) (w : World)
        → evaluate_policy local_hour (context_of args now lead w.db) (reply_with body) ≡ v
        → HoldsAt P w
        → HoldsAt P (world_of (deliver digest local_hour args lead body v w))
    unfolding deliver
    deliver-Holds lead body (rejected code why) w e h = h
    deliver-Holds lead body (allowed schedule) w e h =
        let passed = gate_passed digest local_hour now args lead w.db body schedule e in
        written-Holds lead body schedule w
          (unsuppressed-Clear (contact_for lead args.channel) w.db passed.0) h

    pub compose-Holds :
        (w : World)
        → HoldsAt P w
        → HoldsAt P (world_of (compose_and_enqueue digest local_hour now args w))
    unfolding compose_and_enqueue
    compose-Holds w h = elim (Option-cases (lead_with args.lead_id w.db)) [
      | inl e ↦ rw (e, compose_for) h
      | inr (lead, e) ↦ rw (e, compose_for) (deliver-Holds lead (body_of args lead w.db) _ w refl h)
    ]

  touch-Holds :
      (lead : Lead) (c : Conversation) (text : Text) (v : GateVerdict) (w : World)
      → evaluate_policy local_hour
          (context_of (touch_args lead.id c.id) now lead w.db)
          (reply_with text)
        ≡ v
      → HoldsAt P w
      → Ends (HoldsAt P) (touch lead c text v w)
  unfolding touch
  touch-Holds lead c text (rejected code why) w e h = h
  touch-Holds lead c text (allowed schedule) w e h =
      let args = touch_args lead.id c.id in
      let passed = gate_passed (λ t. "") local_hour now args lead w.db text schedule e in
      bind-Ends (HoldsAt P) (HoldsAt P) _ _
        (move-Holds P robust (assert_transition lead.state contacted) _ lead.id contacted
          (record w { db = add_touch lead c text schedule w.db })
          (robust.mails w.db.leads w.db.conversations w.db.suppressions w.db.outbox
            (outbox_row args lead text (touch_key lead.id) w.db.next_id)
            (unsuppressed-Clear lead.phone_e164 w.db passed.0) h))
        (λ r w' k. k)

  touch_in-Holds :
      (lead : Lead) (c : Conversation) (w : World)
      → HoldsAt P w
      → Ends (HoldsAt P) (touch_in local_hour now lead c w)
  unfolding touch_in
  touch_in-Holds lead c w h =
      if-Ends (HoldsAt P) (is_duplicate c.id (some (touch_key lead.id)) w.db.messages) _ _ (λ e. h)
        (λ e. touch-Holds lead c (opener lead w.db) _ w refl h)

  touch_for-Holds :
      (lead_id : ℕ) (o : Option Lead) (w : World)
      → HoldsAt P w
      → Ends (HoldsAt P) (touch_for local_hour now lead_id o w)
  unfolding touch_for
  touch_for-Holds lead_id none w h = tt
  touch_for-Holds lead_id (some lead) w h =
      touch_in-Holds lead (ensure_conversation lead.id w.db).0
        (record w { db = (ensure_conversation lead.id w.db).1 })
        (ensure-Holds P robust lead.id w.db h)

  pub first_touch-Holds :
      (lead_id : ℕ) (w : World)
      → HoldsAt P w
      → HoldsAt P (world_of (process_first_touch local_hour now lead_id w))
  unfolding process_first_touch
  first_touch-Holds lead_id w h =
      settle-Holds P w.db (touch_for local_hour now lead_id (lead_with lead_id w.db) w) h
        (touch_for-Holds lead_id (lead_with lead_id w.db) w h)
