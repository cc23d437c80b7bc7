-- ===== src/Worker/Inbound/Laws.antt =====
-- Replies of new leads to apps/worker/src/processors/messaging-events.ts.
use insurnace_automations.Base.{ℕ, String, false, some, Text, ◌≡◌, refl}
use insurnace_automations.Core.Types.{new}
use insurnace_automations.Core.StateMachine.{assert_transition}
use insurnace_automations.Core.OptOut.{detect_opt_out}
use insurnace_automations.Worker.Store.{Lead, World, error, settle, bind}
use insurnace_automations.Worker.Inbound.{
  lead_of_phone, hand_off, respond, safe_transition, process_for, process_inbound,
}

module _ (now : ℕ) (body : Text) (from sid : String) (w : World) (lead : Lead)
    (found : lead_of_phone from w.db ≡ some lead) (stays : (detect_opt_out body).is_opt_out ≡ false)
    (no_help : (detect_opt_out body).is_help ≡ false) where
  -- A reply of a lead in the state `new` that is neither an opt-out nor a request for help throws,
  -- since the state machine has no step from new to engaged: the database stays as it was, without
  -- the message, and no job for the conversation engine is enqueued.
  pub new_reply_lost :
      lead.state ≡ new
      → process_inbound now body from sid w ≡ error "illegal transition new → engaged" w
  unfolding process_inbound process_for respond settle hand_off safe_transition bind
      assert_transition
  new_reply_lost e =
      rw (found, process_for) (rw (stays, respond) (rw no_help (rw (e, hand_off) refl)))
