-- ===== src/Tests/Inbound.antt =====
-- The lead writes STOP, and a new lead answers.
use insurnace_automations.Base.{Text, true, some, none, [], ◌∷◌, codes, ◌≡◌, refl}
use insurnace_automations.Core.Types.{LeadState, contacted, won, sms}
use insurnace_automations.Core.Policy.{suppressed}
use insurnace_automations.Core.StateMachine.{assert_transition}
use insurnace_automations.Core.OptOut.{detect_opt_out}
use insurnace_automations.Worker.Store.{World, ok, Lead, error, emit_event, lead_with}
use insurnace_automations.Worker.Messaging.{ComposeArgs, blocked, compose_and_enqueue}
use insurnace_automations.Worker.Inbound.{
  opted_out, lead_of_phone, take_in, process_inbound, process_status,
}
use insurnace_automations.Worker.Inbound.OptOut.{Closed, opt_out-Closed, opt_out_lost}
use insurnace_automations.Worker.Inbound.Status.{AllKept, Taken, process_status-AllKept}
use insurnace_automations.Worker.FirstTouch.{process_first_touch}
use insurnace_automations.Worker.Outcomes.{world_of}
use insurnace_automations.Worker.Robust.Steps.{on_message, on_first_touch, at_once, after}
use insurnace_automations.Worker.Robust.Shut.{out_world, mail_to, opted_out_is_blocked}
use insurnace_automations.Tests.Data.{noon, no_digest, phone, lead_in, world_in, message}

abbrev stop_text : Text
stop_text = codes "Stop please"

stop_is_out : (detect_opt_out stop_text).is_opt_out ≡ true
unfolding detect_opt_out
stop_is_out = refl

from_lead : (state : LeadState) → lead_of_phone phone (world_in state).db ≡ some (lead_in state)
unfolding lead_of_phone
from_lead state = refl

may_leave : assert_transition contacted LeadState.opted_out ≡ none
unfolding assert_transition
may_leave = refl

may_not_leave :
    assert_transition won LeadState.opted_out ≡ some "cannot opt out from terminal state 'won'"
unfolding assert_transition
may_not_leave = refl

opt_out-Closed_example :
    (w' : World) × (process_inbound 7 stop_text phone "SM2" (world_in contacted)
      ≡ ok (opted_out 1) w')
    × Closed 1 phone w'.db
    × (w'.jobs ≡ [])
    × (w'.sends ≡ [])
opt_out-Closed_example =
    opt_out-Closed 7 stop_text phone "SM2" (world_in contacted) (lead_in contacted)
      (from_lead contacted) stop_is_out may_leave

opt_out_lost_example :
    (w' : World) × (process_inbound 7 stop_text phone "SM2" (world_in won)
      ≡ error "cannot opt out from terminal state 'won'" w')
    × (w'.db ≡ (world_in won).db)
opt_out_lost_example =
    opt_out_lost 7 stop_text phone "SM2" (world_in won) (lead_in won) (from_lead won) stop_is_out
      "cannot opt out from terminal state 'won'" may_not_leave

abbrev closed : World
closed =
    out_world 7 stop_text phone "SM2" (world_in contacted) (lead_in contacted) (from_lead contacted)
      stop_is_out

-- The lead writes once more, and a first touch runs.
abbrev wrote : World
wrote = world_of (process_inbound 8 (codes "Hello?") phone "SM3" closed)

abbrev touched : World
touched = world_of (process_first_touch noon 50000 1 wrote)

abbrev gone : Lead
gone = record (lead_in LeadState.opted_out) { first_reply_at = some 7 }

gone_is_there : lead_with 1 touched.db ≡ some gone
unfolding process_inbound process_first_touch lead_of_phone detect_opt_out assert_transition take_in
    insurnace_automations.Regex.test insurnace_automations.Base.Show.show_ℕ
    insurnace_automations.Core.Policy.evaluate_policy
    insurnace_automations.Core.Policy.allowed_actions
    insurnace_automations.Worker.Messaging.context_of
gone_is_there = refl

abbrev args : ComposeArgs
args = record {
  lead_id = 1;
  conversation_id = 2;
  channel = sms;
  template_key = "followup_1";
  body = none;
  dedupe_scope = "wf:a:b";
  follow_ups_sent_in_window = none;
}

opted_out_is_blocked_example :
    (mail_to phone touched.db.outbox ≡ mail_to phone closed.db.outbox)
    × (compose_and_enqueue no_digest noon 60000 args touched
        ≡ ok
            (blocked suppressed)
            (record touched { db = emit_event 1 "message.blocked" touched.db }))
opted_out_is_blocked_example =
    opted_out_is_blocked 7 stop_text phone "SM2" (world_in contacted) (lead_in contacted)
      (from_lead contacted) stop_is_out no_digest noon 60000 args gone touched may_leave
      (after closed wrote touched (on_message closed 8 (codes "Hello?") phone "SM3")
        (after wrote touched touched (on_first_touch wrote noon 50000 1) (at_once touched)))
      gone_is_there refl

process_status-AllKept_example :
    AllKept (message ∷ []) (process_status "SM1" "delivered" (world_in contacted).db).messages
    × Taken "SM1" "delivered"
        (world_in contacted).db
        (process_status "SM1" "delivered" (world_in contacted).db)
process_status-AllKept_example =
    process_status-AllKept "SM1" "delivered" (world_in contacted).db (tt, tt)
