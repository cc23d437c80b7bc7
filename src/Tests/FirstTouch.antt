-- ===== src/Tests/FirstTouch.antt =====
-- The opener to the lead, and the run after it.
use insurnace_automations.Base.{some, none, ◌≡◌, refl}
use insurnace_automations.Core.Types.{new, contacted}
use insurnace_automations.Core.StateMachine.{assert_transition}
use insurnace_automations.Core.Policy.{
  send_now, evaluate_policy, evaluate_reply, check_claims, allowed_actions, is_within_quiet_hours,
  claim_patterns,
}
use insurnace_automations.Core.Templating.{render_template}
use insurnace_automations.Regex.{test}
use insurnace_automations.Base.Show.{show_ℕ}
use insurnace_automations.Worker.Store.{World, ok, settle, bind, ensure_conversation, is_duplicate}
use insurnace_automations.Worker.Messaging.{
  context_of, is_suppressed, current_consent, load_settings,
}
use insurnace_automations.Worker.Inbound.{move_unless}
use insurnace_automations.Worker.FirstTouch.{
  sent_queued, duplicate, opener, first_template, touch, touch_in, touch_for, process_first_touch,
}
use insurnace_automations.Worker.FirstTouch.Laws.{touched, first_touch_once}
use insurnace_automations.Tests.Data.{noon, lead_in, world_in, conversation}

may_contact : assert_transition new contacted ≡ none
unfolding assert_transition
may_contact = refl

abbrev after : World
after =
    touched (lead_in new) conversation (opener (lead_in new) (world_in new).db) (some send_now)
      (world_in new)

sent_first : process_first_touch noon 0 1 (world_in new) ≡ ok (sent_queued 7) after
unfolding process_first_touch touch_for touch_in touch settle bind move_unless assert_transition
    ensure_conversation is_duplicate opener first_template evaluate_policy evaluate_reply
    check_claims test allowed_actions context_of is_suppressed current_consent load_settings
    is_within_quiet_hours claim_patterns render_template show_ℕ
sent_first = refl

first_touch_once_example : process_first_touch noon 60000 1 after ≡ ok duplicate after
first_touch_once_example =
    first_touch_once noon (lead_in new) 0 60000 (world_in new) after 7 refl may_contact sent_first
