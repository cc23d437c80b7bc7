-- ===== src/Tests/Messages.antt =====
-- A follow-up to the lead, composed twice, and one to the number after it was suppressed.
use insurnace_automations.Base.{some, none, codes, ◌≡◌, refl}
use insurnace_automations.Core.Types.{contacted, sms}
use insurnace_automations.Core.Policy.{
  send_now, evaluate_policy, evaluate_reply, check_claims, allowed_actions, is_within_quiet_hours,
  claim_patterns,
}
use insurnace_automations.Worker.Store.{World, ok, is_duplicate}
use insurnace_automations.Regex.{test}
use insurnace_automations.Worker.Messaging.{
  ComposeArgs, queued, duplicate, is_suppressed, compose_for, deliver, write_message, body_of,
  context_of, current_consent, load_settings, compose_and_enqueue,
}
use insurnace_automations.Worker.Messaging.Laws.{Outcomes, compose-Effect, written}
use insurnace_automations.Worker.Messaging.Once.{queued_once}
use insurnace_automations.Tests.Data.{noon, no_digest, lead_in, world_in}

abbrev args : ComposeArgs
args = record {
  lead_id = 1;
  conversation_id = 2;
  channel = sms;
  template_key = "followup_1";
  body = some (codes "Just following up.");
  dedupe_scope = "wf:a:b";
  follow_ups_sent_in_window = none;
}

abbrev w : World
w = world_in contacted

abbrev after : World
after =
    written no_digest noon 0 args (lead_in contacted) (codes "Just following up.") (some send_now) w

sent_first : compose_and_enqueue no_digest noon 0 args w ≡ ok (queued 6 7) after
unfolding compose_and_enqueue compose_for deliver write_message evaluate_policy evaluate_reply
    check_claims test allowed_actions is_duplicate body_of context_of is_suppressed current_consent
    load_settings is_within_quiet_hours claim_patterns
sent_first = refl

compose-Effect_example :
    Outcomes no_digest noon 0 args
      (compose_and_enqueue no_digest noon 0 args w)
      (lead_in contacted)
      w
compose-Effect_example = compose-Effect no_digest noon 0 args (lead_in contacted) w refl

queued_once_example : compose_and_enqueue no_digest noon 60000 args after ≡ ok duplicate after
queued_once_example =
    queued_once no_digest noon args 0 60000 (lead_in contacted) w after 6 7 refl sent_first
