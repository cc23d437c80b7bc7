-- ===== src/Worker/FirstTouch.antt =====
-- apps/worker/src/processors/first-touch.ts: the opener that a new lead gets. `local_hour` and the clock
-- `now` are those of the message path.
pub mod Laws
use insurnace_automations.Base.{
  ℕ, suc, String, ◌+++◌, Bool, true, false, Option, none, some, List, [], ◌∷◌, ◌++◌, Text, codes,
  get_or, if◌then◌else◌,
}
use insurnace_automations.Base.Show.{show_ℕ}
use insurnace_automations.Core.Types.{LeadState, contacted, sms}
use insurnace_automations.Core.StateMachine.{assert_transition}
use insurnace_automations.Core.Policy.{
  GateRejectCode, GateVerdict, allowed, rejected, Schedule, evaluate_policy,
}
use insurnace_automations.Core.Templating.{render_template}
use insurnace_automations.Worker.Store.{
  messaging_out_job, Lead, Conversation, MessageTemplate, Db, World, Outcome, ok, error, bind,
  settle, with_tenant, enqueue, emit_event, audit, lead_with, set_state, ensure_conversation,
  is_duplicate,
}
use insurnace_automations.Worker.Messaging.{
  ComposeArgs, Settings, load_settings, spaced, context_of, reply_with, message_row, outbox_row,
}
use insurnace_automations.Worker.Inbound.{move_unless}

pub data FirstTouchResult : Type 0 where
  sent_queued : (outbox_id : ℕ) → FirstTouchResult
  blocked : GateRejectCode → FirstTouchResult
  duplicate : FirstTouchResult

-- `loadTemplate`: the first of the tenant's templates, whatever its key.
unfoldable pub first_template : List MessageTemplate → Text
first_template [] =
    codes "Hi {{firstName}}, this is {{agentName}} from {{businessName}}. How can we help?"
first_template (t ∷ ts) = t.body

-- `serviceLabel`: a missing or empty service is "your project".
abbrev pub service_label : Option Text → Text
service_label none = codes "your project"
service_label (some []) = codes "your project"
service_label (some (c ∷ s)) = spaced (c ∷ s)

unfoldable pub opener : Lead → Db → Text
unfolding first_template load_settings
opener lead d =
    let settings : Settings = load_settings d in
    let r = render_template (first_template d.templates) (
      (codes "firstName", get_or lead.first_name (codes "there"))
      ∷ (codes "agentName", settings.agent_name)
      ∷ (codes "businessName", settings.business_name)
      ∷ (codes "serviceLabel", service_label lead.service_requested)
      ∷ (codes "city", get_or lead.city (codes "your area"))
      ∷ []) in
    r.text

abbrev pub touch_key : ℕ → String
touch_key lead_id = "first_touch:" +++ show_ℕ lead_id

-- What the processor writes into its message and asks the gate, in the form of the message path, whose
-- settings, consent and suppression this file repeats.
abbrev pub touch_args : ℕ → ℕ → ComposeArgs
touch_args lead_id conversation_id = record {
  lead_id = lead_id;
  conversation_id = conversation_id;
  channel = sms;
  template_key = "first_touch";
  body = none;
  dedupe_scope = "first_touch";
  follow_ups_sent_in_window = none;
}

-- The two rows, before the lead moves on.
abbrev pub add_touch : Lead → Conversation → Text → Option Schedule → Db → Db
add_touch lead c text schedule d =
    let args = touch_args lead.id c.id in
    record d {
      next_id = suc (suc d.next_id);
      messages = d.messages ++ message_row args text (touch_key lead.id) schedule d.next_id ∷ [];
      outbox = d.outbox ++ outbox_row args lead text (touch_key lead.id) d.next_id ∷ [];
    }

-- What follows the gate's verdict.
unfoldable pub touch : Lead → Conversation → Text → GateVerdict → World → Outcome FirstTouchResult
unfolding move_unless bind
touch lead c text (rejected code why) w = ok (blocked code) (record w {
  db = audit "first_touch.blocked" lead.id (emit_event lead.id "message.blocked" w.db);
})
touch lead c text (allowed schedule) w =
    let id = w.db.next_id in
    bind
      (move_unless (assert_transition lead.state contacted) (sent_queued (suc id)) lead.id contacted
        (record w { db = add_touch lead c text schedule w.db }))
      (λ r w'. ok r (
        enqueue "messaging-out" ("relay:" +++ show_ℕ (suc id)) (messaging_out_job (suc id)) 0
          (record w' {
            db = audit "first_touch.queued" id (emit_event lead.id "message.requested" w'.db);
          })))

module _ (local_hour : String → ℕ → ℕ) (now : ℕ) where
  unfoldable pub touch_in : Lead → Conversation → World → Outcome FirstTouchResult
  unfolding touch is_duplicate
  touch_in lead c w =
      if is_duplicate c.id (some (touch_key lead.id)) w.db.messages
      then ok duplicate w
      else let text = opener lead w.db in
        touch lead c text
          (evaluate_policy local_hour (context_of (touch_args lead.id c.id) now lead w.db)
            (reply_with text))
          w

  unfoldable pub touch_for : ℕ → Option Lead → World → Outcome FirstTouchResult
  unfolding touch_in ensure_conversation
  touch_for lead_id none w = error ("lead " +++ show_ℕ lead_id +++ " not found") w
  touch_for lead_id (some lead) w =
      let (c, d) = ensure_conversation lead.id w.db in touch_in lead c (record w { db = d })

  unfoldable pub process_first_touch : ℕ → World → Outcome FirstTouchResult
  unfolding touch_for settle
  process_first_touch lead_id = with_tenant (λ w. touch_for lead_id (lead_with lead_id w.db) w)
