-- ===== src/Worker/Messaging.antt =====
-- apps/worker/src/messaging.ts: the path that a follow-up message takes, from the template
-- through the gate to the outbox. `digest body` stands for the first twelve hexadecimal digits of the
-- SHA-256 of the body and `local_hour` for the hour that Intl.DateTimeFormat prints.
pub mod Laws
pub mod Consent
pub mod Once
use insurnace_automations.Base.{
  ℕ, suc, ◌+◌, String, ◌+++◌, Bool, true, false, ◌&&◌, Option, none, some, List, [], ◌∷◌, ◌++◌, map,
  Text, codes, find, any, filter, get_or, str_eq, ◌==◌, if◌then◌else◌,
}
use insurnace_automations.Base.Show.{show_ℕ}
use insurnace_automations.Core.Types.{
  Channel, sms, email, channel_name, channel_eq, ConsentStatus, unknown,
}
use insurnace_automations.Core.Policy.{
  PolicyContext, ProposedAction, GateRejectCode, GateVerdict, allowed, rejected, Schedule,
  evaluate_policy,
}
use insurnace_automations.Core.Templating.{Vars, render_template}
use insurnace_automations.Worker.Store.{
  messaging_out_job, Lead, Message, MessageStatus, Direction, Outbox, OutboxStatus, SendPayload,
  ConsentRecord, MessageTemplate, TenantSettings, Db, World, Outcome, ok, error, enqueue,
  emit_event, lead_with, is_duplicate,
}

pub record ComposeArgs : Type 0 where
  pub lead_id : ℕ
  pub conversation_id : ℕ
  pub channel : Channel
  pub template_key : String
  pub body : Option Text
  pub dedupe_scope : String
  pub follow_ups_sent_in_window : Option ℕ

pub data ComposeResult : Type 0 where
  queued : (message_id outbox_id : ℕ) → ComposeResult
  blocked : GateRejectCode → ComposeResult
  duplicate : ComposeResult

abbrev pub contact_for : Lead → Channel → Option String
contact_for lead email = lead.email_normalized
contact_for lead _ = lead.phone_e164

-- `x || d` on texts
abbrev pub text_or : Text → Text → Text
text_or [] d = d
text_or (c ∷ s) d = c ∷ s

pub record Settings : Type 0 where
  pub business_name : Text
  pub agent_name : Text
  pub quiet_hours_start : ℕ
  pub quiet_hours_end : ℕ
  pub follow_up_cap : ℕ
  pub timezone : String

unfoldable pub load_settings : Db → Settings
load_settings d = elim d.settings [
  | none ↦ record {
    business_name = codes "our team";
    agent_name = codes "Ava";
    quiet_hours_start = 8;
    quiet_hours_end = 21;
    follow_up_cap = 5;
    timezone = get_or d.timezone "America/Chicago";
  }
  | some s ↦ record {
    business_name = text_or s.business_name (codes "our team");
    agent_name = text_or s.agent_name (codes "Ava");
    quiet_hours_start = s.quiet_hours_start;
    quiet_hours_end = s.quiet_hours_end;
    follow_up_cap = s.follow_up_cap;
    timezone = get_or d.timezone "America/Chicago";
  }
]

-- The text that stands for a missing template; the dash in it is U+2014.
unfoldable pub default_template : Text
default_template =
    codes "Hi {{firstName}}, this is {{agentName}} from {{businessName}} "
    ++ 8212 ∷ []
    ++ codes " just following up. Reply STOP to opt out."

unfoldable pub load_template : String → Db → Text
unfolding default_template
load_template key d = elim (find (λ t. str_eq t.key key) d.templates) [
  | none ↦ default_template
  | some t ↦ t.body
]

unfoldable pub last_status : List ConsentRecord → ConsentStatus
last_status [] = unknown
last_status (c ∷ []) = c.status
last_status (c ∷ d ∷ cs) = last_status (d ∷ cs)

unfoldable pub current_consent : ℕ → Channel → Db → ConsentStatus
unfolding last_status
current_consent lead_id channel d =
    last_status (filter (λ c. (c.lead_id == lead_id) && channel_eq c.channel channel) d.consents)

-- `isSuppressed`: a missing or empty contact counts as suppressed; the channel is not compared.
unfoldable pub is_suppressed : Option String → Db → Bool
is_suppressed none d = true
is_suppressed (some contact) d =
    if str_eq contact "" then true else any (λ s. str_eq s.value contact) d.suppressions

-- `.replace(/_/g, " ")`
abbrev pub spaced : Text → Text
spaced = map (λ c. if c == b'_' then 32 else c)

unfoldable pub body_of : ComposeArgs → Lead → Db → Text
unfolding load_settings load_template
body_of args lead d = elim (get_or args.body []) [
  | c ∷ s ↦ c ∷ s
  | [] ↦
      (let settings : Settings = load_settings d in
        let r = render_template (load_template args.template_key d) (
          (codes "firstName", get_or lead.first_name (codes "there"))
          ∷ (codes "agentName", settings.agent_name)
          ∷ (codes "businessName", settings.business_name)
          ∷ (codes "serviceLabel", spaced (get_or lead.service_requested (codes "your project")))
          ∷ (codes "city", get_or lead.city (codes "your area"))
          ∷ []) in
        r.text)
]

-- The context that the gate is given at the time `now`.
unfoldable pub context_of : ComposeArgs → ℕ → Lead → Db → PolicyContext
unfolding load_settings current_consent is_suppressed
context_of args now lead d =
    let settings : Settings = load_settings d in
    record {
      channel = args.channel;
      consent = record {
        channel = args.channel;
        status = current_consent args.lead_id args.channel d;
      };
      is_suppressed = is_suppressed (contact_for lead args.channel) d;
      quiet_hours = record {
        start_hour = settings.quiet_hours_start;
        end_hour = settings.quiet_hours_end;
        timezone = settings.timezone;
      };
      now = now;
      follow_ups_sent_in_window = get_or args.follow_ups_sent_in_window 0;
      follow_up_cap = settings.follow_up_cap;
      delivery_lockout = false;
      approved_knowledge = [];
    }

abbrev pub reply_with : Text → ProposedAction
reply_with body = record { action = "send_reply"; reply_text = some body; knowledge_refs = none }

-- The two rows that a message is written as.
abbrev pub message_row : ComposeArgs → Text → String → Option Schedule → ℕ → Message
message_row args body key schedule id = record {
  id = id;
  conversation_id = args.conversation_id;
  direction = Direction.outbound;
  channel = args.channel;
  body = body;
  template_key = some args.template_key;
  dedupe_key = some key;
  provider_sid = none;
  status = MessageStatus.queued;
  scheduled_for = schedule;
}

abbrev pub outbox_row : ComposeArgs → Lead → Text → String → ℕ → Outbox
outbox_row args lead body key message_id = record {
  id = suc message_id;
  aggregate_id = message_id;
  intent_type = channel_name args.channel +++ ".send";
  payload = record {
    message_id = message_id;
    to = contact_for lead args.channel;
    body = body;
    dedupe_key = key;
  };
  status = OutboxStatus.pending;
  attempts = 0;
}

module _ (digest : Text → String) (local_hour : String → ℕ → ℕ) where
  abbrev pub key_of : ComposeArgs → Text → String
  key_of args body = args.dedupe_scope +++ ":" +++ digest body

  -- What follows the gate's approval.
  unfoldable pub write_message :
      ComposeArgs → Lead → Text → Option Schedule → World → Outcome ComposeResult
  unfolding is_duplicate
  write_message args lead body schedule w =
      let key = key_of args body in
      let id = w.db.next_id in
      if is_duplicate args.conversation_id (some key) w.db.messages
      then ok duplicate w
      else ok (queued id (suc id)) (
          enqueue "messaging-out" ("relay:" +++ show_ℕ (suc id)) (messaging_out_job (suc id)) 0
            (record w {
              db = emit_event args.lead_id "message.requested" (record w.db {
                next_id = suc (suc id);
                messages = w.db.messages ++ message_row args body key schedule id ∷ [];
                outbox = w.db.outbox ++ outbox_row args lead body key id ∷ [];
              });
            }))

  unfoldable pub deliver : ComposeArgs → Lead → Text → GateVerdict → World → Outcome ComposeResult
  unfolding write_message
  deliver args lead body (rejected code why) w =
      ok (blocked code) (record w { db = emit_event args.lead_id "message.blocked" w.db })
  deliver args lead body (allowed schedule) w = write_message args lead body schedule w

  unfoldable pub compose_for : ℕ → ComposeArgs → Option Lead → World → Outcome ComposeResult
  unfolding deliver
  compose_for now args none w = error ("lead " +++ show_ℕ args.lead_id +++ " not found") w
  compose_for now args (some lead) w =
      let body = body_of args lead w.db in
      let verdict = evaluate_policy local_hour (context_of args now lead w.db) (reply_with body) in
      deliver args lead body verdict w

  unfoldable pub compose_and_enqueue : ℕ → ComposeArgs → World → Outcome ComposeResult
  unfolding compose_for
  compose_and_enqueue now args w = compose_for now args (lead_with args.lead_id w.db) w
