-- ===== src/Tests/Data.antt =====
-- A small tenant: one lead in conversation, who consents, and one message that waits.
use insurnace_automations.Base.{ℕ, String, Text, false, some, none, [], ◌∷◌, codes}
use insurnace_automations.Core.Types.{LeadState, sms, ConsentStatus}
use insurnace_automations.Core.Policy.{send_now}
use insurnace_automations.Worker.Store.{
  Lead, Conversation, Message, MessageStatus, Direction, Outbox, OutboxStatus, WorkflowRun,
  RunStatus, World,
}

abbrev pub noon : String → ℕ → ℕ
noon zone instant = 12

abbrev pub no_digest : Text → String
no_digest body = "0123456789ab"

abbrev pub phone : String
phone = "+13145550100"

abbrev pub lead_in : LeadState → Lead
lead_in state = record {
  id = 1;
  state = state;
  first_name = some (codes "Ann");
  phone_e164 = some phone;
  email_normalized = none;
  service_requested = none;
  city = none;
  pre_takeover_state = none;
  first_reply_at = none;
  created_at = 0;
  region = none;
  postal_code = none;
  score_band = none;
  assigned_user_id = none;
  qualified_at = none;
  last_name = none;
  source_id = none;
  score_current = none;
}

abbrev pub conversation : Conversation
conversation = record { id = 2; lead_id = 1; channel = sms; ai_paused = false }

abbrev pub message : Message
message = record {
  id = 3;
  conversation_id = 2;
  direction = Direction.outbound;
  channel = sms;
  body = codes "Hi Ann";
  template_key = none;
  dedupe_key = some "ft:1";
  provider_sid = some "SM1";
  status = MessageStatus.queued;
  scheduled_for = some send_now;
}

abbrev pub outbox_row : Outbox
outbox_row = record {
  id = 4;
  aggregate_id = 3;
  intent_type = "sms.send";
  payload = record { message_id = 3; to = some phone; body = codes "Hi Ann"; dedupe_key = "ft:1" };
  status = OutboxStatus.pending;
  attempts = 0;
}

abbrev pub run : WorkflowRun
run = record {
  id = 5;
  lead_id = 1;
  workflow_key = "new_lead_no_reply";
  status = RunStatus.running;
  stop_reason = none;
  current_step = 0;
}

abbrev pub world_in : LeadState → World
world_in state = record {
  db = record {
    next_id = 6;
    settings = none;
    timezone = none;
    templates = [];
    leads = lead_in state ∷ [];
    conversations = conversation ∷ [];
    messages = message ∷ [];
    outbox = outbox_row ∷ [];
    consents = record { lead_id = 1; channel = sms; status = ConsentStatus.granted } ∷ [];
    suppressions = [];
    runs = run ∷ [];
    steps = [];
    tasks = [];
    events = [];
    audits = [];
    deliveries = [];
    calendars = record { id = 9; calendar_id = "primary" } ∷ [];
    holds = [];
    appointments = [];
    knowledge = [];
    qualifications = [];
    interactions = [];
    assignments = [];
    memberships = [];
    schedules = [];
    territories = [];
    round_robin_cursor = none;
    crm_mappings = [];
    outcomes = [];
    webhooks = [];
    sources = [];
    idempotency = [];
    identities = [];
    scores = [];
    crm_connection = none;
    crm_syncs = [];
  };
  jobs = [];
  sends = [];
  crm_calls = [];
}
