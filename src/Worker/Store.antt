-- ===== src/Worker/Store.antt =====
-- packages/db/src/schema.ts and packages/db/src/client.ts: the tables that the processors use, as the
-- rows of one tenant (the row-level policies hide all others), and transactions. Identifiers are
-- numbers drawn from one counter, rows stand in the order of their insertion, and payloads of events
-- and audit entries are left out. Beside the database the state holds what is outside of it: the
-- jobs enqueued and the requests that the message channel and the CRM have received.
use insurnace_automations.Base.{
  ℕ, suc, String, Bool, false, ◌&&◌, Option, none, some, List, [], ◌∷◌, ◌++◌, Text, find, any,
  update_where, str_eq, ◌==◌,
}
use insurnace_automations.Core.Workflow.{WorkflowTrigger}
use insurnace_automations.Core.Types.{LeadState, Channel, ConsentStatus, ScoreBand}
use insurnace_automations.Core.Policy.{Schedule, KnowledgeType, GateVerdict}
use insurnace_automations.Base.Int.{ℤ}
use insurnace_automations.Core.Scoring.{ScoreLine}
use insurnace_automations.Core.Qualification.{QualificationAnswers}

pub record Lead : Type 0 where
  pub id : ℕ
  pub state : LeadState
  pub first_name : Option Text
  pub phone_e164 : Option String
  pub email_normalized : Option String
  pub service_requested : Option Text
  pub city : Option Text
  pub pre_takeover_state : Option LeadState  -- customFields.preTakeoverState
  pub first_reply_at : Option ℕ
  pub created_at : ℕ
  pub region : Option Text
  pub postal_code : Option Text
  pub score_band : Option ScoreBand
  pub assigned_user_id : Option ℕ
  pub qualified_at : Option ℕ
  pub last_name : Option Text
  pub source_id : Option ℕ
  pub score_current : Option ℤ

pub record Conversation : Type 0 where
  pub id : ℕ
  pub lead_id : ℕ
  pub channel : Channel
  pub ai_paused : Bool

pub data MessageStatus : Type 0 where
  queued sent delivered undelivered failed received : MessageStatus

pub data Direction : Type 0 where
  inbound outbound : Direction

pub record Message : Type 0 where
  pub id : ℕ
  pub conversation_id : ℕ
  pub direction : Direction
  pub channel : Channel
  pub body : Text
  pub template_key : Option String
  pub dedupe_key : Option String
  pub provider_sid : Option String
  pub status : MessageStatus
  pub scheduled_for : Option Schedule  -- policySnapshot.scheduledFor

pub data OutboxStatus : Type 0 where
  pending dispatched failed : OutboxStatus

pub record SendPayload : Type 0 where
  pub message_id : ℕ
  pub to : Option String
  pub body : Text
  pub dedupe_key : String

pub record Outbox : Type 0 where
  pub id : ℕ
  pub aggregate_id : ℕ
  pub intent_type : String
  pub payload : SendPayload
  pub status : OutboxStatus
  pub attempts : ℕ

pub record ConsentRecord : Type 0 where
  pub lead_id : ℕ
  pub channel : Channel
  pub status : ConsentStatus

pub record SuppressionEntry : Type 0 where
  pub channel : Channel
  pub value : String

pub data RunStatus : Type 0 where
  running completed stopped : RunStatus

pub record WorkflowRun : Type 0 where
  pub id : ℕ
  pub lead_id : ℕ
  pub workflow_key : String
  pub status : RunStatus
  pub stop_reason : Option String
  pub current_step : ℕ

pub record WorkflowStep : Type 0 where
  pub run_id : ℕ
  pub step_key : String
  pub executed_at : ℕ

pub record Task : Type 0 where
  pub lead_id : ℕ
  pub note : String

pub record LeadEvent : Type 0 where
  pub lead_id : ℕ
  pub type : String

pub record AuditLog : Type 0 where
  pub action : String
  pub entity_id : ℕ

pub record DeliveryEvent : Type 0 where
  pub message_id : ℕ
  pub status : MessageStatus

pub record MessageTemplate : Type 0 where
  pub key : String
  pub body : Text

pub data HoldStatus : Type 0 where
  held confirmed released : HoldStatus

pub record SlotHold : Type 0 where
  pub id : ℕ
  pub calendar_connection_id : ℕ
  pub lead_id : ℕ
  pub starts_at : ℕ
  pub ends_at : ℕ
  pub status : HoldStatus
  pub expires_at : ℕ

pub record Appointment : Type 0 where
  pub id : ℕ
  pub lead_id : ℕ
  pub calendar_connection_id : ℕ
  pub external_event_id : String
  pub starts_at : ℕ
  pub ends_at : ℕ

pub record CalendarConnection : Type 0 where
  pub id : ℕ
  pub calendar_id : String

pub record KnowledgeEntry : Type 0 where
  pub id : String
  pub type : KnowledgeType
  pub approved : Bool
  pub valid_from : Option ℕ
  pub valid_until : Option ℕ

pub record QualificationRow : Type 0 where
  pub lead_id : ℕ
  pub schema_key : String
  pub answers : QualificationAnswers
  pub complete : Bool

-- `gateVerdict` of an interaction: what was done with the model's turn.
pub data Disposal : Type 0 where
  fallback : Disposal
  redirected : (to : String) → Disposal
  judged : GateVerdict → Disposal

-- The prompt's hash, the parsed turn and the time that the call took are left out.
pub record AiInteraction : Type 0 where
  pub lead_id : ℕ
  pub conversation_id : ℕ
  pub raw_response : Text
  pub gate_verdict : Disposal

pub data AssignmentRole : Type 0 where
  primary fallback : AssignmentRole

pub record LeadAssignment : Type 0 where
  pub lead_id : ℕ
  pub user_id : Option ℕ
  pub role : AssignmentRole
  pub reason : String
  pub acknowledged_at : Option ℕ

pub record Membership : Type 0 where
  pub user_id : ℕ
  pub role : String

pub record UserSchedule : Type 0 where
  pub user_id : ℕ
  pub available : Bool
  pub specialties : List Text
  pub workload_cap : ℕ

pub record Territory : Type 0 where
  pub user_id : ℕ
  pub key : Text

pub record CrmMapping : Type 0 where
  pub lead_id : ℕ
  pub contact_external_id : String
  pub deal_external_id : String

pub data OutcomeType : Type 0 where
  won lost : OutcomeType

pub record OutcomeRow : Type 0 where
  pub lead_id : ℕ
  pub type : OutcomeType
  pub amount : Option ℤ

-- A value of a JSON object: `other` is an object, an array or a fraction, with what String() makes of it.
pub data Raw : Type 0 where
  null : Raw
  text : Text → Raw
  number : ℤ → Raw
  flag : Bool → Raw
  other : (shown : Text) → Raw

pub record RawWebhook : Type 0 where
  pub id : ℕ
  pub source_id : ℕ
  pub payload : List (String × Raw)

-- `SourceMapping` of apps/worker/src/mapping.ts: the key of the payload for each field.
pub record SourceMapping : Type 0 where
  pub name : Option String
  pub first_name : Option String
  pub last_name : Option String
  pub email : Option String
  pub phone : Option String
  pub city : Option String
  pub region : Option String
  pub postal_code : Option String
  pub service : Option String

pub record LeadSource : Type 0 where
  pub id : ℕ
  pub signing_secret : String
  pub mapping : SourceMapping
  pub active : Bool

pub record IngestIdempotency : Type 0 where
  pub source_id : ℕ
  pub idempotency_key : String
  pub lead_id : Option ℕ

pub record LeadIdentity : Type 0 where
  pub lead_id : ℕ
  pub kind : String
  pub value : String

pub record LeadScore : Type 0 where
  pub lead_id : ℕ
  pub model_version : String
  pub total : ℤ
  pub band : ScoreBand
  pub breakdown : List ScoreLine

pub data SyncStatus : Type 0 where
  pending synced failed : SyncStatus

pub record CrmSyncRow : Type 0 where
  pub lead_id : ℕ
  pub status : SyncStatus
  pub last_error : Option String

pub record TenantSettings : Type 0 where
  pub business_name : Text
  pub agent_name : Text
  pub quiet_hours_start : ℕ
  pub quiet_hours_end : ℕ
  pub follow_up_cap : ℕ

pub record Db : Type 0 where
  pub next_id : ℕ
  pub settings : Option TenantSettings
  pub timezone : Option String  -- tenants.timezone
  pub templates : List MessageTemplate
  pub leads : List Lead
  pub conversations : List Conversation
  pub messages : List Message
  pub outbox : List Outbox
  pub consents : List ConsentRecord
  pub suppressions : List SuppressionEntry
  pub runs : List WorkflowRun
  pub steps : List WorkflowStep
  pub tasks : List Task
  pub events : List LeadEvent
  pub audits : List AuditLog
  pub deliveries : List DeliveryEvent
  pub calendars : List CalendarConnection
  pub holds : List SlotHold
  pub appointments : List Appointment
  pub knowledge : List KnowledgeEntry
  pub qualifications : List QualificationRow
  pub interactions : List AiInteraction
  pub assignments : List LeadAssignment
  pub memberships : List Membership
  pub schedules : List UserSchedule
  pub territories : List Territory
  pub round_robin_cursor : Option ℕ  -- routingState
  pub crm_mappings : List CrmMapping
  pub outcomes : List OutcomeRow
  pub webhooks : List RawWebhook
  pub sources : List LeadSource
  pub idempotency : List IngestIdempotency
  pub identities : List LeadIdentity
  pub scores : List LeadScore
  pub crm_connection : Option String  -- the access token
  pub crm_syncs : List CrmSyncRow

-- A request to the CRM.
pub data CrmCall : Type 0 where
  contact :
      (external_id : Option String) (first_name last_name : Option Text)
      (email phone : Option String) (source : Option ℕ)
      → CrmCall
  deal :
      (external_id : Option String) (contact_id : String) (name : Text) (stage : String)
      (score : Option ℤ) (band : Option ScoreBand)
      → CrmCall
  note : (contact_id : String) (answers : QualificationAnswers) → CrmCall
  meeting : (contact_id : String) (starts_at ends_at : ℕ) → CrmCall

pub record IngestJob : Type 0 where
  pub source_id : ℕ
  pub raw_webhook_id : ℕ
  pub idempotency_key : String

-- JobMap of packages/queue/src/index.ts: what the jobs of the queues carry, less the tenant and the
-- correlation id. The jobs of the calendar and of the provider's events are enqueued outside of the
-- model.
pub data JobData : Type 0 where
  ingest_job : (job : IngestJob) → JobData
  first_touch_job : (lead_id : ℕ) → JobData
  messaging_out_job : (outbox_id : ℕ) → JobData
  conversation_job : (lead_id : ℕ) → JobData
  crm_sync_job : (lead_id : ℕ) → JobData
  routing_job : (lead_id : ℕ) → JobData
  escalation_job : (lead_id step_index : ℕ) → JobData
  workflow_job :
      (lead_id : ℕ) (trigger : WorkflowTrigger) (run_id : ℕ) (step_key : String) → JobData

pub record Job : Type 0 where
  pub queue : String
  pub job_id : String
  pub data_of : JobData
  pub delay : ℕ  -- milliseconds; 0 where no delay is given

pub record World : Type 0 where
  pub db : Db
  pub jobs : List Job
  pub sends : List SendPayload
  pub crm_calls : List CrmCall

pub data Outcome (A : Type 0) : Type 0 where
  ok : A → World → Outcome A
  error : String → World → Outcome A

-- What follows a call that may throw.
unfoldable pub bind : {A B : Type 0} → Outcome A → (A → World → Outcome B) → Outcome B
bind (ok a w) f = f a w
bind (error e w) f = error e w

-- The end of a transaction that began in the state given.
unfoldable pub settle : {A : Type 0} → Db → Outcome A → Outcome A
settle before (ok a w) = ok a w
settle before (error e w) = error e (record w { db = before })

-- `withTenant`: a transaction. An error undoes what the body did to the database, and nothing else.
abbrev pub with_tenant : {A : Type 0} → (World → Outcome A) → World → Outcome A
with_tenant body w = settle w.db (body w)

abbrev pub enqueue : String → String → JobData → ℕ → World → World
enqueue queue job_id data_of delay w = record w {
  jobs = w.jobs ++ record { queue = queue; job_id = job_id; data_of = data_of; delay = delay } ∷ [];
}

-- `emitEvent` and `audit` of apps/worker/src/events.ts
abbrev pub emit_event : ℕ → String → Db → Db
emit_event lead_id type d = record d {
  events = d.events ++ record { lead_id = lead_id; type = type } ∷ [];
}

abbrev pub audit : String → ℕ → Db → Db
audit action entity_id d = record d {
  audits = d.audits ++ record { action = action; entity_id = entity_id } ∷ [];
}

abbrev pub lead_with : ℕ → Db → Option Lead
lead_with id d = find (λ l. l.id == id) d.leads

-- `update leads set state = … where id = …`
abbrev pub set_state : ℕ → LeadState → Db → Db
set_state id state d = record d {
  leads = update_where (λ l. l.id == id) (λ l. record l { state = state }) d.leads;
}

-- The first conversation of a lead, in whatever order the database returns them.
abbrev pub conversation_of : ℕ → Db → Option Conversation
conversation_of lead_id d = find (λ c. c.lead_id == lead_id) d.conversations

-- `ensureConversation`
unfoldable pub ensure_conversation : ℕ → Db → Conversation × Db
ensure_conversation lead_id d = elim (conversation_of lead_id d) [
  | some c ↦ (c, d)
  | none ↦
      (let c : Conversation = record {
        id = d.next_id;
        lead_id = lead_id;
        channel = Channel.sms;
        ai_paused = false;
      } in
        (c, record d { next_id = suc d.next_id; conversations = d.conversations ++ c ∷ [] }))
]

-- Whether `messages_dedupe`, unique on conversation and key where there is a key, forbids a message.
abbrev pub same_key : Option String → Option String → Bool
same_key (some k) (some j) = str_eq j k
same_key _ _ = false

unfoldable pub is_duplicate : ℕ → Option String → List Message → Bool
is_duplicate conversation_id key messages =
    any (λ m. (m.conversation_id == conversation_id) && same_key key m.dedupe_key) messages
