-- ===== src/Core/Workflow.antt =====
-- packages/core/src/workflow.ts: follow-up sequences and the conditions that stop them.
use insurnace_automations.Base.{
  ℕ, String, Bool, Option, none, some, List, [], ◌∷◌, find, get_elem?, ◌+++◌, ◌==◌, if◌then◌else◌,
}
use insurnace_automations.Core.Types.{
  LeadState, opted_out, booked, human_owned, won, lost, archived, state_name,
}
use insurnace_automations.Core.StateMachine.{has}

pub data WorkflowTrigger : Type 0 where
  lead_received no_reply replied_not_qualified qualified_not_booked : WorkflowTrigger
  appointment_booked appointment_cancelled no_show human_takeover : WorkflowTrigger
  deal_won deal_lost opt_out : WorkflowTrigger

abbrev pub trigger_index : WorkflowTrigger → ℕ
trigger_index lead_received = 0
trigger_index no_reply = 1
trigger_index replied_not_qualified = 2
trigger_index qualified_not_booked = 3
trigger_index appointment_booked = 4
trigger_index appointment_cancelled = 5
trigger_index no_show = 6
trigger_index human_takeover = 7
trigger_index deal_won = 8
trigger_index deal_lost = 9
trigger_index opt_out = 10

pub data WorkflowAction : Type 0 where
  send_sms : (template_key : String) → WorkflowAction
  send_email : (template_key : String) → WorkflowAction
  create_task : (note : String) → WorkflowAction
  notify_user : (note : String) → WorkflowAction
  stop : WorkflowAction

pub record WorkflowStepDef : Type 0 where
  pub key : String
  pub after_seconds : ℕ
  pub action : WorkflowAction

pub record WorkflowDefinition : Type 0 where
  pub key : String
  pub version : ℕ
  pub trigger : WorkflowTrigger
  pub steps : List WorkflowStepDef

-- STOP_STATES
unfoldable pub stop_states : List LeadState
stop_states = opted_out ∷ booked ∷ human_owned ∷ won ∷ lost ∷ archived ∷ []

pub record StopContext : Type 0 where
  pub state : LeadState
  pub complaint_detected : Bool
  pub delivery_failure_lockout : Bool

-- `{ stop, reason }`: the reason, if there is one to stop.
unfoldable pub should_stop : StopContext → Option String
unfolding stop_states
should_stop ctx =
    if has stop_states ctx.state
    then some ("state=" +++ state_name ctx.state)
    else if ctx.complaint_detected
    then some "complaint"
    else if ctx.delivery_failure_lockout
    then some "delivery_failures"
    else none

unfoldable pub step_at : WorkflowDefinition → ℕ → Option WorkflowStepDef
step_at def index = get_elem? def.steps index

abbrev step : String → ℕ → WorkflowAction → WorkflowStepDef
step key after_seconds action = record { key = key; after_seconds = after_seconds; action = action }

-- DEFAULT_WORKFLOWS
unfoldable pub default_workflows : List WorkflowDefinition
default_workflows =
    record {
      key = "new_lead_no_reply";
      version = 1;
      trigger = no_reply;
      steps =
          step "sms_1" 300 (send_sms "followup_1")
          ∷ step "email_1" 3600 (send_email "followup_email_1")
          ∷ step "sms_2" 86400 (send_sms "followup_2")
          ∷ step "task" 172800 (create_task "Call lead — no reply after 2 days")
          ∷ step "stop" 259200 stop
          ∷ [];
    }
    ∷ record {
      key = "qualified_not_booked";
      version = 1;
      trigger = qualified_not_booked;
      steps =
          step "sms_1" 1800 (send_sms "book_reminder_1")
          ∷ step "sms_2" 86400 (send_sms "book_reminder_2")
          ∷ step "task" 172800 (create_task "Qualified but not booked — call")
          ∷ step "stop" 259200 stop
          ∷ [];
    }
    ∷ record {
      key = "no_show_recovery";
      version = 1;
      trigger = no_show;
      steps =
          step "sms_1" 3600 (send_sms "no_show_1")
          ∷ step "task" 86400 (create_task "No-show — reschedule")
          ∷ step "stop" 172800 stop
          ∷ [];
    }
    ∷ []

unfoldable pub find_workflow : WorkflowTrigger → Option WorkflowDefinition
unfolding default_workflows
find_workflow trigger =
    find (λ w. trigger_index w.trigger == trigger_index trigger) default_workflows
