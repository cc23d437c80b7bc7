-- ===== src/Worker/Runs.antt =====
-- apps/worker/src/processors/workflow.ts: the runs of the follow-up sequences. `digest` and
-- `local_hour` are those of the message path, and `now` is the clock.
pub mod Actions
pub mod Progress
pub mod Ends
pub mod Start
use insurnace_automations.Base.{
  ℕ, suc, ◌+◌, ◌*◌, String, ◌+++◌, Bool, true, false, ◌&&◌, Option, none, some, List, [], ◌∷◌, ◌++◌,
  Text, find, update_where, get_or, str_eq, ◌==◌, if◌then◌else◌,
}
use insurnace_automations.Base.Show.{show_ℕ}
use insurnace_automations.Core.Types.{LeadState, Channel, sms, email}
use insurnace_automations.Core.Workflow.{
  WorkflowTrigger, WorkflowAction, send_sms, send_email, create_task, notify_user, stop,
  WorkflowStepDef, WorkflowDefinition, should_stop, step_at, find_workflow,
}
use insurnace_automations.Worker.Store.{
  workflow_job, Lead, Conversation, WorkflowRun, RunStatus, WorkflowStep, Task, Db, World, Outcome,
  ok, error, settle, bind, with_tenant, enqueue, emit_event, audit, lead_with, conversation_of,
}
use insurnace_automations.Worker.Messaging.{
  ComposeArgs, ComposeResult, queued, blocked, duplicate, compose_and_enqueue,
}

pub data WorkflowResult : Type 0 where
  started : (run_id : ℕ) → WorkflowResult
  step_executed : (run_id : ℕ) → WorkflowResult
  stopped : (reason : String) → WorkflowResult
  completed : (run_id : ℕ) → WorkflowResult
  no_workflow : WorkflowResult

abbrev pub is_active : RunStatus → Bool
is_active RunStatus.running = true
is_active _ = false

abbrev pub run_with : ℕ → Db → Option WorkflowRun
run_with id d = find (λ r. r.id == id) d.runs

abbrev pub update_run : ℕ → (WorkflowRun → WorkflowRun) → Db → Db
update_run id f d = record d { runs = update_where (λ r. r.id == id) f d.runs }

-- The job of a step and its delay in milliseconds.
abbrev pub schedule_step : ℕ → WorkflowTrigger → ℕ → ℕ → Option WorkflowStepDef → World → World
schedule_step lead_id trigger run_id index none w = w
schedule_step lead_id trigger run_id index (some step) w =
    enqueue "workflow" ("wf:" +++ show_ℕ run_id +++ ":" +++ show_ℕ index)
      (workflow_job lead_id trigger run_id step.key) (step.after_seconds * 1000) w

abbrev pub same_run : ℕ → String → WorkflowRun → Bool
same_run lead_id key r = (r.lead_id == lead_id) && str_eq r.workflow_key key && is_active r.status

abbrev pub new_run : ℕ → WorkflowDefinition → ℕ → WorkflowRun
new_run lead_id def id = record {
  id = id;
  lead_id = lead_id;
  workflow_key = def.key;
  status = RunStatus.running;
  stop_reason = none;
  current_step = 0;
}

-- The transaction of `startRun`: the run, found or inserted.
unfoldable pub open_run : ℕ → WorkflowDefinition → Db → ℕ × Db
open_run lead_id def d = elim (find (same_run lead_id def.key) d.runs) [
  | some r ↦ (r.id, d)
  | none ↦ (
    d.next_id,
    emit_event lead_id "workflow.started"
        (record d { next_id = suc d.next_id; runs = d.runs ++ new_run lead_id def d.next_id ∷ [] }),
  )
]

unfoldable pub start_run : ℕ → WorkflowDefinition → World → WorkflowResult × World
unfolding open_run step_at
start_run lead_id def w =
    let (id, d) = open_run lead_id def w.db in
    (started id, schedule_step lead_id def.trigger id 0 (step_at def 0) (record w { db = d }))

abbrev pub stop_run : ℕ → ℕ → String → Db → Db
stop_run lead_id run_id reason d =
    emit_event lead_id "workflow.stopped" (
      update_run run_id (λ r. record r { status = RunStatus.stopped; stop_reason = some reason }) d)

abbrev pub complete_run : ℕ → ℕ → Db → Db
complete_run lead_id run_id d =
    emit_event lead_id "workflow.completed"
      (update_run run_id (λ r. record r { status = RunStatus.completed }) d)

abbrev pub result_name : ComposeResult → String
result_name (queued m o) = "queued"
result_name (blocked code) = "blocked"
result_name duplicate = "duplicate"

abbrev pub action_name : WorkflowAction → String
action_name (send_sms k) = "send_sms"
action_name (send_email k) = "send_email"
action_name (create_task n) = "create_task"
action_name (notify_user n) = "notify_user"
action_name stop = "stop"

abbrev pub add_task : ℕ → String → World → World
add_task lead_id note w = record w {
  db = record w.db { tasks = w.db.tasks ++ record { lead_id = lead_id; note = note } ∷ [] };
}

abbrev pub is_stop : WorkflowAction → Bool
is_stop stop = true
is_stop _ = false

module _ (digest : Text → String) (local_hour : String → ℕ → ℕ) (now lead_id : ℕ)
    (def : WorkflowDefinition) where
  abbrev pub step_args : Channel → String → String → Conversation → ComposeArgs
  step_args channel template_key step_key convo = record {
    lead_id = lead_id;
    conversation_id = convo.id;
    channel = channel;
    template_key = template_key;
    body = none;
    dedupe_scope = "wf:" +++ def.key +++ ":" +++ step_key;
    follow_ups_sent_in_window = none;
  }

  pub send_step : Channel → String → String → Option Conversation → World → Outcome Unit
  unfolding bind
  send_step channel template_key step_key none w = ok tt w
  send_step channel template_key step_key (some convo) w =
      bind
        (compose_and_enqueue digest local_hour now (step_args channel template_key step_key convo)
          w)
        (λ r w'.
          ok tt
            (record w' { db = emit_event lead_id ("workflow.message_" +++ result_name r) w'.db }))

  -- The switch of `executeAction`.
  pub act : String → WorkflowAction → World → Outcome Unit
  unfolding send_step
  act step_key (send_sms key) w = send_step sms key step_key (conversation_of lead_id w.db) w
  act step_key (send_email key) w = send_step email key step_key (conversation_of lead_id w.db) w
  act step_key (create_task note) w = ok tt (add_task lead_id note w)
  act step_key (notify_user note) w = ok tt (add_task lead_id note w)
  act step_key stop w = ok tt w

  unfoldable pub execute_action : String → WorkflowAction → World → Outcome Unit
  unfolding act bind
  execute_action step_key action w =
      bind (act step_key action w) (λ u w'.
        ok tt (record w' { db = audit ("workflow." +++ action_name action) lead_id w'.db }))

  -- What follows the action of the step with the number `index`.
  unfoldable pub move_on : ℕ → ℕ → WorkflowStepDef → World → World
  unfolding step_at
  move_on run_id index step w =
      let d =
        update_run run_id (λ r. record r { current_step = index + 1 })
          (record w.db {
            steps =
                w.db.steps
                ++ record { run_id = run_id; step_key = step.key; executed_at = now } ∷ [];
          }) in
      elim (step_at def (index + 1)) [
        | none ↦ record w { db = complete_run lead_id run_id d }
        | some next ↦
            schedule_step lead_id def.trigger run_id (index + 1) (some next) (record w { db = d })
      ]

  pub run_step : ℕ → ℕ → Option WorkflowStepDef → World → Outcome WorkflowResult
  unfolding execute_action move_on bind
  run_step run_id index none w =
      ok (completed run_id) (record w { db = complete_run lead_id run_id w.db })
  run_step run_id index (some step) w =
      if is_stop step.action
      then ok (completed run_id) (record w { db = complete_run lead_id run_id w.db })
      else bind (execute_action step.key step.action w)
          (λ u w'. ok (step_executed run_id) (move_on run_id index step w'))

  pub check_stop : ℕ → ℕ → Option String → World → Outcome WorkflowResult
  unfolding run_step
  check_stop run_id index (some reason) w =
      ok (stopped reason) (record w { db = stop_run lead_id run_id reason w.db })
  check_stop run_id index none w = run_step run_id index (step_at def index) w

  pub with_lead : ℕ → ℕ → Option Lead → World → Outcome WorkflowResult
  unfolding check_stop should_stop
  with_lead run_id index none w = ok (stopped "lead_missing") w
  with_lead run_id index (some lead) w =
      check_stop run_id index
        (should_stop (record {
          state = lead.state;
          complaint_detected = false;
          delivery_failure_lockout = false;
        }))
        w

  pub with_run : ℕ → Option WorkflowRun → World → Outcome WorkflowResult
  unfolding with_lead
  with_run run_id none w = ok (stopped "not_running") w
  with_run run_id (some run) w =
      if is_active run.status
      then with_lead run_id run.current_step (lead_with lead_id w.db) w
      else ok (stopped (get_or run.stop_reason "not_running")) w

  unfoldable pub advance_run : ℕ → World → Outcome WorkflowResult
  unfolding with_run settle
  advance_run run_id = with_tenant (λ w. with_run run_id (run_with run_id w.db) w)

-- `processWorkflow`
module _ (digest : Text → String) (local_hour : String → ℕ → ℕ) (now lead_id : ℕ) where
  pub with_workflow : Option WorkflowDefinition → Option ℕ → World → Outcome WorkflowResult
  unfolding start_run advance_run
  with_workflow none run_id w = ok no_workflow w
  with_workflow (some def) none w = let (r, w') = start_run lead_id def w in ok r w'
  with_workflow (some def) (some run_id) w = advance_run digest local_hour now lead_id def run_id w

  unfoldable pub process_workflow : WorkflowTrigger → Option ℕ → World → Outcome WorkflowResult
  unfolding with_workflow find_workflow
  process_workflow trigger run_id w = with_workflow (find_workflow trigger) run_id w
