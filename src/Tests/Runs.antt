-- ===== src/Tests/Runs.antt =====
-- The run of the follow-up after no reply.
use insurnace_automations.Base.{ℕ, ◌*◌, [], ◌∷◌, refl, arith}
use insurnace_automations.Core.Types.{contacted}
use insurnace_automations.Core.Workflow.{WorkflowDefinition, send_sms, no_reply, create_task, stop}
use insurnace_automations.Worker.Runs.{advance_run}
use insurnace_automations.Worker.Runs.Progress.{Steps, advance-Steps}
use insurnace_automations.Worker.Runs.Ends.{Ended, calls, run-ends}
use insurnace_automations.Tests.Data.{noon, no_digest, lead_in, world_in, run}

abbrev def : WorkflowDefinition
def = record {
  key = "new_lead_no_reply";
  version = 1;
  trigger = no_reply;
  steps =
      record { key = "sms_1"; after_seconds = 300; action = send_sms "followup_1" }
      ∷ record { key = "task"; after_seconds = 172800; action = create_task "Call" }
      ∷ record { key = "stop"; after_seconds = 259200; action = stop }
      ∷ [];
}

abbrev clock : ℕ → ℕ
clock n = 1000 * n

advance-Steps_example :
    Steps no_digest noon 0 1 def 5 run
      (world_in contacted)
      (advance_run no_digest noon 0 1 def 5 (world_in contacted))
advance-Steps_example =
    advance-Steps no_digest noon 0 1 def 5 run (lead_in contacted) (world_in contacted) refl refl
      refl

run-ends_example :
    Ended no_digest noon clock 1 def 5 (calls no_digest noon clock 1 def 5 3 (world_in contacted))
run-ends_example =
    run-ends no_digest noon clock 1 def 5 2 run (lead_in contacted) (world_in contacted) refl refl
      refl (omega arith)
