-- ===== src/Worker/Runs/Ends.antt =====
-- Repeated calls of `advanceRun` of apps/worker/src/processors/workflow.ts.
use insurnace_automations.Base.{
  ℕ, suc, zero, ◌+◌, ◌≤◌, String, true, false, some, Text, length, arith, ◌≡◌, ◌⊎◌, inl, inr,
}
use insurnace_automations.Core.Workflow.{WorkflowDefinition}
use insurnace_automations.Worker.Store.{Lead, WorkflowRun, World, Outcome, ok, error, lead_with}
use insurnace_automations.Worker.Runs.{WorkflowResult, is_active, run_with, advance_run}
use insurnace_automations.Worker.Runs.Progress.{advance-Steps, ended_stays, GoesOn}

abbrev world_of : Outcome WorkflowResult → World
world_of (ok r w) = w
world_of (error e w) = w

module _ (digest : Text → String) (local_hour : String → ℕ → ℕ) (clock : ℕ → ℕ) (lead_id : ℕ)
    (def : WorkflowDefinition) (id : ℕ) where
  -- The world after a number of calls, the first of them at the time `clock n`.
  pub calls : ℕ → World → World
  calls zero w = w
  calls (suc n) w = calls n (world_of (advance_run digest local_hour (clock n) lead_id def id w))

  abbrev pub Ended : World → Type 0
  Ended w = (run : WorkflowRun) × (run_with id w.db ≡ some run) × (is_active run.status ≡ false)

  stays-Ended :
      (n : ℕ) (run : WorkflowRun) (w : World)
      → run_with id w.db ≡ some run
      → is_active run.status ≡ false
      → Ended (calls n w)
  unfolding calls
  stays-Ended zero run w e over = (run, e, over)
  stays-Ended (suc n) run w e over =
      rw (ended_stays digest local_hour (clock n) lead_id def id run w e over, calls)
        (stays-Ended n run w e over)

  -- A call on the last step ends the run.
  last_ends :
      (run run' : WorkflowRun) (w' : World)
      → length def.steps ≤ run.current_step + 1
      → run_with id w'.db ≡ some run'
      → (is_active run'.status ≡ false) ⊎ GoesOn def run run'
      → Ended w'
  last_ends run run' w' enough found (inl over) = (run', found, over)
  last_ends run run' w' enough found (inr (next, below)) = absurd (omega (arith, below, enough))

  -- A running run of an existing lead has ended after as many calls as its workflow has steps left,
  -- or one if none is left, and stays so: whatever the clock reads and the gate answers, the follow-up
  -- is finite.
  pub run-ends :
      (n : ℕ) (run : WorkflowRun) (lead : Lead) (w : World)
      → run_with id w.db ≡ some run
      → is_active run.status ≡ true
      → lead_with lead_id w.db ≡ some lead
      → length def.steps ≤ run.current_step + suc n
      → Ended (calls (suc n) w)
  unfolding calls
  run-ends zero run lead w e active f enough =
      let (r, w', h, (run', found, moved), leads, sends) =
        advance-Steps digest local_hour (clock 0) lead_id def id run lead w e active f in
      rw (h, calls) (last_ends run run' w' enough found moved)
  run-ends (suc n) run lead w e active f enough =
      let (r, w', h, (run', found, moved), leads, sends) =
        advance-Steps digest local_hour (clock (suc n)) lead_id def id run lead w e active f in
      rw (h, calls)
        (elim moved [
          | inl over ↦ stays-Ended (suc n) run' w' found over
          | inr (next, below) ↦
              run-ends n run' lead w' found (rw next active) (rw leads f)
                (rw next (omega (arith, enough)))
        ])
