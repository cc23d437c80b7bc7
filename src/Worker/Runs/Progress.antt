-- ===== src/Worker/Runs/Progress.antt =====
-- One call of `advanceRun` of apps/worker/src/processors/workflow.ts.
use insurnace_automations.Base.{
  ℕ, suc, zero, ◌+◌, ◌<◌, String, ◌+++◌, true, false, Option, none, some, List, [], ◌∷◌, Text,
  length, get_elem?, find-update_where, arith, ◌≡◌, refl, ◌⊎◌, inl, inr, ◌∙◌, ◌==◌, Option-cases,
  Bool-cases, get_or,
}
use insurnace_automations.Core.Workflow.{
  WorkflowStepDef, WorkflowDefinition, should_stop, step_at, stop_states,
}
use insurnace_automations.Core.Types.{state_name}
use insurnace_automations.Core.StateMachine.{has}
use insurnace_automations.Worker.Store.{
  Lead, WorkflowRun, RunStatus, Db, World, Outcome, ok, bind, settle, lead_with,
}
use insurnace_automations.Worker.Runs.{
  WorkflowResult, step_executed, stopped, completed, is_active, run_with, update_run, stop_run,
  complete_run, is_stop, move_on, run_step, check_stop, with_lead, with_run, advance_run,
}
use insurnace_automations.Worker.Runs.Actions.{execute-Acts}

-- What `advanceRun` asks the stop conditions.
abbrev pub reason_to_stop : Lead → Option String
reason_to_stop lead =
    should_stop
      (record { state = lead.state; complaint_detected = false; delivery_failure_lockout = false })

-- The run goes on at the next step, which exists.
abbrev pub GoesOn : WorkflowDefinition → WorkflowRun → WorkflowRun → Type 0
GoesOn def run run' =
    (run' ≡ record run { current_step = run.current_step + 1 })
    × (run.current_step + 1 < length def.steps)

-- The run has ended or goes on.
abbrev pub Moved : WorkflowDefinition → ℕ → WorkflowRun → World → Type 0
Moved def id run w' =
    (run' : WorkflowRun) × (run_with id w'.db ≡ some run')
    × ((is_active run'.status ≡ false) ⊎ GoesOn def run run')

get_elem?-length :
    {A : Type 0} (xs : List A) (i : ℕ) (x : A) → get_elem? xs i ≡ some x → i < length xs
get_elem?-length [] i x e = cc
get_elem?-length (y ∷ ys) zero x e = omega arith
get_elem?-length (y ∷ ys) (suc i) x e = omega (arith, get_elem?-length ys i x e)

run_updated :
    (id : ℕ) (f : WorkflowRun → WorkflowRun)
    → ((r : WorkflowRun) → (f r).id ≡ r.id)
    → (d : Db) (run : WorkflowRun) → run_with id d ≡ some run
    → run_with id (update_run id f d) ≡ some (f run)
run_updated id f keeps d run e =
    find-update_where (λ r. r.id == id) f (λ r. rw (keeps r) refl) d.runs run e

abbrev step_up : ℕ → WorkflowRun → WorkflowRun
step_up n r = record r { current_step = n }

abbrev done : WorkflowRun → WorkflowRun
done r = record r { status = RunStatus.completed }

stepped :
    (id n : ℕ) (d : Db) (run : WorkflowRun)
    → run_with id d ≡ some run
    → run_with id (update_run id (step_up n) d) ≡ some (step_up n run)
stepped id n d run e = run_updated id (step_up n) (λ r. refl) d run e

finished :
    (id : ℕ) (d : Db) (run : WorkflowRun)
    → run_with id d ≡ some run
    → run_with id (update_run id done d) ≡ some (done run)
finished id d run e = run_updated id done (λ r. refl) d run e

module _ (digest : Text → String) (local_hour : String → ℕ → ℕ) (now lead_id : ℕ)
    (def : WorkflowDefinition) (id : ℕ) where
  move_on-Moved :
      (run : WorkflowRun) (step : WorkflowStepDef) (w : World)
      → run_with id w.db ≡ some run
      → Moved def id run (move_on digest local_hour now lead_id def id run.current_step step w)
        × ((move_on digest local_hour now lead_id def id run.current_step step w).db.leads
            ≡ w.db.leads)
        × ((move_on digest local_hour now lead_id def id run.current_step step w).sends ≡ w.sends)
  unfolding move_on step_at
  move_on-Moved run step w e = elim (Option-cases (get_elem? def.steps (run.current_step + 1))) [
    | inl last ↦
        rw (last, move_on)
          (
            (
              done (step_up (run.current_step + 1) run),
              finished id (update_run id (step_up (run.current_step + 1)) w.db)
                  (step_up (run.current_step + 1) run)
                  (stepped id (run.current_step + 1) w.db run e),
              inl refl,
            ),
            refl,
            refl,
          )
    | inr (next, more) ↦
        rw (more, move_on)
          (
            (
              step_up (run.current_step + 1) run,
              stepped id (run.current_step + 1) w.db run e,
              inr (refl, get_elem?-length def.steps _ next more),
            ),
            refl,
            refl,
          )
  ]

  -- What a call promises where the run is running and its lead exists.
  abbrev pub Steps : WorkflowRun → World → Outcome WorkflowResult → Type 0
  Steps run w o =
      (r : WorkflowResult) × (w' : World) × (o ≡ ok r w')
      × Moved def id run w'
      × (w'.db.leads ≡ w.db.leads)
      × (w'.sends ≡ w.sends)

  run_step-Steps :
      (run : WorkflowRun) (lead : Lead) (step : Option WorkflowStepDef) (w : World)
      → run_with id w.db ≡ some run
      → lead_with lead_id w.db ≡ some lead
      → Steps run w (run_step digest local_hour now lead_id def id run.current_step step w)
  unfolding run_step
  run_step-Steps run lead none w e f = (
    completed id,
    record w { db = complete_run lead_id id w.db },
    refl,
    (done run, finished id w.db run e, inl refl),
    refl,
    refl,
  )
  run_step-Steps run lead (some step) w e f = elim (Bool-cases (is_stop step.action)) [
    | inl s ↦ rw s (
      completed id,
      record w { db = complete_run lead_id id w.db },
      refl,
      (done run, finished id w.db run e, inl refl),
      refl,
      refl,
    )
    | inr s ↦
        let (w1, acted, (runs, leads, sends), gated) =
          execute-Acts digest local_hour now lead_id def lead step.key step.action w f in
        let (moved, same, more) = move_on-Moved run step w1 (rw runs e) in
        (
          step_executed id,
          move_on digest local_hour now lead_id def id run.current_step step w1,
          rw (s, acted, bind) refl,
          moved,
          same ∙ leads,
          more ∙ sends,
        )
  ]

  check_stop-Steps :
      (run : WorkflowRun) (lead : Lead) (stop : Option String) (w : World)
      → run_with id w.db ≡ some run
      → lead_with lead_id w.db ≡ some lead
      → Steps run w (check_stop digest local_hour now lead_id def id run.current_step stop w)
  unfolding check_stop
  check_stop-Steps run lead none w e f = run_step-Steps run lead _ w e f
  check_stop-Steps run lead (some reason) w e f = (
    stopped reason,
    record w { db = stop_run lead_id id reason w.db },
    refl,
    (
      record run { status = RunStatus.stopped; stop_reason = some reason },
      run_updated id (λ r. record r { status = RunStatus.stopped; stop_reason = some reason })
          (λ r. refl) w.db run e,
      inl refl,
    ),
    refl,
    refl,
  )

  with_run-Steps :
      (run : WorkflowRun) (lead : Lead) (w : World)
      → run_with id w.db ≡ some run
      → is_active run.status ≡ true
      → lead_with lead_id w.db ≡ some lead
      → Steps run w (with_run digest local_hour now lead_id def id (some run) w)
  unfolding with_run with_lead
  with_run-Steps run lead w e active f =
      rw active (rw (f, with_lead) (check_stop-Steps run lead (reason_to_stop lead) w e f))

  -- Each call on a running run of an existing lead returns a result and moves the run: it ends it, or
  -- takes it to the next step, which the workflow has. The leads stay as they were, and nothing is
  -- sent to the provider by the call itself.
  pub advance-Steps :
      (run : WorkflowRun) (lead : Lead) (w : World)
      → run_with id w.db ≡ some run
      → is_active run.status ≡ true
      → lead_with lead_id w.db ≡ some lead
      → Steps run w (advance_run digest local_hour now lead_id def id w)
  unfolding advance_run
  advance-Steps run lead w e active f =
      let (r, w', h, moved, leads, sends) = with_run-Steps run lead w e active f in
      (r, w', rw (e, h, settle) refl, moved, leads, sends)

  -- A run of a lead in one of the stop states is stopped by the next call: the call marks the run,
  -- adds an event and does nothing else, so it queues no message and no job.
  pub stop_state_stops :
      (run : WorkflowRun) (lead : Lead) (w : World)
      → run_with id w.db ≡ some run
      → is_active run.status ≡ true
      → lead_with lead_id w.db ≡ some lead
      → has stop_states lead.state ≡ true
      → advance_run digest local_hour now lead_id def id w
        ≡ ok
            (stopped ("state=" +++ state_name lead.state))
            (record w { db = stop_run lead_id id ("state=" +++ state_name lead.state) w.db })
  unfolding advance_run with_run with_lead check_stop should_stop settle
  stop_state_stops run lead w e active f stops =
      rw (e, with_run) (rw active (rw (f, with_lead) (rw (stops, check_stop) refl)))

  -- A run that has ended is left as it is by every further call.
  pub ended_stays :
      (run : WorkflowRun) (w : World)
      → run_with id w.db ≡ some run
      → is_active run.status ≡ false
      → advance_run digest local_hour now lead_id def id w
        ≡ ok (stopped (get_or run.stop_reason "not_running")) w
  unfolding advance_run with_run settle
  ended_stays run w e over = rw (e, with_run) (rw over refl)
