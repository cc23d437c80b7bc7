-- ===== src/Worker/Assignment.antt =====
-- apps/worker/src/processors/assignment.ts: a qualified lead is given to a rep, and a hot one is put on
-- the escalation ladder. `now` is not read but for `updatedAt`, which is left out.
pub mod Laws
use insurnace_automations.Base.{
  ℕ, suc, ◌*◌, String, ◌+++◌, Bool, true, false, not, ◌&&◌, ◌||◌, Option, none, some, List, [], ◌∷◌,
  ◌++◌, map, filter, find, length, take, update_where, get_or, str_eq, ◌==◌, if◌then◌else◌,
}
use mathlib.Core.List.{reverse}
use insurnace_automations.Base.Show.{show_ℕ}
use insurnace_automations.Core.Types.{ScoreBand, hot}
use insurnace_automations.Core.Routing.{
  RepCandidate, RoutingInput, RoutingConfig, RoutingResult, Strategy, territory, specialization,
  availability, workload, round_robin, route_lead, is_empty, EscalationStep, default_escalation,
}
use insurnace_automations.Worker.Store.{
  escalation_job, Lead, AssignmentRole, LeadAssignment, Membership, UserSchedule, Territory, Db,
  World, Outcome, ok, error, bind, settle, with_tenant, enqueue, emit_event, audit, lead_with,
}

pub record AssignResult : Type 0 where
  pub primary_user_id : Option ℕ
  pub reason : String
  pub escalation_scheduled : Bool

-- Members who can own leads.
abbrev pub is_rep : Membership → Bool
is_rep m = str_eq m.role "sales_rep" || str_eq m.role "sales_manager"

-- `scheduleByUser.get(userId)`: of several schedules of a user the last.
unfoldable pub schedule_of : ℕ → Db → Option UserSchedule
schedule_of user_id d = find (λ s. s.user_id == user_id) (reverse d.schedules)

abbrev pub is_assigned_to : ℕ → Lead → Bool
is_assigned_to user_id lead = elim lead.assigned_user_id [ none ↦ false | some u ↦ u == user_id ]

-- The leads of the tenant that are assigned to the rep, in whatever state.
unfoldable pub workload_of : ℕ → Db → ℕ
workload_of user_id d = length (filter (is_assigned_to user_id) d.leads)

unfoldable pub candidate_for : Db → ℕ → RepCandidate
unfolding schedule_of workload_of
candidate_for d user_id = record {
  user_id = user_id;
  active = true;
  territories = map (λ t. t.key) (filter (λ t. t.user_id == user_id) d.territories);
  specialties = elim (schedule_of user_id d) [ none ↦ [] | some s ↦ s.specialties ];
  available = elim (schedule_of user_id d) [ none ↦ true | some s ↦ s.available ];
  workload = workload_of user_id d;
  workload_cap = elim (schedule_of user_id d) [ none ↦ 10 | some s ↦ s.workload_cap ];
  owns_contact = some false;
}

-- Phone and email are not read.
unfoldable pub load_candidates : Db → List RepCandidate
unfolding candidate_for
load_candidates d = map (candidate_for d) (map (λ m. m.user_id) (filter is_rep d.memberships))

abbrev pub get_cursor : Db → ℕ
get_cursor d = get_or d.round_robin_cursor 0

abbrev pub input_of : Lead → RoutingInput
input_of lead = record {
  postal_code = lead.postal_code;
  region = lead.region;
  service_requested = lead.service_requested;
}

abbrev pub config_of : ℕ → RoutingConfig
config_of cursor = record {
  strategies = territory ∷ specialization ∷ availability ∷ workload ∷ round_robin ∷ [];
  round_robin_cursor = cursor;
}

unfoldable pub routing_of : Lead → Db → RoutingResult
unfolding load_candidates
routing_of lead d = route_lead (input_of lead) (load_candidates d) (config_of (get_cursor d))

abbrev pub assignment : ℕ → Option ℕ → AssignmentRole → String → LeadAssignment
assignment lead_id user_id role reason = record {
  lead_id = lead_id;
  user_id = user_id;
  role = role;
  reason = reason;
  acknowledged_at = none;
}

-- The primary row, and one for each of the first three fallbacks.
unfoldable pub assignment_rows : ℕ → RoutingResult → List LeadAssignment
assignment_rows lead_id routing =
    assignment lead_id routing.primary_user_id AssignmentRole.primary routing.reason
    ∷ map (λ u. assignment lead_id (some u) AssignmentRole.fallback routing.reason)
        (take 3 routing.fallback_user_ids)

unfoldable pub persist : ℕ → RoutingResult → Db → Db
unfolding assignment_rows
persist lead_id routing d = audit "lead.assigned" lead_id (
    emit_event lead_id "lead.assigned" (record d {
      assignments = d.assignments ++ assignment_rows lead_id routing;
      leads =
          update_where (λ l. l.id == lead_id)
            (λ l. record l { assigned_user_id = routing.primary_user_id }) d.leads;
      round_robin_cursor = some routing.next_cursor;
    }))

abbrev pub is_hot : Option ScoreBand → Bool
is_hot (some hot) = true
is_hot _ = false

-- The loop over the ladder from a step on.
unfoldable pub schedule_steps : ℕ → ℕ → List EscalationStep → World → World
schedule_steps lead_id i [] w = w
schedule_steps lead_id i (step ∷ steps) w = schedule_steps lead_id (suc i) steps (
    enqueue "escalation" ("esc:" +++ show_ℕ lead_id +++ ":" +++ show_ℕ i) (escalation_job lead_id i)
      (step.after_seconds * 1000) w)

abbrev pub later_steps : List EscalationStep → List EscalationStep
later_steps [] = []
later_steps (step ∷ steps) = steps

-- What follows the transaction.
unfoldable pub escalate : ℕ → RoutingResult → Option ScoreBand → World → Outcome AssignResult
unfolding schedule_steps default_escalation
escalate lead_id routing band w =
    ok
      (record {
        primary_user_id = routing.primary_user_id;
        reason = routing.reason;
        escalation_scheduled = is_hot band;
      })
      (if is_hot band then schedule_steps lead_id 1 (later_steps default_escalation) w else w)

unfoldable pub assign_for : ℕ → Option Lead → World → Outcome (RoutingResult × Option ScoreBand)
unfolding routing_of persist
assign_for lead_id none w = error ("lead " +++ show_ℕ lead_id +++ " not found") w
assign_for lead_id (some lead) w =
    let routing : RoutingResult = routing_of lead w.db in
    ok (routing, lead.score_band) (record w { db = persist lead_id routing w.db })

unfoldable pub process_assignment : ℕ → World → Outcome AssignResult
unfolding assign_for escalate settle bind
process_assignment lead_id w =
    bind (with_tenant (λ w'. assign_for lead_id (lead_with lead_id w'.db) w') w)
      (λ r w'. escalate lead_id r.0 r.1 w')
