-- ===== src/Tests/Assignment.antt =====
-- An assignment and an acknowledgement in a tenant of one rep.
use insurnace_automations.Base.{Option, some, [], ◌∷◌, ◌≡◌, refl}
use insurnace_automations.Core.Types.{qualified, hot}
use insurnace_automations.Core.Routing.{EscalationAction}
use insurnace_automations.Worker.Store.{Lead, AssignmentRole, Db, World, ok}
use insurnace_automations.Worker.Assignment.{AssignResult, assignment, process_assignment}
use insurnace_automations.Worker.Assignment.Laws.{IsPlaced, assignment-IsPlaced}
use insurnace_automations.Worker.Escalation.{cancelled, process_escalation, acknowledge_lead}
use insurnace_automations.Worker.Escalation.Laws.{acknowledged_stops}
use insurnace_automations.Tests.Data.{lead_in, world_in}

abbrev hot_lead : Lead
hot_lead = record (lead_in qualified) { score_band = some hot }

abbrev office : World
office = record (world_in qualified) {
  db = record (world_in qualified).db {
    leads = hot_lead ∷ [];
    memberships =
        record { user_id = 7; role = "sales_rep" } ∷ record { user_id = 8; role = "owner" } ∷ [];
  };
}

assignment-IsPlaced_example :
    (r : AssignResult) × (w' : World) × (process_assignment 1 office ≡ ok r w')
    × IsPlaced hot_lead office r w'
assignment-IsPlaced_example = assignment-IsPlaced hot_lead office refl

abbrev assigned : Db
assigned = record office.db {
  assignments = assignment 1 (some 7) AssignmentRole.primary "territory" ∷ [];
}

acknowledged_stops_example :
    (action : Option EscalationAction) × (process_escalation 1 2 (acknowledge_lead 1 500 assigned)
      ≡ (cancelled action, acknowledge_lead 1 500 assigned))
acknowledged_stops_example = acknowledged_stops 1 500 2 assigned refl
