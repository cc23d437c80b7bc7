-- ===== src/Worker/Escalation.antt =====
-- apps/worker/src/processors/escalation.ts: the steps of the escalation ladder, and the acknowledgement
-- that stops it.
pub mod Laws
use insurnace_automations.Base.{
  ℕ, String, ◌+++◌, Bool, true, false, not, ◌&&◌, ◌||◌, Option, none, some, List, [], ◌∷◌, any,
  update_where, get_elem?, ◌==◌, is_some, if◌then◌else◌,
}
use insurnace_automations.Core.Types.{LeadState, new, contacted, engaged, qualifying, qualified}
use insurnace_automations.Core.StateMachine.{has}
use insurnace_automations.Core.Routing.{
  EscalationAction, assign_primary, notify_primary, notify_secondary, notify_manager,
  fallback_queue, EscalationStep, default_escalation,
}
use insurnace_automations.Worker.Store.{
  Lead, AssignmentRole, LeadAssignment, Db, World, emit_event, audit, lead_with,
}

-- `{ action, status }`: with no step the action is "none".
pub data EscalationResult : Type 0 where
  executed : EscalationAction → EscalationResult
  cancelled : Option EscalationAction → EscalationResult

abbrev pub action_name : EscalationAction → String
action_name assign_primary = "assign_primary"
action_name notify_primary = "notify_primary"
action_name notify_secondary = "notify_secondary"
action_name notify_manager = "notify_manager"
action_name fallback_queue = "fallback_queue"

unfoldable pub waiting_states : List LeadState
waiting_states = new ∷ contacted ∷ engaged ∷ qualifying ∷ qualified ∷ []

abbrev pub is_primary : AssignmentRole → Bool
is_primary AssignmentRole.primary = true
is_primary AssignmentRole.fallback = false

abbrev pub is_primary_of : ℕ → LeadAssignment → Bool
is_primary_of lead_id a = (a.lead_id == lead_id) && is_primary a.role

unfoldable pub is_acknowledged : ℕ → Db → Bool
is_acknowledged lead_id d =
    any (λ a. is_primary_of lead_id a && is_some a.acknowledged_at) d.assignments

-- The step of a lead that is there; nothing in it can throw.
unfoldable pub perform : EscalationStep → Lead → ℕ → Db → EscalationResult × Db
unfolding waiting_states is_acknowledged
perform step lead lead_id d =
    if not (has waiting_states lead.state) || is_acknowledged lead_id d
    then (cancelled (some step.action), d)
    else (
      executed step.action,
      audit ("escalation." +++ action_name step.action) lead_id
          (emit_event lead_id "lead.escalated" d),
    )

unfoldable pub perform_for : EscalationStep → ℕ → Option Lead → Db → EscalationResult × Db
unfolding perform
perform_for step lead_id none d = (cancelled (some step.action), d)
perform_for step lead_id (some lead) d = perform step lead lead_id d

unfoldable pub process_escalation : ℕ → ℕ → Db → EscalationResult × Db
unfolding perform_for default_escalation
process_escalation lead_id step_index d = elim (get_elem? default_escalation step_index) [
  | none ↦ (cancelled none, d)
  | some step ↦ perform_for step lead_id (lead_with lead_id d) d
]

unfoldable pub acknowledge_lead : ℕ → ℕ → Db → Db
acknowledge_lead lead_id now d = emit_event lead_id "lead.acknowledged" (record d {
  assignments =
      update_where (is_primary_of lead_id) (λ a. record a { acknowledged_at = some now })
        d.assignments;
})
