-- ===== src/Worker/Escalation/Laws.antt =====
-- The acknowledgement in apps/worker/src/processors/escalation.ts.
use insurnace_automations.Base.{
  ℕ, Bool, true, false, not, ◌&&◌, ◌||◌, Option, none, some, List, [], ◌∷◌, any, update_where,
  get_elem?, is_some, ◌≡◌, refl, arith, Option-cases, inl, inr,
}
use insurnace_automations.Core.StateMachine.{has}
use insurnace_automations.Core.Routing.{EscalationStep, default_escalation}
use insurnace_automations.Worker.Store.{Lead, LeadAssignment, Db, lead_with}
use insurnace_automations.Worker.Escalation.{
  EscalationResult, cancelled, EscalationAction, waiting_states, is_primary_of, is_acknowledged,
  perform, perform_for, process_escalation, acknowledge_lead,
}

acknowledged :
    (id now : ℕ) (as' : List LeadAssignment)
    → any (is_primary_of id) as' ≡ true
    → any
        (λ a. is_primary_of id a && is_some a.acknowledged_at)
        (update_where (is_primary_of id) (λ a. record a { acknowledged_at = some now }) as')
      ≡ true
acknowledged id now [] h = cc
acknowledged id now (a ∷ as') h = ground (arith, acknowledged id now as')

is_acknowledged-acknowledge :
    (id now : ℕ) (d : Db)
    → any (is_primary_of id) d.assignments ≡ true
    → is_acknowledged id (acknowledge_lead id now d) ≡ true
unfolding is_acknowledged acknowledge_lead
is_acknowledged-acknowledge id now d h = acknowledged id now d.assignments h

or_true : (b : Bool) → (b || true) ≡ true
or_true true = refl
or_true false = refl

abbrev IsCancelled : EscalationResult × Db → Db → Type 0
IsCancelled r d = (action : Option EscalationAction) × (r ≡ (cancelled action, d))

perform-IsCancelled :
    (step : EscalationStep) (id : ℕ) (found : Option Lead) (d : Db)
    → is_acknowledged id d ≡ true
    → IsCancelled (perform_for step id found d) d
unfolding perform_for perform
perform-IsCancelled step id none d h = (some step.action, refl)
perform-IsCancelled step id (some lead) d h =
    (some step.action, rw (h, or_true (not (has waiting_states lead.state))) refl)

-- Once a lead that has been assigned is acknowledged, every step of the ladder cancels itself,
-- whatever its index and whatever has become of the lead, and changes nothing.
pub acknowledged_stops :
    (id now step_index : ℕ) (d : Db)
    → any (is_primary_of id) d.assignments ≡ true
    → (action : Option EscalationAction) × (process_escalation id step_index
          (acknowledge_lead id now d)
        ≡ (cancelled action, acknowledge_lead id now d))
unfolding process_escalation
acknowledged_stops id now step_index d h =
    let d' : Db = acknowledge_lead id now d in
    elim (Option-cases (get_elem? default_escalation step_index)) [
      | inl e ↦ (none, rw e refl)
      | inr (step, e) ↦ rw e (
          perform-IsCancelled step id (lead_with id d') d' (is_acknowledged-acknowledge id now d h))
    ]
