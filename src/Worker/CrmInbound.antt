-- ===== src/Worker/CrmInbound.antt =====
-- apps/worker/src/processors/crm-inbound.ts: a deal that the CRM has closed comes back as an outcome.
-- The look-up of the tenant that owns the deal is that of the tenant's own mappings.
pub mod Laws
use insurnace_automations.Base.{
  ℕ, String, Bool, true, false, Option, none, some, List, [], ◌∷◌, ◌++◌, Text, codes, text_eq,
  to_lower, any, find, str_eq, ◌==◌, if◌then◌else◌,
}
use insurnace_automations.Base.Int.{ℤ}
use insurnace_automations.Core.Types.{LeadState}
use insurnace_automations.Core.StateMachine.{can_transition}
use insurnace_automations.Worker.Store.{
  Lead, CrmMapping, OutcomeType, won, lost, OutcomeRow, Db, set_state, emit_event, audit, lead_with,
}

pub record CrmDealEvent : Type 0 where
  pub deal_external_id : String
  pub stage : Text
  pub amount : Option ℤ

-- WON_STAGES and LOST_STAGES
unfoldable pub won_stages : List Text
won_stages = codes "closedwon" ∷ codes "won" ∷ []

unfoldable pub lost_stages : List Text
lost_stages = codes "closedlost" ∷ codes "lost" ∷ []

unfoldable pub type_of_stage : Text → Option OutcomeType
unfolding won_stages lost_stages
type_of_stage stage =
    if any (text_eq (to_lower stage)) won_stages
    then some won
    else if any (text_eq (to_lower stage)) lost_stages
    then some lost
    else none

abbrev pub state_of : OutcomeType → LeadState
state_of won = LeadState.won
state_of lost = LeadState.lost

abbrev pub event_name : OutcomeType → String
event_name won = "deal.won"
event_name lost = "deal.lost"

abbrev pub outcome_row : ℕ → OutcomeType → Option ℤ → OutcomeRow
outcome_row lead_id type amount = record { lead_id = lead_id; type = type; amount = amount }

-- The lead's state, where the state machine has the step.
unfoldable pub settle_state : Lead → ℕ → OutcomeType → Db → Db
settle_state lead lead_id type d =
    if (can_transition lead.state (state_of type)).ok
    then set_state lead_id (state_of type) d
    else d

unfoldable pub record_outcome : Option Lead → ℕ → OutcomeType → Option ℤ → Db → Db
unfolding settle_state
record_outcome none lead_id type amount d = d
record_outcome (some lead) lead_id type amount d = audit (event_name type) lead_id (
    emit_event lead_id (event_name type) (
      settle_state lead lead_id type
        (record d { outcomes = d.outcomes ++ outcome_row lead_id type amount ∷ [] })))

-- What is handled: the lead and its outcome.
unfoldable pub close_deal :
    Option CrmMapping → OutcomeType → Option ℤ → Db → Option (ℕ × OutcomeType) × Db
unfolding record_outcome
close_deal none type amount d = (none, d)
close_deal (some m) type amount d =
    (some (m.lead_id, type), record_outcome (lead_with m.lead_id d) m.lead_id type amount d)

unfoldable pub process_crm_inbound : CrmDealEvent → Db → Option (ℕ × OutcomeType) × Db
unfolding type_of_stage close_deal
process_crm_inbound event d = elim (type_of_stage event.stage) [
  | none ↦ (none, d)
  | some type ↦
      close_deal (find (λ m. str_eq m.deal_external_id event.deal_external_id) d.crm_mappings) type
        event.amount d
]
