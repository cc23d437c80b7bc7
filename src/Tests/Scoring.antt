-- ===== src/Tests/Scoring.antt =====
-- The score of a roofing lead with an emergency in the service area.
use insurnace_automations.Base.{none, some, true}
use insurnace_automations.Core.Scoring.{
  ScoringFacts, inside_service_area, active_emergency, within_30_days, requested_appointment,
  abusive_content, score_lead,
}
use insurnace_automations.Core.Scoring.Caps.{IsExplained, score_lead-IsExplained}
use insurnace_automations.Core.Scoring.Roofing.{roofing_hvac_scoring_model}

abbrev emergency : ScoringFacts
emergency inside_service_area = some true
emergency active_emergency = some true
emergency within_30_days = some true
emergency requested_appointment = some true
emergency abusive_content = some true
emergency _ = none

score_lead-IsExplained_example :
    IsExplained roofing_hvac_scoring_model emergency
      (score_lead roofing_hvac_scoring_model emergency)
score_lead-IsExplained_example = score_lead-IsExplained roofing_hvac_scoring_model emergency
