-- ===== src/Core/Scoring/Roofing.antt =====
-- packages/core/src/verticals/roofing-hvac.ts: the scoring model of the first vertical.
pub mod Budget
use insurnace_automations.Base.{ℕ, String, Option, none, some, List, [], ◌∷◌}
use insurnace_automations.Base.Int.{ℤ, pos, negsuc}
use insurnace_automations.Core.Scoring.{
  ScoreCategory, fit, intent, urgency, engagement, negative, Fact, inside_service_area,
  eligible_service, eligible_property_type, valid_phone, valid_email, asked_pricing,
  requested_appointment, has_clear_project, replied_quickly, provided_detail, active_emergency,
  within_30_days, insurance_deadline, replied_to_sms, clicked_booking_link, opened_email,
  answered_qualification, called_business, is_duplicate, outside_service_area,
  job_seeker_or_student, supplier_solicitation, invalid_phone, abusive_content, obvious_spam,
  repeated_no_shows, ScoringRule, ScoringModel,
}

abbrev rule : String → ScoreCategory → ℤ → Fact → String → ScoringRule
rule key category points when label = record {
  key = key;
  category = category;
  points = points;
  when = when;
  label = label;
}

abbrev pub roofing_caps : ScoreCategory → Option ℤ
roofing_caps fit = some (pos 35)
roofing_caps intent = some (pos 30)
roofing_caps urgency = some (pos 20)
roofing_caps engagement = some (pos 15)
roofing_caps negative = none

-- roofingHvacScoringModel; `negsuc n` is -(n + 1).
unfoldable pub roofing_hvac_scoring_model : ScoringModel
roofing_hvac_scoring_model = record {
  version = "roofing-hvac@1";
  caps = roofing_caps;
  bands = record { hot = pos 80; qualified = pos 55; nurture = pos 25 };
  rules =
      rule "service_area_match" fit (pos 15) inside_service_area "service-area match"
      ∷ rule "eligible_service" fit (pos 10) eligible_service "eligible service"
      ∷ rule "eligible_property" fit (pos 5) eligible_property_type "valid property type"
      ∷ rule "valid_phone" fit (pos 3) valid_phone "valid phone"
      ∷ rule "valid_email" fit (pos 2) valid_email "valid email"
      ∷ rule "asked_pricing" intent (pos 8) asked_pricing "asked about pricing"
      ∷ rule "requested_appointment" intent (pos 12) requested_appointment "requested appointment"
      ∷ rule "clear_project" intent (pos 6) has_clear_project "clear project"
      ∷ rule "replied_quickly" intent (pos 2) replied_quickly "replied quickly"
      ∷ rule "provided_detail" intent (pos 2) provided_detail "provided detail"
      ∷ rule "active_emergency" urgency (pos 20) active_emergency "active leak/emergency"
      ∷ rule "within_30_days" urgency (pos 10) within_30_days "needed within 30 days"
      ∷ rule "insurance_deadline" urgency (pos 8) insurance_deadline "insurance deadline"
      ∷ rule "replied_sms" engagement (pos 6) replied_to_sms "replied to SMS"
      ∷ rule "clicked_booking" engagement (pos 5) clicked_booking_link "clicked booking link"
      ∷ rule "answered_qualification" engagement (pos 4) answered_qualification
          "answered qualification"
      ∷ rule "called_business" engagement (pos 5) called_business "called the business"
      ∷ rule "opened_email" engagement (pos 2) opened_email "opened email"
      ∷ rule "neg_duplicate" negative (negsuc 29) is_duplicate "duplicate"
      ∷ rule "neg_outside_area" negative (negsuc 39) outside_service_area "outside service area"
      ∷ rule "neg_job_seeker" negative (negsuc 39) job_seeker_or_student "job seeker/student"
      ∷ rule "neg_supplier" negative (negsuc 39) supplier_solicitation "supplier solicitation"
      ∷ rule "neg_invalid_phone" negative (negsuc 19) invalid_phone "invalid phone"
      ∷ rule "neg_abusive" negative (negsuc 49) abusive_content "abusive content"
      ∷ rule "neg_spam" negative (negsuc 49) obvious_spam "obvious spam"
      ∷ rule "neg_no_shows" negative (negsuc 19) repeated_no_shows "repeated no-shows"
      ∷ [];
}
