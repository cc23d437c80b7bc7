-- ===== src/Worker/Ingest/Facts.antt =====
-- apps/worker/src/processors/ingest.ts: the consent that a payload gives, and the facts that a lead is scored by.
use insurnace_automations.Base.{
  String, Bool, true, false, not, ◌||◌, Option, none, some, List, [], ◌∷◌, any, get_or, str_eq,
  ◌==◌, Text, codes, text_eq, to_lower,
}
use insurnace_automations.Base.Int.{pos}
use insurnace_automations.Core.Routing.{is_text, includes}
use insurnace_automations.Core.Scoring.{
  inside_service_area, eligible_service, eligible_property_type, valid_phone, valid_email,
  invalid_phone, has_clear_project, ScoringFacts, ScoreResult, score_lead,
}
use insurnace_automations.Core.Scoring.Roofing.{roofing_hvac_scoring_model}
use insurnace_automations.Core.Normalize.{replace_spaces, replace_spaces_after}
use insurnace_automations.Worker.Store.{Raw, null, text, number, flag}
use insurnace_automations.Worker.Mapping.{Payload, NormalizedLead, field_of}

-- `payload.sms_consent ?? payload.consent ?? payload.tcpa_consent`
abbrev pub value_or : Option Raw → Option Raw → Option Raw
value_or none r = r
value_or (some null) r = r
value_or (some v) r = some v

abbrev pub is_consent : Option Raw → Bool
is_consent (some (flag b)) = b
is_consent (some (text t)) =
    text_eq t (codes "true") || text_eq t (codes "yes") || text_eq t (codes "1")
is_consent (some (number (pos n))) = n == 1
is_consent _ = false

unfoldable pub read_sms_consent : Payload → Bool
unfolding field_of
read_sms_consent payload = is_consent (
    value_or (field_of "sms_consent" payload)
      (value_or (field_of "consent" payload) (field_of "tcpa_consent" payload)))

-- ROOFING_HVAC_SERVICES
unfoldable pub roofing_hvac_services : List Text
roofing_hvac_services =
    codes "roof_replacement"
    ∷ codes "roof_repair"
    ∷ codes "storm_damage"
    ∷ codes "inspection"
    ∷ codes "hvac_install"
    ∷ codes "hvac_repair"
    ∷ codes "maintenance"
    ∷ []

abbrev pub has_text : Option Text → Bool
has_text t = is_text (get_or t [])

abbrev pub has_string : Option String → Bool
has_string none = false
has_string (some s) = not (str_eq s "")

unfoldable pub is_known_service : Option Text → Bool
unfolding roofing_hvac_services replace_spaces_after
is_known_service requested =
    let service = replace_spaces b'_' (to_lower (get_or requested [])) in
    any (λ s. includes service s || includes s service) roofing_hvac_services

-- The facts that are set; the others stay undefined.
unfoldable pub derive_facts : NormalizedLead → ScoringFacts
unfolding is_known_service
derive_facts n inside_service_area = some (has_text n.city)
derive_facts n eligible_service =
    some (is_known_service n.service_requested || has_text n.service_requested)
derive_facts n eligible_property_type = some true
derive_facts n valid_phone = some (has_string n.phone_e164)
derive_facts n valid_email = some (has_string n.email_normalized)
derive_facts n invalid_phone = some (not (has_string n.phone_e164))
derive_facts n has_clear_project = some (has_text n.service_requested)
derive_facts n _ = none

unfoldable pub score_of : NormalizedLead → ScoreResult
unfolding derive_facts
score_of n = score_lead roofing_hvac_scoring_model (derive_facts n)
