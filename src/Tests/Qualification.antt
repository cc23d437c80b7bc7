-- ===== src/Tests/Qualification.antt =====
-- A conversation that has told the service.
use insurnace_automations.Base.{[], ◌∷◌, false, codes, ◌≡◌, refl}
use insurnace_automations.Core.Qualification.{
  QualificationAnswers, text, null, merge_answers, is_qualification_complete,
  roofing_hvac_qualification_schema,
}

abbrev known : QualificationAnswers
known = ("service", text (codes "roof_repair")) ∷ []

abbrev extracted : QualificationAnswers
extracted = ("service", null) ∷ ("urgency", text (codes "leak")) ∷ []

-- A null does not overwrite an answer.
merged :
    merge_answers known extracted
    ≡ ("service", text (codes "roof_repair")) ∷ ("urgency", text (codes "leak")) ∷ []
unfolding merge_answers
merged = refl

unfinished :
    is_qualification_complete roofing_hvac_qualification_schema (merge_answers known extracted)
    ≡ false
unfolding merge_answers is_qualification_complete roofing_hvac_qualification_schema
unfinished = refl
