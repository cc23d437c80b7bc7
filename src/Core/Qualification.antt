-- ===== src/Core/Qualification.antt =====
-- packages/core/src/qualification.ts: which question comes next and when qualification is complete;
-- and the qualification schema of packages/core/src/verticals/roofing-hvac.ts.
pub mod Laws
use insurnace_automations.Base.{
  ℕ, String, Bool, true, false, not, Option, none, some, List, [], ◌∷◌, ◌++◌, filter, find, all,
  Text, if◌then◌else◌, str_eq,
}
use insurnace_automations.Base.Int.{ℤ}

pub record QualificationField : Type 0 where
  pub key : String
  pub required : Bool
  pub question : String

pub record QualificationSchema : Type 0 where
  pub key : String
  pub fields : List QualificationField

-- The values of an answer: those that the model's structured output admits.
pub data Value : Type 0 where
  null : Value
  text : Text → Value
  number : ℤ → Value
  flag : Bool → Value

-- An object, its keys in order, each once.
abbrev pub QualificationAnswers : Type 0
QualificationAnswers = List (String × Value)

-- `answers[key]`; `none` is `undefined`.
pub lookup : String → QualificationAnswers → Option Value
lookup k [] = none
lookup k ((j, v) ∷ es) = let rest = lookup k es in if str_eq j k then some v else rest

-- `merged[key] = v`
pub assign : String → Value → QualificationAnswers → QualificationAnswers
assign k v [] = (k, v) ∷ []
assign k v ((j, w) ∷ es) =
    let rest = assign k v es in if str_eq j k then (j, v) ∷ es else (j, w) ∷ rest

-- `v !== undefined && v !== null && v !== ""`
abbrev pub is_value : Option Value → Bool
is_value none = false
is_value (some null) = false
is_value (some (text [])) = false
is_value (some v) = true

unfoldable pub is_answered : QualificationAnswers → String → Bool
unfolding lookup
is_answered answers key = is_value (lookup key answers)

unfoldable pub next_question :
    QualificationSchema → QualificationAnswers → Option QualificationField
unfolding is_answered
next_question schema answers =
    let required = filter (λ f. f.required) schema.fields in
    let optional = filter (λ f. not f.required) schema.fields in
    find (λ f. not (is_answered answers f.key)) (required ++ optional)

unfoldable pub is_qualification_complete : QualificationSchema → QualificationAnswers → Bool
unfolding is_answered
is_qualification_complete schema answers =
    all (λ f. is_answered answers f.key) (filter (λ f. f.required) schema.fields)

unfoldable pub merge_answers : QualificationAnswers → QualificationAnswers → QualificationAnswers
unfolding assign
merge_answers existing [] = existing
merge_answers existing ((k, v) ∷ extracted) =
    merge_answers (if is_value (some v) then assign k v existing else existing) extracted

-- roofingHvacQualificationSchema
abbrev field : String → Bool → String → QualificationField
field key required question = record { key = key; required = required; question = question }

unfoldable pub roofing_hvac_qualification_schema : QualificationSchema
roofing_hvac_qualification_schema = record {
  key = "roofing-hvac@1";
  fields =
      field "service" true
        "Are you looking at a roof replacement, a repair, storm damage, or an HVAC issue?"
      ∷ field "urgency" true "Is this an active emergency like a leak, or are you planning ahead?"
      ∷ field "property_type" true "Is this for a single-family home, or another type of property?"
      ∷ field "location_confirmed" true "What city is the property in?"
      ∷ field "insurance_claim" false "Are you planning to file an insurance claim for this?"
      ∷ field "timeline" false "What's your ideal timeline for getting this done?"
      ∷ field "appointment_intent" true "Would you like to book a free inspection?"
      ∷ [];
}
