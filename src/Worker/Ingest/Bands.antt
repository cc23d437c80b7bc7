-- ===== src/Worker/Ingest/Bands.antt =====
-- The scores that apps/worker/src/processors/ingest.ts can give.
use insurnace_automations.Base.{
  Bool, true, false, not, ◌&&◌, ◌||◌, Option, none, some, [], ◌∷◌, Text, ◌≡◌, refl, ap, ◌⊎◌, arith,
}
use mathlib.Core.Path.{fun_ext}
use insurnace_automations.Base.Int.{pos, ◌≤ℤ◌, leb_ℤ, ◌+ℤ◌, ◌-ℤ◌, min_ℤ, max_ℤ}
use insurnace_automations.Core.Types.{ScoreBand, nurture, unqualified}
use insurnace_automations.Core.Scoring.{
  Fact, inside_service_area, eligible_service, eligible_property_type, valid_phone, valid_email,
  invalid_phone, has_clear_project, ScoringFacts, score_lead, band_for, capped, ScoreResult,
}
use insurnace_automations.Core.Scoring.Roofing.{roofing_hvac_scoring_model}
use insurnace_automations.Worker.Mapping.{NormalizedLead}
use insurnace_automations.Worker.Assignment.{is_hot}
use insurnace_automations.Worker.Ingest.Facts.{
  has_text, has_string, is_known_service, derive_facts, score_of,
}

-- The facts by the four tests that they rest on.
abbrev facts : (city service phone email : Bool) → ScoringFacts
facts city service phone email inside_service_area = some city
facts city service phone email eligible_service = some true
facts city service phone email eligible_property_type = some true
facts city service phone email valid_phone = some phone
facts city service phone email valid_email = some email
facts city service phone email invalid_phone = some (not phone)
facts city service phone email has_clear_project = some service
facts city service phone email _ = none

-- Without a service the empty text is part of the name of every known one.
unasked : (is_known_service none ≡ true) × (is_known_service (some []) ≡ true)
unfolding is_known_service
unasked = (refl, refl)

or_true : (b : Bool) → (b || true) ≡ true
or_true true = refl
or_true false = refl

known_or_asked :
    (requested : Option Text) → (is_known_service requested || has_text requested) ≡ true
known_or_asked none = rw (unasked.0) refl
known_or_asked (some []) = rw (unasked.1) refl
known_or_asked (some (c ∷ s)) = or_true (is_known_service (some (c ∷ s)))

derive_facts-facts :
    (n : NormalizedLead) (f : Fact)
    → derive_facts n f
      ≡ facts
          (has_text n.city)
          (has_text n.service_requested)
          (has_string n.phone_e164)
          (has_string n.email_normalized)
          f
unfolding derive_facts
derive_facts-facts n inside_service_area = refl
derive_facts-facts n eligible_service = ap some (known_or_asked n.service_requested)
derive_facts-facts n _ = refl

abbrev is_low : ScoreBand → Bool
is_low nurture = true
is_low unqualified = true
is_low _ = false

abbrev Low : ScoreResult → Type 0
Low r =
    (r.total ≤ℤ pos 41)
    × ((r.band ≡ nurture) ⊎ (r.band ≡ unqualified))
    × (is_hot (some r.band) ≡ false)

judged-Low : (r : ScoreResult) → (is_low r.band && leb_ℤ r.total (pos 41)) ≡ true → Low r
judged-Low r h = ground arith

-- A test that holds of both truth values.
abbrev both : (Bool → Bool) → Bool
both p = p true && p false

both_sound : (p : Bool → Bool) → both p ≡ true → (b : Bool) → p b ≡ true
both_sound p h true = ground arith
both_sound p h false = ground arith

abbrev low : Bool → Bool → Bool → Bool → Bool
low city service phone email =
    let r = score_lead roofing_hvac_scoring_model (facts city service phone email) in
    is_low r.band && leb_ℤ r.total (pos 41)

low_table : both (λ a. both (λ b. both (λ c. both (λ d. low a b c d)))) ≡ true
unfolding score_lead roofing_hvac_scoring_model band_for ◌+ℤ◌ ◌-ℤ◌ min_ℤ max_ℤ capped
low_table = refl

low_lem : (a b c d : Bool) → low a b c d ≡ true
low_lem a b c d =
    both_sound (low a b c)
      (both_sound (λ c. both (low a b c))
        (both_sound (λ b. both (λ c. both (low a b c)))
          (both_sound (λ a. both (λ b. both (λ c. both (low a b c)))) low_table a) b)
        c)
      d

-- Every lead that is ingested scores at most 41 points of 100, and is in the band nurture or unqualified:
-- never hot, so that its assignment schedules no escalation. The rule for an eligible service counts for
-- every lead, with any service or none.
pub never_hot :
    (n : NormalizedLead)
    → ((score_of n).total ≤ℤ pos 41)
      × (((score_of n).band ≡ nurture) ⊎ ((score_of n).band ≡ unqualified))
      × (is_hot (some (score_of n).band) ≡ false)
      × (derive_facts n eligible_service ≡ some true)
unfolding score_of
never_hot n =
    let (total, band, cold) = judged-Low (score_lead roofing_hvac_scoring_model (derive_facts n)) (
      rw (fun_ext (derive_facts-facts n)) (
        low_lem (has_text n.city) (has_text n.service_requested) (has_string n.phone_e164)
          (has_string n.email_normalized))) in
    (total, band, cold, derive_facts-facts n eligible_service)
