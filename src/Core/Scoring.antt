-- ===== src/Core/Scoring.antt =====
-- packages/core/src/scoring.ts: explainable, rules-based lead scoring. Points and bounds are whole
-- numbers, as in every model that the program ships.
pub mod Caps
pub mod Roofing
use insurnace_automations.Base.{
  ℕ, String, Bool, true, false, ◌&&◌, Option, none, some, List, [], ◌∷◌, ◌++◌, map, get_or, ◌+++◌,
  if◌then◌else◌, ◌==◌,
}
use insurnace_automations.Base.Int.{ℤ, pos, ◌+ℤ◌, ◌-ℤ◌, leb_ℤ, ltb_ℤ, min_ℤ, max_ℤ}
use insurnace_automations.Base.Show.{show_ℤ}
use insurnace_automations.Core.Types.{ScoreBand, hot, qualified, nurture, unqualified}

pub data ScoreCategory : Type 0 where
  fit intent urgency engagement negative : ScoreCategory

abbrev pub category_index : ScoreCategory → ℕ
category_index fit = 0
category_index intent = 1
category_index urgency = 2
category_index engagement = 3
category_index negative = 4

abbrev pub category_eq : ScoreCategory → ScoreCategory → Bool
category_eq a b = category_index a == category_index b

-- The keys of ScoringFacts.
pub data Fact : Type 0 where
  inside_service_area eligible_service eligible_property_type valid_phone valid_email : Fact
  asked_pricing requested_appointment has_clear_project replied_quickly provided_detail : Fact
  active_emergency within_30_days insurance_deadline : Fact
  replied_to_sms clicked_booking_link opened_email answered_qualification called_business : Fact
  is_duplicate outside_service_area job_seeker_or_student supplier_solicitation : Fact
  invalid_phone abusive_content obvious_spam repeated_no_shows : Fact

-- ScoringFacts: every flag may be absent.
abbrev pub ScoringFacts : Type 0
ScoringFacts = Fact → Option Bool

pub record ScoringRule : Type 0 where
  pub key : String
  pub category : ScoreCategory
  pub points : ℤ
  pub when : Fact
  pub label : String

pub record Bands : Type 0 where
  pub hot : ℤ
  pub qualified : ℤ
  pub nurture : ℤ

pub record ScoringModel : Type 0 where
  pub version : String
  pub rules : List ScoringRule
  pub caps : ScoreCategory → Option ℤ
  pub bands : Bands

pub record ScoreLine : Type 0 where
  pub rule : String
  pub label : String
  pub category : ScoreCategory
  pub points : ℤ

pub record ScoreResult : Type 0 where
  pub total : ℤ
  pub band : ScoreBand
  pub breakdown : List ScoreLine
  pub explanation : String

unfoldable pub band_for : ℤ → Bands → ScoreBand
band_for total bands =
    if leb_ℤ bands.hot total
    then hot
    else if leb_ℤ bands.qualified total
    then qualified
    else if leb_ℤ bands.nurture total
    then nurture
    else unqualified

-- `categoryTotals`: a missing entry is 0. `set` overwrites one entry.
abbrev pub Totals : Type 0
Totals = ScoreCategory → ℤ

abbrev pub set_total : Totals → ScoreCategory → ℤ → Totals
set_total totals c v d = if category_eq d c then v else totals d

-- `facts[rule.when] !== true`, negated.
abbrev pub is_on : Option Bool → Bool
is_on (some true) = true
is_on _ = false

-- The points that a rule earns under its category's cap; `none` is `continue`.
unfoldable pub capped : Option ℤ → ℤ → ℤ → Option ℤ
capped none points current = some points
capped (some cap) points current =
    if ltb_ℤ (pos 0) points
    then (let room = max_ℤ (pos 0) (cap -ℤ current) in
        let earned = min_ℤ points room in
        if leb_ℤ earned (pos 0) && leb_ℤ (pos 0) earned then none else some earned)
    else some points

-- The loop over the rules, with the category totals so far.
pub score_lines : ScoringModel → ScoringFacts → Totals → List ScoringRule → List ScoreLine
score_lines model facts totals [] = []
score_lines model facts totals (rule ∷ rules) =
    let skip = score_lines model facts totals rules in
    if is_on (facts rule.when)
    then elim (capped (model.caps rule.category) rule.points (totals rule.category)) [
      | none ↦ skip
      | some points ↦
          record { rule = rule.key; label = rule.label; category = rule.category; points = points }
          ∷ score_lines model facts
              (set_total totals rule.category (totals rule.category +ℤ points)) rules
    ]
    else skip

-- `lines.reduce((sum, l) => sum + l.points, 0)`
pub sum_points : ℤ → List ScoreLine → ℤ
sum_points sum [] = sum
sum_points sum (l ∷ ls) = sum_points (sum +ℤ l.points) ls

abbrev pub line_text : ScoreLine → String
line_text l = l.label +++ " " +++ (if leb_ℤ (pos 0) l.points then "+" else "") +++ show_ℤ l.points

-- `texts.join(", ")`
pub join : List String → String
join [] = ""
join (t ∷ []) = t
join (t ∷ u ∷ ts) = t +++ ", " +++ join (u ∷ ts)

unfoldable pub explain : ℤ → List ScoreLine → String
unfolding join
explain total [] = "Score " +++ show_ℤ total +++ ": no scoring signals"
explain total (l ∷ ls) = "Score " +++ show_ℤ total +++ ": " +++ join (map line_text (l ∷ ls))

unfoldable pub score_lead : ScoringModel → ScoringFacts → ScoreResult
unfolding score_lines sum_points
score_lead model facts =
    let lines = score_lines model facts (λ c. pos 0) model.rules in
    let total = max_ℤ (pos 0) (min_ℤ (pos 100) (sum_points (pos 0) lines)) in
    record {
      total = total;
      band = band_for total model.bands;
      breakdown = lines;
      explanation = explain total lines;
    }
