-- ===== src/Core/Scoring/Caps.antt =====
-- Theorems on `scoreLead` of packages/core/src/scoring.ts: budgets, range and attribution.
use insurnace_automations.Base.{
  ◌≡◌, refl, ◌∙◌, ◌⊎◌, inl, inr, Bool, true, Option, some, List, [], ◌∷◌, In, All, arith,
  if◌then◌else◌, Bool-cases, Option-cases,
}
use insurnace_automations.Base.Int.{
  ℤ, pos, ◌+ℤ◌, ◌≤ℤ◌, leb_ℤ, min_ℤ, max_ℤ, int_laws, +ℤ_parts, -ℤ_parts, +ℤ_zero, +ℤ_assoc,
}
use insurnace_automations.Core.Types.{ScoreBand, hot, qualified, nurture, unqualified}
use insurnace_automations.Core.Scoring.{
  ScoreCategory, category_eq, ScoringFacts, ScoringRule, Bands, ScoringModel, ScoreLine,
  ScoreResult, band_for, Totals, set_total, is_on, capped, score_lines, sum_points, score_lead,
}

-- What a rule earns never takes its category over a cap of at least 0.
capped_within :
    (cap points current earned : ℤ)
    → capped (some cap) points current ≡ some earned
    → pos 0 ≤ℤ cap
    → current ≤ℤ cap
    → current +ℤ earned ≤ℤ cap
unfolding capped min_ℤ max_ℤ
capped_within cap points current earned e h k =
    ground (arith, -ℤ_parts cap current, +ℤ_parts current earned, +ℤ_parts current points)

-- The points that the lines of one category add up to.
abbrev pub category_sum : ScoreCategory → List ScoreLine → ℤ
category_sum c [] = pos 0
category_sum c (l ∷ ls) =
    let rest = category_sum c ls in if category_eq c l.category then l.points +ℤ rest else rest

pub ScoreCategory-eq : (a b : ScoreCategory) → category_eq a b ≡ true → a ≡ b
ScoreCategory-eq a b h = ground arith

-- One line keeps a category within its cap, if the rest of the lines do.
step_within :
    (model : ScoringModel) (c : ScoreCategory) (cap : ℤ) (totals : Totals) (r : ScoringRule)
    (points rest : ℤ)
    → model.caps c ≡ some cap
    → pos 0 ≤ℤ cap
    → totals c ≤ℤ cap
    → capped (model.caps r.category) r.points (totals r.category) ≡ some points
    → (set_total totals r.category (totals r.category +ℤ points) c ≤ℤ cap
        → set_total totals r.category (totals r.category +ℤ points) c +ℤ rest ≤ℤ cap)
    → totals c +ℤ (if category_eq c r.category then points +ℤ rest else rest) ≤ℤ cap
step_within model c cap totals r points rest e h k earned ih =
    elim (Bool-cases (category_eq c r.category)) [
      | inr other ↦ rw other ((rw other at ih) k)
      | inl same ↦
          let p : c ≡ r.category = ScoreCategory-eq c r.category same in
          let within : totals r.category +ℤ points ≤ℤ cap =
            capped_within cap r.points (totals r.category) points (cc) h (rw p at k) in
          let ih' = (rw same at ih) within in rw (same, p) (omega (int_laws, ih'))
    ]

module _ (model : ScoringModel) (facts : ScoringFacts) where
  lines_within :
      (c : ScoreCategory) (cap : ℤ)
      → model.caps c ≡ some cap
      → pos 0 ≤ℤ cap
      → (totals : Totals) (rules : List ScoringRule) → totals c ≤ℤ cap
      → totals c +ℤ category_sum c (score_lines model facts totals rules) ≤ℤ cap
  unfolding score_lines
  lines_within c cap e h totals [] k = omega (int_laws, k)
  lines_within c cap e h totals (r ∷ rs) k = elim (Bool-cases (is_on (facts r.when))) [
    | inr off ↦ rw off (lines_within c cap e h totals rs k)
    | inl on ↦
        rw on (elim (Option-cases (capped (model.caps r.category) r.points (totals r.category))) [
          | inl skipped ↦ rw skipped (lines_within c cap e h totals rs k)
          | inr (points, earned) ↦ rw earned (
              step_within model c cap totals r points _ e h k earned (
                lines_within c cap e h (set_total totals r.category (totals r.category +ℤ points))
                  rs))
        ])
  ]

-- The sum of the points of the lines.
abbrev pub line_sum : List ScoreLine → ℤ
line_sum [] = pos 0
line_sum (l ∷ ls) = l.points +ℤ line_sum ls

sum_points_lem : (a : ℤ) (ls : List ScoreLine) → sum_points a ls ≡ a +ℤ line_sum ls
unfolding sum_points
sum_points_lem a [] = omega int_laws
sum_points_lem a (l ∷ ls) = sum_points_lem (a +ℤ l.points) ls ∙ +ℤ_assoc a l.points (line_sum ls)

-- The breakdown of a lead's score keeps every category within its cap, whatever the order of the
-- rules, their number and their signs, if the cap is not negative.
pub category_within_cap :
    (model : ScoringModel) (facts : ScoringFacts) (c : ScoreCategory) (cap : ℤ)
    → model.caps c ≡ some cap
    → pos 0 ≤ℤ cap
    → category_sum c (score_lead model facts).breakdown ≤ℤ cap
unfolding score_lead
category_within_cap model facts c cap e h =
    omega (int_laws, lines_within model facts c cap e h (λ d. pos 0) model.rules h)

-- A line of the breakdown comes from a rule whose fact is set, and carries at most its points.
abbrev pub IsAttributed : ScoringFacts → List ScoringRule → ScoreLine → Type 0
IsAttributed facts rules l =
    (r : ScoringRule) × In r rules
    × (facts r.when ≡ some true)
    × (l.rule ≡ r.key)
    × (l.category ≡ r.category)
    × (l.points ≤ℤ r.points)

is_on-true : (o : Option Bool) → is_on o ≡ true → o ≡ some true
is_on-true o h = ground arith

pub capped-le :
    (cap : Option ℤ) (points current earned : ℤ)
    → capped cap points current ≡ some earned
    → earned ≤ℤ points
unfolding capped min_ℤ max_ℤ
capped-le cap points current earned e = ground arith

IsAttributed-cons :
    (facts : ScoringFacts) (r : ScoringRule) (rs : List ScoringRule) (l : ScoreLine)
    → IsAttributed facts rs l
    → IsAttributed facts (r ∷ rs) l
IsAttributed-cons facts r rs l (s, i, on, k, c, p) = (s, inr i, on, k, c, p)

All-weaken :
    (facts : ScoringFacts) (r : ScoringRule) (rs : List ScoringRule) (ls : List ScoreLine)
    → All (IsAttributed facts rs) ls
    → All (IsAttributed facts (r ∷ rs)) ls
All-weaken facts r rs [] h = tt
All-weaken facts r rs (l ∷ ls) h =
    (IsAttributed-cons facts r rs l h.0, All-weaken facts r rs ls h.1)

lines-IsAttributed :
    (model : ScoringModel) (facts : ScoringFacts) (totals : Totals) (rules : List ScoringRule)
    → All (IsAttributed facts rules) (score_lines model facts totals rules)
unfolding score_lines
lines-IsAttributed model facts totals [] = tt
lines-IsAttributed model facts totals (r ∷ rs) = elim (Bool-cases (is_on (facts r.when))) [
  | inr off ↦ rw off (All-weaken facts r rs _ (lines-IsAttributed model facts totals rs))
  | inl on ↦
      rw on (elim (Option-cases (capped (model.caps r.category) r.points (totals r.category))) [
        | inl skipped ↦
            rw skipped (All-weaken facts r rs _ (lines-IsAttributed model facts totals rs))
        | inr (points, earned) ↦ rw earned (
          (r, inl refl, is_on-true _ on, refl, refl, capped-le _ _ _ _ earned),
          All-weaken facts r rs _ (
              lines-IsAttributed model facts
                (set_total totals r.category (totals r.category +ℤ points)) rs),
        )
      ])
]

-- The band that the thresholds give to a total.
abbrev pub IsBand : Bands → ℤ → ScoreBand → Type 0
IsBand b total hot = b.hot ≤ℤ total
IsBand b total qualified = (¬ (b.hot ≤ℤ total)) × (b.qualified ≤ℤ total)
IsBand b total nurture = (¬ (b.hot ≤ℤ total)) × (¬ (b.qualified ≤ℤ total)) × (b.nurture ≤ℤ total)
IsBand b total unqualified =
    (¬ (b.hot ≤ℤ total)) × (¬ (b.qualified ≤ℤ total)) × (¬ (b.nurture ≤ℤ total))

band_for_lem : (total : ℤ) (b : Bands) → IsBand b total (band_for total b)
unfolding band_for
band_for_lem total b = elim (Bool-cases (leb_ℤ b.hot total)) [
  | inl e ↦ rw e (ground arith)
  | inr e ↦ rw e (elim (Bool-cases (leb_ℤ b.qualified total)) [
    | inl f ↦ rw f (ground arith)
    | inr f ↦ rw f (elim (Bool-cases (leb_ℤ b.nurture total)) [
      | inl g ↦ rw g (ground arith)
      | inr g ↦ rw g (ground arith)
    ])
  ])
]

-- A sum, its value in the range from 0 to 100.
abbrev pub IsClamped : ℤ → ℤ → Type 0
IsClamped sum total =
    ((pos 0 ≤ℤ sum) × (sum ≤ℤ pos 100) × (total ≡ sum))
    ⊎ (((sum ≤ℤ pos 0) × (total ≡ pos 0)) ⊎ ((pos 100 ≤ℤ sum) × (total ≡ pos 100)))

pub record IsExplained (model : ScoringModel) (facts : ScoringFacts) (r : ScoreResult)
    : Type 0 where
  pub low : pos 0 ≤ℤ r.total
  pub high : r.total ≤ℤ pos 100
  pub total : IsClamped (line_sum r.breakdown) r.total
  pub attributed : All (IsAttributed facts model.rules) r.breakdown
  pub banded : IsBand model.bands r.total r.band

clamp_lem :
    (n : ℤ)
    → (pos 0 ≤ℤ max_ℤ (pos 0) (min_ℤ (pos 100) n))
      × (max_ℤ (pos 0) (min_ℤ (pos 100) n) ≤ℤ pos 100)
      × IsClamped n (max_ℤ (pos 0) (min_ℤ (pos 100) n))
unfolding min_ℤ max_ℤ
clamp_lem n = ground arith

-- The score of a lead lies between 0 and 100; it is the sum of its lines where that lies there, 0
-- below and 100 above. Every line comes from a rule of the model whose fact is set, with that rule's
-- key and category and at most its points. The band is the one whose thresholds hold the total.
pub score_lead-IsExplained :
    (model : ScoringModel) (facts : ScoringFacts) → IsExplained model facts (score_lead model facts)
unfolding score_lead
score_lead-IsExplained model facts =
    let lines = score_lines model facts (λ c. pos 0) model.rules in
    let sum : sum_points (pos 0) lines ≡ line_sum lines =
      sum_points_lem (pos 0) lines ∙ +ℤ_zero (line_sum lines) in
    let (low, high, clamped) = clamp_lem (line_sum lines) in
    rw sum (record {
      low = low;
      high = high;
      total = clamped;
      attributed = lines-IsAttributed model facts (λ c. pos 0) model.rules;
      banded = band_for_lem _ model.bands;
    })
