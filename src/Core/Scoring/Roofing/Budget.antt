-- ===== src/Core/Scoring/Roofing/Budget.antt =====
-- The budgets of the roofing model of packages/core/src/verticals/roofing-hvac.ts.
use insurnace_automations.Base.{
  ◌≡◌, refl, sym, ap, ◌∙◌, ◌⊎◌, inl, inr, Option, some, List, [], ◌∷◌, All, arith, if◌then◌else◌,
  Bool-cases, Option-cases,
}
use insurnace_automations.Base.Int.{ℤ, pos, negsuc, ◌+ℤ◌, ◌≤ℤ◌, int_laws}
use insurnace_automations.Core.Scoring.{
  ScoreCategory, fit, intent, urgency, engagement, negative, category_eq, ScoringFacts, ScoringRule,
  ScoringModel, ScoreLine, Totals, set_total, is_on, capped, score_lines, score_lead,
}
use insurnace_automations.Core.Scoring.Caps.{
  capped-le, ScoreCategory-eq, category_sum, line_sum, category_within_cap, score_lead-IsExplained,
}
use insurnace_automations.Core.Scoring.Roofing.{roofing_hvac_scoring_model}

regroup :
    (c : ScoreCategory) (p s f i u e n : ℤ)
    → s ≡ f +ℤ i +ℤ u +ℤ e +ℤ n
    → p +ℤ s
      ≡ (if category_eq fit c then p +ℤ f else f)
        +ℤ (if category_eq intent c then p +ℤ i else i)
        +ℤ (if category_eq urgency c then p +ℤ u else u)
        +ℤ (if category_eq engagement c then p +ℤ e else e)
        +ℤ (if category_eq negative c then p +ℤ n else n)
regroup fit p s f i u e n h = rw h (omega int_laws)
regroup intent p s f i u e n h = rw h (omega int_laws)
regroup urgency p s f i u e n h = rw h (omega int_laws)
regroup engagement p s f i u e n h = rw h (omega int_laws)
regroup negative p s f i u e n h = rw h (omega int_laws)

-- The lines of the five categories are all the lines.
line_sum_split :
    (ls : List ScoreLine)
    → line_sum ls
      ≡ category_sum fit ls
        +ℤ category_sum intent ls
        +ℤ category_sum urgency ls
        +ℤ category_sum engagement ls
        +ℤ category_sum negative ls
line_sum_split [] = omega int_laws
line_sum_split (l ∷ ls) = regroup l.category l.points _ _ _ _ _ _ (line_sum_split ls)

-- Rules of the category `negative` take points away.
abbrev IsPenalty : ScoringRule → Type 0
IsPenalty r = r.category ≡ negative → r.points ≤ℤ pos 0

negative_step :
    (r : ScoringRule) (cap : Option ℤ) (current points rest : ℤ)
    → IsPenalty r
    → capped cap r.points current ≡ some points
    → rest ≤ℤ pos 0
    → (if category_eq negative r.category then points +ℤ rest else rest) ≤ℤ pos 0
negative_step r cap current points rest penalty e h =
    elim (Bool-cases (category_eq negative r.category)) [
      | inl same ↦ rw same (
          omega (
            int_laws,
            capped-le cap r.points current points e,
            penalty (sym (ScoreCategory-eq negative r.category same)),
          ))
      | inr other ↦ rw other h
    ]

negative_sum :
    (model : ScoringModel) (facts : ScoringFacts) (totals : Totals) (rules : List ScoringRule)
    → All IsPenalty rules
    → category_sum negative (score_lines model facts totals rules) ≤ℤ pos 0
unfolding score_lines
negative_sum model facts totals [] h = omega arith
negative_sum model facts totals (r ∷ rs) h = elim (Bool-cases (is_on (facts r.when))) [
  | inr off ↦ rw off (negative_sum model facts totals rs h.1)
  | inl on ↦
      rw on (elim (Option-cases (capped (model.caps r.category) r.points (totals r.category))) [
        | inl skipped ↦ rw skipped (negative_sum model facts totals rs h.1)
        | inr (points, earned) ↦ rw earned (
            negative_step r _ _ points _ h.0 earned (
              negative_sum model facts (set_total totals r.category (totals r.category +ℤ points))
                rs h.1))
      ])
]

roofing_penalties : All IsPenalty roofing_hvac_scoring_model.rules
unfolding roofing_hvac_scoring_model
roofing_penalties = ground arith

breakdown_negative :
    (facts : ScoringFacts)
    → category_sum negative (score_lead roofing_hvac_scoring_model facts).breakdown ≤ℤ pos 0
unfolding score_lead
breakdown_negative facts =
    negative_sum roofing_hvac_scoring_model facts (λ c. pos 0) roofing_hvac_scoring_model.rules
      roofing_penalties

full_lem : (sum total : ℤ) → sum ≤ℤ pos 100 → pos 100 ≤ℤ sum → total ≡ pos 100 → total ≡ sum
full_lem (pos n) total h k e = let same : n ≡ 100 = omega (arith, h, k) in e ∙ ap pos (sym same)
full_lem (negsuc n) total h k e = absurd (omega (arith, k))

-- Whatever is known of a roofing lead, the lines of its score add up to at most 100, so that the
-- score is that sum where it is not negative, and 0 where it is.
pub roofing_total :
    (facts : ScoringFacts)
    → let r = score_lead roofing_hvac_scoring_model facts in
      (line_sum r.breakdown ≤ℤ pos 100)
      × (((pos 0 ≤ℤ line_sum r.breakdown) × (r.total ≡ line_sum r.breakdown))
          ⊎ ((line_sum r.breakdown ≤ℤ pos 0) × (r.total ≡ pos 0)))
unfolding roofing_hvac_scoring_model
roofing_total facts =
    let model = roofing_hvac_scoring_model in
    let ls = (score_lead model facts).breakdown in
    let explained = score_lead-IsExplained model facts in
    let high : line_sum ls ≤ℤ pos 100 = rw (line_sum_split ls) (
      omega (
        int_laws,
        category_within_cap model facts fit (pos 35) refl (omega arith),
        category_within_cap model facts intent (pos 30) refl (omega arith),
        category_within_cap model facts urgency (pos 20) refl (omega arith),
        category_within_cap model facts engagement (pos 15) refl (omega arith),
        breakdown_negative facts,
      )) in
    (
      high,
      elim explained.total [
        | inl (low, fits, same) ↦ inl (low, same)
        | inr (inl below) ↦ inr below
        | inr (inr (above, full)) ↦
            inl (omega (int_laws, above), full_lem (line_sum ls) _ high above full)
      ],
    )
