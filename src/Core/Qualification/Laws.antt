-- ===== src/Core/Qualification/Laws.antt =====
-- Theorems on `mergeAnswers` and `nextQuestion` of packages/core/src/qualification.ts.
use insurnace_automations.Base.{
  String, ◌≡◌, refl, ◌⊎◌, inl, inr, Bool, true, false, not, Option, none, some, List, [], ◌∷◌, ◌++◌,
  filter, find, all, In, In-filter, In-filter_of, arith, str_eq, eq_iff, if◌then◌else◌, Bool-cases,
}
use insurnace_automations.Core.Qualification.{
  QualificationField, QualificationSchema, Value, QualificationAnswers, lookup, assign, is_value,
  is_answered, next_question, is_qualification_complete, merge_answers,
}

lookup-assign :
    (k j : String) (v : Value) (es : QualificationAnswers)
    → lookup j (assign k v es) ≡ (if str_eq k j then some v else lookup j es)
unfolding lookup assign
lookup-assign k j v [] = refl
lookup-assign k j v ((i, w) ∷ es) =
    ground (arith, eq_iff k j, eq_iff i k, eq_iff i j, lookup-assign k j v es)

-- The last answer that the extracted facts hold for a key.
abbrev pub extracted_answer : String → QualificationAnswers → Option Value
extracted_answer k [] = none
extracted_answer k ((j, v) ∷ es) = elim (extracted_answer k es) [
  | some w ↦ some w
  | none ↦ if str_eq j k then (if is_value (some v) then some v else none) else none
]

abbrev pub or_else : Option Value → Option Value → Option Value
or_else none d = d
or_else (some v) d = some v

-- After a merge a key holds the last answer extracted for it, or what it held before.
pub lookup-merge :
    (k : String) (existing extracted : QualificationAnswers)
    → lookup k (merge_answers existing extracted)
      ≡ or_else (extracted_answer k extracted) (lookup k existing)
unfolding merge_answers
lookup-merge k existing [] = refl
lookup-merge k existing ((j, v) ∷ es) = ground (
  arith,
  lookup-merge k existing es,
  lookup-merge k (assign j v existing) es,
  lookup-assign j k v existing,
)

abbrev Fields : Type 0
Fields = List QualificationField

module _ (p : QualificationField → Bool) where
  find_cases :
      (xs : Fields)
      → ((find p xs ≡ none) × ((x : QualificationField) → In x xs → p x ≡ false))
        ⊎ ((x : QualificationField) × (find p xs ≡ some x) × In x xs × (p x ≡ true))
  find_cases [] = inl (refl, λ x i. absurd i)
  find_cases (x ∷ xs) = elim (Bool-cases (p x)) [
    | inl hit ↦ rw hit (inr (x, refl, inl refl, hit))
    | inr miss ↦ rw miss (elim (find_cases xs) [
      | inl (e, h) ↦ inl (e, λ y i. elim i [ inl same ↦ rw same miss | inr j ↦ h y j ])
      | inr (y, e, i, h) ↦ inr (y, e, inr i, h)
    ])
  ]

  find-append : (xs ys : Fields) → find p xs ≡ none → find p (xs ++ ys) ≡ find p ys
  find-append [] ys h = refl
  find-append (x ∷ xs) ys h = elim (Bool-cases (p x)) [
    | inl hit ↦ cc (rw hit at h)
    | inr miss ↦ rw miss (find-append xs ys (rw miss at h))
  ]

  find-append_some :
      (xs ys : Fields) (x : QualificationField) → find p xs ≡ some x → find p (xs ++ ys) ≡ some x
  find-append_some [] ys x h = cc
  find-append_some (y ∷ xs) ys x h = elim (Bool-cases (p y)) [
    | inl hit ↦ rw hit (rw hit at h)
    | inr miss ↦ rw miss (find-append_some xs ys x (rw miss at h))
  ]

  all-not :
      (xs : Fields)
      → ((x : QualificationField) → In x xs → p x ≡ false)
      → all (λ x. not (p x)) xs ≡ true
  all-not [] h = refl
  all-not (x ∷ xs) h = rw (h x (inl refl)) (all-not xs (λ y i. h y (inr i)))

all_of :
    (q : QualificationField → Bool) (xs : Fields)
    → ((x : QualificationField) → In x xs → q x ≡ true)
    → all q xs ≡ true
all_of q [] h = refl
all_of q (x ∷ xs) h = rw (h x (inl refl)) (all_of q xs (λ y i. h y (inr i)))

all-false :
    (q : QualificationField → Bool) (xs : Fields) (x : QualificationField)
    → In x xs
    → q x ≡ false
    → all q xs ≡ false
all-false q [] x i h = absurd i
all-false q (y ∷ xs) x i h = ground (arith, all-false q xs x)

not-false : (b : Bool) → not b ≡ false → b ≡ true
not-false true h = refl
not-false false h = cc

not-true : (b : Bool) → not b ≡ true → b ≡ false
not-true true h = cc
not-true false h = refl

module _ (schema : QualificationSchema) (answers : QualificationAnswers) where
  abbrev answered : QualificationField → Bool
  answered f = is_answered answers f.key

  -- What the next question promises: with none left everything is answered; a question is an
  -- unanswered field, required exactly until qualification is complete.
  abbrev pub IsNext : Option QualificationField → Type 0
  IsNext none = (f : QualificationField) → In f schema.fields → answered f ≡ true
  IsNext (some f) =
      In f schema.fields
      × (answered f ≡ false)
      × (f.required ≡ not (is_qualification_complete schema answers))

  abbrev required_fields : Fields
  required_fields = filter (λ f. f.required) schema.fields

  abbrev optional_fields : Fields
  optional_fields = filter (λ f. not f.required) schema.fields

  -- The question that `nextQuestion` returns is the next one: an unanswered field of the schema,
  -- required as long as some required field is unanswered and optional afterwards; where it returns
  -- none, every field of the schema is answered.
  pub next_question-IsNext : IsNext (next_question schema answers)
  unfolding next_question is_qualification_complete
  next_question-IsNext = elim (find_cases (λ f. not (answered f)) required_fields) [
    | inr (f, e, i, h) ↦
        let (there, needed) = In-filter (λ f. f.required) schema.fields f i in
        let bare : answered f ≡ false = not-true (answered f) h in
        rw (find-append_some (λ f. not (answered f)) required_fields optional_fields f e)
          (there, bare, rw (needed, all-false answered required_fields f i bare) refl)
    | inl (e, h) ↦
        let full : all answered required_fields ≡ true =
          all_of answered required_fields (λ x i. not-false (answered x) (h x i)) in
        rw (find-append (λ f. not (answered f)) required_fields optional_fields e)
          (elim (find_cases (λ f. not (answered f)) optional_fields) [
            | inr (f, e', i, h') ↦
                let (there, spare) = In-filter (λ f. not f.required) schema.fields f i in
                rw e' (there, not-true (answered f) h', rw (not-true f.required spare, full) refl)
            | inl (e', h') ↦ rw e' (λ f i. elim (Bool-cases f.required) [
              | inl needed ↦
                  not-false (answered f)
                    (h f (In-filter_of (λ f. f.required) schema.fields f i needed))
              | inr spare ↦
                  not-false (answered f)
                    (h' f (In-filter_of (λ f. not f.required) schema.fields f i (rw spare)))
            ])
          ])
  ]
