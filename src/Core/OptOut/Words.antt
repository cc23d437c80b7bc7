-- ===== src/Core/OptOut/Words.antt =====
-- Theorems on `detectOptOut` of packages/core/src/optout.ts: keywords and withdrawal patterns.
use insurnace_automations.Base.{
  ℕ, some, none, Bool, true, false, not, ◌&&◌, ◌||◌, List, [], ◌∷◌, ◌++◌, any, All, In, Text,
  is_space, to_lower_char, to_lower, trim, text_eq, text_eq_iff, Ends, Starts, Solid, trim-Starts,
  leb, ◌==◌, if◌then◌else◌, arith, ◌≡◌, refl, sym, ap, ◌∙◌, Bool-cases, inl, inr,
}
use insurnace_automations.Regex.{is_word, test}
use insurnace_automations.Regex.Matching.{Occurs, test_iff}
use insurnace_automations.Core.OptOut.Patterns.{Pattern, withdrawal_patterns}
use insurnace_automations.Core.OptOut.{
  keywords, blank_punctuation, collapse, normalized, first_word, first_match, judge, detect_opt_out,
}

-- A unit that ends a word: neither a word character nor an apostrophe, nor one of the two units whose
-- lower case is or has an ASCII letter.
abbrev pub stops_word : ℕ → Bool
stops_word c = not (is_word c) && not (c == 39) && not (c == 304) && not (c == 8490)

abbrev stops_space : ℕ → Bool
stops_space c = c == 32

abbrev is_lower : ℕ → Bool
is_lower c = leb 97 c && leb c 122

-- The letters of a word, small or capital.
abbrev pub is_letter : ℕ → Bool
is_letter c = (leb 97 c && leb c 122) || (leb 65 c && leb c 90)

abbrev pub Letters : Text → Type 0
Letters w = All (λ c. is_letter c ≡ true) w

Letters-Solid : (w : Text) → Letters w → Solid w
Letters-Solid [] h = tt
Letters-Solid (c ∷ w) h = (ground (arith, h.0), Letters-Solid w h.1)

abbrev Small : Text → Type 0
Small w = All (λ c. is_lower c ≡ true) w

small_of :
    (c : ℕ)
    → is_letter c ≡ true
    → (is_lower (to_lower_char c) ≡ true) × ((c == 304) ≡ false) × ((c == 8490) ≡ false)
small_of c h = ground (arith, h)

letter-step :
    (c : ℕ) (s : Text) → is_letter c ≡ true → to_lower (c ∷ s) ≡ to_lower_char c ∷ to_lower s
letter-step c s h = let (small, a, b) = small_of c h in rw (a, b) refl

-- What a text becomes before it is split into words.
lowered-word : (w t : Text) → Letters w → to_lower (w ++ t) ≡ to_lower w ++ to_lower t
lowered-word [] t h = refl
lowered-word (c ∷ w) t h =
    letter-step c (w ++ t) h.0
    ∙ ap (λ s. to_lower_char c ∷ s) (lowered-word w t h.1)
    ∙ ap (λ s. s ++ to_lower t) (sym (letter-step c w h.0))

to_lower-Small : (w : Text) → Letters w → Small (to_lower w)
to_lower-Small [] h = tt
to_lower-Small (c ∷ w) h = rw (letter-step c w h.0) ((small_of c h.0).0, to_lower-Small w h.1)

small_facts :
    (c : ℕ) → is_lower c ≡ true → (is_space c ≡ false) × ((c == 32) ≡ false) × (is_word c ≡ true)
small_facts c h = ground (arith, h)

stop_facts :
    (c : ℕ)
    → stops_word c ≡ true
    → ((c == 304) ≡ false) × ((c == 8490) ≡ false) × (to_lower_char c ≡ c)
stop_facts c h = ground (arith, h)

blank_facts :
    (c : ℕ)
    → stops_word c ≡ true
    → is_space (if is_word c || is_space c || c == 39 then c else 32) ≡ true
blank_facts c h = elim (Bool-cases (is_space c)) [
  | inl e ↦ ground (arith, h, e)
  | inr e ↦ ground (arith, h, e)
]

lowered-Ends : (t : Text) → Ends stops_word t → Ends stops_word (to_lower t)
lowered-Ends [] h = tt
lowered-Ends (c ∷ t) h = let (a, b, same) = stop_facts c h in rw (a, b, same) h

blank-word : (k t : Text) → Small k → blank_punctuation (k ++ t) ≡ k ++ blank_punctuation t
unfolding blank_punctuation
blank-word [] t h = refl
blank-word (c ∷ k) t h = rw ((small_facts c h.0).2, blank-word k t h.1) refl

blank-Ends : (t : Text) → Ends stops_word t → Ends is_space (blank_punctuation t)
unfolding blank_punctuation
blank-Ends [] h = tt
blank-Ends (c ∷ t) h = blank_facts c h

collapse-word : (k t : Text) → Small k → collapse false (k ++ t) ≡ k ++ collapse false t
unfolding collapse
collapse-word [] t h = refl
collapse-word (c ∷ k) t h = rw ((small_facts c h.0).0, collapse-word k t h.1) refl

collapse-Ends : (t : Text) → Ends is_space t → Ends stops_space (collapse false t)
unfolding collapse
collapse-Ends [] h = tt
collapse-Ends (c ∷ t) h = rw h refl

first_word-word : (k t : Text) → Small k → Ends stops_space t → first_word (k ++ t) ≡ k
unfolding first_word
first_word-word [] [] h e = refl
first_word-word [] (c ∷ t) h e = rw e refl
first_word-word (c ∷ k) t h e = rw ((small_facts c h.0).1, first_word-word k t h.1 e) refl

Small-Solid : (k : Text) → Small k → Solid k
Small-Solid [] h = tt
Small-Solid (c ∷ k) h = ((small_facts c h.0).0, Small-Solid k h.1)

-- The first word of a message that starts with letters and a unit that ends the word.
normal-Starts :
    (c : ℕ) (k : Text) (s : Text)
    → Small (c ∷ k)
    → Starts (c ∷ k) stops_word s
    → Starts (c ∷ k) stops_space (trim (collapse false (blank_punctuation s)))
normal-Starts c k s h start =
    trim-Starts c k stops_space (collapse false (blank_punctuation s)) (Small-Solid (c ∷ k) h)
      (record {
        rest = collapse false (blank_punctuation start.rest);
        split =
            rw (start.split, blank-word (c ∷ k) start.rest h)
              (collapse-word (c ∷ k) (blank_punctuation start.rest) h);
        ends = collapse-Ends (blank_punctuation start.rest) (blank-Ends start.rest start.ends);
      })

normal-first :
    (c : ℕ) (k s : Text)
    → Small (c ∷ k)
    → Starts (c ∷ k) stops_word s
    → first_word (trim (collapse false (blank_punctuation s))) ≡ c ∷ k
normal-first c k s h start =
    let normal = normal-Starts c k s h start in
    rw normal.split (first_word-word (c ∷ k) normal.rest h normal.ends)

lowered-Starts :
    (w s : Text) → Letters w → Starts w stops_word s → Starts (to_lower w) stops_word (to_lower s)
lowered-Starts w s h start = record {
  rest = to_lower start.rest;
  split = rw start.split (lowered-word w start.rest h);
  ends = lowered-Ends start.rest start.ends;
}

first_of :
    (c : ℕ) (w s : Text)
    → Letters (c ∷ w)
    → Starts (c ∷ w) stops_word s
    → first_word (normalized (trim s)) ≡ to_lower (c ∷ w)
unfolding normalized
first_of c w s h start =
    let kept = trim-Starts c w stops_word s (Letters-Solid (c ∷ w) h) start in
    let low = lowered-Starts (c ∷ w) (trim s) h kept in
    let small = to_lower-Small (c ∷ w) h in
    let e = letter-step c w h.0 in
    normal-first (to_lower_char c) (to_lower w) (to_lower (trim s)) (rw e at small) (rw e at low)
    ∙ sym e

known : (k : Text) (ks : List Text) → In k ks → any (text_eq k) ks ≡ true
known k [] i = absurd i
known k (j ∷ ks) (inl e) = rw (e, (text_eq_iff j j).1 refl) refl
known k (j ∷ ks) (inr i) = rw (known k ks i) (ground arith)

judged :
    (body norm word : Text)
    → any (text_eq word) keywords ≡ true
    → (judge body norm word).is_opt_out ≡ true
unfolding judge
judged body norm word h = elim (Bool-cases (any (text_eq norm) keywords)) [
  | inl e ↦ rw (e, judge) refl
  | inr e ↦ rw (e, h, judge) refl
]

-- A message that begins with an opt-out keyword, in small or capital letters, is an opt-out, whatever
-- follows: the keyword has to end there, by the end of the message or a unit that is neither a word
-- character nor an apostrophe (nor U+0130 or U+212A, whose lower case is or has an ASCII letter).
pub keyword_opts_out :
    (c : ℕ) (w s : Text)
    → Letters (c ∷ w)
    → In (to_lower (c ∷ w)) keywords
    → Starts (c ∷ w) stops_word s
    → (detect_opt_out s).is_opt_out ≡ true
unfolding detect_opt_out
keyword_opts_out c w s h i start =
    judged (trim s) (normalized (trim s)) (first_word (normalized (trim s)))
      (rw (first_of c w s h start) (known (to_lower (c ∷ w)) keywords i))

found_match :
    (p : Pattern) (ps : List Pattern) (body : Text)
    → In p ps
    → test p.regex body ≡ true
    → (source : Text) × (first_match ps body ≡ some source)
unfolding first_match
found_match p [] body i h = absurd i
found_match p (q ∷ ps) body (inl e) h = (q.source, rw (rw e at h) refl)
found_match p (q ∷ ps) body (inr i) h = elim (Bool-cases (test q.regex body)) [
  | inl hit ↦ (q.source, rw hit refl)
  | inr miss ↦ let (source, found) = found_match p ps body i h in (source, rw (miss, found) refl)
]

withdrawn :
    (body norm word source : Text)
    → first_match withdrawal_patterns body ≡ some source
    → (judge body norm word).is_opt_out ≡ true
unfolding judge
withdrawn body norm word source h =
    elim (Bool-cases (any (text_eq norm) keywords || any (text_eq word) keywords)) [
      | inl e ↦ rw (e, judge) refl
      | inr e ↦ rw (e, h, judge) refl
    ]

-- A message in which one of the withdrawal patterns occurs, anywhere and in the sense of the regular
-- expression's language, is an opt-out, whatever else it says.
pub pattern_opts_out :
    (p : Pattern) (s : Text)
    → In p withdrawal_patterns
    → Occurs p.regex none (trim s)
    → (detect_opt_out s).is_opt_out ≡ true
unfolding detect_opt_out
pattern_opts_out p s i o =
    let (source, found) =
      found_match p withdrawal_patterns (trim s) i ((test_iff p.regex (trim s)).1 o) in
    withdrawn (trim s) (normalized (trim s)) (first_word (normalized (trim s))) source found
