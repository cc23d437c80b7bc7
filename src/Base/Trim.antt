-- ===== src/Base/Trim.antt =====
-- The theory of `trim` on texts that begin with a word.
use Prim.Native.Nat.{ℕ}
use mathlib.Core.Path.{◌≡◌, refl, sym, ap, ◌∙◌}
use mathlib.Core.Logic.{inl, inr}
use mathlib.Core.Bool.{Bool, true, false}
use mathlib.Core.List.{[], ◌∷◌, ◌++◌, reverse, reverse-cons, reverse-append}
use native.Mathlib.Omega.{arith}
use insurnace_automations.Base.Tests.{if◌then◌else◌, Bool-cases}
use insurnace_automations.Base.Lists.{All}
use insurnace_automations.Base.Texts.{Text, is_space, trim_start, trim}

abbrev pub push_end : Text → ℕ → Text
push_end [] c = if is_space c then [] else c ∷ []
push_end (d ∷ s) c = (d ∷ s) ++ c ∷ []

-- A unit before a text that has no spaces at its end.
abbrev pub before : ℕ → Text → Text
before c [] = if is_space c then [] else c ∷ []
before c (d ∷ r) = c ∷ d ∷ r

-- A text without the spaces at its end.
abbrev pub trim_end : Text → Text
trim_end [] = []
trim_end (c ∷ s) = before c (trim_end s)

trim_start-push : (s : Text) (c : ℕ) → trim_start (s ++ c ∷ []) ≡ push_end (trim_start s) c
trim_start-push [] c = refl
trim_start-push (d ∷ s) c = ground (arith, trim_start-push s c)

before-some : (c d : ℕ) (r : Text) → before c (r ++ d ∷ []) ≡ c ∷ (r ++ d ∷ [])
before-some c d [] = refl
before-some c d (e ∷ r) = refl

reverse-push_end : (s : Text) (c : ℕ) → reverse (push_end s c) ≡ before c (reverse s)
reverse-push_end [] c = ground arith
reverse-push_end (d ∷ s) c =
    reverse-append (d ∷ s) (c ∷ [])
    ∙ ap (λ r. c ∷ r) (reverse-cons d s)
    ∙ sym (before-some c d (reverse s))
    ∙ ap (before c) (sym (reverse-cons d s))

trim_end_lem : (s : Text) → reverse (trim_start (reverse s)) ≡ trim_end s
trim_end_lem [] = refl
trim_end_lem (c ∷ s) =
    rw
      (
        reverse-cons c s,
        trim_start-push (reverse s) c,
        reverse-push_end (trim_start (reverse s)) c,
        trim_end_lem s,
      )
      refl

-- A word, and what may follow it: nothing, or a unit that ends the word.
abbrev pub Ends : (ℕ → Bool) → Text → Type 0
Ends stops [] = Unit
Ends stops (c ∷ t) = stops c ≡ true

pub record Starts (w : Text) (stops : ℕ → Bool) (s : Text) : Type 0 where
  pub rest : Text
  pub split : s ≡ w ++ rest
  pub ends : Ends stops rest

abbrev pub Solid : Text → Type 0
Solid w = All (λ c. is_space c ≡ false) w

before-Ends : (stops : ℕ → Bool) (c : ℕ) (r : Text) → stops c ≡ true → Ends stops (before c r)
before-Ends stops c [] h = elim (Bool-cases (is_space c)) [ inl e ↦ rw e tt | inr e ↦ rw e h ]
before-Ends stops c (d ∷ r) h = h

trim_end-Ends : (stops : ℕ → Bool) (t : Text) → Ends stops t → Ends stops (trim_end t)
trim_end-Ends stops [] h = h
trim_end-Ends stops (c ∷ t) h = before-Ends stops c (trim_end t) h

before-solid : (c : ℕ) (r : Text) → is_space c ≡ false → before c r ≡ c ∷ r
before-solid c [] h = rw h refl
before-solid c (d ∷ r) h = refl

trim_end-word : (w t : Text) → Solid w → trim_end (w ++ t) ≡ w ++ trim_end t
trim_end-word [] t h = refl
trim_end-word (c ∷ w) t h = rw (trim_end-word w t h.1) (before-solid c (w ++ trim_end t) h.0)

-- Trimming a text that starts with a word leaves a text that starts with it.
pub trim-Starts :
    (c : ℕ) (w : Text) (stops : ℕ → Bool) (s : Text)
    → Solid (c ∷ w)
    → Starts (c ∷ w) stops s
    → Starts (c ∷ w) stops (trim s)
trim-Starts c w stops s h start = record {
  rest = trim_end start.rest;
  split =
      rw (start.split, h.0)
        (trim_end_lem (c ∷ (w ++ start.rest)) ∙ trim_end-word (c ∷ w) start.rest h);
  ends = trim_end-Ends stops start.rest start.ends;
}

trim_end-solid : (s : Text) (d : ℕ) → is_space d ≡ false → trim_end (s ++ d ∷ []) ≡ s ++ d ∷ []
trim_end-solid [] d h = rw h refl
trim_end-solid (c ∷ s) d h = rw (trim_end-solid s d h) (before-some c d s)

trim_end-space : (s : Text) (d : ℕ) → is_space d ≡ true → trim_end (s ++ d ∷ []) ≡ trim_end s
trim_end-space [] d h = rw h refl
trim_end-space (c ∷ s) d h = ap (before c) (trim_end-space s d h)

-- A text between two units that are no spaces is trimmed already.
pub trim_solid :
    (c : ℕ) (s : Text) (d : ℕ)
    → is_space c ≡ false
    → is_space d ≡ false
    → trim (c ∷ (s ++ d ∷ [])) ≡ c ∷ (s ++ d ∷ [])
trim_solid c s d h k = rw h (trim_end_lem (c ∷ (s ++ d ∷ [])) ∙ trim_end-solid (c ∷ s) d k)

-- One space on either side of such a text is trimmed away.
pub trim_padded :
    (c : ℕ) (s : Text) (d a b : ℕ)
    → is_space c ≡ false
    → is_space d ≡ false
    → is_space a ≡ true
    → is_space b ≡ true
    → trim (a ∷ ((c ∷ (s ++ d ∷ [])) ++ b ∷ [])) ≡ c ∷ (s ++ d ∷ [])
trim_padded c s d a b h k l m =
    rw (l, h)
      (trim_end_lem ((c ∷ (s ++ d ∷ [])) ++ b ∷ [])
        ∙ trim_end-space (c ∷ (s ++ d ∷ [])) b m
        ∙ trim_end-solid (c ∷ s) d k)
