-- ===== src/Core/Normalize.antt =====
-- packages/core/src/normalize.ts: the fields of a lead in one shape. A text and its string are the same
-- JavaScript string: `string_of` gives the string of which the code units are given. `parse_phone` is
-- what libphonenumber makes of a valid number, in E.164.
use insurnace_automations.Base.{
  ℕ, String, Bool, true, false, not, ◌&&◌, Option, none, some, [], ◌∷◌, any, Text, trim, to_lower,
  is_space, ◌==◌, if◌then◌else◌, ◌≡◌, refl,
}
use insurnace_automations.Core.Routing.{is_empty}
use insurnace_automations.Regex.{Regex, chr, plus, lit, ◌⨾◌, ends}

-- `.replace(/\s+/g, by)`, for a `by` of one unit; the first argument is whether a space came before.
unfoldable pub replace_spaces_after : Bool → ℕ → Text → Text
replace_spaces_after spaced by [] = []
replace_spaces_after spaced by (c ∷ s) =
    let rest = replace_spaces_after (is_space c) by s in
    if is_space c then (if spaced then rest else by ∷ rest) else c ∷ rest

abbrev pub replace_spaces : ℕ → Text → Text
replace_spaces by s = replace_spaces_after false by s

-- `s.length > 0 ? s : null`
abbrev pub non_empty : Text → Option Text
non_empty [] = none
non_empty (c ∷ s) = some (c ∷ s)

unfoldable pub normalize_name : Option Text → Option Text
unfolding replace_spaces_after
normalize_name none = none
normalize_name (some raw) = non_empty (replace_spaces 32 (trim raw))

pub record SplitName : Type 0 where
  pub first_name : Option Text
  pub last_name : Option Text

-- The part before the first space, and the part after it, if there is a space.
unfoldable pub before_space : Text → Text
before_space [] = []
before_space (c ∷ s) = let rest = before_space s in if c == 32 then [] else c ∷ rest

unfoldable pub after_space : Text → Option Text
after_space [] = none
after_space (c ∷ s) = let rest = after_space s in if c == 32 then some s else rest

unfoldable pub split_name : Option Text → SplitName
unfolding normalize_name before_space after_space
split_name raw = elim (normalize_name raw) [
  | none ↦ record { first_name = none; last_name = none }
  | some cleaned ↦ record {
    first_name = some (before_space cleaned);
    last_name = after_space cleaned;
  }
]

-- `/^[^\s@]+@[^\s@]+\.[^\s@]+$/`
abbrev pub email_unit : Regex
email_unit = chr (λ c. not (is_space c) && not (c == b'@'))

unfoldable pub email_pattern : Regex
email_pattern = plus email_unit ⨾ lit "@" ⨾ plus email_unit ⨾ lit "." ⨾ plus email_unit

unfoldable pub is_email : Text → Bool
unfolding ends email_pattern
is_email s = any (λ k. is_empty k.rest) (ends email_pattern (record { prev = none; rest = s }))

unfoldable pub normalize_email : (Text → String) → Option Text → Option String
unfolding is_email
normalize_email string_of none = none
normalize_email string_of (some raw) =
    let trimmed = to_lower (trim raw) in if is_email trimmed then some (string_of trimmed) else none

unfoldable pub normalize_phone : (Text → Option String) → Option Text → Option String
normalize_phone parse_phone none = none
normalize_phone parse_phone (some []) = none
normalize_phone parse_phone (some (c ∷ s)) = parse_phone (c ∷ s)

unfoldable pub normalize_postal_code : Option Text → Option Text
normalize_postal_code none = none
normalize_postal_code (some raw) = non_empty (trim raw)

normalize_tests :
    ((split_name (some (32 ∷ 97 ∷ 32 ∷ 32 ∷ 98 ∷ 32 ∷ []))).last_name ≡ some (98 ∷ []))
    × (is_email (97 ∷ 64 ∷ 98 ∷ 46 ∷ 99 ∷ []) ≡ true)
    × (is_email (97 ∷ 64 ∷ 98 ∷ []) ≡ false)
unfolding split_name is_email
normalize_tests = (refl, refl, refl)
