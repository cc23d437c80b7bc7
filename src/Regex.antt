-- ===== src/Regex.antt =====
-- JavaScript's regular expressions, as far as the program's patterns use them, with the flag `i` on
-- ASCII letters. A cursor is the code unit before the position and the text after it.
pub mod Matching
use insurnace_automations.Base.{
  ℕ, suc, zero, Option, none, some, List, [], ◌∷◌, ◌++◌, Bool, true, false, ◌&&◌, ◌||◌, not, Text,
  codes, to_lower_char, is_space, leb, ltb, ◌==◌, length, filter, if◌then◌else◌, String,
}

pub record Cursor : Type 0 where
  pub prev : Option ℕ
  pub rest : Text

pub data Regex : Type 0 where
  empty : Regex
  chr : (ℕ → Bool) → Regex
  bound : Regex
  seq : Regex → Regex → Regex
  alt : Regex → Regex → Regex
  star : Regex → Regex

-- `\d`, `\w`
abbrev pub is_digit : ℕ → Bool
is_digit c = leb b'0' c && leb c b'9'

abbrev pub is_word : ℕ → Bool
is_word c = is_digit c || (leb b'a' c && leb c b'z') || (leb b'A' c && leb c b'Z') || c == b'_'

abbrev pub word_at : Option ℕ → Bool
word_at none = false
word_at (some c) = is_word c

abbrev pub first : Text → Option ℕ
first [] = none
first (c ∷ s) = some c

-- `\b`: exactly one side of the position is a word character.
abbrev pub is_bound : Cursor → Bool
is_bound k = if word_at k.prev then not (word_at (first k.rest)) else word_at (first k.rest)

abbrev pub step : (ℕ → Bool) → Text → List Cursor
step p [] = []
step p (c ∷ s) = if p c then record { prev = some c; rest = s } ∷ [] else []

abbrev pub flat_map : (Cursor → List Cursor) → List Cursor → List Cursor
flat_map f [] = []
flat_map f (k ∷ ks) = f k ++ flat_map f ks

abbrev pub shorter : Cursor → Cursor → Bool
shorter k k' = ltb (length k'.rest) (length k.rest)

-- The ends of a starred match: every repetition consumes something.
pub repeat : ℕ → (Cursor → List Cursor) → Cursor → List Cursor
repeat zero f k = k ∷ []
repeat (suc n) f k = k ∷ flat_map (repeat n f) (filter (shorter k) (f k))

-- The positions at which a match that starts at a cursor can end.
unfoldable pub ends : Regex → Cursor → List Cursor
unfolding repeat
ends empty k = k ∷ []
ends (chr p) k = step p k.rest
ends bound k = if is_bound k then k ∷ [] else []
ends (seq r s) k = flat_map (ends s) (ends r k)
ends (alt r s) k = ends r k ++ ends s k
ends (star r) k = repeat (length k.rest) (ends r) k

abbrev some_end : List Cursor → Bool
some_end [] = false
some_end (k ∷ ks) = true

search_from : Regex → Option ℕ → Text → Bool
search_from r prev [] = some_end (ends r (record { prev = prev; rest = [] }))
search_from r prev (c ∷ s) =
    some_end (ends r (record { prev = prev; rest = c ∷ s })) || search_from r (some c) s

-- `r.test(s)`
unfoldable pub test : Regex → Text → Bool
unfolding search_from ends
test r s = search_from r none s

-- `x+`, `x?`, a literal under the flag `i`, `\s`
abbrev pub plus : Regex → Regex
plus r = seq r (star r)

abbrev pub opt : Regex → Regex
opt r = alt r empty

abbrev pub units : Text → Regex
units [] = empty
units (c ∷ s) = seq (chr (λ d. to_lower_char d == c)) (units s)

abbrev pub lit : String → Regex
lit s = units (codes s)

abbrev pub space : Regex
space = chr is_space

infixr 66 ◌⨾◌
abbrev pub ◌⨾◌ : Regex → Regex → Regex
r ⨾ s = seq r s

infixr 64 ◌⊔◌
abbrev pub ◌⊔◌ : Regex → Regex → Regex
r ⊔ s = alt r s
