-- ===== src/Core/OptOut.antt =====
-- packages/core/src/optout.ts: deterministic opt-out detection.
pub mod Patterns
pub mod Words
use insurnace_automations.Base.{
  ℕ, Bool, true, false, not, ◌&&◌, ◌||◌, Option, none, some, List, [], ◌∷◌, any, Text, codes, trim,
  to_lower, is_space, text_eq, if◌then◌else◌, ◌==◌, String, ◌≡◌, refl,
}
use insurnace_automations.Regex.{Regex, is_word, test}
use Patterns.{Pattern, withdrawal_patterns}

-- KEYWORDS and HELP_KEYWORDS
unfoldable pub keywords : List Text
keywords =
    codes "stop"
    ∷ codes "stopall"
    ∷ codes "unsubscribe"
    ∷ codes "cancel"
    ∷ codes "end"
    ∷ codes "quit"
    ∷ codes "revoke"
    ∷ []

unfoldable pub help_keywords : List Text
help_keywords = codes "help" ∷ codes "info" ∷ []

pub data MatchedBy : Type 0 where
  keyword freetext : MatchedBy

pub record OptOutMatch : Type 0 where
  pub is_opt_out : Bool
  pub is_help : Bool
  pub matched_by : Option MatchedBy
  pub matched_value : Option Text

-- `.replace(/[^\w\s']/g, " ")`
pub blank_punctuation : Text → Text
blank_punctuation [] = []
blank_punctuation (c ∷ s) =
    (if is_word c || is_space c || c == 39 then c else 32) ∷ blank_punctuation s

-- `.replace(/\s+/g, " ")`; the flag says that a space has just been written for this run.
pub collapse : Bool → Text → Text
collapse spaced [] = []
collapse spaced (c ∷ s) =
    let rest = collapse (is_space c) s in
    if is_space c then (if spaced then rest else 32 ∷ rest) else c ∷ rest

unfoldable pub normalized : Text → Text
unfolding blank_punctuation collapse
normalized body = trim (collapse false (blank_punctuation (to_lower body)))

-- `.split(" ")[0]`
pub first_word : Text → Text
first_word [] = []
first_word (c ∷ s) = let rest = first_word s in if c == 32 then [] else c ∷ rest

-- The loop over WITHDRAWAL_PATTERNS: the source of the first that matches.
pub first_match : List Pattern → Text → Option Text
first_match [] body = none
first_match (p ∷ ps) body =
    let rest = first_match ps body in if test p.regex body then some p.source else rest

-- The verdict on a trimmed message, its normal form and the first word of that.
unfoldable pub judge : Text → Text → Text → OptOutMatch
unfolding first_match keywords help_keywords withdrawal_patterns
judge body norm word =
    if any (text_eq norm) keywords || any (text_eq word) keywords
    then record {
      is_opt_out = true;
      is_help = false;
      matched_by = some keyword;
      matched_value = some word;
    }
    else elim (first_match withdrawal_patterns body) [
      | some source ↦ record {
        is_opt_out = true;
        is_help = false;
        matched_by = some freetext;
        matched_value = some source;
      }
      | none ↦ record {
        is_opt_out = false;
        is_help = any (text_eq norm) help_keywords;
        matched_by = none;
        matched_value = none;
      }
    ]

unfoldable pub detect_opt_out : Text → OptOutMatch
unfolding judge normalized first_word
detect_opt_out raw_body =
    let body = trim raw_body in let norm = normalized body in judge body norm (first_word norm)

detect_tests :
    ((detect_opt_out (codes "STOP")).is_opt_out ≡ true)
    × ((detect_opt_out (codes "Please don't text me")).is_opt_out ≡ true)
    × ((detect_opt_out (codes "Help!")).is_help ≡ true)
    × ((detect_opt_out (codes "I want the leak to stop")).is_opt_out ≡ false)
    × ((detect_opt_out (codes "not interested, please remove me.")).is_opt_out ≡ true)
unfolding detect_opt_out test
detect_tests = (refl, refl, refl, refl, refl)
