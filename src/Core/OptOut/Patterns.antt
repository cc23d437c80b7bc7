-- ===== src/Core/OptOut/Patterns.antt =====
-- WITHDRAWAL_PATTERNS of packages/core/src/optout.ts, each with its source.
use insurnace_automations.Base.{not, ◌||◌, ◌==◌, List, [], ◌∷◌, Text, codes}
use insurnace_automations.Regex.{Regex, chr, bound, star, plus, opt, lit, space, ◌⨾◌, ◌⊔◌}

pub record Pattern : Type 0 where
  pub regex : Regex
  pub source : Text

-- `.`: anything but a line terminator
abbrev any_char : Regex
any_char = chr (λ c. not (c == 10 || c == 13 || c == 8232 || c == 8233))

unfoldable pub withdrawal_patterns : List Pattern
withdrawal_patterns =
    record {
      regex =
          bound
          ⨾ lit "do"
          ⨾ star space
          ⨾ lit "n"
          ⨾ opt (lit "'" ⊔ lit "o")
          ⨾ lit "t"
          ⨾ plus space
          ⨾ (lit "contact" ⊔ lit "text" ⊔ lit "message" ⊔ lit "call" ⊔ lit "email")
          ⨾ plus space
          ⨾ lit "me"
          ⨾ bound;
      source = codes "\\bdo\\s*n('|o)?t\\s+(contact|text|message|call|email)\\s+me\\b";
    }
    ∷ record {
      regex =
          bound
          ⨾ lit "stop"
          ⨾ plus space
          ⨾ (lit "texting" ⊔ lit "messaging" ⊔ lit "contacting" ⊔ lit "calling" ⊔ lit "emailing")
          ⨾ bound;
      source = codes "\\bstop\\s+(texting|messaging|contacting|calling|emailing)\\b";
    }
    ∷ record {
      regex =
          bound
          ⨾ lit "remove"
          ⨾ plus space
          ⨾ (lit "me" ⊔ (lit "my" ⨾ plus space ⨾ (lit "number" ⊔ lit "info" ⊔ lit "details")))
          ⨾ bound;
      source = codes "\\bremove\\s+(me|my\\s+(number|info|details))\\b";
    }
    ∷ record {
      regex = bound ⨾ lit "take" ⨾ plus space ⨾ lit "me" ⨾ plus space ⨾ lit "off" ⨾ bound;
      source = codes "\\btake\\s+me\\s+off\\b";
    }
    ∷ record {
      regex =
          bound
          ⨾ lit "no"
          ⨾ plus space
          ⨾ (lit "more" ⊔ lit "further")
          ⨾ plus space
          ⨾ (lit "messages" ⊔ lit "texts" ⊔ lit "contact")
          ⨾ bound;
      source = codes "\\bno\\s+(more|further)\\s+(messages|texts|contact)\\b";
    }
    ∷ record {
      regex = bound ⨾ lit "leave" ⨾ plus space ⨾ lit "me" ⨾ plus space ⨾ lit "alone" ⨾ bound;
      source = codes "\\bleave\\s+me\\s+alone\\b";
    }
    ∷ record {
      regex = bound ⨾ lit "unsubscribe" ⨾ plus space ⨾ lit "me" ⨾ bound;
      source = codes "\\bunsubscribe\\s+me\\b";
    }
    ∷ record {
      regex =
          bound
          ⨾ lit "not"
          ⨾ plus space
          ⨾ lit "interested"
          ⨾ bound
          ⨾ star any_char
          ⨾ bound
          ⨾ (lit "stop" ⊔ lit "remove" ⊔ lit "contact")
          ⨾ bound;
      source = codes "\\bnot\\s+interested\\b.*\\b(stop|remove|contact)\\b";
    }
    ∷ []
