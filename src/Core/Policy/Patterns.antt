-- ===== src/Core/Policy/Patterns.antt =====
-- CLAIM_PATTERNS of packages/core/src/policy-gate.ts, one name for each pattern.
use insurnace_automations.Regex.{Regex, chr, bound, is_digit, plus, opt, lit, space, ◌⨾◌, ◌⊔◌}

-- /\$\s?\d|\d+\s?(dollars|usd)\b/i
unfoldable pub pricing_pattern : Regex
pricing_pattern =
    (lit "$" ⨾ opt space ⨾ chr is_digit)
    ⊔ (plus (chr is_digit) ⨾ opt space ⨾ (lit "dollars" ⊔ lit "usd") ⨾ bound)

-- /\b\d+\s?%\s?(off|discount)\b/i
unfoldable pub discount_pattern : Regex
discount_pattern =
    bound
    ⨾ plus (chr is_digit)
    ⨾ opt space
    ⨾ lit "%"
    ⨾ opt space
    ⨾ (lit "off" ⊔ lit "discount")
    ⨾ bound

-- /\bwe\s+guarantee\b|\bguaranteed\b|\bwe\s+promise\b/i
unfoldable pub guarantee_pattern : Regex
guarantee_pattern =
    (bound ⨾ lit "we" ⨾ plus space ⨾ lit "guarantee" ⨾ bound)
    ⊔ (bound ⨾ lit "guaranteed" ⨾ bound)
    ⊔ (bound ⨾ lit "we" ⨾ plus space ⨾ lit "promise" ⨾ bound)

-- /\bfinanc(e|ing)\b|\bmonthly\s+payment\b|\b0%\s+apr\b/i
unfoldable pub financing_pattern : Regex
financing_pattern =
    (bound ⨾ lit "financ" ⨾ (lit "e" ⊔ lit "ing") ⨾ bound)
    ⊔ (bound ⨾ lit "monthly" ⨾ plus space ⨾ lit "payment" ⨾ bound)
    ⊔ (bound ⨾ lit "0%" ⨾ plus space ⨾ lit "apr" ⨾ bound)
