-- ===== src/Tests/OptOut.antt =====
-- Two messages that opt out, by keyword and by phrase.
use insurnace_automations.Base.{true, codes, Text, In, inl, inr, trim, to_lower, Starts, ◌≡◌, refl}
use insurnace_automations.Regex.{test}
use insurnace_automations.Regex.Matching.{test_iff}
use insurnace_automations.Core.OptOut.{keywords, detect_opt_out}
use insurnace_automations.Core.OptOut.Patterns.{Pattern, withdrawal_patterns}
use insurnace_automations.Core.OptOut.Words.{
  stops_word, Letters, keyword_opts_out, pattern_opts_out,
}

abbrev stop_text : Text
stop_text = codes "Stop, please!"

abbrev off_text : Text
off_text = codes "Please take me off your list"

stop-Letters : Letters (codes "Stop")
stop-Letters = (refl, (refl, (refl, (refl, tt))))

stop_is_keyword : In (to_lower (codes "Stop")) keywords
unfolding keywords
stop_is_keyword = inl refl

stop-Starts : Starts (codes "Stop") stops_word stop_text
stop-Starts = record { rest = codes ", please!"; split = refl; ends = refl }

off_pattern : (p : Pattern) × In p withdrawal_patterns × (test p.regex (trim off_text) ≡ true)
unfolding withdrawal_patterns test
off_pattern = (_, inr (inr (inr (inl refl))), refl)

keyword_opts_out_example : (detect_opt_out stop_text).is_opt_out ≡ true
keyword_opts_out_example =
    keyword_opts_out b'S' (codes "top") stop_text stop-Letters stop_is_keyword stop-Starts

pattern_opts_out_example : (detect_opt_out off_text).is_opt_out ≡ true
pattern_opts_out_example =
    pattern_opts_out off_pattern.0 off_text off_pattern.1
      ((test_iff off_pattern.0.regex (trim off_text)).0 off_pattern.2)
