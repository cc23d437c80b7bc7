-- ===== src/Worker/Conversation/Fences.antt =====
-- The code fences that parseAgentTurn of packages/adapters/llm/src/types.ts tolerates.
use insurnace_automations.Base.{
  Option, [], ◌∷◌, ◌++◌, Text, codes, trim, trim_solid, trim_padded, ◌≡◌, refl, sym, ap, ◌∙◌, subst,
}
use mathlib.Core.List.{reverse-append, reverse-reverse, append_assoc}
use insurnace_automations.Worker.Conversation.Turn.{
  AgentTurn, after, drop_open, drop_close, clean, parse_agent_turn,
}

-- The text of an object: from brace to brace.
abbrev pub braced : Text → Text
braced s = b'{' ∷ (s ++ b'}' ∷ [])

-- The object on lines of its own.
abbrev lines : Text → Text
lines s = 10 ∷ (braced s ++ 10 ∷ [])

abbrev fence : Text
fence = codes "```"

-- What `clean` does, from the trimmed text on.
clean_steps :
    (raw open_dropped closed : Text)
    → trim raw ≡ raw
    → drop_open raw ≡ open_dropped
    → drop_close open_dropped ≡ closed
    → clean raw ≡ trim closed
unfolding clean
clean_steps raw open_dropped closed e f g =
    ap (λ t. trim (drop_close (drop_open t))) e ∙ ap (λ t. trim (drop_close t)) f ∙ ap trim g

drop_open-braced : (s : Text) → drop_open (braced s) ≡ braced s
unfolding drop_open after
drop_open-braced s = refl

drop_close-braced : (s : Text) → drop_close (braced s) ≡ braced s
unfolding drop_close after
drop_close-braced s = rw (reverse-append (b'{' ∷ s) (b'}' ∷ []), drop_close) refl

drop_close-fence : (t : Text) → drop_close (t ++ fence) ≡ t
unfolding drop_close after
drop_close-fence t = rw (reverse-append t fence, drop_close) (reverse-reverse t)

clean-braced : (s : Text) → clean (braced s) ≡ braced s
clean-braced s =
    clean_steps (braced s) (braced s) (braced s) (trim_solid b'{' s b'}' refl refl)
      (drop_open-braced s) (drop_close-braced s)
    ∙ trim_solid b'{' s b'}' refl refl

trim_fenced : (o t : Text) → trim (b'`' ∷ (o ++ (t ++ fence))) ≡ b'`' ∷ (o ++ (t ++ fence))
trim_fenced o t =
    subst (λ r. trim (b'`' ∷ r) ≡ b'`' ∷ r)
      (append_assoc o (t ++ codes "``") (codes "`")
        ∙ ap (λ r. o ++ r) (append_assoc t (codes "``") (codes "`")))
      (trim_solid b'`' (o ++ (t ++ codes "``")) b'`' refl refl)

-- A tag that the opening fence may carry.
pub data Tag : Type 0 where
  bare json upper_json : Tag

abbrev pub tag_text : Tag → Text
tag_text bare = []
tag_text json = codes "json"
tag_text upper_json = codes "JSON"

-- An answer in a code block.
abbrev pub fenced : Tag → Text → Text
fenced tag s = b'`' ∷ ((b'`' ∷ b'`' ∷ tag_text tag) ++ (lines s ++ fence))

drop_open-fenced : (tag : Tag) (s : Text) → drop_open (fenced tag s) ≡ lines s ++ fence
unfolding drop_open after
drop_open-fenced bare s = refl
drop_open-fenced json s = refl
drop_open-fenced upper_json s = refl

clean-fenced : (tag : Tag) (s : Text) → clean (fenced tag s) ≡ braced s
clean-fenced tag s =
    clean_steps (fenced tag s) (lines s ++ fence) (lines s)
      (trim_fenced (b'`' ∷ b'`' ∷ tag_text tag) (lines s)) (drop_open-fenced tag s)
      (drop_close-fence (lines s))
    ∙ trim_padded b'{' s b'}' 10 10 refl refl refl refl

-- An answer from brace to brace, on lines of its own in a code block with no tag or the tag json in
-- either case, is read as the same answer without the block is, which is handed to the validation as it
-- stands.
pub fenced_is_bare :
    (validate : Text → Option AgentTurn) (tag : Tag) (s : Text)
    → (parse_agent_turn validate (fenced tag s) ≡ parse_agent_turn validate (braced s))
      × (parse_agent_turn validate (braced s) ≡ validate (braced s))
unfolding parse_agent_turn
fenced_is_bare validate tag s =
    (ap validate (clean-fenced tag s ∙ sym (clean-braced s)), ap validate (clean-braced s))
