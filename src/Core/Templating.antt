-- ===== src/Core/Templating.antt =====
-- packages/core/src/templating.ts: substitution of {{variables}} in a message template.
use insurnace_automations.Base.{
  ℕ, zero, suc, ◌&&◌, ◌||◌, Option, none, some, List, [], ◌∷◌, ◌++◌, Text, codes, trim, is_space,
  text_eq, length, ◌==◌, if◌then◌else◌, ◌≡◌, refl,
}
use insurnace_automations.Regex.{is_word}

pub record RenderResult : Type 0 where
  pub text : Text
  pub missing : List Text

-- `vars`: the values by key; a value that is missing or null has no entry.
abbrev pub Vars : Type 0
Vars = List (Text × Text)

pub var_of : Text → Vars → Option Text
var_of key [] = none
var_of key ((k, v) ∷ vars) = let rest = var_of key vars in if text_eq k key then some v else rest

pub skip_space : Text → Text
skip_space [] = []
skip_space (c ∷ s) = let rest = skip_space s in if is_space c then rest else c ∷ s

-- `[\w.]+`: the key and what follows it.
pub take_key : Text → Text × Text
take_key [] = ([], [])
take_key (c ∷ s) =
    let (key, rest) = take_key s in if is_word c || c == b'.' then (c ∷ key, rest) else ([], c ∷ s)

-- `}}` at the front, and what follows it.
pub close : Text → Option Text
close (c ∷ d ∷ s) = if (c == 125) && (d == 125) then some s else none
close _ = none

-- `{{\s*([\w.]+)\s*}}` at the front: the key and what follows the match.
pub placeholder : Text → Option (Text × Text)
unfolding skip_space take_key close
placeholder (c ∷ d ∷ s) =
    if (c == 123) && (d == 123)
    then (let (key, rest) = take_key (skip_space s) in
        elim key [
          | [] ↦ none
          | k ∷ ks ↦ elim (close (skip_space rest)) [
            | none ↦ none
            | some after ↦ some (k ∷ ks, after)
          ]
        ])
    else none
placeholder _ = none

-- `.replace(/\{\{\s*([\w.]+)\s*\}\}/g, …)`: each round consumes something, so the text's length is
-- enough fuel.
pub substitute : ℕ → Text → Vars → RenderResult
unfolding placeholder var_of
substitute zero s vars = record { text = s; missing = [] }
substitute (suc fuel) [] vars = record { text = []; missing = [] }
substitute (suc fuel) (c ∷ s) vars = elim (placeholder (c ∷ s)) [
  | none ↦
      (let rest = substitute fuel s vars in record { text = c ∷ rest.text; missing = rest.missing })
  | some (key, after) ↦
      (let rest = substitute fuel after vars in
        elim (var_of key vars) [
          | some (v ∷ vs) ↦ record { text = (v ∷ vs) ++ rest.text; missing = rest.missing }
          | _ ↦ record { text = rest.text; missing = key ∷ rest.missing }
        ])
]

-- `.replace(/\s{2,}/g, " ")`: a run of two or more becomes one space; the argument is the run so far.
pub squeeze : Text → Text → Text
squeeze run [] = elim run [ [] ↦ [] | c ∷ r ↦ elim r [ [] ↦ c ∷ [] | _ ↦ 32 ∷ [] ] ]
squeeze run (c ∷ s) =
    let longer = squeeze (c ∷ run) s in
    let after = c ∷ squeeze [] s in
    if is_space c
    then longer
    else elim run [ [] ↦ after | d ∷ r ↦ elim r [ [] ↦ d ∷ after | _ ↦ 32 ∷ after ] ]

unfoldable pub render_template : Text → Vars → RenderResult
unfolding substitute squeeze
render_template template vars =
    let r = substitute (suc (length template)) template vars in
    record { text = trim (squeeze [] r.text); missing = r.missing }

render_tests :
    (render_template
        (codes "Hi {{ firstName }},  it's {{agent.name}}{{x}}.")
        ((codes "firstName", codes "Ann") ∷ (codes "agent.name", codes "Ava") ∷ [])
      ≡ record { text = codes "Hi Ann, it's Ava."; missing = codes "x" ∷ [] })
unfolding render_template
render_tests = refl
