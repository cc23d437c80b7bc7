-- ===== src/Worker/Robust/Held.antt =====
-- A lead with a conversation in which the AI is paused, through the steps of apps/worker.
use insurnace_automations.Base.{
  ℕ, Bool, true, false, some, List, [], ◌∷◌, ◌++◌, find, find-update_where_other, ◌≡◌, refl, ◌==◌,
  Bool-cases, inl, inr, if◌then◌else◌,
}
use insurnace_automations.Worker.Store.{Lead, Conversation}
use insurnace_automations.Worker.Robust.{Tables, Robust}

-- The lead is there, and its conversation is paused.
abbrev pub Held : ℕ → Tables
Held id ls cs ss os =
    (l : Lead) × (c : Conversation) × (find (λ x. x.id == id) ls ≡ some l)
    × (find (λ x. x.lead_id == id) cs ≡ some c)
    × (c.ai_paused ≡ true)

find-append_some :
    (p : Conversation → Bool) (cs ys : List Conversation) (c : Conversation)
    → find p cs ≡ some c
    → find p (cs ++ ys) ≡ some c
find-append_some p [] ys c e = cc
find-append_some p (x ∷ cs) ys c e = elim (Bool-cases (p x)) [
  | inl hit ↦ rw hit (rw hit at e)
  | inr miss ↦ rw miss (find-append_some p cs ys c (rw miss at e))
]

still_paused :
    (b : Bool) (c : Conversation)
    → c.ai_paused ≡ true
    → (if b then record c { ai_paused = true } else c).ai_paused ≡ true
still_paused true c h = refl
still_paused false c h = h

pub Held-Robust : (id : ℕ) → Robust (Held id)
Held-Robust id = record {
  moves = λ ls cs ss os q f same (l, c, found, there, paused). (
    if q l then f l else l,
    c,
    find-update_where_other (λ x. x.id == id) q f (λ x. rw (same x) refl) ls l found,
    there,
    paused,
  );
  opens = λ ls cs ss os new (l, c, found, there, paused).
      (l, c, found, find-append_some (λ x. x.lead_id == id) cs (new ∷ []) c there, paused);
  pauses = λ ls cs ss os n (l, c, found, there, paused). (
    l,
    if c.id == n then record c { ai_paused = true } else c,
    found,
    find-update_where_other (λ x. x.lead_id == id) (λ x. x.id == n)
        (λ x. record x { ai_paused = true }) (λ x. refl) cs c there,
    still_paused (c.id == n) c paused,
  );
  suppresses = λ ls cs ss os s h. h;
  voids = λ ls cs ss os q h. h;
  mails = λ ls cs ss os o clear h. h;
}
