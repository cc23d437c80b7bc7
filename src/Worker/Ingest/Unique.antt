-- ===== src/Worker/Ingest/Unique.antt =====
-- The leads that apps/worker/src/processors/ingest.ts makes have a phone number that no lead has.
use insurnace_automations.Base.{
  List-cases, String, Bool, true, false, ◌||◌, Option, none, some, List, [], ◌∷◌, map, filter,
  str_eq, eq_iff, In, ◌≡◌, refl, subst, ap, ◌≢◌, inl, inr, arith, Bool-cases,
}
use insurnace_automations.Core.Dedup.{create, same_text, matches}
use insurnace_automations.Core.Dedup.Laws.{Promise, resolve-Promise}
use insurnace_automations.Worker.Store.{Lead, Db}
use insurnace_automations.Worker.Mapping.{NormalizedLead}
use insurnace_automations.Worker.Ingest.Match.{
  is_candidate, load_candidates, dedup_candidate, dedup_input, outcome_for, phone_taken, same_phone,
}

find_first :
    (p : Lead → Bool) (xs : List Lead) (y : Lead) (ys : List Lead)
    → filter p xs ≡ y ∷ ys
    → p y ≡ true
find_first p [] y ys e = cc
find_first p (x ∷ xs) y ys e = ground (arith, find_first p xs y ys)

-- A candidate has the lead's phone or email, so that the decision never makes a lead beside it.
candidate-matches :
    (n : NormalizedLead) (l : Lead)
    → is_candidate n l ≡ true
    → matches (dedup_input n) (dedup_candidate l) ≡ true
unfolding matches is_candidate
candidate-matches n l h = ground arith

pub create-none :
    (n : NormalizedLead) (d : Db) → outcome_for n d ≡ create → filter (is_candidate n) d.leads ≡ []
unfolding outcome_for load_candidates
create-none n d e = elim (List-cases (filter (is_candidate n) d.leads)) [
  | inl nobody ↦ nobody
  | inr (l, ls, there) ↦
      let candidates = map dedup_candidate (load_candidates n d) in
      let unmatched =
        subst (Promise (dedup_input n) candidates) e (resolve-Promise (dedup_input n) candidates) in
      let listed : In (dedup_candidate l) candidates = rw there (inl refl) in
      cc (
        unmatched (dedup_candidate l) listed,
        candidate-matches n l (find_first (is_candidate n) d.leads l ls there),
      )
]

apart : (p q : Option String) → p ≢ some "" → same_text p q ≡ false → same_phone p q ≡ false
apart none q h k = refl
apart (some p) none h k = refl
apart (some p) (some q) h k = elim (Bool-cases (str_eq p "")) [
  | inl e ↦ absurd (h (ap some ((eq_iff p "").0 e)))
  | inr e ↦ rw e at k
]

or_false : (a b : Bool) → (a || b) ≡ false → a ≡ false
or_false true b h = h
or_false false b h = refl

other_phone :
    (n : NormalizedLead) (l : Lead)
    → is_candidate n l ≡ false
    → same_text n.phone_e164 l.phone_e164 ≡ false
unfolding is_candidate
other_phone n l h = or_false (same_text n.phone_e164 l.phone_e164) _ h

pub not_taken :
    (n : NormalizedLead) (ls : List Lead)
    → n.phone_e164 ≢ some ""
    → filter (is_candidate n) ls ≡ []
    → phone_taken n.phone_e164 ls ≡ false
unfolding phone_taken
not_taken n [] h e = refl
not_taken n (l ∷ ls) h e = elim (Bool-cases (is_candidate n l)) [
  | inl hit ↦ cc (rw hit at e)
  | inr miss ↦
      rw (apart n.phone_e164 l.phone_e164 h (other_phone n l miss))
        (not_taken n ls h (rw miss at e))
]
