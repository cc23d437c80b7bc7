-- ===== src/Core/Dedup/Laws.antt =====
-- Theorems on `resolveDuplicate` of packages/core/src/dedup.ts.
use insurnace_automations.Base.{
  ◌≡◌, refl, ◌⊎◌, inl, inr, Bool, true, false, List, [], ◌∷◌, map, filter, In, In-filter,
  In-filter_of, arith, Bool-cases, if◌then◌else◌,
}
use insurnace_automations.Core.Types.{LeadState, unqualified, lost, archived, opted_out, won}
use insurnace_automations.Core.StateMachine.{has}
use insurnace_automations.Core.Dedup.{
  DedupCandidate, DedupInput, DedupOutcome, create, merge, reopen, attach_to_customer,
  flag_for_review, open_states, closed_reopenable, matches, conclude, decide_matched,
  resolve_duplicate,
}

abbrev pub IsOpen : DedupCandidate → Type 0
IsOpen c = has open_states c.state ≡ true

reopenable_cases :
    (s : LeadState)
    → has closed_reopenable s ≡ true
    → (s ≡ unqualified) ⊎ ((s ≡ lost) ⊎ (s ≡ archived))
unfolding closed_reopenable
reopenable_cases s h = ground arith

terminal_cases :
    (s : LeadState)
    → has open_states s ≡ false
    → has closed_reopenable s ≡ false
    → (s ≡ opted_out) ⊎ (s ≡ won)
unfolding open_states closed_reopenable
terminal_cases s h k = ground arith

filter-nil :
    (p : DedupCandidate → Bool) (cs : List DedupCandidate)
    → filter p cs ≡ []
    → (c : DedupCandidate) → In c cs
    → p c ≡ false
filter-nil p cs e c i = elim (Bool-cases (p c)) [
  | inr no_match ↦ no_match
  | inl hit ↦ absurd (rw e at (In-filter_of p cs c i hit))
]

module _ (input : DedupInput) (candidates : List DedupCandidate) where
  -- A candidate with the incoming identity.
  abbrev pub IsMatch : DedupCandidate → Type 0
  IsMatch c = In c candidates × (matches input c ≡ true)

  -- The lead that the decision is about: the only open match, or a match where none is open.
  abbrev pub IsPrimary : DedupCandidate → Type 0
  IsPrimary c =
      IsMatch c
      × ((IsOpen c × ((d : DedupCandidate) → IsMatch d → IsOpen d → d ≡ c))
          ⊎ ((d : DedupCandidate) → IsMatch d → ¬ IsOpen d))

  -- What each outcome promises.
  abbrev pub Promise : DedupOutcome → Type 0
  Promise create = (c : DedupCandidate) → In c candidates → matches input c ≡ false
  Promise (merge id why) =
      (c : DedupCandidate) × IsPrimary c
      × (id ≡ c.lead_id)
      × IsOpen c
      × (input.is_existing_customer ≡ false)
  Promise (reopen id why) =
      (c : DedupCandidate) × IsPrimary c
      × (id ≡ c.lead_id)
      × ((c.state ≡ unqualified) ⊎ ((c.state ≡ lost) ⊎ (c.state ≡ archived)))
      × (input.is_existing_customer ≡ false)
  Promise (attach_to_customer id why) =
      (c : DedupCandidate) × IsPrimary c × (id ≡ c.lead_id) × (input.is_existing_customer ≡ true)
  Promise (flag_for_review ids why) =
      ((c : DedupCandidate) × IsPrimary c
        × (ids ≡ c.lead_id ∷ [])
        × ((c.state ≡ opted_out) ⊎ (c.state ≡ won))
        × (input.is_existing_customer ≡ false))
      ⊎ ((c d : DedupCandidate) × (rest : List DedupCandidate) × (ids
            ≡ map (λ e. e.lead_id) (c ∷ d ∷ rest))
          × ((e : DedupCandidate) → In e (c ∷ d ∷ rest) → IsMatch e × IsOpen e)
          × ((e : DedupCandidate) → IsMatch e → IsOpen e → In e (c ∷ d ∷ rest)))

  by_test :
      (b : Bool) (x y : DedupOutcome)
      → (b ≡ true → Promise x)
      → (b ≡ false → Promise y)
      → Promise (if b then x else y)
  by_test true x y f g = f refl
  by_test false x y f g = g refl

  conclude_lem : (c : DedupCandidate) → IsPrimary c → Promise (conclude input c)
  unfolding conclude
  conclude_lem c p =
      by_test input.is_existing_customer _ _ (λ customer. (c, p, refl, customer))
        λ fresh.
          by_test (has open_states c.state) _ _ (λ o. (c, p, refl, o, fresh))
            λ closed.
              by_test (has closed_reopenable c.state) _ _
                (λ r. (c, p, refl, reopenable_cases c.state r, fresh))
                λ t. inl (c, p, refl, terminal_cases c.state closed t, fresh)

  abbrev matched : List DedupCandidate
  matched = filter (matches input) candidates

  abbrev opens : List DedupCandidate
  opens = filter (λ c. has open_states c.state) matched

  IsMatch-matched : (c : DedupCandidate) → In c matched → IsMatch c
  IsMatch-matched c i = In-filter (matches input) candidates c i

  In-opens : (c : DedupCandidate) → IsMatch c → IsOpen c → In c opens
  In-opens c m o =
      In-filter_of (λ c. has open_states c.state) matched c
        (In-filter_of (matches input) candidates c m.0 m.1) o

  opens-In : (c : DedupCandidate) → In c opens → IsMatch c × IsOpen c
  opens-In c i =
      let (j, o) = In-filter (λ c. has open_states c.state) matched c i in (IsMatch-matched c j, o)

  decide_lem :
      (ms os : List DedupCandidate)
      → matched ≡ ms
      → opens ≡ os
      → Promise (decide_matched input ms os)
  unfolding decide_matched
  decide_lem [] os e f = λ c i. filter-nil (matches input) candidates e c i
  decide_lem (m ∷ ms) [] e f =
      conclude_lem m (IsMatch-matched m (rw e (inl refl)), inr (λ d k o. rw f at (In-opens d k o)))
  decide_lem (m ∷ ms) (o ∷ []) e f =
      let (k, is_open) = opens-In o (rw f (inl refl)) in
      conclude_lem o (
        k,
        inl (
          is_open,
          λ d q r. elim (rw f at (In-opens d q r)) [
            | inl same ↦ same
            | inr none_left ↦ absurd none_left
          ],
        ),
      )
  decide_lem (m ∷ ms) (o ∷ p ∷ os) e f =
      inr (o, p, os, refl, λ d i. opens-In d (rw f i), λ d k q. rw f at (In-opens d k q))

  -- The decision keeps the promise of its outcome. `create`: no candidate has the incoming identity.
  -- `merge`, `reopen`, `attach_to_customer` and a flag for one lead are about the only open match,
  -- or about a match where none is open; a lead is merged only if it is open, reopened only from
  -- `unqualified`, `lost` or `archived`, and flagged alone only if it opted out or was won, all three
  -- not for an existing customer, whose lead is attached. A flag for several names exactly the open
  -- matches, two at least.
  pub resolve-Promise : Promise (resolve_duplicate input candidates)
  unfolding resolve_duplicate
  resolve-Promise = decide_lem matched opens refl refl
