-- ===== src/Core/Routing/Choice.antt =====
-- Theorems on `routeLead` of packages/core/src/routing.ts: who is assigned.
use insurnace_automations.Base.{
  ℕ, ◌≤◌, ◌≡◌, refl, ap, ◌∙◌, ◌⊎◌, inl, inr, Bool, true, false, none, some, List, [], ◌∷◌, filter,
  find, get_or, In, In-filter, In-filter_of, arith, Bool-cases, Option-cases,
}
use insurnace_automations.Core.Routing.{
  RepCandidate, RoutingInput, RoutingConfig, RoutingResult, workload, territory_match,
  specialty_match, uses, sort_reps, others, is_eligible, assign, pool_of, primary_pool,
  route_active, route_lead,
}
use insurnace_automations.Core.Routing.Laws.{
  Assigned, assign-Assigned, pool-In_sub, pool-In_keep, pool-some, pool-primary_sub,
  pool-primary_ne, pool-primary_eligible, pool-nil, primary_pool-nil,
}

abbrev pub owns : RepCandidate → Bool
owns c = get_or c.owns_contact false

abbrev active_of : List RepCandidate → List RepCandidate
active_of candidates = filter (λ c. c.active) candidates

find_sound :
    (xs : List RepCandidate) (o : RepCandidate) → find owns xs ≡ some o → In o xs × (owns o ≡ true)
find_sound [] o h = cc
find_sound (x ∷ xs) o h = ground (arith, find_sound xs o)

find-none :
    (xs : List RepCandidate) → ((x : RepCandidate) → In x xs → owns x ≡ false) → find owns xs ≡ none
find-none [] h = refl
find-none (x ∷ xs) h = rw (h x (inl refl)) (find-none xs (λ y i. h y (inr i)))

not-In-others : (u : ℕ) (cs : List RepCandidate) → ¬ In u (others u cs)
not-In-others u [] i = i
not-In-others u (c ∷ cs) i = ground (arith, not-In-others u cs)

filter_none :
    (xs : List RepCandidate) → ((c : RepCandidate) → In c xs → c.active ≡ false) → active_of xs ≡ []
filter_none [] h = refl
filter_none (x ∷ xs) h = rw (h x (inl refl)) (filter_none xs (λ c i. h c (inr i)))

-- Who is assigned: an active candidate with that id, who is no fallback for itself.
pub record IsAssigned (candidates : List RepCandidate) (r : RoutingResult) (c : RepCandidate)
    : Type 0 where
  pub listed : In c candidates
  pub active : c.active ≡ true
  pub primary : r.primary_user_id ≡ some c.user_id
  pub apart : ¬ In c.user_id r.fallback_user_ids

module _ (input : RoutingInput) (candidates : List RepCandidate) (config : RoutingConfig) where
  -- The route where no active candidate owns the contact.
  abbrev routed : RoutingResult
  routed =
      let (pool, reasons) = pool_of input config (active_of candidates) in
      assign config (sort_reps pool) (primary_pool pool) reasons

  -- Some active rep is there: the pool of the final choice is not empty.
  choice :
      (c : RepCandidate)
      → In c (active_of candidates)
      → let pool = (pool_of input config (active_of candidates)).0 in
        Assigned config (sort_reps pool) (primary_pool pool) routed
  choice c i =
      let (y, j) = pool-some input config (active_of candidates) c i in
      assign-Assigned config _ _ (pool_of input config (active_of candidates)).1
        (pool-primary_ne (pool_of input config (active_of candidates)).0 y j)

  route-nil : (route_active input config []).primary_user_id ≡ none
  unfolding route_active
  route-nil =
      rw (pool-nil input config)
        (primary_pool-nil config (sort_reps []) (pool_of input config []).1)

  choice-IsAssigned :
      (c : RepCandidate) (i : In c (active_of candidates))
      → IsAssigned candidates routed (choice c i).rep
  choice-IsAssigned c i =
      let a = choice c i in
      let (there, on) =
        In-filter (λ c. c.active) candidates a.rep
          (pool-In_sub input config (active_of candidates) a.rep
            (pool-primary_sub (pool_of input config (active_of candidates)).0 a.rep a.listed)) in
      record {
        listed = there;
        active = on;
        primary = a.primary;
        apart = rw a.fallback (
            not-In-others a.rep.user_id
              (sort_reps (pool_of input config (active_of candidates)).0));
      }

  active-IsAssigned :
      (c : RepCandidate)
      → In c (active_of candidates)
      → (d : RepCandidate) × IsAssigned candidates (route_lead input candidates config) d
  unfolding route_lead
  active-IsAssigned c i = elim (Option-cases (find owns (active_of candidates))) [
    | inl e ↦ rw (e, route_active) ((choice c i).rep, choice-IsAssigned c i)
    | inr (o, e) ↦
        let (j, h) = find_sound (active_of candidates) o e in
        let (there, on) = In-filter (λ c. c.active) candidates o j in
        rw (e, route_active)
          (
            o,
            record {
              listed = there;
              active = on;
              primary = refl;
              apart = not-In-others o.user_id (active_of candidates);
            },
          )
  ]

  nobody : active_of candidates ≡ [] → (route_lead input candidates config).primary_user_id ≡ none
  unfolding route_lead
  nobody e =
      ap (λ (active : List RepCandidate). (route_active input config active).primary_user_id) e
      ∙ route-nil

  -- If some candidate is active, the lead goes to an active candidate, who is none of the fallbacks.
  pub active_rep_wins :
      (c : RepCandidate)
      → In c candidates
      → c.active ≡ true
      → (d : RepCandidate) × IsAssigned candidates (route_lead input candidates config) d
  active_rep_wins c i on = active-IsAssigned c (In-filter_of (λ c. c.active) candidates c i on)

  -- If no candidate is active, the lead goes to nobody.
  pub no_rep_no_choice :
      ((c : RepCandidate) → In c candidates → c.active ≡ false)
      → (route_lead input candidates config).primary_user_id ≡ none
  no_rep_no_choice h = nobody (filter_none candidates h)

  -- Where no active candidate owns the contact and an active rep is available, below the cap and
  -- right for the lead's territory and service, the lead goes to a rep who is available and below
  -- the cap; and under the strategy `workload` to one whose workload is at most that rep's.
  pub eligible_rep_wins :
      (e : RepCandidate)
      → ((c : RepCandidate) → In c candidates → c.active ≡ true → owns c ≡ false)
      → In e candidates
      → e.active ≡ true
      → is_eligible e ≡ true
      → territory_match e input ≡ true
      → specialty_match e input ≡ true
      → (d : RepCandidate) × IsAssigned candidates (route_lead input candidates config) d
        × (is_eligible d ≡ true)
        × ((uses config workload ≡ false) ⊎ (d.workload ≤ e.workload))
  unfolding route_lead
  eligible_rep_wins e free i on h t s =
      let j : In e (active_of candidates) = In-filter_of (λ c. c.active) candidates e i on in
      let unowned : find owns (active_of candidates) ≡ none =
        find-none (active_of candidates) (λ x k.
          let (there, x_on) = In-filter (λ c. c.active) candidates x k in free x there x_on) in
      let a = choice e j in
      let (in_pool, all_eligible) =
        pool-primary_eligible (pool_of input config (active_of candidates)).0 e
          (pool-In_keep input config (active_of candidates) e j t s) h in
      rw (unowned, route_active)
        (
          a.rep,
          choice-IsAssigned e j,
          all_eligible a.rep a.listed,
          elim (Bool-cases (uses config workload)) [
            | inl w ↦ inr (a.least w e in_pool)
            | inr w ↦ inl w
          ],
        )
