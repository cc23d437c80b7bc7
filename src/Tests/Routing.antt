-- ===== src/Tests/Routing.antt =====
-- Two reps, of whom one is at the cap.
use insurnace_automations.Base.{
  ℕ, ◌≤◌, Bool, true, false, none, some, List, [], ◌∷◌, In, codes, ◌≡◌, refl, ◌⊎◌, inl, inr,
}
use insurnace_automations.Core.Routing.{
  RepCandidate, RoutingInput, RoutingConfig, workload, territory, round_robin, uses,
  territory_match, specialty_match, is_eligible, route_lead,
}
use insurnace_automations.Core.Routing.Choice.{owns, IsAssigned, eligible_rep_wins}

abbrev rep : ℕ → Bool → ℕ → RepCandidate
rep id active load = record {
  user_id = id;
  active = active;
  territories = codes "631" ∷ [];
  specialties = [];
  available = true;
  workload = load;
  workload_cap = 5;
  owns_contact = none;
}

abbrev reps : List RepCandidate
reps = rep 1 true 5 ∷ rep 2 true 2 ∷ []

abbrev lead : RoutingInput
lead = record { postal_code = some (codes "63101"); region = none; service_requested = none }

abbrev config : RoutingConfig
config = record { strategies = territory ∷ workload ∷ round_robin ∷ []; round_robin_cursor = 0 }

nobody_owns : (c : RepCandidate) → In c reps → c.active ≡ true → owns c ≡ false
nobody_owns c (inl e) on = rw e refl
nobody_owns c (inr (inl e)) on = rw e refl
nobody_owns c (inr (inr i)) on = absurd i

in_territory : territory_match (rep 2 true 2) lead ≡ true
unfolding territory_match
in_territory = refl

generalist : specialty_match (rep 2 true 2) lead ≡ true
unfolding specialty_match
generalist = refl

eligible_rep_wins_example :
    (d : RepCandidate) × IsAssigned reps (route_lead lead reps config) d
    × (is_eligible d ≡ true)
    × ((uses config workload ≡ false) ⊎ (d.workload ≤ 2))
eligible_rep_wins_example =
    eligible_rep_wins lead reps config (rep 2 true 2) nobody_owns (inr (inl refl)) refl refl
      in_territory generalist
