-- ===== src/Core/Routing.antt =====
-- packages/core/src/routing.ts: the choice of the rep for a lead, and the escalation ladder.
pub mod Laws
pub mod Choice
pub mod Cursor
use insurnace_automations.Base.{
  ℕ, suc, ◌+◌, ◌%◌, String, Bool, true, false, not, ◌&&◌, ◌||◌, Option, none, some, List, [], ◌∷◌,
  map, any, filter, find, length, get_elem?, get_or, is_some, Text, text_eq, to_lower, codes, ltb,
  leb, if◌then◌else◌, ◌+++◌, ◌==◌, ◌++◌,
}

pub record RepCandidate : Type 0 where
  pub user_id : ℕ
  pub active : Bool
  pub territories : List Text
  pub specialties : List Text
  pub available : Bool
  pub workload : ℕ
  pub workload_cap : ℕ
  pub owns_contact : Option Bool

pub record RoutingInput : Type 0 where
  pub postal_code : Option Text
  pub region : Option Text
  pub service_requested : Option Text

pub data Strategy : Type 0 where
  territory specialization availability workload round_robin : Strategy

pub record RoutingConfig : Type 0 where
  pub strategies : List Strategy
  pub round_robin_cursor : ℕ

pub record RoutingResult : Type 0 where
  pub primary_user_id : Option ℕ
  pub fallback_user_ids : List ℕ
  pub reason : String
  pub next_cursor : ℕ

-- `k.startsWith(t)` and `s.includes(t)`
abbrev pub starts_with : Text → Text → Bool
starts_with s [] = true
starts_with [] (c ∷ t) = false
starts_with (a ∷ s) (c ∷ t) = (a == c) && starts_with s t

abbrev pub includes : Text → Text → Bool
includes [] t = starts_with [] t
includes (a ∷ s) t = starts_with (a ∷ s) t || includes s t

-- `[input.postalCode ?? "", input.region ?? ""].filter(Boolean)`
abbrev pub is_text : Text → Bool
is_text [] = false
is_text (c ∷ s) = true

abbrev pub is_empty {ℓ} : {A : Type ℓ} → List A → Bool
is_empty [] = true
is_empty (x ∷ xs) = false

unfoldable pub territory_match : RepCandidate → RoutingInput → Bool
territory_match rep input =
    if is_empty rep.territories
    then true
    else let keys = filter is_text (get_or input.postal_code [] ∷ get_or input.region [] ∷ []) in
      any (λ t. any (λ k. text_eq k t || starts_with k t) keys) rep.territories

unfoldable pub specialty_match : RepCandidate → RoutingInput → Bool
specialty_match rep input =
    if is_empty rep.specialties
    then true
    else let svc = to_lower (get_or input.service_requested []) in
      if not (is_text (get_or input.service_requested []))
      then true
      else any (λ s. includes svc (to_lower s) || includes (to_lower s) svc) rep.specialties

-- `config.strategies.includes(s)`
abbrev strategy_eq : Strategy → Strategy → Bool
strategy_eq territory territory = true
strategy_eq specialization specialization = true
strategy_eq availability availability = true
strategy_eq workload workload = true
strategy_eq round_robin round_robin = true
strategy_eq _ _ = false

abbrev pub uses : RoutingConfig → Strategy → Bool
uses config s = any (strategy_eq s) config.strategies

-- `[...pool].sort((a, b) => a.workload - b.workload)`, a stable sort.
pub insert_rep : RepCandidate → List RepCandidate → List RepCandidate
insert_rep c [] = c ∷ []
insert_rep c (d ∷ ds) =
    let rest = insert_rep c ds in if leb c.workload d.workload then c ∷ d ∷ ds else d ∷ rest

pub sort_reps : List RepCandidate → List RepCandidate
sort_reps [] = []
sort_reps (c ∷ cs) = insert_rep c (sort_reps cs)

-- A hard filter that is dropped where it leaves nobody, with the reason it adds.
pub narrow :
    Bool
    → (RepCandidate → Bool)
    → String
    → List RepCandidate × List String
    → List RepCandidate × List String
narrow used keep name (pool, reasons) =
    if used && not (is_empty (filter keep pool))
    then (filter keep pool, reasons ++ name ∷ [])
    else (pool, reasons)

-- The primary rep of a pool that is not empty, the next cursor and the reasons.
pub choose :
    RoutingConfig → RepCandidate → List RepCandidate → List String → RepCandidate × ℕ × List String
choose config c cs reasons =
    if uses config workload
    then (
      get_or (get_elem? (sort_reps (c ∷ cs)) 0) c,
      config.round_robin_cursor,
      reasons ++ "workload" ∷ [],
    )
    else if uses config round_robin
    then (let idx = config.round_robin_cursor % length (c ∷ cs) in
        (
          get_or (get_elem? (c ∷ cs) idx) c,
          config.round_robin_cursor + 1,
          reasons ++ "round_robin" ∷ [],
        ))
    else (c, config.round_robin_cursor, reasons)

-- `reasons.join("+") || "default"`
pub join_reasons : List String → String
join_reasons [] = "default"
join_reasons (r ∷ []) = r
join_reasons (r ∷ s ∷ rs) = r +++ "+" +++ join_reasons (s ∷ rs)

-- The user ids of the reps other than `u`.
abbrev pub others : ℕ → List RepCandidate → List ℕ
others u cs = map (λ c. c.user_id) (filter (λ c. not (c.user_id == u)) cs)

abbrev pub is_eligible : RepCandidate → Bool
is_eligible c = c.available && ltb c.workload c.workload_cap

-- What follows the hard filters.
pub assign : RoutingConfig → List RepCandidate → List RepCandidate → List String → RoutingResult
unfolding choose join_reasons
assign config ordered [] reasons = record {
  primary_user_id = none;
  fallback_user_ids = [];
  reason = "no eligible reps — route to fallback queue";
  next_cursor = config.round_robin_cursor;
}
assign config ordered (c ∷ cs) reasons =
    let (primary, cursor, why) = choose config c cs reasons in
    record {
      primary_user_id = some primary.user_id;
      fallback_user_ids = others primary.user_id ordered;
      reason = join_reasons why;
      next_cursor = cursor;
    }

-- The two hard filters of the configured strategies, in order.
pub pool_of : RoutingInput → RoutingConfig → List RepCandidate → List RepCandidate × List String
unfolding narrow territory_match specialty_match
pool_of input config active =
    narrow (uses config specialization) (λ c. specialty_match c input) "specialization"
      (narrow (uses config territory) (λ c. territory_match c input) "territory" (active, []))

-- `eligible.length > 0 ? eligible : orderedFallback`
pub primary_pool : List RepCandidate → List RepCandidate
unfolding sort_reps insert_rep
primary_pool pool =
    if is_empty (filter is_eligible pool) then sort_reps pool else filter is_eligible pool

-- The choice among the active candidates.
pub route_active : RoutingInput → RoutingConfig → List RepCandidate → RoutingResult
unfolding pool_of primary_pool assign
route_active input config active = elim (find (λ c. get_or c.owns_contact false) active) [
  | some owner ↦ record {
    primary_user_id = some owner.user_id;
    fallback_user_ids = others owner.user_id active;
    reason = "existing-customer ownership";
    next_cursor = config.round_robin_cursor;
  }
  | none ↦
      (let (pool, reasons) = pool_of input config active in
        assign config (sort_reps pool) (primary_pool pool) reasons)
]

unfoldable pub route_lead : RoutingInput → List RepCandidate → RoutingConfig → RoutingResult
unfolding route_active
route_lead input candidates config = route_active input config (filter (λ c. c.active) candidates)

pub data EscalationAction : Type 0 where
  assign_primary notify_primary notify_secondary notify_manager fallback_queue : EscalationAction

pub record EscalationStep : Type 0 where
  pub after_seconds : ℕ
  pub action : EscalationAction

-- DEFAULT_ESCALATION
unfoldable pub default_escalation : List EscalationStep
default_escalation =
    record { after_seconds = 0; action = assign_primary }
    ∷ record { after_seconds = 30; action = notify_primary }
    ∷ record { after_seconds = 60; action = notify_secondary }
    ∷ record { after_seconds = 120; action = notify_manager }
    ∷ record { after_seconds = 300; action = fallback_queue }
    ∷ []
