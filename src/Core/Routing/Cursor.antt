-- ===== src/Core/Routing/Cursor.antt =====
-- The round-robin cursor of `routeLead` in packages/core/src/routing.ts.
use insurnace_automations.Base.{
  String, true, false, List, [], ◌∷◌, filter, find, get_or, ◌≡◌, refl, Option-cases, inl, inr,
}
use insurnace_automations.Core.Routing.{
  RepCandidate, RoutingInput, RoutingConfig, workload, uses, choose, assign, route_active,
  route_lead,
}

module _ (config : RoutingConfig) (on : uses config workload ≡ true) where
  assign-cursor :
      (ordered ds : List RepCandidate) (reasons : List String)
      → (assign config ordered ds reasons).next_cursor ≡ config.round_robin_cursor
  unfolding assign choose
  assign-cursor ordered [] reasons = refl
  assign-cursor ordered (c ∷ cs) reasons = simp on

  -- With the workload strategy the round-robin branch is never taken: the cursor does not move.
  pub workload_keeps_cursor :
      (input : RoutingInput) (candidates : List RepCandidate)
      → (route_lead input candidates config).next_cursor ≡ config.round_robin_cursor
  unfolding route_lead route_active
  workload_keeps_cursor input candidates =
      let active = filter (λ c. c.active) candidates in
      elim (Option-cases (find (λ c. get_or c.owns_contact false) active)) [
        | inl e ↦ rw (e, route_active) (assign-cursor _ _ _)
        | inr (owner, e) ↦ rw (e, route_active) refl
      ]
