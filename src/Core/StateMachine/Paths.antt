-- ===== src/Core/StateMachine/Paths.antt =====
-- Paths of the state machine of packages/core/src/state-machine.ts.
use insurnace_automations.Base.{◌≡◌, refl, ◌⊎◌, inl, inr, ◌↔◌, ◌≢◌, true, arith}
use insurnace_automations.Core.Types.{
  LeadState, received, processing, new, contacted, engaged, qualifying, qualified,
  appointment_offered, booked, human_owned, nurture, unqualified, opted_out, won, lost, archived,
}
use insurnace_automations.Core.StateMachine.{can_transition}

-- One accepted transition.
abbrev pub Allowed : LeadState → LeadState → Type 0
Allowed from to = (can_transition from to).ok ≡ true

infixr 40 ◌⟶*◌
pub data ◌⟶*◌ : LeadState → LeadState → Type 0 where
  here : {s : LeadState} → s ⟶* s
  next : {s t u : LeadState} → Allowed s t → t ⟶* u → s ⟶* u

-- The states on which automation has stopped for good after an opt-out.
abbrev pub IsSilent : LeadState → Type 0
IsSilent s = (s ≡ opted_out) ⊎ (s ≡ archived)

IsSilent-step : (s t : LeadState) → IsSilent s → Allowed s t → IsSilent t
unfolding can_transition
IsSilent-step s t h a = ground arith

-- Along any sequence of accepted transitions, a lead that has opted out is opted out or archived.
pub opted_out_absorbs : {t : LeadState} → opted_out ⟶* t → IsSilent t
opted_out_absorbs p = walk (inl refl) p
  where
    walk : {s t : LeadState} → IsSilent s → s ⟶* t → IsSilent t
    walk h here = h
    walk {s} h (next {t = u} a p) = walk (IsSilent-step s u h a) p

-- Every state can be archived, and every state that a rep can take over can opt out too: the two
-- are open from exactly the states that are neither terminal nor `unqualified`, besides a state's
-- step to itself.
pub takeover_iff_opt_out :
    (s : LeadState)
    → Allowed s archived
      × (Allowed s human_owned
          ↔ ((s ≢ won) × (s ≢ lost) × (s ≢ archived) × (s ≢ unqualified) × (s ≢ opted_out)))
      × (Allowed s opted_out ↔ ((s ≢ won) × (s ≢ lost) × (s ≢ archived) × (s ≢ unqualified)))
unfolding can_transition
takeover_iff_opt_out received = ground arith
takeover_iff_opt_out _ = ground arith

won_or : (s : LeadState) → (s ≡ won) ⊎ (s ≢ won)
won_or won = inl refl
won_or _ = inr (λ e. cc)

-- `won` is entered only from `booked` or `human_owned`, or kept.
into_won : (s : LeadState) → Allowed s won → (s ≡ won) ⊎ ((s ≡ booked) ⊎ (s ≡ human_owned))
unfolding can_transition
into_won s a = ground arith

-- Whether a state comes up on a path, its first and its last state included.
abbrev pub Visits : (LeadState → Type 0) → {s t : LeadState} → s ⟶* t → Type 0
Visits P {s} here = P s
Visits P {s} (next a p) = P s ⊎ Visits P p

-- A path from any state but `won` to `won` goes through `booked` or `human_owned`.
pub won_needs_booking :
    (s : LeadState) (p : s ⟶* won) → s ≢ won → Visits (λ u. (u ≡ booked) ⊎ (u ≡ human_owned)) p
won_needs_booking s p n = walk p refl n
  where
    walk :
        {s t : LeadState} (p : s ⟶* t)
        → t ≡ won
        → s ≢ won
        → Visits (λ u. (u ≡ booked) ⊎ (u ≡ human_owned)) p
    walk here e n = absurd (n e)
    walk (next {s = u} {t = v} a p) e n = elim (won_or v) [
      | inl w ↦ elim (into_won u (rw w at a)) [ inl x ↦ absurd (n x) | inr y ↦ inl y ]
      | inr w ↦ inr (walk p e w)
    ]

-- The documented diagram of docs/data-model.md, section 4.
pub data Diagram : LeadState → LeadState → Type 0 where
  picked_up : Diagram received processing
  deduped : Diagram processing new
  first_touch : Diagram new contacted
  replied : Diagram contacted engaged
  qualification : Diagram engaged qualifying
  complete : Diagram qualifying qualified
  offered : Diagram qualified appointment_offered
  confirmed : Diagram appointment_offered booked
  low_band : Diagram new nurture
  exhausted : Diagram contacted nurture
  disqualified : Diagram engaged unqualified
  deal_won : Diagram booked won
  no_show : Diagram booked lost
  closed_lost : Diagram qualified lost
  again : Diagram nurture engaged
  drop : Diagram unqualified archived
  file_lost : Diagram lost archived
  file_won : Diagram won archived

Diagram-Allowed : {s t : LeadState} → Diagram s t → Allowed s t
unfolding can_transition
Diagram-Allowed picked_up = refl
Diagram-Allowed _ = refl

infixr 40 ◌⇒*◌
pub data ◌⇒*◌ : LeadState → LeadState → Type 0 where
  done : {s : LeadState} → s ⇒* s
  then : {s t u : LeadState} → Diagram s t → t ⇒* u → s ⇒* u

-- Every path through the documented diagram is a sequence of accepted transitions.
pub documented_paths : {s t : LeadState} → s ⇒* t → s ⟶* t
documented_paths done = here
documented_paths (then {t = u} d p) = next {t = u} (Diagram-Allowed d) (documented_paths p)
