-- ===== src/Core/StateMachine.antt =====
-- packages/core/src/state-machine.ts: the lead state machine.
pub mod Paths
use insurnace_automations.Base.{
  String, Bool, true, false, Option, none, some, List, [], ◌∷◌, any, ◌+++◌, if◌then◌else◌, get_or,
}
use insurnace_automations.Core.Types.{
  LeadState, received, processing, new, contacted, engaged, qualifying, qualified,
  appointment_offered, booked, human_owned, nurture, unqualified, opted_out, won, lost, archived,
  state_name, state_eq,
}

-- TRANSITIONS
unfoldable pub transitions : LeadState → List LeadState
transitions received = processing ∷ archived ∷ []
transitions processing = new ∷ unqualified ∷ archived ∷ []
transitions new = contacted ∷ nurture ∷ unqualified ∷ archived ∷ []
transitions contacted = engaged ∷ nurture ∷ unqualified ∷ archived ∷ []
transitions engaged = qualifying ∷ qualified ∷ unqualified ∷ nurture ∷ archived ∷ []
transitions qualifying = qualified ∷ unqualified ∷ nurture ∷ archived ∷ []
transitions qualified = appointment_offered ∷ booked ∷ lost ∷ nurture ∷ archived ∷ []
transitions appointment_offered = booked ∷ qualified ∷ lost ∷ nurture ∷ archived ∷ []
transitions booked = won ∷ lost ∷ appointment_offered ∷ archived ∷ []
transitions nurture = engaged ∷ contacted ∷ unqualified ∷ archived ∷ []
transitions unqualified = archived ∷ new ∷ []
transitions won = archived ∷ []
transitions lost = archived ∷ nurture ∷ []
transitions human_owned =
    contacted ∷ engaged ∷ qualifying ∷ qualified ∷ appointment_offered ∷ booked ∷ nurture
    ∷ unqualified ∷ lost ∷ won ∷ archived ∷ []
transitions opted_out = archived ∷ []
transitions archived = []

-- ACTIVE_STATES
unfoldable pub active_states : List LeadState
active_states =
    received ∷ processing ∷ new ∷ contacted ∷ engaged ∷ qualifying ∷ qualified ∷ appointment_offered
    ∷ booked ∷ nurture ∷ human_owned ∷ []

-- `states.includes(s)` and `states.has(s)`
abbrev pub has : List LeadState → LeadState → Bool
has states s = any (state_eq s) states

pub record TransitionResult : Type 0 where
  pub ok : Bool
  pub reason : Option String

unfoldable pub can_transition : LeadState → LeadState → TransitionResult
unfolding transitions active_states
can_transition from to =
    if state_eq from to
    then record { ok = true; reason = none }
    else if state_eq to opted_out
    then (if has active_states from then record { ok = true; reason = none } else record {
      ok = false;
      reason = some ("cannot opt out from terminal state '" +++ state_name from +++ "'");
    })
    else if state_eq to human_owned
    then (if has active_states from then record { ok = true; reason = none } else record {
      ok = false;
      reason = some ("cannot take over from terminal state '" +++ state_name from +++ "'");
    })
    else if has (transitions from) to
    then record { ok = true; reason = none }
    else record {
      ok = false;
      reason = some ("illegal transition " +++ state_name from +++ " → " +++ state_name to);
    }

-- `assertTransition`: the message of the error that it throws, if it throws.
unfoldable pub assert_transition : LeadState → LeadState → Option String
unfolding can_transition
assert_transition from to =
    let result = can_transition from to in
    if result.ok
    then none
    else some (
        get_or result.reason
          ("illegal transition " +++ state_name from +++ " → " +++ state_name to))

-- TERMINAL_STATES
unfoldable pub terminal_states : List LeadState
terminal_states = won ∷ lost ∷ opted_out ∷ archived ∷ []
