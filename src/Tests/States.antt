-- ===== src/Tests/States.antt =====
-- Paths of the lead state machine.
use insurnace_automations.Core.Types.{received, processing, new}
use insurnace_automations.Core.StateMachine.Paths.{
  ◌⟶*◌, ◌⇒*◌, then, done, picked_up, deduped, documented_paths,
}

abbrev intake : received ⇒* new
intake = then {t = processing} picked_up (then {t = new} deduped done)

intake_is_allowed : received ⟶* new
intake_is_allowed = documented_paths intake
