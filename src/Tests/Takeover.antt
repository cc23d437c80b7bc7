-- ===== src/Tests/Takeover.antt =====
-- A lead in conversation is taken over and handed back.
use insurnace_automations.Base.{some, ◌≡◌, refl, none}
use insurnace_automations.Core.Types.{contacted, human_owned}
use insurnace_automations.Core.StateMachine.{assert_transition}
use insurnace_automations.Worker.Store.{World, ok, lead_with}
use insurnace_automations.Worker.Takeover.{done, takeover_lead, resume_lead}
use insurnace_automations.Worker.Takeover.Laws.{owned, Quiet, Resumed, takeover-resume}
use insurnace_automations.Tests.Data.{lead_in, world_in}

may_take : assert_transition contacted human_owned ≡ none
unfolding assert_transition
may_take = refl

takeover-resume_example :
    (w' : World) × (takeover_lead 1 (world_in contacted) ≡ ok done w')
    × (lead_with 1 w'.db ≡ some (owned (lead_in contacted)))
    × Quiet 1 w'.db
    × Resumed (assert_transition human_owned contacted) (lead_in contacted) w' (resume_lead 1 w')
takeover-resume_example =
    takeover-resume 1 (lead_in contacted) (world_in contacted) refl refl refl may_take
