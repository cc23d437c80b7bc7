-- ===== src/Tests/Conversation.antt =====
-- The conversation engine on a lead, with a model that always gives the same turn.
use insurnace_automations.Base.{
  ℕ, ◌+++◌, true, false, Option, some, none, List, [], ◌∷◌, Text, codes, ◌≡◌, refl,
}
use insurnace_automations.Base.Show.{show_ℕ}
use insurnace_automations.Core.Types.{LeadState, engaged, booked, qualified, human_owned}
use insurnace_automations.Core.StateMachine.{assert_transition}
use insurnace_automations.Core.Policy.{
  send_now, evaluate_policy, check_claims, allowed_actions, is_within_quiet_hours, claim_patterns,
  allowed,
}
use insurnace_automations.Core.Qualification.{
  QualificationAnswers, text, flag, merge_answers, is_qualification_complete,
  roofing_hvac_qualification_schema,
}
use insurnace_automations.Regex.{test}
use insurnace_automations.Worker.Store.{
  messaging_out_job, World, lead_with, ok, error, enqueue, is_duplicate,
}
use insurnace_automations.Worker.Outcomes.{Atomic}
use insurnace_automations.Worker.Takeover.{done, takeover_lead}
use insurnace_automations.Worker.Conversation.Turn.{
  parse_agent_turn, Intent, wants_human, AgentTurn, Answer, answered, asked, ask,
}
use insurnace_automations.Worker.Conversation.Prompt.{
  LlmRequest, window, last_inbound, get_qualification_answers,
}
use insurnace_automations.Worker.Conversation.{
  asked_for, opts_out, reply_context, proposal, process_conversation,
}
use insurnace_automations.Worker.Conversation.Reply.{handoff}
use insurnace_automations.Worker.Conversation.Mail.{SameMail}
use insurnace_automations.Worker.Conversation.Laws.{Lawful, reply_is_cleared}
use insurnace_automations.Worker.Conversation.Handoff.{
  IsSilent, takeover_silences, human_request_hands_over,
}
use insurnace_automations.Worker.Conversation.Fences.{json, braced, fenced, fenced_is_bare}
use insurnace_automations.Worker.Conversation.Lost.{complete_reply_lost}
use insurnace_automations.Worker.Inbound.{process_inbound}
use insurnace_automations.Worker.Outcomes.{world_of}
use insurnace_automations.Worker.Robust.Steps.{on_message, on_engine, at_once, after}
use insurnace_automations.Tests.Data.{noon, no_digest, phone, lead_in, world_in, conversation}

abbrev says : LlmRequest → ℕ → Answer
says request attempt = answered (codes "{}")

abbrev turn_with : List Intent → QualificationAnswers → AgentTurn
turn_with intents facts = record {
  extracted_facts = facts;
  detected_intents = intents;
  proposed_reply = codes "Great, thanks!";
  knowledge_refs = [];
  needs_clarification = false;
  internal_summary = [];
}

abbrev validated : AgentTurn → Text → Option AgentTurn
validated turn raw = some turn

abbrev all_facts : QualificationAnswers
all_facts =
    ("service", text (codes "repair"))
    ∷ ("urgency", text (codes "low"))
    ∷ ("property_type", text (codes "house"))
    ∷ ("location_confirmed", flag true)
    ∷ ("appointment_intent", flag true)
    ∷ []

reply_is_cleared_example :
    let run = process_conversation no_digest noon 0 (validated (turn_with [] [])) says 1 in
    Atomic
      (world_in engaged).db
      (λ r w'.
        Lawful no_digest noon 0
          (lead_in engaged)
          conversation
          (validated (turn_with [] []))
          says
          (world_in engaged)
          w')
      (run (world_in engaged))
reply_is_cleared_example =
    reply_is_cleared no_digest noon 0 (lead_in engaged) conversation (validated (turn_with [] []))
      says (world_in engaged) refl refl

may_hand_over : assert_transition engaged human_owned ≡ none
unfolding assert_transition
may_hand_over = refl

abbrev taken_over : World
taken_over = world_of (takeover_lead 1 (world_in engaged))

abbrev texted : World
texted = world_of (process_inbound 60000 (codes "Hi?") phone "SM9" taken_over)

abbrev ran : World
ran =
    world_of (process_conversation no_digest noon 60000 (validated (turn_with [] [])) says 1 texted)

-- The lead texts in after the takeover, and the engine runs.
takeover_silences_example :
    (takeover_lead 1 (world_in engaged) ≡ ok done taken_over) × IsSilent 1 ran
takeover_silences_example =
    takeover_silences (lead_in engaged) conversation (world_in engaged) ran refl refl refl refl
      may_hand_over
      (after taken_over texted ran (on_message taken_over 60000 (codes "Hi?") phone "SM9") (
        after texted ran ran
          (on_engine texted no_digest noon 60000 (validated (turn_with [] [])) says 1)
          (at_once ran)))

abbrev upset : AgentTurn
upset = turn_with (wants_human ∷ []) []

said :
    (s : LeadState) (turn : AgentTurn)
    → asked_for no_digest noon 0 (validated turn) says (lead_in s) conversation (world_in s)
      ≡ asked (some turn) (codes "{}")
unfolding ask
said s turn = refl

stays : (s : LeadState) → opts_out (last_inbound (window 2 (world_in s).db)) ≡ false
unfolding window last_inbound
stays s = refl

human_request_hands_over_example :
    (w' : World) × (process_conversation no_digest noon 0
        (validated upset)
        says
        1
        (world_in engaged)
      ≡ ok handoff w')
    × (lead_with 1 w'.db ≡ some (lead_in human_owned))
    × SameMail (world_in engaged) w'
    × IsSilent 1 w'
human_request_hands_over_example =
    human_request_hands_over no_digest noon 0 (validated upset) says (lead_in engaged) conversation
      upset (codes "{}") (world_in engaged) refl refl refl (said engaged upset) (stays engaged) refl
      refl may_hand_over

abbrev keen : AgentTurn
keen = turn_with [] all_facts

complete :
    is_qualification_complete roofing_hvac_qualification_schema
      (merge_answers (get_qualification_answers 1 (world_in booked).db) all_facts)
    ≡ true
unfolding is_qualification_complete merge_answers get_qualification_answers
    roofing_hvac_qualification_schema
complete = refl

passes :
    evaluate_policy noon (reply_context 0 (lead_in booked) (world_in booked).db) (proposal keen)
    ≡ allowed (some send_now)
unfolding evaluate_policy check_claims test allowed_actions reply_context is_within_quiet_hours
    claim_patterns
passes = refl

fresh : is_duplicate 2 (some "ai_reply:0123456789ab") (world_in booked).db.messages ≡ false
unfolding is_duplicate
fresh = refl

booked_stays : assert_transition booked qualified ≡ some "illegal transition booked → qualified"
unfolding assert_transition
booked_stays = refl

complete_reply_lost_example :
    process_conversation no_digest noon 0 (validated keen) says 1 (world_in booked)
    ≡ error "illegal transition booked → qualified"
        (enqueue "messaging-out" ("relay:" +++ show_ℕ 7) (messaging_out_job 7) 0 (world_in booked))
complete_reply_lost_example =
    complete_reply_lost no_digest noon 0 (validated keen) says (lead_in booked) conversation keen
      (codes "{}") (world_in booked) refl refl refl (said booked keen) (stays booked) refl
      (some send_now) "illegal transition booked → qualified" complete passes fresh refl
      booked_stays

fenced_is_bare_example :
    (parse_agent_turn (validated upset) (fenced json (codes "\"confidence\":1"))
      ≡ parse_agent_turn (validated upset) (braced (codes "\"confidence\":1")))
    × (parse_agent_turn (validated upset) (braced (codes "\"confidence\":1"))
        ≡ validated upset (braced (codes "\"confidence\":1")))
fenced_is_bare_example = fenced_is_bare (validated upset) json (codes "\"confidence\":1")
