-- ===== src/Tests/Ingest.antt =====
-- A webhook of a web form that becomes a lead.
use insurnace_automations.Base.{
  String, true, false, Option, none, some, [], ◌∷◌, Text, codes, text_eq, if◌then◌else◌, ◌≡◌, refl,
  ◌≢◌, ◌⊎◌, Bool-cases, inl, inr,
}
use insurnace_automations.Base.Int.{pos, ◌≤ℤ◌, max_ℤ, min_ℤ, ◌-ℤ◌, ◌+ℤ◌}
use insurnace_automations.Core.Types.{engaged, nurture, unqualified}
use insurnace_automations.Core.Scoring.{eligible_service, score_lead, band_for, capped}
use insurnace_automations.Core.Policy.{
  evaluate_policy, evaluate_reply, check_claims, allowed_actions, is_within_quiet_hours,
  claim_patterns,
}
use insurnace_automations.Core.StateMachine.{assert_transition}
use insurnace_automations.Core.Templating.{render_template}
use insurnace_automations.Regex.{test}
use insurnace_automations.Worker.Messaging.{
  context_of, is_suppressed, current_consent, load_settings,
}
use insurnace_automations.Worker.Store.{
  IngestJob, flag, text, RawWebhook, SourceMapping, LeadSource, World, Outcome, ok, error,
}
use insurnace_automations.Worker.Mapping.{Payload, NormalizedLead, map_raw_to_normalized}
use insurnace_automations.Worker.Assignment.{is_hot}
use insurnace_automations.Worker.Ingest.{IngestResult, process_ingest}
use insurnace_automations.Worker.Ingest.Match.{outcome_for}
use insurnace_automations.Worker.Ingest.Facts.{read_sms_consent, derive_facts, score_of}
use insurnace_automations.Core.Dedup.{create, resolve_duplicate}
use insurnace_automations.Worker.Outcomes.{world_of}
use insurnace_automations.Worker.FirstTouch.{opener, sent_queued, process_first_touch}
use insurnace_automations.Worker.Ingest.Touch.{opener_needs_consent}
use insurnace_automations.Worker.Ingest.Laws.{Takes, ingest-Takes}
use insurnace_automations.Worker.Ingest.Bands.{never_hot}
use insurnace_automations.Tests.Data.{noon, world_in}

abbrev pub string_of : Text → String
string_of t = "ann@example.com"

-- A library that knows one number.
abbrev pub parse_phone : Text → Option String
parse_phone t = if text_eq t (codes "314 555 0199") then some "+13145550199" else none

pub numbers : (t : Text) → parse_phone t ≢ some ""
numbers t e = elim (Bool-cases (text_eq t (codes "314 555 0199"))) [
  | inl known ↦ cc (rw known at e)
  | inr unknown ↦ cc (rw unknown at e)
]

abbrev pub form : Payload
form =
    ("name", text (codes "Ann Lee"))
    ∷ ("phone", text (codes "314 555 0199"))
    ∷ ("email", text (codes "Ann@Example.com"))
    ∷ ("sms_consent", flag true)
    ∷ []

abbrev pub mapping : SourceMapping
mapping = record {
  name = some "name";
  first_name = none;
  last_name = none;
  email = some "email";
  phone = some "phone";
  city = some "city";
  region = none;
  postal_code = none;
  service = some "service";
}

abbrev pub source : LeadSource
source = record { id = 3; signing_secret = "secret"; mapping = mapping; active = true }

abbrev stored : RawWebhook
stored = record { id = 70; source_id = 3; payload = form }

abbrev job : IngestJob
job = record { source_id = 3; raw_webhook_id = 70; idempotency_key = "k1" }

abbrev waiting : World
waiting = record (world_in engaged) {
  db = record (world_in engaged).db {
    sources = source ∷ [];
    webhooks = stored ∷ [];
    idempotency = record { source_id = 3; idempotency_key = "k1"; lead_id = none } ∷ [];
  };
}

abbrev ann : NormalizedLead
ann = map_raw_to_normalized string_of parse_phone form mapping

ingest-Takes_example :
    (r : IngestResult) × (w' : World) × (process_ingest string_of parse_phone 100 job waiting
      ≡ ok r w')
    × Takes ann (read_sms_consent form) (outcome_for ann waiting.db) waiting w' r
ingest-Takes_example =
    ingest-Takes string_of parse_phone 100 numbers job stored source waiting refl refl

never_hot_example :
    ((score_of ann).total ≤ℤ pos 41)
    × (((score_of ann).band ≡ nurture) ⊎ ((score_of ann).band ≡ unqualified))
    × (is_hot (some (score_of ann).band) ≡ false)
    × (derive_facts ann eligible_service ≡ some true)
never_hot_example = never_hot ann

abbrev result_of : Outcome IngestResult → IngestResult
result_of (ok r w) = r
result_of (error e w) = record {
  ingested = record { lead_id = none; action = ""; band = none; consent_granted = false };
  enqueued_first_touch = false;
}

abbrev run : Outcome IngestResult
run = process_ingest string_of parse_phone 100 job waiting

run_ok : run ≡ ok (result_of run) (world_of run)
unfolding process_ingest resolve_duplicate score_lead band_for max_ℤ min_ℤ capped ◌-ℤ◌ ◌+ℤ◌
run_ok = refl

is_created : outcome_for ann waiting.db ≡ create
unfolding outcome_for resolve_duplicate map_raw_to_normalized
is_created = refl

abbrev touched : World
touched = world_of (process_first_touch noon 200 6 (world_of run))

touch_sent : process_first_touch noon 200 6 (world_of run) ≡ ok (sent_queued 9) touched
unfolding process_ingest resolve_duplicate score_lead band_for max_ℤ min_ℤ capped ◌-ℤ◌ ◌+ℤ◌
    process_first_touch opener evaluate_policy evaluate_reply check_claims test allowed_actions
    context_of is_suppressed current_consent load_settings is_within_quiet_hours claim_patterns
    render_template assert_transition
touch_sent = refl

opener_needs_consent_example : read_sms_consent form ≡ true
opener_needs_consent_example =
    opener_needs_consent string_of parse_phone 100 numbers noon job stored source waiting
      (world_of run) touched (result_of run) 200 9 refl refl is_created refl run_ok touch_sent
