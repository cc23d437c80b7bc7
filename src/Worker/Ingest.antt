-- ===== src/Worker/Ingest.antt =====
-- apps/worker/src/processors/ingest.ts: a stored webhook becomes a lead, or goes to one that is there.
-- `string_of` and `parse_phone` are those of packages/core/src/normalize.ts.
pub mod Match
pub mod Facts
pub mod Unique
pub mod Laws
pub mod Bands
pub mod Touch
use insurnace_automations.Base.{
  ℕ, suc, String, ◌+++◌, Bool, true, false, not, ◌&&◌, ◌||◌, Option, none, some, List, [], ◌∷◌,
  ◌++◌, map, filter, find, any, take, update_where, is_some, get_or, str_eq, ◌==◌, Text, codes,
  text_eq, to_lower, if◌then◌else◌,
}
use insurnace_automations.Base.Int.{ℤ, pos, negsuc}
use insurnace_automations.Base.Show.{show_ℕ}
use insurnace_automations.Core.Types.{
  LeadState, new, archived, lost, won, opted_out, sms, ConsentStatus, ScoreBand, unqualified,
}
use insurnace_automations.Core.StateMachine.{has}
use insurnace_automations.Core.Routing.{is_text, includes}
use insurnace_automations.Core.Scoring.{
  Fact, inside_service_area, eligible_service, eligible_property_type, valid_phone, valid_email,
  invalid_phone, has_clear_project, ScoringFacts, ScoreResult, score_lead,
}
use insurnace_automations.Core.Scoring.Roofing.{roofing_hvac_scoring_model}
use insurnace_automations.Core.Dedup.{
  DedupCandidate, DedupInput, DedupOutcome, create, merge, reopen, attach_to_customer,
  flag_for_review, same_text, resolve_duplicate,
}
use insurnace_automations.Core.Normalize.{replace_spaces, replace_spaces_after}
use insurnace_automations.Worker.Store.{
  Raw, null, text, number, flag, other, RawWebhook, LeadSource, Lead, IngestIdempotency,
  LeadIdentity, LeadScore, ConsentRecord, Db, World, Outcome, ok, error, bind, settle, with_tenant,
  enqueue, emit_event, audit, IngestJob, first_touch_job,
}
use insurnace_automations.Worker.Mapping.{Payload, NormalizedLead, field_of, map_raw_to_normalized}
use Facts.{
  derive_facts, has_string, has_text, is_consent, is_known_service, read_sms_consent,
  roofing_hvac_services, score_of, value_or,
}
use Match.{
  closed_states, dedup_candidate, dedup_input, is_candidate, load_candidates, outcome_for,
  phone_taken, same_phone,
}

-- What the transaction returns.
pub record Ingested : Type 0 where
  pub lead_id : Option ℕ
  pub action : String
  pub band : Option ScoreBand
  pub consent_granted : Bool

pub record IngestResult : Type 0 where
  pub ingested : Ingested
  pub enqueued_first_touch : Bool

abbrev pub new_lead : ℕ → ℕ → ℕ → NormalizedLead → Lead
new_lead id now source_id n = record {
  id = id;
  state = new;
  first_name = n.first_name;
  phone_e164 = n.phone_e164;
  email_normalized = n.email_normalized;
  service_requested = n.service_requested;
  city = n.city;
  pre_takeover_state = none;
  first_reply_at = none;
  created_at = now;
  region = n.region;
  postal_code = n.postal_code;
  score_band = none;
  assigned_user_id = none;
  qualified_at = none;
  last_name = n.last_name;
  source_id = some source_id;
  score_current = none;
}

-- `insertIdentities`: a missing or empty value has no row.
abbrev pub identity_of : ℕ → String → Option String → List LeadIdentity
identity_of lead_id kind none = []
identity_of lead_id kind (some v) =
    if str_eq v "" then [] else record { lead_id = lead_id; kind = kind; value = v } ∷ []

unfoldable pub identities_of : ℕ → NormalizedLead → List LeadIdentity
identities_of lead_id n =
    identity_of lead_id "phone" n.phone_e164 ++ identity_of lead_id "email" n.email_normalized

-- The ledger's row, linked to the lead.
abbrev pub link : IngestJob → ℕ → Db → Db
link job lead_id d = record d {
  idempotency =
      update_where
        (λ i. (i.source_id == job.source_id) && str_eq i.idempotency_key job.idempotency_key)
        (λ i. record i { lead_id = some lead_id }) d.idempotency;
}

abbrev pub add_consent : Bool → ℕ → Bool → Db → Db
add_consent is_new lead_id granted d =
    if is_new
    then record d {
      consents =
          d.consents
          ++ record {
            lead_id = lead_id;
            channel = sms;
            status = if granted then ConsentStatus.granted else ConsentStatus.unknown;
          }
            ∷ [];
    }
    else d

abbrev pub add_score : ℕ → ScoreResult → Db → Db
add_score lead_id score d = record d {
  scores =
      d.scores
      ++ record {
        lead_id = lead_id;
        model_version = roofing_hvac_scoring_model.version;
        total = score.total;
        band = score.band;
        breakdown = score.breakdown;
      }
        ∷ [];
  leads =
      update_where (λ l. l.id == lead_id)
        (λ l. record l { score_current = some score.total; score_band = some score.band }) d.leads;
}

-- From the link on: what every lead gets, new or not.
unfoldable pub finish :
    IngestJob → Bool → ℕ → String → NormalizedLead → Bool → World → Outcome Ingested
unfolding score_of roofing_hvac_scoring_model
finish job is_new lead_id action n granted w =
    ok
      (record {
        lead_id = some lead_id;
        action = action;
        band = some (score_of n).band;
        consent_granted = granted;
      })
      (record w {
        db = audit "lead.ingested" lead_id (
            emit_event lead_id "lead.scored" (
              add_score lead_id (score_of n) (
                add_consent is_new lead_id granted (
                  emit_event lead_id "lead.normalized"
                    (emit_event lead_id "lead.received" (link job lead_id w.db))))));
      })

-- The insertion of a lead and its identities.
unfoldable pub insert_lead : ℕ → ℕ → NormalizedLead → Db → Db
unfolding identities_of
insert_lead now source_id n d = record d {
  next_id = suc d.next_id;
  leads = d.leads ++ new_lead d.next_id now source_id n ∷ [];
  identities = d.identities ++ identities_of d.next_id n;
}

abbrev first_id : List ℕ → Option ℕ
first_id [] = none
first_id (i ∷ is') = some i

-- What follows the decision on duplicates.
unfoldable pub take_in_lead :
    ℕ → IngestJob → NormalizedLead → Bool → DedupOutcome → World → Outcome Ingested
unfolding finish insert_lead phone_taken
take_in_lead now job n granted (flag_for_review ids why) w =
    ok
      (record {
        lead_id = first_id ids;
        action = "flag_for_review";
        band = none;
        consent_granted = false;
      })
      w
take_in_lead now job n granted create w =
    if phone_taken n.phone_e164 w.db.leads
    then error "duplicate key value violates unique constraint leads_open_phone" w
    else finish job true w.db.next_id "create" n granted
        (record w { db = insert_lead now job.source_id n w.db })
take_in_lead now job n granted (merge id why) w = finish job false id "merge" n granted w
take_in_lead now job n granted (reopen id why) w = finish job false id "reopen" n granted w
take_in_lead now job n granted (attach_to_customer id why) w =
    finish job false id "attach_to_customer" n granted w

abbrev pub is_unqualified : ScoreBand → Bool
is_unqualified unqualified = true
is_unqualified _ = false

-- The condition of the first touch, and its job.
unfoldable pub start_touch : Ingested → World → Outcome IngestResult
start_touch r w = elim r.lead_id [
  | none ↦ ok (record { ingested = r; enqueued_first_touch = false }) w
  | some id ↦
      if r.consent_granted && (elim r.band [ none ↦ false | some b ↦ not (is_unqualified b) ])
      then ok (record { ingested = r; enqueued_first_touch = true })
          (enqueue "first-touch" ("first-touch:" +++ show_ℕ id) (first_touch_job id) 0 w)
      else ok (record { ingested = r; enqueued_first_touch = false }) w
]

module _ (string_of : Text → String) (parse_phone : Text → Option String) (now : ℕ) where
  unfoldable pub ingest_payload : IngestJob → Payload → LeadSource → World → Outcome Ingested
  unfolding take_in_lead outcome_for read_sms_consent map_raw_to_normalized
  ingest_payload job payload source w =
      let n : NormalizedLead = map_raw_to_normalized string_of parse_phone payload source.mapping in
      take_in_lead now job n (read_sms_consent payload) (outcome_for n w.db) w

  unfoldable pub ingest_from :
      IngestJob → Option RawWebhook → Option LeadSource → World → Outcome Ingested
  unfolding ingest_payload
  ingest_from job none source w =
      error ("raw webhook " +++ show_ℕ job.raw_webhook_id +++ " not found") w
  ingest_from job (some raw) none w = error ("source " +++ show_ℕ job.source_id +++ " not found") w
  ingest_from job (some raw) (some source) w = ingest_payload job raw.payload source w

  unfoldable pub process_ingest : IngestJob → World → Outcome IngestResult
  unfolding ingest_from start_touch settle bind
  process_ingest job w =
      bind
        (with_tenant
          (λ w'.
            ingest_from job (find (λ r. r.id == job.raw_webhook_id) w'.db.webhooks)
              (find (λ s. s.id == job.source_id) w'.db.sources) w')
          w)
        start_touch
