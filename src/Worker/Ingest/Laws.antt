-- ===== src/Worker/Ingest/Laws.antt =====
-- Theorems on `processIngest` of apps/worker/src/processors/ingest.ts.
use insurnace_automations.Base.{
  ℕ, String, ◌+++◌, Bool, true, false, not, ◌&&◌, Option, none, some, List, [], ◌∷◌, ◌++◌, map,
  map-update_where, update_where, find, Text, ◌≡◌, refl, sym, ◌∙◌, ◌≢◌, inl, inr, Bool-cases,
  if◌then◌else◌, ◌==◌,
}
use mathlib.Core.List.{map-append}
use insurnace_automations.Base.Show.{show_ℕ}
use insurnace_automations.Core.Types.{LeadState, new, sms, ConsentStatus}
use insurnace_automations.Core.Dedup.{
  DedupOutcome, create, merge, reopen, attach_to_customer, flag_for_review,
}
use insurnace_automations.Core.Normalize.{normalize_phone}
use insurnace_automations.Worker.Store.{
  IngestJob, first_touch_job, Lead, RawWebhook, LeadSource, Db, World, Outcome, ok, bind, settle,
  enqueue,
}
use insurnace_automations.Worker.Mapping.{NormalizedLead, map_raw_to_normalized, get}
use insurnace_automations.Worker.Ingest.{
  Ingested, IngestResult, identities_of, finish, insert_lead, take_in_lead, is_unqualified,
  start_touch, ingest_payload, ingest_from, process_ingest,
}
use insurnace_automations.Worker.Ingest.Match.{outcome_for, phone_taken}
use insurnace_automations.Worker.Ingest.Facts.{read_sms_consent, score_of}
use insurnace_automations.Worker.Ingest.Unique.{create-none, not_taken}

abbrev pub id_state : Lead → ℕ × LeadState
id_state l = (l.id, l.state)

-- The leads with their states, in order.
abbrev pub states : Db → List (ℕ × LeadState)
states d = map id_state d.leads

-- The leads of the tenant are the same, in the same states, and the consent records too.
abbrev pub SameLeads : World → World → Type 0
SameLeads w w' =
    (states w'.db ≡ states w.db)
    × (w'.db.consents ≡ w.db.consents)
    × (w'.db.identities ≡ w.db.identities)

-- One lead more, in the state new, with its consent record and identities.
abbrev pub OneLead : NormalizedLead → Bool → World → World → Type 0
OneLead n granted w w' =
    (states w'.db ≡ states w.db ++ (w.db.next_id, new) ∷ [])
    × (w'.db.consents
        ≡ w.db.consents
          ++ record {
            lead_id = w.db.next_id;
            channel = sms;
            status = if granted then ConsentStatus.granted else ConsentStatus.unknown;
          }
            ∷ [])
    × (w'.db.identities ≡ w.db.identities ++ identities_of w.db.next_id n)

-- Whether the lead gets its opener.
abbrev pub touches : NormalizedLead → Bool → Bool
touches n granted = granted && not (is_unqualified (score_of n).band)

abbrev pub Touched : ℕ → NormalizedLead → Bool → World → World → IngestResult → Type 0
Touched id n granted w w' r =
    (r.ingested.lead_id ≡ some id)
    × (r.enqueued_first_touch ≡ touches n granted)
    × (w'.jobs ≡ (
        if touches n granted
        then w.jobs
          ++ record {
            queue = "first-touch";
            job_id = "first-touch:" +++ show_ℕ id;
            data_of = first_touch_job id;
            delay = 0;
          }
            ∷ []
        else w.jobs))

abbrev pub Takes : NormalizedLead → Bool → DedupOutcome → World → World → IngestResult → Type 0
Takes n granted create w w' r = OneLead n granted w w' × Touched w.db.next_id n granted w w' r
Takes n granted (merge id why) w w' r = SameLeads w w' × Touched id n granted w w' r
Takes n granted (reopen id why) w w' r = SameLeads w w' × Touched id n granted w w' r
Takes n granted (attach_to_customer id why) w w' r = SameLeads w w' × Touched id n granted w w' r
Takes n granted (flag_for_review ids why) w w' r = (w' ≡ w) × (r.enqueued_first_touch ≡ false)

module _ (job : IngestJob) (n : NormalizedLead) (granted : Bool) where
  abbrev taken_in : ℕ → String → Ingested
  taken_in id action = record {
    lead_id = some id;
    action = action;
    band = some (score_of n).band;
    consent_granted = granted;
  }

  score_keeps_states :
      (id : ℕ) (ls : List Lead)
      → map id_state (
          update_where
            (λ l. l.id == id)
            (λ l. record l {
              score_current = some (score_of n).total;
              score_band = some (score_of n).band;
            })
            ls)
        ≡ map id_state ls
  score_keeps_states id ls = map-update_where id_state _ _ (λ l. refl) ls

  finish_old :
      (id : ℕ) (action : String) (w : World)
      → (w' : World) × (finish job false id action n granted w ≡ ok (taken_in id action) w')
        × SameLeads w w'
        × (w'.jobs ≡ w.jobs)
  unfolding finish
  finish_old id action w = (_, refl, (score_keeps_states id w.db.leads, refl, refl), refl)

  finish_new :
      (now : ℕ) (w : World)
      → (w' : World) × (finish job true w.db.next_id "create" n granted
            (record w { db = insert_lead now job.source_id n w.db })
          ≡ ok (taken_in w.db.next_id "create") w')
        × OneLead n granted w w'
        × (w'.jobs ≡ w.jobs)
  unfolding finish insert_lead
  finish_new now w = (
    _,
    refl,
    (
      score_keeps_states w.db.next_id (insert_lead now job.source_id n w.db).leads
          ∙ map-append id_state w.db.leads _,
      refl,
      refl,
    ),
    refl,
  )

  touched :
      (id : ℕ) (action : String) (w : World)
      → (r : IngestResult) × (w' : World) × (start_touch (taken_in id action) w ≡ ok r w')
        × Touched id n granted w w' r
        × (w'.db ≡ w.db)
  unfolding start_touch
  touched id action w = elim (Bool-cases (touches n granted)) [
    | inl goes ↦ (
      record { ingested = taken_in id action; enqueued_first_touch = true },
      enqueue "first-touch" ("first-touch:" +++ show_ℕ id) (first_touch_job id) 0 w,
      rw (goes, start_touch) refl,
      (refl, sym goes, rw goes refl),
      refl,
    )
    | inr stays ↦ (
      record { ingested = taken_in id action; enqueued_first_touch = false },
      w,
      rw (stays, start_touch) refl,
      (refl, sym stays, rw stays refl),
      refl,
    )
  ]

  -- The transaction and what follows it.
  joined :
      (d : Db) (o : Outcome Ingested) (id : ℕ) (action : String) (w w1 : World)
      → o ≡ ok (taken_in id action) w1
      → w1.jobs ≡ w.jobs
      → (r : IngestResult) × (w' : World) × (bind (settle d o) start_touch ≡ ok r w')
        × Touched id n granted w w' r
        × (w'.db ≡ w1.db)
  unfolding bind settle
  joined d o id action w w1 e jobs =
      let (r, w', go, t, same) = touched id action w1 in
      (r, w', rw e go, (t.0, t.1, rw (← jobs) t.2), same)

  old :
      (d : Db) (id : ℕ) (action : String) (w : World)
      → (r : IngestResult) × (w' : World) × (bind
            (settle d (finish job false id action n granted w))
            start_touch
          ≡ ok r w')
        × (SameLeads w w' × Touched id n granted w w' r)
  old d id action w =
      let (w1, run, same, jobs) = finish_old id action w in
      let (r, w', go, t, db) = joined d _ id action w w1 run jobs in (r, w', go, (rw db same, t))

  taken_in-Takes :
      (now : ℕ) (o : DedupOutcome) (w : World)
      → (o ≡ create → phone_taken n.phone_e164 w.db.leads ≡ false)
      → (r : IngestResult) × (w' : World) × (bind
            (settle w.db (take_in_lead now job n granted o w))
            start_touch
          ≡ ok r w')
        × Takes n granted o w w' r
  unfolding take_in_lead start_touch bind settle
  taken_in-Takes now (merge id why) w h = old w.db id "merge" w
  taken_in-Takes now (reopen id why) w h = old w.db id "reopen" w
  taken_in-Takes now (attach_to_customer id why) w h = old w.db id "attach_to_customer" w
  taken_in-Takes now (flag_for_review [] why) w h = (_, w, refl, (refl, refl))
  taken_in-Takes now (flag_for_review (i ∷ is') why) w h = (_, w, refl, (refl, refl))
  taken_in-Takes now create w h =
      let (w1, run, one, jobs) = finish_new now w in
      let (r, w', go, t, db) = joined w.db _ w.db.next_id "create" w w1 run jobs in
      (r, w', rw (h refl) go, (rw db one, t))

module _ (string_of : Text → String) (parse_phone : Text → Option String) (now : ℕ)
    (numbers : (t : Text) → parse_phone t ≢ some "") where
  -- No phone is the empty text.
  some_phone : (t : Option Text) → normalize_phone parse_phone t ≢ some ""
  unfolding normalize_phone
  some_phone none = λ e. cc
  some_phone (some []) = λ e. cc
  some_phone (some (c ∷ s)) = numbers (c ∷ s)

  phone_of :
      (raw : RawWebhook) (source : LeadSource)
      → (map_raw_to_normalized string_of parse_phone raw.payload source.mapping).phone_e164
        ≢ some ""
  unfolding map_raw_to_normalized
  phone_of raw source = some_phone (get raw.payload source.mapping.phone)

  -- A webhook that is stored, from a source that the tenant has, is always taken in, as long as no
  -- valid phone number is the empty text: the unique index on the phones of open leads never stops it.
  -- Where the decision on duplicates is to create, there is exactly one lead more, in the state new,
  -- with a consent record that is granted exactly if the payload consents to text messages; where it is
  -- to merge, reopen or attach, no lead changes its state and no consent is recorded; a flag changes
  -- nothing. A first touch is enqueued exactly if the lead is not flagged, the payload consents and the
  -- score is not unqualified, and then for the lead that the decision names.
  pub ingest-Takes :
      (job : IngestJob) (raw : RawWebhook) (source : LeadSource) (w : World)
      → find (λ r. r.id == job.raw_webhook_id) w.db.webhooks ≡ some raw
      → find (λ s. s.id == job.source_id) w.db.sources ≡ some source
      → let n = map_raw_to_normalized string_of parse_phone raw.payload source.mapping in
        (r : IngestResult) × (w' : World) × (process_ingest string_of parse_phone now job w
          ≡ ok r w')
        × Takes n (read_sms_consent raw.payload) (outcome_for n w.db) w w' r
  unfolding process_ingest ingest_payload
  ingest-Takes job raw source w stored known =
      let n : NormalizedLead =
        map_raw_to_normalized string_of parse_phone raw.payload source.mapping in
      rw (stored, ingest_from)
        (rw (known, ingest_from)
          (taken_in-Takes job n (read_sms_consent raw.payload) now (outcome_for n w.db) w
            (λ e. not_taken n w.db.leads (phone_of raw source) (create-none n w.db e))))
