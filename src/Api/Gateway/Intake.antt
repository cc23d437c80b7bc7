-- ===== src/Api/Gateway/Intake.antt =====
-- From the gateway of apps/api/src/routes/ingest.ts to the ingest processor of apps/worker.
use insurnace_automations.Base.{
  ℕ, String, false, Option, none, some, List, [], ◌∷◌, ◌++◌, ◌+++◌, Text, find, find-satisfies,
  ◌==◌, ==_iff, ◌≡◌, refl, ◌≢◌, Bool-cases, inl, inr,
}
use insurnace_automations.Base.Show.{show_ℕ}
use insurnace_automations.Base.Int.{ℤ}
use insurnace_automations.Worker.Store.{IngestJob, ingest_job, RawWebhook, LeadSource, World, ok}
use insurnace_automations.Worker.Mapping.{map_raw_to_normalized}
use insurnace_automations.Worker.Ingest.{IngestResult, process_ingest}
use insurnace_automations.Worker.Ingest.Match.{outcome_for}
use insurnace_automations.Worker.Ingest.Facts.{read_sms_consent}
use insurnace_automations.Worker.Ingest.Laws.{Takes, ingest-Takes}
use insurnace_automations.Api.Gateway.{Request, accepted, source_with, receive}
use insurnace_automations.Api.Gateway.Laws.{admitted, request_key}

find-append_new :
    (id : ℕ) (ws : List RawWebhook) (x : RawWebhook)
    → find (λ r. r.id == id) ws ≡ none
    → x.id ≡ id
    → find (λ r. r.id == id) (ws ++ x ∷ []) ≡ some x
find-append_new id [] x h e = rw ((==_iff x.id id).1 e) refl
find-append_new id (y ∷ ws) x h e = elim (Bool-cases (y.id == id)) [
  | inl k ↦ cc (rw k at h)
  | inr k ↦ rw k (find-append_new id ws x (rw k at h) e)
]

module _ (hmac : String → String → String) (number : String → Option ℤ) (digest : String → String)
    (tenant : String) (string_of : Text → String) (parse_phone : Text → Option String) where
  -- The job that stands last among the jobs.
  abbrev pub Enqueued : Request → IngestJob → World → World → Type 0
  Enqueued r job w w' =
      w'.jobs
      ≡ w.jobs
        ++ record {
          queue = "ingest";
          job_id =
              tenant
              +++ ":"
              +++ show_ℕ job.source_id
              +++ ":"
              +++ request_key hmac number digest tenant r;
          data_of = ingest_job job;
          delay = 0;
        }
          ∷ []

  -- A request that the gateway accepts, and not as a duplicate, enqueues one job, and the worker that
  -- runs this very job on the world the gateway leaves ends with a result: it takes in the payload of the
  -- request under the mapping of the source the request names. The next id must not be in use among the
  -- webhooks, and no valid phone number is the empty text.
  pub accepted_is_ingested :
      (r : Request) (now : ℕ) (w w' : World)
      → ((t : Text) → parse_phone t ≢ some "")
      → find (λ x. x.id == w.db.next_id) w.db.webhooks ≡ none
      → receive hmac number digest tenant r w ≡ (accepted false, w')
      → (source : LeadSource) × (job : IngestJob) × (result : IngestResult) × (w2 : World)
        × (source_with r.source_id w.db ≡ some source)
        × Enqueued r job w w'
        × (process_ingest string_of parse_phone now job w' ≡ ok result w2)
        × (let n = map_raw_to_normalized string_of parse_phone r.payload source.mapping in
            Takes n (read_sms_consent r.payload) (outcome_for n w'.db) w' w2 result)
  accepted_is_ingested r now w w' numbers unused run =
      let a = admitted hmac number digest tenant r w w' false run in
      let job : IngestJob = record {
        source_id = a.source.id;
        raw_webhook_id = w.db.next_id;
        idempotency_key = request_key hmac number digest tenant r;
      } in
      let raw : RawWebhook = record {
        id = w.db.next_id;
        source_id = a.source.id;
        payload = r.payload;
      } in
      let named : a.source.id ≡ r.source_id =
        (==_iff a.source.id r.source_id).0
          (find-satisfies (λ s. s.id == r.source_id) w.db.sources a.source a.known) in
      let (result, w2, goes, takes) =
        ingest-Takes string_of parse_phone now numbers job raw a.source w'
          (rw a.webhooks (find-append_new w.db.next_id w.db.webhooks raw unused refl))
          (rw (a.sources, named) a.known) in
      (a.source, job, result, w2, a.known, a.jobs, goes, takes)
