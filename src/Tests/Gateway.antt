-- ===== src/Tests/Gateway.antt =====
-- A web form that is posted twice, from the gateway to the worker.
use insurnace_automations.Base.{String, true, false, none, some, [], ◌∷◌, Option, ◌≡◌, refl}
use insurnace_automations.Base.Int.{ℤ, pos}
use insurnace_automations.Core.Types.{engaged}
use insurnace_automations.Worker.Store.{IngestJob, LeadSource, World, ok}
use insurnace_automations.Worker.Mapping.{map_raw_to_normalized}
use insurnace_automations.Worker.Ingest.{IngestResult, process_ingest}
use insurnace_automations.Worker.Ingest.Match.{outcome_for}
use insurnace_automations.Worker.Ingest.Facts.{read_sms_consent}
use insurnace_automations.Worker.Ingest.Laws.{Takes}
use insurnace_automations.Api.Signing.{verify_signature}
use insurnace_automations.Api.Gateway.{Request, accepted, source_with, receive}
use insurnace_automations.Api.Gateway.Laws.{Means, receive-Means, replay_is_duplicate}
use insurnace_automations.Api.Gateway.Intake.{Enqueued, accepted_is_ingested}
use insurnace_automations.Tests.Data.{world_in}
use insurnace_automations.Tests.Ingest.{string_of, parse_phone, numbers, form, source}

abbrev hmac : String → String → String
hmac secret t = "c0ffee"

abbrev number : String → Option ℤ
number t = some (pos 1000)

abbrev digest : String → String
digest body = "beef"

abbrev post : Request
post = record {
  source_id = 3;
  timestamp = some "1000";
  signature = some "c0ffee";
  idempotency_key = none;
  raw_body = "{}";
  payload = form;
  now = 1500;
}

abbrev start : World
start = record (world_in engaged) { db = record (world_in engaged).db { sources = source ∷ [] } }

abbrev once : World
once = (receive hmac number digest "t1" post start).1

abbrev twice : World
twice = (receive hmac number digest "t1" post once).1

first : receive hmac number digest "t1" post start ≡ (accepted false, once)
unfolding receive verify_signature
first = refl

second : receive hmac number digest "t1" post once ≡ (accepted true, twice)
unfolding receive verify_signature
second = refl

receive-Means_example :
    Means hmac number digest "t1" post start (receive hmac number digest "t1" post start)
receive-Means_example = receive-Means hmac number digest "t1" post start

replay_is_duplicate_example : (true ≡ true) × (twice.jobs ≡ once.jobs)
replay_is_duplicate_example =
    replay_is_duplicate hmac number digest "t1" post post start once twice false true first second
      refl refl

accepted_is_ingested_example :
    (s : LeadSource) × (job : IngestJob) × (result : IngestResult) × (w2 : World) × (source_with 3
        start.db
      ≡ some s)
    × Enqueued hmac number digest "t1" string_of parse_phone post job start once
    × (process_ingest string_of parse_phone 2000 job once ≡ ok result w2)
    × (let n = map_raw_to_normalized string_of parse_phone form s.mapping in
        Takes n (read_sms_consent form) (outcome_for n once.db) once w2 result)
accepted_is_ingested_example =
    accepted_is_ingested hmac number digest "t1" string_of parse_phone post 2000 start once numbers
      refl first
