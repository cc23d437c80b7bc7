-- ===== src/Api/Gateway.antt =====
-- apps/api/src/routes/ingest.ts: the signed gateway for webhooks. `digest` is the hexadecimal SHA-256 of a
-- body, `tenant` the id of the tenant; the headers that are stored for debugging are left out.
pub mod Laws
pub mod Intake
use insurnace_automations.Base.{
  ℕ, suc, String, ◌+++◌, Bool, true, false, not, ◌&&◌, Option, none, some, List, [], ◌∷◌, ◌++◌, any,
  find, get_or, str_eq, ◌==◌, if◌then◌else◌,
}
use insurnace_automations.Base.Int.{ℤ}
use insurnace_automations.Base.Show.{show_ℕ}
use insurnace_automations.Worker.Store.{
  ingest_job, Raw, RawWebhook, LeadSource, IngestIdempotency, Db, World, enqueue,
}
use insurnace_automations.Worker.Mapping.{Payload}
use insurnace_automations.Api.Signing.{VerifyResult, ok, missing, stale, mismatch, verify_signature}

-- A request: its headers, the raw body and the object that it parses to, and when it came.
pub record Request : Type 0 where
  pub source_id : ℕ
  pub timestamp : Option String
  pub signature : Option String
  pub idempotency_key : Option String
  pub raw_body : String
  pub payload : Payload
  pub now : ℕ

pub data Reply : Type 0 where
  unknown_source : Reply
  unauthorized : VerifyResult → Reply
  accepted : (duplicate : Bool) → Reply

abbrev pub source_with : ℕ → Db → Option LeadSource
source_with id d = find (λ s. s.id == id) d.sources

-- Whether the primary key of the ledger is taken.
abbrev pub is_ledger : ℕ → String → IngestIdempotency → Bool
is_ledger source_id key i = (i.source_id == source_id) && str_eq i.idempotency_key key

unfoldable pub is_replay : ℕ → String → Db → Bool
is_replay source_id key d = any (is_ledger source_id key) d.idempotency

abbrev pub add_webhook : ℕ → Payload → Db → Db
add_webhook source_id payload d = record d {
  next_id = suc d.next_id;
  webhooks = d.webhooks ++ record { id = d.next_id; source_id = source_id; payload = payload } ∷ [];
}

abbrev pub add_ledger : ℕ → String → Db → Db
add_ledger source_id key d = record d {
  idempotency =
      d.idempotency ++ record { source_id = source_id; idempotency_key = key; lead_id = none } ∷ [];
}

module _ (hmac : String → String → String) (number : String → Option ℤ) (digest : String → String)
    (tenant : String) where
  abbrev pub key_of : Request → String
  key_of r = get_or r.idempotency_key (digest r.raw_body)

  -- The transaction, and the job of a request that is new.
  unfoldable pub store : Request → LeadSource → World → Reply × World
  unfolding is_replay
  store r source w =
      let key = key_of r in
      let d : Db = add_webhook source.id r.payload w.db in
      if is_replay source.id key w.db then (accepted true, record w { db = d }) else (
        accepted false,
        enqueue "ingest" (tenant +++ ":" +++ show_ℕ source.id +++ ":" +++ key)
            (ingest_job (record {
              source_id = source.id;
              raw_webhook_id = w.db.next_id;
              idempotency_key = key;
            }))
            0 (record w { db = add_ledger source.id key d }),
      )

  -- What follows the check of the signature.
  unfoldable pub admit : Request → LeadSource → VerifyResult → World → Reply × World
  unfolding store
  admit r source ok w = store r source w
  admit r source missing w = (unauthorized missing, w)
  admit r source stale w = (unauthorized stale, w)
  admit r source mismatch w = (unauthorized mismatch, w)

  unfoldable pub receive_for : Request → Option LeadSource → World → Reply × World
  unfolding admit
  receive_for r none w = (unknown_source, w)
  receive_for r (some source) w =
      if source.active
      then admit r source
          (verify_signature hmac number source.signing_secret r.timestamp r.signature r.raw_body
            r.now)
          w
      else (unknown_source, w)

  unfoldable pub receive : Request → World → Reply × World
  unfolding receive_for
  receive r w = receive_for r (source_with r.source_id w.db) w
