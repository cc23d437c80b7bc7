-- ===== src/Api/Gateway/Laws.antt =====
-- Theorems on the gateway of apps/api/src/routes/ingest.ts.
use insurnace_automations.Base.{
  ℕ, String, ◌+++◌, Bool, true, Option, none, some, List, [], ◌∷◌, ◌++◌, any, eq_iff, ◌==◌, ==_iff,
  ◌≡◌, refl, sym, ap, ◌∙◌, subst, arith, Bool-cases, Option-cases, inl, inr, if◌then◌else◌,
  find-satisfies,
}
use insurnace_automations.Base.Int.{ℤ}
use insurnace_automations.Base.Show.{show_ℕ}
use insurnace_automations.Worker.Store.{ingest_job, LeadSource, IngestIdempotency, World}
use insurnace_automations.Api.Signing.{
  VerifyResult, ok, missing, stale, mismatch, verify_signature, IsSigned, verify-IsSigned,
}
use insurnace_automations.Api.Gateway.{
  Request, Reply, unknown_source, unauthorized, accepted, source_with, is_ledger, is_replay, key_of,
  store, admit, receive_for, receive,
}

module _ (hmac : String → String → String) (number : String → Option ℤ) (digest : String → String)
    (tenant : String) where
  abbrev pub request_key : Request → String
  request_key r = key_of hmac number digest tenant r

  -- A request that is stored: its body stands in the table, and it has a job if its key is new.
  pub record Admits (r : Request) (w : World) (duplicate : Bool) (w' : World) : Type 0 where
    pub source : LeadSource
    pub known : source_with r.source_id w.db ≡ some source
    pub active : source.active ≡ true
    pub signed : IsSigned hmac number source.signing_secret r.timestamp r.signature r.raw_body r.now
    pub replay : duplicate ≡ is_replay source.id (request_key r) w.db
    pub listed : is_replay source.id (request_key r) w'.db ≡ true
    pub sources : w'.db.sources ≡ w.db.sources
    pub webhooks :
        w'.db.webhooks
        ≡ w.db.webhooks
          ++ record { id = w.db.next_id; source_id = source.id; payload = r.payload } ∷ []
    pub jobs : w'.jobs ≡ (
        if duplicate
        then w.jobs
        else w.jobs
          ++ record {
            queue = "ingest";
            job_id = tenant +++ ":" +++ show_ℕ source.id +++ ":" +++ request_key r;
            data_of = ingest_job (record {
              source_id = source.id;
              raw_webhook_id = w.db.next_id;
              idempotency_key = request_key r;
            });
            delay = 0;
          }
            ∷ [])

  -- What a reply means. A refusal changes nothing.
  abbrev pub Means : Request → World → Reply × World → Type 0
  Means r w (unknown_source, w') = w' ≡ w
  Means r w (unauthorized why, w') = w' ≡ w
  Means r w (accepted duplicate, w') = Admits r w duplicate w'

  ledger_added :
      (id : ℕ) (key : String) (is' : List IngestIdempotency)
      → any
          (is_ledger id key)
          (is' ++ record { source_id = id; idempotency_key = key; lead_id = none } ∷ [])
        ≡ true
  ledger_added id key [] = ground (arith, eq_iff key key)
  ledger_added id key (i ∷ is') = rw (ledger_added id key is') (ground arith)

  module _ (r : Request) (source : LeadSource) (w : World)
      (known : source_with r.source_id w.db ≡ some source) (active : source.active ≡ true)
      (signed : IsSigned hmac number source.signing_secret r.timestamp r.signature r.raw_body
        r.now) where
    store-Means : Means r w (store hmac number digest tenant r source w)
    unfolding store is_replay
    store-Means = elim (Bool-cases (is_replay source.id (request_key r) w.db)) [
      | inl old ↦
          rw (old, store)
            (record {
              source = source;
              known = known;
              active = active;
              signed = signed;
              replay = sym old;
              listed = old;
              sources = refl;
              webhooks = refl;
              jobs = refl;
            })
      | inr fresh ↦
          rw (fresh, store)
            (record {
              source = source;
              known = known;
              active = active;
              signed = signed;
              replay = sym fresh;
              listed = ledger_added source.id (request_key r) w.db.idempotency;
              sources = refl;
              webhooks = refl;
              jobs = refl;
            })
    ]

  admit-Means :
      (r : Request) (source : LeadSource) (v : VerifyResult) (w : World)
      → source_with r.source_id w.db ≡ some source
      → source.active ≡ true
      → verify_signature hmac number source.signing_secret r.timestamp r.signature r.raw_body r.now
        ≡ v
      → Means r w (admit hmac number digest tenant r source v w)
  unfolding admit
  admit-Means r source ok w known active e =
      store-Means r source w known active (
        verify-IsSigned hmac number source.signing_secret r.timestamp r.signature r.raw_body r.now
          e)
  admit-Means r source missing w known active e = refl
  admit-Means r source stale w known active e = refl
  admit-Means r source mismatch w known active e = refl

  found-Means :
      (r : Request) (source : LeadSource) (w : World)
      → source_with r.source_id w.db ≡ some source
      → Means r w (receive_for hmac number digest tenant r (some source) w)
  unfolding receive_for
  found-Means r source w known = elim (Bool-cases source.active) [
    | inl active ↦ simp active (admit-Means r source _ w known active refl)
    | inr off ↦ simp off refl
  ]

  -- The gateway refuses a request whose source the tenant does not have or has switched off, and one
  -- whose signature does not verify; a refusal changes nothing. A request that is accepted comes from an
  -- active source, and carries the digest of its timestamp and body under the source's secret, with a
  -- timestamp within five minutes; its payload is stored, and it is a duplicate exactly if the ledger
  -- had its source and key. The ledger has them afterwards, and only a new request is enqueued.
  pub receive-Means : (r : Request) (w : World) → Means r w (receive hmac number digest tenant r w)
  unfolding receive receive_for
  receive-Means r w = elim (Option-cases (source_with r.source_id w.db)) [
    | inl nobody ↦ rw (nobody, receive_for) refl
    | inr (source, known) ↦ rw known (found-Means r source w known)
  ]

  pub admitted :
      (r : Request) (w w' : World) (d : Bool)
      → receive hmac number digest tenant r w ≡ (accepted d, w')
      → Admits r w d w'
  admitted r w w' d e = subst (Means r w) e (receive-Means r w)

  pub Admits-source :
      (r : Request) (w w' : World) (d : Bool) (a : Admits r w d w') → a.source.id ≡ r.source_id
  Admits-source r w w' d a =
      (==_iff a.source.id r.source_id).0
        (find-satisfies (λ s. s.id == r.source_id) w.db.sources a.source a.known)

  -- Once a request has been accepted, every later one that is accepted for the same source under the
  -- same idempotency key, whatever else it carries, is acknowledged as a duplicate and enqueues nothing.
  pub replay_is_duplicate :
      (r s : Request) (w w' w2 : World) (d e : Bool)
      → receive hmac number digest tenant r w ≡ (accepted d, w')
      → receive hmac number digest tenant s w' ≡ (accepted e, w2)
      → s.source_id ≡ r.source_id
      → request_key s ≡ request_key r
      → (e ≡ true) × (w2.jobs ≡ w'.jobs)
  replay_is_duplicate r s w w' w2 d e first second same_source same_key =
      let a = admitted r w w' d first in
      let b = admitted s w' w2 e second in
      let same : b.source.id ≡ a.source.id =
        Admits-source s w' w2 e b ∙ same_source ∙ sym (Admits-source r w w' d a) in
      let again : e ≡ true =
        b.replay
        ∙ ap (λ (k : ℕ). is_replay k (request_key s) w'.db) same
        ∙ ap (λ (k : String). is_replay a.source.id k w'.db) same_key
        ∙ a.listed in
      (again, rw again at b.jobs)
