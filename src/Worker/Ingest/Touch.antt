-- ===== src/Worker/Ingest/Touch.antt =====
-- From apps/worker/src/processors/ingest.ts to first-touch.ts: the opener of a lead that was ingested.
use insurnace_automations.Base.{
  ℕ, String, Bool, true, false, Option, none, some, List, [], ◌∷◌, ◌++◌, map, find, get_or, Text,
  ◌==◌, ==_iff, ◌≡◌, refl, sym, ap, subst, if◌then◌else◌, ◌∙◌, ◌≢◌, Bool-cases, Option-cases, inl,
  inr,
}
use insurnace_automations.Core.Types.{LeadState, new, contacted, granted, ConsentStatus, sms}
use insurnace_automations.Core.StateMachine.{assert_transition}
use insurnace_automations.Core.Dedup.{create}
use insurnace_automations.Worker.Store.{
  IngestJob, Lead, ConsentRecord, RawWebhook, LeadSource, Db, World, ok, lead_with, conversation_of,
  ensure_conversation,
}
use insurnace_automations.Worker.Outcomes.{world_of}
use insurnace_automations.Worker.Messaging.Consent.{current_consent-append}
use insurnace_automations.Worker.Mapping.{map_raw_to_normalized}
use insurnace_automations.Worker.FirstTouch.{sent_queued, process_first_touch}
use insurnace_automations.Worker.FirstTouch.Laws.{first_touch-Touches, result_of, ready}
use insurnace_automations.Worker.Ingest.{IngestResult, process_ingest}
use insurnace_automations.Worker.Ingest.Match.{outcome_for}
use insurnace_automations.Worker.Ingest.Facts.{read_sms_consent}
use insurnace_automations.Worker.Ingest.Laws.{id_state, states, ingest-Takes}

abbrev id_state_if : Option Lead → Option (ℕ × LeadState)
id_state_if none = none
id_state_if (some l) = some (id_state l)

find-states :
    (i : ℕ) (ls : List Lead)
    → find (λ p. p.0 == i) (map id_state ls) ≡ id_state_if (find (λ l. l.id == i) ls)
find-states i [] = refl
find-states i (l ∷ ls) = elim (Bool-cases (l.id == i)) [
  | inl e ↦ rw e refl
  | inr e ↦ rw e (find-states i ls)
]

find_last :
    (i : ℕ) (s : LeadState) (ps : List (ℕ × LeadState))
    → find (λ p. p.0 == i) ps ≡ none
    → find (λ p. p.0 == i) (ps ++ (i, s) ∷ []) ≡ some (i, s)
find_last i s [] h = rw ((==_iff i i).1 refl) refl
find_last i s (p ∷ ps) h = elim (Bool-cases (p.0 == i)) [
  | inl e ↦ cc (rw e at h)
  | inr e ↦ rw e (find_last i s ps (rw e at h))
]

-- The lead of the row that was added last.
found_last :
    (i : ℕ) (d d' : Db)
    → states d' ≡ states d ++ (i, new) ∷ []
    → lead_with i d ≡ none
    → (l : Lead) × (lead_with i d' ≡ some l) × (l.id ≡ i) × (l.state ≡ new)
found_last i d d' same unused =
    let last : find (λ p. p.0 == i) (states d') ≡ some (i, new) =
      ap (λ ps. find (λ p. p.0 == i) ps) same
      ∙ find_last i new (states d) (find-states i d.leads ∙ ap id_state_if unused) in
    let seen : id_state_if (lead_with i d') ≡ some (i, new) = sym (find-states i d'.leads) ∙ last in
    elim (Option-cases (lead_with i d')) [
      | inl nobody ↦ cc (rw nobody at seen)
      | inr (l, found) ↦
          let pair = ap (λ o. get_or o (i, new)) (sym (ap id_state_if found) ∙ seen) in
          (l, found, ap (λ p. p.0) pair, ap (λ p. p.1) pair)
    ]

ensured-consents : (id : ℕ) (d : Db) → (ensure_conversation id d).1.consents ≡ d.consents
unfolding ensure_conversation
ensured-consents id d = elim (Option-cases (conversation_of id d)) [
  | inl e ↦ rw (e, ensure_conversation) refl
  | inr (c, e) ↦ rw (e, ensure_conversation) refl
]

may_contact : (s : LeadState) → s ≡ new → assert_transition s contacted ≡ none
unfolding assert_transition
may_contact s e = rw e refl

-- The consent record of a new lead.
abbrev row : ℕ → Bool → ConsentRecord
row id given = record {
  lead_id = id;
  channel = sms;
  status = if given then ConsentStatus.granted else ConsentStatus.unknown;
}

granted_given :
    (given : Bool)
    → (if given then ConsentStatus.granted else ConsentStatus.unknown) ≡ granted
    → given ≡ true
granted_given true e = refl
granted_given false e = cc

-- A touch that is queued had the consent of the last record.
sent_needs_consent :
    (local_hour : String → ℕ → ℕ) (later outbox_id : ℕ) (lead : Lead) (given : Bool)
    (cs : List ConsentRecord) (w w2 : World)
    → lead.state ≡ new
    → lead_with lead.id w.db ≡ some lead
    → w.db.consents ≡ cs ++ row lead.id given ∷ []
    → process_first_touch local_hour later lead.id w ≡ ok (sent_queued outbox_id) w2
    → given ≡ true
sent_needs_consent local_hour later outbox_id lead given cs w w2 state found consents sent =
    let (r, w', run, effect) =
      first_touch-Touches local_hour later lead w found (may_contact lead.state state) in
    let queued : r ≡ sent_queued outbox_id = ap result_of (sym run ∙ sent) in
    let (unblocked, consented, fresh, id, text) = rw queued at effect in
    granted_given given (
      sym (
        current_consent-append lead.id (ready lead w).db cs (row lead.id given) refl refl
          (ensured-consents lead.id w.db ∙ consents))
      ∙ consented)

module _ (string_of : Text → String) (parse_phone : Text → Option String) (now : ℕ)
    (numbers : (t : Text) → parse_phone t ≢ some "") (local_hour : String → ℕ → ℕ) where
  -- A lead that the ingest creates gets its opener only if the payload consents to text messages: where the
  -- first touch of that lead, run at any later time, queues a message, the payload's consent was given. This
  -- needs that no valid phone number is the empty text and that the next id is not in use among the leads.
  pub opener_needs_consent :
      (job : IngestJob) (raw : RawWebhook) (source : LeadSource) (w w' w2 : World)
      (r : IngestResult) (later outbox_id : ℕ)
      → find (λ x. x.id == job.raw_webhook_id) w.db.webhooks ≡ some raw
      → find (λ s. s.id == job.source_id) w.db.sources ≡ some source
      → outcome_for (map_raw_to_normalized string_of parse_phone raw.payload source.mapping) w.db
        ≡ create
      → lead_with w.db.next_id w.db ≡ none
      → process_ingest string_of parse_phone now job w ≡ ok r w'
      → process_first_touch local_hour later w.db.next_id w' ≡ ok (sent_queued outbox_id) w2
      → read_sms_consent raw.payload ≡ true
  opener_needs_consent job raw source w w' w2 r later outbox_id stored known created unused ingested
        sent =
      let (r1, w1, run, takes) =
        ingest-Takes string_of parse_phone now numbers job raw source w stored known in
      let same : w1 ≡ w' = ap world_of (sym run ∙ ingested) in
      let ((leads, consents, identities), touched) = rw created at takes in
      let (lead, found, is_new, state) = found_last w.db.next_id w.db w1.db leads unused in
      subst
        (λ i.
          lead_with i w1.db ≡ some lead
          → w1.db.consents ≡ w.db.consents ++ row i (read_sms_consent raw.payload) ∷ []
          → process_first_touch local_hour later i w1 ≡ ok (sent_queued outbox_id) w2
          → read_sms_consent raw.payload ≡ true)
        is_new
        (sent_needs_consent local_hour later outbox_id lead (read_sms_consent raw.payload)
          w.db.consents w1 w2 state)
        found consents (ap (process_first_touch local_hour later w.db.next_id) same ∙ sent)
