-- ===== src/Worker/CrmSync/Laws.antt =====
-- Theorems on `processCrmSync` of apps/worker/src/processors/crm-sync.ts.
use insurnace_automations.Base.{
  ℕ, String, subst, filter, Option, none, some, List, [], ◌∷◌, find, update_where, All, All-append,
  ◌≡◌, refl, ◌==◌, ==_iff, Bool-cases, ◌⊎◌, inl, inr, arith, Option-cases,
}
use insurnace_automations.Worker.Store.{
  Lead, Appointment, QualificationRow, CrmMapping, CrmSyncRow, CrmCall, contact, deal, note,
  meeting, Db, World, Outcome, ok, error, lead_with, SyncStatus,
}
use insurnace_automations.Worker.Outcomes.{world_of}
use insurnace_automations.Worker.CrmSync.{
  CrmSyncResult, synced, no_connection, CrmAnswer, done, refused, mapping_of, appointment_of,
  answers_of, mark_attempt, call, upsert_mapping, contact_call, deal_call, extra_calls, store_sync,
  fail_sync, tell, after_deal, after_contact, sync_for, process_crm_sync,
}

-- A request that makes no new contact or deal: it names those that the CRM has.
abbrev pub Updates : String → String → CrmCall → Type 0
Updates c d (contact id first last email phone source) = id ≡ some c
Updates c d (deal id contact_id name stage score band) = id ≡ some d
Updates c d (note contact_id answers) = Unit {0}
Updates c d (meeting contact_id starts_at ends_at) = Unit {0}

abbrev mapped : ℕ → String → String → CrmMapping
mapped id c d = record { lead_id = id; contact_external_id = c; deal_external_id = d }

find-upsert :
    (id : ℕ) (c d : String) (ms : List CrmMapping)
    → find (λ m. m.lead_id == id) (upsert_mapping id c d ms) ≡ some (mapped id c d)
unfolding upsert_mapping
find-upsert id c d [] = rw ((==_iff id id).1 refl) refl
find-upsert id c d (m ∷ ms) = ground (arith, find-upsert id c d ms)

Answer-cases :
    (a : CrmAnswer) → ((message : String) × (a ≡ refused message)) ⊎ ((id : String) × (a ≡ done id))
Answer-cases (refused message) = inl (message, refl)
Answer-cases (done id) = inr (id, refl)

extra-Updates :
    (c d : String) (qa : Option QualificationRow) (a : Option Appointment) (contact_id : String)
    → All (Updates c d) (extra_calls qa a contact_id)
unfolding extra_calls
extra-Updates c d none none contact_id = tt
extra-Updates c d (some qa) none contact_id = (tt, tt)
extra-Updates c d none (some a) contact_id = (tt, tt)
extra-Updates c d (some qa) (some a) contact_id = (tt, (tt, tt))

module _ (crm : CrmCall → CrmAnswer) (c d : String) where
  abbrev Calls : World → Type 0
  Calls w = All (Updates c d) w.crm_calls

  tell-Updates :
      (id : ℕ) (contact_id deal_id : String) (cs : List CrmCall) (w : World)
      → All (Updates c d) cs
      → Calls w
      → Calls (world_of (tell crm id contact_id deal_id cs w))
  unfolding tell store_sync fail_sync
  tell-Updates id contact_id deal_id [] w h k = k
  tell-Updates id contact_id deal_id (x ∷ xs) w h k =
      let more : Calls (call x w) = All-append (Updates c d) w.crm_calls (x ∷ []) k (h.0, tt) in
      elim (Answer-cases (crm x)) [
        | inl (message, e) ↦ rw (e, tell) more
        | inr (_, e) ↦ rw (e, tell) (tell-Updates id contact_id deal_id xs (call x w) h.1 more)
      ]

  after_deal-Updates :
      (lead : Lead) (cs : List CrmCall) (contact_id : String) (a : CrmAnswer) (w : World)
      → All (Updates c d) cs
      → Calls w
      → Calls (world_of (after_deal crm lead cs contact_id a w))
  unfolding after_deal fail_sync
  after_deal-Updates lead cs contact_id (refused message) w h k = k
  after_deal-Updates lead cs contact_id (done deal_id) w h k =
      tell-Updates lead.id contact_id deal_id cs w h k

  deal-Updates :
      (lead : Lead) (before : Db) (contact_id : String)
      → mapping_of lead.id before ≡ some (mapped lead.id c d)
      → Updates c d (deal_call lead (mapping_of lead.id before) contact_id)
  unfolding deal_call
  deal-Updates lead before contact_id e = rw e refl

  after_contact-Updates :
      (lead : Lead) (before : Db) (a : CrmAnswer) (w : World)
      → mapping_of lead.id before ≡ some (mapped lead.id c d)
      → Calls w
      → Calls (world_of (after_contact crm lead before a w))
  unfolding after_contact fail_sync
  after_contact-Updates lead before (refused message) w e k = k
  after_contact-Updates lead before (done contact_id) w e k =
      let x = deal_call lead (mapping_of lead.id before) contact_id in
      after_deal-Updates lead
        (extra_calls (answers_of lead.id before) (appointment_of lead.id before) contact_id)
        contact_id (crm x) (call x w)
        (extra-Updates c d (answers_of lead.id before) (appointment_of lead.id before) contact_id)
        (All-append (Updates c d) w.crm_calls (x ∷ []) k
          (deal-Updates lead before contact_id e, tt))

  run-Updates :
      (lead : Lead) (w : World)
      → lead_with lead.id w.db ≡ some lead
      → mapping_of lead.id w.db ≡ some (mapped lead.id c d)
      → Calls w
      → Calls (world_of (process_crm_sync crm lead.id w))
  unfolding process_crm_sync sync_for
  run-Updates lead w found known k = elim (Option-cases w.db.crm_connection) [
    | inl e ↦ rw (e, process_crm_sync) k
    | inr (token, e) ↦
        let first = contact_call lead (mapping_of lead.id w.db) in
        rw (e, process_crm_sync)
          (rw (found, sync_for)
            (after_contact-Updates lead (mark_attempt lead.id w).db (crm first)
              (call first (mark_attempt lead.id w)) known
              (All-append (Updates c d) w.crm_calls (first ∷ []) k (rw known refl, tt))))
  ]

-- What a run leaves in the database.
abbrev pub Stored : ℕ → Db → Outcome CrmSyncResult → Type 0
Stored id before (ok (synced c d) w) =
    (mapping_of id w.db ≡ some (mapped id c d))
    × (w.db.leads ≡ before.leads)
    × All (λ j. j.status ≡ SyncStatus.synced) (filter (λ j. j.lead_id == id) w.db.crm_syncs)
Stored id before (ok no_connection w) =
    (w.db.crm_mappings ≡ before.crm_mappings) × (w.db.leads ≡ before.leads)
Stored id before (error message w) =
    (w.db.crm_mappings ≡ before.crm_mappings) × (w.db.leads ≡ before.leads)

all_synced :
    (id : ℕ) (js : List CrmSyncRow)
    → All
        (λ j. j.status ≡ SyncStatus.synced)
        (filter
          (λ j. j.lead_id == id)
          (update_where
            (λ j. j.lead_id == id)
            (λ j. record j { status = SyncStatus.synced; last_error = j.last_error })
            js))
all_synced id [] = tt
all_synced id (j ∷ js) = elim (Bool-cases (j.lead_id == id)) [
  | inl e ↦ rw (e, e) (refl, all_synced id js)
  | inr e ↦ rw (e, e) (all_synced id js)
]

module _ (crm : CrmCall → CrmAnswer) (before : Db) where
  tell-Stored :
      (id : ℕ) (contact_id deal_id : String) (cs : List CrmCall) (w : World)
      → w.db.leads ≡ before.leads
      → w.db.crm_mappings ≡ before.crm_mappings
      → Stored id before (tell crm id contact_id deal_id cs w)
  unfolding tell store_sync fail_sync
  tell-Stored id contact_id deal_id [] w h k =
      (find-upsert id contact_id deal_id w.db.crm_mappings, h, all_synced id w.db.crm_syncs)
  tell-Stored id contact_id deal_id (x ∷ xs) w h k = elim (Answer-cases (crm x)) [
    | inl (message, e) ↦ rw (e, tell) (k, h)
    | inr (_, e) ↦ rw (e, tell) (tell-Stored id contact_id deal_id xs (call x w) h k)
  ]

  after_deal-Stored :
      (lead : Lead) (cs : List CrmCall) (contact_id : String) (a : CrmAnswer) (w : World)
      → w.db.leads ≡ before.leads
      → w.db.crm_mappings ≡ before.crm_mappings
      → Stored lead.id before (after_deal crm lead cs contact_id a w)
  unfolding after_deal fail_sync
  after_deal-Stored lead cs contact_id (refused message) w h k = (k, h)
  after_deal-Stored lead cs contact_id (done deal_id) w h k =
      tell-Stored lead.id contact_id deal_id cs w h k

  after_contact-Stored :
      (lead : Lead) (d : Db) (a : CrmAnswer) (w : World)
      → w.db.leads ≡ before.leads
      → w.db.crm_mappings ≡ before.crm_mappings
      → Stored lead.id before (after_contact crm lead d a w)
  unfolding after_contact fail_sync
  after_contact-Stored lead d (refused message) w h k = (k, h)
  after_contact-Stored lead d (done contact_id) w h k =
      let x = deal_call lead (mapping_of lead.id d) contact_id in
      after_deal-Stored lead
        (extra_calls (answers_of lead.id d) (appointment_of lead.id d) contact_id) contact_id
        (crm x) (call x w) h k

-- A run on a lead that the tenant has either succeeds, and then the mapping of the lead holds the ids
-- that the CRM gave and every attempt is marked as synced, or it ends with no connection or an error,
-- and then the mappings and leads are as they were: an id that the CRM gave before the error is forgotten.
pub sync-Stored :
    (crm : CrmCall → CrmAnswer) (lead : Lead) (w : World)
    → lead_with lead.id w.db ≡ some lead
    → Stored lead.id w.db (process_crm_sync crm lead.id w)
unfolding process_crm_sync sync_for
sync-Stored crm lead w found = elim (Option-cases w.db.crm_connection) [
  | inl e ↦ rw (e, process_crm_sync) (refl, refl)
  | inr (token, e) ↦
      let first = contact_call lead (mapping_of lead.id w.db) in
      rw (e, process_crm_sync)
        (rw (found, sync_for)
          (after_contact-Stored crm w.db lead (mark_attempt lead.id w).db (crm first)
            (call first (mark_attempt lead.id w)) refl refl))
]

-- The contact and the deal of the latest run that succeeded.
abbrev pub last_synced : String → String → Outcome CrmSyncResult → String × String
last_synced c d (ok (synced contact_id deal_id) w) = (contact_id, deal_id)
last_synced c d (ok no_connection w) = (c, d)
last_synced c d (error message w) = (c, d)

-- Runs on a lead one after the other, each with the answers of the CRM to it: the requests of every
-- run name the contact and the deal of the latest run before it that succeeded.
abbrev pub Follows : ℕ → String → String → List (CrmCall → CrmAnswer) → World → Type 0
Follows id c d [] w = Unit
Follows id c d (crm ∷ crms) w =
    let o = process_crm_sync crm id (record w { crm_calls = [] }) in
    All (Updates c d) (world_of o).crm_calls
    × Follows id (last_synced c d o).0 (last_synced c d o).1 crms (world_of o)

mapped-last_synced :
    (id : ℕ) (c d : String) (before : Db) (o : Outcome CrmSyncResult)
    → Stored id before o
    → mapping_of id before ≡ some (mapped id c d)
    → mapping_of id (world_of o).db ≡ some (mapped id (last_synced c d o).0 (last_synced c d o).1)
mapped-last_synced id c d before (ok (synced contact_id deal_id) w) s known = s.0
mapped-last_synced id c d before (ok no_connection w) s known = rw s.0 known
mapped-last_synced id c d before (error message w) s known = rw s.0 known

same_leads :
    (id : ℕ) (before : Db) (o : Outcome CrmSyncResult)
    → Stored id before o
    → (world_of o).db.leads ≡ before.leads
same_leads id before (ok (synced c d) w) s = s.1
same_leads id before (ok no_connection w) s = s.1
same_leads id before (error message w) s = s.1

runs-Follows :
    (crms : List (CrmCall → CrmAnswer)) (lead : Lead) (c d : String) (w : World)
    → lead_with lead.id w.db ≡ some lead
    → mapping_of lead.id w.db ≡ some (mapped lead.id c d)
    → Follows lead.id c d crms w
runs-Follows [] lead c d w found known = tt
runs-Follows (crm ∷ crms) lead c d w found known =
    let w0 : World = record w { crm_calls = [] } in
    let o = process_crm_sync crm lead.id w0 in
    let stored = sync-Stored crm lead w0 found in
    (
      run-Updates crm c d lead w0 found known tt,
      runs-Follows crms lead (last_synced c d o).0 (last_synced c d o).1 (world_of o)
          (rw (same_leads lead.id w.db o stored) found)
          (mapped-last_synced lead.id c d w.db o stored known),
    )

-- After a run that succeeded, any number of later runs on the lead make no new contact or deal, whatever
-- the CRM answers to each: every request of a run updates the contact and the deal that the CRM gave in
-- the latest run before it that succeeded, also over runs that failed.
pub resync-Updates :
    (crm : CrmCall → CrmAnswer) (crms : List (CrmCall → CrmAnswer)) (lead : Lead) (w w' : World)
    (c d : String)
    → lead_with lead.id w.db ≡ some lead
    → process_crm_sync crm lead.id w ≡ ok (synced c d) w'
    → Follows lead.id c d crms w'
resync-Updates crm crms lead w w' c d found run =
    let (known, same, marked) : Stored lead.id w.db (ok (synced c d) w') =
      subst (Stored lead.id w.db) run (sync-Stored crm lead w found) in
    runs-Follows crms lead c d w' (rw same found) known
