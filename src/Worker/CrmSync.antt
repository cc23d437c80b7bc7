-- ===== src/Worker/CrmSync.antt =====
-- apps/worker/src/processors/crm-sync.ts: a lead is mirrored to the CRM. `crm` gives the answer of the
-- CRM to a request. The text of the note is its answers, where the code prints them as JSON.
pub mod Laws
use insurnace_automations.Base.{
  ℕ, String, ◌+++◌, Bool, true, false, Option, none, some, List, [], ◌∷◌, ◌++◌, Text, codes, find,
  update_where, get_or, ◌==◌, if◌then◌else◌,
}
use insurnace_automations.Base.Show.{show_ℕ}
use insurnace_automations.Core.Types.{LeadState, qualified, appointment_offered, booked, won, lost}
use insurnace_automations.Worker.Store.{
  Lead, Appointment, QualificationRow, CrmMapping, SyncStatus, pending, failed, CrmSyncRow, CrmCall,
  contact, deal, note, meeting, Db, World, Outcome, ok, error, emit_event, audit, lead_with,
}

pub data CrmSyncResult : Type 0 where
  synced : (contact_external_id deal_external_id : String) → CrmSyncResult
  no_connection : CrmSyncResult

-- The CRM's answer: an external id, which notes and meetings have no use for, or an error.
pub data CrmAnswer : Type 0 where
  done : (external_id : String) → CrmAnswer
  refused : (message : String) → CrmAnswer

-- `mapStage`
unfoldable pub map_stage : LeadState → String
map_stage qualified = "qualifiedtobuy"
map_stage appointment_offered = "qualifiedtobuy"
map_stage booked = "presentationscheduled"
map_stage won = "closedwon"
map_stage lost = "closedlost"
map_stage _ = "appointmentscheduled"

-- What is loaded: the lead's mapping, appointment and answers.
abbrev pub mapping_of : ℕ → Db → Option CrmMapping
mapping_of lead_id d = find (λ m. m.lead_id == lead_id) d.crm_mappings

abbrev pub appointment_of : ℕ → Db → Option Appointment
appointment_of lead_id d = find (λ a. a.lead_id == lead_id) d.appointments

abbrev pub answers_of : ℕ → Db → Option QualificationRow
answers_of lead_id d = find (λ q. q.lead_id == lead_id) d.qualifications

-- `crm_sync_jobs` has no unique index, so the insertion never conflicts.
abbrev pub mark_attempt : ℕ → World → World
mark_attempt lead_id w = record w {
  db = record w.db {
    crm_syncs =
        w.db.crm_syncs ++ record { lead_id = lead_id; status = pending; last_error = none } ∷ [];
  };
}

abbrev pub set_sync : ℕ → SyncStatus → (Option String → Option String) → Db → Db
set_sync lead_id status last_error d = record d {
  crm_syncs =
      update_where (λ j. j.lead_id == lead_id)
        (λ j. record j { status = status; last_error = last_error j.last_error }) d.crm_syncs;
}

abbrev pub call : CrmCall → World → World
call c w = record w { crm_calls = w.crm_calls ++ c ∷ [] }

unfoldable pub upsert_mapping : ℕ → String → String → List CrmMapping → List CrmMapping
upsert_mapping lead_id contact_id deal_id [] =
    record { lead_id = lead_id; contact_external_id = contact_id; deal_external_id = deal_id } ∷ []
upsert_mapping lead_id contact_id deal_id (m ∷ ms) =
    let rest = upsert_mapping lead_id contact_id deal_id ms in
    if m.lead_id == lead_id
    then record m { contact_external_id = contact_id; deal_external_id = deal_id } ∷ ms
    else m ∷ rest

abbrev pub contact_call : Lead → Option CrmMapping → CrmCall
contact_call lead mapping =
    contact (elim mapping [ none ↦ none | some m ↦ some m.contact_external_id ]) lead.first_name
      lead.last_name lead.email_normalized lead.phone_e164 lead.source_id

-- The name of the deal; the dash in it is U+2014.
abbrev pub deal_name : Lead → Text
deal_name lead =
    get_or lead.first_name (codes "Lead")
    ++ (32 ∷ 8212 ∷ 32 ∷ get_or lead.service_requested (codes "service"))

unfoldable pub deal_call : Lead → Option CrmMapping → String → CrmCall
unfolding map_stage
deal_call lead mapping contact_id =
    deal (elim mapping [ none ↦ none | some m ↦ some m.deal_external_id ]) contact_id
      (deal_name lead) (map_stage lead.state) lead.score_current lead.score_band

-- The calls after the deal, where there is something to tell.
unfoldable pub extra_calls : Option QualificationRow → Option Appointment → String → List CrmCall
extra_calls none none contact_id = []
extra_calls (some qa) none contact_id = note contact_id qa.answers ∷ []
extra_calls none (some a) contact_id = meeting contact_id a.starts_at a.ends_at ∷ []
extra_calls (some qa) (some a) contact_id =
    note contact_id qa.answers ∷ meeting contact_id a.starts_at a.ends_at ∷ []

-- The transaction after the last call.
unfoldable pub store_sync : ℕ → String → String → World → Outcome CrmSyncResult
unfolding upsert_mapping
store_sync lead_id contact_id deal_id w = ok (synced contact_id deal_id) (record w {
  db = audit "crm.synced" lead_id (
      emit_event lead_id "crm.synced" (
        set_sync lead_id SyncStatus.synced (λ e. e)
          (record w.db {
            crm_mappings = upsert_mapping lead_id contact_id deal_id w.db.crm_mappings;
          })));
})

-- The handler of an error of the CRM, which throws it again.
unfoldable pub fail_sync : ℕ → String → World → Outcome CrmSyncResult
fail_sync lead_id message w = error message (record w {
  db =
      emit_event lead_id "crm.sync_failed"
        (set_sync lead_id SyncStatus.failed (λ e. some message) w.db);
})

module _ (crm : CrmCall → CrmAnswer) where
  unfoldable pub tell : ℕ → String → String → List CrmCall → World → Outcome CrmSyncResult
  unfolding store_sync fail_sync
  tell lead_id contact_id deal_id [] w = store_sync lead_id contact_id deal_id w
  tell lead_id contact_id deal_id (c ∷ cs) w = elim (crm c) [
    | refused message ↦ fail_sync lead_id message (call c w)
    | done _ ↦ tell lead_id contact_id deal_id cs (call c w)
  ]

  -- From the answer to the deal on.
  unfoldable pub after_deal :
      Lead → List CrmCall → String → CrmAnswer → World → Outcome CrmSyncResult
  unfolding tell fail_sync
  after_deal lead extras contact_id (refused message) w = fail_sync lead.id message w
  after_deal lead extras contact_id (done deal_id) w = tell lead.id contact_id deal_id extras w

  -- From the answer to the contact on; `d` is the database as it was loaded.
  unfoldable pub after_contact : Lead → Db → CrmAnswer → World → Outcome CrmSyncResult
  unfolding after_deal fail_sync deal_call extra_calls
  after_contact lead d (refused message) w = fail_sync lead.id message w
  after_contact lead d (done contact_id) w =
      let c = deal_call lead (mapping_of lead.id d) contact_id in
      after_deal lead (extra_calls (answers_of lead.id d) (appointment_of lead.id d) contact_id)
        contact_id (crm c) (call c w)

  unfoldable pub sync_for : ℕ → Option Lead → World → Outcome CrmSyncResult
  unfolding after_contact
  sync_for lead_id none w = error ("lead " +++ show_ℕ lead_id +++ " not found") w
  sync_for lead_id (some lead) w =
      let c = contact_call lead (mapping_of lead.id w.db) in
      after_contact lead w.db (crm c) (call c w)

  unfoldable pub process_crm_sync : ℕ → World → Outcome CrmSyncResult
  unfolding sync_for
  process_crm_sync lead_id w =
      let w1 : World = mark_attempt lead_id w in
      elim w.db.crm_connection [
        | none ↦ ok no_connection w1
        | some token ↦ sync_for lead_id (lead_with lead_id w.db) w1
      ]
