-- ===== src/Worker/Booking.antt =====
-- apps/worker/src/processors/booking.ts: holds on calendar slots and the booking of a lead. What the
-- calendar answers to `createEvent`, the event's identifier or none where it throws, is an argument.
pub mod Exclusive
pub mod Winner
use insurnace_automations.Base.{
  ℕ, suc, ◌+◌, String, ◌+++◌, Bool, true, false, not, ◌&&◌, Option, none, some, List, [], ◌∷◌, ◌++◌,
  find, filter, any, length, update_where, ◌==◌, ltb, if◌then◌else◌,
}
use insurnace_automations.Base.Show.{show_ℕ}
use insurnace_automations.Core.Types.{LeadState, state_eq}
use insurnace_automations.Core.StateMachine.{assert_transition}
use insurnace_automations.Worker.Store.{
  crm_sync_job, Lead, HoldStatus, held, confirmed, released, SlotHold, Appointment,
  CalendarConnection, Db, World, Outcome, ok, error, bind, settle, enqueue, emit_event, audit,
  lead_with,
}
use insurnace_automations.Worker.Inbound.{move_unless}

pub record BookingJob : Type 0 where
  pub lead_id : ℕ
  pub calendar_connection_id : ℕ
  pub starts_at : ℕ
  pub ends_at : ℕ

pub data BookingResult : Type 0 where
  booked : (appointment_id : ℕ) (external_event_id : String) → BookingResult
  slot_taken : BookingResult
  no_calendar : BookingResult

-- The rows that the index `slot_holds_unique` covers, and its key.
abbrev pub is_active : HoldStatus → Bool
is_active released = false
is_active _ = true

abbrev pub same_slot : SlotHold → SlotHold → Bool
same_slot g h =
    (g.calendar_connection_id == h.calendar_connection_id) && (g.starts_at == h.starts_at)

abbrev pub new_hold : ℕ → BookingJob → ℕ → SlotHold
new_hold now job id = record {
  id = id;
  calendar_connection_id = job.calendar_connection_id;
  lead_id = job.lead_id;
  starts_at = job.starts_at;
  ends_at = job.ends_at;
  status = held;
  expires_at = now + 300000;
}

-- The insertion of a hold, which the index refuses where an active hold has the slot.
unfoldable pub acquire_hold : ℕ → BookingJob → Db → Option (ℕ × Db)
acquire_hold now job d =
    if any (λ h. is_active h.status && same_slot h (new_hold now job d.next_id)) d.holds
    then none
    else some (
      d.next_id,
      record d { next_id = suc d.next_id; holds = d.holds ++ new_hold now job d.next_id ∷ [] },
    )

abbrev pub set_hold : ℕ → HoldStatus → Db → Db
set_hold id status d = record d {
  holds = update_where (λ h. h.id == id) (λ h. record h { status = status }) d.holds;
}

abbrev pub release_hold : ℕ → Db → Db
release_hold id d = set_hold id released d

-- The update of a hold to confirmed, which the index refuses where another active hold has the slot.
unfoldable pub confirm_hold : ℕ → Db → Option Db
confirm_hold id d = elim (find (λ h. h.id == id) d.holds) [
  | none ↦ some d
  | some h ↦
      if any (λ g. not (g.id == h.id) && (is_active g.status && same_slot g h)) d.holds
      then none
      else some (set_hold id confirmed d)
]

-- `releaseExpiredHolds`: how many were released, and the rest.
abbrev pub is_held : HoldStatus → Bool
is_held held = true
is_held _ = false

abbrev pub expired : ℕ → SlotHold → Bool
expired now h = is_held h.status && ltb h.expires_at now

unfoldable pub release_expired_holds : ℕ → Db → ℕ × Db
release_expired_holds now d = (
  length (filter (expired now) d.holds),
  record d { holds = update_where (expired now) (λ h. record h { status = released }) d.holds },
)

abbrev pub add_appointment : BookingJob → String → Db → Db
add_appointment job event d = record d {
  next_id = suc d.next_id;
  appointments =
      d.appointments
      ++ record {
        id = d.next_id;
        lead_id = job.lead_id;
        calendar_connection_id = job.calendar_connection_id;
        external_event_id = event;
        starts_at = job.starts_at;
        ends_at = job.ends_at;
      }
        ∷ [];
}

-- The lead's move to booked: none where the lead is missing or booked already.
unfoldable pub advance_lead : Option Lead → BookingResult → World → Outcome BookingResult
unfolding move_unless
advance_lead none r w = ok r w
advance_lead (some lead) r w =
    if state_eq lead.state LeadState.booked
    then ok r w
    else move_unless (assert_transition lead.state LeadState.booked) r lead.id LeadState.booked w

-- The third step's transaction, by the outcome of the confirmation.
unfoldable pub finish : BookingJob → String → Option Db → World → Outcome BookingResult
unfolding advance_lead bind
finish job event none w = error "23505" w
finish job event (some d) w =
    bind
      (advance_lead (lead_with job.lead_id d) (booked d.next_id event)
        (record w { db = add_appointment job event d }))
      (λ r w'. ok r (
        enqueue "crm-sync" ("crm:" +++ show_ℕ job.lead_id) (crm_sync_job job.lead_id) 0 (record w' {
          db =
              audit "appointment.booked" d.next_id
                (emit_event job.lead_id "appointment.booked" w'.db);
        })))

-- The steps after the hold, by the calendar's answer.
unfoldable pub after_hold : BookingJob → Option String → ℕ → World → Outcome BookingResult
unfolding finish confirm_hold settle
after_hold job none hold_id w = error "calendar" (record w { db = release_hold hold_id w.db })
after_hold job (some event) hold_id w = settle w.db (finish job event (confirm_hold hold_id w.db) w)

unfoldable pub with_hold :
    BookingJob → Option String → Option (ℕ × Db) → World → Outcome BookingResult
unfolding after_hold
with_hold job answer none w = ok slot_taken w
with_hold job answer (some (hold_id, d)) w = after_hold job answer hold_id (record w { db = d })

unfoldable pub process_booking : ℕ → BookingJob → Option String → World → Outcome BookingResult
unfolding with_hold acquire_hold
process_booking now job answer w =
    elim (find (λ c. c.id == job.calendar_connection_id) w.db.calendars) [
      | none ↦ ok no_calendar w
      | some c ↦ with_hold job answer (acquire_hold now job w.db) w
    ]
