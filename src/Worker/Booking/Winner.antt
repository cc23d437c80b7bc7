-- ===== src/Worker/Booking/Winner.antt =====
-- Whole bookings of apps/worker/src/processors/booking.ts, and a rival for the slot.
use insurnace_automations.Base.{
  ℕ, suc, ◌<◌, String, ◌+++◌, Bool, true, false, not, ◌&&◌, Option, none, some, List, [], ◌∷◌, ◌++◌,
  find, any, update_where, All, ◌≡◌, refl, ◌∙◌, ◌==◌, ==_iff, arith,
}
use insurnace_automations.Core.Types.{LeadState, state_eq}
use insurnace_automations.Core.StateMachine.{assert_transition}
use insurnace_automations.Worker.Store.{
  crm_sync_job, confirmed, SlotHold, CalendarConnection, Lead, Db, World, ok, bind, settle,
  lead_with, set_state, enqueue, emit_event, audit,
}
use insurnace_automations.Base.Show.{show_ℕ}
use insurnace_automations.Worker.Inbound.{move_unless}
use insurnace_automations.Worker.Booking.{
  BookingJob, booked, slot_taken, is_active, same_slot, new_hold, acquire_hold, set_hold,
  confirm_hold, add_appointment, advance_lead, finish, after_hold, with_hold, process_booking,
}
use insurnace_automations.Worker.Booking.Exclusive.{Exclusive}

-- An active hold has the slot.
abbrev pub taken : SlotHold → List SlotHold → Bool
taken h hs = any (λ g. is_active g.status && same_slot g h) hs

find-last :
    (n : SlotHold) (hs : List SlotHold)
    → All (λ h. h.id < n.id) hs
    → find (λ h. h.id == n.id) (hs ++ n ∷ []) ≡ some n
find-last n [] h = rw ((==_iff n.id n.id).1 refl) refl
find-last n (x ∷ hs) h =
    let other : (x.id == n.id) ≡ false = ground (arith, h.0) in rw other (find-last n hs h.1)

unclashed_last :
    (n : SlotHold) (hs : List SlotHold)
    → taken n hs ≡ false
    → any (λ g. not (g.id == n.id) && (is_active g.status && same_slot g n)) (hs ++ n ∷ []) ≡ false
unclashed_last n [] e = rw ((==_iff n.id n.id).1 refl) refl
unclashed_last n (x ∷ hs) e =
    let a : is_active x.status && same_slot x n ≡ false = ground (arith, e) in
    let rest : taken n hs ≡ false = ground (arith, e) in
    rw (a, unclashed_last n hs rest) (ground arith)

taken_last :
    (n : SlotHold) (hs : List SlotHold)
    → taken n
        (update_where (λ h. h.id == n.id) (λ h. record h { status = confirmed }) (hs ++ n ∷ []))
      ≡ true
taken_last n [] = ground arith
taken_last n (x ∷ hs) = rw (taken_last n hs) (ground arith)

module _ (now : ℕ) (job : BookingJob) (d : Db) (x : Exclusive d)
    (free : taken (new_hold now job d.next_id) d.holds ≡ false) where
  abbrev held_db : Db
  held_db = record d { next_id = suc d.next_id; holds = d.holds ++ new_hold now job d.next_id ∷ [] }

  acquired : acquire_hold now job d ≡ some (d.next_id, held_db)
  unfolding acquire_hold
  acquired = rw (free, acquire_hold) refl

  confirmed_ok : confirm_hold d.next_id held_db ≡ some (set_hold d.next_id confirmed held_db)
  unfolding confirm_hold
  confirmed_ok =
      rw (find-last (new_hold now job d.next_id) d.holds x.drawn, confirm_hold)
        (rw (unclashed_last (new_hold now job d.next_id) d.holds free) refl)

module _ (job : BookingJob) (event : String) (lead : Lead) (d : Db)
    (found : lead_with job.lead_id d ≡ some lead)
    (unbooked : state_eq lead.state LeadState.booked ≡ false)
    (may : assert_transition lead.state LeadState.booked ≡ none) where
  -- The world after the third step.
  abbrev finished : World → World
  finished w =
      enqueue "crm-sync" ("crm:" +++ show_ℕ job.lead_id) (crm_sync_job job.lead_id) 0 (record w {
        db = audit "appointment.booked" d.next_id (
            emit_event job.lead_id "appointment.booked"
              (set_state lead.id LeadState.booked (add_appointment job event d)));
      })

  finish_run : (w : World) → finish job event (some d) w ≡ ok (booked d.next_id event) (finished w)
  unfolding finish advance_lead bind
  finish_run w = rw (found, advance_lead) (rw unbooked (rw (may, move_unless) refl))

-- A hold of a rival on the same slot meets what the winner holds.
rival_meets :
    (now later : ℕ) (job rival : BookingJob) (m n : ℕ) (hs : List SlotHold)
    → rival.calendar_connection_id ≡ job.calendar_connection_id
    → rival.starts_at ≡ job.starts_at
    → taken (new_hold later rival m) hs ≡ taken (new_hold now job n) hs
rival_meets now later job rival m n hs e f = rw (e, f) refl

taken-none :
    (now : ℕ) (job : BookingJob) (d : Db)
    → taken (new_hold now job d.next_id) d.holds ≡ true
    → acquire_hold now job d ≡ none
unfolding acquire_hold
taken-none now job d h = rw (h, acquire_hold) refl

loses :
    (now : ℕ) (job : BookingJob) (answer : Option String) (c : CalendarConnection) (w : World)
    → find (λ c. c.id == job.calendar_connection_id) w.db.calendars ≡ some c
    → taken (new_hold now job w.db.next_id) w.db.holds ≡ true
    → process_booking now job answer w ≡ ok slot_taken w
unfolding process_booking with_hold
loses now job answer c w cal h =
    rw (cal, process_booking) (rw (taken-none now job w.db h, with_hold) refl)

-- In a database whose holds are exclusive, a booking of a free slot of a known calendar, for a lead
-- whose state allows it and when the calendar accepts the event, ends as booked; and every later
-- booking of the same slot of that calendar, by whichever lead and whatever its calendar would answer,
-- ends with the slot taken and changes nothing.
pub slot_won_once :
    (now later : ℕ) (job rival : BookingJob) (event : String) (answer : Option String) (lead : Lead)
    (c : CalendarConnection) (w : World)
    → find (λ c. c.id == job.calendar_connection_id) w.db.calendars ≡ some c
    → Exclusive w.db
    → taken (new_hold now job w.db.next_id) w.db.holds ≡ false
    → lead_with job.lead_id w.db ≡ some lead
    → state_eq lead.state LeadState.booked ≡ false
    → assert_transition lead.state LeadState.booked ≡ none
    → rival.calendar_connection_id ≡ job.calendar_connection_id
    → rival.starts_at ≡ job.starts_at
    → (w' : World) × (process_booking now job (some event) w
        ≡ ok (booked (suc w.db.next_id) event) w')
      × (process_booking later rival answer w' ≡ ok slot_taken w')
unfolding process_booking with_hold after_hold settle acquire_hold
slot_won_once now later job rival event answer lead c w cal x free found unbooked may e f =
    let d2 = set_hold w.db.next_id confirmed (held_db now job w.db x free) in
    let w' = finished job event lead d2 found unbooked may w in
    (
      w',
      rw (cal, process_booking)
          (rw (acquired now job w.db x free, with_hold)
            (rw (confirmed_ok now job w.db x free, after_hold)
              (rw
                (finish_run job event lead d2 found unbooked may
                  (record w { db = held_db now job w.db x free }))
                refl))),
      loses later rival answer c w' (rw e cal) (
          rival_meets now later job rival w'.db.next_id w.db.next_id w'.db.holds e f
          ∙ taken_last (new_hold now job w.db.next_id) w.db.holds),
    )
