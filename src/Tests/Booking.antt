-- ===== src/Tests/Booking.antt =====
-- Two leads who want the same slot.
use insurnace_automations.Base.{ℕ, some, none, [], ◌∷◌, ◌≡◌, refl}
use insurnace_automations.Core.Types.{LeadState, qualified}
use insurnace_automations.Core.StateMachine.{assert_transition}
use insurnace_automations.Worker.Store.{World, Db, ok}
use insurnace_automations.Worker.Booking.{
  BookingJob, booked, slot_taken, new_hold, acquire_hold, release_hold, process_booking,
}
use insurnace_automations.Worker.Booking.Exclusive.{
  Exclusive, ◌⇝*◌, here, next, acquire, release, steps-Exclusive,
}
use insurnace_automations.Worker.Booking.Winner.{slot_won_once}
use insurnace_automations.Tests.Data.{lead_in, world_in}

abbrev job : ℕ → BookingJob
job lead_id = record {
  lead_id = lead_id;
  calendar_connection_id = 9;
  starts_at = 3600000;
  ends_at = 5400000;
}

abbrev w : World
w = world_in qualified

abbrev holding : Db
holding = record w.db { next_id = 7; holds = new_hold 0 (job 1) 6 ∷ [] }

none_held : Exclusive w.db
none_held = record { apart = tt; drawn = tt }

first_hold : acquire_hold 0 (job 1) w.db ≡ some (6, holding)
unfolding acquire_hold
first_hold = refl

may_book : assert_transition qualified LeadState.booked ≡ none
unfolding assert_transition
may_book = refl

abbrev hold_and_release : w.db ⇝* release_hold 6 holding
hold_and_release =
    next {b = holding} (acquire 0 (job 1) 6 first_hold)
      (next {b = release_hold 6 holding} (release 6 refl) here)

steps-Exclusive_example : Exclusive (release_hold 6 holding)
steps-Exclusive_example = steps-Exclusive hold_and_release none_held

slot_won_once_example :
    (w' : World) × (process_booking 0 (job 1) (some "ev1") w ≡ ok (booked 7 "ev1") w')
    × (process_booking 5 (job 2) (some "ev2") w' ≡ ok slot_taken w')
slot_won_once_example =
    slot_won_once 0 5 (job 1) (job 2) "ev1" (some "ev2") (lead_in qualified)
      (record { id = 9; calendar_id = "primary" }) w refl none_held refl refl refl may_book refl
      refl
