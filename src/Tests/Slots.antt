-- ===== src/Tests/Slots.antt =====
-- One working window of two hours with a busy half hour in it.
use insurnace_automations.Base.{ℕ, ◌<◌, ◌*◌, List, [], ◌∷◌, All, In, length, inl, ◌≡◌, refl, arith}
use insurnace_automations.Core.Slots.{Interval, SlotConfig, compute_slots}
use insurnace_automations.Core.Slots.Sound.{IsBookable, compute_slots-IsBookable}
use insurnace_automations.Core.Slots.Complete.{compute_slots_complete}

abbrev minutes : ℕ → ℕ → Interval
minutes start end = record { start = start * 60000; end = end * 60000 }

abbrev window : List Interval
window = minutes 600 720 ∷ []

abbrev busy : List Interval
busy = minutes 630 660 ∷ []

abbrev config : SlotConfig
config = record { duration_minutes = 30; buffer_minutes = 0; step_minutes = 30; max_offers = 9 }

slot_tests :
    compute_slots window busy config 0 ≡ minutes 600 630 ∷ minutes 660 690 ∷ minutes 690 720 ∷ []
unfolding compute_slots
slot_tests = refl

compute_slots-IsBookable_example :
    All (IsBookable window busy 1800000 0 1800000 0) (compute_slots window busy config 0)
compute_slots-IsBookable_example =
    compute_slots-IsBookable window busy config 0 (omega arith) (omega arith)

few : length (compute_slots window busy config 0) < 9
unfolding compute_slots
few = omega arith

last_slot : IsBookable window busy 1800000 0 1800000 0 (minutes 690 720)
last_slot = record {
  window = minutes 600 720;
  listed = inl refl;
  begins = omega arith;
  ends = omega arith;
  grid = refl;
  future = omega arith;
  long = refl;
  clear = (λ h. omega (arith, h), tt);
}

compute_slots_complete_example : In (minutes 690 720) (compute_slots window busy config 0)
compute_slots_complete_example =
    compute_slots_complete window busy config 0 (minutes 690 720) (omega arith) (omega arith)
      last_slot few
