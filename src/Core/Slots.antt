-- ===== src/Core/Slots.antt =====
-- packages/core/src/slots.ts: the bookable slots between busy intervals. An instant is its number of
-- milliseconds since the epoch, and the configuration's minutes are whole numbers.
pub mod Sound
pub mod Complete
use insurnace_automations.Base.{
  ℕ, zero, suc, ◌+◌, ◌-◌, ◌*◌, ◌/◌, ◌%◌, max, Bool, true, false, ◌&&◌, List, [], ◌∷◌, ◌++◌, map,
  any, length, ltb, leb, ◌==◌, if◌then◌else◌,
}

pub record Interval : Type 0 where
  pub start : ℕ
  pub end : ℕ

pub record SlotConfig : Type 0 where
  pub duration_minutes : ℕ
  pub buffer_minutes : ℕ
  pub step_minutes : ℕ
  pub max_offers : ℕ

abbrev pub overlaps : Interval → Interval → Bool
overlaps a b = ltb a.start b.end && ltb b.start a.end

-- A busy interval with the buffer on both sides. A start that would lie before the epoch is put at
-- the epoch, which no slot of positive length tells apart.
abbrev pub expand : ℕ → Interval → Interval
expand buffer_ms b = record { start = b.start - buffer_ms; end = b.end + buffer_ms }

abbrev pub collides : List Interval → Interval → Bool
collides expanded candidate = any (overlaps candidate) expanded

-- The cursor, moved up to a step boundary from the window's start; `step_ms` is not 0.
abbrev pub align : ℕ → ℕ → ℕ → ℕ
align base step_ms cursor =
    if (cursor - base) % step_ms == 0
    then cursor
    else base + ((cursor - base + (step_ms - 1)) / step_ms) * step_ms

-- The `while` loop of one window, on fuel, with the offers so far. The flag says that enough offers
-- were made, where the function returns from inside the loop.
module _ (expanded : List Interval) (duration_ms step_ms max_offers stop : ℕ) where
  pub scan : ℕ → ℕ → List Interval → Bool × List Interval
  scan zero cursor offers = (false, offers)
  scan (suc fuel) cursor offers =
      let candidate : Interval = record { start = cursor; end = cursor + duration_ms } in
      let pushed = offers ++ candidate ∷ [] in
      let skip = scan fuel (cursor + step_ms) offers in
      let go_on = scan fuel (cursor + step_ms) pushed in
      if leb (cursor + duration_ms) stop
      then (if collides expanded candidate
          then skip
          else if leb max_offers (length pushed)
          then (true, pushed)
          else go_on)
      else (false, offers)

-- A cursor moves by at least 1, so a window has no more rounds than milliseconds.
abbrev pub fuel_for : ℕ → ℕ → ℕ
fuel_for cursor stop = suc (stop - cursor)

-- The loop over the windows. With a step of 0 the cursor becomes NaN, and the window offers nothing.
module _ (expanded : List Interval) (duration_ms step_ms max_offers now : ℕ) where
  pub windows : List Interval → List Interval → List Interval
  windows [] offers = offers
  windows (w ∷ ws) offers =
      if step_ms == 0
      then offers
      else let cursor = align w.start step_ms (max w.start now) in
        let (full, found) =
          scan expanded duration_ms step_ms max_offers w.end (fuel_for cursor w.end) cursor
            offers in
        let rest = windows ws found in if full then found else rest

unfoldable pub compute_slots : List Interval → List Interval → SlotConfig → ℕ → List Interval
unfolding windows scan
compute_slots working_windows busy config now =
    windows (map (expand (config.buffer_minutes * 60000)) busy) (config.duration_minutes * 60000)
      (config.step_minutes * 60000) config.max_offers now working_windows []
