-- ===== src/Core/Slots/Sound.antt =====
-- Soundness of the offers of `computeSlots` in packages/core/src/slots.ts.
use insurnace_automations.Base.{
  ℕ, zero, suc, ◌+◌, ◌-◌, ◌*◌, ◌/◌, ◌%◌, ◌≤◌, ◌<◌, max, ◌≡◌, refl, inl, inr, false, List, [], ◌∷◌,
  ◌++◌, map, length, In, All, All-append, arith, leb, ◌==◌, Bool-cases,
}
use native.Mathlib.Nat.{mul-mod_left, add-mod_right}
use insurnace_automations.Core.Slots.{
  Interval, SlotConfig, expand, collides, align, scan, fuel_for, windows, compute_slots,
}

-- The slot keeps the buffer from a busy interval.
abbrev pub Clear : ℕ → Interval → Interval → Type 0
Clear buffer s b = ¬ ((s.start < b.end + buffer) × (b.start < s.end + buffer))

-- A slot that may be offered: in a window and on its grid, not in the past, of the length asked for
-- and clear of everything busy.
pub record IsBookable (windows busy : List Interval) (duration buffer step now : ℕ) (s : Interval)
    : Type 0 where
  pub window : Interval
  pub listed : In window windows
  pub begins : window.start ≤ s.start
  pub ends : s.end ≤ window.end
  pub grid : (s.start - window.start) % step ≡ 0
  pub future : now ≤ s.start
  pub long : s.end ≡ s.start + duration
  pub clear : All (Clear buffer s) busy

grid_lem : (base q step : ℕ) → (base + q * step - base) % step ≡ 0
grid_lem base q step =
    let e : base + q * step - base ≡ q * step = omega arith in rw e (mul-mod_left q step)

pub grid_next :
    (base step cursor : ℕ)
    → base ≤ cursor
    → (cursor - base) % step ≡ 0
    → (cursor + step - base) % step ≡ 0
grid_next base step cursor h e =
    let f : cursor + step - base ≡ cursor - base + step = omega arith in
    rw (f, add-mod_right (cursor - base) step) e

pub align_grid :
    (base step cursor : ℕ) → 0 < step → base ≤ cursor → (align base step cursor - base) % step ≡ 0
align_grid base step cursor h k =
    ground (arith, grid_lem base ((cursor - base + (step - 1)) / step) step)

pub align_up : (base step cursor : ℕ) → 0 < step → base ≤ cursor → cursor ≤ align base step cursor
align_up base step cursor h k = ground arith

pub Clear-of :
    (buffer : ℕ) (s : Interval) (busy : List Interval)
    → s.start < s.end
    → collides (map (expand buffer) busy) s ≡ false
    → All (Clear buffer s) busy
Clear-of buffer s [] h e = tt
Clear-of buffer s (b ∷ bs) h e = (λ c. ground arith, Clear-of buffer s bs h (ground arith))

module _ (ws busy : List Interval) (duration buffer step max_offers now : ℕ) (long : 0 < duration)
    (steps : 0 < step) where
  abbrev Valid : Interval → Type 0
  Valid = IsBookable ws busy duration buffer step now

  abbrev expanded : List Interval
  expanded = map (expand buffer) busy

  candidate-Valid :
      (w : Interval) (cursor : ℕ)
      → In w ws
      → w.start ≤ cursor
      → (cursor - w.start) % step ≡ 0
      → now ≤ cursor
      → cursor + duration ≤ w.end
      → collides expanded (record { start = cursor; end = cursor + duration }) ≡ false
      → Valid (record { start = cursor; end = cursor + duration })
  candidate-Valid w cursor i b g n e c = record {
    window = w;
    listed = i;
    begins = b;
    ends = e;
    grid = g;
    future = n;
    long = refl;
    clear =
        Clear-of buffer (record { start = cursor; end = cursor + duration }) busy (omega arith) c;
  }

  scan_sound :
      (w : Interval)
      → In w ws
      → (fuel cursor : ℕ) (offers : List Interval) → w.start ≤ cursor
      → (cursor - w.start) % step ≡ 0
      → now ≤ cursor
      → All Valid offers
      → All Valid (scan expanded duration step max_offers w.end fuel cursor offers).1
  unfolding scan
  scan_sound w i zero cursor offers b g n h = h
  scan_sound w i (suc fuel) cursor offers b g n h =
      elim (Bool-cases (leb (cursor + duration) w.end)) [
        | inr past ↦ rw past h
        | inl fits ↦
            rw fits
              (elim (Bool-cases
                (collides expanded (record { start = cursor; end = cursor + duration }))) [
                  | inl busy_then ↦ rw busy_then (
                      scan_sound w i fuel (cursor + step) offers (omega arith)
                        (grid_next w.start step cursor b g) (omega arith) h)
                  | inr free ↦ rw free (
                      let pushed : All Valid
                          (offers ++ record { start = cursor; end = cursor + duration } ∷ []) =
                        All-append Valid offers
                          (record { start = cursor; end = cursor + duration } ∷ []) h
                          (candidate-Valid w cursor i b g n (ground arith) free, tt) in
                      elim (Bool-cases (
                        leb max_offers (
                          length
                            (offers ++ record { start = cursor; end = cursor + duration } ∷ [])))) [
                              | inl full ↦ rw full pushed
                              | inr more ↦ rw more (
                                  scan_sound w i fuel (cursor + step) _ (omega arith)
                                    (grid_next w.start step cursor b g) (omega arith) pushed)
                            ])
                ])
      ]

  windows_sound :
      (vs : List Interval)
      → ((w : Interval) → In w vs → In w ws)
      → (offers : List Interval) → All Valid offers
      → All Valid (windows expanded duration step max_offers now vs offers)
  unfolding windows
  windows_sound [] sub offers h = h
  windows_sound (w ∷ vs) sub offers h =
      let cursor = align w.start step (max w.start now) in
      let start_le : w.start ≤ max w.start now = omega arith in
      let up = align_up w.start step (max w.start now) steps start_le in
      let found =
        scan_sound w (sub w (inl refl)) (fuel_for cursor w.end) cursor offers (omega (arith, up))
          (align_grid w.start step (max w.start now) steps start_le) (omega (arith, up)) h in
      let not_zero : (step == 0) ≡ false = ground arith in
      rw not_zero
        (elim (Bool-cases
          (scan expanded duration step max_offers w.end (fuel_for cursor w.end) cursor offers).0) [
            | inl full ↦ rw full found
            | inr more ↦ rw more (windows_sound vs (λ v j. sub v (inr j)) _ found)
          ])

-- Every offered slot is bookable, for a positive duration and step: it lies in a working window on
-- its grid, does not begin in the past, has the length asked for and keeps the buffer from every
-- busy interval.
pub compute_slots-IsBookable :
    (ws busy : List Interval) (config : SlotConfig) (now : ℕ)
    → 0 < config.duration_minutes
    → 0 < config.step_minutes
    → All
        (IsBookable ws busy
          (config.duration_minutes * 60000)
          (config.buffer_minutes * 60000)
          (config.step_minutes * 60000)
          now)
        (compute_slots ws busy config now)
unfolding compute_slots
compute_slots-IsBookable ws busy config now h k =
    windows_sound ws busy (config.duration_minutes * 60000) (config.buffer_minutes * 60000)
      (config.step_minutes * 60000) config.max_offers now (omega arith) (omega arith) ws (λ w i. i)
      [] tt
