-- ===== src/Core/Slots/Complete.antt =====
-- Completeness of the offers of `computeSlots` in packages/core/src/slots.ts.
use insurnace_automations.Base.{
  ℕ, zero, suc, ◌+◌, ◌-◌, ◌*◌, ◌/◌, ◌%◌, ◌≤◌, ◌<◌, max, ◌≡◌, refl, sym, inl, inr, true, false, List,
  [], ◌∷◌, ◌++◌, map, length, In, All, arith, ◌==◌, Bool-cases,
}
use native.Mathlib.Nat.{
  add-zero, add-mod, mod-mod, div-le_self, div-add-mod', div-lt_iff_lt-mul, mul-le-mul_right,
}
use insurnace_automations.Core.Slots.{
  Interval, SlotConfig, expand, collides, align, scan, fuel_for, windows, compute_slots,
}
use insurnace_automations.Core.Slots.Sound.{Clear, IsBookable, align_grid, align_up}

-- The aligned cursor is the first grid point from the cursor on.
align_least :
    (base step cursor m : ℕ)
    → 0 < step
    → base ≤ cursor
    → cursor ≤ base + m * step
    → align base step cursor ≤ base + m * step
align_least base step cursor m h k l =
    let q : (cursor - base + (step - 1)) / step < m + 1 = (div-lt_iff_lt-mul h).1 (omega arith) in
    ground
      (arith, mul-le-mul_right {m = (cursor - base + (step - 1)) / step} {n = m} step (omega arith))

In-append_left : (x : Interval) (xs ys : List Interval) → In x xs → In x (xs ++ ys)
In-append_left x [] ys i = absurd i
In-append_left x (y ∷ xs) ys i = elim i [ inl e ↦ inl e | inr j ↦ inr (In-append_left x xs ys j) ]

In-append_last : (x : Interval) (xs : List Interval) → In x (xs ++ x ∷ [])
In-append_last x [] = inl refl
In-append_last x (y ∷ xs) = inr (In-append_last x xs)

-- The slot of a given length that starts at an instant.
abbrev slot_at : ℕ → ℕ → Interval
slot_at duration t = record { start = t; end = t + duration }

grid_diff : (x y step : ℕ) → y % step ≡ 0 → (x + y) % step ≡ 0 → x % step ≡ 0
grid_diff x y step h e =
    let f : (x % step + y % step) % step ≡ 0 = rw (← add-mod x y step) e in
    let g : (x % step + 0) % step ≡ 0 = rw h at f in rw (add-zero (x % step), mod-mod x step) at g

module _ (expanded : List Interval) (duration step max_offers : ℕ) where
  -- An offer that was made stays.
  scan_keeps :
      (x : Interval) (stop fuel cursor : ℕ) (offers : List Interval)
      → In x offers
      → In x (scan expanded duration step max_offers stop fuel cursor offers).1
  unfolding scan
  scan_keeps x stop zero cursor offers i = i
  scan_keeps x stop (suc fuel) cursor offers i =
      let skip = scan_keeps x stop fuel (cursor + step) offers i in
      let pushed = In-append_left x offers (slot_at duration cursor ∷ []) i in
      let go_on =
        scan_keeps x stop fuel (cursor + step) (offers ++ slot_at duration cursor ∷ []) pushed in
      ground arith

  -- Where the loop returns early, enough offers were made.
  scan_full :
      (stop fuel cursor : ℕ) (offers : List Interval)
      → (scan expanded duration step max_offers stop fuel cursor offers).0 ≡ true
      → max_offers ≤ length (scan expanded duration step max_offers stop fuel cursor offers).1
  unfolding scan
  scan_full stop zero cursor offers e = cc
  scan_full stop (suc fuel) cursor offers e = ground (
    arith,
    scan_full stop fuel (cursor + step) offers,
    scan_full stop fuel (cursor + step) (offers ++ slot_at duration cursor ∷ []),
  )

  scan_here :
      (stop fuel t : ℕ) (offers : List Interval)
      → t + duration ≤ stop
      → collides expanded (slot_at duration t) ≡ false
      → In (slot_at duration t) (scan expanded duration step max_offers stop (suc fuel) t offers).1
  unfolding scan
  scan_here stop fuel t offers l c =
      let pushed = In-append_last (slot_at duration t) offers in
      let kept =
        scan_keeps (slot_at duration t) stop fuel (t + step) (offers ++ slot_at duration t ∷ [])
          pushed in
      ground arith

  -- Where it does not, every free slot ahead of the cursor is among the offers.
  scan_complete :
      (stop fuel cursor : ℕ) (offers : List Interval) (j t : ℕ)
      → t ≡ cursor + j * step
      → j < fuel
      → t + duration ≤ stop
      → collides expanded (slot_at duration t) ≡ false
      → (scan expanded duration step max_offers stop fuel cursor offers).0 ≡ false
      → In (slot_at duration t) (scan expanded duration step max_offers stop fuel cursor offers).1
  unfolding scan
  scan_complete stop zero cursor offers j t q h l c e = absurd (omega arith)
  scan_complete stop (suc fuel) cursor offers zero t q h l c e =
      let here : cursor ≡ t = omega arith in rw here (scan_here stop fuel t offers l c)
  scan_complete stop (suc fuel) cursor offers (suc j) t q h l c e =
      let next : t ≡ cursor + step + j * step = omega arith in
      ground (
        arith,
        scan_complete stop fuel (cursor + step) offers j t next,
        scan_complete stop fuel (cursor + step) (offers ++ slot_at duration cursor ∷ []) j t next,
      )

module _ (ws busy : List Interval) (duration buffer step max_offers now : ℕ) (long : 0 < duration)
    (steps : 0 < step) where
  abbrev expanded : List Interval
  expanded = map (expand buffer) busy

  Clear-collides :
      (s : Interval) (bs : List Interval)
      → s.start < s.end
      → All (Clear buffer s) bs
      → collides (map (expand buffer) bs) s ≡ false
  Clear-collides s [] h c = refl
  Clear-collides s (b ∷ bs) h c = ground (arith, Clear-collides s bs h c.1, c.0)

  windows_keep :
      (x : Interval) (vs offers : List Interval)
      → In x offers
      → In x (windows expanded duration step max_offers now vs offers)
  unfolding windows
  windows_keep x [] offers i = i
  windows_keep x (w ∷ vs) offers i =
      let cursor = align w.start step (max w.start now) in
      let kept =
        scan_keeps expanded duration step max_offers x w.end (fuel_for cursor w.end) cursor offers
          i in
      ground (
        arith,
        windows_keep x vs
            (scan expanded duration step max_offers w.end (fuel_for cursor w.end) cursor offers).1
            kept,
      )

  -- A bookable slot of a window is found, if the window's loop runs to its end.
  window_complete :
      (vs : List Interval) (s : Interval) (b : IsBookable vs busy duration buffer step now s)
      (offers : List Interval)
      → let w = b.window in
        let cursor = align w.start step (max w.start now) in
        let r =
          scan expanded duration step max_offers w.end (fuel_for cursor w.end) cursor offers in
        r.0 ≡ false → In s r.1
  window_complete vs s b offers e =
      let w = b.window in
      let cursor = align w.start step (max w.start now) in
      let m = (s.start - w.start) / step in
      let on_grid : s.start ≡ w.start + m * step =
        omega (arith, div-add-mod' (s.start - w.start) step, b.grid, b.begins) in
      let ahead : cursor ≤ s.start = omega (
        arith,
        align_least w.start step (max w.start now) m steps (omega arith)
            (omega (arith, b.future, b.begins)),
        on_grid,
      ) in
      let split : s.start - cursor + (cursor - w.start) ≡ s.start - w.start =
        omega (arith, ahead, align_up w.start step (max w.start now) steps (omega arith)) in
      let off : (s.start - cursor) % step ≡ 0 =
        grid_diff (s.start - cursor) (cursor - w.start) step
          (align_grid w.start step (max w.start now) steps (omega arith)) (rw split b.grid) in
      let j = (s.start - cursor) / step in
      let at : s.start ≡ cursor + j * step =
        omega (arith, div-add-mod' (s.start - cursor) step, off, ahead) in
      let same : slot_at duration s.start ≡ s =
        λ i. record { start = s.start; end = sym b.long i } in
      let free : collides expanded (slot_at duration s.start) ≡ false =
        rw same (Clear-collides s busy (omega (arith, b.long)) b.clear) in
      let found =
        scan_complete expanded duration step max_offers w.end (fuel_for cursor w.end) cursor offers
          j s.start at (omega (arith, div-le_self (s.start - cursor) step, b.ends, b.long))
          (omega (arith, b.ends, b.long)) free e in
      rw same at found

  elsewhere :
      (w : Interval) (vs : List Interval) (s : Interval)
      (b : IsBookable (w ∷ vs) busy duration buffer step now s)
      → In b.window vs
      → IsBookable vs busy duration buffer step now s
  elsewhere w vs s b i = record {
    window = b.window;
    listed = i;
    begins = b.begins;
    ends = b.ends;
    grid = b.grid;
    future = b.future;
    long = b.long;
    clear = b.clear;
  }

  windows_complete :
      (vs : List Interval) (s : Interval)
      → IsBookable vs busy duration buffer step now s
      → (offers : List Interval)
      → length (windows expanded duration step max_offers now vs offers) < max_offers
      → In s (windows expanded duration step max_offers now vs offers)
  unfolding windows
  windows_complete [] s b offers h = absurd b.listed
  windows_complete (w ∷ vs) s b offers h =
      let cursor = align w.start step (max w.start now) in
      let not_zero : (step == 0) ≡ false = ground arith in
      elim (Bool-cases
        (scan expanded duration step max_offers w.end (fuel_for cursor w.end) cursor offers).0) [
          | inl full ↦ absurd (
              ground (
                arith,
                scan_full expanded duration step max_offers w.end (fuel_for cursor w.end) cursor
                    offers full,
              ))
          | inr more ↦
              let found =
                (scan expanded duration step max_offers w.end (fuel_for cursor w.end) cursor
                  offers).1 in
              let fewer : length (windows expanded duration step max_offers now vs found)
                  < max_offers =
                ground arith in
              rw (not_zero, more)
                (elim b.listed [
                  | inl e ↦
                      windows_keep s vs found
                        (rw e at (window_complete (w ∷ vs) s b offers (rw e more)))
                  | inr i ↦ windows_complete vs s (elsewhere w vs s b i) found fewer
                ])
        ]

-- For a positive duration and step, every bookable slot is among the offers, unless as many slots
-- were offered as asked for.
pub compute_slots_complete :
    (ws busy : List Interval) (config : SlotConfig) (now : ℕ) (s : Interval)
    → 0 < config.duration_minutes
    → 0 < config.step_minutes
    → IsBookable ws busy
        (config.duration_minutes * 60000)
        (config.buffer_minutes * 60000)
        (config.step_minutes * 60000)
        now
        s
    → length (compute_slots ws busy config now) < config.max_offers
    → In s (compute_slots ws busy config now)
unfolding compute_slots
compute_slots_complete ws busy config now s h k b l =
    windows_complete ws busy (config.duration_minutes * 60000) (config.buffer_minutes * 60000)
      (config.step_minutes * 60000) config.max_offers now (omega arith) (omega arith) ws s b [] l
