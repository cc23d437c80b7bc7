-- ===== src/Regex/Matching.antt =====
-- The matching relation of regular expressions, and `ends` and `test` against it.
use insurnace_automations.Base.{
  ℕ, suc, zero, ◌<◌, ◌≤◌, Option, none, some, List, [], ◌∷◌, ◌++◌, Bool, true, Text, length, filter,
  In, In-filter, In-filter_of, arith, ◌≡◌, refl, ◌⊎◌, inl, inr, ◌↔◌, Bool-cases, lt→ltb, ltb→lt,
}
use insurnace_automations.Regex.{
  Cursor, Regex, empty, chr, bound, seq, alt, star, is_bound, step, flat_map, shorter, repeat, ends,
  some_end, search_from, test,
}

pub data Matches : Regex → Cursor → Cursor → Type 0 where
  nothing : {k : Cursor} → Matches empty k k
  unit :
      {p : ℕ → Bool} {k k' : Cursor} (c : ℕ)
      → k.rest ≡ c ∷ k'.rest
      → k'.prev ≡ some c
      → p c ≡ true
      → Matches (chr p) k k'
  edge : {k : Cursor} → is_bound k ≡ true → Matches bound k k
  both :
      {r s : Regex} {k k' : Cursor} (m : Cursor)
      → Matches r k m
      → Matches s m k'
      → Matches (seq r s) k k'
  left : {r s : Regex} {k k' : Cursor} → Matches r k k' → Matches (alt r s) k k'
  right : {r s : Regex} {k k' : Cursor} → Matches s k k' → Matches (alt r s) k k'
  stop : {r : Regex} {k : Cursor} → Matches (star r) k k
  more :
      {r : Regex} {k k' : Cursor} (m : Cursor)
      → Matches r k m
      → length m.rest < length k.rest
      → Matches (star r) m k'
      → Matches (star r) k k'

In-append : (xs ys : List Cursor) (k : Cursor) → In k (xs ++ ys) ↔ (In k xs ⊎ In k ys)
In-append [] ys k = (inr, λ h. elim h [ inl a ↦ absurd a | inr b ↦ b ])
In-append (x ∷ xs) ys k = ground (arith, In-append xs ys k)

In-flat_map :
    (f : Cursor → List Cursor) (xs : List Cursor) (k : Cursor)
    → In k (flat_map f xs)
    → (m : Cursor) × In m xs × In k (f m)
In-flat_map f [] k h = absurd h
In-flat_map f (x ∷ xs) k h = elim ((In-append (f x) (flat_map f xs) k).0 h) [
  | inl a ↦ (x, inl refl, a)
  | inr b ↦ let (m, i, j) = In-flat_map f xs k b in (m, inr i, j)
]

In-flat_map_of :
    (f : Cursor → List Cursor) (xs : List Cursor) (k m : Cursor)
    → In m xs
    → In k (f m)
    → In k (flat_map f xs)
In-flat_map_of f [] k m i j = absurd i
In-flat_map_of f (x ∷ xs) k m i j =
    (In-append (f x) (flat_map f xs) k).1
      (elim i [ inl e ↦ inl (rw (← e) j) | inr i' ↦ inr (In-flat_map_of f xs k m i' j) ])

step_sound : (p : ℕ → Bool) (k k' : Cursor) → In k' (step p k.rest) → Matches (chr p) k k'
step_sound p k k' h = go k.rest refl h
  where
    go : (s : Text) → k.rest ≡ s → In k' (step p s) → Matches (chr p) k k'
    go [] e h = absurd h
    go (c ∷ s) e h = unit c (ground arith) (ground arith) (ground arith)

repeat_sound :
    (r : Regex) (f : Cursor → List Cursor)
    → ((k k' : Cursor) → In k' (f k) → Matches r k k')
    → (n : ℕ) (k k' : Cursor) → In k' (repeat n f k)
    → Matches (star r) k k'
unfolding repeat
repeat_sound r f ih zero k k' h = elim h [ inl e ↦ rw e stop | inr a ↦ absurd a ]
repeat_sound r f ih (suc n) k k' h = elim h [
  | inl e ↦ rw e stop
  | inr a ↦
      let (m, i, j) = In-flat_map (repeat n f) (filter (shorter k) (f k)) k' a in
      let (i', s) = In-filter (shorter k) (f k) m i in
      more m (ih k m i') (ltb→lt _ _ s) (repeat_sound r f ih n m k' j)
]

-- Every end that is computed is the end of a match.
ends_sound : (r : Regex) (k k' : Cursor) → In k' (ends r k) → Matches r k k'
unfolding ends
ends_sound empty k k' h = elim h [ inl e ↦ rw e nothing | inr a ↦ absurd a ]
ends_sound (chr p) k k' h = step_sound p k k' h
ends_sound bound k k' h = elim (Bool-cases (is_bound k)) [
  | inl e ↦ elim (rw e at h) [ inl x ↦ rw x (edge e) | inr a ↦ absurd a ]
  | inr e ↦ absurd (rw e at h)
]
ends_sound (seq r s) k k' h =
    let (m, i, j) = In-flat_map (ends s) (ends r k) k' h in
    both m (ends_sound r k m i) (ends_sound s m k' j)
ends_sound (alt r s) k k' h = elim ((In-append (ends r k) (ends s k) k').0 h) [
  | inl a ↦ left (ends_sound r k k' a)
  | inr b ↦ right (ends_sound s k k' b)
]
ends_sound (star r) k k' h = repeat_sound r (ends r) (ends_sound r) (length k.rest) k k' h

-- With enough fuel for the text that is left, a match is found.
abbrev Found : Regex → Cursor → Cursor → Type 0
Found (star r) k k' = (n : ℕ) → length k.rest ≤ n → In k' (repeat n (ends r) k)
Found r k k' = In k' (ends r k)

ends_of_Found : (r : Regex) (k k' : Cursor) → Found r k k' → In k' (ends r k)
unfolding ends
ends_of_Found (star r) k k' h = h (length k.rest) (omega arith)
ends_of_Found _ k k' h = h

step_complete :
    (p : ℕ → Bool) (k k' : Cursor) (c : ℕ)
    → k.rest ≡ c ∷ k'.rest
    → k'.prev ≡ some c
    → p c ≡ true
    → In k' (step p k.rest)
step_complete p k k' c e f h = ground arith

repeat_step :
    (r : Regex) (k k' m : Cursor) (n : ℕ)
    → In m (ends r k)
    → length m.rest < length k.rest
    → In k' (repeat n (ends r) m)
    → In k' (repeat (suc n) (ends r) k)
unfolding repeat
repeat_step r k k' m n i lt j = inr (
    In-flat_map_of (repeat n (ends r)) (filter (shorter k) (ends r k)) k' m
      (In-filter_of (shorter k) (ends r k) m i (lt→ltb _ _ lt)) j)

repeat_here : (n : ℕ) (f : Cursor → List Cursor) (k : Cursor) → In k (repeat n f k)
unfolding repeat
repeat_here zero f k = inl refl
repeat_here (suc n) f k = inl refl

repeat_more :
    (r : Regex) (k k' m : Cursor)
    → In m (ends r k)
    → length m.rest < length k.rest
    → Found (star r) m k'
    → Found (star r) k k'
repeat_more r k k' m i lt h zero le = absurd (omega arith)
repeat_more r k k' m i lt h (suc n) le = repeat_step r k k' m n i lt (h n (omega arith))

ends_complete : {r : Regex} {k k' : Cursor} → Matches r k k' → Found r k k'
unfolding ends
ends_complete nothing = inl refl
ends_complete (unit {p} {k} {k'} c e f h) = step_complete p k k' c e f h
ends_complete (edge {k} e) = rw e (inl refl)
ends_complete (both {r} {s} {k} {k'} m a b) =
    In-flat_map_of (ends s) (ends r k) k' m (ends_of_Found r k m (ends_complete a))
      (ends_of_Found s m k' (ends_complete b))
ends_complete (left {r} {s} {k} {k'} a) =
    (In-append (ends r k) (ends s k) k').1 (inl (ends_of_Found r k k' (ends_complete a)))
ends_complete (right {r} {s} {k} {k'} a) =
    (In-append (ends r k) (ends s k) k').1 (inr (ends_of_Found s k k' (ends_complete a)))
ends_complete (stop {r} {k}) = λ n le. repeat_here n (ends r) k
ends_complete (more {r} {k} {k'} m a lt b) =
    repeat_more r k k' m (ends_of_Found r k m (ends_complete a)) lt (ends_complete b)

-- The positions of a text, the first with the code unit before it.
pub data Position : Option ℕ → Text → Cursor → Type 0 where
  start : {prev : Option ℕ} {s : Text} (k : Cursor) → k.prev ≡ prev → k.rest ≡ s → Position prev s k
  later :
      {prev : Option ℕ} {c : ℕ} {s : Text} {k : Cursor}
      → Position (some c) s k
      → Position prev (c ∷ s) k

-- Somewhere in the text a match begins.
pub record Occurs (r : Regex) (prev : Option ℕ) (s : Text) : Type 0 where
  pub from : Cursor
  pub at : Position prev s from
  pub to : Cursor
  pub matched : Matches r from to

some_end_sound : (ks : List Cursor) → some_end ks ≡ true → (k : Cursor) × In k ks
some_end_sound [] h = cc
some_end_sound (k ∷ ks) h = (k, inl refl)

some_end_of : (ks : List Cursor) (k : Cursor) → In k ks → some_end ks ≡ true
some_end_of [] k h = absurd h
some_end_of (x ∷ ks) k h = refl

found_here : (r : Regex) (k : Cursor) → some_end (ends r k) ≡ true → Occurs r k.prev k.rest
found_here r k h =
    let (k', i) = some_end_sound (ends r k) h in
    record { from = k; at = start k refl refl; to = k'; matched = ends_sound r k k' i }

Occurs-later :
    (r : Regex) (prev : Option ℕ) (c : ℕ) (s : Text) → Occurs r (some c) s → Occurs r prev (c ∷ s)
Occurs-later r prev c s o = record {
  from = o.from;
  at = later o.at;
  to = o.to;
  matched = o.matched;
}

search_sound :
    (r : Regex) (prev : Option ℕ) (s : Text) → search_from r prev s ≡ true → Occurs r prev s
unfolding search_from
search_sound r prev [] h = found_here r (record { prev = prev; rest = [] }) h
search_sound r prev (c ∷ s) h =
    elim (Bool-cases (some_end (ends r (record { prev = prev; rest = c ∷ s })))) [
      | inl e ↦ found_here r (record { prev = prev; rest = c ∷ s }) e
      | inr e ↦ Occurs-later r prev c s (search_sound r (some c) s (rw e at h))
    ]

search_here :
    (r : Regex) (prev : Option ℕ) (s : Text)
    → some_end (ends r (record { prev = prev; rest = s })) ≡ true
    → search_from r prev s ≡ true
unfolding search_from
search_here r prev [] h = h
search_here r prev (c ∷ s) h = rw h

search_complete :
    {r : Regex} {prev : Option ℕ} {s : Text} {k : Cursor}
    → Position prev s k
    → (k' : Cursor) → Matches r k k'
    → search_from r prev s ≡ true
unfolding search_from
search_complete {r} (start k p e) k' m =
    rw (← p, ← e)
      (search_here r k.prev k.rest
        (some_end_of (ends r k) k' (ends_of_Found r k k' (ends_complete m))))
search_complete {r} {prev} (later {c} {s} p) k' m =
    elim (Bool-cases (some_end (ends r (record { prev = prev; rest = c ∷ s })))) [
      | inl e ↦ rw e
      | inr e ↦ rw e (search_complete p k' m)
    ]

pub test_iff : (r : Regex) (s : Text) → (test r s ≡ true) ↔ Occurs r none s
unfolding test
test_iff r s = (search_sound r none s, λ o. search_complete o.at o.to o.matched)
