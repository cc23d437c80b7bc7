-- ===== src/Worker/Booking/Exclusive.antt =====
-- Interleaved steps of bookings and of the sweep, from apps/worker/src/processors/booking.ts.
use insurnace_automations.Base.{
  ℕ, suc, ◌<◌, Bool, true, false, not, ◌&&◌, Option, none, some, List, [], ◌∷◌, ◌++◌, find, any,
  update_where, All, In, ◌≡◌, refl, sym, ap, ◌∙◌, subst, ◌≢◌, inl, inr, ◌==◌, ==_iff, arith,
  Bool-cases, Option-cases, get_or, if◌then◌else◌,
}
use insurnace_automations.Worker.Store.{confirmed, released, SlotHold, Db}
use insurnace_automations.Worker.Booking.{
  BookingJob, is_active, same_slot, new_hold, acquire_hold, release_hold, confirm_hold, expired,
  release_expired_holds,
}

-- Two holds that are active on one slot.
abbrev pub clash : SlotHold → SlotHold → Bool
clash g h = is_active g.status && (is_active h.status && same_slot g h)

-- Two rows with different identifiers that do not clash.
abbrev pub Apart : SlotHold → SlotHold → Type 0
Apart g h = (g.id ≢ h.id) × (clash g h ≡ false)

abbrev pub Pairs : List SlotHold → Type 0
Pairs [] = Unit
Pairs (h ∷ hs) = All (Apart h) hs × Pairs hs

-- The holds of a database: pairwise apart, with identifiers that were drawn.
pub record Exclusive (d : Db) : Type 0 where
  pub apart : Pairs d.holds
  pub drawn : All (λ h. h.id < d.next_id) d.holds

-- One step of some booking, or of the sweep.
pub data Step : Db → Db → Type 0 where
  acquire :
      {d d' : Db} (now : ℕ) (job : BookingJob) (id : ℕ)
      → acquire_hold now job d ≡ some (id, d')
      → Step d d'
  confirm : {d d' : Db} (id : ℕ) → confirm_hold id d ≡ some d' → Step d d'
  release : {d d' : Db} (id : ℕ) → release_hold id d ≡ d' → Step d d'
  sweep : {d d' : Db} (now : ℕ) → (release_expired_holds now d).1 ≡ d' → Step d d'

infixr 40 ◌⇝*◌
pub data ◌⇝*◌ : Db → Db → Type 0 where
  here : {d : Db} → d ⇝* d
  next : {a b c : Db} → Step a b → b ⇝* c → a ⇝* c

-- An update of the rows, and what it keeps.
module _ (p : SlotHold → Bool) (f : SlotHold → SlotHold)
    (same : (h : SlotHold) → (f h).id ≡ h.id) where
  abbrev upd : SlotHold → SlotHold
  upd h = if p h then f h else h

  upd-id : (h : SlotHold) → (upd h).id ≡ h.id
  upd-id h = ground (arith, same h)

  drawn_after :
      (n : ℕ) (hs : List SlotHold)
      → All (λ h. h.id < n) hs
      → All (λ h. h.id < n) (update_where p f hs)
  drawn_after n [] h = h
  drawn_after n (x ∷ hs) h = (rw (upd-id x) (h.0), drawn_after n hs h.1)

  all_after :
      (hs : List SlotHold) (x : SlotHold)
      → ((y : SlotHold) → In y hs → Apart x y → Apart (upd x) (upd y))
      → All (Apart x) hs
      → All (Apart (upd x)) (update_where p f hs)
  all_after [] x keep h = h
  all_after (y ∷ hs) x keep h = (keep y (inl refl) h.0, all_after hs x (λ z i. keep z (inr i)) h.1)

  Pairs-after :
      (hs : List SlotHold)
      → ((x y : SlotHold) → In x hs → In y hs → Apart x y → Apart (upd x) (upd y))
      → Pairs hs
      → Pairs (update_where p f hs)
  Pairs-after [] keep h = h
  Pairs-after (x ∷ hs) keep h = (
    all_after hs x (λ y i. keep x y (inl refl) (inr i)) h.0,
    Pairs-after hs (λ a b i j. keep a b (inr i) (inr j)) h.1,
  )

-- Releasing takes holds apart.
released-Apart :
    (p : SlotHold → Bool) (x y : SlotHold)
    → Apart x y
    → Apart
        (if p x then record x { status = released } else x)
        (if p y then record y { status = released } else y)
released-Apart p x y h = ground arith

all-append :
    (h n : SlotHold) (hs : List SlotHold)
    → All (Apart h) hs
    → Apart h n
    → All (Apart h) (hs ++ n ∷ [])
all-append h n [] a b = (b, tt)
all-append h n (x ∷ hs) a b = (a.0, all-append h n hs a.1 b)

Pairs-append :
    (n : SlotHold) (hs : List SlotHold) → Pairs hs → All (λ h. Apart h n) hs → Pairs (hs ++ n ∷ [])
Pairs-append n [] h a = (tt, tt)
Pairs-append n (x ∷ hs) h a = (all-append x n hs h.0 a.0, Pairs-append n hs h.1 a.1)

free-Apart :
    (n : SlotHold) (hs : List SlotHold)
    → any (λ h. is_active h.status && same_slot h n) hs ≡ false
    → All (λ h. h.id < n.id) hs
    → All (λ h. Apart h n) hs
free-Apart n [] e h = tt
free-Apart n (x ∷ hs) e h =
    ((λ same. omega (arith, h.0, same), ground (arith, e)), free-Apart n hs (ground (arith, e)) h.1)

drawn_more :
    (n : SlotHold) (m : ℕ) (hs : List SlotHold)
    → n.id ≡ m
    → All (λ h. h.id < m) hs
    → All (λ h. h.id < suc m) (hs ++ n ∷ [])
drawn_more n m [] e h = (omega (arith, e), tt)
drawn_more n m (x ∷ hs) e h = (omega (arith, h.0), drawn_more n m hs e h.1)

abbrev db_of : Db → Option (ℕ × Db) → Db
db_of d none = d
db_of d (some r) = r.1

acquired :
    (now : ℕ) (job : BookingJob) (d : Db)
    → Exclusive d
    → Exclusive (db_of d (acquire_hold now job d))
unfolding acquire_hold
acquired now job d x =
    elim (Bool-cases
      (any (λ h. is_active h.status && same_slot h (new_hold now job d.next_id)) d.holds)) [
        | inl e ↦ rw (e, acquire_hold) x
        | inr e ↦
            rw (e, acquire_hold)
              (record {
                apart =
                    Pairs-append (new_hold now job d.next_id) d.holds x.apart
                      (free-Apart (new_hold now job d.next_id) d.holds e x.drawn);
                drawn = drawn_more (new_hold now job d.next_id) d.next_id d.holds refl x.drawn;
              })
      ]

-- Rows with one identifier are one row.
Apart-In : (x y : SlotHold) (hs : List SlotHold) → All (Apart x) hs → In y hs → Apart x y
Apart-In x y [] h i = absurd i
Apart-In x y (z ∷ hs) h (inl e) = rw e (h.0)
Apart-In x y (z ∷ hs) h (inr i) = Apart-In x y hs h.1 i

one_row : (x y : SlotHold) (hs : List SlotHold) → Pairs hs → In x hs → In y hs → x.id ≡ y.id → x ≡ y
one_row x y [] h i j e = absurd i
one_row x y (z ∷ hs) h (inl a) (inl b) e = a ∙ sym b
one_row x y (z ∷ hs) h (inl a) (inr j) e =
    absurd ((Apart-In z y hs h.0 j).0 (ap (λ (h : SlotHold). h.id) (sym a) ∙ e))
one_row x y (z ∷ hs) h (inr i) (inl b) e =
    absurd ((Apart-In z x hs h.0 i).0 (sym (e ∙ ap (λ (h : SlotHold). h.id) b)))
one_row x y (z ∷ hs) h (inr i) (inr j) e = one_row x y hs h.1 i j e

none_clashes :
    (p : SlotHold → Bool) (hs : List SlotHold) (x : SlotHold)
    → any p hs ≡ false
    → In x hs
    → p x ≡ false
none_clashes p [] x e i = absurd i
none_clashes p (y ∷ hs) x e (inl same) = rw same (ground (arith, e))
none_clashes p (y ∷ hs) x e (inr i) = none_clashes p hs x (ground (arith, e)) i

found_In :
    (p : SlotHold → Bool) (hs : List SlotHold) (x : SlotHold)
    → find p hs ≡ some x
    → In x hs × (p x ≡ true)
found_In p [] x e = cc
found_In p (y ∷ hs) x e = elim (Bool-cases (p y)) [
  | inl h ↦ let same : y ≡ x = ap (λ o. get_or o y) (rw h at e) in (inl (sym same), rw (← same) h)
  | inr h ↦ let (i, k) = found_In p hs x (rw h at e) in (inr i, k)
]

-- The hold that is confirmed, against another row that the index has compared it with.
abbrev confirming : SlotHold → SlotHold
confirming h = record h { status = confirmed }

same_slot_comm : (g h : SlotHold) → same_slot g h ≡ same_slot h g
same_slot_comm g h = ground arith

checked-Apart :
    (h g : SlotHold)
    → h.id ≢ g.id
    → not (g.id == h.id) && (is_active g.status && same_slot g h) ≡ false
    → Apart (confirming h) g × Apart g (confirming h)
checked-Apart h g other e =
    let apart_ids : (g.id == h.id) ≡ false = ground arith in
    let free : is_active g.status && same_slot g h ≡ false = rw apart_ids at e in
    ((other, rw (same_slot_comm h g) free), (λ s. other (sym s), free))

module _ (d : Db) (h : SlotHold) (pairs : Pairs d.holds) (listed : In h d.holds)
    (unclashed : any (λ g. not (g.id == h.id) && (is_active g.status && same_slot g h)) d.holds
      ≡ false) where
  -- A row, by whether it is the one that is confirmed.
  confirmed-Apart :
      (x y : SlotHold)
      → In x d.holds
      → In y d.holds
      → Apart x y
      → Apart (if x.id == h.id then confirming x else x) (if y.id == h.id then confirming y else y)
  confirmed-Apart x y i j a = elim (Bool-cases (x.id == h.id)) [
    | inl e ↦
        let same : x ≡ h = one_row x h d.holds pairs i listed ((==_iff x.id h.id).0 e) in
        elim (Bool-cases (y.id == h.id)) [
          | inl f ↦ absurd (a.0 ((==_iff x.id h.id).0 e ∙ sym ((==_iff y.id h.id).0 f)))
          | inr f ↦
              rw (e, f, same)
                (checked-Apart h y (rw same at (a.0)) (
                  none_clashes (λ g. not (g.id == h.id) && (is_active g.status && same_slot g h))
                    d.holds y unclashed j)).0
        ]
    | inr e ↦ elim (Bool-cases (y.id == h.id)) [
      | inl f ↦
          let same : y ≡ h = one_row y h d.holds pairs j listed ((==_iff y.id h.id).0 f) in
          rw (e, f, same)
            (checked-Apart h x (λ s. a.0 (sym s ∙ ap (λ (z : SlotHold). z.id) (sym same)))
              (none_clashes (λ g. not (g.id == h.id) && (is_active g.status && same_slot g h))
                d.holds x unclashed i)).1
      | inr f ↦ rw (e, f) a
    ]
  ]

  confirmed-Pairs :
      Pairs (update_where (λ g. g.id == h.id) (λ g. record g { status = confirmed }) d.holds)
  confirmed-Pairs =
      Pairs-after (λ g. g.id == h.id) (λ g. record g { status = confirmed }) (λ g. refl) d.holds
        confirmed-Apart pairs

abbrev db_or : Db → Option Db → Db
db_or d none = d
db_or d (some e) = e

confirmed_lem : (id : ℕ) (d : Db) → Exclusive d → Exclusive (db_or d (confirm_hold id d))
unfolding confirm_hold
confirmed_lem id d x = elim (Option-cases (find (λ h. h.id == id) d.holds)) [
  | inl e ↦ rw (e, confirm_hold) x
  | inr (h, e) ↦
      let (listed, hit) = found_In (λ h. h.id == id) d.holds h e in
      elim (Bool-cases
        (any (λ g. not (g.id == h.id) && (is_active g.status && same_slot g h)) d.holds)) [
          | inl taken ↦ rw (e, confirm_hold) (rw taken x)
          | inr free ↦
              rw (e, confirm_hold)
                (rw free (record {
                  apart = rw (← (==_iff h.id id).0 hit) (confirmed-Pairs d h x.apart listed free);
                  drawn =
                      drawn_after (λ g. g.id == id) (λ g. record g { status = confirmed })
                        (λ g. refl) d.next_id d.holds x.drawn;
                }))
        ]
]

released_lem :
    (p : SlotHold → Bool) (d : Db)
    → Exclusive d
    → Exclusive (record d { holds = update_where p (λ h. record h { status = released }) d.holds })
released_lem p d x = record {
  apart =
      Pairs-after p (λ h. record h { status = released }) (λ h. refl) d.holds
        (λ a b i j. released-Apart p a b) x.apart;
  drawn = drawn_after p (λ h. record h { status = released }) (λ h. refl) d.next_id d.holds x.drawn;
}

Step-Exclusive : {d d' : Db} → Step d d' → Exclusive d → Exclusive d'
unfolding release_expired_holds
Step-Exclusive {d} (acquire now job id e) x =
    subst Exclusive (ap (db_of d) e) (acquired now job d x)
Step-Exclusive {d} (confirm id e) x = subst Exclusive (ap (db_or d) e) (confirmed_lem id d x)
Step-Exclusive {d} (release id e) x = subst Exclusive e (released_lem (λ h. h.id == id) d x)
Step-Exclusive {d} (sweep now e) x = subst Exclusive e (released_lem (expired now) d x)

-- However the steps of bookings and of the sweep of expired holds interleave, no two active holds have
-- one slot of one calendar: from a database whose holds are exclusive, every sequence of steps leads
-- to one whose holds are exclusive.
pub steps-Exclusive : {d d' : Db} → d ⇝* d' → Exclusive d → Exclusive d'
steps-Exclusive here x = x
steps-Exclusive (next {b = b} s p) x = steps-Exclusive p (Step-Exclusive s x)
