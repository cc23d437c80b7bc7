-- ===== src/Base/Lists.antt =====
-- JavaScript's array methods over the native numbers, and predicates on lists.
use Prim.Native.Nat.{ℕ, zero, suc, ◌+◌}
use mathlib.Core.Path.{◌≡◌, refl}
use mathlib.Core.Logic.{◌⊎◌, inl, inr}
use mathlib.Core.Bool.{Bool, true, false, ◌&&◌, ◌||◌}
use mathlib.Core.Option.{Option, none, some}
use mathlib.Core.List.{List, [], ◌∷◌, ◌++◌, map}
use native.Mathlib.Omega.{arith}
use insurnace_automations.Base.Tests.{if◌then◌else◌, Bool-cases}

module _ {ℓ} {A : Type ℓ} where
  abbrev pub length : List A → ℕ
  length [] = 0
  length (x ∷ xs) = suc (length xs)

  abbrev pub get_elem? : List A → ℕ → Option A
  get_elem? [] i = none
  get_elem? (x ∷ xs) zero = some x
  get_elem? (x ∷ xs) (suc i) = get_elem? xs i

  -- `xs.filter(p)`, `xs.find(p)`, `xs.some(p)`, `xs.every(p)`
  abbrev pub filter : (A → Bool) → List A → List A
  filter p [] = []
  filter p (x ∷ xs) = let rest = filter p xs in if p x then x ∷ rest else rest

  abbrev pub find : (A → Bool) → List A → Option A
  find p [] = none
  find p (x ∷ xs) = let rest = find p xs in if p x then some x else rest

  abbrev pub any : (A → Bool) → List A → Bool
  any p [] = false
  any p (x ∷ xs) = p x || any p xs

  abbrev pub all : (A → Bool) → List A → Bool
  all p [] = true
  all p (x ∷ xs) = p x && all p xs

  -- An `update … set … where` over the rows of a table.
  abbrev pub update_where : (A → Bool) → (A → A) → List A → List A
  update_where p f [] = []
  update_where p f (x ∷ xs) = (if p x then f x else x) ∷ update_where p f xs

  -- `xs.slice(0, n)`
  abbrev pub take : ℕ → List A → List A
  take zero xs = []
  take (suc n) [] = []
  take (suc n) (x ∷ xs) = x ∷ take n xs

  pub length-append : (xs ys : List A) → length (xs ++ ys) ≡ length xs + length ys
  length-append [] ys = omega arith
  length-append (x ∷ xs) ys = omega (arith, length-append xs ys)

-- Plain membership, which the tactics can take apart.
module _ {A : Type 0} where
  abbrev pub In : A → List A → Type 0
  In a [] = ⊥
  In a (x ∷ xs) = (a ≡ x) ⊎ In a xs

  pub In-filter : (p : A → Bool) (xs : List A) (a : A) → In a (filter p xs) → In a xs × (p a ≡ true)
  In-filter p [] a h = absurd h
  In-filter p (x ∷ xs) a h = ground (arith, In-filter p xs a)

  pub In-filter_of :
      (p : A → Bool) (xs : List A) (a : A) → In a xs → p a ≡ true → In a (filter p xs)
  In-filter_of p [] a h e = absurd h
  In-filter_of p (x ∷ xs) a h e = ground (arith, In-filter_of p xs a)

module _ {ℓ κ} {A : Type ℓ} (P : A → Type κ) where
  abbrev pub All : List A → Type κ
  All [] = Unit
  All (x ∷ xs) = P x × All xs

  pub All-append : (xs ys : List A) → All xs → All ys → All (xs ++ ys)
  All-append [] ys h k = k
  All-append (x ∷ xs) ys (p, h) k = (p, All-append xs ys h k)

-- An update by a function that the test does not see: the row that is found is the updated one.
module _ {A : Type 0} (p : A → Bool) (f : A → A) (same : (x : A) → p (f x) ≡ p x) where
  pub find-update_where :
      (xs : List A) (x : A) → find p xs ≡ some x → find p (update_where p f xs) ≡ some (f x)
  find-update_where [] x e = cc
  find-update_where (y ∷ ys) x e = ground (arith, find-update_where ys x, same y)

module _ {A : Type 0} (p : A → Bool) where
  pub find-satisfies : (xs : List A) (x : A) → find p xs ≡ some x → p x ≡ true
  find-satisfies [] x e = cc
  find-satisfies (y ∷ ys) x e = ground (arith, find-satisfies ys x)

-- The same, where the rows are chosen by another test than the one that finds.
module _ {A : Type 0} (p q : A → Bool) (f : A → A) (same : (x : A) → p (f x) ≡ p x) where
  pub find-update_where_other :
      (xs : List A) (x : A)
      → find p xs ≡ some x
      → find p (update_where q f xs) ≡ some (if q x then f x else x)
  find-update_where_other [] x e = cc
  find-update_where_other (y ∷ ys) x e = ground (arith, find-update_where_other ys x, same y)

-- What a function that an update does not touch sees of the rows.
pub map-update_where :
    {A B : Type 0} (g : A → B) (p : A → Bool) (f : A → A)
    → ((x : A) → g (f x) ≡ g x)
    → (xs : List A) → map g (update_where p f xs) ≡ map g xs
map-update_where g p f same [] = refl
map-update_where g p f same (x ∷ xs) = elim (Bool-cases (p x)) [
  | inl e ↦ rw (e, same x, map-update_where g p f same xs) refl
  | inr e ↦ rw (e, map-update_where g p f same xs) refl
]

pub find-In : {A : Type 0} (p : A → Bool) (xs : List A) (y : A) → find p xs ≡ some y → In y xs
find-In p [] y e = cc
find-In p (x ∷ xs) y e = ground (arith, find-In p xs y)

-- A list is empty or has a first element.
pub List-cases {ℓ} :
    {A : Type ℓ} (xs : List A) → (xs ≡ []) ⊎ ((x : A) × (ys : List A) × (xs ≡ x ∷ ys))
List-cases [] = inl refl
List-cases (x ∷ xs) = inr (x, xs, refl)
