-- ===== src/Core/Routing/Laws.antt =====
-- Lemmas on the pools and the choice of `routeLead` in packages/core/src/routing.ts.
use insurnace_automations.Base.{
  ℕ, suc, zero, ◌≤◌, ◌<◌, ◌%◌, String, ◌≡◌, refl, ◌≢◌, inl, inr, ◌↔◌, Bool, true, false, not, ◌&&◌,
  none, some, List, [], ◌∷◌, filter, length, get_elem?, get_or, In, In-filter, In-filter_of, All,
  leb, arith, Bool-cases,
}
use insurnace_automations.Core.Routing.{
  RepCandidate, RoutingInput, RoutingConfig, RoutingResult, territory, specialization, workload,
  is_empty, territory_match, specialty_match, uses, insert_rep, sort_reps, narrow, choose, others,
  is_eligible, assign, pool_of, primary_pool,
}

In-insert : (x c : RepCandidate) (ds : List RepCandidate) → In x (insert_rep c ds) ↔ In x (c ∷ ds)
unfolding insert_rep
In-insert x c [] = (λ h. h, λ h. h)
In-insert x c (d ∷ ds) = ground (arith, In-insert x c ds)

In-sort : (x : RepCandidate) (cs : List RepCandidate) → In x (sort_reps cs) ↔ In x cs
unfolding sort_reps
In-sort x [] = (λ h. h, λ h. h)
In-sort x (c ∷ cs) = ground (arith, In-insert x c (sort_reps cs), In-sort x cs)

-- Ascending workload.
abbrev pub IsSorted : List RepCandidate → Type 0
IsSorted [] = Unit
IsSorted (c ∷ cs) = All (λ d. c.workload ≤ d.workload) cs × IsSorted cs

All-insert :
    (n : ℕ) (c : RepCandidate) (ds : List RepCandidate)
    → n ≤ c.workload
    → All (λ d. n ≤ d.workload) ds
    → All (λ d. n ≤ d.workload) (insert_rep c ds)
unfolding insert_rep
All-insert n c [] h k = (h, tt)
All-insert n c (d ∷ ds) h k = ground (arith, All-insert n c ds)

All-trans :
    (m n : ℕ) (ds : List RepCandidate)
    → m ≤ n
    → All (λ d. n ≤ d.workload) ds
    → All (λ d. m ≤ d.workload) ds
All-trans m n [] h k = tt
All-trans m n (d ∷ ds) h k = (omega (arith, k.0), All-trans m n ds h k.1)

insert-IsSorted :
    (c : RepCandidate) (ds : List RepCandidate) → IsSorted ds → IsSorted (insert_rep c ds)
unfolding insert_rep
insert-IsSorted c [] h = (tt, tt)
insert-IsSorted c (d ∷ ds) h = elim (Bool-cases (leb c.workload d.workload)) [
  | inl e ↦ rw e ((ground arith, All-trans c.workload d.workload ds (ground arith) h.0), h)
  | inr e ↦ rw e (All-insert d.workload c ds (ground arith) h.0, insert-IsSorted c ds h.1)
]

sort-IsSorted : (cs : List RepCandidate) → IsSorted (sort_reps cs)
unfolding sort_reps
sort-IsSorted [] = tt
sort-IsSorted (c ∷ cs) = insert-IsSorted c (sort_reps cs) (sort-IsSorted cs)

All-In :
    (n : ℕ) (x : RepCandidate) (cs : List RepCandidate)
    → All (λ d. n ≤ d.workload) cs
    → In x cs
    → n ≤ x.workload
All-In n x [] h i = absurd i
All-In n x (c ∷ cs) h i = elim i [ inl e ↦ rw e h.0 | inr j ↦ All-In n x cs h.1 j ]

-- The head of a sorted pool: it is in the pool, and no workload in the pool is smaller.
abbrev first_of_sorted : RepCandidate → List RepCandidate → RepCandidate
first_of_sorted c cs = get_or (get_elem? (sort_reps (c ∷ cs)) 0) c

head-In : (c : RepCandidate) (ds : List RepCandidate) → ds ≢ [] → In (get_or (get_elem? ds 0) c) ds
head-In c [] h = absurd (h refl)
head-In c (d ∷ ds) h = inl refl

head_least :
    (c x : RepCandidate) (ds : List RepCandidate)
    → IsSorted ds
    → In x ds
    → (get_or (get_elem? ds 0) c).workload ≤ x.workload
head_least c x [] h i = absurd i
head_least c x (d ∷ ds) h i = elim i [
  | inl e ↦ rw e (omega arith)
  | inr j ↦ All-In d.workload x ds h.0 j
]

ne_of_In : (x : RepCandidate) (ds : List RepCandidate) → In x ds → ds ≢ []
ne_of_In x [] i = absurd i
ne_of_In x (d ∷ ds) i = λ e. cc

sorted_head :
    (c : RepCandidate) (cs : List RepCandidate)
    → In (first_of_sorted c cs) (c ∷ cs)
      × ((x : RepCandidate) → In x (c ∷ cs) → (first_of_sorted c cs).workload ≤ x.workload)
sorted_head c cs =
    let there : In c (sort_reps (c ∷ cs)) = (In-sort c (c ∷ cs)).1 (inl refl) in
    (
      (In-sort _ (c ∷ cs)).0 (head-In c (sort_reps (c ∷ cs)) (ne_of_In c _ there)),
      λ x i.
          head_least c x (sort_reps (c ∷ cs)) (sort-IsSorted (c ∷ cs)) ((In-sort x (c ∷ cs)).1 i),
    )

get_or-In :
    (c : RepCandidate) (ds : List RepCandidate) (i : ℕ)
    → i < length ds
    → In (get_or (get_elem? ds i) c) ds
get_or-In c [] i h = absurd (omega arith)
get_or-In c (d ∷ ds) zero h = inl refl
get_or-In c (d ∷ ds) (suc i) h = inr (get_or-In c ds i (omega arith))

choose-In :
    (config : RoutingConfig) (c : RepCandidate) (cs : List RepCandidate) (reasons : List String)
    → In (choose config c cs reasons).0 (c ∷ cs)
unfolding choose
choose-In config c cs reasons = ground (
  arith,
  (sorted_head c cs).0,
  get_or-In c (c ∷ cs) (config.round_robin_cursor % length (c ∷ cs)),
)

member : (ds : List RepCandidate) → ds ≢ [] → (x : RepCandidate) × In x ds
member [] h = absurd (h refl)
member (d ∷ ds) h = (d, inl refl)

is_empty_of : (ds : List RepCandidate) (x : RepCandidate) → In x ds → is_empty ds ≡ false
is_empty_of [] x i = absurd i
is_empty_of (d ∷ ds) x i = refl

-- What `assign` does with a pool that is not empty.
pub record Assigned (config : RoutingConfig) (ordered ds : List RepCandidate) (r : RoutingResult)
    : Type 0 where
  pub rep : RepCandidate
  pub listed : In rep ds
  pub primary : r.primary_user_id ≡ some rep.user_id
  pub fallback : r.fallback_user_ids ≡ others rep.user_id ordered
  pub least : uses config workload ≡ true → (x : RepCandidate) → In x ds → rep.workload ≤ x.workload

choose_least :
    (config : RoutingConfig) (c : RepCandidate) (cs : List RepCandidate) (reasons : List String)
    → uses config workload ≡ true
    → (x : RepCandidate) → In x (c ∷ cs)
    → (choose config c cs reasons).0.workload ≤ x.workload
unfolding choose
choose_least config c cs reasons h x i = rw h ((sorted_head c cs).1 x i)

pub assign-Assigned :
    (config : RoutingConfig) (ordered ds : List RepCandidate) (reasons : List String)
    → ds ≢ []
    → Assigned config ordered ds (assign config ordered ds reasons)
unfolding assign
assign-Assigned config ordered [] reasons h = absurd (h refl)
assign-Assigned config ordered (c ∷ cs) reasons h = record {
  rep = (choose config c cs reasons).0;
  listed = choose-In config c cs reasons;
  primary = refl;
  fallback = refl;
  least = choose_least config c cs reasons;
}

module _ (used : Bool) (keep : RepCandidate → Bool) (name : String) (pool : List RepCandidate)
    (reasons : List String) where
  narrow-In_sub : (x : RepCandidate) → In x (narrow used keep name (pool, reasons)).0 → In x pool
  unfolding narrow
  narrow-In_sub x i = ground (arith, In-filter keep pool x)

  narrow-In_keep :
      (x : RepCandidate)
      → In x pool
      → keep x ≡ true
      → In x (narrow used keep name (pool, reasons)).0
  unfolding narrow
  narrow-In_keep x i k = ground (arith, In-filter_of keep pool x)

  narrow-ne : (x : RepCandidate) → In x pool → (narrow used keep name (pool, reasons)).0 ≢ []
  unfolding narrow
  narrow-ne x i = elim (Bool-cases (used && not (is_empty (filter keep pool)))) [
    | inl e ↦ rw e (λ h. ground arith)
    | inr e ↦ rw e (ne_of_In x pool i)
  ]

module _ (input : RoutingInput) (config : RoutingConfig) (active : List RepCandidate) where
  -- The pool after the first of the two filters, with its reasons.
  local : List RepCandidate × List String
  local = narrow (uses config territory) (λ c. territory_match c input) "territory" (active, [])

  pub pool-In_sub : (x : RepCandidate) → In x (pool_of input config active).0 → In x active
  unfolding pool_of local
  pool-In_sub x i =
      narrow-In_sub (uses config territory) (λ c. territory_match c input) "territory" active [] x
        (narrow-In_sub (uses config specialization) (λ c. specialty_match c input) "specialization"
          local.0 local.1 x i)

  pub pool-In_keep :
      (x : RepCandidate)
      → In x active
      → territory_match x input ≡ true
      → specialty_match x input ≡ true
      → In x (pool_of input config active).0
  unfolding pool_of local
  pool-In_keep x i t s =
      narrow-In_keep (uses config specialization) (λ c. specialty_match c input) "specialization"
        local.0 local.1 x
        (narrow-In_keep (uses config territory) (λ c. territory_match c input) "territory" active []
          x i t)
        s

  pub pool-some :
      (x : RepCandidate) → In x active → (y : RepCandidate) × In y (pool_of input config active).0
  unfolding pool_of local
  pool-some x i =
      let (y, j) = member local.0 (
        narrow-ne (uses config territory) (λ c. territory_match c input) "territory" active [] x
          i) in
      member (pool_of input config active).0 (
        narrow-ne (uses config specialization) (λ c. specialty_match c input) "specialization"
          local.0 local.1 y j)

pub pool-primary_sub :
    (pool : List RepCandidate) (x : RepCandidate) → In x (primary_pool pool) → In x pool
unfolding primary_pool
pool-primary_sub pool x i = ground (arith, In-filter is_eligible pool x, In-sort x pool)

pub pool-primary_ne :
    (pool : List RepCandidate) (x : RepCandidate) → In x pool → primary_pool pool ≢ []
unfolding primary_pool
pool-primary_ne pool x i = elim (Bool-cases (is_empty (filter is_eligible pool))) [
  | inl e ↦ rw e (ne_of_In x (sort_reps pool) ((In-sort x pool).1 i))
  | inr e ↦ rw e (λ h. ground arith)
]

pub pool-primary_eligible :
    (pool : List RepCandidate) (e : RepCandidate)
    → In e pool
    → is_eligible e ≡ true
    → In e (primary_pool pool)
      × ((x : RepCandidate) → In x (primary_pool pool) → is_eligible x ≡ true)
unfolding primary_pool
pool-primary_eligible pool e i h =
    let there : In e (filter is_eligible pool) = In-filter_of is_eligible pool e i h in
    let some_left : is_empty (filter is_eligible pool) ≡ false =
      is_empty_of (filter is_eligible pool) e there in
    rw some_left (there, λ x j. (In-filter is_eligible pool x j).1)

pub pool-nil : (input : RoutingInput) (config : RoutingConfig) → (pool_of input config []).0 ≡ []
unfolding pool_of
pool-nil input config = ground arith

pub primary_pool-nil :
    (config : RoutingConfig) (ordered : List RepCandidate) (reasons : List String)
    → (assign config ordered (primary_pool []) reasons).primary_user_id ≡ none
unfolding assign primary_pool
primary_pool-nil config ordered reasons = refl
