-- ===== src/Worker/Outcomes.antt =====
-- Predicates on the outcomes of the processors, carried through what may throw.
use insurnace_automations.Base.{
  ℕ, String, Bool, true, false, Option, none, some, ◌≡◌, refl, if◌then◌else◌,
}
use insurnace_automations.Core.Types.{LeadState}
use insurnace_automations.Worker.Store.{Db, World, Outcome, ok, error, bind, settle, set_state}
use insurnace_automations.Worker.Inbound.{move_unless}

-- The world that a run ends in, where it does not throw.
abbrev pub Ends : {A : Type 0} → (World → Type 0) → Outcome A → Type 0
Ends P (ok r w) = P w
Ends P (error e w) = Unit

-- A run that throws leaves the database as it was.
abbrev pub Atomic : {A : Type 0} → Db → (A → World → Type 0) → Outcome A → Type 0
Atomic d P (ok r w) = P r w
Atomic d P (error e w) = w.db ≡ d

pub bind-Ends :
    {A B : Type 0} (P Q : World → Type 0) (o : Outcome A) (f : A → World → Outcome B)
    → Ends P o
    → ((a : A) (w : World) → P w → Ends Q (f a w))
    → Ends Q (bind o f)
unfolding bind
bind-Ends P Q (ok a w) f h k = k a w h
bind-Ends P Q (error e w) f h k = tt

-- A move that throws or sets the lead's state.
pub move_unless-Ends :
    {A : Type 0} (P : World → Type 0) (o : Option String) (a : A) (id : ℕ) (to : LeadState)
    (w : World)
    → P (record w { db = set_state id to w.db })
    → Ends P (move_unless o a id to w)
unfolding move_unless
move_unless-Ends P none a id to w h = h
move_unless-Ends P (some e) a id to w h = tt

pub settle-Atomic :
    {A : Type 0} (d : Db) (P : World → Type 0) (o : Outcome A)
    → Ends P o
    → Atomic d (λ r w. P w) (settle d o)
unfolding settle
settle-Atomic d P (ok r w) h = h
settle-Atomic d P (error e w) h = refl

pub Ends-weaken :
    {A : Type 0} (P Q : World → Type 0) (o : Outcome A)
    → ((w : World) → P w → Q w)
    → Ends P o
    → Ends Q o
Ends-weaken P Q (ok r w) f h = f w h
Ends-weaken P Q (error e w) f h = tt

-- A test whose outcome the branches may use.
pub if-Ends :
    {A : Type 0} (P : World → Type 0) (b : Bool) (x y : Outcome A)
    → (b ≡ true → Ends P x)
    → (b ≡ false → Ends P y)
    → Ends P (if b then x else y)
if-Ends P true x y h k = h refl
if-Ends P false x y h k = k refl

-- A run that ends with a result of which `P` holds.
pub data OkWith {A : Type 0} (P : A → World → Type 0) : Outcome A → Type 0 where
  returns : (r : A) (w : World) → P r w → OkWith P (ok r w)

pub bind-OkWith :
    {A B : Type 0} {P : A → World → Type 0} {Q : B → World → Type 0} {o : Outcome A}
    {f : A → World → Outcome B}
    → OkWith P o
    → ((a : A) (w : World) → P a w → OkWith Q (f a w))
    → OkWith Q (bind o f)
unfolding bind
bind-OkWith (returns a w h) k = k a w h

pub if-OkWith :
    {A : Type 0} {P : A → World → Type 0} (b : Bool) {x y : Outcome A}
    → (b ≡ true → OkWith P x)
    → (b ≡ false → OkWith P y)
    → OkWith P (if b then x else y)
if-OkWith true h k = h refl
if-OkWith false h k = k refl

pub returned :
    {A : Type 0} {P : A → World → Type 0} (d : Db) {o : Outcome A}
    → OkWith P o
    → (r : A) × (w : World) × (settle d o ≡ ok r w) × P r w
unfolding settle
returned d (returns r w h) = (r, w, refl, h)

abbrev pub world_of : {A : Type 0} → Outcome A → World
world_of (ok r w) = w
world_of (error e w) = w
