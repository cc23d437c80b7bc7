-- ===== src/Base/Show.antt =====
-- Numbers in template literals: decimal digits, and a sign for negative numbers.
use Prim.Native.Nat.{ℕ, zero, suc, ◌/◌, ◌%◌}
use Prim.Native.String.{String, ◌++◌}
use mathlib.Core.Path.{◌≡◌, refl}
use mathlib.Core.List.{[], ◌∷◌}
use insurnace_automations.Base.Tests.{ltb, if◌then◌else◌}
use insurnace_automations.Base.Lists.{get_elem?}
use insurnace_automations.Base.Tests.{get_or}
use insurnace_automations.Base.Int.{ℤ, pos, negsuc}

abbrev digit : ℕ → String
digit d = get_or (get_elem? ("0" ∷ "1" ∷ "2" ∷ "3" ∷ "4" ∷ "5" ∷ "6" ∷ "7" ∷ "8" ∷ "9" ∷ []) d) ""

-- A number has no more digits than its value plus one, so that is the fuel.
show_digits : ℕ → ℕ → String
show_digits zero n = ""
show_digits (suc f) n =
    let front = show_digits f (n / 10) in if ltb n 10 then digit n else front ++ digit (n % 10)

unfoldable pub show_ℕ : ℕ → String
unfolding show_digits
show_ℕ n = show_digits (suc n) n

unfoldable pub show_ℤ : ℤ → String
unfolding show_ℕ
show_ℤ (pos n) = show_ℕ n
show_ℤ (negsuc n) = "-" ++ show_ℕ (suc n)

show_tests : (show_ℕ 0 ≡ "0") × (show_ℕ 120 ≡ "120") × (show_ℤ (negsuc 39) ≡ "-40")
unfolding show_ℤ
show_tests = (refl, refl, refl)
