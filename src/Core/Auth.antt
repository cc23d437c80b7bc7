-- ===== src/Core/Auth.antt =====
-- packages/core/src/auth.ts: passwords, tokens and roles. `scrypt password salt` is the hexadecimal key that
-- scryptSync of node:crypto derives.
pub mod Laws
use insurnace_automations.Base.{
  ℕ, ◌+◌, ◌-◌, ◌*◌, String, Bool, true, false, ◌&&◌, Option, none, some, List, [], ◌∷◌, ◌++◌, Text,
  codes, text_eq, leb, str_eq, ◌==◌, if◌then◌else◌,
}

-- ROLES
pub data Role : Type 0 where
  platform_admin tenant_owner sales_manager sales_rep analyst : Role

-- RANK
abbrev pub rank : Role → ℕ
rank platform_admin = 5
rank tenant_owner = 4
rank sales_manager = 3
rank sales_rep = 2
rank analyst = 1

-- The role of a key of RANK.
unfoldable pub role_of : String → Option Role
role_of name =
    if str_eq name "platform_admin"
    then some platform_admin
    else if str_eq name "tenant_owner"
    then some tenant_owner
    else if str_eq name "sales_manager"
    then some sales_manager
    else if str_eq name "sales_rep"
    then some sales_rep
    else if str_eq name "analyst"
    then some analyst
    else none

unfoldable pub role_at_least : String → Role → Bool
unfolding role_of
role_at_least role minimum = elim (role_of role) [
  | none ↦ false
  | some r ↦ leb (rank minimum) (rank r)
]

-- `s.split(…)` at a separator of one unit.
abbrev pub extend : ℕ → List Text → List Text
extend c [] = (c ∷ []) ∷ []
extend c (part ∷ parts) = (c ∷ part) ∷ parts

unfoldable pub split : ℕ → Text → List Text
split by [] = [] ∷ []
split by (c ∷ s) = let rest = split by s in if c == by then [] ∷ rest else extend c rest

-- The value of a hexadecimal digit.
unfoldable pub hex_value : ℕ → Option ℕ
hex_value c =
    if leb b'0' c && leb c b'9'
    then some (c - b'0')
    else if leb b'a' c && leb c b'f'
    then some (c - b'a' + 10)
    else if leb b'A' c && leb c b'F'
    then some (c - b'A' + 10)
    else none

abbrev pub byte_then : Option ℕ → Option ℕ → List ℕ → List ℕ
byte_then (some x) (some y) rest = (x * 16 + y) ∷ rest
byte_then _ _ rest = []

-- `Buffer.from(s, "hex")`: the bytes up to the first pair that is not hexadecimal.
unfoldable pub from_hex : Text → List ℕ
unfolding hex_value
from_hex [] = []
from_hex (a ∷ []) = []
from_hex (a ∷ b ∷ s) = let rest = from_hex s in byte_then (hex_value a) (hex_value b) rest

module _ (scrypt : Text → Text → Text) where
  -- `hashPassword`, with the salt that it draws.
  unfoldable pub hash_password : Text → Text → Text
  hash_password salt password = codes "scrypt" ++ b'$' ∷ salt ++ b'$' ∷ scrypt password salt

  unfoldable pub check_parts : Text → List Text → Bool
  unfolding from_hex
  check_parts password (scheme ∷ salt ∷ expected ∷ []) =
      text_eq scheme (codes "scrypt")
      && text_eq (from_hex (scrypt password salt)) (from_hex expected)
  check_parts password _ = false

  unfoldable pub verify_password : Text → Option Text → Bool
  unfolding check_parts split
  verify_password password none = false
  verify_password password (some []) = false
  verify_password password (some (c ∷ s)) = check_parts password (split b'$' (c ∷ s))
