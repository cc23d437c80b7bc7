-- ===== src/Core/Auth/Laws.antt =====
-- Theorems on the passwords of packages/core/src/auth.ts.
use insurnace_automations.Base.{
  true, false, some, [], ◌∷◌, ◌++◌, Text, text_eq, text_eq_iff, ◌==◌, All, ◌≡◌, refl,
}
use insurnace_automations.Core.Auth.{split, from_hex, hash_password, check_parts, verify_password}

-- A text without the separator.
abbrev pub Plain : Text → Type 0
Plain s = All (λ c. (c == b'$') ≡ false) s

split-Plain : (s : Text) → Plain s → split b'$' s ≡ s ∷ []
unfolding split
split-Plain [] h = refl
split-Plain (c ∷ s) h = rw (h.0, split-Plain s h.1) refl

split_at : (s t : Text) → Plain s → split b'$' (s ++ b'$' ∷ t) ≡ s ∷ split b'$' t
unfolding split
split_at [] t h = refl
split_at (c ∷ s) t h = rw (h.0, split_at s t h.1) refl

text_eq_refl : (s : Text) → text_eq s s ≡ true
text_eq_refl s = (text_eq_iff s s).1 refl

module _ (scrypt : Text → Text → Text) where
  verify_hash :
      (salt password other : Text)
      → Plain salt
      → Plain (scrypt password salt)
      → verify_password scrypt other (some (hash_password scrypt salt password))
        ≡ text_eq (from_hex (scrypt other salt)) (from_hex (scrypt password salt))
  unfolding verify_password hash_password check_parts split
  verify_hash salt password other h k =
      rw (split_at salt (scrypt password salt) h, split-Plain (scrypt password salt) k) refl

  -- A password verifies against its own hash under any salt, as long as neither the salt nor the derived key
  -- has the separator in it; and whatever else verifies derives the same bytes from that salt.
  pub verify_password-hash_password :
      (salt password : Text)
      → Plain salt
      → Plain (scrypt password salt)
      → (verify_password scrypt password (some (hash_password scrypt salt password)) ≡ true)
        × ((other : Text)
            → verify_password scrypt other (some (hash_password scrypt salt password)) ≡ true
            → from_hex (scrypt other salt) ≡ from_hex (scrypt password salt))
  verify_password-hash_password salt password h k = (
    rw (verify_hash salt password password h k) (text_eq_refl (from_hex (scrypt password salt))),
    λ other e.
        (text_eq_iff (from_hex (scrypt other salt)) (from_hex (scrypt password salt))).0
          (rw (verify_hash salt password other h k) at e),
  )
