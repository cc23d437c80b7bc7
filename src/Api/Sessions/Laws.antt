-- ===== src/Api/Sessions/Laws.antt =====
-- Theorems on the sessions of apps/api/src/auth/service.ts.
use insurnace_automations.Base.{
  ℕ, ◌+◌, String, Bool, true, false, not, ◌&&◌, Option, none, some, List, [], ◌∷◌, ◌++◌, Text, any,
  find, filter, trim, to_lower, text_eq, text_eq_iff, ltb, str_eq, eq_iff, In, if◌then◌else◌, ◌≡◌,
  refl, Bool-cases, Option-cases, inl, inr, find-satisfies, find-In,
}
use insurnace_automations.Core.Auth.{verify_password}
use insurnace_automations.Api.Sessions.{
  User, Membership, Accounts, AuthPrincipal, Login, denied, taken, logged_in, session_ttl_ms,
  principal_of, token_of, has_hash, new_session, open_session, resolve_with, resolve_session,
  drop_session, logout, login_user, login,
}

module _ {A : Type 0} (p q : A → Bool) where
  find_last :
      (xs : List A) (y : A)
      → any p xs ≡ false
      → p y ≡ true
      → find (λ x. p x && q x) (xs ++ y ∷ []) ≡ (if q y then some y else none)
  find_last [] y h k = rw k refl
  find_last (x ∷ xs) y h k = elim (Bool-cases (p x)) [
    | inl e ↦ cc (rw e at h)
    | inr e ↦ rw e (find_last xs y (rw e at h) k)
  ]

  find_kept : (xs : List A) → find (λ x. p x && q x) (filter (λ x. not (p x)) xs) ≡ none
  find_kept [] = refl
  find_kept (x ∷ xs) = elim (Bool-cases (p x)) [
    | inl e ↦ rw e (find_kept xs)
    | inr e ↦ rw (e, e) (find_kept xs)
  ]

module _ (hash : String → String) (scrypt : Text → Text → Text) where
  -- What a log-in proves, and how long it lasts.
  pub record Opens (email password : Text) (raw : String) (now : ℕ) (a : Accounts)
      (p : AuthPrincipal) (a' : Accounts) : Type 0 where
    pub user : User
    pub listed : In user a.users
    pub named : user.email ≡ trim (to_lower email)
    pub verified : verify_password scrypt password user.password_hash ≡ true
    pub member : Membership
    pub belongs : In member a.memberships × (member.user_id ≡ user.id)
    pub acts : p ≡ principal_of (new_session hash raw now member)
    pub lasts :
        (t : ℕ)
        → resolve_session hash (some raw) t a'
          ≡ (if ltb t (now + session_ttl_ms) then some p else none)
    pub ends : (t : ℕ) → resolve_session hash (some raw) t (logout hash (some raw) a') ≡ none

  token_given : (raw : String) → str_eq raw "" ≡ false → token_of (some raw) ≡ some raw
  token_given raw e = rw e refl

  lasting :
      (raw : String) (now : ℕ) (m : Membership) (a : Accounts) (t : ℕ)
      → str_eq raw "" ≡ false
      → any (has_hash hash raw) a.sessions ≡ false
      → resolve_session hash
          (some raw)
          t
          (record a { sessions = a.sessions ++ new_session hash raw now m ∷ [] })
        ≡ (if ltb t (now + session_ttl_ms)
            then some (principal_of (new_session hash raw now m))
            else none)
  unfolding resolve_session
  lasting raw now m a t given fresh =
      let found =
        find_last (has_hash hash raw) (λ s. ltb t s.expires_at) a.sessions
          (new_session hash raw now m) fresh ((eq_iff (hash raw) (hash raw)).1 refl) in
      elim (Bool-cases (ltb t (now + session_ttl_ms))) [
        | inl e ↦ rw (token_given raw given, resolve_with) (rw (found, e) refl)
        | inr e ↦ rw (token_given raw given, resolve_with) (rw (found, e) refl)
      ]

  ending :
      (raw : String) (a : Accounts) (t : ℕ)
      → str_eq raw "" ≡ false
      → resolve_session hash (some raw) t (logout hash (some raw) a) ≡ none
  unfolding resolve_session logout
  ending raw a t given =
      rw (token_given raw given, resolve_with, drop_session)
        (rw (find_kept (has_hash hash raw) (λ s. ltb t s.expires_at) a.sessions) refl)

  -- What the answer to a log-in means. A refusal changes nothing.
  abbrev pub Grants : Text → Text → ℕ → Accounts → Login × Accounts → Type 0
  Grants email password now a (denied, a') = a' ≡ a
  Grants email password now a (taken, a') = a' ≡ a
  Grants email password now a (logged_in raw p, a') = Opens email password raw now a p a'

  module _ (email password : Text) (raw : String) (now : ℕ) (a : Accounts)
      (given : str_eq raw "" ≡ false) where
    open_session-Grants :
        (u : User)
        → find (λ u'. text_eq u'.email (trim (to_lower email))) a.users ≡ some u
        → verify_password scrypt password u.password_hash ≡ true
        → Grants email password now a
            (open_session hash raw now (find (λ m. str_eq m.user_id u.id) a.memberships) a)
    unfolding open_session
    open_session-Grants u found ok =
        elim (Option-cases (find (λ m. str_eq m.user_id u.id) a.memberships)) [
          | inl nobody ↦ rw (nobody, open_session) refl
          | inr (m, belongs) ↦ elim (Bool-cases (any (has_hash hash raw) a.sessions)) [
            | inl old ↦ rw (belongs, open_session) (rw old refl)
            | inr fresh ↦
                rw (belongs, open_session)
                  (rw fresh (record {
                    user = u;
                    listed =
                        find-In (λ u'. text_eq u'.email (trim (to_lower email))) a.users u found;
                    named = (text_eq_iff u.email (trim (to_lower email))).0 (
                        find-satisfies (λ u'. text_eq u'.email (trim (to_lower email))) a.users u
                          found);
                    verified = ok;
                    member = m;
                    belongs = (
                      find-In (λ m'. str_eq m'.user_id u.id) a.memberships m belongs,
                      (eq_iff m.user_id u.id).0
                          (find-satisfies (λ m'. str_eq m'.user_id u.id) a.memberships m belongs),
                    );
                    acts = refl;
                    lasts = λ t. lasting raw now m a t given fresh;
                    ends = λ t. ending raw _ t given;
                  }))
          ]
        ]

    login_user-Grants :
        (u : Option User)
        → find (λ u'. text_eq u'.email (trim (to_lower email))) a.users ≡ u
        → Grants email password now a (login_user hash scrypt password raw now u a)
    unfolding login_user
    login_user-Grants none found = refl
    login_user-Grants (some u) found =
        elim (Bool-cases (verify_password scrypt password u.password_hash)) [
          | inl ok ↦ rw ok (open_session-Grants u found ok)
          | inr wrong ↦ rw wrong refl
        ]

    -- A log-in with a token that is not empty succeeds only for a user of that e-mail address, trimmed and in
    -- lower case, whose stored hash verifies the password, and who is a member of a tenant; the principal is
    -- that member's. The token then gives the principal at every instant before seven days have passed, and
    -- nothing from then on, and nothing once it is logged out. A log-in that is refused changes nothing.
    pub login-Grants : Grants email password now a (login hash scrypt email password raw now a)
    unfolding login
    login-Grants =
        login_user-Grants (find (λ u'. text_eq u'.email (trim (to_lower email))) a.users) refl
