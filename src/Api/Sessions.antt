-- ===== src/Api/Sessions.antt =====
-- apps/api/src/auth/service.ts: log-in, the look-up of a session, and log-out. `hash` is hashToken and `scrypt`
-- as in packages/core/src/auth.ts; the token that a log-in draws is an argument.
pub mod Laws
use insurnace_automations.Base.{
  ℕ, ◌+◌, String, Bool, true, false, not, ◌&&◌, Option, none, some, List, [], ◌∷◌, ◌++◌, Text, any,
  find, filter, trim, to_lower, text_eq, ltb, str_eq, if◌then◌else◌,
}
use insurnace_automations.Core.Auth.{verify_password}

-- The tables that span the tenants.
pub record User : Type 0 where
  pub id : String
  pub email : Text
  pub password_hash : Option Text

pub record Membership : Type 0 where
  pub tenant_id : String
  pub user_id : String
  pub role : String

pub record Session : Type 0 where
  pub user_id : String
  pub tenant_id : String
  pub role : String
  pub token_hash : String
  pub expires_at : ℕ

pub record Accounts : Type 0 where
  pub users : List User
  pub memberships : List Membership
  pub sessions : List Session

pub record AuthPrincipal : Type 0 where
  pub user_id : String
  pub tenant_id : String
  pub role : String

-- The result of a log-in: `taken` is the error of the unique index on token hashes.
pub data Login : Type 0 where
  denied taken : Login
  logged_in : (raw : String) (principal : AuthPrincipal) → Login

abbrev pub session_ttl_ms : ℕ
session_ttl_ms = 604800000

abbrev pub principal_of : Session → AuthPrincipal
principal_of s = record { user_id = s.user_id; tenant_id = s.tenant_id; role = s.role }

abbrev pub principal_if : Option Session → Option AuthPrincipal
principal_if none = none
principal_if (some s) = some (principal_of s)

-- `if (!rawToken)`
abbrev pub token_of : Option String → Option String
token_of none = none
token_of (some raw) = if str_eq raw "" then none else some raw

module _ (hash : String → String) where
  abbrev pub has_hash : String → Session → Bool
  has_hash raw s = str_eq s.token_hash (hash raw)

  abbrev pub new_session : String → ℕ → Membership → Session
  new_session raw now m = record {
    user_id = m.user_id;
    tenant_id = m.tenant_id;
    role = m.role;
    token_hash = hash raw;
    expires_at = now + session_ttl_ms;
  }

  unfoldable pub open_session : String → ℕ → Option Membership → Accounts → Login × Accounts
  open_session raw now none a = (denied, a)
  open_session raw now (some m) a = if any (has_hash raw) a.sessions then (taken, a) else (
    logged_in raw (principal_of (new_session raw now m)),
    record a { sessions = a.sessions ++ new_session raw now m ∷ [] },
  )

  -- The session with the token's hash that has not expired.
  abbrev pub live : String → ℕ → Accounts → Option Session
  live raw now a = find (λ s. has_hash raw s && ltb now s.expires_at) a.sessions

  unfoldable pub resolve_with : Option String → ℕ → Accounts → Option AuthPrincipal
  resolve_with none now a = none
  resolve_with (some raw) now a = principal_if (live raw now a)

  unfoldable pub resolve_session : Option String → ℕ → Accounts → Option AuthPrincipal
  unfolding resolve_with
  resolve_session token now a = resolve_with (token_of token) now a

  unfoldable pub drop_session : Option String → Accounts → Accounts
  drop_session none a = a
  drop_session (some raw) a = record a { sessions = filter (λ s. not (has_hash raw s)) a.sessions }

  unfoldable pub logout : Option String → Accounts → Accounts
  unfolding drop_session
  logout token a = drop_session (token_of token) a

  module _ (scrypt : Text → Text → Text) where
    unfoldable pub login_user : Text → String → ℕ → Option User → Accounts → Login × Accounts
    unfolding open_session
    login_user password raw now none a = (denied, a)
    login_user password raw now (some u) a =
        if verify_password scrypt password u.password_hash
        then open_session raw now (find (λ m. str_eq m.user_id u.id) a.memberships) a
        else (denied, a)

    unfoldable pub login : Text → Text → String → ℕ → Accounts → Login × Accounts
    unfolding login_user
    login email password raw now a =
        login_user password raw now (find (λ u. text_eq u.email (trim (to_lower email))) a.users) a
