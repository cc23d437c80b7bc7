-- ===== src/Api/Access.antt =====
-- apps/api/src/auth/context.ts and devAuthAllowed of packages/config/src/index.ts: who a request acts for. The
-- session cookie is given as parseCookie decodes it.
use insurnace_automations.Base.{
  ℕ, String, Bool, false, Option, none, some, get_or, str_eq, if◌then◌else◌,
}
use insurnace_automations.Api.Sessions.{Accounts, AuthPrincipal, resolve_session}

pub record Env : Type 0 where
  pub is_production : Bool
  pub allow_dev_headers : Bool

abbrev pub dev_auth_allowed : Env → Bool
dev_auth_allowed env = if env.is_production then false else env.allow_dev_headers

-- What a request brings along.
pub record Credentials : Type 0 where
  pub session : Option String
  pub tenant_header : Option String
  pub user_header : Option String
  pub role_header : Option String

unfoldable pub dev_principal : Credentials → Option AuthPrincipal
dev_principal c =
    let tenant_id = get_or c.tenant_header "" in
    if str_eq tenant_id ""
    then none
    else some (record {
      user_id = get_or c.user_header "dev-user";
      tenant_id = tenant_id;
      role = get_or c.role_header "tenant_owner";
    })

unfoldable pub or_dev : Env → Credentials → Option AuthPrincipal → Option AuthPrincipal
unfolding dev_principal
or_dev env c none = if dev_auth_allowed env then dev_principal c else none
or_dev env c (some p) = some p

-- `resolveAuth`
unfoldable pub resolve_auth :
    (String → String) → Env → ℕ → Credentials → Accounts → Option AuthPrincipal
unfolding or_dev
resolve_auth hash env now c a = or_dev env c (resolve_session hash c.session now a)
