-- ===== src/Tests/Access.antt =====
-- A manager who logs in and takes a lead over.
use insurnace_automations.Base.{String, true, none, some, [], ◌∷◌, Text, codes, ◌≡◌, refl, ◌⊎◌}
use insurnace_automations.Core.Auth.{role_at_least, hash_password}
use insurnace_automations.Core.Types.{engaged}
use insurnace_automations.Api.Sessions.{Session, Accounts, login}
use insurnace_automations.Api.Sessions.Laws.{Grants, login-Grants}
use insurnace_automations.Api.Access.{Env, Credentials}
use insurnace_automations.Api.Actions.{takeover, minimum, Tenants, act}
use insurnace_automations.Api.Actions.Laws.{IsLive, action_has_session}
use insurnace_automations.Tests.Data.{world_in}

abbrev scrypt : Text → Text → Text
scrypt password salt = codes "c0ffee"

abbrev hash : String → String
hash raw = "9f86"

abbrev salt : Text
salt = codes "ab12"

abbrev secret : Text
secret = codes "hunter2"

abbrev staff : Accounts
staff = record {
  users =
      record {
        id = "u1";
        email = codes "ann@example.com";
        password_hash = some (hash_password scrypt salt secret);
      }
      ∷ [];
  memberships = record { tenant_id = "t1"; user_id = "u1"; role = "sales_manager" } ∷ [];
  sessions = [];
}

login-Grants_example :
    Grants hash scrypt
      (codes "Ann@Example.com")
      secret
      100
      staff
      (login hash scrypt (codes "Ann@Example.com") secret "token" 100 staff)
login-Grants_example =
    login-Grants hash scrypt (codes "Ann@Example.com") secret "token" 100 staff refl

abbrev on_duty : Accounts
on_duty = (login hash scrypt (codes "Ann@Example.com") secret "token" 100 staff).1

abbrev production : Env
production = record { is_production = true; allow_dev_headers = true }

abbrev cookie : Credentials
cookie = record {
  session = some "token";
  tenant_header = none;
  user_header = none;
  role_header = none;
}

abbrev all_tenants : Tenants
all_tenants t = world_in engaged

action_has_session_example :
    ((act hash production 200 (takeover 1) cookie on_duty all_tenants).1 "t1" ≡ all_tenants "t1")
    ⊎ ((s : Session) × IsLive hash 200 on_duty cookie.session s
        × (s.tenant_id ≡ "t1")
        × (role_at_least s.role (minimum (takeover 1)) ≡ true))
action_has_session_example =
    action_has_session hash 200 on_duty production (takeover 1) cookie all_tenants refl "t1"
