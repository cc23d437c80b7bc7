-- ===== src/Api/Actions.antt =====
-- apps/api/src/routes/lead-actions.ts: what a person does to a lead, for the tenant of the session. The tables
-- of each tenant are its own world, as row-level security keeps them.
pub mod Laws
use insurnace_automations.Base.{
  ℕ, String, Bool, true, false, Option, none, some, str_eq, if◌then◌else◌,
}
use insurnace_automations.Core.Auth.{Role, sales_rep, sales_manager, role_at_least}
use insurnace_automations.Worker.Store.{World, Outcome, ok, error}
use insurnace_automations.Worker.Takeover.{
  Reply, done, refused, Retried, not_failed, retried, takeover_lead, resume_lead,
  retry_failed_message,
}
use insurnace_automations.Worker.Escalation.{acknowledge_lead}
use insurnace_automations.Api.Sessions.{Accounts, AuthPrincipal}
use insurnace_automations.Api.Access.{Env, Credentials, resolve_auth}

pub data Action : Type 0 where
  takeover resume acknowledge : (lead_id : ℕ) → Action
  retry : (message_id : ℕ) → Action

-- The status of the answer: 200, 401, 403, 409, or 500 for an error that is thrown.
pub data Status : Type 0 where
  succeeded unauthenticated forbidden conflict : Status
  failed : (message : String) → Status

abbrev pub minimum : Action → Role
minimum (takeover id) = sales_rep
minimum (resume id) = sales_rep
minimum (acknowledge id) = sales_rep
minimum (retry id) = sales_manager

unfoldable pub answer_reply : Outcome Reply → Status × World
answer_reply (ok done w) = (succeeded, w)
answer_reply (ok (refused why) w) = (conflict, w)
answer_reply (error message w) = (failed message, w)

abbrev pub answer_retried : Retried → Status
answer_retried not_failed = conflict
answer_retried (retried id) = succeeded

-- The call of the processor, in the world of the tenant.
unfoldable pub run : ℕ → Action → World → Status × World
unfolding answer_reply
run now (takeover id) w = answer_reply (takeover_lead id w)
run now (resume id) w = answer_reply (resume_lead id w)
run now (acknowledge id) w = (succeeded, record w { db = acknowledge_lead id now w.db })
run now (retry id) w =
    let r = retry_failed_message id w.db in (answer_retried r.0, record w { db = r.1 })

abbrev pub Tenants : Type 0
Tenants = String → World

abbrev pub with_world : String → World → Tenants → Tenants
with_world tenant_id w ts t = if str_eq t tenant_id then w else ts t

unfoldable pub act_as : ℕ → Action → Option AuthPrincipal → Tenants → Status × Tenants
unfolding run
act_as now action none ts = (unauthenticated, ts)
act_as now action (some p) ts =
    if role_at_least p.role (minimum action)
    then (let r = run now action (ts p.tenant_id) in (r.0, with_world p.tenant_id r.1 ts))
    else (forbidden, ts)

-- A request for an action, with its guards.
unfoldable pub act :
    (String → String) → Env → ℕ → Action → Credentials → Accounts → Tenants → Status × Tenants
unfolding act_as resolve_auth
act hash env now action c a ts = act_as now action (resolve_auth hash env now c a) ts
