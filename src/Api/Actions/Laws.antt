-- ===== src/Api/Actions/Laws.antt =====
-- Theorems on the actions of apps/api/src/routes/lead-actions.ts.
use insurnace_automations.Base.{
  ℕ, ◌<◌, String, Bool, true, false, ◌&&◌, Option, none, some, In, str_eq, eq_iff, ltb, ltb→lt, ◌≡◌,
  refl, sym, ◌⊎◌, inl, inr, Bool-cases, Option-cases, find-satisfies, find-In, ap, ◌∙◌, subst,
  get_or,
}
use insurnace_automations.Core.Auth.{role_at_least}
use insurnace_automations.Api.Sessions.{
  Session, Accounts, AuthPrincipal, principal_of, has_hash, live, resolve_with, resolve_session,
}
use insurnace_automations.Api.Access.{Env, Credentials, or_dev, resolve_auth}
use insurnace_automations.Api.Actions.{Action, minimum, Tenants, act_as, act}

module _ (hash : String → String) (now : ℕ) (a : Accounts) where
  -- A session of the table that the token opens and that has not expired.
  pub record IsLive (token : Option String) (s : Session) : Type 0 where
    pub raw : String
    pub brought : token ≡ some raw
    pub listed : In s a.sessions
    pub hashed : s.token_hash ≡ hash raw
    pub unexpired : now < s.expires_at

  abbrev pub Backed : Option String → AuthPrincipal → Type 0
  Backed token p = (s : Session) × IsLive token s × (p ≡ principal_of s)

  split_and : (b c : Bool) → (b && c) ≡ true → (b ≡ true) × (c ≡ true)
  split_and true c h = (refl, h)
  split_and false c h = cc

  resolve_with-Backed :
      (token : Option String) (raw : String) (p : AuthPrincipal)
      → token ≡ some raw
      → resolve_with hash (some raw) now a ≡ some p
      → Backed token p
  unfolding resolve_with
  resolve_with-Backed token raw p brought h = elim (Option-cases (live hash raw now a)) [
    | inl nobody ↦ cc (rw nobody at h)
    | inr (s, found) ↦
        let (hashed, fresh) = split_and (has_hash hash raw s) (ltb now s.expires_at) (
          find-satisfies (λ s'. has_hash hash raw s' && ltb now s'.expires_at) a.sessions s
            found) in
        (
          s,
          record {
            raw = raw;
            brought = brought;
            listed =
                find-In (λ s'. has_hash hash raw s' && ltb now s'.expires_at) a.sessions s found;
            hashed = (eq_iff s.token_hash (hash raw)).0 hashed;
            unexpired = ltb→lt now s.expires_at fresh;
          },
          ap (λ o. get_or o p) (sym (rw found at h)),
        )
  ]

  session-Backed :
      (token : Option String) (p : AuthPrincipal)
      → resolve_session hash token now a ≡ some p
      → Backed token p
  unfolding resolve_session resolve_with
  session-Backed none p h = cc
  session-Backed (some raw) p h = elim (Bool-cases (str_eq raw "")) [
    | inl bare ↦ cc (rw bare at h)
    | inr given ↦ resolve_with-Backed (some raw) raw p refl (rw given at h)
  ]

  -- In production nobody is let in by a header.
  auth-Backed :
      (env : Env) (c : Credentials) (p : AuthPrincipal)
      → env.is_production ≡ true
      → resolve_auth hash env now c a ≡ some p
      → Backed c.session p
  unfolding resolve_auth or_dev
  auth-Backed env c p live_env h = elim (Option-cases (resolve_session hash c.session now a)) [
    | inl nobody ↦ cc (rw (nobody, live_env) at h)
    | inr (q, found) ↦ session-Backed c.session p (found ∙ (rw (found, or_dev) at h))
  ]

  -- In production a request for an action changes the tables of a tenant only if its cookie opens a session of that tenant that is stored, has not expired and has a role that is at
  -- least the one that the action asks for: a sales rep, or a sales manager for a retry.
  pub action_has_session :
      (env : Env) (action : Action) (c : Credentials) (ts : Tenants)
      → env.is_production ≡ true
      → (t : String)
      → ((act hash env now action c a ts).1 t ≡ ts t)
        ⊎ ((s : Session) × IsLive c.session s
            × (s.tenant_id ≡ t)
            × (role_at_least s.role (minimum action) ≡ true))
  unfolding act act_as
  action_has_session env action c ts live_env t =
      elim (Option-cases (resolve_auth hash env now c a)) [
        | inl nobody ↦ inl (rw (nobody, act_as) refl)
        | inr (p, known) ↦ elim (Bool-cases (role_at_least p.role (minimum action))) [
          | inr low ↦ inl (rw (known, act_as) (rw low refl))
          | inl high ↦ elim (Bool-cases (str_eq t p.tenant_id)) [
            | inr away ↦ inl (rw (known, act_as) (rw (high, away) refl))
            | inl home ↦
                let (s, live_one, same) = auth-Backed env c p live_env known in
                inr (
                  s,
                  live_one,
                  sym (
                      (eq_iff t p.tenant_id).0 home ∙ ap (λ (q : AuthPrincipal). q.tenant_id) same),
                  subst (λ q. role_at_least q.role (minimum action) ≡ true) same high,
                )
          ]
        ]
      ]
