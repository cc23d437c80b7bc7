-- ===== src/Core/Policy/Laws.antt =====
-- Theorems on `evaluatePolicy` of packages/core/src/policy-gate.ts.
use insurnace_automations.Base.{
  ℕ, ◌<◌, String, ◌≡◌, refl, ◌≢◌, inl, inr, ◌↔◌, Bool, true, false, not, ◌&&◌, ◌||◌, Option, none,
  some, List, [], ◌∷◌, any, All, Text, trim, get_or, leb, str_eq, arith, if◌then◌else◌, Bool-cases,
  Option-cases,
}
use insurnace_automations.Core.Types.{granted}
use insurnace_automations.Regex.{test}
use insurnace_automations.Regex.Matching.{Occurs, test_iff}
use insurnace_automations.Core.Policy.{
  allowed_actions, KnowledgeType, KnowledgeRef, PolicyContext, ProposedAction, GateRejectCode,
  action_not_allowlisted, no_consent, suppressed, delivery_lockout, follow_up_cap, unverified_claim,
  empty_reply, Schedule, send_now, next_window, GateVerdict, allowed, rejected, ClaimPattern,
  claim_patterns, has_knowledge_of_type, check_claims, is_within_quiet_hours, evaluate_reply,
  evaluate_policy, is_granted,
}

-- The reply as the gate reads it.
abbrev pub reply_of : ProposedAction → Text
reply_of p = trim (get_or p.reply_text [])

abbrev pub is_send : ProposedAction → Bool
is_send p = str_eq p.action "send_reply" || str_eq p.action "offer_slots"

abbrev pub allowlisted : ProposedAction → Bool
allowlisted p = any (str_eq p.action) allowed_actions

-- An approved entry of the type is among those that the reply cites.
abbrev pub Backed : ProposedAction → List KnowledgeRef → KnowledgeType → Type 0
Backed p approved type = has_knowledge_of_type p.knowledge_refs approved type ≡ true

-- Every claim that the reply makes is backed.
abbrev pub ClaimsBacked : List ClaimPattern → PolicyContext → ProposedAction → Type 0
ClaimsBacked cs ctx p =
    All (λ c. Occurs c.pattern none (reply_of p) → Backed p ctx.approved_knowledge c.requires) cs

check_claims_iff :
    (cs : List ClaimPattern) (reply : Text) (refs : Option (List String))
    (approved : List KnowledgeRef)
    → (check_claims cs reply refs approved ≡ none)
      ↔ All
          (λ c. Occurs c.pattern none reply → has_knowledge_of_type refs approved c.requires ≡ true)
          cs
unfolding check_claims
check_claims_iff [] reply refs approved = ground arith
check_claims_iff (c ∷ cs) reply refs approved = elim (Bool-cases (test c.pattern reply)) [
  | inl hit ↦ elim (Bool-cases (has_knowledge_of_type refs approved c.requires)) [
    | inl backed ↦ (
      λ e. (λ _. backed, (check_claims_iff cs reply refs approved).0 (rw (hit, backed) at e)),
      λ h. rw (hit, backed) ((check_claims_iff cs reply refs approved).1 h.1),
    )
    | inr bare ↦ (λ e. cc (rw (hit, bare) at e), λ h. cc (h.0 ((test_iff c.pattern reply).0 hit)))
  ]
  | inr miss ↦ (
    λ e. (
      λ o. cc ((test_iff c.pattern reply).1 o),
      (check_claims_iff cs reply refs approved).0 (rw miss at e),
    ),
    λ h. rw miss ((check_claims_iff cs reply refs approved).1 h.1),
  )
]

check_claims_code :
    (cs : List ClaimPattern) (reply : Text) (refs : Option (List String))
    (approved : List KnowledgeRef) {v : GateVerdict}
    → check_claims cs reply refs approved ≡ some v
    → (why : String) × (v ≡ rejected unverified_claim why)
unfolding check_claims
check_claims_code [] reply refs approved h = cc
check_claims_code (c ∷ cs) reply refs approved h =
    grind (arith, check_claims_code cs reply refs approved)

-- What the gate asks of a reply that is to be sent, apart from the allowlist and suppression.
pub record Clears (ctx : PolicyContext) (p : ProposedAction) : Type 0 where
  pub consented : ctx.consent.status ≡ granted
  pub delivering : ctx.delivery_lockout ≡ false
  pub below_cap : ctx.follow_ups_sent_in_window < ctx.follow_up_cap
  pub some_text : reply_of p ≢ []
  pub backed : ClaimsBacked claim_patterns ctx p

module _ (local_hour : String → ℕ → ℕ) (ctx : PolicyContext) (p : ProposedAction) where
  -- The time slot that an allowed reply gets.
  abbrev pub slot : Schedule
  slot = if is_within_quiet_hours local_hour ctx.now ctx.quiet_hours then send_now else next_window

  reply_iff :
      (reply : Text) (v : Option Schedule)
      → (evaluate_reply local_hour ctx p reply ≡ allowed v) ↔ (
          (reply ≢ [])
          × All
              (λ c. Occurs c.pattern none reply → Backed p ctx.approved_knowledge c.requires)
              claim_patterns
          × (v ≡ some slot))
  unfolding evaluate_reply
  reply_iff [] v = (λ e. cc, λ h. absurd (h.0 refl))
  reply_iff (c ∷ s) v =
      elim (Option-cases
        (check_claims claim_patterns (c ∷ s) p.knowledge_refs ctx.approved_knowledge)) [
          | inl e ↦
              rw (e, evaluate_reply)
                (
                  λ h. (
                    λ x. cc,
                    (check_claims_iff claim_patterns (c ∷ s) p.knowledge_refs
                          ctx.approved_knowledge).0
                        e,
                    cc,
                  ),
                  λ h. rw h.2 refl,
                )
          | inr (w, e) ↦
              let (why, r) =
                check_claims_code claim_patterns (c ∷ s) p.knowledge_refs ctx.approved_knowledge
                  e in
              rw (e, r, evaluate_reply)
                (
                  λ h. cc,
                  λ h. cc (
                      (check_claims_iff claim_patterns (c ∷ s) p.knowledge_refs
                          ctx.approved_knowledge).1
                        h.1),
                )
        ]

  -- The gate as a specification: which proposals may go out, and when.
  abbrev pub MayGoOut : Option Schedule → Type 0
  MayGoOut v =
      (allowlisted p ≡ true)
      × (ctx.is_suppressed ≡ false)
      × (if is_send p then Clears ctx p × (v ≡ some slot) else v ≡ none)

  -- A proposal is allowed exactly if its action is on the allowlist, the lead is not suppressed and,
  -- for the two sending actions, consent is granted, the channel is not locked out, the cap is not
  -- reached, the trimmed reply is not empty and every claim that one of the patterns finds in it is
  -- backed by a cited, approved entry of the type that the claim requires. A sending action goes out
  -- now within the sending hours and in the next window outside them; others carry no schedule.
  pub allowed_iff :
      (v : Option Schedule) → (evaluate_policy local_hour ctx p ≡ allowed v) ↔ MayGoOut v
  unfolding evaluate_policy
  allowed_iff v = ground (arith, reply_iff (reply_of p) v)

-- The code of the first check that fails, in the order in which they are listed.
abbrev pub first_failure : List (Bool × GateRejectCode) → Option GateRejectCode
first_failure [] = none
first_failure ((failed, code) ∷ cs) = if failed then some code else first_failure cs

abbrev pub code_of : GateVerdict → Option GateRejectCode
code_of (allowed v) = none
code_of (rejected code why) = some code

abbrev is_blank : Text → Bool
is_blank [] = true
is_blank (c ∷ s) = false

abbrev unbacked : List ClaimPattern → PolicyContext → ProposedAction → Bool
unbacked [] ctx p = false
unbacked (c ∷ cs) ctx p =
    (test c.pattern (reply_of p)
      && not (has_knowledge_of_type p.knowledge_refs ctx.approved_knowledge c.requires))
    || unbacked cs ctx p

-- The checks in the order of the gate's comments; all but the first two are for sending actions.
abbrev pub checks : PolicyContext → ProposedAction → List (Bool × GateRejectCode)
checks ctx p =
    (not (allowlisted p), action_not_allowlisted)
    ∷ (ctx.is_suppressed, suppressed)
    ∷ (is_send p && not (is_granted ctx.consent.status), no_consent)
    ∷ (is_send p && ctx.delivery_lockout, delivery_lockout)
    ∷ (is_send p && leb ctx.follow_up_cap ctx.follow_ups_sent_in_window, follow_up_cap)
    ∷ (is_send p && is_blank (reply_of p), empty_reply)
    ∷ (is_send p && unbacked claim_patterns ctx p, unverified_claim)
    ∷ []

unbacked_lem :
    (cs : List ClaimPattern) (ctx : PolicyContext) (p : ProposedAction)
    → (if unbacked cs ctx p then some unverified_claim else none)
      ≡ elim (check_claims cs (reply_of p) p.knowledge_refs ctx.approved_knowledge) [
        | none ↦ none
        | some v ↦ code_of v
      ]
unfolding check_claims
unbacked_lem [] ctx p = refl
unbacked_lem (c ∷ cs) ctx p = ground (arith, unbacked_lem cs ctx p)

module _ (local_hour : String → ℕ → ℕ) (ctx : PolicyContext) (p : ProposedAction) where
  reply_code :
      (reply : Text)
      → reply ≡ reply_of p
      → code_of (evaluate_reply local_hour ctx p reply) ≡ (
          if is_blank reply
          then some empty_reply
          else if unbacked claim_patterns ctx p
          then some unverified_claim
          else none)
  unfolding evaluate_reply
  reply_code [] e = refl
  reply_code (c ∷ s) e =
      elim (Option-cases
        (check_claims claim_patterns (c ∷ s) p.knowledge_refs ctx.approved_knowledge)) [
          | inl x ↦ ground (arith, unbacked_lem claim_patterns ctx p)
          | inr (v, x) ↦ ground (
            arith,
            unbacked_lem claim_patterns ctx p,
            check_claims_code claim_patterns (c ∷ s) p.knowledge_refs ctx.approved_knowledge x,
          )
        ]

  -- The gate rejects with the code of the first check that fails, in the order of `checks`, and
  -- allows the proposal if none fails.
  pub first_failure_wins : code_of (evaluate_policy local_hour ctx p) ≡ first_failure (checks ctx p)
  unfolding evaluate_policy
  first_failure_wins = ground (arith, reply_code (reply_of p) refl)
