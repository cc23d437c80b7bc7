-- ===== src/Core/Policy.antt =====
-- packages/core/src/policy-gate.ts: the deterministic gate that every outbound action passes.
pub mod Patterns
pub mod Laws
use insurnace_automations.Base.{
  ℕ, String, Bool, true, false, not, ◌&&◌, ◌||◌, Option, none, some, List, [], ◌∷◌, any, get_or,
  Text, trim, ◌+++◌, if◌then◌else◌, ltb, leb, ◌==◌, ◌%◌, str_eq,
}
use insurnace_automations.Base.Show.{show_ℕ}
use insurnace_automations.Core.Types.{
  Channel, channel_name, ConsentStatus, granted, ConsentSnapshot,
}
use insurnace_automations.Regex.{Regex, test}
use Patterns.{pricing_pattern, discount_pattern, guarantee_pattern, financing_pattern}

-- ALLOWED_ACTIONS
unfoldable pub allowed_actions : List String
allowed_actions = "send_reply" ∷ "offer_slots" ∷ "alert_rep" ∷ "create_task" ∷ "update_facts" ∷ []

pub record QuietHours : Type 0 where
  pub start_hour : ℕ
  pub end_hour : ℕ
  pub timezone : String

pub data KnowledgeType : Type 0 where
  service service_area hours pricing_guidance financing warranty : KnowledgeType
  faq exclusion escalation_rule promotion : KnowledgeType

abbrev pub knowledge_name : KnowledgeType → String
knowledge_name service = "service"
knowledge_name service_area = "service_area"
knowledge_name hours = "hours"
knowledge_name pricing_guidance = "pricing_guidance"
knowledge_name financing = "financing"
knowledge_name warranty = "warranty"
knowledge_name faq = "faq"
knowledge_name exclusion = "exclusion"
knowledge_name escalation_rule = "escalation_rule"
knowledge_name promotion = "promotion"

abbrev pub knowledge_index : KnowledgeType → ℕ
knowledge_index service = 0
knowledge_index service_area = 1
knowledge_index hours = 2
knowledge_index pricing_guidance = 3
knowledge_index financing = 4
knowledge_index warranty = 5
knowledge_index faq = 6
knowledge_index exclusion = 7
knowledge_index escalation_rule = 8
knowledge_index promotion = 9

pub record KnowledgeRef : Type 0 where
  pub id : String
  pub type : KnowledgeType

pub record PolicyContext : Type 0 where
  pub channel : Channel
  pub consent : ConsentSnapshot
  pub is_suppressed : Bool
  pub quiet_hours : QuietHours
  pub now : ℕ  -- clock.now(), in milliseconds
  pub follow_ups_sent_in_window : ℕ
  pub follow_up_cap : ℕ
  pub delivery_lockout : Bool
  pub approved_knowledge : List KnowledgeRef

pub record ProposedAction : Type 0 where
  pub action : String
  pub reply_text : Option Text
  pub knowledge_refs : Option (List String)

pub data GateRejectCode : Type 0 where
  action_not_allowlisted no_consent suppressed delivery_lockout : GateRejectCode
  follow_up_cap unverified_claim empty_reply : GateRejectCode

pub data Schedule : Type 0 where
  send_now next_window : Schedule

pub data GateVerdict : Type 0 where
  allowed : Option Schedule → GateVerdict
  rejected : GateRejectCode → String → GateVerdict

-- CLAIM_PATTERNS
pub record ClaimPattern : Type 0 where
  pub pattern : Regex
  pub requires : KnowledgeType

unfoldable pub claim_patterns : List ClaimPattern
unfolding pricing_pattern discount_pattern guarantee_pattern financing_pattern
claim_patterns =
    record { pattern = pricing_pattern; requires = pricing_guidance }
    ∷ record { pattern = discount_pattern; requires = promotion }
    ∷ record { pattern = guarantee_pattern; requires = warranty }
    ∷ record { pattern = financing_pattern; requires = financing }
    ∷ []

-- `new Map(approved.map((k) => [k.id, k])).get(id)`: of two entries with one id the last stays.
pub knowledge_by_id : List KnowledgeRef → String → Option KnowledgeRef
knowledge_by_id [] id = none
knowledge_by_id (k ∷ ks) id = elim (knowledge_by_id ks id) [
  | some found ↦ some found
  | none ↦ if str_eq k.id id then some k else none
]

abbrev pub type_is : Option KnowledgeRef → KnowledgeType → Bool
type_is none type = false
type_is (some k) type = knowledge_index k.type == knowledge_index type

unfoldable pub has_knowledge_of_type :
    Option (List String) → List KnowledgeRef → KnowledgeType → Bool
unfolding knowledge_by_id
has_knowledge_of_type none approved type = false
has_knowledge_of_type (some refs) approved type =
    any (λ id. type_is (knowledge_by_id approved id) type) refs

-- The loop over CLAIM_PATTERNS: the verdict of the first claim that is not backed.
unfoldable pub check_claims :
    List ClaimPattern → Text → Option (List String) → List KnowledgeRef → Option GateVerdict
check_claims [] reply refs approved = none
check_claims (c ∷ cs) reply refs approved =
    let rest = check_claims cs reply refs approved in
    if test c.pattern reply
    then (if has_knowledge_of_type refs approved c.requires
        then rest
        else some (
            rejected unverified_claim (
              "reply makes a '"
              +++ knowledge_name c.requires
              +++ "' claim not backed by approved knowledge")))
    else rest

-- `consent.status === "granted"`
abbrev pub is_granted : ConsentStatus → Bool
is_granted granted = true
is_granted _ = false

-- `Intl.DateTimeFormat` is given as `local_hour timezone instant`, the hour that it prints.
module _ (local_hour : String → ℕ → ℕ) where
  unfoldable pub is_within_quiet_hours : ℕ → QuietHours → Bool
  is_within_quiet_hours now qh =
      let hour = local_hour qh.timezone now % 24 in leb qh.start_hour hour && ltb hour qh.end_hour

  -- What follows the checks on the context: the reply's text and the time of day.
  unfoldable pub evaluate_reply : PolicyContext → ProposedAction → Text → GateVerdict
  evaluate_reply ctx proposed [] = rejected empty_reply "reply is empty"
  evaluate_reply ctx proposed (c ∷ s) =
      elim (check_claims claim_patterns (c ∷ s) proposed.knowledge_refs ctx.approved_knowledge) [
        | some verdict ↦ verdict
        | none ↦
            allowed (
              some
                (if is_within_quiet_hours ctx.now ctx.quiet_hours then send_now else next_window))
      ]

  unfoldable pub evaluate_policy : PolicyContext → ProposedAction → GateVerdict
  unfolding evaluate_reply
  evaluate_policy ctx proposed =
      if not (any (str_eq proposed.action) allowed_actions)
      then rejected action_not_allowlisted
          ("action '" +++ proposed.action +++ "' is not on the allowlist")
      else let is_send =
          str_eq proposed.action "send_reply" || str_eq proposed.action "offer_slots" in
        if ctx.is_suppressed
        then rejected suppressed "lead is suppressed"
        else if not is_send
        then allowed none
        else if not (is_granted ctx.consent.status)
        then rejected no_consent
            ("no granted consent for channel '" +++ channel_name ctx.channel +++ "'")
        else if ctx.delivery_lockout
        then rejected delivery_lockout "channel is in delivery-failure lockout"
        else if leb ctx.follow_up_cap ctx.follow_ups_sent_in_window
        then rejected follow_up_cap ("follow-up cap (" +++ show_ℕ ctx.follow_up_cap +++ ") reached")
        else evaluate_reply ctx proposed (trim (get_or proposed.reply_text []))
