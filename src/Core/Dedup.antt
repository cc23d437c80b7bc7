-- ===== src/Core/Dedup.antt =====
-- packages/core/src/dedup.ts: what an incoming lead does to the leads that match its identity.
pub mod Laws
use insurnace_automations.Base.{
  ℕ, String, Bool, true, false, ◌&&◌, ◌||◌, Option, none, some, List, [], ◌∷◌, map, any, filter,
  if◌then◌else◌, str_eq, ◌+++◌,
}
use insurnace_automations.Core.Types.{
  LeadState, received, processing, new, contacted, engaged, qualifying, qualified,
  appointment_offered, booked, human_owned, nurture, unqualified, lost, archived, state_name,
}
use insurnace_automations.Core.StateMachine.{has}

-- A record of strings: its entries in order, each key once.
abbrev pub Entries : Type 0
Entries = List (String × String)

-- The database holds only the names of lead states in `state`. `createdAt` is not read.
pub record DedupCandidate : Type 0 where
  pub lead_id : ℕ
  pub phone_e164 : Option String
  pub email_normalized : Option String
  pub external_ids : Entries
  pub state : LeadState

pub record DedupInput : Type 0 where
  pub phone_e164 : Option String
  pub email_normalized : Option String
  pub external_ids : Entries
  pub is_existing_customer : Bool

pub data DedupOutcome : Type 0 where
  create : DedupOutcome
  merge : ℕ → String → DedupOutcome
  reopen : ℕ → String → DedupOutcome
  attach_to_customer : ℕ → String → DedupOutcome
  flag_for_review : List ℕ → String → DedupOutcome

-- OPEN_STATES and CLOSED_REOPENABLE
unfoldable pub open_states : List LeadState
open_states =
    received ∷ processing ∷ new ∷ contacted ∷ engaged ∷ qualifying ∷ qualified ∷ appointment_offered
    ∷ booked ∷ human_owned ∷ nurture ∷ []

unfoldable pub closed_reopenable : List LeadState
closed_reopenable = unqualified ∷ lost ∷ archived ∷ []

-- `input && c === input`: neither absent nor empty, and the same.
abbrev pub same_text : Option String → Option String → Bool
same_text none theirs = false
same_text (some mine) none = false
same_text (some mine) (some theirs) = if str_eq mine "" then false else str_eq theirs mine

abbrev pub lookup : String → Entries → Option String
lookup k [] = none
lookup k ((j, v) ∷ es) = let rest = lookup k es in if str_eq j k then some v else rest

unfoldable pub matches : DedupInput → DedupCandidate → Bool
matches input c =
    same_text input.phone_e164 c.phone_e164
    || same_text input.email_normalized c.email_normalized
    || any (λ e. same_text (lookup e.0 c.external_ids) (some e.1)) input.external_ids

-- The decision on the one lead that is left.
unfoldable pub conclude : DedupInput → DedupCandidate → DedupOutcome
unfolding open_states closed_reopenable
conclude input primary =
    if input.is_existing_customer
    then attach_to_customer primary.lead_id "matched an existing customer identity"
    else if has open_states primary.state
    then merge primary.lead_id "merged into an existing open lead"
    else if has closed_reopenable primary.state
    then reopen primary.lead_id "reopened a previously closed lead"
    else flag_for_review (primary.lead_id ∷ [])
        ("matched a lead in terminal state '" +++ state_name primary.state +++ "'")

-- The decision on the matched leads and the open ones among them.
unfoldable pub decide_matched :
    DedupInput → List DedupCandidate → List DedupCandidate → DedupOutcome
unfolding conclude
decide_matched input [] open_matches = create
decide_matched input (m ∷ ms) [] = conclude input m
decide_matched input (m ∷ ms) (o ∷ []) = conclude input o
decide_matched input (m ∷ ms) (o ∷ p ∷ os) =
    flag_for_review (map (λ c. c.lead_id) (o ∷ p ∷ os)) "multiple open leads match this identity"

unfoldable pub resolve_duplicate : DedupInput → List DedupCandidate → DedupOutcome
unfolding decide_matched matches
resolve_duplicate input candidates =
    let matched = filter (matches input) candidates in
    decide_matched input matched (filter (λ c. has open_states c.state) matched)
