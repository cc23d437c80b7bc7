-- ===== src/Core/Types.antt =====
-- packages/core/src/types.ts: the lead's lifecycle states, score bands, channels and consent.
use insurnace_automations.Base.{ℕ, String, Bool, none, some, ◌≡◌, refl, ap, sym, ◌∙◌}
use insurnace_automations.Base.{◌↔◌, ◌==◌, ==_iff, [], ◌∷◌, get_elem?, true, false}

pub data LeadState : Type 0 where
  received processing new contacted engaged qualifying qualified appointment_offered : LeadState
  booked human_owned nurture unqualified opted_out won lost archived : LeadState

-- The string that stands for a state.
abbrev pub state_name : LeadState → String
state_name received = "received"
state_name processing = "processing"
state_name new = "new"
state_name contacted = "contacted"
state_name engaged = "engaged"
state_name qualifying = "qualifying"
state_name qualified = "qualified"
state_name appointment_offered = "appointment_offered"
state_name booked = "booked"
state_name human_owned = "human_owned"
state_name nurture = "nurture"
state_name unqualified = "unqualified"
state_name opted_out = "opted_out"
state_name won = "won"
state_name lost = "lost"
state_name archived = "archived"

-- The place of a state in the enumeration, by which states are compared.
abbrev pub state_index : LeadState → ℕ
state_index received = 0
state_index processing = 1
state_index new = 2
state_index contacted = 3
state_index engaged = 4
state_index qualifying = 5
state_index qualified = 6
state_index appointment_offered = 7
state_index booked = 8
state_index human_owned = 9
state_index nurture = 10
state_index unqualified = 11
state_index opted_out = 12
state_index won = 13
state_index lost = 14
state_index archived = 15

-- `a === b` on states
abbrev pub state_eq : LeadState → LeadState → Bool
state_eq a b = state_index a == state_index b

abbrev state_at : ℕ → LeadState
state_at n =
    elim (get_elem?
      (received ∷ processing ∷ new ∷ contacted ∷ engaged ∷ qualifying ∷ qualified
        ∷ appointment_offered ∷ booked ∷ human_owned ∷ nurture ∷ unqualified ∷ opted_out ∷ won
        ∷ lost ∷ archived ∷ [])
      n) [ none ↦ received | some s ↦ s ]

state_at-state_index : (s : LeadState) → state_at (state_index s) ≡ s
state_at-state_index received = refl
state_at-state_index _ = refl

pub state_eq_iff : (a b : LeadState) → (state_eq a b ≡ true) ↔ (a ≡ b)
state_eq_iff a b = (
  λ h. sym (state_at-state_index a) ∙ ap state_at ((==_iff _ _).0 h) ∙ state_at-state_index b,
  λ h. (==_iff _ _).1 (ap state_index h),
)

pub data ScoreBand : Type 0 where
  hot qualified nurture unqualified : ScoreBand

pub data Channel : Type 0 where
  sms email whatsapp voice : Channel

abbrev pub channel_name : Channel → String
channel_name sms = "sms"
channel_name email = "email"
channel_name whatsapp = "whatsapp"
channel_name voice = "voice"

abbrev pub channel_eq : Channel → Channel → Bool
channel_eq sms sms = true
channel_eq email email = true
channel_eq whatsapp whatsapp = true
channel_eq voice voice = true
channel_eq _ _ = false

pub data ConsentStatus : Type 0 where
  granted revoked unknown : ConsentStatus

pub record ConsentSnapshot : Type 0 where
  pub channel : Channel
  pub status : ConsentStatus
