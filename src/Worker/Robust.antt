-- ===== src/Worker/Robust.antt =====
-- Properties of the tables that the processors of apps/worker keep: those that hold whatever moves a lead
-- makes, when a conversation is opened or paused, a contact suppressed, a waiting message voided, and a
-- message written to no one or to a contact that is not suppressed.
pub mod Message
pub mod Compose
pub mod Engine
pub mod Steps
pub mod Shut
pub mod Held
use insurnace_automations.Base.{
  ℕ, String, Bool, true, false, Option, none, some, Option-cases, inl, inr, List, [], ◌∷◌, ◌++◌,
  any, update_where, ◌≡◌, refl, str_eq, ◌==◌, if◌then◌else◌, arith,
}
use insurnace_automations.Core.Types.{LeadState}
use insurnace_automations.Worker.Store.{
  Lead, Conversation, SuppressionEntry, Outbox, OutboxStatus, Db, World, Outcome, ok, error, settle,
  conversation_of, ensure_conversation,
}
use insurnace_automations.Worker.Messaging.{is_suppressed}
use insurnace_automations.Worker.Inbound.{move_unless}
use insurnace_automations.Worker.Outcomes.{Ends, move_unless-Ends, world_of}

-- The contact is empty or in the list.
abbrev pub is_shut : String → List SuppressionEntry → Bool
is_shut contact ss = if str_eq contact "" then true else any (λ s. str_eq s.value contact) ss

-- The recipient is no one, or a contact that is not shut.
abbrev pub Clear : Option String → List SuppressionEntry → Type 0
Clear none ss = Unit {0}
Clear (some contact) ss = is_shut contact ss ≡ false

abbrev pub Tables : Type 1
Tables = List Lead → List Conversation → List SuppressionEntry → List Outbox → Type 0

pub record Robust (P : Tables) : Type 0 where
  pub moves :
      (ls : List Lead) (cs : List Conversation) (ss : List SuppressionEntry) (os : List Outbox)
      (q : Lead → Bool) (f : Lead → Lead)
      → ((l : Lead) → (f l).id ≡ l.id)
      → P ls cs ss os
      → P (update_where q f ls) cs ss os
  pub opens :
      (ls : List Lead) (cs : List Conversation) (ss : List SuppressionEntry) (os : List Outbox)
      (c : Conversation)
      → P ls cs ss os
      → P ls (cs ++ c ∷ []) ss os
  pub pauses :
      (ls : List Lead) (cs : List Conversation) (ss : List SuppressionEntry) (os : List Outbox)
      (id : ℕ)
      → P ls cs ss os
      → P ls (update_where (λ c. c.id == id) (λ c. record c { ai_paused = true }) cs) ss os
  pub suppresses :
      (ls : List Lead) (cs : List Conversation) (ss : List SuppressionEntry) (os : List Outbox)
      (s : SuppressionEntry)
      → P ls cs ss os
      → P ls cs (ss ++ s ∷ []) os
  pub voids :
      (ls : List Lead) (cs : List Conversation) (ss : List SuppressionEntry) (os : List Outbox)
      (q : Outbox → Bool)
      → P ls cs ss os
      → P ls cs ss (update_where q (λ o. record o { status = OutboxStatus.failed }) os)
  pub mails :
      (ls : List Lead) (cs : List Conversation) (ss : List SuppressionEntry) (os : List Outbox)
      (o : Outbox)
      → Clear o.payload.to ss
      → P ls cs ss os
      → P ls cs ss (os ++ o ∷ [])

pub unsuppressed-Clear :
    (to : Option String) (d : Db) → is_suppressed to d ≡ false → Clear to d.suppressions
unfolding is_suppressed
unsuppressed-Clear none d e = cc
unsuppressed-Clear (some contact) d e = e

module _ (P : Tables) where
  abbrev pub Holds : Db → Type 0
  Holds d = P d.leads d.conversations d.suppressions d.outbox

  abbrev pub HoldsAt : World → Type 0
  HoldsAt w = Holds w.db

  pub either-Holds : (b : Bool) (d d' : Db) → Holds d → Holds d' → Holds (if b then d else d')
  either-Holds true d d' h k = h
  either-Holds false d d' h k = k

  -- A transaction that throws is undone.
  pub settle-Holds :
      {A : Type 0} (d : Db) (o : Outcome A)
      → Holds d
      → Ends HoldsAt o
      → HoldsAt (world_of (settle d o))
  unfolding settle
  settle-Holds d (ok r w) h k = k
  settle-Holds d (error e w) h k = h

module _ (P : Tables) (robust : Robust P) where
  pub update-Holds :
      (q : Lead → Bool) (f : Lead → Lead) (d : Db)
      → ((l : Lead) → (f l).id ≡ l.id)
      → Holds P d
      → Holds P (record d { leads = update_where q f d.leads })
  update-Holds q f d same h =
      robust.moves d.leads d.conversations d.suppressions d.outbox q f same h

  pub ensure-Holds : (lead_id : ℕ) (d : Db) → Holds P d → Holds P (ensure_conversation lead_id d).1
  unfolding ensure_conversation
  ensure-Holds lead_id d h = elim (Option-cases (conversation_of lead_id d)) [
    | inr (c, e) ↦ rw (e, ensure_conversation) h
    | inl e ↦
        rw (e, ensure_conversation)
          (robust.opens d.leads d.conversations d.suppressions d.outbox _ h)
  ]

  -- A move that the state machine allows.
  pub move-Holds :
      {A : Type 0} (o : Option String) (a : A) (lead_id : ℕ) (to : LeadState) (w : World)
      → HoldsAt P w
      → Ends (HoldsAt P) (move_unless o a lead_id to w)
  move-Holds o a lead_id to w h =
      move_unless-Ends (HoldsAt P) o a lead_id to w
        (update-Holds (λ l. l.id == lead_id) (λ l. record l { state = to }) w.db (λ l. refl) h)
