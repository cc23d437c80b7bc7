-- ===== src/Worker/Inbound/OptOut/Tables.antt =====
-- The updates of an opt-out on the single tables: messages, consents, suppressions.
use insurnace_automations.Base.{
  ℕ, String, Bool, true, false, not, ◌&&◌, ◌||◌, Option, none, some, List, [], ◌∷◌, ◌++◌, any,
  filter, update_where, All, ◌≡◌, refl, str_eq, eq_iff, ◌==◌, arith, if◌then◌else◌, Bool-cases, inl,
  inr,
}
use insurnace_automations.Core.Types.{sms, channel_eq, ConsentStatus}
use insurnace_automations.Worker.Store.{Conversation, Message, failed, SuppressionEntry, Db}
use insurnace_automations.Worker.Messaging.{current_consent, is_suppressed}
use insurnace_automations.Worker.Messaging.Consent.{current_consent-append}
use insurnace_automations.Worker.Inbound.{
  is_queued, void_message, void_all, pending_in, cancel_pending, revoke_consent, suppress,
}

-- A message of the conversation that waits to be sent.
abbrev pub waits : ℕ → Message → Bool
waits c m = (m.conversation_id == c) && is_queued m.status

abbrev covered : ℕ → List Message → Message → Bool
covered c ms m = not (waits c m) || any (λ n. m.id == n.id) ms

covered_after :
    (c : ℕ) (n : Message) (ns : List Message) (m : Message)
    → covered c (n ∷ ns) m ≡ true
    → covered c ns (if m.id == n.id then record m { status = failed } else m) ≡ true
covered_after c n ns m h = ground arith

void_covered :
    (c : ℕ) (n : Message) (ns ms : List Message)
    → All (λ m. covered c (n ∷ ns) m ≡ true) ms
    → All
        (λ m. covered c ns m ≡ true)
        (update_where (λ m. m.id == n.id) (λ m. record m { status = failed }) ms)
void_covered c n ns [] h = h
void_covered c n ns (m ∷ ms) h = (covered_after c n ns m h.0, void_covered c n ns ms h.1)

uncovered :
    (c : ℕ) (ms : List Message)
    → All (λ m. covered c [] m ≡ true) ms
    → All (λ m. waits c m ≡ false) ms
uncovered c [] h = h
uncovered c (m ∷ ms) h = (ground (arith, h.0), uncovered c ms h.1)

void_all-covered :
    (c : ℕ) (ns : List Message) (d : Db)
    → All (λ m. covered c ns m ≡ true) d.messages
    → All (λ m. waits c m ≡ false) (void_all ns d).messages
unfolding void_all
void_all-covered c [] d h = uncovered c d.messages h
void_all-covered c (n ∷ ns) d h =
    void_all-covered c ns (void_message n.id d) (void_covered c n ns d.messages h)

covers_more :
    (c : ℕ) (n : Message) (ns ms : List Message)
    → All (λ m. covered c ns m ≡ true) ms
    → All (λ m. covered c (n ∷ ns) m ≡ true) ms
covers_more c n ns [] h = h
covers_more c n ns (m ∷ ms) h = (ground (arith, h.0), covers_more c n ns ms h.1)

by_waits :
    (c : ℕ) (m : Message) (ns ms : List Message) (b : Bool)
    → waits c m ≡ b
    → All (λ x. covered c ns x ≡ true) ms
    → All (λ x. covered c (if b then m ∷ ns else ns) x ≡ true) (m ∷ ms)
by_waits c m ns ms true e h = (ground arith, covers_more c m ns ms h)
by_waits c m ns ms false e h = (ground arith, h)

waiting_covered :
    (c : ℕ) (ms : List Message) → All (λ m. covered c (filter (waits c) ms) m ≡ true) ms
waiting_covered c [] = ground arith
waiting_covered c (m ∷ ms) = by_waits c m _ ms _ refl (waiting_covered c ms)

-- Nothing in the conversation waits after the cancellation.
pub cancel-waits :
    (c : Conversation) (d : Db)
    → All (λ m. waits c.id m ≡ false) (cancel_pending (some c) d).messages
unfolding cancel_pending
cancel-waits c d = void_all-covered c.id _ d (waiting_covered c.id d.messages)

-- The tables that the cancellation leaves alone.
abbrev pub SameOthers : Db → Db → Type 0
SameOthers d d' =
    (d'.conversations ≡ d.conversations)
    × (d'.consents ≡ d.consents)
    × (d'.suppressions ≡ d.suppressions)

void_all_keeps : (ms : List Message) (d : Db) → SameOthers d (void_all ms d)
unfolding void_all
void_all_keeps [] d = (refl, refl, refl)
void_all_keeps (m ∷ ms) d = void_all_keeps ms (void_message m.id d)

pub cancel_keeps : (c : Option Conversation) (d : Db) → SameOthers d (cancel_pending c d)
unfolding cancel_pending
cancel_keeps none d = (refl, refl, refl)
cancel_keeps (some c) d = void_all_keeps (pending_in c.id d) d

pub consent-revoked :
    (id : ℕ) (d d' : Db)
    → d'.consents ≡ (revoke_consent id d).consents
    → current_consent id sms d' ≡ ConsentStatus.revoked
consent-revoked id d d' e =
    current_consent-append id d' d.consents
      (record { lead_id = id; channel = sms; status = ConsentStatus.revoked }) refl refl e

any-append :
    (p q : SuppressionEntry → Bool) (xs : List SuppressionEntry) (x : SuppressionEntry)
    → p x ≡ true
    → any p (xs ++ x ∷ []) ≡ true
any-append p q [] x e = rw e refl
any-append p q (y ∷ xs) x e = ground (arith, any-append p q xs x e)

any-weaken :
    (phone : String) (xs : List SuppressionEntry)
    → any (λ s. channel_eq s.channel sms && str_eq s.value phone) xs ≡ true
    → any (λ s. str_eq s.value phone) xs ≡ true
any-weaken phone [] e = e
any-weaken phone (y ∷ xs) e = ground (arith, any-weaken phone xs)

pub suppress_keeps :
    (phone : String) (d : Db)
    → ((suppress phone d).consents ≡ d.consents)
      × ((suppress phone d).conversations ≡ d.conversations)
unfolding suppress
suppress_keeps phone d = ground arith

listed :
    (phone : String) (d : Db)
    → any (λ s. str_eq s.value phone) (suppress phone d).suppressions ≡ true
unfolding suppress
listed phone d =
    elim (Bool-cases (any (λ s. channel_eq s.channel sms && str_eq s.value phone) d.suppressions)) [
      | inl e ↦ rw (e, suppress) (any-weaken phone d.suppressions e)
      | inr e ↦
          rw (e, suppress)
            (any-append (λ s. str_eq s.value phone) (λ s. true) d.suppressions _
              ((eq_iff phone phone).1 refl))
    ]

pub phone-suppressed :
    (phone : String) (d d' : Db)
    → d'.suppressions ≡ (suppress phone d).suppressions
    → is_suppressed (some phone) d' ≡ true
unfolding is_suppressed
phone-suppressed phone d d' e = rw (e, listed phone d) (ground arith)
