-- ===== src/Worker/Messaging/Consent.antt =====
-- The consent that currentConsent of apps/worker/src/messaging.ts reads.
use insurnace_automations.Base.{
  ℕ, Bool, true, ◌&&◌, List, [], ◌∷◌, ◌++◌, filter, ◌==◌, ==_iff, ◌≡◌, refl, Bool-cases, inl, inr,
}
use insurnace_automations.Core.Types.{sms, channel_eq}
use insurnace_automations.Worker.Store.{ConsentRecord, Db}
use insurnace_automations.Worker.Messaging.{last_status, current_consent}

-- The last consent record decides.
last_status-append :
    (cs : List ConsentRecord) (c : ConsentRecord) → last_status (cs ++ c ∷ []) ≡ c.status
unfolding last_status
last_status-append [] c = refl
last_status-append (a ∷ []) c = refl
last_status-append (a ∷ b ∷ cs) c = last_status-append (b ∷ cs) c

filtered_last :
    (p : ConsentRecord → Bool) (cs : List ConsentRecord) (c : ConsentRecord)
    → p c ≡ true
    → (us : List ConsentRecord) × (filter p (cs ++ c ∷ []) ≡ us ++ c ∷ [])
filtered_last p [] c e = ([], rw e refl)
filtered_last p (a ∷ cs) c e =
    let (us, h) = filtered_last p cs c e in
    elim (Bool-cases (p a)) [ inl x ↦ (a ∷ us, rw (x, h) refl) | inr x ↦ (us, rw (x, h) refl) ]

pub current_consent-append :
    (id : ℕ) (d : Db) (cs : List ConsentRecord) (c : ConsentRecord)
    → c.lead_id ≡ id
    → c.channel ≡ sms
    → d.consents ≡ cs ++ c ∷ []
    → current_consent id sms d ≡ c.status
unfolding current_consent
current_consent-append id d cs c same on_sms e =
    let (us, h) =
      filtered_last (λ r. (r.lead_id == id) && channel_eq r.channel sms) cs c
        (rw ((==_iff c.lead_id id).1 same, on_sms) refl) in
    rw (e, h) (last_status-append us c)
