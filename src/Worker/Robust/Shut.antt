-- ===== src/Worker/Robust/Shut.antt =====
-- A number that is suppressed, through the steps of apps/worker.
use insurnace_automations.Base.{
  ℕ, Bool, true, false, String, Text, Option, none, some, List, [], ◌∷◌, ◌++◌, map, filter, any,
  update_where, ◌≡◌, refl, ◌∙◌, str_eq, eq_iff, Bool-cases, inl, inr, if◌then◌else◌, arith, ap, sym,
  subst,
}
use insurnace_automations.Core.Types.{LeadState}
use insurnace_automations.Core.StateMachine.{assert_transition}
use insurnace_automations.Core.OptOut.{detect_opt_out}
use insurnace_automations.Core.Policy.{suppressed}
use insurnace_automations.Worker.Store.{
  Lead, SendPayload, SuppressionEntry, Outbox, OutboxStatus, Db, World, ok, emit_event, lead_with,
}
use insurnace_automations.Worker.Messaging.{
  is_suppressed, ComposeArgs, blocked, contact_for, compose_and_enqueue,
}
use insurnace_automations.Worker.Messaging.Laws.{suppressed_is_blocked}
use insurnace_automations.Worker.Inbound.{lead_of_phone, process_inbound}
use insurnace_automations.Worker.Inbound.OptOut.{opt_out-Closed}
use insurnace_automations.Worker.Outcomes.{world_of}
use insurnace_automations.Worker.Robust.{is_shut, Clear, Tables, Robust, HoldsAt}
use insurnace_automations.Worker.Robust.Steps.{Steps, Steps-HoldsAt}

abbrev pub addressed : String → Outbox → Bool
addressed phone o = elim o.payload.to [ none ↦ false | some to ↦ str_eq to phone ]

-- What the outbox has for a number.
abbrev pub mail_to : String → List Outbox → List SendPayload
mail_to phone os = map (λ o. o.payload) (filter (addressed phone) os)

-- The number is shut, and the outbox has this for it.
abbrev pub Shut : String → List SendPayload → Tables
Shut phone sent ls cs ss os = (is_shut phone ss ≡ true) × (mail_to phone os ≡ sent)

listed_more :
    (phone : String) (ss : List SuppressionEntry) (s : SuppressionEntry)
    → any (λ x. str_eq x.value phone) ss ≡ true
    → any (λ x. str_eq x.value phone) (ss ++ s ∷ []) ≡ true
listed_more phone [] s e = cc
listed_more phone (x ∷ ss) s e = ground (arith, listed_more phone ss s)

shut_more :
    (phone : String) (ss : List SuppressionEntry) (s : SuppressionEntry)
    → is_shut phone ss ≡ true
    → is_shut phone (ss ++ s ∷ []) ≡ true
shut_more phone ss s e = elim (Bool-cases (str_eq phone "")) [
  | inl empty ↦ rw empty refl
  | inr some_text ↦ rw some_text (listed_more phone ss s (rw some_text at e))
]

Clear-unaddressed :
    (phone : String) (ss : List SuppressionEntry) (o : Outbox) (to : Option String)
    → o.payload.to ≡ to
    → is_shut phone ss ≡ true
    → Clear to ss
    → addressed phone o ≡ false
Clear-unaddressed phone ss o none e shut clear = rw e refl
Clear-unaddressed phone ss o (some contact) e shut clear =
    elim (Bool-cases (str_eq contact phone)) [
      | inr other ↦ rw e other
      | inl same ↦
          let open_still : is_shut phone ss ≡ false =
            subst (λ t. is_shut t ss ≡ false) ((eq_iff contact phone).0 same) clear in
          cc
    ]

mail_to-append :
    (phone : String) (os : List Outbox) (o : Outbox)
    → addressed phone o ≡ false
    → mail_to phone (os ++ o ∷ []) ≡ mail_to phone os
mail_to-append phone [] o e = rw e refl
mail_to-append phone (x ∷ os) o e = elim (Bool-cases (addressed phone x)) [
  | inl hit ↦ rw hit (ap (λ ps. x.payload ∷ ps) (mail_to-append phone os o e))
  | inr miss ↦ rw miss (mail_to-append phone os o e)
]

abbrev void : Outbox → Outbox
void o = record o { status = OutboxStatus.failed }

void_head :
    (phone : String) (b : Bool) (x : Outbox) (ys zs : List Outbox)
    → mail_to phone ys ≡ mail_to phone zs
    → mail_to phone ((if b then void x else x) ∷ ys) ≡ mail_to phone (x ∷ zs)
void_head phone true x ys zs e = elim (Bool-cases (addressed phone x)) [
  | inl hit ↦ rw hit (ap (λ ps. x.payload ∷ ps) e)
  | inr miss ↦ rw miss e
]
void_head phone false x ys zs e = elim (Bool-cases (addressed phone x)) [
  | inl hit ↦ rw hit (ap (λ ps. x.payload ∷ ps) e)
  | inr miss ↦ rw miss e
]

mail_to-void :
    (phone : String) (q : Outbox → Bool) (os : List Outbox)
    → mail_to phone (update_where q void os) ≡ mail_to phone os
mail_to-void phone q [] = refl
mail_to-void phone q (x ∷ os) =
    void_head phone (q x) x (update_where q void os) os (mail_to-void phone q os)

Shut-Robust : (phone : String) (sent : List SendPayload) → Robust (Shut phone sent)
Shut-Robust phone sent = record {
  moves = λ ls cs ss os q f same h. h;
  opens = λ ls cs ss os c h. h;
  pauses = λ ls cs ss os id h. h;
  suppresses = λ ls cs ss os s h. (shut_more phone ss s h.0, h.1);
  voids = λ ls cs ss os q h. (h.0, mail_to-void phone q os ∙ h.1);
  mails = λ ls cs ss os o clear h.
      (h.0, mail_to-append phone os o (Clear-unaddressed phone ss o _ refl h.0 clear) ∙ h.1);
}

suppressed-is_shut :
    (phone : String) (ss : List SuppressionEntry) (d : Db)
    → d.suppressions ≡ ss
    → is_shut phone ss ≡ is_suppressed (some phone) d
unfolding is_suppressed
suppressed-is_shut phone ss d e = rw e refl

module _ (now : ℕ) (body : Text) (from sid : String) (w : World) (lead : Lead)
    (found : lead_of_phone from w.db ≡ some lead)
    (out : (detect_opt_out body).is_opt_out ≡ true) where
  abbrev pub out_world : World
  out_world = world_of (process_inbound now body from sid w)

  out_is_shut :
      assert_transition lead.state LeadState.opted_out ≡ none
      → HoldsAt (Shut from (mail_to from out_world.db.outbox)) out_world
  out_is_shut e =
      let (w', run, closed, jobs, sends) = opt_out-Closed now body from sid w lead found out e in
      (
        suppressed-is_shut from out_world.db.suppressions out_world.db refl ∙ rw run closed.listed,
        refl,
      )

  -- After an opt-out that its lead's state allows, and after any sequence of messages handled, runs of
  -- the conversation engine, first touches and compositions, for whatever leads, times and models: what
  -- the outbox has for the number is what it had, so no message to it has been queued, and a
  -- composition for a lead whose contact on the channel is the number is blocked as suppressed.
  pub opted_out_is_blocked :
      (digest : Text → String) (local_hour : String → ℕ → ℕ) (later : ℕ) (args : ComposeArgs)
      (reached : Lead) (w2 : World)
      → assert_transition lead.state LeadState.opted_out ≡ none
      → Steps out_world w2
      → lead_with args.lead_id w2.db ≡ some reached
      → contact_for reached args.channel ≡ some from
      → (mail_to from w2.db.outbox ≡ mail_to from out_world.db.outbox)
        × (compose_and_enqueue digest local_hour later args w2
            ≡ ok
                (blocked suppressed)
                (record w2 { db = emit_event args.lead_id "message.blocked" w2.db }))
  opted_out_is_blocked digest local_hour later args reached w2 e steps f g =
      let sent = mail_to from out_world.db.outbox in
      let (shut, same) : HoldsAt (Shut from sent) w2 =
        Steps-HoldsAt (Shut from sent) (Shut-Robust from sent) steps (out_is_shut e) in
      (
        same,
        suppressed_is_blocked digest local_hour later args reached w2 f
            (rw g (sym (suppressed-is_shut from w2.db.suppressions w2.db refl) ∙ shut)),
      )
