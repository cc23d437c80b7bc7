-- ===== src/Worker/FirstTouch/Laws.antt =====
-- Theorems on `processFirstTouch` of apps/worker/src/processors/first-touch.ts.
use insurnace_automations.Base.{
  ℕ, suc, String, ◌+++◌, true, false, Option, none, some, List, [], ◌∷◌, ◌++◌, Text, find,
  find-update_where, ◌==◌, ==_iff, ◌≡◌, refl, sym, ap, ◌∙◌, Bool-cases, Option-cases, inl, inr,
}
use insurnace_automations.Base.Show.{show_ℕ}
use insurnace_automations.Core.Types.{contacted, sms, granted}
use insurnace_automations.Core.StateMachine.{assert_transition}
use insurnace_automations.Core.Policy.{GateVerdict, allowed, rejected, Schedule, evaluate_policy}
use insurnace_automations.Worker.Store.{
  messaging_out_job, Lead, Conversation, Db, World, Outcome, ok, error, bind, settle, enqueue,
  emit_event, audit, lead_with, set_state, conversation_of, ensure_conversation, is_duplicate,
}
use insurnace_automations.Worker.Messaging.{
  current_consent, is_suppressed, context_of, reply_with, message_row,
}
use insurnace_automations.Worker.Messaging.Laws.{gate_passed, same_key_added}
use insurnace_automations.Worker.Inbound.{move_unless}
use insurnace_automations.Worker.FirstTouch.{
  FirstTouchResult, sent_queued, blocked, duplicate, opener, touch_key, touch_args, add_touch,
  touch, touch_in, touch_for, process_first_touch,
}

find-append_none :
    (id : ℕ) (cs : List Conversation) (c : Conversation)
    → find (λ c. c.lead_id == id) cs ≡ none
    → c.lead_id ≡ id
    → find (λ c. c.lead_id == id) (cs ++ c ∷ []) ≡ some c
find-append_none id [] c e h = rw ((==_iff c.lead_id id).1 h) refl
find-append_none id (d ∷ cs) c e h = elim (Bool-cases (d.lead_id == id)) [
  | inl k ↦ cc (rw k at e)
  | inr k ↦ rw k (find-append_none id cs c (rw k at e) h)
]

-- The conversation is there once it has been ensured, and the leads are as they were.
ensured :
    (id : ℕ) (d : Db)
    → (conversation_of id (ensure_conversation id d).1 ≡ some (ensure_conversation id d).0)
      × ((ensure_conversation id d).1.leads ≡ d.leads)
unfolding ensure_conversation
ensured id d = elim (Option-cases (conversation_of id d)) [
  | inl e ↦ rw (e, ensure_conversation) (find-append_none id d.conversations _ e refl, refl)
  | inr (c, e) ↦ rw (e, ensure_conversation) (e, refl)
]

found_again :
    (id : ℕ) (d : Db) (c : Conversation)
    → conversation_of id d ≡ some c
    → ensure_conversation id d ≡ (c, d)
unfolding ensure_conversation
found_again id d c e = rw (e, ensure_conversation) refl

module _ (lead : Lead) where
  -- The world after an opener that the gate allows.
  abbrev pub touched : Conversation → Text → Option Schedule → World → World
  touched c text schedule w =
      enqueue "messaging-out" ("relay:" +++ show_ℕ (suc w.db.next_id))
        (messaging_out_job (suc w.db.next_id)) 0
        (record w {
          db = audit "first_touch.queued" w.db.next_id (
              emit_event lead.id "message.requested"
                (set_state lead.id contacted (add_touch lead c text schedule w.db)));
        })

  -- What a result promises: `c` is the lead's conversation and `w` the world in which it is ensured.
  abbrev pub TouchEffect : FirstTouchResult → Conversation → World → World → Type 0
  TouchEffect (sent_queued outbox_id) c w w' =
      (is_suppressed lead.phone_e164 w.db ≡ false)
      × (current_consent lead.id sms w.db ≡ granted)
      × (is_duplicate c.id (some (touch_key lead.id)) w.db.messages ≡ false)
      × (outbox_id ≡ suc w.db.next_id)
      × ((schedule : Option Schedule) × (w' ≡ touched c (opener lead w.db) schedule w))
  TouchEffect (blocked code) c w w' = w' ≡ record w {
    db = audit "first_touch.blocked" lead.id (emit_event lead.id "message.blocked" w.db);
  }
  TouchEffect duplicate c w w' =
      (is_duplicate c.id (some (touch_key lead.id)) w.db.messages ≡ true) × (w' ≡ w)

  abbrev pub Touches : Outcome FirstTouchResult → Conversation → World → Type 0
  Touches o c w = (r : FirstTouchResult) × (w' : World) × (o ≡ ok r w') × TouchEffect r c w w'

-- The result of an outcome and the world after it.
abbrev pub result_of : Outcome FirstTouchResult → FirstTouchResult
result_of (ok r w) = r
result_of (error e w) = duplicate

abbrev world_of : Outcome FirstTouchResult → World
world_of (ok r w) = w
world_of (error e w) = w

-- The lead's conversation, and the world in which it exists.
abbrev pub convo : Lead → World → Conversation
convo lead w = (ensure_conversation lead.id w.db).0

abbrev pub ready : Lead → World → World
ready lead w = record w { db = (ensure_conversation lead.id w.db).1 }

module _ (local_hour : String → ℕ → ℕ) (now : ℕ) (lead : Lead) where
  touch-Touches :
      (c : Conversation) (w : World) (v : GateVerdict)
      → assert_transition lead.state contacted ≡ none
      → is_duplicate c.id (some (touch_key lead.id)) w.db.messages ≡ false
      → evaluate_policy local_hour
          (context_of (touch_args lead.id c.id) now lead w.db)
          (reply_with (opener lead w.db))
        ≡ v
      → Touches lead (touch lead c (opener lead w.db) v w) c w
  unfolding touch bind context_of current_consent
  touch-Touches c w (rejected code why) may fresh e = (blocked code, _, refl, refl)
  touch-Touches c w (allowed schedule) may fresh e =
      let (unblocked, clears, timed) =
        gate_passed (λ b. "") local_hour now (touch_args lead.id c.id) lead w.db (opener lead w.db)
          schedule e in
      (
        sent_queued (suc w.db.next_id),
        touched lead c (opener lead w.db) schedule w,
        rw (may, move_unless) refl,
        (unblocked, clears.consented, fresh, refl, (schedule, refl)),
      )

  touch_in-Touches :
      (c : Conversation) (w : World)
      → assert_transition lead.state contacted ≡ none
      → Touches lead (touch_in local_hour now lead c w) c w
  unfolding touch_in
  touch_in-Touches c w may =
      elim (Bool-cases (is_duplicate c.id (some (touch_key lead.id)) w.db.messages)) [
        | inl old ↦ (duplicate, w, rw (old, touch_in) refl, (old, refl))
        | inr fresh ↦
            let (r, w', run, effect) = touch-Touches c w _ may fresh refl in
            (r, w', rw (fresh, touch_in) run, effect)
      ]

  -- For a lead whose state allows the move to contacted, the first touch ends with a result. A queued
  -- opener has passed the gate: consent is granted and the phone number not suppressed; it adds one
  -- message under a key that the conversation did not have, one outbox row and one job, and moves the
  -- lead to contacted. A blocked one adds an event and an audit entry. A duplicate adds nothing, but
  -- for the conversation in all three cases, where the lead had none.
  pub first_touch-Touches :
      (w : World)
      → lead_with lead.id w.db ≡ some lead
      → assert_transition lead.state contacted ≡ none
      → Touches lead (process_first_touch local_hour now lead.id w) (convo lead w) (ready lead w)
  unfolding process_first_touch touch_for settle
  first_touch-Touches w found may =
      let (r, w', run, effect) = touch_in-Touches (convo lead w) (ready lead w) may in
      (r, w', rw (found, touch_for) (rw (run, settle) refl), effect)

module _ (local_hour : String → ℕ → ℕ) (lead : Lead) where
  again :
      (later : ℕ) (c : Conversation) (text : Text) (schedule : Option Schedule) (w : World)
      → lead_with lead.id w.db ≡ some lead
      → conversation_of lead.id w.db ≡ some c
      → process_first_touch local_hour later lead.id (touched lead c text schedule w)
        ≡ ok duplicate (touched lead c text schedule w)
  unfolding process_first_touch touch_for touch_in settle
  again later c text schedule w found there =
      let w' = touched lead c text schedule w in
      let moved =
        find-update_where (λ l. l.id == lead.id) (λ l. record l { state = contacted }) (λ l. refl)
          w.db.leads lead found in
      rw (moved, touch_for)
        (rw (found_again lead.id w'.db c there) (
          rw
            (
              same_key_added (λ b. "") local_hour later (touch_args lead.id c.id)
                  (touch_key lead.id) w.db.messages
                  (message_row (touch_args lead.id c.id) text (touch_key lead.id) schedule
                    w.db.next_id)
                  refl refl,
              touch_in,
            )
            refl))

  -- A lead gets one opener: once it is queued, every later run finds it and changes nothing.
  pub first_touch_once :
      (now later : ℕ) (w w' : World) (o : ℕ)
      → lead_with lead.id w.db ≡ some lead
      → assert_transition lead.state contacted ≡ none
      → process_first_touch local_hour now lead.id w ≡ ok (sent_queued o) w'
      → process_first_touch local_hour later lead.id w' ≡ ok duplicate w'
  first_touch_once now later w w' o found may h =
      let (r, w1, run, effect) = first_touch-Touches local_hour now lead w found may in
      let same_result : r ≡ sent_queued o = ap result_of (sym run ∙ h) in
      let same_world : w1 ≡ w' = ap world_of (sym run ∙ h) in
      let (unblocked, consent, fresh, io, (schedule, after)) = rw same_result at effect in
      let (there, leads) = ensured lead.id w.db in
      rw (← same_world, after)
        (again later (convo lead w) (opener lead (ready lead w).db) schedule (ready lead w)
          (rw leads found) there)
