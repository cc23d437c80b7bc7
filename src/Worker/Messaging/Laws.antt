-- ===== src/Worker/Messaging/Laws.antt =====
-- Theorems on `composeAndEnqueue` of apps/worker/src/messaging.ts, on every path.
use insurnace_automations.Base.{
  ℕ, suc, ◌<◌, String, ◌+++◌, true, false, Option, some, List, [], ◌∷◌, ◌++◌, Text, get_or, eq_iff,
  arith, ◌≡◌, refl, ◌≢◌, inl, inr, Bool-cases, trim,
}
use insurnace_automations.Base.Show.{show_ℕ}
use insurnace_automations.Core.Types.{granted}
use insurnace_automations.Core.Policy.{
  suppressed, GateVerdict, allowed, rejected, Schedule, evaluate_policy, allowed_actions,
}
use insurnace_automations.Core.Policy.Laws.{allowed_iff, Clears, slot}
use insurnace_automations.Worker.Store.{
  messaging_out_job, Lead, Message, Db, World, Outcome, ok, enqueue, emit_event, lead_with,
  is_duplicate,
}
use insurnace_automations.Worker.Messaging.{
  ComposeArgs, ComposeResult, queued, blocked, duplicate, contact_for, load_settings,
  current_consent, is_suppressed, body_of, context_of, reply_with, message_row, outbox_row, key_of,
  write_message, deliver, compose_and_enqueue, compose_for,
}

module _ (digest : Text → String) (local_hour : String → ℕ → ℕ) (now : ℕ) (args : ComposeArgs) where
  -- The world after the message has been written.
  abbrev pub written : Lead → Text → Option Schedule → World → World
  written lead body schedule w =
      let id = w.db.next_id in
      let key = key_of digest local_hour args body in
      enqueue "messaging-out" ("relay:" +++ show_ℕ (suc id)) (messaging_out_job (suc id)) 0
        (record w {
          db = emit_event args.lead_id "message.requested" (record w.db {
            next_id = suc (suc id);
            messages = w.db.messages ++ message_row args body key schedule id ∷ [];
            outbox = w.db.outbox ++ outbox_row args lead body key id ∷ [];
          });
        })

  -- What a result promises of the world before and after.
  abbrev pub Effect : ComposeResult → Lead → World → World → Type 0
  Effect (queued message_id outbox_id) lead w w' =
      let body = body_of args lead w.db in
      (is_suppressed (contact_for lead args.channel) w.db ≡ false)
      × (current_consent args.lead_id args.channel w.db ≡ granted)
      × (trim body ≢ [])
      × (get_or args.follow_ups_sent_in_window 0 < (load_settings w.db).follow_up_cap)
      × (is_duplicate args.conversation_id (some (key_of digest local_hour args body)) w.db.messages
          ≡ false)
      × (message_id ≡ w.db.next_id)
      × (outbox_id ≡ suc w.db.next_id)
      × (w'
          ≡ written lead body
              (some (slot local_hour (context_of args now lead w.db) (reply_with body))) w)
  Effect (blocked code) lead w w' =
      w' ≡ record w { db = emit_event args.lead_id "message.blocked" w.db }
  Effect duplicate lead w w' =
      (is_duplicate args.conversation_id
          (some (key_of digest local_hour args (body_of args lead w.db))) w.db.messages
        ≡ true)
      × (w' ≡ w)

  -- A result of the effects that it promises.
  abbrev pub Outcomes : Outcome ComposeResult → Lead → World → Type 0
  Outcomes o lead w = (r : ComposeResult) × (w' : World) × (o ≡ ok r w') × Effect r lead w w'

  -- What the gate has checked of a message that it allows.
  pub gate_passed :
      (lead : Lead) (d : Db) (body : Text) (v : Option Schedule)
      → evaluate_policy local_hour (context_of args now lead d) (reply_with body) ≡ allowed v
      → (is_suppressed (contact_for lead args.channel) d ≡ false)
        × Clears (context_of args now lead d) (reply_with body)
        × (v ≡ some (slot local_hour (context_of args now lead d) (reply_with body)))
  unfolding context_of
  gate_passed lead d body v h =
      let may = (allowed_iff local_hour (context_of args now lead d) (reply_with body) v).0 h in
      (may.1, may.2.0, may.2.1)

  write-Effect :
      (lead : Lead) (w : World) (v : Option Schedule)
      → evaluate_policy local_hour
          (context_of args now lead w.db)
          (reply_with (body_of args lead w.db))
        ≡ allowed v
      → Outcomes (write_message digest local_hour args lead (body_of args lead w.db) v w) lead w
  unfolding write_message context_of
  write-Effect lead w v e =
      let (unblocked, clears, timed) = gate_passed lead w.db (body_of args lead w.db) v e in
      elim (Bool-cases (
        is_duplicate args.conversation_id
          (some (key_of digest local_hour args (body_of args lead w.db))) w.db.messages)) [
            | inl twice ↦ (duplicate, w, rw twice refl, (twice, refl))
            | inr fresh ↦ (
              queued w.db.next_id (suc w.db.next_id),
              written lead (body_of args lead w.db) v w,
              rw fresh refl,
              (
                unblocked,
                clears.consented,
                clears.some_text,
                clears.below_cap,
                fresh,
                refl,
                refl,
                rw timed refl,
              ),
            )
          ]

  deliver-Effect :
      (lead : Lead) (w : World) (v : GateVerdict)
      → evaluate_policy local_hour
          (context_of args now lead w.db)
          (reply_with (body_of args lead w.db))
        ≡ v
      → Outcomes (deliver digest local_hour args lead (body_of args lead w.db) v w) lead w
  unfolding deliver
  deliver-Effect lead w (allowed v) e = write-Effect lead w v e
  deliver-Effect lead w (rejected code why) e =
      (blocked code, record w { db = emit_event args.lead_id "message.blocked" w.db }, refl, refl)

  -- For a lead that exists, composing a message always ends with a result. A queued one has passed
  -- the gate: the contact is not suppressed, consent is granted on the channel, the body has text,
  -- the cap is not reached; it adds exactly one queued message under a key that is new in the
  -- conversation, one pending outbox row to the lead's contact, one event and one job for that row.
  -- A blocked one adds only an event, and a duplicate changes nothing.
  pub compose-Effect :
      (lead : Lead) (w : World)
      → lead_with args.lead_id w.db ≡ some lead
      → Outcomes (compose_and_enqueue digest local_hour now args w) lead w
  unfolding compose_and_enqueue
  compose-Effect lead w e = rw (e, compose_for) (deliver-Effect lead w _ refl)

  gate_suppressed :
      (lead : Lead) (w : World) (body : Text)
      → is_suppressed (contact_for lead args.channel) w.db ≡ true
      → deliver digest local_hour args lead body
          (evaluate_policy local_hour (context_of args now lead w.db) (reply_with body))
          w
        ≡ ok (blocked suppressed) (record w { db = emit_event args.lead_id "message.blocked" w.db })
  unfolding evaluate_policy context_of deliver allowed_actions
  gate_suppressed lead w body h = rw h refl

  -- A message to a suppressed contact, or to a lead with no contact on the channel, is blocked for
  -- that reason whatever the template, the time and the consent.
  pub suppressed_is_blocked :
      (lead : Lead) (w : World)
      → lead_with args.lead_id w.db ≡ some lead
      → is_suppressed (contact_for lead args.channel) w.db ≡ true
      → compose_and_enqueue digest local_hour now args w
        ≡ ok (blocked suppressed) (record w { db = emit_event args.lead_id "message.blocked" w.db })
  unfolding compose_and_enqueue
  suppressed_is_blocked lead w e h =
      rw (e, compose_for) (gate_suppressed lead w (body_of args lead w.db) h)

  pub same_key_added :
      (k : String) (ms : List Message) (m : Message)
      → m.conversation_id ≡ args.conversation_id
      → m.dedupe_key ≡ some k
      → is_duplicate args.conversation_id (some k) (ms ++ m ∷ []) ≡ true
  unfolding is_duplicate
  same_key_added k [] m e f = rw (e, f) (ground (arith, eq_iff k k))
  same_key_added k (n ∷ ms) m e f = rw (same_key_added k ms m e f) (ground arith)
