-- ===== src/Worker/Messaging/Once.antt =====
-- A second `composeAndEnqueue` of apps/worker/src/messaging.ts with the same arguments.
use insurnace_automations.Base.{
  ℕ, String, Bool, true, false, Option, none, some, Text, ◌≡◌, refl, sym, ap, Bool-cases, inl, inr,
}
use insurnace_automations.Core.Policy.{
  GateVerdict, allowed, rejected, Schedule, evaluate_policy, allowed_actions,
}
use insurnace_automations.Core.Policy.Laws.{allowed_iff, slot}
use insurnace_automations.Worker.Store.{Lead, World, Outcome, ok, error, lead_with, is_duplicate}
use insurnace_automations.Worker.Messaging.{
  ComposeArgs, ComposeResult, queued, duplicate, context_of, load_settings, load_template,
  current_consent, is_suppressed, contact_for, reply_with, body_of, key_of, write_message, deliver,
  compose_for, compose_and_enqueue, message_row,
}
use insurnace_automations.Worker.Messaging.Laws.{written, gate_passed, same_key_added}

-- The result of an outcome and the world after it.
abbrev result_of : Outcome ComposeResult → ComposeResult
result_of (ok r w) = r
result_of (error e w) = duplicate

abbrev world_of : Outcome ComposeResult → World
world_of (ok r w) = w
world_of (error e w) = w

abbrev is_queued : ComposeResult → Bool
is_queued (queued m o) = true
is_queued _ = false

module _ (digest : Text → String) (local_hour : String → ℕ → ℕ) (args : ComposeArgs) where
  body_after :
      (now : ℕ) (lead : Lead) (w : World) (body : Text) (u : Option Schedule)
      → body_of args lead (written digest local_hour now args lead body u w).db
        ≡ body_of args lead w.db
  unfolding body_of load_settings load_template
  body_after now lead w body u = refl

  suppressed_after :
      (now : ℕ) (lead : Lead) (w : World) (body : Text) (u : Option Schedule)
      (contact : Option String)
      → is_suppressed contact (written digest local_hour now args lead body u w).db
        ≡ is_suppressed contact w.db
  unfolding is_suppressed
  suppressed_after now lead w body u none = refl
  suppressed_after now lead w body u (some c) = refl

  context_after :
      (now later : ℕ) (lead : Lead) (w : World) (body : Text) (u : Option Schedule)
      → context_of args later lead (written digest local_hour now args lead body u w).db
        ≡ context_of args later lead w.db
  unfolding context_of load_settings current_consent
  context_after now later lead w body u =
      rw (suppressed_after now lead w body u (contact_for lead args.channel)) refl

  -- The verdict on the same message at another time and after the message has been written.
  still_allowed :
      (now later : ℕ) (lead : Lead) (w : World) (v : Option Schedule)
      → evaluate_policy local_hour
          (context_of args now lead w.db)
          (reply_with (body_of args lead w.db))
        ≡ allowed v
      → evaluate_policy local_hour
          (context_of args later lead w.db)
          (reply_with (body_of args lead w.db))
        ≡ allowed (
            some (
              slot local_hour
                (context_of args later lead w.db)
                (reply_with (body_of args lead w.db))))
  unfolding context_of allowed_actions
  still_allowed now later lead w v h =
      let (unblocked, clears, timed) =
        gate_passed digest local_hour now args lead w.db (body_of args lead w.db) v h in
      (allowed_iff local_hour (context_of args later lead w.db)
          (reply_with (body_of args lead w.db)) _).1
        (
          refl,
          unblocked,
          (
            record {
              consented = clears.consented;
              delivering = refl;
              below_cap = clears.below_cap;
              some_text = clears.some_text;
              backed = clears.backed;
            },
            refl,
          ),
        )

  queued_once_of :
      (now later : ℕ) (lead : Lead) (w w' : World) (m o : ℕ) (v : GateVerdict)
      → evaluate_policy local_hour
          (context_of args now lead w.db)
          (reply_with (body_of args lead w.db))
        ≡ v
      → deliver digest local_hour args lead (body_of args lead w.db) v w ≡ ok (queued m o) w'
      → (u : Option Schedule) × (w'
          ≡ written digest local_hour now args lead (body_of args lead w.db) u w)
        × (v ≡ allowed u)
  unfolding deliver write_message
  queued_once_of now later lead w w' m o (rejected code why) e h = cc
  queued_once_of now later lead w w' m o (allowed u) e h =
      elim (Bool-cases (
        is_duplicate args.conversation_id
          (some (key_of digest local_hour args (body_of args lead w.db))) w.db.messages)) [
            | inl taken ↦ cc (ap is_queued (ap result_of (rw (taken, write_message) at h)))
            | inr fresh ↦ (u, sym (ap world_of (rw (fresh, write_message) at h)), refl)
          ]

  twice :
      (now later : ℕ) (lead : Lead) (w : World) (v u : Option Schedule)
      → evaluate_policy local_hour
          (context_of args now lead w.db)
          (reply_with (body_of args lead w.db))
        ≡ allowed v
      → let w' = written digest local_hour now args lead (body_of args lead w.db) u w in
        compose_for digest local_hour later args (some lead) w' ≡ ok duplicate w'
  unfolding compose_for deliver write_message
  twice now later lead w v u h =
      rw
        (
          body_after now lead w (body_of args lead w.db) u,
          context_after now later lead w (body_of args lead w.db) u,
          still_allowed now later lead w v h,
          deliver,
        )
        (rw (body_after now lead w (body_of args lead w.db) u) (
          rw
            (
              same_key_added digest local_hour now args
                  (key_of digest local_hour args (body_of args lead w.db)) w.db.messages
                  (message_row args (body_of args lead w.db)
                    (key_of digest local_hour args (body_of args lead w.db)) u w.db.next_id)
                  refl refl,
              write_message,
            )
            refl))

  -- A message that has been queued is not queued again: composing it anew in the world that the
  -- first call leaves, at whatever later time, finds the key taken and changes nothing.
  pub queued_once :
      (now later : ℕ) (lead : Lead) (w w' : World) (m o : ℕ)
      → lead_with args.lead_id w.db ≡ some lead
      → compose_and_enqueue digest local_hour now args w ≡ ok (queued m o) w'
      → compose_and_enqueue digest local_hour later args w' ≡ ok duplicate w'
  unfolding compose_and_enqueue
  queued_once now later lead w w' m o e h =
      let (u, after, v) =
        queued_once_of now later lead w w' m o _ refl (rw (e, compose_for) at h) in
      rw after (rw (e, compose_for) (twice now later lead w u u v))
