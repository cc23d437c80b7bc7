-- ===== src/Worker/Runs/Actions.antt =====
-- The actions of workflow steps in apps/worker/src/processors/workflow.ts.
use insurnace_automations.Base.{
  ℕ, ◌+◌, String, ◌+++◌, false, Option, none, some, List, [], ◌∷◌, Text, length, length-append, ◌≡◌,
  refl, ◌⊎◌, inl, inr,
}
use insurnace_automations.Core.Types.{Channel, sms, email, granted}
use insurnace_automations.Core.Workflow.{
  WorkflowAction, send_sms, send_email, create_task, notify_user, stop, WorkflowDefinition,
}
use insurnace_automations.Worker.Store.{
  Lead, Conversation, World, Outcome, ok, bind, emit_event, audit, lead_with,
}
use insurnace_automations.Worker.Messaging.{
  ComposeArgs, ComposeResult, queued, blocked, duplicate, contact_for, current_consent,
  is_suppressed,
}
use insurnace_automations.Worker.Messaging.Laws.{Effect, compose-Effect}
use insurnace_automations.Worker.Runs.{
  add_task, step_args, send_step, act, execute_action, result_name, action_name,
}

abbrev pub channels_of : WorkflowAction → List Channel
channels_of (send_sms k) = sms ∷ []
channels_of (send_email k) = email ∷ []
channels_of _ = []

-- The tables that only a message changes are as they were.
abbrev pub Untouched : World → World → Type 0
Untouched w w' =
    (w'.db.messages ≡ w.db.messages) × (w'.db.outbox ≡ w.db.outbox) × (w'.jobs ≡ w.jobs)

-- One message was queued, to a lead that consents on the channel and is not suppressed.
abbrev pub SentOne : ℕ → Lead → Channel → World → World → Type 0
SentOne lead_id lead channel w w' =
    (is_suppressed (contact_for lead channel) w.db ≡ false)
    × (current_consent lead_id channel w.db ≡ granted)
    × (length w'.db.messages ≡ length w.db.messages + 1)
    × (length w'.db.outbox ≡ length w.db.outbox + 1)
    × (length w'.jobs ≡ length w.jobs + 1)

abbrev pub Gated : ℕ → Lead → List Channel → World → World → Type 0
Gated lead_id lead [] w w' = Untouched w w'
Gated lead_id lead (channel ∷ cs) w w' = Untouched w w' ⊎ SentOne lead_id lead channel w w'

-- Runs, leads and the requests to the provider are no action's to change.
abbrev pub SameRuns : World → World → Type 0
SameRuns w w' = (w'.db.runs ≡ w.db.runs) × (w'.db.leads ≡ w.db.leads) × (w'.sends ≡ w.sends)

module _ (digest : Text → String) (local_hour : String → ℕ → ℕ) (now : ℕ) (args : ComposeArgs)
    (lead : Lead) where
  Effect-gated :
      (r : ComposeResult) (w w' : World)
      → Effect digest local_hour now args r lead w w'
      → SameRuns w w' × (Untouched w w' ⊎ SentOne args.lead_id lead args.channel w w')
  Effect-gated (queued m o) w w' (open_, consent, text, cap, fresh, im, io, after) = rw after (
    (refl, refl, refl),
    inr (open_, consent, length-append _ _, length-append _ _, length-append _ _),
  )
  Effect-gated (blocked code) w w' after = rw after ((refl, refl, refl), inl (refl, refl, refl))
  Effect-gated duplicate w w' (taken, after) = rw after ((refl, refl, refl), inl (refl, refl, refl))

module _ (digest : Text → String) (local_hour : String → ℕ → ℕ) (now lead_id : ℕ)
    (def : WorkflowDefinition) (lead : Lead) where
  abbrev pub Acts : List Channel → World → Outcome (Unit {0}) → Type 0
  Acts cs w o = (w' : World) × (o ≡ ok tt w') × SameRuns w w' × Gated lead_id lead cs w w'

  send-Acts :
      (channel : Channel) (template_key step_key : String) (convo : Option Conversation) (w : World)
      → lead_with lead_id w.db ≡ some lead
      → Acts
          (channel ∷ [])
          w
          (send_step digest local_hour now lead_id def channel template_key step_key convo w)
  unfolding send_step bind
  send-Acts channel template_key step_key none w e =
      (w, refl, (refl, refl, refl), inl (refl, refl, refl))
  send-Acts channel template_key step_key (some convo) w e =
      let args = step_args digest local_hour now lead_id def channel template_key step_key convo in
      let (r, w', run, effect) = compose-Effect digest local_hour now args lead w e in
      let (same, gated) = Effect-gated digest local_hour now args lead r w w' effect in
      (
        record w' { db = emit_event lead_id ("workflow.message_" +++ result_name r) w'.db },
        rw (run, bind) refl,
        same,
        gated,
      )

  act-Acts :
      (step_key : String) (action : WorkflowAction) (w : World)
      → lead_with lead_id w.db ≡ some lead
      → Acts (channels_of action) w (act digest local_hour now lead_id def step_key action w)
  unfolding act
  act-Acts step_key (send_sms k) w e = send-Acts sms k step_key _ w e
  act-Acts step_key (send_email k) w e = send-Acts email k step_key _ w e
  act-Acts step_key (create_task n) w e =
      (add_task lead_id n w, refl, (refl, refl, refl), (refl, refl, refl))
  act-Acts step_key (notify_user n) w e =
      (add_task lead_id n w, refl, (refl, refl, refl), (refl, refl, refl))
  act-Acts step_key stop w e = (w, refl, (refl, refl, refl), (refl, refl, refl))

  Gated-audit :
      (cs : List Channel) (w w' : World) (action : String)
      → Gated lead_id lead cs w w'
      → Gated lead_id lead cs w (record w' { db = audit action lead_id w'.db })
  Gated-audit [] w w' action g = g
  Gated-audit (c ∷ cs) w w' action g = g

  -- The action of a step of an existing lead never throws, and changes neither runs nor leads. A
  -- sending action either leaves messages, outbox and jobs alone or queues one message, to a lead that
  -- consents on the channel and is not suppressed; the other actions leave them alone.
  pub execute-Acts :
      (step_key : String) (action : WorkflowAction) (w : World)
      → lead_with lead_id w.db ≡ some lead
      → Acts
          (channels_of action)
          w
          (execute_action digest local_hour now lead_id def step_key action w)
  unfolding execute_action bind
  execute-Acts step_key action w e =
      let (w', run, same, gated) = act-Acts step_key action w e in
      (
        record w' { db = audit ("workflow." +++ action_name action) lead_id w'.db },
        rw (run, bind) refl,
        same,
        Gated-audit (channels_of action) w w' ("workflow." +++ action_name action) gated,
      )
