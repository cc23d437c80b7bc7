-- ===== src/Worker/Takeover/Laws.antt =====
-- Takeover and hand-back in apps/worker/src/processors/takeover.ts.
use insurnace_automations.Base.{
  ℕ, String, true, false, ◌&&◌, Option, none, some, List, [], ◌∷◌, filter, update_where,
  find-update_where, find-satisfies, All, ◌==◌, ==_iff, arith, ◌≡◌, refl, sym, subst, Bool-cases,
  inl, inr,
}
use insurnace_automations.Core.Types.{opted_out, human_owned, state_eq}
use insurnace_automations.Core.StateMachine.{assert_transition}
use insurnace_automations.Worker.Store.{
  Lead, Conversation, WorkflowRun, RunStatus, Db, World, Outcome, ok, error, settle, emit_event,
  audit, lead_with,
}
use insurnace_automations.Worker.Takeover.{
  Reply, done, pause_ai, is_running, stop_runs, own, own_unless, take, take_found, takeover_lead,
  give_state, return_unless, hand_back, hand_back_found, logged, resume_lead,
}

-- The lead is a person's: no run of it goes on and the AI is paused on its conversations.
pub record Quiet (lead_id : ℕ) (d : Db) : Type 0 where
  pub stopped : filter (λ r. (r.lead_id == lead_id) && is_running r.status) d.runs ≡ []
  pub paused : All (λ c. c.ai_paused ≡ true) (filter (λ c. c.lead_id == lead_id) d.conversations)

no_runs :
    (id : ℕ) (rs : List WorkflowRun)
    → filter
        (λ r. (r.lead_id == id) && is_running r.status)
        (update_where
          (λ r. (r.lead_id == id) && is_running r.status)
          (λ r. record r { status = RunStatus.stopped; stop_reason = some "human_takeover" })
          rs)
      ≡ []
no_runs id [] = refl
no_runs id (r ∷ rs) = ground (arith, no_runs id rs)

all_paused :
    (id : ℕ) (cs : List Conversation)
    → All
        (λ c. c.ai_paused ≡ true)
        (filter
          (λ c. c.lead_id == id)
          (update_where (λ c. c.lead_id == id) (λ c. record c { ai_paused = true }) cs))
all_paused id [] = ground arith
all_paused id (c ∷ cs) = elim (Bool-cases (c.lead_id == id)) [
  | inl e ↦ rw (e, e) (refl, all_paused id cs)
  | inr e ↦ rw (e, e) (all_paused id cs)
]

abbrev pub owned : Lead → Lead
owned lead = record lead { state = human_owned; pre_takeover_state = some lead.state }

abbrev pub taken : Lead → Db → Db
taken lead d = audit "human.takeover" lead.id (
    emit_event lead.id "human.takeover_started"
      (own lead.id lead.state (stop_runs lead.id (pause_ai true lead.id d))))

pub taken-lead :
    (lead : Lead) (d : Db)
    → lead_with lead.id d ≡ some lead
    → lead_with lead.id (taken lead d) ≡ some (owned lead)
taken-lead lead d e =
    find-update_where (λ l. l.id == lead.id)
      (λ l. record l { state = human_owned; pre_takeover_state = some lead.state }) (λ l. refl)
      d.leads lead e

-- What handing back does, by the state machine's answer to the way back.
abbrev pub Resumed : Option String → Lead → World → Outcome Reply → Type 0
Resumed none lead w o =
    (w' : World) × (o ≡ ok done w')
    × (lead_with lead.id w'.db ≡ some (record lead { pre_takeover_state = some lead.state }))
    × (w'.db.runs ≡ w.db.runs)
Resumed (some message) lead w o = o ≡ error message w

abbrev given : Lead → Db → Db
given lead d = audit "human.resume" lead.id (
    emit_event lead.id "human.takeover_ended"
      (give_state lead.id lead.state (pause_ai false lead.id d)))

pub take_run :
    (lead : Lead) (w : World)
    → state_eq lead.state opted_out ≡ false
    → state_eq lead.state human_owned ≡ false
    → assert_transition lead.state human_owned ≡ none
    → lead_with lead.id w.db ≡ some lead
    → takeover_lead lead.id w ≡ ok done (record w { db = taken lead w.db })
unfolding takeover_lead take_found take logged settle
take_run lead w not_out not_owned e found =
    rw (found, take_found) (rw (not_out, take) (rw not_owned (rw (e, own_unless) refl)))

resume_run :
    (lead : Lead) (w : World) (back : Option String)
    → assert_transition human_owned lead.state ≡ back
    → lead_with lead.id w.db ≡ some (owned lead)
    → Resumed back lead w (resume_lead lead.id w)
unfolding resume_lead hand_back_found hand_back logged settle
resume_run lead w none e found = (
  record w { db = given lead w.db },
  rw (found, hand_back_found) (rw (e, return_unless) refl),
  find-update_where (λ l. l.id == lead.id) (λ l. record l { state = lead.state }) (λ l. refl)
      w.db.leads (owned lead) found,
  refl,
)
resume_run lead w (some message) e found = rw (found, hand_back_found) (rw (e, return_unless) refl)

takeover-resume_own :
    (lead : Lead) (w : World)
    → lead_with lead.id w.db ≡ some lead
    → state_eq lead.state opted_out ≡ false
    → state_eq lead.state human_owned ≡ false
    → assert_transition lead.state human_owned ≡ none
    → (w' : World) × (takeover_lead lead.id w ≡ ok done w')
      × (lead_with lead.id w'.db ≡ some (owned lead))
      × Quiet lead.id w'.db
      × Resumed (assert_transition human_owned lead.state) lead w' (resume_lead lead.id w')
takeover-resume_own lead w found not_out not_owned e =
    let after = taken-lead lead w.db found in
    (
      record w { db = taken lead w.db },
      take_run lead w not_out not_owned e found,
      after,
      record {
        stopped = no_runs lead.id w.db.runs;
        paused = all_paused lead.id w.db.conversations;
      },
      resume_run lead (record w { db = taken lead w.db }) _ refl after,
    )

-- A takeover of a lead that is neither opted out nor a person's already, from a state in which the
-- state machine allows it, succeeds: it stops every running workflow of the lead and pauses the AI on
-- its conversations. Handing the lead back then restores the very state it was taken from if the
-- machine has a step to it from human_owned, and throws, changing nothing, if it has none.
pub takeover-resume :
    (id : ℕ) (lead : Lead) (w : World)
    → lead_with id w.db ≡ some lead
    → state_eq lead.state opted_out ≡ false
    → state_eq lead.state human_owned ≡ false
    → assert_transition lead.state human_owned ≡ none
    → (w' : World) × (takeover_lead id w ≡ ok done w')
      × (lead_with id w'.db ≡ some (owned lead))
      × Quiet id w'.db
      × Resumed (assert_transition human_owned lead.state) lead w' (resume_lead id w')
takeover-resume id lead w found not_out not_owned e =
    let same : lead.id ≡ id =
      (==_iff lead.id id).0 (find-satisfies (λ l. l.id == id) w.db.leads lead found) in
    subst
      (λ n.
        (w' : World) × (takeover_lead n w ≡ ok done w')
        × (lead_with n w'.db ≡ some (owned lead))
        × Quiet n w'.db
        × Resumed (assert_transition human_owned lead.state) lead w' (resume_lead n w'))
      same (takeover-resume_own lead w (rw (sym same) at found) not_out not_owned e)
