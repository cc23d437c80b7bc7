-- ===== src/Worker/Assignment/Laws.antt =====
-- Theorems on `processAssignment` of apps/worker/src/processors/assignment.ts.
use insurnace_automations.Base.{
  List-cases, ℕ, zero, suc, ◌≤◌, ◌+++◌, Bool, true, false, Option, none, some, List, [], ◌∷◌, ◌++◌,
  map, filter, length, take, In, In-filter, arith, ◌≡◌, refl, ap, ◌⊎◌, inl, inr, if◌then◌else◌,
  find-update_where, ◌==◌,
}
use mathlib.Core.List.{append_assoc}
use insurnace_automations.Base.Show.{show_ℕ}
use insurnace_automations.Core.Routing.{RepCandidate, RoutingResult, default_escalation}
use insurnace_automations.Core.Routing.Cursor.{workload_keeps_cursor}
use insurnace_automations.Core.Routing.Choice.{active_rep_wins, no_rep_no_choice}
use insurnace_automations.Worker.Store.{
  escalation_job, Lead, AssignmentRole, Membership, Job, Db, World, ok, bind, settle, lead_with,
}
use insurnace_automations.Worker.Assignment.{
  AssignResult, is_rep, candidate_for, load_candidates, get_cursor, input_of, config_of, routing_of,
  schedule_steps, later_steps, assignment, assignment_rows, persist, is_hot, escalate, assign_for,
  process_assignment,
}

-- A member of the tenant who may own leads.
abbrev pub IsRep : ℕ → Db → Type 0
IsRep u d = (m : Membership) × In m d.memberships × (m.user_id ≡ u) × (is_rep m ≡ true)

candidate-In :
    (d : Db) (ms : List Membership) (c : RepCandidate)
    → In c (map (candidate_for d) (map (λ m. m.user_id) ms))
    → (m : Membership) × In m ms × (m.user_id ≡ c.user_id) × (c.active ≡ true)
unfolding candidate_for
candidate-In d [] c i = absurd i
candidate-In d (m ∷ ms) c (inl e) = (m, inl refl, rw e refl, rw e refl)
candidate-In d (m ∷ ms) c (inr i) =
    let (n, j, same, on) = candidate-In d ms c i in (n, inr j, same, on)

candidate-IsRep :
    (d : Db) (c : RepCandidate) → In c (load_candidates d) → IsRep c.user_id d × (c.active ≡ true)
unfolding load_candidates
candidate-IsRep d c i =
    let (m, j, same, on) = candidate-In d (filter is_rep d.memberships) c i in
    let (there, rep) = In-filter is_rep d.memberships m j in ((m, there, same, rep), on)

-- Who gets the lead: a rep, who is not a fallback of itself; or nobody, where there is no rep.
abbrev pub Chosen : Option ℕ → List ℕ → Db → Type 0
Chosen primary fallbacks d =
    ((u : ℕ) × (primary ≡ some u) × IsRep u d × ¬ In u fallbacks)
    ⊎ ((primary ≡ none) × (filter is_rep d.memberships ≡ []))

In-take : {A : Type 0} (n : ℕ) (xs : List A) (x : A) → In x (take n xs) → In x xs
In-take zero xs x i = absurd i
In-take (suc n) [] x i = absurd i
In-take (suc n) (y ∷ ys) x (inl e) = inl e
In-take (suc n) (y ∷ ys) x (inr i) = inr (In-take n ys x i)

no_candidate : (d : Db) → load_candidates d ≡ [] → filter is_rep d.memberships ≡ []
unfolding load_candidates
no_candidate d e = elim (List-cases (filter is_rep d.memberships)) [
  | inl nobody ↦ nobody
  | inr (m, ms, some_rep) ↦ cc (rw some_rep at e)
]

routing-Chosen :
    (lead : Lead) (d : Db)
    → let r = routing_of lead d in Chosen r.primary_user_id (take 3 r.fallback_user_ids) d
unfolding routing_of
routing-Chosen lead d =
    let input = input_of lead in
    let config = config_of (get_cursor d) in
    elim (List-cases (load_candidates d)) [
      | inl e ↦ inr (
        no_rep_no_choice input (load_candidates d) config (λ c i. absurd (rw e at i)),
        no_candidate d e,
      )
      | inr (c, cs, e) ↦
          let here : In c (load_candidates d) = rw e (inl refl) in
          let (rep, on) = candidate-IsRep d c here in
          let (chosen, is) = active_rep_wins input (load_candidates d) config c here on in
          inl (
            chosen.user_id,
            is.primary,
            (candidate-IsRep d chosen is.listed).0,
            λ i. is.apart (In-take 3 _ chosen.user_id i),
          )
    ]

-- The strategies of the processor never take the round-robin branch.
routing-cursor : (lead : Lead) (d : Db) → (routing_of lead d).next_cursor ≡ get_cursor d
unfolding routing_of
routing-cursor lead d =
    workload_keeps_cursor (config_of (get_cursor d)) refl (input_of lead) (load_candidates d)

length-take {ℓ} : {A : Type ℓ} (n : ℕ) (xs : List A) → length (take n xs) ≤ n
length-take zero xs = omega arith
length-take (suc n) [] = omega arith
length-take (suc n) (x ∷ xs) = omega (arith, length-take n xs)

-- The jobs of the ladder.
abbrev pub ladder : ℕ → List Job
ladder id =
    record {
      queue = "escalation";
      job_id = "esc:" +++ show_ℕ id +++ ":1";
      data_of = escalation_job id 1;
      delay = 30000;
    }
    ∷ record {
      queue = "escalation";
      job_id = "esc:" +++ show_ℕ id +++ ":2";
      data_of = escalation_job id 2;
      delay = 60000;
    }
    ∷ record {
      queue = "escalation";
      job_id = "esc:" +++ show_ℕ id +++ ":3";
      data_of = escalation_job id 3;
      delay = 120000;
    }
    ∷ record {
      queue = "escalation";
      job_id = "esc:" +++ show_ℕ id +++ ":4";
      data_of = escalation_job id 4;
      delay = 300000;
    }
    ∷ []

-- What an assignment leaves behind.
pub record IsPlaced (lead : Lead) (w : World) (r : AssignResult) (w' : World) : Type 0 where
  pub owned : lead_with lead.id w'.db ≡ some (record lead { assigned_user_id = r.primary_user_id })
  pub fallbacks : List ℕ
  pub chosen : Chosen r.primary_user_id fallbacks w.db
  pub few : length fallbacks ≤ 3
  pub rows :
      w'.db.assignments
      ≡ w.db.assignments
        ++ assignment lead.id r.primary_user_id AssignmentRole.primary r.reason
          ∷ map (λ u. assignment lead.id (some u) AssignmentRole.fallback r.reason) fallbacks
  pub scheduled : r.escalation_scheduled ≡ is_hot lead.score_band
  pub jobs : w'.jobs ≡ (if is_hot lead.score_band then w.jobs ++ ladder lead.id else w.jobs)
  pub cursor : w'.db.round_robin_cursor ≡ some (get_cursor w.db)

-- The world after the ladder has been scheduled, where it is.
abbrev laddered : Bool → ℕ → World → World
laddered b id w = if b then schedule_steps id 1 (later_steps default_escalation) w else w

laddered-jobs :
    (b : Bool) (id : ℕ) (w : World)
    → ((laddered b id w).db ≡ w.db)
      × ((laddered b id w).jobs ≡ (if b then w.jobs ++ ladder id else w.jobs))
unfolding schedule_steps default_escalation show_ℕ
laddered-jobs false id w = (refl, refl)
laddered-jobs true id w = (refl, simp append_assoc)

placed :
    (lead : Lead) (w : World)
    → lead_with lead.id w.db ≡ some lead
    → let routing = routing_of lead w.db in
      let stored : World = record w { db = persist lead.id routing w.db } in
      IsPlaced lead w
        (record {
          primary_user_id = routing.primary_user_id;
          reason = routing.reason;
          escalation_scheduled = is_hot lead.score_band;
        })
        (laddered (is_hot lead.score_band) lead.id stored)
unfolding persist assignment_rows
placed lead w found =
    let routing : RoutingResult = routing_of lead w.db in
    let stored : World = record w { db = persist lead.id routing w.db } in
    let (kept, added) = laddered-jobs (is_hot lead.score_band) lead.id stored in
    record {
      owned = rw kept (
          find-update_where (λ l. l.id == lead.id)
            (λ l. record l { assigned_user_id = routing.primary_user_id }) (λ l. refl) w.db.leads
            lead found);
      fallbacks = take 3 routing.fallback_user_ids;
      chosen = routing-Chosen lead w.db;
      few = length-take 3 routing.fallback_user_ids;
      rows = rw kept refl;
      scheduled = refl;
      jobs = added;
      cursor = rw kept (ap some (routing-cursor lead w.db));
    }

-- An assignment of a lead always succeeds. The lead goes to a member of the tenant who is a sales rep
-- or manager, who is none of its fallbacks, and to nobody exactly where the tenant has no such member;
-- it is recorded with one primary row and at most three fallback rows. A hot lead, and no other, gets
-- the four later steps of the escalation ladder as jobs, 30, 60, 120 and 300 seconds later. The
-- round-robin cursor is written back as it was.
pub assignment-IsPlaced :
    (lead : Lead) (w : World)
    → lead_with lead.id w.db ≡ some lead
    → (r : AssignResult) × (w' : World) × (process_assignment lead.id w ≡ ok r w')
      × IsPlaced lead w r w'
unfolding process_assignment assign_for escalate settle bind persist assignment_rows
assignment-IsPlaced lead w found =
    let routing : RoutingResult = routing_of lead w.db in
    let result : AssignResult = record {
      primary_user_id = routing.primary_user_id;
      reason = routing.reason;
      escalation_scheduled = is_hot lead.score_band;
    } in
    let stored : World = record w { db = persist lead.id routing w.db } in
    (
      result,
      laddered (is_hot lead.score_band) lead.id stored,
      rw (found, assign_for) refl,
      placed lead w found,
    )
