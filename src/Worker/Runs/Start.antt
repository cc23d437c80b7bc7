-- ===== src/Worker/Runs/Start.antt =====
-- Repeated starts of a run in apps/worker/src/processors/workflow.ts.
use insurnace_automations.Base.{
  ℕ, suc, ◌≤◌, Bool, true, none, some, List, [], ◌∷◌, ◌++◌, find, filter, length, arith, ◌≡◌, refl,
  sym, subst, inl, inr, Option-cases, Bool-cases, eq_iff, ==_iff,
}
use insurnace_automations.Core.Workflow.{WorkflowDefinition}
use insurnace_automations.Worker.Store.{WorkflowRun, Db, emit_event}
use insurnace_automations.Worker.Runs.{same_run, new_run, open_run}

module _ (p : WorkflowRun → Bool) where
  found_some :
      (xs : List WorkflowRun) (x : WorkflowRun) → find p xs ≡ some x → 1 ≤ length (filter p xs)
  found_some [] x e = cc
  found_some (y ∷ ys) x e = elim (Bool-cases (p y)) [
    | inl h ↦ rw h (omega arith)
    | inr h ↦ rw h (found_some ys x (rw h at e))
  ]

  found_none :
      (xs : List WorkflowRun) (x : WorkflowRun)
      → find p xs ≡ none
      → p x ≡ true
      → (find p (xs ++ x ∷ []) ≡ some x) × (length (filter p (xs ++ x ∷ [])) ≡ 1)
  found_none [] x e h = (rw h refl, rw h refl)
  found_none (y ∷ ys) x e h = elim (Bool-cases (p y)) [
    | inl k ↦ cc (rw k at e)
    | inr k ↦ let (a, b) = found_none ys x (rw k at e) h in (rw k a, rw k b)
  ]

module _ (lead_id : ℕ) (def : WorkflowDefinition) where
  abbrev pub running : Db → List WorkflowRun
  running d = filter (same_run lead_id def.key) d.runs

  -- The lead has exactly one running run, and to start the workflow again finds it.
  abbrev pub Once : ℕ × Db → Type 0
  Once r = (length (running r.1) ≡ 1) × (open_run lead_id def r.1 ≡ r)

  open_found :
      (d : Db) (r : WorkflowRun)
      → find (same_run lead_id def.key) d.runs ≡ some r
      → open_run lead_id def d ≡ (r.id, d)
  unfolding open_run
  open_found d r e = rw (e, open_run) refl

  opened_new :
      (d : Db)
      → find (same_run lead_id def.key) d.runs ≡ none
      → open_run lead_id def d ≡ (
        d.next_id,
        emit_event lead_id "workflow.started" (record d {
          next_id = suc d.next_id;
          runs = d.runs ++ new_run lead_id def d.next_id ∷ [];
        }),
      )
  unfolding open_run
  opened_new d e = rw (e, open_run) refl

  open_new :
      (d : Db)
      → find (same_run lead_id def.key) d.runs ≡ none
      → Once (
        d.next_id,
        emit_event lead_id "workflow.started" (record d {
          next_id = suc d.next_id;
          runs = d.runs ++ new_run lead_id def d.next_id ∷ [];
        }),
      )
  open_new d e =
      let new : same_run lead_id def.key (new_run lead_id def d.next_id) ≡ true =
        rw ((==_iff lead_id lead_id).1 refl, (eq_iff def.key def.key).1 refl) refl in
      let (found, count) =
        found_none (same_run lead_id def.key) d.runs (new_run lead_id def d.next_id) e new in
      (
        count,
        open_found
            (emit_event lead_id "workflow.started" (record d {
              next_id = suc d.next_id;
              runs = d.runs ++ new_run lead_id def d.next_id ∷ [];
            }))
            (new_run lead_id def d.next_id) found,
      )

  -- Starting a workflow for a lead that has at most one running run of it leaves the lead with exactly
  -- one, and starting it again finds that run and changes nothing.
  pub open_run-Once : (d : Db) → length (running d) ≤ 1 → Once (open_run lead_id def d)
  open_run-Once d h = elim (Option-cases (find (same_run lead_id def.key) d.runs)) [
    | inl e ↦ subst Once (sym (opened_new d e)) (open_new d e)
    | inr (r, e) ↦
        let some_run = found_some (same_run lead_id def.key) d.runs r e in
        subst Once (sym (open_found d r e)) (omega (arith, h, some_run), open_found d r e)
  ]
