-- ===== src/Worker/CrmInbound/Laws.antt =====
-- Theorems on `processCrmInbound` of apps/worker/src/processors/crm-inbound.ts.
use insurnace_automations.Base.{
  ℕ, some, [], ◌∷◌, ◌++◌, find, str_eq, ◌≡◌, refl, ◌==◌, find-update_where, if◌then◌else◌,
  Bool-cases, inl, inr,
}
use insurnace_automations.Core.StateMachine.{can_transition}
use insurnace_automations.Worker.Store.{
  Lead, CrmMapping, OutcomeType, Db, emit_event, audit, lead_with,
}
use insurnace_automations.Worker.CrmInbound.{
  CrmDealEvent, type_of_stage, state_of, event_name, outcome_row, settle_state, record_outcome,
  close_deal, process_crm_inbound,
}

-- The lead after the deal: moved, where the state machine has the step.
abbrev pub closed_lead : Lead → OutcomeType → Lead
closed_lead lead type =
    if (can_transition lead.state (state_of type)).ok
    then record lead { state = state_of type }
    else lead

module _ (event : CrmDealEvent) (type : OutcomeType)
    (closes : type_of_stage event.stage ≡ some type) where
  settle_state-lead :
      (id : ℕ) (lead : Lead) (d : Db)
      → lead_with id d ≡ some lead
      → (lead_with id (settle_state lead id type d) ≡ some (closed_lead lead type))
        × ((settle_state lead id type d).outcomes ≡ d.outcomes)
        × ((settle_state lead id type d).crm_mappings ≡ d.crm_mappings)
  unfolding settle_state
  settle_state-lead id lead d found =
      elim (Bool-cases (can_transition lead.state (state_of type)).ok) [
        | inl may ↦ rw may (
          find-update_where (λ l. l.id == id) (λ l. record l { state = state_of type }) (λ l. refl)
              d.leads lead found,
          refl,
          refl,
        )
        | inr stuck ↦ rw stuck (found, refl, refl)
      ]

  -- The database after the event of a lead that is there.
  abbrev closed_db : ℕ → Lead → Db → Db
  closed_db id lead d = audit (event_name type) id (
      emit_event id (event_name type) (
        settle_state lead id type
          (record d { outcomes = d.outcomes ++ outcome_row id type event.amount ∷ [] })))

  once :
      (m : CrmMapping) (id : ℕ) (lead : Lead) (d : Db)
      → find (λ m'. str_eq m'.deal_external_id event.deal_external_id) d.crm_mappings ≡ some m
      → m.lead_id ≡ id
      → lead_with id d ≡ some lead
      → (process_crm_inbound event d ≡ (some (id, type), closed_db id lead d))
        × ((closed_db id lead d).outcomes ≡ d.outcomes ++ outcome_row id type event.amount ∷ [])
        × (lead_with id (closed_db id lead d) ≡ some (closed_lead lead type))
        × ((closed_db id lead d).crm_mappings ≡ d.crm_mappings)
  unfolding process_crm_inbound close_deal record_outcome
  once m id lead d mapped same found =
      let counted : Db = record d {
        outcomes = d.outcomes ++ outcome_row id type event.amount ∷ [];
      } in
      let (moved, added, kept) = settle_state-lead id lead counted found in
      (
        rw (closes, process_crm_inbound)
            (rw (mapped, close_deal) (rw same (rw (found, record_outcome) refl))),
        added,
        moved,
        kept,
      )

  -- A deal in a closed stage, of a lead that the tenant has, is always handled: it adds one outcome
  -- with the event's amount, and moves the lead to won or lost exactly where the state machine has the
  -- step, leaving it as it is elsewhere. Handling the same event again adds the outcome a second time.
  pub closed_deal_counts :
      (m : CrmMapping) (id : ℕ) (lead : Lead) (d : Db)
      → find (λ m'. str_eq m'.deal_external_id event.deal_external_id) d.crm_mappings ≡ some m
      → m.lead_id ≡ id
      → lead_with id d ≡ some lead
      → (d' : Db) × (process_crm_inbound event d ≡ (some (id, type), d'))
        × (d'.outcomes ≡ d.outcomes ++ outcome_row id type event.amount ∷ [])
        × (lead_with id d' ≡ some (closed_lead lead type))
        × ((process_crm_inbound event d').1.outcomes
            ≡ d'.outcomes ++ outcome_row id type event.amount ∷ [])
  closed_deal_counts m id lead d mapped same found =
      let d' : Db = closed_db id lead d in
      let (run, added, moved, kept) = once m id lead d mapped same found in
      let (again, more, _, _) = once m id (closed_lead lead type) d' (rw kept mapped) same moved in
      (d', run, added, moved, rw again more)
