-- ===== src/Worker/Ingest/Match.antt =====
-- apps/worker/src/processors/ingest.ts: the leads that a new one may duplicate, and the unique index on phones.
use insurnace_automations.Base.{
  String, Bool, false, not, ◌&&◌, ◌||◌, Option, some, List, [], ◌∷◌, map, filter, any, take, str_eq,
}
use insurnace_automations.Core.Types.{LeadState, archived, lost, won, opted_out}
use insurnace_automations.Core.StateMachine.{has}
use insurnace_automations.Core.Dedup.{
  DedupCandidate, DedupInput, DedupOutcome, same_text, resolve_duplicate,
}
use insurnace_automations.Worker.Store.{Lead, Db}
use insurnace_automations.Worker.Mapping.{NormalizedLead}

-- `loadCandidates`: the first 25 leads of the same phone or email.
unfoldable pub is_candidate : NormalizedLead → Lead → Bool
is_candidate n l =
    same_text n.phone_e164 l.phone_e164 || same_text n.email_normalized l.email_normalized

unfoldable pub load_candidates : NormalizedLead → Db → List Lead
unfolding is_candidate
load_candidates n d = take 25 (filter (is_candidate n) d.leads)

-- No modelled code writes external ids to a lead, and a mapped lead brings none.
abbrev pub dedup_candidate : Lead → DedupCandidate
dedup_candidate l = record {
  lead_id = l.id;
  phone_e164 = l.phone_e164;
  email_normalized = l.email_normalized;
  external_ids = [];
  state = l.state;
}

abbrev pub dedup_input : NormalizedLead → DedupInput
dedup_input n = record {
  phone_e164 = n.phone_e164;
  email_normalized = n.email_normalized;
  external_ids = n.external_ids;
  is_existing_customer = n.is_existing_customer;
}

unfoldable pub outcome_for : NormalizedLead → Db → DedupOutcome
unfolding load_candidates
outcome_for n d = resolve_duplicate (dedup_input n) (map dedup_candidate (load_candidates n d))

-- Whether the index `leads_open_phone` forbids a lead.
unfoldable pub closed_states : List LeadState
closed_states = archived ∷ lost ∷ won ∷ opted_out ∷ []

abbrev pub same_phone : Option String → Option String → Bool
same_phone (some p) (some q) = str_eq q p
same_phone _ _ = false

unfoldable pub phone_taken : Option String → List Lead → Bool
unfolding closed_states
phone_taken phone leads =
    any (λ l. same_phone phone l.phone_e164 && not (has closed_states l.state)) leads
