-- ===== src/Tests/Dedup.antt =====
-- One open lead with the incoming phone number, and one that was lost.
use insurnace_automations.Base.{ℕ, some, none, false, [], ◌∷◌, ◌≡◌, refl}
use insurnace_automations.Core.Types.{LeadState, engaged, lost}
use insurnace_automations.Core.Dedup.{DedupCandidate, DedupInput, merge, resolve_duplicate}
use insurnace_automations.Core.Dedup.Laws.{Promise, resolve-Promise}

abbrev candidate : ℕ → LeadState → DedupCandidate
candidate id state = record {
  lead_id = id;
  phone_e164 = some "+13145550100";
  email_normalized = none;
  external_ids = [];
  state = state;
}

abbrev input : DedupInput
input = record {
  phone_e164 = some "+13145550100";
  email_normalized = none;
  external_ids = [];
  is_existing_customer = false;
}

dedup_tests :
    resolve_duplicate input (candidate 1 lost ∷ candidate 2 engaged ∷ [])
    ≡ merge 2 "merged into an existing open lead"
unfolding resolve_duplicate
dedup_tests = refl

resolve-Promise_example :
    Promise input
      (candidate 1 lost ∷ candidate 2 engaged ∷ [])
      (resolve_duplicate input (candidate 1 lost ∷ candidate 2 engaged ∷ []))
resolve-Promise_example = resolve-Promise input (candidate 1 lost ∷ candidate 2 engaged ∷ [])
