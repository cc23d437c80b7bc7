-- ===== src/Tests/Crm.antt =====
-- A lead that goes to the CRM twice, and its deal that comes back won.
use insurnace_automations.Base.{some, [], ◌∷◌, ◌++◌, codes, ◌≡◌, refl}
use insurnace_automations.Base.Int.{pos}
use insurnace_automations.Core.Types.{booked}
use insurnace_automations.Worker.Store.{won, CrmCall, Db, World, ok, lead_with}
use insurnace_automations.Worker.Outcomes.{world_of}
use insurnace_automations.Worker.CrmSync.{CrmAnswer, done, refused, synced, process_crm_sync}
use insurnace_automations.Worker.CrmSync.Laws.{Follows, resync-Updates}
use insurnace_automations.Worker.CrmInbound.{
  CrmDealEvent, type_of_stage, outcome_row, process_crm_inbound,
}
use insurnace_automations.Worker.CrmInbound.Laws.{closed_lead, closed_deal_counts}
use insurnace_automations.Tests.Data.{lead_in, world_in}

abbrev connected : World
connected = record (world_in booked) {
  db = record (world_in booked).db { crm_connection = some "token" };
}

abbrev answers : CrmCall → CrmAnswer
answers c = done "41"

abbrev fails : CrmCall → CrmAnswer
fails c = refused "rate limited"

abbrev mirrored : World
mirrored = world_of (process_crm_sync answers 1 connected)

first_run : process_crm_sync answers 1 connected ≡ ok (synced "41" "41") mirrored
unfolding process_crm_sync
first_run = refl

abbrev renames : CrmCall → CrmAnswer
renames c = done "42"

-- A run that fails, one that gets other ids, and one after it.
resync-Updates_example : Follows 1 "41" "41" (fails ∷ renames ∷ answers ∷ []) mirrored
resync-Updates_example =
    resync-Updates answers (fails ∷ renames ∷ answers ∷ []) (lead_in booked) connected mirrored "41"
      "41" refl first_run

abbrev deal_won : CrmDealEvent
deal_won = record { deal_external_id = "41"; stage = codes "ClosedWon"; amount = some (pos 900) }

abbrev linked : Db
linked = record connected.db {
  crm_mappings = record { lead_id = 1; contact_external_id = "40"; deal_external_id = "41" } ∷ [];
}

is_won : type_of_stage deal_won.stage ≡ some won
unfolding type_of_stage
is_won = refl

closed_deal_counts_example :
    (d' : Db) × (process_crm_inbound deal_won linked ≡ (some (1, won), d'))
    × (d'.outcomes ≡ [] ++ outcome_row 1 won (some (pos 900)) ∷ [])
    × (lead_with 1 d' ≡ some (closed_lead (lead_in booked) won))
    × ((process_crm_inbound deal_won d').1.outcomes
        ≡ d'.outcomes ++ outcome_row 1 won (some (pos 900)) ∷ [])
closed_deal_counts_example =
    closed_deal_counts deal_won won is_won
      (record { lead_id = 1; contact_external_id = "40"; deal_external_id = "41" }) 1
      (lead_in booked) linked refl refl refl
