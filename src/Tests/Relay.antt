-- ===== src/Tests/Relay.antt =====
-- The waiting message, sent once.
use insurnace_automations.Base.{true, ◌≡◌, refl}
use insurnace_automations.Core.Types.{contacted}
use insurnace_automations.Worker.Store.{SendPayload, World, ok}
use insurnace_automations.Worker.Relay.{
  SendResult, accepted, refused, sent, already_dispatched, outbox_with, process_messaging_out,
}
use insurnace_automations.Worker.Relay.Laws.{RelayPromise, relay-Promise, sent_once}
use insurnace_automations.Tests.Data.{world_in, outbox_row}

abbrev provider : SendPayload → SendResult
provider payload = accepted "SM9"

abbrev down : SendPayload → SendResult
down payload = refused true "30008" "unreachable"

relay-Promise_example :
    RelayPromise down 4
      (outbox_with 4 (world_in contacted).db)
      (world_in contacted)
      (process_messaging_out down 4 (world_in contacted))
relay-Promise_example = relay-Promise down 4 (world_in contacted)

sent_once_example :
    (w' : World) × (process_messaging_out provider 4 (world_in contacted) ≡ ok (sent "SM9") w')
    × (process_messaging_out down 4 w' ≡ ok already_dispatched w')
sent_once_example = sent_once provider down 4 outbox_row "SM9" (world_in contacted) refl refl refl
