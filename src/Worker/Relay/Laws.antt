-- ===== src/Worker/Relay/Laws.antt =====
-- Theorems on `processMessagingOut` of apps/worker/src/processors/relay.ts.
use insurnace_automations.Base.{
  ℕ, ◌+◌, String, ◌+++◌, Bool, true, false, Option, none, some, [], ◌∷◌, ◌++◌, find, update_where,
  find-update_where, ◌==◌, ◌≡◌, refl, if◌then◌else◌, Option-cases, inl, inr,
}
use insurnace_automations.Base.Show.{show_ℕ}
use insurnace_automations.Worker.Store.{
  Outbox, OutboxStatus, Message, MessageStatus, SendPayload, Db, World, Outcome, ok, error,
  with_tenant, settle,
}
use insurnace_automations.Worker.Relay.{
  SendResult, accepted, refused, RelayResult, sent, already_dispatched, failed, outbox_with,
  set_outbox, emit_message_event, record_answer, send_row, is_dispatched, relay_row,
  process_messaging_out,
}

abbrev row_after : OutboxStatus → Outbox → Outbox
row_after status row = record row { status = status; attempts = row.attempts + 1 }

-- The row and the message after the run.
abbrev pub Recorded : OutboxStatus → (Message → Message) → ℕ → Outbox → Db → Db → Type 0
Recorded status f id row d d' =
    (outbox_with id d' ≡ some (row_after status row))
    × (d'.messages ≡ update_where (λ m. m.id == row.payload.message_id) f d.messages)

-- What a run promises.
abbrev pub Answered : SendResult → ℕ → Outbox → World → Outcome RelayResult → Type 0
Answered (accepted sid) id row w o =
    (w' : World) × (o ≡ ok (sent sid) w')
    × (w'.sends ≡ w.sends ++ row.payload ∷ [])
    × (w'.jobs ≡ w.jobs)
    × Recorded OutboxStatus.dispatched
        (λ m. record m { status = MessageStatus.sent; provider_sid = some sid }) id row w.db w'.db
Answered (refused true code message) id row w o =
    o
    ≡ error ("retryable send failure: " +++ code +++ " " +++ message)
        (record w { sends = w.sends ++ row.payload ∷ [] })
Answered (refused false code message) id row w o =
    (w' : World) × (o ≡ ok (failed code) w')
    × (w'.sends ≡ w.sends ++ row.payload ∷ [])
    × (w'.jobs ≡ w.jobs)
    × Recorded OutboxStatus.failed (λ m. record m { status = MessageStatus.failed }) id row w.db
        w'.db

abbrev pub RelayPromise :
    (SendPayload → SendResult) → ℕ → Option Outbox → World → Outcome RelayResult → Type 0
RelayPromise send id none w o = o ≡ error ("outbox " +++ show_ℕ id +++ " not found") w
RelayPromise send id (some row) w o =
    if is_dispatched row.status
    then o ≡ ok already_dispatched w
    else Answered (send row.payload) id row w o

event_keeps :
    (id : ℕ) (type : String) (d : Db)
    → ((emit_message_event id type d).outbox ≡ d.outbox)
      × ((emit_message_event id type d).messages ≡ d.messages)
unfolding emit_message_event
event_keeps id type d = elim (Option-cases (find (λ m. m.id == id) d.messages)) [
  | inl e ↦ rw (e, emit_message_event) (refl, refl)
  | inr (m, e) ↦ elim (Option-cases (find (λ c. c.id == m.conversation_id) d.conversations)) [
    | inl f ↦ rw (e, f, emit_message_event) (refl, refl)
    | inr (c, f) ↦ rw (e, f, emit_message_event) (refl, refl)
  ]
]

row_set :
    (id : ℕ) (status : OutboxStatus) (row : Outbox) (d : Db)
    → outbox_with id d ≡ some row
    → outbox_with id (set_outbox id status (row.attempts + 1) d) ≡ some (row_after status row)
row_set id status row d e =
    find-update_where (λ o. o.id == id)
      (λ o. record o { status = status; attempts = row.attempts + 1 }) (λ o. refl) d.outbox row e

module _ (id : ℕ) (row : Outbox) (w : World) (e : outbox_with id w.db ≡ some row) where
  answered_of :
      (r : SendResult)
      → Answered r id row w
          (with_tenant (record_answer id row r) (record w { sends = w.sends ++ row.payload ∷ [] }))
  unfolding record_answer settle
  answered_of (accepted sid) = (
    _,
    refl,
    refl,
    refl,
    (
      rw ((event_keeps _ _ _).0) (row_set id OutboxStatus.dispatched row w.db e),
      (event_keeps _ _ _).1,
    ),
  )
  answered_of (refused true code message) = refl
  answered_of (refused false code message) = (
    _,
    refl,
    refl,
    refl,
    (rw ((event_keeps _ _ _).0) (row_set id OutboxStatus.failed row w.db e), (event_keeps _ _ _).1),
  )

  answered :
      (send : SendPayload → SendResult) (r : SendResult)
      → send row.payload ≡ r
      → Answered r id row w (send_row send id row w)
  unfolding send_row
  answered send r h = rw h (answered_of r)

by_status :
    (send : SendPayload → SendResult) (id : ℕ) (w : World) (row : Outbox)
    → outbox_with id w.db ≡ some row
    → (b : Bool)
    → let o = if b then ok already_dispatched w else send_row send id row w in
      if b then o ≡ ok already_dispatched w else Answered (send row.payload) id row w o
by_status send id w row e true = refl
by_status send id w row e false = answered id row w e send (send row.payload) refl

relay_row-Promise :
    (send : SendPayload → SendResult) (id : ℕ) (w : World) (o : Option Outbox)
    → outbox_with id w.db ≡ o
    → RelayPromise send id o w (relay_row send id o w)
unfolding relay_row
relay_row-Promise send id w none e = refl
relay_row-Promise send id w (some row) e = by_status send id w row e (is_dispatched row.status)

-- A run of the relay on a row that is missing throws; on a dispatched row it changes nothing. On any
-- other row, a voided one included, it makes exactly one request to the provider. An accepted request
-- leaves the row dispatched with one more attempt and its message sent with the provider's id; a final
-- refusal leaves both failed; a retryable one throws and leaves the database as it was, so that its
-- attempt is not counted.
pub relay-Promise :
    (send : SendPayload → SendResult) (id : ℕ) (w : World)
    → RelayPromise send id (outbox_with id w.db) w (process_messaging_out send id w)
unfolding process_messaging_out
relay-Promise send id w = relay_row-Promise send id w _ refl

-- A row that the provider has accepted is never sent again: every further run, whatever the provider
-- would answer, finds it dispatched and changes nothing.
pub sent_once :
    (send send' : SendPayload → SendResult) (id : ℕ) (row : Outbox) (sid : String) (w : World)
    → outbox_with id w.db ≡ some row
    → is_dispatched row.status ≡ false
    → send row.payload ≡ accepted sid
    → (w' : World) × (process_messaging_out send id w ≡ ok (sent sid) w')
      × (process_messaging_out send' id w' ≡ ok already_dispatched w')
unfolding process_messaging_out relay_row
sent_once send send' id row sid w e open_row h =
    let (w', run, sends, jobs, (found, messages)) = answered id row w e send (accepted sid) h in
    (w', rw (e, open_row, relay_row) run, rw (found, relay_row) refl)
