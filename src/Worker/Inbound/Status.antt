-- ===== src/Worker/Inbound/Status.antt =====
-- Delivery statuses in apps/worker/src/processors/messaging-events.ts, in any order.
use insurnace_automations.Base.{
  String, Bool, true, In, find-In, some, List, [], ◌∷◌, find, update_where, All, ◌≡◌, refl, ◌≢◌,
  ◌⊎◌, inl, inr, sym, ap, subst, get_or, ◌∙◌, ◌==◌, ==_iff, Bool-cases, Option-cases, if◌then◌else◌,
}
use insurnace_automations.Worker.Store.{
  Message, MessageStatus, queued, sent, delivered, undelivered, failed, received, Db,
}
use insurnace_automations.Worker.Inbound.{
  is_status_newer, parse_status, sid_is, set_status, process_status,
}

-- The identifiers are a key.
abbrev pub Keyed : List Message → Type 0
Keyed [] = Unit
Keyed (m ∷ ms) = All (λ n. n.id ≢ m.id) ms × Keyed ms

-- The reports that are later than a status: sent after queued, a failure after sent, delivered last.
pub data Later : MessageStatus → MessageStatus → Type 0 where
  sent_after_queued : Later sent queued
  delivered_after_queued : Later delivered queued
  delivered_after_sent : Later delivered sent
  delivered_after_undelivered : Later delivered undelivered
  delivered_after_failed : Later delivered failed
  undelivered_after_queued : Later undelivered queued
  undelivered_after_sent : Later undelivered sent
  failed_after_queued : Later failed queued
  failed_after_sent : Later failed sent

Later-newer : {s c : MessageStatus} → Later s c → is_status_newer s c ≡ true
unfolding is_status_newer
Later-newer sent_after_queued = refl
Later-newer delivered_after_queued = refl
Later-newer delivered_after_sent = refl
Later-newer delivered_after_undelivered = refl
Later-newer delivered_after_failed = refl
Later-newer undelivered_after_queued = refl
Later-newer undelivered_after_sent = refl
Later-newer failed_after_queued = refl
Later-newer failed_after_sent = refl

newer-Later : (s c : MessageStatus) → is_status_newer s c ≡ true → Later s c
unfolding is_status_newer
newer-Later received c h = cc
newer-Later queued queued h = cc
newer-Later queued sent h = cc
newer-Later queued delivered h = cc
newer-Later queued undelivered h = cc
newer-Later queued failed h = cc
newer-Later queued received h = cc
newer-Later sent queued h = sent_after_queued
newer-Later sent sent h = cc
newer-Later sent delivered h = cc
newer-Later sent undelivered h = cc
newer-Later sent failed h = cc
newer-Later sent received h = cc
newer-Later delivered queued h = delivered_after_queued
newer-Later delivered sent h = delivered_after_sent
newer-Later delivered delivered h = cc
newer-Later delivered undelivered h = delivered_after_undelivered
newer-Later delivered failed h = delivered_after_failed
newer-Later delivered received h = cc
newer-Later undelivered queued h = undelivered_after_queued
newer-Later undelivered sent h = undelivered_after_sent
newer-Later undelivered delivered h = cc
newer-Later undelivered undelivered h = cc
newer-Later undelivered failed h = cc
newer-Later undelivered received h = cc
newer-Later failed queued h = failed_after_queued
newer-Later failed sent h = failed_after_sent
newer-Later failed delivered h = cc
newer-Later failed undelivered h = cc
newer-Later failed failed h = cc
newer-Later failed received h = cc

-- A message is as it was, or has a later status and is otherwise as it was.
abbrev pub Kept : Message → Message → Type 0
Kept m m' = (m' ≡ m) ⊎ ((m' ≡ record m { status = m'.status }) × Later m'.status m.status)

abbrev pub AllKept : List Message → List Message → Type 0
AllKept [] ns = ns ≡ []
AllKept (m ∷ ms) [] = ⊥
AllKept (m ∷ ms) (n ∷ ns) = Kept m n × AllKept ms ns

-- Messages with the identifier have the status.
abbrev pub Same : Message → Message → Type 0
Same m n = (n.id ≢ m.id) ⊎ (n.status ≡ m.status)

others : (m : Message) (ms : List Message) → All (λ n. n.id ≢ m.id) ms → All (Same m) ms
others m [] h = h
others m (n ∷ ms) h = (inl (h.0), others m ms h.1)

found-not :
    (p : Message → Bool) (m n : Message) (ms : List Message)
    → All (λ n. n.id ≢ m.id) ms
    → find p ms ≡ some n
    → m.id ≢ n.id
found-not p m n [] h e = cc
found-not p m n (k ∷ ms) h e = elim (Bool-cases (p k)) [
  | inl hit ↦
      let e' : some k ≡ some n = rw hit at e in λ s. h.0 (ap (λ o. (get_or o k).id) e' ∙ sym s)
  | inr miss ↦ found-not p m n ms h.1 (rw miss at e)
]

found-Same :
    (p : Message → Bool) (m : Message) (ms : List Message)
    → Keyed ms
    → find p ms ≡ some m
    → All (Same m) ms
found-Same p m [] k e = cc
found-Same p m (n ∷ ms) k e = elim (Bool-cases (p n)) [
  | inl hit ↦
      let e' : some n ≡ some m = rw hit at e in
      subst (λ x. All (Same x) (n ∷ ms)) (ap (λ o. get_or o n) e') (inr refl, others n ms k.0)
  | inr miss ↦
      let rest : find p ms ≡ some m = rw miss at e in
      (inl (found-not p n m ms k.0 rest), found-Same p m ms k.1 rest)
]

advance_one :
    (m n : Message) (s : MessageStatus)
    → Later s m.status
    → Same m n
    → Kept n (if n.id == m.id then record n { status = s } else n)
advance_one m n s newer h = elim (Bool-cases (n.id == m.id)) [
  | inl e ↦ rw e (
      inr (refl, elim h [ inl d ↦ absurd (d ((==_iff n.id m.id).0 e)) | inr same ↦ rw same newer ]))
  | inr e ↦ rw e (inl refl)
]

advance :
    (m : Message) (s : MessageStatus) (ms : List Message)
    → Later s m.status
    → All (Same m) ms
    → AllKept ms (update_where (λ n. n.id == m.id) (λ n. record n { status = s }) ms)
advance m s [] newer h = refl
advance m s (n ∷ ms) newer h = (advance_one m n s newer h.0, advance m s ms newer h.1)

all_same : (ms : List Message) → AllKept ms ms
all_same [] = refl
all_same (m ∷ ms) = (inl refl, all_same ms)

kept_by_report :
    (sid status : String) (d : Db)
    → Keyed d.messages
    → AllKept d.messages (process_status sid status d).messages
unfolding process_status set_status
kept_by_report sid status d k = elim (Option-cases (find (sid_is sid) d.messages)) [
  | inl e ↦ rw (e, process_status) (all_same d.messages)
  | inr (m, e) ↦ elim (Option-cases (parse_status status)) [
    | inl f ↦ rw (e, f, process_status) (all_same d.messages)
    | inr (s, f) ↦ elim (Bool-cases (is_status_newer s m.status)) [
      | inl g ↦
          rw (e, f, process_status)
            (rw g (
              advance m s d.messages (newer-Later s m.status g)
                (found-Same (sid_is sid) m d.messages k e)))
      | inr g ↦ rw (e, f, process_status) (rw g (all_same d.messages))
    ]
  ]
]

-- The status of a report is taken if it is later than that of the message that has the sid.
abbrev pub Taken : String → String → Db → Db → Type 0
Taken sid status d d' =
    (m : Message) (s : MessageStatus)
    → find (sid_is sid) d.messages ≡ some m
    → parse_status status ≡ some s
    → Later s m.status
    → In (record m { status = s }) d'.messages

taken :
    (m : Message) (s : MessageStatus) (ms : List Message)
    → In m ms
    → In
        (record m { status = s })
        (update_where (λ n. n.id == m.id) (λ n. record n { status = s }) ms)
taken m s [] h = absurd h
taken m s (x ∷ ms) (inl e) = inl (rw (sym e, (==_iff m.id m.id).1 refl) refl)
taken m s (x ∷ ms) (inr h) = inr (taken m s ms h)

process_status-Taken :
    (sid status : String) (d : Db) → Taken sid status d (process_status sid status d)
unfolding process_status set_status
process_status-Taken sid status d m s e f later =
    rw (e, f, process_status, Later-newer later)
      (taken m s d.messages (find-In (sid_is sid) d.messages m e))

-- Whatever status the provider reports for whatever message, and however late, each message keeps its
-- status or gets a later one; nothing else of it changes. Later is sent after queued, undelivered or
-- failed after those two, and delivered after those four. A report that is later than the status of the
-- message that has its sid is taken. The identifiers have to be a key, as in the table.
pub process_status-AllKept :
    (sid status : String) (d : Db)
    → Keyed d.messages
    → AllKept d.messages (process_status sid status d).messages
      × Taken sid status d (process_status sid status d)
process_status-AllKept sid status d k =
    (kept_by_report sid status d k, process_status-Taken sid status d)
