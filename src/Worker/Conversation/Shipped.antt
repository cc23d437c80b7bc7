-- ===== src/Worker/Conversation/Shipped.antt =====
-- Messages that stand in a conversation after apps/worker/src/processors/conversation.ts.
use insurnace_automations.Base.{
  ℕ, String, true, Option, some, List, [], ◌∷◌, ◌++◌, Text, ◌≡◌, refl, Bool-cases, inl, inr, eq_iff,
  arith,
}
use insurnace_automations.Worker.Store.{Message, World, is_duplicate}
use insurnace_automations.Worker.Conversation.Reply.{enqueue_reply, reply_key, reply_message}
use insurnace_automations.Worker.Conversation.Mail.{
  SameMail, MayMail, enqueue_reply-MayMail, MayMail-Same,
}

key_added :
    (id : ℕ) (body : Text) (template key : String) (n : ℕ) (ms : List Message)
    → is_duplicate id (some key) (ms ++ reply_message id body template key n ∷ []) ≡ true
unfolding is_duplicate
key_added id body template key n [] = ground (arith, eq_iff key key)
key_added id body template key n (m ∷ ms) = rw (key_added id body template key n ms) (ground arith)

module _ (digest : Text → String) where
  -- The conversation has the message, which is written now unless it was there.
  abbrev pub Shipped : ℕ → Option String → Text → String → World → World → Type 0
  Shipped id to body template w w' =
      (is_duplicate id (some (reply_key digest template body)) w'.db.messages ≡ true)
      × MayMail digest id to body template w w'

  -- The rows that a message adds to, and the number it gets, are the same.
  abbrev pub Level : World → World → Type 0
  Level w w1 =
      (w.db.outbox ≡ w1.db.outbox)
      × (w.db.messages ≡ w1.db.messages)
      × (w.db.next_id ≡ w1.db.next_id)

  pub enqueue_reply-Shipped :
      (id : ℕ) (to : Option String) (body : Text) (template : String) (w w1 : World)
      → Level w w1
      → Shipped id to body template w (enqueue_reply digest id to body template w1)
  unfolding enqueue_reply
  enqueue_reply-Shipped id to body template w w1 (outbox, messages, next) =
      let key = reply_key digest template body in
      (
        elim (Bool-cases (is_duplicate id (some key) w1.db.messages)) [
          | inl old ↦ rw (old, old) refl
          | inr fresh ↦ rw fresh (key_added id body template key w1.db.next_id w1.db.messages)
        ],
        rw (outbox, messages, next) (enqueue_reply-MayMail digest id to body template w1),
      )

  pub Shipped-Same :
      (id : ℕ) (to : Option String) (body : Text) (template : String) (w w1 w2 : World)
      → Shipped id to body template w w1
      → SameMail w1 w2
      → Shipped id to body template w w2
  Shipped-Same id to body template w w1 w2 (e, m) same =
      (rw same.1 e, MayMail-Same digest id to body template w w1 w2 m same)
