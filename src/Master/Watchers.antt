-- ===== src/Master/Watchers.antt =====
-- The watchers of a job after a broadcast.
use mathlib.Core.Option.{some-injective}
use cvdbench.Base.{
  ◌≤◌, ◌≡◌, ◌≢◌, refl, sym, ◌∙◌, subst, if_pos, true, false, Bool-cases, Option-cases, inl, inr,
  List, [], ◌∷◌, ◌++◌, none, some, Text, text_eq, All, length, length-append, arith, ltb,
}
use cvdbench.Base.Map.{Map, lookup, lookup-insert_self, lookup-insert_ne, lookup-remove}
use cvdbench.Master.State.{JobEvent, Message, event, EventSender}
use cvdbench.Master.Events.{
  subscriber_capacity, ok, closed, full, try_send, retain_sent, store_watchers, broadcast,
}

-- The message is in the watcher's channel, within its capacity, and the receiver is there.
pub record HasReceived (m : Message) (tx : EventSender) : Type 0 where
  pub before : List Message
  pub last : tx.queued ≡ before ++ m ∷ []
  pub within : length tx.queued ≤ subscriber_capacity
  pub connected : tx.receiver_closed ≡ false

-- The three ways of `try_send`.
module _ (m : Message) (tx : EventSender) where
  try_send_closed : tx.receiver_closed ≡ true → try_send tx m ≡ closed
  unfolding try_send
  try_send_closed c = ground arith

  try_send_full :
      tx.receiver_closed ≡ false
      → ltb (length tx.queued) subscriber_capacity ≡ false
      → try_send tx m ≡ full
  unfolding try_send
  try_send_full c f = ground arith

  try_send_ok :
      tx.receiver_closed ≡ false
      → ltb (length tx.queued) subscriber_capacity ≡ true
      → try_send tx m ≡ ok (record tx { queued = tx.queued ++ m ∷ [] })
  unfolding try_send
  try_send_ok c f = ground arith

retain_sent-received :
    (m : Message) (txs : List EventSender) → All (HasReceived m) (retain_sent m txs)
unfolding retain_sent
retain_sent-received m [] = tt
retain_sent-received m (tx ∷ txs) = elim (Bool-cases tx.receiver_closed) [
  | inl gone ↦ rw (try_send_closed m tx gone, retain_sent) (retain_sent-received m txs)
  | inr there ↦ elim (Bool-cases (ltb (length tx.queued) subscriber_capacity)) [
    | inr over ↦ rw (try_send_full m tx there over, retain_sent) (retain_sent-received m txs)
    | inl room ↦
        rw (try_send_ok m tx there room, retain_sent)
          (
            record {
              before = tx.queued;
              last = refl;
              within = ground (arith, length-append tx.queued (m ∷ []));
              connected = there;
            },
            retain_sent-received m txs,
          )
  ]
]

store_watchers-lookup :
    (j : Text) (txs txs' : List EventSender) (m : Map (List EventSender))
    → lookup j (store_watchers j txs m) ≡ some txs'
    → txs' ≡ txs
unfolding store_watchers
store_watchers-lookup j [] txs' m e = cc (e, lookup-remove j j m ∙ if_pos (text_eq j j) refl _ _)
store_watchers-lookup j (tx ∷ txs) txs' m e =
    some-injective _ _ (sym e ∙ lookup-insert_self j (tx ∷ txs) m)

store_watchers-other :
    (j k : Text) (txs : List EventSender) (m : Map (List EventSender))
    → j ≢ k
    → lookup k (store_watchers j txs m) ≡ lookup k m
unfolding store_watchers
store_watchers-other j k [] m n = ground (arith, lookup-remove k j m)
store_watchers-other j k (tx ∷ txs) m n = lookup-insert_ne k j (tx ∷ txs) m n

-- After the broadcast of an event, every watcher of the job that is still registered has the event as
-- the last message of its channel, which holds no more than 64, and its receiver is connected.
pub broadcast-received :
    (j : Text) (e : JobEvent) (m : Map (List EventSender)) (txs : List EventSender)
    → lookup j (broadcast j e m) ≡ some txs
    → All (HasReceived (event e)) txs
unfolding broadcast
broadcast-received j e m txs h = elim (Option-cases (lookup j m)) [
  | inl none_there ↦ cc (none_there, subst (λ x. lookup j x ≡ some txs) (nobody none_there) h)
  | inr (old, p) ↦
      subst (All (HasReceived (event e)))
        (sym
          (store_watchers-lookup j _ txs m (subst (λ x. lookup j x ≡ some txs) (somebody old p) h)))
        (retain_sent-received (event e) old)
]
  where
    nobody : lookup j m ≡ none → broadcast j e m ≡ m
    nobody p = rw (p, broadcast) refl

    somebody :
        (old : List EventSender)
        → lookup j m ≡ some old
        → broadcast j e m ≡ store_watchers j (retain_sent (event e) old) m
    somebody old p = rw (p, broadcast) refl
