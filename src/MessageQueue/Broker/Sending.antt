-- ===== src/MessageQueue/Broker/Sending.antt =====
-- Shared/MessageQueue/MessageQueue.cpp, SendMessage: when a message is accepted, and that a call that
-- is refused changes no queue.
use helianthus.Prelude.{
  ℕ, ◌≤◌, ◌<◌, ◌≡◌, ◌⊎◌, refl, ◌≢◌, ◌↔◌, inl, inr, true, Option, none, some, arith, Name,
  same_name→eq, find, find-put, Option-cases,
}
use helianthus.MessageQueue.Types.{QueueResult}
use helianthus.MessageQueue.Message.{Message, validate_message}
use helianthus.MessageQueue.Queue.{QueueData, message_count}
use helianthus.MessageQueue.Broker.{Broker, generate_message_id}
use helianthus.MessageQueue.Broker.Transfer.{Transforms, prepared, enqueue, send_message}

-- The queue takes one more message: it has a place, or its limit is more than five and is not kept.
abbrev pub HasRoom : QueueData → Type 0
HasRoom q = (message_count q < q.config.max_size) ⊎ (5 < q.config.max_size)

enqueue-success_iff :
    (t : Transforms) (now : ℕ) (name : Name) (m : Message) (q : QueueData)
    → ((enqueue t now name m q).0 ≡ QueueResult.success)
      ↔ (HasRoom q × (m.body.size ≤ q.config.max_size_bytes))
enqueue-success_iff t now name m q = ground arith

enqueue-refused :
    (t : Transforms) (now : ℕ) (name : Name) (m : Message) (q : QueueData)
    → (enqueue t now name m q).0 ≢ QueueResult.success
    → (enqueue t now name m q).1 ≡ q
enqueue-refused t now name m q h = ground arith

-- SendMessage to a queue that exists answers SUCCESS exactly when the message is valid, the payload
-- as sealed is within the queue's limit, and the queue holds fewer messages than its MaxSize or its
-- MaxSize is more than 5: the capacity of larger queues is not enforced.
pub send_message-success_iff :
    (t : Transforms) (now : ℕ) (name : Name) (m : Message) (q : QueueData) (b : Broker)
    → find name b.queues ≡ some q
    → ((send_message t now name (some m) b).0 ≡ QueueResult.success) ↔ (
        (validate_message (some m) ≡ true)
        × HasRoom q
        × ((t.seal name m.body).size ≤ q.config.max_size_bytes))
unfolding send_message generate_message_id
send_message-success_iff t now name m q b e =
    let k = enqueue-success_iff t now name (prepared t name b.next_id m) q in
    rw (e, send_message) (ground arith)

-- A SendMessage that does not answer SUCCESS leaves every queue as it was.
pub send_message-refused :
    (t : Transforms) (now : ℕ) (name j : Name) (m : Option Message) (b : Broker)
    → (send_message t now name m b).0 ≢ QueueResult.success
    → find j (send_message t now name m b).1.queues ≡ find j b.queues
unfolding send_message generate_message_id
send_message-refused t now name j none b n = refl
send_message-refused t now name j (some m) b n = elim (Option-cases (find name b.queues)) [
  | inl e ↦ ground arith
  | inr found ↦
      let (q, e) = found in
      let k = enqueue-refused t now name (prepared t name b.next_id m) q in
      let p = find-put name j q b.queues in let s = same_name→eq name j in ground arith
]
