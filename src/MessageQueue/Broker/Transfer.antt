-- ===== src/MessageQueue/Broker/Transfer.antt =====
-- Shared/MessageQueue/MessageQueue.cpp: sending, receiving, and settling what was received. A wait
-- that ends is the call on the queue as it then is. What compression and encryption (`seal`,
-- `unseal`) and routing (`route`) do to a payload and its properties is a parameter, and so is the
-- clock.
use helianthus.Prelude.{
  ℕ, Bool, true, not, ◌&&◌, Option, none, some, List, [], ◌∷◌, find_id, put_id, remove_id, Name,
  find, ltb, leb, if◌then◌else◌,
}
use helianthus.MessageQueue.Types.{QueueResult, MessageStatus, DeadLetterReason}
use helianthus.MessageQueue.Message.{
  Body, Message, validate_message, is_expired, can_retry, increment_retry,
}
use helianthus.MessageQueue.Queue.{
  QueueStats, QueueData, incr, is_empty, message_count, add_message, take_next, get_next_message,
}
use helianthus.MessageQueue.Broker.{Broker, set_queue, generate_message_id}
use helianthus.MessageQueue.Broker.DeadLetter.{marked_dead, move_to_dead_letter}

pub record Transforms : Type 0 where
  pub seal : Name → Body → Body
  pub route : Name → List (Name × Name) → List (Name × Name)
  pub unseal : Name → Body → Body

abbrev pub routed : Transforms → Name → Body → Body
routed t name b = record b { properties = t.route name b.properties }

abbrev pub with_body : (Body → Body) → Message → Message
with_body f m = record m { body = f m.body }

-- Only queues of at most five messages are strict about their capacity.
abbrev pub is_full : QueueData → Bool
is_full q = leb q.config.max_size (message_count q) && leb q.config.max_size 5

abbrev pub count_sent : ℕ → QueueStats → QueueStats
count_sent now s = record s { last_message_time = now }

abbrev pub count_received : ℕ → QueueStats → QueueStats
count_received now s = record s {
  processed_messages = incr s.processed_messages;
  last_message_time = now;
}

abbrev pub prepared : Transforms → Name → ℕ → Message → Message
prepared t name id m = with_body (t.seal name) (record m { id = id; status = MessageStatus.sent })

abbrev pub note_sent : ℕ → QueueData → QueueData
note_sent now q = record q { stats = count_sent now q.stats }

-- The message that is queued is then routed: the queue holds the same object.
abbrev pub enqueue : Transforms → ℕ → Name → Message → QueueData → QueueResult × QueueData
enqueue t now name m q =
    if is_full q
    then (QueueResult.queue_full, q)
    else if ltb q.config.max_size_bytes m.body.size
    then (QueueResult.message_too_large, q)
    else (QueueResult.success, note_sent now (add_message (with_body (routed t name) m) q))

abbrev pub send_to : Transforms → ℕ → Name → Message → QueueData → ℕ × Broker → QueueResult × Broker
send_to t now name m q (id, b) =
    let (r, q') = enqueue t now name (prepared t name id m) q in (r, set_queue name q' b)

unfoldable pub send_message : Transforms → ℕ → Name → Option Message → Broker → QueueResult × Broker
send_message t now name none b = (QueueResult.invalid_parameter, b)
send_message t now name (some m) b =
    if validate_message (some m)
    then elim (find name b.queues) [
      | none ↦ (QueueResult.queue_not_found, b)
      | some q ↦ send_to t now name m q (generate_message_id b)
    ]
    else (QueueResult.invalid_parameter, b)

-- ReceiveMessage without a timeout; `none` is the call of `front` on an empty queue.
unfoldable pub receive_message :
    Transforms
    → ℕ
    → ℕ
    → Name
    → Option Message
    → Broker
    → Option (QueueResult × Option Message × Broker)
receive_message t now pick name out b = elim (find name b.queues) [
  | none ↦ some (QueueResult.queue_not_found, out, b)
  | some q ↦ if is_empty q then some (QueueResult.timeout, none, b) else elim (take_next pick q) [
    | none ↦ none
    | some (m, q') ↦ some (
      QueueResult.success,
      some (with_body (t.unseal name) m),
      set_queue name (record q' { stats = count_received now q'.stats }) b,
    )
  ]
]

abbrev pub delivered : Message → Message
delivered m = record m { status = MessageStatus.delivered }

-- Without a consumer, or if the first one does not acknowledge by itself.
abbrev pub wants_ack : QueueData → Bool
wants_ack q = elim q.consumers [ [] ↦ true | auto ∷ rest ↦ not auto ]

abbrev pub await_ack : Message → QueueData → QueueData
await_ack m q = if wants_ack q then record q { pending_acks = put_id m.id m q.pending_acks } else q

abbrev pub too_early : ℕ → Message → Bool
too_early now m = ltb 0 m.retry_count && ltb now m.next_retry_time

-- ReceiveMessage with a timeout, after it took the message `m` and opened its payload.
abbrev pub deliver : ℕ → Name → Message → QueueData → Broker → QueueResult × Option Message × Broker
deliver now name m q b =
    if is_expired now m
    then (
      QueueResult.timeout,
      some (marked_dead now name DeadLetterReason.expired m),
      move_to_dead_letter now name m DeadLetterReason.expired (set_queue name q b),
    )
    else if too_early now m
    then (QueueResult.timeout, some m, set_queue name q b)
    else (
      QueueResult.success,
      some (delivered m),
      set_queue name (await_ack (delivered m) (record q { stats = count_received now q.stats })) b,
    )

unfoldable pub receive_within :
    Transforms → ℕ → ℕ → Name → Option Message → Broker → QueueResult × Option Message × Broker
receive_within t now pick name out b = elim (find name b.queues) [
  | none ↦ (QueueResult.queue_not_found, out, b)
  | some q ↦ elim (get_next_message pick q) [
    | none ↦ (QueueResult.timeout, none, b)
    | some (m, q') ↦ deliver now name (with_body (t.unseal name) m) q' b
  ]
]

unfoldable pub acknowledge_message : Name → ℕ → Broker → QueueResult × Broker
acknowledge_message name id b = elim (find name b.queues) [
  | none ↦ (QueueResult.queue_not_found, b)
  | some q ↦ elim (find_id id q.pending_acks) [
    | none ↦ (QueueResult.invalid_parameter, b)
    | some m ↦ (
      QueueResult.success,
      set_queue name
          (record q {
            pending_acks = remove_id id q.pending_acks;
            stats = record q.stats { processed_messages = incr q.stats.processed_messages };
          })
          b,
    )
  ]
]

-- A message that is rejected and queued once more.
abbrev pub retried : ℕ → Message → Message
retried now m = record (increment_retry now (record m { next_retry_time = now })) {
  status = MessageStatus.pending;
}

abbrev pub count_retried : QueueData → QueueData
count_retried q = record q {
  stats = record q.stats { retried_messages = incr q.stats.retried_messages };
}

-- The end of RejectMessage: `q` is the queue without the pending message `m`.
abbrev pub settle_rejected : ℕ → Name → Bool → Message → QueueData → Broker → Broker
settle_rejected now name requeue m q b =
    if requeue && can_retry m
    then set_queue name (count_retried (add_message (retried now m) q)) b
    else move_to_dead_letter now name m
        (if requeue then DeadLetterReason.max_retries_exceeded else DeadLetterReason.rejected)
        (set_queue name q b)

unfoldable pub reject_message : ℕ → Name → ℕ → Bool → Broker → QueueResult × Broker
reject_message now name id requeue b = elim (find name b.queues) [
  | none ↦ (QueueResult.queue_not_found, b)
  | some q ↦ elim (find_id id q.pending_acks) [
    | none ↦ (QueueResult.message_not_found, b)
    | some m ↦ (
      QueueResult.success,
      settle_rejected now name requeue m (record q { pending_acks = remove_id id q.pending_acks })
          b,
    )
  ]
]

unfoldable pub peek_message : ℕ → Name → Broker → QueueResult × Option Message
peek_message pick name b = elim (find name b.queues) [
  | none ↦ (QueueResult.queue_not_found, none)
  | some q ↦ elim (take_next pick q) [
    | none ↦ (QueueResult.timeout, none)
    | some (m, q') ↦ (QueueResult.success, some m)
  ]
]
