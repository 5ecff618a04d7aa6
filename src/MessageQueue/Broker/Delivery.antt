-- ===== src/MessageQueue/Broker/Delivery.antt =====
-- Shared/MessageQueue/MessageQueue.cpp, ReceiveMessage: what is delivered, and what acknowledging it
-- does.
use helianthus.Prelude.{
  ℕ, suc, ◌≡◌, refl, ap, inl, inr, true, false, Option, none, some, [], arith, Name, find,
  Option-cases,
}
use helianthus.MessageQueue.Types.{QueueResult}
use helianthus.MessageQueue.Message.{Message}
use helianthus.MessageQueue.Queue.{
  QueueConfig, QueueData, is_empty_list, message_count, take_next, get_next_message,
}
use helianthus.MessageQueue.Queue.Counts.{take_next-count}
use helianthus.MessageQueue.Broker.{
  find-set_queue, Broker, set_queue, validate_queue_config, update_queue_config,
}
use helianthus.MessageQueue.Broker.Transfer.{
  Transforms, count_received, receive_message, receive_within,
}

-- ReceiveMessage without a timeout answers SUCCESS with one message fewer in the queue, but leaves
-- the counter of waiting messages as it was.
pub receive_message-uncounted :
    (t : Transforms) (now pick : ℕ) (name : Name) (out : Option Message) (x : Message)
    (q : QueueData) (b b' : Broker)
    → find name b.queues ≡ some q
    → receive_message t now pick name out b ≡ some (QueueResult.success, some x, b')
    → (q' : QueueData) × (find name b'.queues ≡ some q')
      × (message_count q ≡ suc (message_count q'))
      × (q'.stats.pending_messages ≡ q.stats.pending_messages)
unfolding receive_message
receive_message-uncounted t now pick name out x q b b' f e =
    elim (Option-cases (take_next pick q)) [
      | inl n ↦ ground arith
      | inr taken ↦
          let ((m, q'), k) = taken in
          let (c, s) = take_next-count pick q q' m k in
          let taken_from : QueueData = record q' { stats = count_received now q'.stats } in
          let p = find-set_queue name taken_from b in
          (taken_from, ground arith, c, ap (λ s. s.pending_messages) s)
    ]

update_queue_config-found :
    (name : Name) (config : QueueConfig) (q : QueueData) (b : Broker)
    → find name b.queues ≡ some q
    → validate_queue_config config ≡ true
    → (update_queue_config name config b).1 ≡ set_queue name (record q { config = config }) b
unfolding update_queue_config
update_queue_config-found name config q b f v = rw (f, update_queue_config, v) refl

take_next-stranded :
    (pick : ℕ) (q : QueueData)
    → q.config.enable_priority ≡ false
    → q.messages ≡ []
    → (take_next pick q ≡ none) × (get_next_message pick q ≡ none)
unfolding take_next get_next_message
take_next-stranded pick q p m = ground arith

-- Once priorities are switched off on a queue whose messages are all in the priority queue, it is
-- not empty, ReceiveMessage with a timeout answers TIMEOUT, and without one it reads the front of
-- an empty queue.
pub update_queue_config-stranded :
    (t : Transforms) (now pick : ℕ) (name : Name) (out : Option Message) (config : QueueConfig)
    (q : QueueData) (b : Broker)
    → find name b.queues ≡ some q
    → validate_queue_config config ≡ true
    → config.enable_priority ≡ false
    → q.messages ≡ []
    → is_empty_list q.priority_messages ≡ false
    → (let b' = (update_queue_config name config b).1 in
        ((receive_within t now pick name out b').0 ≡ QueueResult.timeout)
        × (receive_message t now pick name out b' ≡ none))
unfolding update_queue_config receive_within receive_message
update_queue_config-stranded t now pick name out config q b f v p m s =
    let q' : QueueData = record q { config = config } in
    let u = update_queue_config-found name config q b f v in
    let k = find-set_queue name q' b in
    let n = take_next-stranded pick q' p m in rw (u) (ground arith, ground arith)
