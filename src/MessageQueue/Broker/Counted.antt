-- ===== src/MessageQueue/Broker/Counted.antt =====
-- Shared/MessageQueue/MessageQueue.cpp: every call keeps the counters of waiting messages right.
use helianthus.Prelude.{
  ℕ, refl, inl, inr, not, Option, none, some, [], arith, Name, find, find-remove, Bool-cases,
  Option-cases,
}
use helianthus.MessageQueue.Types.{DeadLetterReason}
use helianthus.MessageQueue.Message.{Message, validate_message, is_expired}
use helianthus.MessageQueue.Queue.{QueueConfig, QueueData, incr, get_next_message}
use helianthus.MessageQueue.Broker.{
  Broker, set_queue, validate_queue_config, generate_message_id, queue_exists, delete_queue, purged,
  purge_queue, update_queue_config,
}
use helianthus.MessageQueue.Broker.DeadLetter.{dead_letter_queue_name, purge_dead_letter_queue}
use helianthus.MessageQueue.Broker.Transfer.{
  Transforms, routed, with_body, count_received, prepared, enqueue, send_message, delivered,
  await_ack, too_early, deliver, receive_within,
}
use helianthus.MessageQueue.Broker.Counters.{
  IsCounted, AllCounted, add_message-IsCounted, get_next_message-IsCounted, set_queue-AllCounted,
  either, move_to_dead_letter-AllCounted,
}

pub purge_queue-AllCounted :
    (name : Name) (b : Broker) → AllCounted b → AllCounted (purge_queue name b).1
unfolding purge_queue
purge_queue-AllCounted name b h = elim (Option-cases (find name b.queues)) [
  | inl e ↦ rw (e, purge_queue) h
  | inr found ↦
      let (q, e) = found in rw (e, purge_queue) (set_queue-AllCounted name (purged q) b h refl)
]

pub delete_queue-AllCounted :
    (name : Name) (b : Broker) → AllCounted b → AllCounted (delete_queue name b).1
unfolding delete_queue
delete_queue-AllCounted name b h = either (not b.initialized) _ _ h (
    either (queue_exists name b) _ _ (λ j q e. ground (arith, find-remove name j b.queues, h j q))
      h)

pub purge_dead_letter_queue-AllCounted :
    (name : Name) (b : Broker) → AllCounted b → AllCounted (purge_dead_letter_queue name b).1
unfolding purge_dead_letter_queue
purge_dead_letter_queue-AllCounted name b h =
    elim (Option-cases (find (dead_letter_queue_name name) b.queues)) [
      | inl e ↦ rw (e, purge_dead_letter_queue) h
      | inr found ↦
          let (d, e) = found in
          rw (e, purge_dead_letter_queue)
            (set_queue-AllCounted (dead_letter_queue_name name)
              (record d { dead_letters = []; stats = record d.stats { dead_letter_messages = 0 } })
              b h (h (dead_letter_queue_name name) d e))
    ]

pub update_queue_config-AllCounted :
    (name : Name) (config : QueueConfig) (b : Broker)
    → AllCounted b
    → AllCounted (update_queue_config name config b).1
unfolding update_queue_config
update_queue_config-AllCounted name config b h = elim (Option-cases (find name b.queues)) [
  | inl e ↦ rw (e, update_queue_config) h
  | inr found ↦
      let (q, e) = found in
      rw (e, update_queue_config)
        (either (validate_queue_config config) _ _
          (set_queue-AllCounted name (record q { config = config }) b h (h name q e)) h)
]

enqueue-IsCounted :
    (t : Transforms) (now : ℕ) (name : Name) (m : Message) (q : QueueData)
    → IsCounted q
    → IsCounted (enqueue t now name m q).1
enqueue-IsCounted t now name m q h =
    let k = add_message-IsCounted (with_body (routed t name) m) q h in ground arith

pub send_message-AllCounted :
    (t : Transforms) (now : ℕ) (name : Name) (m : Option Message) (b : Broker)
    → AllCounted b
    → AllCounted (send_message t now name m b).1
unfolding send_message generate_message_id
send_message-AllCounted t now name none b h = h
send_message-AllCounted t now name (some m) b h = elim (Option-cases (find name b.queues)) [
  | inl e ↦ rw (e, send_message) (either (validate_message (some m)) _ _ h h)
  | inr found ↦
      let (q, e) = found in
      rw (e, send_message)
        (either (validate_message (some m)) _ _
          (set_queue-AllCounted name (enqueue t now name (prepared t name b.next_id m) q).1
            (record b { next_id = incr b.next_id }) h
            (enqueue-IsCounted t now name (prepared t name b.next_id m) q (h name q e)))
          h)
]

await_ack-IsCounted : (m : Message) (q : QueueData) → IsCounted q → IsCounted (await_ack m q)
await_ack-IsCounted m q c = ground arith

deliver-AllCounted :
    (now : ℕ) (name : Name) (m : Message) (q : QueueData) (b : Broker)
    → AllCounted b
    → IsCounted q
    → AllCounted (deliver now name m q b).2
deliver-AllCounted now name m q b h c =
    let put_back = set_queue-AllCounted name q b h c in
    elim (Bool-cases (is_expired now m)) [
      | inl e ↦
          rw (e, deliver)
            (move_to_dead_letter-AllCounted now name m DeadLetterReason.expired (set_queue name q b)
              put_back)
      | inr e ↦ elim (Bool-cases (too_early now m)) [
        | inl l ↦ rw (e, deliver, l) put_back
        | inr l ↦
            rw (e, deliver, l)
              (set_queue-AllCounted name
                (await_ack (delivered m) (record q { stats = count_received now q.stats })) b h
                (await_ack-IsCounted (delivered m) (record q { stats = count_received now q.stats })
                  c))
      ]
    ]

pub receive_within-AllCounted :
    (t : Transforms) (now pick : ℕ) (name : Name) (out : Option Message) (b : Broker)
    → AllCounted b
    → AllCounted (receive_within t now pick name out b).2
unfolding receive_within
receive_within-AllCounted t now pick name out b h = elim (Option-cases (find name b.queues)) [
  | inl e ↦ rw (e, receive_within) h
  | inr found ↦
      let (q, e) = found in
      elim (Option-cases (get_next_message pick q)) [
        | inl n ↦ rw (e, receive_within, n) h
        | inr taken ↦
            let ((m, q'), k) = taken in
            rw (e, receive_within, k)
              (deliver-AllCounted now name (with_body (t.unseal name) m) q' b h
                (get_next_message-IsCounted pick q q' m k (h name q e)))
      ]
]
