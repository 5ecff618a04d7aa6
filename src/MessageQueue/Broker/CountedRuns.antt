-- ===== src/MessageQueue/Broker/CountedRuns.antt =====
-- Shared/MessageQueue/MessageQueue.cpp: the counters of waiting messages over runs of calls.
use helianthus.Prelude.{
  ℕ, inl, inr, Bool, ◌&&◌, Option, none, some, List, [], ◌∷◌, find_id, remove_id, drop, Name, find,
  if◌then◌else◌, Bool-cases, Option-cases,
}
use helianthus.MessageQueue.Types.{DeadLetterReason}
use helianthus.MessageQueue.Message.{Message, can_retry}
use helianthus.MessageQueue.Queue.{QueueData, incr, add_message}
use helianthus.MessageQueue.Broker.{Broker, set_queue}
use helianthus.MessageQueue.Broker.DeadLetter.{
  uncount_dead, dead_letter_queue_name, get_dead_letter_messages, pick_dead_letter, revived,
  uncount_dead, requeue_to, requeue_picked, requeue_dead_letter_message,
}
use helianthus.MessageQueue.Broker.Transfer.{
  Transforms, acknowledge_message, retried, count_retried, settle_rejected, reject_message,
}
use helianthus.MessageQueue.Broker.Calls.{Call, perform, perform_all}
use helianthus.MessageQueue.Broker.Counters.{
  IsCounted, AllCounted, add_message-IsCounted, set_queue-AllCounted, create_queue-AllCounted,
  move_to_dead_letter-AllCounted,
}
use helianthus.MessageQueue.Broker.Counted.{
  purge_queue-AllCounted, delete_queue-AllCounted, purge_dead_letter_queue-AllCounted,
  update_queue_config-AllCounted, send_message-AllCounted, receive_within-AllCounted,
}

acknowledge_message-AllCounted :
    (name : Name) (id : ℕ) (b : Broker)
    → AllCounted b
    → AllCounted (acknowledge_message name id b).1
unfolding acknowledge_message
acknowledge_message-AllCounted name id b h = elim (Option-cases (find name b.queues)) [
  | inl e ↦ rw (e, acknowledge_message) h
  | inr found ↦
      let (q, e) = found in
      elim (Option-cases (find_id id q.pending_acks)) [
        | inl n ↦ rw (e, acknowledge_message, n) h
        | inr pending ↦
            rw (e, acknowledge_message, pending.1)
              (set_queue-AllCounted name
                (record q {
                  pending_acks = remove_id id q.pending_acks;
                  stats = record q.stats { processed_messages = incr q.stats.processed_messages };
                })
                b h (h name q e))
      ]
]

settle_rejected-AllCounted :
    (now : ℕ) (name : Name) (requeue : Bool) (m : Message) (q : QueueData) (b : Broker)
    → AllCounted b
    → IsCounted q
    → AllCounted (settle_rejected now name requeue m q b)
settle_rejected-AllCounted now name requeue m q b h c = elim (Bool-cases (requeue && can_retry m)) [
  | inl e ↦
      rw (e, settle_rejected)
        (set_queue-AllCounted name (count_retried (add_message (retried now m) q)) b h
          (add_message-IsCounted (retried now m) q c))
  | inr e ↦
      rw (e, settle_rejected)
        (move_to_dead_letter-AllCounted now name m
          (if requeue then DeadLetterReason.max_retries_exceeded else DeadLetterReason.rejected)
          (set_queue name q b) (set_queue-AllCounted name q b h c))
]

reject_message-AllCounted :
    (now : ℕ) (name : Name) (id : ℕ) (requeue : Bool) (b : Broker)
    → AllCounted b
    → AllCounted (reject_message now name id requeue b).1
unfolding reject_message
reject_message-AllCounted now name id requeue b h = elim (Option-cases (find name b.queues)) [
  | inl e ↦ rw (e, reject_message) h
  | inr found ↦
      let (q, e) = found in
      elim (Option-cases (find_id id q.pending_acks)) [
        | inl n ↦ rw (e, reject_message, n) h
        | inr pending ↦
            rw (e, reject_message, pending.1)
              (settle_rejected-AllCounted now name requeue pending.0
                (record q { pending_acks = remove_id id q.pending_acks }) b h (h name q e))
      ]
]

get_dead_letter_messages-AllCounted :
    (name : Name) (n : ℕ) (out : List Message) (b : Broker)
    → AllCounted b
    → AllCounted (get_dead_letter_messages name n out b).2
unfolding get_dead_letter_messages
get_dead_letter_messages-AllCounted name n out b h =
    elim (Option-cases (find (dead_letter_queue_name name) b.queues)) [
      | inl e ↦ rw (e, get_dead_letter_messages) h
      | inr found ↦
          let (d, e) = found in
          rw (e, get_dead_letter_messages)
            (set_queue-AllCounted (dead_letter_queue_name name)
              (record d { dead_letters = drop n d.dead_letters }) b h
              (h (dead_letter_queue_name name) d e))
    ]

requeue_to-AllCounted :
    (now : ℕ) (name : Name) (m : Message) (d : QueueData) (b : Broker)
    → AllCounted b
    → IsCounted d
    → AllCounted (requeue_to now name m d b)
requeue_to-AllCounted now name m d b h c = elim (Option-cases (find name b.queues)) [
  | inl e ↦ rw (e, requeue_to) (set_queue-AllCounted (dead_letter_queue_name name) d b h c)
  | inr found ↦
      let (q, e) = found in
      rw (e, requeue_to)
        (set_queue-AllCounted (dead_letter_queue_name name)
          (record d { stats = uncount_dead d.stats })
          (set_queue name (add_message (revived now m) q) b)
          (set_queue-AllCounted name (add_message (revived now m) q) b h
            (add_message-IsCounted (revived now m) q (h name q e)))
          c)
]

requeue_picked-AllCounted :
    (now : ℕ) (name : Name) (d : QueueData) (b : Broker) (picked : Option Message × List Message)
    → AllCounted b
    → IsCounted d
    → AllCounted (requeue_picked now name d b picked).1
requeue_picked-AllCounted now name d b (none, rest) h c =
    set_queue-AllCounted (dead_letter_queue_name name) (record d { dead_letters = rest }) b h c
requeue_picked-AllCounted now name d b (some m, rest) h c =
    requeue_to-AllCounted now name m (record d { dead_letters = rest }) b h c

requeue_dead_letter_message-AllCounted :
    (now : ℕ) (name : Name) (id : ℕ) (b : Broker)
    → AllCounted b
    → AllCounted (requeue_dead_letter_message now name id b).1
unfolding requeue_dead_letter_message
requeue_dead_letter_message-AllCounted now name id b h =
    elim (Option-cases (find (dead_letter_queue_name name) b.queues)) [
      | inl e ↦ rw (e, requeue_dead_letter_message) h
      | inr found ↦
          let (d, e) = found in
          rw (e, requeue_dead_letter_message)
            (requeue_picked-AllCounted now name d b (pick_dead_letter id none d.dead_letters) h
              (h (dead_letter_queue_name name) d e))
    ]

perform-AllCounted :
    (t : Transforms) (c : Call) (b : Broker) → AllCounted b → AllCounted (perform t c b)
perform-AllCounted t (Call.create config) b h = create_queue-AllCounted config b h
perform-AllCounted t (Call.delete name) b h = delete_queue-AllCounted name b h
perform-AllCounted t (Call.purge name) b h = purge_queue-AllCounted name b h
perform-AllCounted t (Call.purge_dead name) b h = purge_dead_letter_queue-AllCounted name b h
perform-AllCounted t (Call.update name config) b h = update_queue_config-AllCounted name config b h
perform-AllCounted t (Call.send now name m) b h = send_message-AllCounted t now name m b h
perform-AllCounted t (Call.receive now pick name) b h =
    receive_within-AllCounted t now pick name none b h
perform-AllCounted t (Call.acknowledge name id) b h = acknowledge_message-AllCounted name id b h
perform-AllCounted t (Call.reject now name id requeue) b h =
    reject_message-AllCounted now name id requeue b h
perform-AllCounted t (Call.take_dead name n) b h = get_dead_letter_messages-AllCounted name n [] b h
perform-AllCounted t (Call.requeue_dead now name id) b h =
    requeue_dead_letter_message-AllCounted now name id b h

-- After any run of the calls that create, delete, update and purge queues and dead letters, send,
-- receive with a timeout, acknowledge, reject, take and requeue dead letters, on a broker whose
-- counters are right, the counter of waiting messages of every queue is the number of its messages,
-- modulo 2^64. ReceiveMessage without a timeout, which does not count, is not among the calls.
pub perform_all-AllCounted :
    (t : Transforms) (cs : List Call) (b : Broker) → AllCounted b → AllCounted (perform_all t cs b)
perform_all-AllCounted t [] b h = h
perform_all-AllCounted t (c ∷ cs) b h =
    perform_all-AllCounted t cs (perform t c b) (perform-AllCounted t c b h)
