-- ===== src/MessageQueue/Broker/DeadLetter.antt =====
-- Shared/MessageQueue/MessageQueue.cpp: the queue of dead letters that belongs to a queue.
use helianthus.Prelude.{
  ℕ, Bool, true, false, Option, none, some, List, [], ◌∷◌, ◌++◌, take, drop, Name, find, ◌==◌,
  if◌then◌else◌,
}
use helianthus.MessageQueue.Types.{
  QueueResult, QueueType, MessageStatus, PersistenceMode, DeadLetterReason,
}
use helianthus.MessageQueue.Message.{Message}
use helianthus.MessageQueue.Queue.{QueueConfig, QueueStats, QueueData, incr, decr, add_message}
use helianthus.MessageQueue.Broker.{Broker, set_queue, queue_exists, create_queue}

abbrev pub is_success : QueueResult → Bool
is_success QueueResult.success = true
is_success _ = false

-- The name with "_DLQ" after it.
abbrev pub dead_letter_queue_name : Name → Name
dead_letter_queue_name name = name ++ (95 ∷ 68 ∷ 76 ∷ 81 ∷ [])

abbrev pub dead_letter_config : Name → QueueConfig
dead_letter_config name = record {
  name = dead_letter_queue_name name;
  type_of_queue = QueueType.dead_letter;
  persistence = PersistenceMode.disk_persistent;
  max_size = 10000;
  max_size_bytes = 1073741824;
  message_ttl = 86400000;
  enable_dead_letter = false;
  enable_priority = false;
  enable_batching = false;
}

unfoldable pub ensure_dead_letter_queue : Name → Broker → QueueResult × Broker
ensure_dead_letter_queue name b =
    if queue_exists (dead_letter_queue_name name) b
    then (QueueResult.success, b)
    else create_queue (dead_letter_config name) b

abbrev pub marked_dead : ℕ → Name → DeadLetterReason → Message → Message
marked_dead now name reason m = record m {
  status = MessageStatus.dead_letter;
  reason = reason;
  original_queue = name;
  last_modified_time = now;
}

abbrev pub count_dead : QueueStats → QueueStats
count_dead s = record s { dead_letter_messages = incr s.dead_letter_messages }

abbrev pub count_reason : DeadLetterReason → QueueStats → QueueStats
count_reason DeadLetterReason.expired s = record s { expired_messages = incr s.expired_messages }
count_reason DeadLetterReason.max_retries_exceeded s = record s {
  retried_messages = incr s.retried_messages;
}
count_reason DeadLetterReason.rejected s = record s { rejected_messages = incr s.rejected_messages }
count_reason _ s = s

abbrev pub push_dead_letter : Message → QueueData → QueueData
push_dead_letter m d = record d {
  dead_letters = d.dead_letters ++ (m ∷ []);
  stats = count_dead d.stats;
}

abbrev pub push_to : Name → Message → Broker → Broker
push_to name m b = elim (find name b.queues) [
  | none ↦ b
  | some d ↦ set_queue name (push_dead_letter m d) b
]

abbrev pub count_on : Name → DeadLetterReason → Broker → Broker
count_on name reason b = elim (find name b.queues) [
  | none ↦ b
  | some q ↦ set_queue name (record q { stats = count_reason reason (count_dead q.stats) }) b
]

abbrev pub if_ensured : Name → Message → QueueResult × Broker → Broker
if_ensured name m (r, b) = if is_success r then push_to (dead_letter_queue_name name) m b else b

unfoldable pub move_to_dead_letter : ℕ → Name → Message → DeadLetterReason → Broker → Broker
move_to_dead_letter now name m reason b = elim (find name b.queues) [
  | none ↦ b
  | some q ↦
      count_on name reason
        (if_ensured name (marked_dead now name reason m) (ensure_dead_letter_queue name b))
]

-- What is handed out also leaves the queue of dead letters.
unfoldable pub get_dead_letter_messages :
    Name → ℕ → List Message → Broker → QueueResult × List Message × Broker
get_dead_letter_messages name max_count out b = elim (find (dead_letter_queue_name name) b.queues) [
  | none ↦ (QueueResult.queue_not_found, out, b)
  | some d ↦ (
    QueueResult.success,
    take max_count d.dead_letters,
    set_queue (dead_letter_queue_name name)
        (record d { dead_letters = drop max_count d.dead_letters }) b,
  )
]

-- The last dead letter with this id, and the others in their order.
unfoldable pub pick_dead_letter : ℕ → Option Message → List Message → Option Message × List Message
pick_dead_letter id target [] = (target, [])
pick_dead_letter id target (m ∷ ms) =
    let found = pick_dead_letter id (some m) ms in
    let others = pick_dead_letter id target ms in
    if m.id == id then found else (others.0, m ∷ others.1)

abbrev pub revived : ℕ → Message → Message
revived now m = record m {
  status = MessageStatus.pending;
  retry_count = 0;
  next_retry_time = 0;
  reason = DeadLetterReason.unknown;
  last_modified_time = now;
}

abbrev pub uncount_dead : QueueStats → QueueStats
uncount_dead s = record s { dead_letter_messages = decr s.dead_letter_messages }

-- The end of RequeueDeadLetterMessage: `d` is the queue of dead letters without the message.
abbrev pub requeue_to : ℕ → Name → Message → QueueData → Broker → Broker
requeue_to now name m d b = elim (find name b.queues) [
  | none ↦ set_queue (dead_letter_queue_name name) d b
  | some q ↦
      set_queue (dead_letter_queue_name name) (record d { stats = uncount_dead d.stats })
        (set_queue name (add_message (revived now m) q) b)
]

abbrev pub requeue_picked :
    ℕ → Name → QueueData → Broker → Option Message × List Message → QueueResult × Broker
requeue_picked now name d b (none, rest) = (
  QueueResult.message_not_found,
  set_queue (dead_letter_queue_name name) (record d { dead_letters = rest }) b,
)
requeue_picked now name d b (some m, rest) =
    (QueueResult.success, requeue_to now name m (record d { dead_letters = rest }) b)

unfoldable pub requeue_dead_letter_message : ℕ → Name → ℕ → Broker → QueueResult × Broker
requeue_dead_letter_message now name id b = elim (find (dead_letter_queue_name name) b.queues) [
  | none ↦ (QueueResult.queue_not_found, b)
  | some d ↦ requeue_picked now name d b (pick_dead_letter id none d.dead_letters)
]

unfoldable pub purge_dead_letter_queue : Name → Broker → QueueResult × Broker
purge_dead_letter_queue name b = elim (find (dead_letter_queue_name name) b.queues) [
  | none ↦ (QueueResult.queue_not_found, b)
  | some d ↦ (
    QueueResult.success,
    set_queue (dead_letter_queue_name name)
        (record d { dead_letters = []; stats = record d.stats { dead_letter_messages = 0 } }) b,
  )
]
