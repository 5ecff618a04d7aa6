-- ===== src/MessageQueue/Broker/Tests.antt =====
-- Shared/MessageQueue/MessageQueue.cpp, queues: runs and applications at concrete values.
use helianthus.Prelude.{
  ℕ, ◌≤◌, ◌≡◌, refl, ◌↔◌, Bool, true, false, none, some, [], ◌∷◌, arith, Name, same_name, find,
  ◌==◌,
}
use helianthus.MessageQueue.Types.{
  QueueResult, MessageType, MessagePriority, MessageStatus, DeadLetterReason, QueueType,
  PersistenceMode,
}
use helianthus.MessageQueue.Message.{Message, validate_message}
use helianthus.MessageQueue.Queue.{
  message_count, count_taken, QueueConfig, QueueData, new_queue, add_message, take_next,
  get_next_message,
}
use helianthus.MessageQueue.Queue.Order.{
  add_all, drain, drain-add_all, IsDescending, count_if, drain-IsDescending,
}
use helianthus.MessageQueue.Broker.{Broker}
use helianthus.MessageQueue.Broker.DeadLetter.{
  dead_letter_queue_name, dead_letter_config, marked_dead, count_dead, count_reason,
  move_to_dead_letter, revived, requeue_dead_letter_message,
}
use helianthus.MessageQueue.Broker.Transfer.{
  Transforms, send_message, delivered, receive_within, acknowledge_message,
}
use helianthus.MessageQueue.Broker.Calls.{Call, perform_all, fresh}
use helianthus.MessageQueue.Broker.Counters.{AllCounted}
use helianthus.MessageQueue.Broker.CountedRuns.{perform_all-AllCounted}
use helianthus.MessageQueue.Broker.Sending.{HasRoom, send_message-success_iff}
use helianthus.MessageQueue.Broker.Whereabouts.{Holds, receive_within-taken}
use helianthus.MessageQueue.Broker.Settling.{acknowledge-receive_within, dead_letters_of}
use helianthus.MessageQueue.Broker.Rejecting.{
  has_id, requeue_dead_letter_message-lost, requeue-move_to_dead_letter,
}

abbrev jobs : Name
jobs = 106 ∷ []

abbrev jobs_config : Bool → QueueConfig
jobs_config priority = record {
  name = jobs;
  type_of_queue = QueueType.standard;
  persistence = PersistenceMode.memory_only;
  max_size = 5;
  max_size_bytes = 100;
  message_ttl = 300000;
  enable_dead_letter = true;
  enable_priority = priority;
  enable_batching = true;
}

abbrev as_they_are : Transforms
as_they_are = record { seal = λ n b. b; route = λ n ps. ps; unseal = λ n b. b }

abbrev message : ℕ → MessagePriority → Message
message id priority = record {
  id = id;
  kind = MessageType.text;
  priority = priority;
  expire_time = 0;
  retry_count = 0;
  max_retries = 3;
  next_retry_time = 0;
  reason = DeadLetterReason.unknown;
  original_queue = [];
  body = record { bytes = 1 ∷ 2 ∷ []; size = 2; external = none; properties = [] };
  status = MessageStatus.pending;
  created_time = 7;
  last_modified_time = 7;
}

abbrev low : Message
low = message 1 MessagePriority.low

abbrev high : Message
high = message 2 MessagePriority.high

abbrev waiting : QueueData
waiting = record (new_queue (jobs_config false)) { messages = low ∷ [] }

abbrev ranked : QueueData
ranked = record (new_queue (jobs_config true)) { priority_messages = low ∷ high ∷ [] }

abbrev unsettled : QueueData
unsettled = record (new_queue (jobs_config false)) { pending_acks = (1, low) ∷ [] }

abbrev broker_of : QueueData → Broker
broker_of q = record { initialized = true; queues = (jobs, q) ∷ []; next_id = 3 }

drain-add_all_example : (drain (0 ∷ 0 ∷ []) (add_all (high ∷ []) waiting)).0 ≡ low ∷ high ∷ []
drain-add_all_example = drain-add_all (high ∷ []) (0 ∷ 0 ∷ []) waiting refl (omega arith)

drain-IsDescending_example :
    IsDescending (drain (0 ∷ 0 ∷ []) ranked).0
    × (count_if (λ m. m.id == 2) (drain (0 ∷ 0 ∷ []) ranked).0
        ≡ count_if (λ m. m.id == 2) ranked.priority_messages)
drain-IsDescending_example = drain-IsDescending (λ m. m.id == 2) (0 ∷ 0 ∷ []) ranked refl refl

perform_all-AllCounted_example : AllCounted (
    perform_all as_they_are
      (Call.create (jobs_config false) ∷ Call.send 9 jobs (some low) ∷ Call.receive 9 0 jobs ∷ [])
      fresh)
unfolding find
perform_all-AllCounted_example =
    perform_all-AllCounted as_they_are
      (Call.create (jobs_config false) ∷ Call.send 9 jobs (some low) ∷ Call.receive 9 0 jobs ∷ [])
      fresh (λ name q e. cc)

send_message-success_iff_example :
    ((send_message as_they_are 9 jobs (some high) (broker_of waiting)).0 ≡ QueueResult.success)
    ↔ ((validate_message (some high) ≡ true) × HasRoom waiting × (2 ≤ 100))
unfolding find same_name
send_message-success_iff_example =
    send_message-success_iff as_they_are 9 jobs high waiting (broker_of waiting) refl

-- A message that was tried once, and whose next try comes later.
abbrev early : Message
early = record low { retry_count = 1; next_retry_time = 50 }

abbrev hasty : QueueData
hasty = record (new_queue (jobs_config false)) { messages = early ∷ [] }

receive_within-taken_example :
    (let r = receive_within as_they_are 9 0 jobs none (broker_of hasty) in
      (r.0 ≡ QueueResult.timeout)
      × (message_count hasty ≡ 1)
      × Holds jobs r.2 0 [] (dead_letters_of jobs (broker_of hasty)))
unfolding find same_name get_next_message take_next
receive_within-taken_example =
    receive_within-taken as_they_are 9 0 jobs none early hasty
      (record hasty { messages = []; stats = count_taken hasty.stats }) (broker_of hasty) refl refl
      refl

acknowledge-receive_within_example :
    (let b' = (receive_within as_they_are 9 0 jobs none (broker_of waiting)).2 in
      ((acknowledge_message jobs 1 b').0 ≡ QueueResult.success)
      × ((acknowledge_message jobs 1 (acknowledge_message jobs 1 b').1).0
          ≡ QueueResult.invalid_parameter))
unfolding receive_within find same_name get_next_message take_next
acknowledge-receive_within_example =
    acknowledge-receive_within as_they_are 9 0 jobs none (delivered low) waiting (broker_of waiting)
      (receive_within as_they_are 9 0 jobs none (broker_of waiting)).2 refl refl refl

abbrev orphaned : QueueData
orphaned = record (new_queue (dead_letter_config jobs)) { dead_letters = low ∷ [] }

abbrev orphans : Broker
orphans = record {
  initialized = true;
  queues = (dead_letter_queue_name jobs, orphaned) ∷ [];
  next_id = 3;
}

requeue_dead_letter_message-lost_example :
    (let r = requeue_dead_letter_message 9 jobs 1 orphans in
      (r.0 ≡ QueueResult.success)
      × (find jobs r.1.queues ≡ none)
      × (has_id 1 (dead_letters_of jobs r.1) ≡ false))
unfolding find same_name
requeue_dead_letter_message-lost_example =
    requeue_dead_letter_message-lost 9 jobs 1 orphans refl refl

requeue-move_to_dead_letter_example :
    (let b2 =
        (requeue_dead_letter_message 20 jobs 1
          (move_to_dead_letter 9 jobs low DeadLetterReason.expired (broker_of waiting))).1 in
      (dead_letters_of jobs b2 ≡ dead_letters_of jobs (broker_of waiting))
      × (find jobs b2.queues
          ≡ some (
              add_message
                (revived 20 (marked_dead 9 jobs DeadLetterReason.expired low))
                (record waiting {
                  stats = count_reason DeadLetterReason.expired (count_dead waiting.stats);
                }))))
unfolding find same_name
requeue-move_to_dead_letter_example =
    requeue-move_to_dead_letter 9 20 jobs low DeadLetterReason.expired waiting (broker_of waiting)
      refl refl refl
