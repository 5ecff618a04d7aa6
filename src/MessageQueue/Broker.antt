-- ===== src/MessageQueue/Broker.antt =====
-- Shared/MessageQueue/MessageQueue.cpp: the queues by name and the calls that manage them. A call
-- holds the queue's lock while it changes the queue, so calls are modelled one after the other.
pub mod DeadLetter
pub mod Transfer
pub mod Calls
pub mod Counters
pub mod Counted
pub mod CountedRuns
pub mod Sending
pub mod Delivery
pub mod Settling
pub mod Rejecting
pub mod Whereabouts
mod Tests
use helianthus.Prelude.{
  ℕ, zero, suc, ◌+◌, ◌-◌, ◌*◌, ◌/◌, ◌%◌, ◌^◌, ◌≤◌, ◌<◌, min, max, ◌≡◌, refl, sym, ap, ◌∙◌, ◌≢◌, ◌↔◌,
  ◌⊎◌, inl, inr, Bool, true, false, not, ◌&&◌, ◌||◌, Option, none, some, List, [], ◌∷◌, ◌++◌, map,
  arith, dec_lt, ℕ_discrete, u32_mod, u64_mod, le_bytes, le_value, length-le_bytes,
  le_value-le_bytes, take-le_bytes, drop-le_bytes, one_if, count, erase, length-erase, count-erase,
  count-append, find_id, put_id, remove_id, find_id-put_id, find_id-remove_id, length, get_elem?,
  set, length-append, length-set, get_elem?-set_self, get_elem?-set_ne, get_or, take, drop,
  replicate, take-append-drop, length-take, length-drop, length-replicate, length-map,
  take-length_append, drop-length_append, take-append_le, drop-append_le, All, Name, same_name,
  same_name→eq, same_name_self, eq→same_name, ne→same_name, find, put, remove, find-put,
  find-remove, map_laws, ltb, leb, ◌==◌, if◌then◌else◌, ltb→lt, lt→ltb, leb→le, ==_iff, tests,
  Bool-cases, Option-cases,
}
use helianthus.MessageQueue.Types.{QueueResult}
use helianthus.MessageQueue.Message.{
  Body, Message, is_empty_body, rank, is_unknown, validate_message, is_expired, can_retry,
  increment_retry,
}
use helianthus.MessageQueue.Queue.{
  QueueConfig, QueueStats, no_stats, QueueData, new_queue, incr, decr, is_empty_list,
  should_use_priority_queue, is_empty, message_count, add_message, max_rank, take_ranked,
  pop_priority, count_taken, take_next, get_next_message,
}

pub record Broker : Type 0 where
  pub initialized : Bool
  pub queues : List (Name × QueueData)
  pub next_id : ℕ

abbrev pub set_queue : Name → QueueData → Broker → Broker
set_queue name q b = record b { queues = put name q b.queues }

abbrev pub validate_queue_config : QueueConfig → Bool
validate_queue_config c = not (is_empty_list c.name) && ltb 0 c.max_size && ltb 0 c.max_size_bytes

unfoldable pub generate_message_id : Broker → ℕ × Broker
generate_message_id b = (b.next_id, record b { next_id = incr b.next_id })

unfoldable pub queue_exists : Name → Broker → Bool
queue_exists name b = elim (find name b.queues) [ none ↦ false | some q ↦ true ]

unfoldable pub create_queue : QueueConfig → Broker → QueueResult × Broker
create_queue config b =
    if not b.initialized
    then (QueueResult.internal_error, b)
    else if not (validate_queue_config config)
    then (QueueResult.invalid_parameter, b)
    else if queue_exists config.name b
    then (QueueResult.queue_not_found, b)
    else (QueueResult.success, set_queue config.name (new_queue config) b)

unfoldable pub delete_queue : Name → Broker → QueueResult × Broker
delete_queue name b =
    if not b.initialized
    then (QueueResult.internal_error, b)
    else if queue_exists name b
    then (QueueResult.success, record b { queues = remove name b.queues })
    else (QueueResult.queue_not_found, b)

abbrev pub purged : QueueData → QueueData
purged q = record q {
  messages = [];
  priority_messages = [];
  pending_acks = [];
  stats = record q.stats { pending_messages = 0 };
}

unfoldable pub purge_queue : Name → Broker → QueueResult × Broker
purge_queue name b = elim (find name b.queues) [
  | none ↦ (QueueResult.queue_not_found, b)
  | some q ↦ (QueueResult.success, set_queue name (purged q) b)
]

abbrev names : List (Name × QueueData) → List Name
names [] = []
names ((name, q) ∷ qs) = name ∷ names qs

pub list_queues : Broker → List Name
list_queues b = names b.queues

-- The out-parameter is left as it was if the queue does not exist.
pub get_queue_info : Name → QueueConfig → Broker → QueueResult × QueueConfig
get_queue_info name out b = elim (find name b.queues) [
  | none ↦ (QueueResult.queue_not_found, out)
  | some q ↦ (QueueResult.success, q.config)
]

unfoldable pub update_queue_config : Name → QueueConfig → Broker → QueueResult × Broker
update_queue_config name config b = elim (find name b.queues) [
  | none ↦ (QueueResult.queue_not_found, b)
  | some q ↦
      if validate_queue_config config
      then (QueueResult.success, set_queue name (record q { config = config }) b)
      else (QueueResult.invalid_parameter, b)
]

pub find-set_queue :
    (name : Name) (q : QueueData) (b : Broker) → find name (set_queue name q b).queues ≡ some q
find-set_queue name q b =
    let s = same_name_self name in ground (arith, find-put name name q b.queues)

pub find-set_queue_ne :
    (name j : Name) (q : QueueData) (b : Broker)
    → same_name name j ≡ false
    → find j (set_queue name q b).queues ≡ find j b.queues
find-set_queue_ne name j q b n = ground (arith, find-put name j q b.queues)
