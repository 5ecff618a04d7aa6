-- ===== src/MessageQueue/Queue.antt =====
-- Shared/MessageQueue/MessageQueue.h and .cpp: QueueData, one queue with its counters. The order
-- among messages of one priority is the standard library's heap's: a number, `pick`, chooses it.
pub mod Order
pub mod Counts
use helianthus.Prelude.{
  ℕ, zero, suc, ◌+◌, ◌-◌, ◌*◌, ◌/◌, ◌%◌, ◌^◌, ◌≤◌, ◌<◌, min, max, ◌≡◌, refl, sym, ap, ◌∙◌, ◌≢◌, ◌↔◌,
  ◌⊎◌, inl, inr, Bool, true, false, not, ◌&&◌, ◌||◌, Option, none, some, List, [], ◌∷◌, ◌++◌, map,
  arith, dec_lt, ℕ_discrete, u32_mod, u64_mod, le_bytes, le_value, length-le_bytes,
  le_value-le_bytes, take-le_bytes, drop-le_bytes, one_if, count, erase, length-erase, count-erase,
  count-append, find_id, put_id, remove_id, find_id-put_id, find_id-remove_id, length, get_elem?,
  set, length-append, length-set, get_elem?-set_self, get_elem?-set_ne, get_or, take, drop,
  replicate, take-append-drop, length-take, length-drop, length-replicate, length-map,
  take-length_append, drop-length_append, take-append_le, drop-append_le, All, Name, same_name,
  same_name→eq, same_name_self, eq→same_name, ne→same_name, find, put, remove, find-put,
  find-remove, map_laws, ltb, leb, ◌==◌, if◌then◌else◌, ltb→lt, lt→ltb, leb→le, ==_iff, tests,
  Bool-cases, Option-cases,
}
use helianthus.MessageQueue.Types.{QueueType, PersistenceMode}
use helianthus.MessageQueue.Message.{
  Body, Message, is_empty_body, rank, is_unknown, validate_message, is_expired, can_retry,
  increment_retry,
}

pub record QueueConfig : Type 0 where
  pub name : Name
  pub type_of_queue : QueueType
  pub persistence : PersistenceMode
  pub max_size : ℕ
  pub max_size_bytes : ℕ
  pub message_ttl : ℕ
  pub enable_dead_letter : Bool
  pub enable_priority : Bool
  pub enable_batching : Bool

-- The counters are 64 bits wide.
pub record QueueStats : Type 0 where
  pub total_messages : ℕ
  pub pending_messages : ℕ
  pub processed_messages : ℕ
  pub dead_letter_messages : ℕ
  pub retried_messages : ℕ
  pub expired_messages : ℕ
  pub rejected_messages : ℕ
  pub total_bytes : ℕ
  pub last_message_time : ℕ

abbrev pub no_stats : QueueStats
no_stats = record {
  total_messages = 0;
  pending_messages = 0;
  processed_messages = 0;
  dead_letter_messages = 0;
  retried_messages = 0;
  expired_messages = 0;
  rejected_messages = 0;
  total_bytes = 0;
  last_message_time = 0;
}

-- `consumers` are the AutoAcknowledge settings of the consumers, in the map's iteration order.
pub record QueueData : Type 0 where
  pub config : QueueConfig
  pub messages : List Message
  pub priority_messages : List Message
  pub dead_letters : List Message
  pub pending_acks : List (ℕ × Message)
  pub consumers : List Bool
  pub stats : QueueStats

abbrev pub new_queue : QueueConfig → QueueData
new_queue config = record {
  config = config;
  messages = [];
  priority_messages = [];
  dead_letters = [];
  pending_acks = [];
  consumers = [];
  stats = no_stats;
}

abbrev pub incr : ℕ → ℕ
incr n = (n + 1) % u64_mod

abbrev pub decr : ℕ → ℕ
decr n = (n + (u64_mod - 1)) % u64_mod

abbrev pub is_empty_list {ℓ} : {A : Type ℓ} → List A → Bool
is_empty_list [] = true
is_empty_list (x ∷ xs) = false

abbrev pub should_use_priority_queue : QueueData → Bool
should_use_priority_queue q = q.config.enable_priority

abbrev pub is_empty : QueueData → Bool
is_empty q = is_empty_list q.messages && is_empty_list q.priority_messages

abbrev pub message_count : QueueData → ℕ
message_count q = length q.messages + length q.priority_messages

abbrev count_added : Message → QueueStats → QueueStats
count_added m s = record s {
  total_messages = incr s.total_messages;
  pending_messages = incr s.pending_messages;
  total_bytes = (s.total_bytes + length m.body.bytes) % u64_mod;
}

unfoldable pub add_message : Message → QueueData → QueueData
add_message m q =
    if should_use_priority_queue q
    then record q {
      priority_messages = q.priority_messages ++ (m ∷ []);
      stats = count_added m q.stats;
    }
    else record q { messages = q.messages ++ (m ∷ []); stats = count_added m q.stats }

pub max_rank : List Message → ℕ
max_rank [] = 0
max_rank (m ∷ ms) = max (rank m.priority) (max_rank ms)

-- Removes a message of this rank: the one after `pick` others of it, or the last one.
pub take_ranked : ℕ → ℕ → List Message → Option (Message × List Message)
take_ranked r pick [] = none
take_ranked r pick (m ∷ ms) =
    let same_rank = take_ranked r (pick - 1) ms in
    let other_rank = take_ranked r pick ms in
    if rank m.priority == r
    then (if pick == 0
        then some (m, ms)
        else elim same_rank [ none ↦ some (m, ms) | some (x, rest) ↦ some (x, m ∷ rest) ])
    else elim other_rank [ none ↦ none | some (x, rest) ↦ some (x, m ∷ rest) ]

abbrev pub pop_priority : ℕ → List Message → Option (Message × List Message)
pop_priority pick ms = take_ranked (max_rank ms) pick ms

abbrev pop_front : List Message → Option (Message × List Message)
pop_front [] = none
pop_front (m ∷ ms) = some (m, ms)

abbrev pub count_taken : QueueStats → QueueStats
count_taken s = record s { pending_messages = decr s.pending_messages }

-- The message that is removed and the queue without it, before any counter changes.
unfoldable pub take_next : ℕ → QueueData → Option (Message × QueueData)
take_next pick q =
    if should_use_priority_queue q && not (is_empty_list q.priority_messages)
    then elim (pop_priority pick q.priority_messages) [
      | none ↦ none
      | some (m, ms) ↦ some (m, record q { priority_messages = ms })
    ]
    else elim (pop_front q.messages) [
      | none ↦ none
      | some (m, ms) ↦ some (m, record q { messages = ms })
    ]

unfoldable pub get_next_message : ℕ → QueueData → Option (Message × QueueData)
get_next_message pick q = elim (take_next pick q) [
  | none ↦ none
  | some (m, q') ↦ some (m, record q' { stats = count_taken q'.stats })
]
