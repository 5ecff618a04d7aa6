-- ===== src/MessageQueue/Message.antt =====
-- Shared/MessageQueue/MessageTypes.h: a message, its header and payload, and what it answers about
-- itself. A `MessagePtr` that may be null is an Option; the clock is an argument.
use helianthus.Prelude.{
  ℕ, ◌+◌, ◌%◌, Bool, true, false, not, ◌&&◌, Option, none, some, List, [], ◌∷◌, u32_mod, Name, ltb,
  ◌==◌, if◌then◌else◌,
}
use helianthus.MessageQueue.Types.{MessageType, MessagePriority, MessageStatus, DeadLetterReason}

-- The payload, with the properties of the header that compression, encryption and routing set.
-- `external` is the size of an external buffer, if there is one.
pub record Body : Type 0 where
  pub bytes : List ℕ
  pub size : ℕ
  pub external : Option ℕ
  pub properties : List (Name × Name)

pub record Message : Type 0 where
  pub id : ℕ
  pub kind : MessageType
  pub priority : MessagePriority
  pub expire_time : ℕ
  pub retry_count : ℕ
  pub max_retries : ℕ
  pub next_retry_time : ℕ
  pub reason : DeadLetterReason
  pub original_queue : Name
  pub body : Body
  pub status : MessageStatus
  pub created_time : ℕ
  pub last_modified_time : ℕ

abbrev pub is_empty_body : Body → Bool
is_empty_body b = elim b.external [
  | some n ↦ n == 0
  | none ↦ (elim b.bytes [ [] ↦ true | c ∷ cs ↦ false ])
]

abbrev pub rank : MessagePriority → ℕ
rank MessagePriority.low = 0
rank MessagePriority.normal = 1
rank MessagePriority.high = 2
rank MessagePriority.critical = 3
rank MessagePriority.realtime = 4

abbrev pub is_unknown : MessageType → Bool
is_unknown MessageType.unknown = true
is_unknown _ = false

abbrev pub validate_message : Option Message → Bool
validate_message none = false
validate_message (some m) = not (is_unknown m.kind) && not (is_empty_body m.body)

abbrev pub is_expired : ℕ → Message → Bool
is_expired now m = if m.expire_time == 0 then false else ltb m.expire_time now

abbrev pub can_retry : Message → Bool
can_retry m = ltb m.retry_count m.max_retries

abbrev pub increment_retry : ℕ → Message → Message
increment_retry now m = record m {
  retry_count = (m.retry_count + 1) % u32_mod;
  last_modified_time = now;
}
