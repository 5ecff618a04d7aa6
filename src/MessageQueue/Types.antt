-- ===== src/MessageQueue/Types.antt =====
-- Shared/MessageQueue/MessageTypes.h: the enumerations that the operations use.

pub data QueueResult : Type 0 where
  success queue_not_found queue_full message_too_large consumer_not_found : QueueResult
  producer_not_found subscription_not_found permission_denied timeout : QueueResult
  serialization_error network_error storage_error invalid_parameter internal_error : QueueResult
  message_not_found not_implemented invalid_config invalid_state operation_failed : QueueResult
  transaction_not_found consumer_limit_exceeded queue_empty : QueueResult

pub data MessageType : Type 0 where
  unknown text binary json player_event game_state chat_message system_notification : MessageType
  combat_event economy_event guild_event match_event heartbeat health_check metrics : MessageType
  log_entry config_update service_discovery : MessageType

pub data MessagePriority : Type 0 where
  low normal high critical realtime : MessagePriority

pub data MessageStatus : Type 0 where
  pending sent delivered acknowledged failed expired dead_letter : MessageStatus

pub data DeadLetterReason : Type 0 where
  expired max_retries_exceeded rejected queue_full message_too_large : DeadLetterReason
  invalid_message consumer_error timeout unknown : DeadLetterReason

pub data QueueType : Type 0 where
  standard priority delay dead_letter broadcast : QueueType

pub data PersistenceMode : Type 0 where
  memory_only disk_persistent hybrid : PersistenceMode
