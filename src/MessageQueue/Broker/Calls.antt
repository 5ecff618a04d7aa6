-- ===== src/MessageQueue/Broker/Calls.antt =====
-- Shared/MessageQueue/MessageQueue.cpp: the calls that change a broker, as values, so that runs are
-- lists of them. ReceiveMessage without a timeout is not among them: it does not keep the counters.
use helianthus.Prelude.{ℕ, Bool, true, Option, none, List, [], ◌∷◌, Name}
use helianthus.MessageQueue.Message.{Message}
use helianthus.MessageQueue.Queue.{QueueConfig}
use helianthus.MessageQueue.Broker.{
  Broker, create_queue, delete_queue, purge_queue, update_queue_config,
}
use helianthus.MessageQueue.Broker.DeadLetter.{
  get_dead_letter_messages, requeue_dead_letter_message, purge_dead_letter_queue,
}
use helianthus.MessageQueue.Broker.Transfer.{
  Transforms, send_message, receive_within, acknowledge_message, reject_message,
}

pub data Call : Type 0 where
  create : QueueConfig → Call
  delete purge purge_dead : Name → Call
  update : Name → QueueConfig → Call
  send : ℕ → Name → Option Message → Call
  receive : ℕ → ℕ → Name → Call
  acknowledge : Name → ℕ → Call
  reject : ℕ → Name → ℕ → Bool → Call
  take_dead : Name → ℕ → Call
  requeue_dead : ℕ → Name → ℕ → Call

abbrev pub perform : Transforms → Call → Broker → Broker
perform t (Call.create config) b = (create_queue config b).1
perform t (Call.delete name) b = (delete_queue name b).1
perform t (Call.purge name) b = (purge_queue name b).1
perform t (Call.purge_dead name) b = (purge_dead_letter_queue name b).1
perform t (Call.update name config) b = (update_queue_config name config b).1
perform t (Call.send now name m) b = (send_message t now name m b).1
perform t (Call.receive now pick name) b = (receive_within t now pick name none b).2
perform t (Call.acknowledge name id) b = (acknowledge_message name id b).1
perform t (Call.reject now name id requeue) b = (reject_message now name id requeue b).1
perform t (Call.take_dead name n) b = (get_dead_letter_messages name n [] b).2
perform t (Call.requeue_dead now name id) b = (requeue_dead_letter_message now name id b).1

abbrev pub perform_all : Transforms → List Call → Broker → Broker
perform_all t [] b = b
perform_all t (c ∷ cs) b = perform_all t cs (perform t c b)

-- A broker after Initialize.
abbrev pub fresh : Broker
fresh = record { initialized = true; queues = []; next_id = 1 }
