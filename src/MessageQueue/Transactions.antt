-- ===== src/MessageQueue/Transactions.antt =====
-- Shared/MessageQueue/MessageQueue.cpp: transactions, which keep operations on the queues back until
-- they are committed. The lock is held for each call but the sweep, whose second half this takes
-- one transaction after the other. Handlers, log and rates are left out.
pub mod Commit
pub mod Tally
pub mod Sweep
pub mod Ledgers
pub mod Keeping
pub mod Runs
pub mod Timeouts
mod Tests
use helianthus.Prelude.{
  ℕ, zero, suc, ◌+◌, ◌-◌, ◌*◌, ◌/◌, ◌%◌, ◌^◌, ◌≤◌, ◌<◌, min, max, ◌≡◌, refl, sym, ap, ◌∙◌, ◌≢◌, ◌↔◌,
  ◌⊎◌, inl, inr, Bool, true, false, not, ◌&&◌, ◌||◌, Option, none, some, List, [], ◌∷◌, ◌++◌, map,
  arith, dec_lt, ℕ_discrete, u32_mod, u64_mod, le_bytes, le_value, length-le_bytes,
  le_value-le_bytes, take-le_bytes, drop-le_bytes, one_if, count, erase, length-erase, count-erase,
  count-append, find_id, put_id, remove_id, find_id-put_id, find_id-remove_id, length, get_elem?,
  set, length-append, length-set, get_elem?-set_self, get_elem?-set_ne, get_or, take, drop,
  replicate, take-append-drop, length-take, length-drop, length-replicate, length-map,
  take-length_append, drop-length_append, take-append_le, drop-append_le, All, Name, same_name,
  same_name→eq, same_name_self, eq→same_name, ne→same_name, find, put, remove, find-put,
  find-remove, map_laws, ltb, leb, ◌==◌, if◌then◌else◌, ltb→lt, lt→ltb, leb→le, ==_iff, tests,
  Bool-cases, Option-cases,
}
use helianthus.MessageQueue.Types.{QueueResult}
use helianthus.MessageQueue.Message.{Message}
use helianthus.MessageQueue.Queue.{QueueConfig, incr}
use helianthus.MessageQueue.Broker.{
  Broker, set_queue, validate_queue_config, generate_message_id, queue_exists, create_queue,
  delete_queue, purged, purge_queue, list_queues, get_queue_info, update_queue_config,
  find-set_queue, find-set_queue_ne,
}
use helianthus.MessageQueue.Broker.DeadLetter.{is_success}
use helianthus.MessageQueue.Broker.Transfer.{
  Transforms, routed, with_body, is_full, count_sent, count_received, prepared, note_sent, enqueue,
  send_to, send_message, receive_message, delivered, wants_ack, await_ack, too_early, deliver,
  receive_within, acknowledge_message, retried, count_retried, settle_rejected, reject_message,
  peek_message,
}

pub data TransactionStatus : Type 0 where
  pending committed rolled_back timeout failed : TransactionStatus

-- TransactionOperation, by its type; the error message of a rejection is not read.
pub data Operation : Type 0 where
  send : Name → Message → Operation
  acknowledge reject : Name → ℕ → Operation
  create : QueueConfig → Operation
  delete : Name → Operation

pub record Transaction : Type 0 where
  pub id : ℕ
  pub status : TransactionStatus
  pub operations : List Operation
  pub start_time : ℕ
  pub end_time : ℕ
  pub description : Name
  pub timeout_ms : ℕ
  pub is_distributed : Bool
  pub coordinator_id : Name

pub record TransactionStats : Type 0 where
  pub total : ℕ
  pub committed : ℕ
  pub rolled_back : ℕ
  pub timed_out : ℕ
  pub failed : ℕ

pub record Ledger : Type 0 where
  pub broker : Broker
  pub transactions : List (ℕ × Transaction)
  pub next_transaction_id : ℕ
  pub stats : TransactionStats

abbrev pub is_pending : TransactionStatus → Bool
is_pending TransactionStatus.pending = true
is_pending _ = false

abbrev pub is_timeout : TransactionStatus → Bool
is_timeout TransactionStatus.timeout = true
is_timeout _ = false

-- UpdateTransactionStats.
abbrev pub count_status : TransactionStatus → TransactionStats → TransactionStats
count_status TransactionStatus.committed s = record s { committed = incr s.committed }
count_status TransactionStatus.rolled_back s = record s { rolled_back = incr s.rolled_back }
count_status TransactionStatus.timeout s = record s { timed_out = incr s.timed_out }
count_status TransactionStatus.failed s = record s { failed = incr s.failed }
count_status TransactionStatus.pending s = s

abbrev pub update_stats : TransactionStatus → TransactionStats → TransactionStats
update_stats status s = count_status status (record s { total = incr s.total })

abbrev pub new_transaction : ℕ → ℕ → Name → ℕ → Bool → Name → Transaction
new_transaction now id description timeout_ms distributed coordinator = record {
  id = id;
  status = TransactionStatus.pending;
  operations = [];
  start_time = now;
  end_time = 0;
  description = description;
  timeout_ms = timeout_ms;
  is_distributed = distributed;
  coordinator_id = coordinator;
}

abbrev add_transaction : Transaction → Ledger → Ledger
add_transaction x l = record l {
  transactions = put_id l.next_transaction_id x l.transactions;
  next_transaction_id = incr l.next_transaction_id;
}

unfoldable pub begin_transaction : ℕ → Name → ℕ → Ledger → ℕ × Ledger
begin_transaction now description timeout_ms l = (
  l.next_transaction_id,
  add_transaction (new_transaction now l.next_transaction_id description timeout_ms false []) l,
)

-- The new transaction's id is not handed out.
unfoldable pub begin_distributed_transaction : ℕ → Name → Name → ℕ → Ledger → QueueResult × Ledger
begin_distributed_transaction now coordinator description timeout_ms l = (
  QueueResult.success,
  add_transaction
      (new_transaction now l.next_transaction_id description timeout_ms true coordinator) l,
)

unfoldable pub execute : Transforms → ℕ → Operation → Broker → QueueResult × Broker
execute t now (Operation.send name m) b = send_message t now name (some m) b
execute t now (Operation.acknowledge name id) b = acknowledge_message name id b
execute t now (Operation.reject name id) b = reject_message now name id false b
execute t now (Operation.create config) b = create_queue config b
execute t now (Operation.delete name) b = delete_queue name b

-- The loop of CommitTransaction: stops at the first operation that fails.
unfoldable pub execute_all : Transforms → ℕ → List Operation → Broker → Bool × Broker
execute_all t now [] b = (true, b)
execute_all t now (o ∷ os) b =
    let rest = execute_all t now os (execute t now o b).1 in
    if is_success (execute t now o b).0 then rest else (false, (execute t now o b).1)

-- Status, end time and statistics of a transaction that ends.
abbrev pub finish : ℕ → TransactionStatus → ℕ → Transaction → Ledger → Ledger
finish now status id x l = record l {
  transactions = put_id id (record x { status = status; end_time = now }) l.transactions;
  stats = update_stats status l.stats;
}

abbrev pub is_late : ℕ → Transaction → Bool
is_late now x = ltb ((x.start_time + x.timeout_ms) % u64_mod) now

abbrev pub finish_commit : ℕ → ℕ → Transaction → Bool × Broker → Ledger → QueueResult × Ledger
finish_commit now id x (true, b) l =
    (QueueResult.success, finish now TransactionStatus.committed id x (record l { broker = b }))
finish_commit now id x (false, b) l = (
  QueueResult.operation_failed,
  finish now TransactionStatus.failed id x (record l { broker = b }),
)

unfoldable pub commit_transaction : Transforms → ℕ → ℕ → Ledger → QueueResult × Ledger
commit_transaction t now id l = elim (find_id id l.transactions) [
  | none ↦ (QueueResult.transaction_not_found, l)
  | some x ↦
      if is_timeout x.status || (ltb 0 x.timeout_ms && is_late now x)
      then (QueueResult.transaction_not_found, finish now TransactionStatus.timeout id x l)
      else if is_pending x.status
      then finish_commit now id x (execute_all t now x.operations l.broker) l
      else (QueueResult.invalid_state, l)
]

-- RollbackTransactionOperations does nothing but log.
unfoldable pub rollback_transaction : ℕ → ℕ → Ledger → QueueResult × Ledger
rollback_transaction now id l = elim (find_id id l.transactions) [
  | none ↦ (QueueResult.transaction_not_found, l)
  | some x ↦
      if is_pending x.status
      then (QueueResult.success, finish now TransactionStatus.rolled_back id x l)
      else (QueueResult.invalid_state, l)
]

unfoldable pub add_operation : ℕ → Operation → Ledger → QueueResult × Ledger
add_operation id o l = elim (find_id id l.transactions) [
  | none ↦ (QueueResult.invalid_parameter, l)
  | some x ↦
      if is_pending x.status
      then (
        QueueResult.success,
        record l {
          transactions =
              put_id id (record x { operations = x.operations ++ (o ∷ []) }) l.transactions;
        },
      )
      else (QueueResult.invalid_state, l)
]

-- The checks before AddTransactionOperation.
unfoldable pub send_in_transaction : ℕ → Name → Option Message → Ledger → QueueResult × Ledger
send_in_transaction id name none l = (QueueResult.invalid_parameter, l)
send_in_transaction id name (some m) l = elim (find_id id l.transactions) [
  | none ↦ (QueueResult.transaction_not_found, l)
  | some x ↦
      if is_pending x.status
      then add_operation id (Operation.send name m) l
      else (QueueResult.invalid_state, l)
]

-- The precheck of the operations has no body.
unfoldable pub prepare_transaction : ℕ → Ledger → QueueResult
prepare_transaction id l = elim (find_id id l.transactions) [
  | none ↦ QueueResult.transaction_not_found
  | some x ↦ if is_pending x.status then QueueResult.success else QueueResult.invalid_state
]

unfoldable pub get_transaction_status :
    ℕ → TransactionStatus → Ledger → QueueResult × TransactionStatus
get_transaction_status id out l = elim (find_id id l.transactions) [
  | none ↦ (QueueResult.invalid_parameter, out)
  | some x ↦ (QueueResult.success, x.status)
]

abbrev pub overdue : ℕ → List (ℕ × Transaction) → List ℕ
overdue now [] = []
overdue now ((id, x) ∷ xs) =
    if is_pending x.status && is_late now x then x.id ∷ overdue now xs else overdue now xs

abbrev pub expire : ℕ → ℕ → Ledger → Ledger
expire now id l = elim (find_id id l.transactions) [
  | none ↦ l
  | some x ↦ finish now TransactionStatus.timeout id x l
]

abbrev pub expire_all : ℕ → List ℕ → Ledger → Ledger
expire_all now [] l = l
expire_all now (id ∷ ids) l = expire_all now ids (expire now id l)

-- One round of ProcessTransactionTimeouts.
unfoldable pub process_timeouts : ℕ → Ledger → Ledger
process_timeouts now l = expire_all now (overdue now l.transactions) l
