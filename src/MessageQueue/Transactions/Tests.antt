-- ===== src/MessageQueue/Transactions/Tests.antt =====
-- Shared/MessageQueue/MessageQueue.cpp, transactions: runs and applications at concrete values.
use helianthus.Prelude.{
  find_id, put_id, arith, ap, sym, none, some, ◌≡◌, refl, true, false, List, [], ◌∷◌, Name,
  if◌then◌else◌,
}
use helianthus.MessageQueue.Types.{QueueResult, QueueType, PersistenceMode}
use helianthus.MessageQueue.Queue.{QueueConfig}
use helianthus.MessageQueue.Broker.Transfer.{Transforms}
use helianthus.MessageQueue.Transactions.{
  Operation, Transaction, TransactionStats, Ledger, new_transaction, begin_transaction,
  commit_transaction, add_operation, is_pending,
}
use helianthus.MessageQueue.Transactions.Commit.{
  run_all, all_succeed, executed, add_all, commit-add_all-begin,
}
use helianthus.MessageQueue.Transactions.Ledgers.{Action, act_all, IsLedger, AreOpen}
use helianthus.MessageQueue.Transactions.Runs.{act_all-IsLedger}

abbrev jobs : Name
jobs = 106 ∷ []

abbrev jobs_config : QueueConfig
jobs_config = record {
  name = jobs;
  type_of_queue = QueueType.standard;
  persistence = PersistenceMode.memory_only;
  max_size = 5;
  max_size_bytes = 100;
  message_ttl = 300000;
  enable_dead_letter = true;
  enable_priority = false;
  enable_batching = true;
}

abbrev as_they_are : Transforms
as_they_are = record { seal = λ n b. b; route = λ n ps. ps; unseal = λ n b. b }

abbrev no_transactions : TransactionStats
no_transactions = record { total = 0; committed = 0; rolled_back = 0; timed_out = 0; failed = 0 }

abbrev start_ledger : Ledger
start_ledger = record {
  broker = record { initialized = true; queues = []; next_id = 1 };
  transactions = [];
  next_transaction_id = 1;
  stats = no_transactions;
}

abbrev twice : List Operation
twice = Operation.create jobs_config ∷ Operation.create jobs_config ∷ []

abbrev begun : Ledger
begun = record (begin_transaction 5 [] 100 start_ledger).1 { next_transaction_id = 2 }

abbrev pending_twice : Transaction
pending_twice = record (new_transaction 5 1 [] 100 false []) { operations = twice }

abbrev ledger_twice : Ledger
ledger_twice = record start_ledger {
  transactions = (1, pending_twice) ∷ [];
  next_transaction_id = 2;
}

commit-add_all-begin_example :
    (let before = add_all 1 twice (begin_transaction 5 [] 100 start_ledger).1 in
      (before.broker ≡ start_ledger.broker)
      × ((commit_transaction as_they_are 9 1 before).0 ≡ (
          if all_succeed as_they_are 9 twice start_ledger.broker
          then QueueResult.success
          else QueueResult.operation_failed))
      × ((commit_transaction as_they_are 9 1 before).1.broker
          ≡ run_all as_they_are 9
              (executed as_they_are 9 twice start_ledger.broker)
              start_ledger.broker))
unfolding begin_transaction
commit-add_all-begin_example = commit-add_all-begin as_they_are 5 9 100 [] twice start_ledger refl

abbrev day : List Action
day =
    Action.begin 5 [] 100
    ∷ Action.add 1 (Operation.create jobs_config)
    ∷ Action.commit 9 1
    ∷ Action.begin 10 [] 100
    ∷ Action.begin 10 [] 500
    ∷ Action.sweep 200
    ∷ Action.rollback 201 3
    ∷ []

start_ledger-IsLedger : IsLedger start_ledger
unfolding find_id
start_ledger-IsLedger = record {
  keyed = tt;
  below = λ id x e. cc;
  tallied = record {
    total = refl;
    committed = refl;
    rolled_back = refl;
    timed_out = refl;
    failed = refl;
  };
}

day-AreOpen : AreOpen as_they_are day start_ledger
unfolding begin_transaction add_operation find_id put_id
day-AreOpen = (λ x e. sym (ap (λ o. elim o [ none ↦ true | some z ↦ is_pending z.status ]) e), tt)

act_all-IsLedger_example : IsLedger (act_all as_they_are day start_ledger)
act_all-IsLedger_example =
    act_all-IsLedger as_they_are day start_ledger day-AreOpen (omega arith) start_ledger-IsLedger
