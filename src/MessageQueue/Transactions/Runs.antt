-- ===== src/MessageQueue/Transactions/Runs.antt =====
-- Shared/MessageQueue/MessageQueue.cpp, transactions: the statistics over runs of calls.
use helianthus.Prelude.{ℕ, ◌+◌, ◌<◌, refl, true, false, List, [], ◌∷◌, arith, u64_mod, length}
use helianthus.MessageQueue.Broker.Transfer.{Transforms}
use helianthus.MessageQueue.Transactions.Sweep.{ArePending, put_id-ArePending, overdue-ArePending}
use helianthus.MessageQueue.Transactions.{
  TransactionStatus, Ledger, new_transaction, begin_transaction, begin_distributed_transaction,
  finish, overdue, expire, expire_all, process_timeouts,
}
use helianthus.MessageQueue.Transactions.Ledgers.{Action, act_all, IsLedger, AreOpen}
use helianthus.MessageQueue.Transactions.Keeping.{
  Keeps, added-Keeps, finish-Keeps, commit-Keeps, rollback-Keeps, add_operation-Keeps,
  send_in-Keeps,
}

expire_all-Keeps :
    (now : ℕ) (ids : List ℕ) (l : Ledger)
    → ArePending ids l.transactions
    → IsLedger l
    → Keeps l (expire_all now ids l)
expire_all-Keeps now [] l p h = (h, omega arith)
expire_all-Keeps now (id ∷ ids) l ((x, f, p), m, rest) h =
    let next : Ledger = finish now TransactionStatus.timeout id x l in
    let (k, b) = finish-Keeps now TransactionStatus.timeout id x l.broker l f p refl h in
    let (g, c) =
      expire_all-Keeps now ids next
        (put_id-ArePending id (record x { status = TransactionStatus.timeout; end_time = now }) ids
          l.transactions m rest)
        k in
    rw (f, expire_all, expire) (g, c)

-- Over a run of begins, additions, commits, rollbacks and sweeps in which no commit is of a
-- transaction that has ended, from a ledger that is right and has an id left for each call, the
-- ledger stays right: the statistics are the numbers of the transactions that have ended, and of
-- those committed, rolled back, timed out and failed, modulo 2^64, and each transaction stands
-- under its own id.
pub act_all-IsLedger :
    (t : Transforms) (rest : List Action) (l : Ledger)
    → AreOpen t rest l
    → l.next_transaction_id + length rest < u64_mod
    → IsLedger l
    → IsLedger (act_all t rest l)
unfolding begin_transaction begin_distributed_transaction process_timeouts
act_all-IsLedger t [] l o r h = h
act_all-IsLedger t (Action.begin now description timeout ∷ rest) l o r h =
    let x = new_transaction now l.next_transaction_id description timeout false [] in
    let (k, b) = added-Keeps x l refl refl (omega arith) h in
    act_all-IsLedger t rest _ o (omega arith) k
act_all-IsLedger t (Action.begin_distributed now coordinator description timeout ∷ rest) l o r h =
    let x = new_transaction now l.next_transaction_id description timeout true coordinator in
    let (k, b) = added-Keeps x l refl refl (omega arith) h in
    act_all-IsLedger t rest _ o (omega arith) k
act_all-IsLedger t (Action.add id a ∷ rest) l o r h =
    let (k, b) = add_operation-Keeps id a l h in act_all-IsLedger t rest _ o (omega arith) k
act_all-IsLedger t (Action.send id name m ∷ rest) l o r h =
    let (k, b) = send_in-Keeps id name m l h in act_all-IsLedger t rest _ o (omega arith) k
act_all-IsLedger t (Action.commit now id ∷ rest) l o r h =
    let (k, b) = commit-Keeps t now id l o.0 h in act_all-IsLedger t rest _ o.1 (omega arith) k
act_all-IsLedger t (Action.rollback now id ∷ rest) l o r h =
    let (k, b) = rollback-Keeps now id l h in act_all-IsLedger t rest _ o (omega arith) k
act_all-IsLedger t (Action.sweep now ∷ rest) l o r h =
    let (k, b) =
      expire_all-Keeps now (overdue now l.transactions) l
        (overdue-ArePending now l.transactions h.keyed) h in
    act_all-IsLedger t rest _ o (omega arith) k
