-- ===== src/MessageQueue/Transactions/Timeouts.antt =====
-- Shared/MessageQueue/MessageQueue.cpp, transactions: what their timeouts do.
use helianthus.Prelude.{
  ℕ, ◌+◌, ◌%◌, ◌<◌, ◌≡◌, refl, ap, ◌∙◌, true, false, ◌&&◌, ◌||◌, some, List, [], ◌∷◌, arith,
  u64_mod, find_id, put_id, find_id-put_id, Name, ltb, lt→ltb,
}
use helianthus.MessageQueue.Types.{QueueResult}
use helianthus.MessageQueue.Queue.{incr}
use helianthus.MessageQueue.Broker.Transfer.{Transforms}
use helianthus.MessageQueue.Transactions.{
  TransactionStatus, Transaction, Ledger, is_timeout, new_transaction, begin_transaction,
  execute_all, is_late, commit_transaction, get_transaction_status, overdue, expire,
  process_timeouts,
}

put_id_found :
    (id : ℕ) (x : Transaction) (xs : List (ℕ × Transaction)) → find_id id (put_id id x xs) ≡ some x
put_id_found id x xs = let k = find_id-put_id id id x xs in ground arith

put_id_empty : (id : ℕ) (x : Transaction) → put_id id x [] ≡ (id, x) ∷ []
unfolding put_id
put_id_empty id x = refl

-- CommitTransaction after the time window of a transaction answers TRANSACTION_NOT_FOUND and makes
-- it timed out, whatever its status was: one that was committed or rolled back is counted again.
pub commit_transaction-late :
    (t : Transforms) (now id : ℕ) (out : TransactionStatus) (x : Transaction) (l : Ledger)
    → find_id id l.transactions ≡ some x
    → 0 < x.timeout_ms
    → (x.start_time + x.timeout_ms) % u64_mod < now
    → ((commit_transaction t now id l).0 ≡ QueueResult.transaction_not_found)
      × (get_transaction_status id out (commit_transaction t now id l).1
          ≡ (QueueResult.success, TransactionStatus.timeout))
      × ((commit_transaction t now id l).1.stats.total ≡ incr l.stats.total)
unfolding commit_transaction get_transaction_status
commit_transaction-late t now id out x l f p n =
    let k =
      put_id_found id (record x { status = TransactionStatus.timeout; end_time = now })
        l.transactions in
    let c : (is_timeout x.status || (ltb 0 x.timeout_ms && is_late now x)) ≡ true = ground arith in
    rw (f, commit_transaction, c) (refl, rw (k, get_transaction_status) refl, refl)

-- The only transaction of a ledger, without a timeout, that has no operations.
module _ (t : Transforms) (now start : ℕ) (description : Name) (id : ℕ) (l : Ledger) where
  abbrev x : Transaction
  x = new_transaction start id description 0 false []

  commit-untimed :
      find_id id l.transactions ≡ some x → (commit_transaction t now id l).0 ≡ QueueResult.success
  unfolding commit_transaction execute_all
  commit-untimed f = rw (f, commit_transaction) refl

  overdue_one : (start + 0) % u64_mod < now → overdue now ((id, x) ∷ []) ≡ id ∷ []
  overdue_one late =
      let b : ltb ((start + 0) % u64_mod) now ≡ true = lt→ltb ((start + 0) % u64_mod) now late in
      rw b refl

  sweep-untimed :
      (out : TransactionStatus)
      → l.transactions ≡ (id, x) ∷ []
      → find_id id l.transactions ≡ some x
      → (start + 0) % u64_mod < now
      → get_transaction_status id out (process_timeouts now l)
        ≡ (QueueResult.success, TransactionStatus.timeout)
  unfolding process_timeouts get_transaction_status
  sweep-untimed out e f late =
      let o : overdue now l.transactions ≡ id ∷ [] = rw e (overdue_one late) in
      let k =
        put_id_found id (record x { status = TransactionStatus.timeout; end_time = now })
          l.transactions in
      rw (o, process_timeouts, f, expire, k, get_transaction_status) refl

-- A transaction that was begun without a timeout could still be committed, but a sweep in a later
-- millisecond times it out.
pub process_timeouts-zero :
    (t : Transforms) (now start : ℕ) (description : Name) (out : TransactionStatus) (l : Ledger)
    → l.transactions ≡ []
    → start < now
    → start < u64_mod
    → (let begun = begin_transaction start description 0 l in
        ((commit_transaction t now begun.0 begun.1).0 ≡ QueueResult.success)
        × (get_transaction_status begun.0 out (process_timeouts now begun.1)
            ≡ (QueueResult.success, TransactionStatus.timeout)))
unfolding begin_transaction
process_timeouts-zero t now start description out l e n b =
    let x' : Transaction = new_transaction start l.next_transaction_id description 0 false [] in
    let f = put_id_found l.next_transaction_id x' l.transactions in
    let after : Ledger = (begin_transaction start description 0 l).1 in
    let only : after.transactions ≡ (l.next_transaction_id, x') ∷ [] =
      ap (put_id l.next_transaction_id x') e ∙ put_id_empty l.next_transaction_id x' in
    (
      commit-untimed t now start description l.next_transaction_id after f,
      sweep-untimed t now start description l.next_transaction_id after out only f (omega arith),
    )
