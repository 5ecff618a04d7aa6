-- ===== src/MessageQueue/Transactions/Keeping.antt =====
-- Shared/MessageQueue/MessageQueue.cpp, transactions: what one call keeps of the ledger.
use helianthus.Prelude.{
  ℕ, ◌+◌, ◌%◌, ◌≤◌, ◌<◌, ◌≡◌, refl, ap, ◌∙◌, inl, inr, Bool, true, false, ◌&&◌, ◌||◌, Option, none,
  some, [], ◌∷◌, ◌++◌, arith, u64_mod, find_id, put_id, find_id-put_id, Name, ltb, ◌==◌,
  if◌then◌else◌, Option-cases, Bool-cases, one_if,
}
use helianthus.MessageQueue.Types.{QueueResult}
use helianthus.MessageQueue.Message.{Message}
use helianthus.MessageQueue.Broker.{Broker}
use helianthus.MessageQueue.Broker.Transfer.{Transforms}
use helianthus.MessageQueue.Transactions.Tally.{
  tally, tally-put_id, tally-put_id_new, put_id-IsKeyed, id_of_found,
}
use helianthus.MessageQueue.Transactions.{
  TransactionStatus, Operation, Transaction, Ledger, is_pending, is_timeout, execute_all, finish,
  is_late, finish_commit, commit_transaction, rollback_transaction, add_operation,
  send_in_transaction,
}
use helianthus.MessageQueue.Transactions.Ledgers.{
  IsLedger, finish-IsLedger, put_id-below, is_ended, is_committed, is_rolled_back, is_failed,
}

-- The ledger after one call: it is right, and at most one id further.
abbrev pub Keeps : Ledger → Ledger → Type 0
Keeps l after = IsLedger after × (after.next_transaction_id ≤ l.next_transaction_id + 1)

next-unused : (l : Ledger) → IsLedger l → find_id l.next_transaction_id l.transactions ≡ none
next-unused l h = elim (Option-cases (find_id l.next_transaction_id l.transactions)) [
  | inl e ↦ e
  | inr found ↦ absurd (omega (arith, h.below l.next_transaction_id found.0 found.1))
]

-- A new transaction is pending, and no number of ended ones changes.
pub added-Keeps :
    (y : Transaction) (l : Ledger)
    → y.id ≡ l.next_transaction_id
    → y.status ≡ TransactionStatus.pending
    → l.next_transaction_id + 1 < u64_mod
    → IsLedger l
    → Keeps l (record l {
      transactions = put_id l.next_transaction_id y l.transactions;
      next_transaction_id = (l.next_transaction_id + 1) % u64_mod;
    })
added-Keeps y l e s room h =
    let n = l.next_transaction_id in
    let unused = next-unused l h in
    let same : (p : TransactionStatus → Bool)
        → tally p (put_id n y l.transactions)
          ≡ tally p l.transactions + one_if (p TransactionStatus.pending) =
      λ p.
        tally-put_id_new p n y l.transactions unused
        ∙ ap (λ z. tally p l.transactions + one_if (p z)) s in
    (
      record {
        keyed = put_id-IsKeyed n y l.transactions e h.keyed;
        below = λ j z g.
            let p = find_id-put_id n j y l.transactions in
            elim (Bool-cases (n == j)) [
              | inl q ↦ ground arith
              | inr q ↦ let b = h.below j z (ground arith) in omega arith
            ];
        tallied = record {
          total = omega (arith, h.tallied.total, same is_ended);
          committed = omega (arith, h.tallied.committed, same is_committed);
          rolled_back = omega (arith, h.tallied.rolled_back, same is_rolled_back);
          timed_out = omega (arith, h.tallied.timed_out, same is_timeout);
          failed = omega (arith, h.tallied.failed, same is_failed);
        };
      },
      omega arith,
    )

-- A transaction that keeps its id and status.
changed-Keeps :
    (id : ℕ) (x y : Transaction) (l : Ledger)
    → find_id id l.transactions ≡ some x
    → y.id ≡ x.id
    → y.status ≡ x.status
    → IsLedger l
    → Keeps l (record l { transactions = put_id id y l.transactions })
changed-Keeps id x y l f e s h =
    let same : (p : TransactionStatus → Bool)
        → tally p (put_id id y l.transactions) + one_if (p x.status)
          ≡ tally p l.transactions + one_if (p x.status) =
      λ p.
        tally-put_id p id x y l.transactions f
        ∙ ap (λ z. tally p l.transactions + one_if (p z)) s in
    (
      record {
        keyed =
            put_id-IsKeyed id y l.transactions (e ∙ id_of_found id x l.transactions h.keyed f)
              h.keyed;
        below = put_id-below id x y l f h;
        tallied = record {
          total = omega (arith, h.tallied.total, same is_ended);
          committed = omega (arith, h.tallied.committed, same is_committed);
          rolled_back = omega (arith, h.tallied.rolled_back, same is_rolled_back);
          timed_out = omega (arith, h.tallied.timed_out, same is_timeout);
          failed = omega (arith, h.tallied.failed, same is_failed);
        };
      },
      omega arith,
    )

pub finish-Keeps :
    (now : ℕ) (status : TransactionStatus) (id : ℕ) (x : Transaction) (b : Broker) (l : Ledger)
    → find_id id l.transactions ≡ some x
    → is_pending x.status ≡ true
    → is_ended status ≡ true
    → IsLedger l
    → Keeps l (finish now status id x (record l { broker = b }))
finish-Keeps now status id x b l f p e h =
    (finish-IsLedger now status id x b l f p e h, omega arith)

either :
    (c : Bool) (l : Ledger) (x y : QueueResult × Ledger)
    → Keeps l x.1
    → Keeps l y.1
    → Keeps l (if c then x else y).1
either true l x y h k = h
either false l x y h k = k

pub commit-Keeps :
    (t : Transforms) (now id : ℕ) (l : Ledger)
    → ((x : Transaction) → find_id id l.transactions ≡ some x → is_pending x.status ≡ true)
    → IsLedger l
    → Keeps l (commit_transaction t now id l).1
unfolding commit_transaction
commit-Keeps t now id l going h = elim (Option-cases (find_id id l.transactions)) [
  | inl e ↦ rw (e, commit_transaction) (h, omega arith)
  | inr found ↦
      let (x, e) = found in
      rw (e, commit_transaction)
        (either (is_timeout x.status || (ltb 0 x.timeout_ms && is_late now x)) l _ _
          (finish-Keeps now TransactionStatus.timeout id x l.broker l e (going x e) refl h)
          (either (is_pending x.status) l _ _
            (by_result (execute_all t now x.operations l.broker) x e) (h, omega arith)))
]
  where
    by_result :
        (r : Bool × Broker) (x : Transaction)
        → find_id id l.transactions ≡ some x
        → Keeps l (finish_commit now id x r l).1
    by_result (true, b) x e =
        finish-Keeps now TransactionStatus.committed id x b l e (going x e) refl h
    by_result (false, b) x e =
        finish-Keeps now TransactionStatus.failed id x b l e (going x e) refl h

pub rollback-Keeps :
    (now id : ℕ) (l : Ledger) → IsLedger l → Keeps l (rollback_transaction now id l).1
unfolding rollback_transaction
rollback-Keeps now id l h = elim (Option-cases (find_id id l.transactions)) [
  | inl e ↦ rw (e, rollback_transaction) (h, omega arith)
  | inr found ↦
      let (x, e) = found in
      elim (Bool-cases (is_pending x.status)) [
        | inl p ↦
            rw (e, rollback_transaction, p)
              (finish-Keeps now TransactionStatus.rolled_back id x l.broker l e p refl h)
        | inr p ↦ rw (e, rollback_transaction, p) (h, omega arith)
      ]
]

pub add_operation-Keeps :
    (id : ℕ) (o : Operation) (l : Ledger) → IsLedger l → Keeps l (add_operation id o l).1
unfolding add_operation
add_operation-Keeps id o l h = elim (Option-cases (find_id id l.transactions)) [
  | inl e ↦ rw (e, add_operation) (h, omega arith)
  | inr found ↦
      let (x, e) = found in
      rw (e, add_operation)
        (either (is_pending x.status) l _ _
          (changed-Keeps id x (record x { operations = x.operations ++ (o ∷ []) }) l e refl refl h)
          (h, omega arith))
]

pub send_in-Keeps :
    (id : ℕ) (name : Name) (m : Option Message) (l : Ledger)
    → IsLedger l
    → Keeps l (send_in_transaction id name m l).1
unfolding send_in_transaction
send_in-Keeps id name none l h = (h, omega arith)
send_in-Keeps id name (some m) l h = elim (Option-cases (find_id id l.transactions)) [
  | inl e ↦ rw (e, send_in_transaction) (h, omega arith)
  | inr found ↦
      rw (found.1, send_in_transaction)
        (either (is_pending found.0.status) l _ _
          (add_operation-Keeps id (Operation.send name m) l h) (h, omega arith))
]
