-- ===== src/MessageQueue/Transactions/Commit.antt =====
-- Shared/MessageQueue/MessageQueue.cpp, CommitTransaction: which operations a commit executes.
use mathlib.Core.Bool.{true≢false}
use mathlib.Core.List.{append-nil, append_assoc}
use helianthus.Prelude.{
  ℕ, ◌+◌, ◌%◌, ◌≡◌, refl, sym, ap, ◌∙◌, inl, inr, Bool, true, false, ◌&&◌, some, List, [], ◌∷◌,
  ◌++◌, arith, u64_mod, find_id, put_id, find_id-put_id, Name, ltb, if◌then◌else◌, Bool-cases,
}
use helianthus.MessageQueue.Types.{QueueResult}
use helianthus.MessageQueue.Broker.{Broker}
use helianthus.MessageQueue.Broker.DeadLetter.{is_success}
use helianthus.MessageQueue.Broker.Transfer.{Transforms}
use helianthus.MessageQueue.Transactions.{
  Operation, Transaction, Ledger, is_pending, is_timeout, new_transaction, begin_transaction,
  execute, execute_all, is_late, finish_commit, commit_transaction, add_operation,
}

-- The broker after operations whose answers nobody reads.
abbrev pub run_all : Transforms → ℕ → List Operation → Broker → Broker
run_all t now [] b = b
run_all t now (o ∷ os) b = run_all t now os (execute t now o b).1

abbrev pub all_succeed : Transforms → ℕ → List Operation → Broker → Bool
all_succeed t now [] b = true
all_succeed t now (o ∷ os) b =
    is_success (execute t now o b).0 && all_succeed t now os (execute t now o b).1

-- How many operations run: up to the first one that fails, which runs as well.
abbrev pub executed : Transforms → ℕ → List Operation → Broker → List Operation
executed t now [] b = []
executed t now (o ∷ os) b =
    let rest = executed t now os (execute t now o b).1 in
    if is_success (execute t now o b).0 then o ∷ rest else o ∷ []

execute_all-executed :
    (t : Transforms) (now : ℕ) (os : List Operation) (b : Broker)
    → execute_all t now os b ≡ (all_succeed t now os b, run_all t now (executed t now os b) b)
unfolding execute_all
execute_all-executed t now [] b = refl
execute_all-executed t now (o ∷ os) b =
    let rest = execute_all-executed t now os (execute t now o b).1 in
    elim (Bool-cases (is_success (execute t now o b).0)) [ inl e ↦ rw e rest | inr e ↦ rw e refl ]

execute_all-stops :
    (t : Transforms) (now : ℕ) (os : List Operation) (b b' : Broker)
    → execute_all t now os b ≡ (false, b')
    → (first : List Operation) × (o : Operation) × (rest : List Operation) × (os
        ≡ first ++ (o ∷ rest))
      × (all_succeed t now first b ≡ true)
      × (is_success (execute t now o (run_all t now first b)).0 ≡ false)
      × (b' ≡ (execute t now o (run_all t now first b)).1)
unfolding execute_all
execute_all-stops t now [] b b' e = absurd (true≢false (ap (λ r. r.0) e))
execute_all-stops t now (o ∷ os) b b' e = elim (Bool-cases (is_success (execute t now o b).0)) [
  | inl s ↦
      let (first, o', rest, p, a, n, q) =
        execute_all-stops t now os (execute t now o b).1 b' (ground arith) in
      (o ∷ first, o', rest, ap (λ l. o ∷ l) p, ground arith, n, q)
  | inr s ↦ ([], o, os, refl, refl, s, ground arith)
]

abbrev pub add_all : ℕ → List Operation → Ledger → Ledger
add_all id [] l = l
add_all id (o ∷ os) l = add_all id os (add_operation id o l).1

add_operation-pending :
    (id : ℕ) (o : Operation) (x : Transaction) (l : Ledger)
    → find_id id l.transactions ≡ some x
    → is_pending x.status ≡ true
    → ((add_operation id o l).1.broker ≡ l.broker)
      × (find_id id (add_operation id o l).1.transactions
          ≡ some (record x { operations = x.operations ++ (o ∷ []) }))
unfolding add_operation
add_operation-pending id o x l f p =
    let k =
      find_id-put_id id id (record x { operations = x.operations ++ (o ∷ []) }) l.transactions in
    rw (f, add_operation, p) (refl, ground arith)

add_all-pending :
    (id : ℕ) (os : List Operation) (x : Transaction) (l : Ledger)
    → find_id id l.transactions ≡ some x
    → is_pending x.status ≡ true
    → ((add_all id os l).broker ≡ l.broker)
      × (find_id id (add_all id os l).transactions
          ≡ some (record x { operations = x.operations ++ os }))
add_all-pending id [] x l f p =
    (refl, f ∙ ap (λ os. some (record x { operations = os })) (sym (append-nil x.operations)))
add_all-pending id (o ∷ os) x l f p =
    let (b, k) = add_operation-pending id o x l f p in
    let (b', k') =
      add_all-pending id os (record x { operations = x.operations ++ (o ∷ []) })
        (add_operation id o l).1 k p in
    (
      b' ∙ b,
      k' ∙ ap (λ os'. some (record x { operations = os' })) (append_assoc x.operations (o ∷ []) os),
    )

commit_transaction-pending :
    (t : Transforms) (now id : ℕ) (x : Transaction) (l : Ledger)
    → find_id id l.transactions ≡ some x
    → is_pending x.status ≡ true
    → (ltb 0 x.timeout_ms && is_late now x) ≡ false
    → commit_transaction t now id l
      ≡ finish_commit now id x (execute_all t now x.operations l.broker) l
unfolding commit_transaction
commit_transaction-pending t now id x l f p n =
    let n' : is_timeout x.status ≡ false = ground arith in rw (f, commit_transaction, n', n, p) refl

put_id_found :
    (id : ℕ) (x : Transaction) (xs : List (ℕ × Transaction)) → find_id id (put_id id x xs) ≡ some x
put_id_found id x xs = let k = find_id-put_id id id x xs in ground arith

finish_commit-answer :
    (now id : ℕ) (x : Transaction) (ok : Bool) (b : Broker) (l : Ledger)
    → ((finish_commit now id x (ok, b) l).0
        ≡ (if ok then QueueResult.success else QueueResult.operation_failed))
      × ((finish_commit now id x (ok, b) l).1.broker ≡ b)
finish_commit-answer now id x true b l = (refl, refl)
finish_commit-answer now id x false b l = (refl, refl)

finish_commit-failed :
    (now id : ℕ) (x : Transaction) (r : Bool × Broker) (l : Ledger)
    → (finish_commit now id x r l).0 ≡ QueueResult.operation_failed
    → (r ≡ (false, r.1)) × ((finish_commit now id x r l).1.broker ≡ r.1)
finish_commit-failed now id x (true, b) l h = ground arith
finish_commit-failed now id x (false, b) l h = (refl, refl)

-- Operations added to a transaction change no queue. A commit in time then executes them in order,
-- up to and with the first that fails, and answers SUCCESS exactly when none fails.
pub commit-add_all-begin :
    (t : Transforms) (start now timeout : ℕ) (description : Name) (os : List Operation) (l : Ledger)
    → (ltb 0 timeout && ltb ((start + timeout) % u64_mod) now) ≡ false
    → (let id = (begin_transaction start description timeout l).0 in
        let before = add_all id os (begin_transaction start description timeout l).1 in
        (before.broker ≡ l.broker)
        × ((commit_transaction t now id before).0 ≡ (
            if all_succeed t now os l.broker
            then QueueResult.success
            else QueueResult.operation_failed))
        × ((commit_transaction t now id before).1.broker
            ≡ run_all t now (executed t now os l.broker) l.broker))
unfolding begin_transaction
commit-add_all-begin t start now timeout description os l n =
    let id = l.next_transaction_id in
    let x : Transaction = new_transaction start id description timeout false [] in
    let before : Ledger = add_all id os (begin_transaction start description timeout l).1 in
    let (b, k) =
      add_all-pending id os x (begin_transaction start description timeout l).1
        (put_id_found id x l.transactions) refl in
    let x' : Transaction = record x { operations = os } in
    let u : commit_transaction t now id before
        ≡ finish_commit now id x'
            (all_succeed t now os l.broker, run_all t now (executed t now os l.broker) l.broker)
            before =
      commit_transaction-pending t now id x' before k refl n
      ∙ ap (λ br. finish_commit now id x' (execute_all t now os br) before) b
      ∙ ap (λ r. finish_commit now id x' r before) (execute_all-executed t now os l.broker) in
    let (a, c) =
      finish_commit-answer now id x' (all_succeed t now os l.broker)
        (run_all t now (executed t now os l.broker) l.broker) before in
    (b, ap (λ r. r.0) u ∙ a, ap (λ r. r.1.broker) u ∙ c)

-- A commit that answers OPERATION_FAILED is not undone: the operations before the one that failed
-- have all been executed and stay so, and so does what the failing one did.
pub commit_transaction-partial :
    (t : Transforms) (now id : ℕ) (x : Transaction) (l : Ledger)
    → find_id id l.transactions ≡ some x
    → is_pending x.status ≡ true
    → (commit_transaction t now id l).0 ≡ QueueResult.operation_failed
    → (first : List Operation) × (o : Operation) × (rest : List Operation) × (x.operations
        ≡ first ++ (o ∷ rest))
      × (all_succeed t now first l.broker ≡ true)
      × (is_success (execute t now o (run_all t now first l.broker)).0 ≡ false)
      × ((commit_transaction t now id l).1.broker
          ≡ (execute t now o (run_all t now first l.broker)).1)
unfolding commit_transaction
commit_transaction-partial t now id x l f p h =
    let n : (ltb 0 x.timeout_ms && is_late now x) ≡ false = ground arith in
    let u = commit_transaction-pending t now id x l f p n in
    let (e, c) =
      finish_commit-failed now id x (execute_all t now x.operations l.broker) l
        (sym (ap (λ r. r.0) u) ∙ h) in
    let (first, o, rest, s, a, q, r) =
      execute_all-stops t now x.operations l.broker (execute_all t now x.operations l.broker).1 e in
    (first, o, rest, s, a, q, ap (λ r. r.1.broker) u ∙ c ∙ r)
