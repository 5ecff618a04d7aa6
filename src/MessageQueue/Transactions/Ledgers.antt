-- ===== src/MessageQueue/Transactions/Ledgers.antt =====
-- Shared/MessageQueue/MessageQueue.cpp, transactions: its calls as values, and when a ledger is right.
use helianthus.Prelude.{
  ℕ, ◌+◌, ◌%◌, ◌≡◌, refl, sym, inl, inr, Bool, true, false, not, ◌<◌, ap, ◌∙◌, one_if, put_id,
  find_id-put_id, Bool-cases, ◌==◌, Option, some, List, [], ◌∷◌, arith, u64_mod, find_id, Name,
}
use helianthus.MessageQueue.Message.{Message}
use helianthus.MessageQueue.Broker.{Broker}
use helianthus.MessageQueue.Broker.Transfer.{Transforms}
use helianthus.MessageQueue.Transactions.Tally.{
  Transactions, tally, IsKeyed, tally-put_id, put_id-IsKeyed, id_of_found,
}
use helianthus.MessageQueue.Transactions.{
  TransactionStats, update_stats, TransactionStatus, Operation, Transaction, Ledger, is_pending,
  is_timeout, begin_transaction, begin_distributed_transaction, finish, commit_transaction,
  rollback_transaction, add_operation, send_in_transaction, process_timeouts,
}

pub data Action : Type 0 where
  begin : ℕ → Name → ℕ → Action
  begin_distributed : ℕ → Name → Name → ℕ → Action
  add : ℕ → Operation → Action
  send : ℕ → Name → Option Message → Action
  commit rollback : ℕ → ℕ → Action
  sweep : ℕ → Action

abbrev pub act : Transforms → Action → Ledger → Ledger
act t (Action.begin now description timeout) l = (begin_transaction now description timeout l).1
act t (Action.begin_distributed now coordinator description timeout) l =
    (begin_distributed_transaction now coordinator description timeout l).1
act t (Action.add id o) l = (add_operation id o l).1
act t (Action.send id name m) l = (send_in_transaction id name m l).1
act t (Action.commit now id) l = (commit_transaction t now id l).1
act t (Action.rollback now id) l = (rollback_transaction now id l).1
act t (Action.sweep now) l = process_timeouts now l

abbrev pub act_all : Transforms → List Action → Ledger → Ledger
act_all t [] l = l
act_all t (a ∷ rest) l = act_all t rest (act t a l)

abbrev pub is_committed : TransactionStatus → Bool
is_committed TransactionStatus.committed = true
is_committed _ = false

abbrev pub is_rolled_back : TransactionStatus → Bool
is_rolled_back TransactionStatus.rolled_back = true
is_rolled_back _ = false

abbrev pub is_failed : TransactionStatus → Bool
is_failed TransactionStatus.failed = true
is_failed _ = false

abbrev pub is_ended : TransactionStatus → Bool
is_ended s = not (is_pending s)

-- The statistics are the numbers of transactions with each status, modulo 2^64.
pub record IsTallied (xs : Transactions) (s : TransactionStats) : Type 0 where
  pub total : s.total ≡ tally is_ended xs % u64_mod
  pub committed : s.committed ≡ tally is_committed xs % u64_mod
  pub rolled_back : s.rolled_back ≡ tally is_rolled_back xs % u64_mod
  pub timed_out : s.timed_out ≡ tally is_timeout xs % u64_mod
  pub failed : s.failed ≡ tally is_failed xs % u64_mod

-- The transactions stand under their ids, below the next one, and are counted.
pub record IsLedger (l : Ledger) : Type 0 where
  pub keyed : IsKeyed l.transactions
  pub below :
      (id : ℕ) (x : Transaction) → find_id id l.transactions ≡ some x → id < l.next_transaction_id
  pub tallied : IsTallied l.transactions l.stats

-- No commit is of a transaction that has ended.
abbrev pub AreOpen : Transforms → List Action → Ledger → Type 0
AreOpen t [] l = Unit
AreOpen t (Action.commit now id ∷ rest) l =
    ((x : Transaction) → find_id id l.transactions ≡ some x → is_pending x.status ≡ true)
    × AreOpen t rest (act t (Action.commit now id) l)
AreOpen t (a ∷ rest) l = AreOpen t rest (act t a l)

pub status_pending : (s : TransactionStatus) → is_pending s ≡ true → s ≡ TransactionStatus.pending
status_pending TransactionStatus.pending h = refl
status_pending TransactionStatus.committed h = cc
status_pending TransactionStatus.rolled_back h = cc
status_pending TransactionStatus.timeout h = cc
status_pending TransactionStatus.failed h = cc

-- A pending transaction that takes another status.
ended-IsTallied :
    (id : ℕ) (x y : Transaction) (xs : Transactions) (s : TransactionStats)
    → find_id id xs ≡ some x
    → x.status ≡ TransactionStatus.pending
    → is_ended y.status ≡ true
    → IsTallied xs s
    → IsTallied (put_id id y xs) (update_stats y.status s)
ended-IsTallied id x y xs s f e ends h =
    let changed : (p : TransactionStatus → Bool)
        → tally p (put_id id y xs) + one_if (p TransactionStatus.pending)
          ≡ tally p xs + one_if (p y.status) =
      λ p. ap (λ z. tally p (put_id id y xs) + one_if (p z)) (sym e) ∙ tally-put_id p id x y xs f in
    by_status y.status ends (changed is_ended) (changed is_committed) (changed is_rolled_back)
      (changed is_timeout) (changed is_failed)
  where
    after : Transactions
    after = put_id id y xs

    by_status :
        (z : TransactionStatus)
        → is_ended z ≡ true
        → tally is_ended after + 0 ≡ tally is_ended xs + one_if (is_ended z)
        → tally is_committed after + 0 ≡ tally is_committed xs + one_if (is_committed z)
        → tally is_rolled_back after + 0 ≡ tally is_rolled_back xs + one_if (is_rolled_back z)
        → tally is_timeout after + 0 ≡ tally is_timeout xs + one_if (is_timeout z)
        → tally is_failed after + 0 ≡ tally is_failed xs + one_if (is_failed z)
        → IsTallied after (update_stats z s)
    by_status TransactionStatus.pending q a b c d g = cc
    by_status TransactionStatus.committed q a b c d g = record {
      total = omega (arith, h.total);
      committed = omega (arith, h.committed);
      rolled_back = omega (arith, h.rolled_back);
      timed_out = omega (arith, h.timed_out);
      failed = omega (arith, h.failed);
    }
    by_status TransactionStatus.rolled_back q a b c d g = record {
      total = omega (arith, h.total);
      committed = omega (arith, h.committed);
      rolled_back = omega (arith, h.rolled_back);
      timed_out = omega (arith, h.timed_out);
      failed = omega (arith, h.failed);
    }
    by_status TransactionStatus.timeout q a b c d g = record {
      total = omega (arith, h.total);
      committed = omega (arith, h.committed);
      rolled_back = omega (arith, h.rolled_back);
      timed_out = omega (arith, h.timed_out);
      failed = omega (arith, h.failed);
    }
    by_status TransactionStatus.failed q a b c d g = record {
      total = omega (arith, h.total);
      committed = omega (arith, h.committed);
      rolled_back = omega (arith, h.rolled_back);
      timed_out = omega (arith, h.timed_out);
      failed = omega (arith, h.failed);
    }

-- What replaces a transaction leaves the ids.
pub put_id-below :
    (id : ℕ) (x y : Transaction) (l : Ledger)
    → find_id id l.transactions ≡ some x
    → IsLedger l
    → (j : ℕ) (z : Transaction) → find_id j (put_id id y l.transactions) ≡ some z
    → j < l.next_transaction_id
put_id-below id x y l f h j z g =
    let p = find_id-put_id id j y l.transactions in
    let b = h.below id x f in
    elim (Bool-cases (id == j)) [ inl q ↦ ground arith | inr q ↦ h.below j z (ground arith) ]

pub finish-IsLedger :
    (now : ℕ) (status : TransactionStatus) (id : ℕ) (x : Transaction) (b : Broker) (l : Ledger)
    → find_id id l.transactions ≡ some x
    → is_pending x.status ≡ true
    → is_ended status ≡ true
    → IsLedger l
    → IsLedger (finish now status id x (record l { broker = b }))
finish-IsLedger now status id x b l f p e h = record {
  keyed =
      put_id-IsKeyed id (record x { status = status; end_time = now }) l.transactions
        (id_of_found id x l.transactions h.keyed f) h.keyed;
  below = put_id-below id x (record x { status = status; end_time = now }) l f h;
  tallied =
      ended-IsTallied id x (record x { status = status; end_time = now }) l.transactions l.stats f
        (status_pending x.status p) e h.tallied;
}
