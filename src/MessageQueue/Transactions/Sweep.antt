-- ===== src/MessageQueue/Transactions/Sweep.antt =====
-- Shared/MessageQueue/MessageQueue.cpp, ProcessTransactionTimeouts: the transactions that it collects.
use helianthus.Prelude.{
  ℕ, ◌≡◌, refl, Bool, true, false, none, some, List, [], ◌∷◌, arith, count, find_id, put_id,
  find_id-put_id, ◌==◌, ◌&&◌, if◌then◌else◌,
}
use helianthus.MessageQueue.Transactions.{Transaction, is_pending, is_late, overdue}
use helianthus.MessageQueue.Transactions.Tally.{Transactions, IsKeyed}

-- The ids are those of different pending transactions.
abbrev pub ArePending : List ℕ → Transactions → Type 0
ArePending [] xs = Unit
ArePending (id ∷ ids) xs =
    ((x : Transaction) × (find_id id xs ≡ some x) × (is_pending x.status ≡ true))
    × (count id ids ≡ 0)
    × ArePending ids xs

pub put_id-ArePending :
    (id : ℕ) (y : Transaction) (ids : List ℕ) (xs : Transactions)
    → count id ids ≡ 0
    → ArePending ids xs
    → ArePending ids (put_id id y xs)
put_id-ArePending id y [] xs n h = tt
put_id-ArePending id y (j ∷ ids) xs n ((x, f, p), m, h) =
    let g = find_id-put_id id j y xs in
    ((x, ground arith, p), m, put_id-ArePending id y ids xs (ground arith) h)

cons-ArePending :
    (k : ℕ) (y : Transaction) (ids : List ℕ) (xs : Transactions)
    → find_id k xs ≡ none
    → ArePending ids xs
    → (count k ids ≡ 0) × ArePending ids ((k, y) ∷ xs)
unfolding find_id
cons-ArePending k y [] xs n h = (refl, tt)
cons-ArePending k y (j ∷ ids) xs n ((x, f, p), m, h) =
    let (c, r) = cons-ArePending k y ids xs n h in
    let e : (k == j) ≡ false = other (k == j) refl in (ground arith, ((x, ground arith, p), m, r))
  where
    other : (b : Bool) → (k == j) ≡ b → (k == j) ≡ false
    other true q = ground arith
    other false q = q

pub overdue-ArePending : (now : ℕ) (xs : Transactions) → IsKeyed xs → ArePending (overdue now xs) xs
unfolding find_id
overdue-ArePending now [] k = tt
overdue-ArePending now ((id, x) ∷ xs) (e, n, k) =
    let (c, r) = cons-ArePending id x (overdue now xs) xs n (overdue-ArePending now xs k) in
    by_test (is_pending x.status) (is_late now x) refl c r
  where
    by_test :
        (p l : Bool)
        → is_pending x.status ≡ p
        → count id (overdue now xs) ≡ 0
        → ArePending (overdue now xs) ((id, x) ∷ xs)
        → (let ids : List ℕ = (if p && l then x.id ∷ overdue now xs else overdue now xs) in
            ArePending ids ((id, x) ∷ xs))
    by_test true true q c r = ((x, ground arith, q), ground arith, r)
    by_test true false q c r = r
    by_test false l q c r = r
