-- ===== src/MessageQueue/Transactions/Tally.antt =====
-- Shared/MessageQueue/MessageQueue.cpp, transactions: how many have a status, in a map whose keys are
-- the ids.
use helianthus.Prelude.{
  ℕ, ◌+◌, ◌≡◌, refl, Bool, none, some, List, [], ◌∷◌, arith, one_if, find_id, put_id,
  find_id-put_id,
}
use helianthus.MessageQueue.Transactions.{TransactionStatus, Transaction}

abbrev pub Transactions : Type 0
Transactions = List (ℕ × Transaction)

abbrev pub tally : (TransactionStatus → Bool) → Transactions → ℕ
tally p [] = 0
tally p ((id, x) ∷ xs) = one_if (p x.status) + tally p xs

-- Each transaction stands under its id, and once.
abbrev pub IsKeyed : Transactions → Type 0
IsKeyed [] = Unit
IsKeyed ((id, x) ∷ xs) = (x.id ≡ id) × (find_id id xs ≡ none) × IsKeyed xs

pub tally-put_id :
    (p : TransactionStatus → Bool) (id : ℕ) (x y : Transaction) (xs : Transactions)
    → find_id id xs ≡ some x
    → tally p (put_id id y xs) + one_if (p x.status) ≡ tally p xs + one_if (p y.status)
unfolding find_id put_id
tally-put_id p id x y [] h = cc
tally-put_id p id x y ((j, z) ∷ xs) h = ground (arith, tally-put_id p id x y xs)

pub tally-put_id_new :
    (p : TransactionStatus → Bool) (id : ℕ) (y : Transaction) (xs : Transactions)
    → find_id id xs ≡ none
    → tally p (put_id id y xs) ≡ tally p xs + one_if (p y.status)
unfolding find_id put_id
tally-put_id_new p id y [] h = omega arith
tally-put_id_new p id y ((j, z) ∷ xs) h = ground (arith, tally-put_id_new p id y xs)

pub put_id-IsKeyed :
    (id : ℕ) (y : Transaction) (xs : Transactions)
    → y.id ≡ id
    → IsKeyed xs
    → IsKeyed (put_id id y xs)
unfolding find_id put_id
put_id-IsKeyed id y [] e k = (e, refl, tt)
put_id-IsKeyed id y ((j, z) ∷ xs) e k =
    let r = put_id-IsKeyed id y xs e k.2 in let f = find_id-put_id id j y xs in ground arith

pub id_of_found :
    (id : ℕ) (x : Transaction) (xs : Transactions) → IsKeyed xs → find_id id xs ≡ some x → x.id ≡ id
unfolding find_id
id_of_found id x [] k h = cc
id_of_found id x ((j, z) ∷ xs) k h = ground (arith, id_of_found id x xs k.2)
