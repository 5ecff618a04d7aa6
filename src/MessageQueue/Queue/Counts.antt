-- ===== src/MessageQueue/Queue/Counts.antt =====
-- Shared/MessageQueue/MessageQueue.cpp, GetNextMessage: one message fewer, and nothing else changed.
use mathlib.Core.Path.{subst}
use helianthus.Prelude.{ℕ, suc, ◌≡◌, inl, inr, true, some, List, arith, length, Option-cases}
use helianthus.MessageQueue.Message.{Message}
use helianthus.MessageQueue.Queue.{
  QueueData, message_count, max_rank, take_ranked, count_taken, take_next, get_next_message,
}
use helianthus.MessageQueue.Queue.Order.{Ranked, take_ranked-Ranked, count_if-length}

take_ranked-length :
    (r pick : ℕ) (ms : List Message) {m : Message} {rest : List Message}
    → take_ranked r pick ms ≡ some (m, rest)
    → length ms ≡ suc (length rest)
unfolding Ranked
take_ranked-length r pick ms {rest = rest} e =
    let (a, b, n) = subst (Ranked (λ m. true) r ms) e (take_ranked-Ranked (λ m. true) r pick ms) in
    let l = count_if-length ms in let l' = count_if-length rest in omega arith

pub take_next-count :
    (pick : ℕ) (q q' : QueueData) (m : Message)
    → take_next pick q ≡ some (m, q')
    → (message_count q ≡ suc (message_count q')) × (q'.stats ≡ q.stats)
unfolding take_next
take_next-count pick q q' m e =
    elim (Option-cases (take_ranked (max_rank q.priority_messages) pick q.priority_messages)) [
      | inl n ↦ ground arith
      | inr found ↦
          let ((x, rest), k) = found in
          let l = take_ranked-length (max_rank q.priority_messages) pick q.priority_messages k in
          ground arith
    ]

pub get_next_message-count :
    (pick : ℕ) (q q' : QueueData) (m : Message)
    → get_next_message pick q ≡ some (m, q')
    → (message_count q ≡ suc (message_count q')) × (q'.stats ≡ count_taken q.stats)
unfolding get_next_message
get_next_message-count pick q q' m e = elim (Option-cases (take_next pick q)) [
  | inl n ↦ ground arith
  | inr found ↦
      let ((x, q1), k) = found in let (c, s) = take_next-count pick q q1 x k in ground arith
]

take_next-consumers :
    (pick : ℕ) (q q' : QueueData) (m : Message)
    → take_next pick q ≡ some (m, q')
    → q'.consumers ≡ q.consumers
unfolding take_next
take_next-consumers pick q q' m e = ground arith

pub get_next_message-consumers :
    (pick : ℕ) (q q' : QueueData) (m : Message)
    → get_next_message pick q ≡ some (m, q')
    → q'.consumers ≡ q.consumers
unfolding get_next_message
get_next_message-consumers pick q q' m e = elim (Option-cases (take_next pick q)) [
  | inl n ↦ ground arith
  | inr found ↦
      let ((x, q1), k) = found in let c = take_next-consumers pick q q1 x k in ground arith
]
