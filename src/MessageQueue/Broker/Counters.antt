-- ===== src/MessageQueue/Broker/Counters.antt =====
-- Shared/MessageQueue/MessageQueue.cpp: PendingMessages, the counter of waiting messages, and the
-- messages that do wait.
use helianthus.Prelude.{
  ℕ, ◌%◌, ◌≡◌, refl, ap, ◌∙◌, inl, inr, Bool, true, false, not, some, [], ◌∷◌, arith, u64_mod,
  length-append, Name, find, find-put, if◌then◌else◌, Bool-cases, Option-cases,
}
use helianthus.MessageQueue.Types.{QueueResult, DeadLetterReason}
use helianthus.MessageQueue.Message.{Message}
use helianthus.MessageQueue.Queue.{
  QueueConfig, QueueStats, QueueData, new_queue, message_count, add_message, get_next_message,
}
use helianthus.MessageQueue.Queue.Counts.{get_next_message-count, get_next_message-count}
use helianthus.MessageQueue.Broker.{
  Broker, set_queue, validate_queue_config, queue_exists, create_queue,
}
use helianthus.MessageQueue.Broker.DeadLetter.{
  count_dead, is_success, dead_letter_queue_name, dead_letter_config, ensure_dead_letter_queue,
  marked_dead, count_dead, count_reason, push_dead_letter, push_to, count_on, if_ensured,
  move_to_dead_letter,
}

abbrev pub IsCounted : QueueData → Type 0
IsCounted q = q.stats.pending_messages ≡ message_count q % u64_mod

-- The counter of every queue is the number of its messages, modulo 2^64.
abbrev pub AllCounted : Broker → Type 0
AllCounted b = (name : Name) (q : QueueData) → find name b.queues ≡ some q → IsCounted q

pub add_message-IsCounted :
    (m : Message) (q : QueueData) → IsCounted q → IsCounted (add_message m q)
unfolding add_message
add_message-IsCounted m q h =
    let l = length-append q.messages (m ∷ []) in
    let l' = length-append q.priority_messages (m ∷ []) in ground arith

pub get_next_message-IsCounted :
    (pick : ℕ) (q q' : QueueData) (m : Message)
    → get_next_message pick q ≡ some (m, q')
    → IsCounted q
    → IsCounted q'
get_next_message-IsCounted pick q q' m e h =
    let (c, s) = get_next_message-count pick q q' m e in
    let p = ap (λ s. s.pending_messages) s in omega arith

pub set_queue-AllCounted :
    (name : Name) (q : QueueData) (b : Broker)
    → AllCounted b
    → IsCounted q
    → AllCounted (set_queue name q b)
set_queue-AllCounted name q b h k j r e = ground (arith, find-put name j q b.queues, h j r)

pub either {ℓ} :
    {R : Type ℓ} (c : Bool) (x y : R × Broker)
    → AllCounted x.1
    → AllCounted y.1
    → AllCounted (if c then x else y).1
either true x y h k = h
either false x y h k = k

pub create_queue-AllCounted :
    (config : QueueConfig) (b : Broker) → AllCounted b → AllCounted (create_queue config b).1
unfolding create_queue
create_queue-AllCounted config b h = either (not b.initialized) _ _ h (
    either (not (validate_queue_config config)) _ _ h (
      either (queue_exists config.name b) _ _ h
        (set_queue-AllCounted config.name (new_queue config) b h refl)))

ensure-AllCounted :
    (name : Name) (b : Broker) → AllCounted b → AllCounted (ensure_dead_letter_queue name b).1
unfolding ensure_dead_letter_queue
ensure-AllCounted name b h =
    either (queue_exists (dead_letter_queue_name name) b) _ _ h
      (create_queue-AllCounted (dead_letter_config name) b h)

pub push_to-AllCounted :
    (name : Name) (m : Message) (b : Broker) → AllCounted b → AllCounted (push_to name m b)
push_to-AllCounted name m b h = elim (Option-cases (find name b.queues)) [
  | inl e ↦ rw (e, push_to) h
  | inr found ↦
      let (q, e) = found in
      rw (e, push_to) (set_queue-AllCounted name (push_dead_letter m q) b h (h name q e))
]

count_reason-pending :
    (reason : DeadLetterReason) (s : QueueStats)
    → (count_reason reason s).pending_messages ≡ s.pending_messages
count_reason-pending reason s = ground arith

count_on-AllCounted :
    (name : Name) (reason : DeadLetterReason) (b : Broker)
    → AllCounted b
    → AllCounted (count_on name reason b)
count_on-AllCounted name reason b h = elim (Option-cases (find name b.queues)) [
  | inl e ↦ rw (e, count_on) h
  | inr found ↦
      let (q, e) = found in
      rw (e, count_on)
        (set_queue-AllCounted name (record q { stats = count_reason reason (count_dead q.stats) }) b
          h (count_reason-pending reason (count_dead q.stats) ∙ h name q e))
]

if_ensured-AllCounted :
    (name : Name) (m : Message) (rb : QueueResult × Broker)
    → AllCounted rb.1
    → AllCounted (if_ensured name m rb)
if_ensured-AllCounted name m (r, b) h = elim (Bool-cases (is_success r)) [
  | inl e ↦ rw e (push_to-AllCounted (dead_letter_queue_name name) m b h)
  | inr e ↦ rw e h
]

pub move_to_dead_letter-AllCounted :
    (now : ℕ) (name : Name) (m : Message) (reason : DeadLetterReason) (b : Broker)
    → AllCounted b
    → AllCounted (move_to_dead_letter now name m reason b)
unfolding move_to_dead_letter
move_to_dead_letter-AllCounted now name m reason b h = elim (Option-cases (find name b.queues)) [
  | inl e ↦ rw (e, move_to_dead_letter) h
  | inr found ↦
      let (q, e) = found in
      rw (e, move_to_dead_letter)
        (count_on-AllCounted name reason
          (if_ensured name (marked_dead now name reason m) (ensure_dead_letter_queue name b))
          (if_ensured-AllCounted name (marked_dead now name reason m)
            (ensure_dead_letter_queue name b) (ensure-AllCounted name b h)))
]
