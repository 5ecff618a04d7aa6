-- ===== src/MessageQueue/Broker/Whereabouts.antt =====
-- Shared/MessageQueue/MessageQueue.cpp, ReceiveMessage with a timeout: where a message that it took out
-- of the queue is afterwards.
use helianthus.Prelude.{
  ℕ, suc, ◌≡◌, refl, ap, ◌∙◌, Bool, true, false, not, ◌||◌, Option, some, List, [], ◌∷◌, ◌++◌,
  arith, put_id, Name, find, if◌then◌else◌,
}
use helianthus.MessageQueue.Types.{QueueResult, DeadLetterReason}
use helianthus.MessageQueue.Message.{Message, is_expired}
use helianthus.MessageQueue.Queue.{QueueData, message_count, take_next, get_next_message}
use helianthus.MessageQueue.Queue.Counts.{get_next_message-count, get_next_message-consumers}
use helianthus.MessageQueue.Broker.{Broker, set_queue, find-set_queue, find-set_queue_ne}
use helianthus.MessageQueue.Broker.DeadLetter.{
  dead_letter_queue_name, marked_dead, count_dead, count_reason, push_dead_letter,
  move_to_dead_letter,
}
use helianthus.MessageQueue.Broker.Transfer.{
  Transforms, with_body, count_received, delivered, wants_ack, await_ack, too_early, deliver,
  receive_within,
}
use helianthus.MessageQueue.Broker.Settling.{
  dead_letters_of, differs_dlq, ensured, move_to_dead_letter-ensured, move_to_dead_letter-appends,
}

get_next_message-pending :
    (pick : ℕ) (q q' : QueueData) (m : Message)
    → get_next_message pick q ≡ some (m, q')
    → q'.pending_acks ≡ q.pending_acks
unfolding get_next_message take_next
get_next_message-pending pick q q' m e = ground arith

-- The queue and the dead letters of a name in a broker: the messages that wait, those that await an
-- acknowledgement, and the dead letters.
abbrev pub Holds : Name → Broker → ℕ → List (ℕ × Message) → List Message → Type 0
Holds name b waiting pending dead =
    (q : QueueData) × (find name b.queues ≡ some q)
    × (message_count q ≡ waiting)
    × (q.pending_acks ≡ pending)
    × (dead_letters_of name b ≡ dead)

-- Changing a queue leaves its dead letters.
kept_dead :
    (name : Name) (q : QueueData) (b : Broker)
    → dead_letters_of name (set_queue name q b) ≡ dead_letters_of name b
kept_dead name q b =
    rw
      (find-set_queue_ne name (dead_letter_queue_name name) q b (differs_dlq name), dead_letters_of)
      refl

set_queue-Holds :
    (name : Name) (q : QueueData) (b : Broker)
    → Holds name (set_queue name q b) (message_count q) q.pending_acks (dead_letters_of name b)
set_queue-Holds name q b = (q, find-set_queue name q b, refl, refl, kept_dead name q b)

move_to_dead_letter-Holds :
    (now : ℕ) (name : Name) (m : Message) (reason : DeadLetterReason) (q : QueueData) (b : Broker)
    → b.initialized ≡ true
    → Holds name
        (move_to_dead_letter now name m reason (set_queue name q b))
        (message_count q)
        q.pending_acks
        (dead_letters_of name b ++ (marked_dead now name reason m ∷ []))
move_to_dead_letter-Holds now name m reason q b i =
    let b0 = set_queue name q b in
    let f = find-set_queue name q b in
    let (d, b1, u, k, l, n) = ensured name b0 i in
    let q2 : QueueData = record q { stats = count_reason reason (count_dead q.stats) } in
    let dead = push_dead_letter (marked_dead now name reason m) d in
    (
      q2,
      ap (λ x. find name x.queues) (move_to_dead_letter-ensured now name m reason q d b0 b1 f u k n)
          ∙ find-set_queue name q2 (set_queue (dead_letter_queue_name name) dead b1),
      refl,
      refl,
      move_to_dead_letter-appends now name m reason q b0 i f
          ∙ ap (λ t. t ++ (marked_dead now name reason m ∷ [])) (kept_dead name q b),
    )

-- The answer, and what awaits an acknowledgement and lies dead, by whether the message has expired or
-- comes too early.
abbrev pub answer_of : Bool → Bool → QueueResult
answer_of expired early = if expired || early then QueueResult.timeout else QueueResult.success

abbrev pub pending_with : Bool → Bool → Bool → Message → List (ℕ × Message) → List (ℕ × Message)
pending_with expired early wanted m pending =
    if expired || (early || not wanted) then pending else put_id m.id (delivered m) pending

abbrev pub dead_with : Bool → Message → List Message → List Message
dead_with expired m dead = if expired then dead ++ (m ∷ []) else dead

await_ack-Holds :
    (name : Name) (m : Message) (q : QueueData) (b : Broker)
    → Holds name
        (set_queue name (await_ack m q) b)
        (message_count q)
        (if wants_ack q then put_id m.id m q.pending_acks else q.pending_acks)
        (dead_letters_of name b)
await_ack-Holds name m q b = by_test (wants_ack q)
  where
    by_test :
        (w : Bool)
        → (let q2 : QueueData =
              (if w then record q { pending_acks = put_id m.id m q.pending_acks } else q) in
            Holds name
              (set_queue name q2 b)
              (message_count q)
              (if w then put_id m.id m q.pending_acks else q.pending_acks)
              (dead_letters_of name b))
    by_test true = set_queue-Holds name (record q { pending_acks = put_id m.id m q.pending_acks }) b
    by_test false = set_queue-Holds name q b

deliver-Holds :
    (now : ℕ) (name : Name) (m : Message) (q : QueueData) (b : Broker)
    → b.initialized ≡ true
    → (let r = deliver now name m q b in
        (r.0 ≡ answer_of (is_expired now m) (too_early now m))
        × Holds name r.2
            (message_count q)
            (pending_with (is_expired now m) (too_early now m) (wants_ack q) m q.pending_acks)
            (dead_with
              (is_expired now m)
              (marked_dead now name DeadLetterReason.expired m)
              (dead_letters_of name b)))
deliver-Holds now name m q b i = by_tests (is_expired now m) (too_early now m)
  where
    by_tests :
        (e t : Bool)
        → (let r : QueueResult × Option Message × Broker =
              (if e
                then (
                  QueueResult.timeout,
                  some (marked_dead now name DeadLetterReason.expired m),
                  move_to_dead_letter now name m DeadLetterReason.expired (set_queue name q b),
                )
                else if t
                then (QueueResult.timeout, some m, set_queue name q b)
                else (
                  QueueResult.success,
                  some (delivered m),
                  set_queue name
                      (await_ack (delivered m) (record q { stats = count_received now q.stats }))
                      b,
                )) in
            (r.0 ≡ answer_of e t)
            × Holds name r.2 (message_count q) (pending_with e t (wants_ack q) m q.pending_acks) (
                dead_with e
                  (marked_dead now name DeadLetterReason.expired m)
                  (dead_letters_of name b)))
    by_tests true t = (refl, move_to_dead_letter-Holds now name m DeadLetterReason.expired q b i)
    by_tests false true = (refl, set_queue-Holds name q b)
    by_tests false false = (
      refl,
      by_wish (wants_ack q)
          (await_ack-Holds name (delivered m) (record q { stats = count_received now q.stats }) b),
    )
      where
        by_wish :
            (w : Bool)
            → Holds name
                (set_queue name
                  (await_ack (delivered m) (record q { stats = count_received now q.stats }))
                  b)
                (message_count q)
                (if w then put_id m.id (delivered m) q.pending_acks else q.pending_acks)
                (dead_letters_of name b)
            → Holds name
                (set_queue name
                  (await_ack (delivered m) (record q { stats = count_received now q.stats }))
                  b)
                (message_count q)
                (if not w then q.pending_acks else put_id m.id (delivered m) q.pending_acks)
                (dead_letters_of name b)
        by_wish true h = h
        by_wish false h = h

-- On an initialized broker, ReceiveMessage with a timeout takes the next message of a queue out of
-- it in any case. If the message, as opened, has expired, the answer is TIMEOUT and it lies behind
-- the dead letters; if it was tried before and its next try has not come, the answer is TIMEOUT and
-- it is nowhere: neither in the queue, nor among those that await an acknowledgement, nor dead;
-- else the answer is SUCCESS, and it awaits an acknowledgement if the queue wants one.
pub receive_within-taken :
    (t : Transforms) (now pick : ℕ) (name : Name) (out : Option Message) (m : Message)
    (q q' : QueueData) (b : Broker)
    → b.initialized ≡ true
    → find name b.queues ≡ some q
    → get_next_message pick q ≡ some (m, q')
    → (let r = receive_within t now pick name out b in
        let x = with_body (t.unseal name) m in
        (r.0 ≡ answer_of (is_expired now x) (too_early now x))
        × (message_count q ≡ suc (message_count q'))
        × Holds name r.2
            (message_count q')
            (pending_with (is_expired now x) (too_early now x) (wants_ack q) x q.pending_acks)
            (dead_with
              (is_expired now x)
              (marked_dead now name DeadLetterReason.expired x)
              (dead_letters_of name b)))
unfolding receive_within
receive_within-taken t now pick name out m q q' b i f k =
    let x = with_body (t.unseal name) m in
    let (a, h) = deliver-Holds now name x q' b i in
    let p = get_next_message-pending pick q q' m k in
    let c = get_next_message-consumers pick q q' m k in
    let w : wants_ack q' ≡ wants_ack q =
      ap (λ l. elim l [ [] ↦ true | auto ∷ rest ↦ not auto ]) c in
    let u : receive_within t now pick name out b ≡ deliver now name x q' b =
      rw (f, receive_within, k) refl in
    let (q2, g, n, s, d) = h in
    (
      ap (λ r. r.0) u ∙ a,
      (get_next_message-count pick q q' m k).0,
      (
        q2,
        ap (λ r. find name r.2.queues) u ∙ g,
        n,
        s
            ∙ ap (λ v. pending_with (is_expired now x) (too_early now x) v x q'.pending_acks) w
            ∙ ap (λ l. pending_with (is_expired now x) (too_early now x) (wants_ack q) x l) p,
        ap (λ r. dead_letters_of name r.2) u ∙ d,
      ),
    )
