-- ===== src/MessageQueue/Broker/Settling.antt =====
-- Shared/MessageQueue/MessageQueue.cpp: settling a message that was received, and where a message
-- goes that cannot be delivered.
use helianthus.Prelude.{
  ℕ, ◌≡◌, refl, sym, ap, ◌∙◌, inl, inr, true, false, Option, none, some, List, [], ◌∷◌, ◌++◌, arith,
  find_id, remove_id, find_id-put_id, find_id-remove_id, Name, same_name, find, Option-cases,
}
use helianthus.MessageQueue.Types.{QueueResult, DeadLetterReason}
use helianthus.MessageQueue.Message.{Message}
use helianthus.MessageQueue.Queue.{QueueData, new_queue, incr, is_empty_list, get_next_message}
use helianthus.MessageQueue.Queue.Counts.{get_next_message-consumers}
use helianthus.MessageQueue.Broker.{
  Broker, set_queue, queue_exists, create_queue, find-set_queue, find-set_queue_ne,
}
use helianthus.MessageQueue.Broker.DeadLetter.{
  dead_letter_queue_name, dead_letter_config, ensure_dead_letter_queue, marked_dead, count_dead,
  count_reason, push_dead_letter, push_to, count_on, if_ensured, move_to_dead_letter,
}
use helianthus.MessageQueue.Broker.Transfer.{
  Transforms, with_body, count_received, wants_ack, await_ack, deliver, receive_within,
  acknowledge_message,
}

acknowledge-pending :
    (name : Name) (id : ℕ) (m : Message) (q : QueueData) (b : Broker)
    → find name b.queues ≡ some q
    → find_id id q.pending_acks ≡ some m
    → ((acknowledge_message name id b).0 ≡ QueueResult.success)
      × ((acknowledge_message name id (acknowledge_message name id b).1).0
          ≡ QueueResult.invalid_parameter)
unfolding acknowledge_message
acknowledge-pending name id m q b f p =
    let q' : QueueData = record q {
      pending_acks = remove_id id q.pending_acks;
      stats = record q.stats { processed_messages = incr q.stats.processed_messages };
    } in
    let k = find-set_queue name q' b in
    let r = find_id-remove_id id id q.pending_acks in
    let u : acknowledge_message name id b ≡ (QueueResult.success, set_queue name q' b) =
      rw (f, acknowledge_message, p) refl in
    let v : find_id id q'.pending_acks ≡ none = ground arith in
    rw u (refl, rw (k, acknowledge_message, v) refl)

deliver-success :
    (now : ℕ) (name : Name) (m x : Message) (q : QueueData) (b b' : Broker)
    → deliver now name m q b ≡ (QueueResult.success, some x, b')
    → b' ≡ set_queue name (await_ack x (record q { stats = count_received now q.stats })) b
deliver-success now name m x q b b' e = ground arith

wants_ack-taken :
    (pick : ℕ) (q q' : QueueData) (m : Message)
    → get_next_message pick q ≡ some (m, q')
    → wants_ack q' ≡ wants_ack q
wants_ack-taken pick q q' m e = let c = get_next_message-consumers pick q q' m e in ground arith

-- A message that ReceiveMessage with a timeout delivered from a queue that expects acknowledgements
-- is acknowledged with SUCCESS by the call that directly follows; a second acknowledgement answers
-- INVALID_PARAMETER.
pub acknowledge-receive_within :
    (t : Transforms) (now pick : ℕ) (name : Name) (out : Option Message) (x : Message)
    (q : QueueData) (b b' : Broker)
    → find name b.queues ≡ some q
    → wants_ack q ≡ true
    → receive_within t now pick name out b ≡ (QueueResult.success, some x, b')
    → ((acknowledge_message name x.id b').0 ≡ QueueResult.success)
      × ((acknowledge_message name x.id (acknowledge_message name x.id b').1).0
          ≡ QueueResult.invalid_parameter)
unfolding receive_within
acknowledge-receive_within t now pick name out x q b b' f w e =
    elim (Option-cases (get_next_message pick q)) [
      | inl n ↦ ground arith
      | inr taken ↦
          let ((m, q'), k) = taken in
          let d : deliver now name (with_body (t.unseal name) m) q' b
              ≡ (QueueResult.success, some x, b') =
            sym (rw (f, receive_within, k) refl) ∙ e in
          let u = deliver-success now name (with_body (t.unseal name) m) x q' b b' d in
          let q2 : QueueData = record q' { stats = count_received now q'.stats } in
          let c = wants_ack-taken pick q q' m k in
          let i = find_id-put_id x.id x.id x q'.pending_acks in
          let awaited : find_id x.id (await_ack x q2).pending_acks ≡ some x = ground arith in
          rw u (
            acknowledge-pending name x.id x (await_ack x q2) (set_queue name (await_ack x q2) b)
              (find-set_queue name (await_ack x q2) b) awaited)
    ]

same_name-longer : (s : Name) (c : ℕ) (d : Name) → same_name (s ++ (c ∷ d)) s ≡ false
unfolding same_name
same_name-longer [] c d = refl
same_name-longer (a ∷ s) c d = ground (arith, same_name-longer s c d)

same_name-shorter : (s : Name) (c : ℕ) (d : Name) → same_name s (s ++ (c ∷ d)) ≡ false
unfolding same_name
same_name-shorter [] c d = refl
same_name-shorter (a ∷ s) c d = ground (arith, same_name-shorter s c d)

-- The dead letters of a queue, none if it has no queue for them yet.
abbrev pub dead_letters_of : Name → Broker → List Message
dead_letters_of name b = elim (find (dead_letter_queue_name name) b.queues) [
  | none ↦ []
  | some d ↦ d.dead_letters
]

pub dead_letters_of-found :
    (name : Name) (d : QueueData) (b : Broker)
    → find (dead_letter_queue_name name) b.queues ≡ some d
    → dead_letters_of name b ≡ d.dead_letters
dead_letters_of-found name d b e = rw (e, dead_letters_of) refl

is_empty_list-append : (s : Name) → is_empty_list (dead_letter_queue_name s) ≡ false
is_empty_list-append [] = refl
is_empty_list-append (c ∷ s) = refl

pub dlq_differs : (name : Name) → same_name (dead_letter_queue_name name) name ≡ false
dlq_differs name = same_name-longer name 95 (68 ∷ 76 ∷ 81 ∷ [])

pub differs_dlq : (name : Name) → same_name name (dead_letter_queue_name name) ≡ false
differs_dlq name = same_name-shorter name 95 (68 ∷ 76 ∷ 81 ∷ [])

pub ensured :
    (name : Name) (b : Broker)
    → b.initialized ≡ true
    → (d : QueueData) × (b' : Broker) × (ensure_dead_letter_queue name b
        ≡ (QueueResult.success, b'))
      × (find (dead_letter_queue_name name) b'.queues ≡ some d)
      × (d.dead_letters ≡ dead_letters_of name b)
      × (find name b'.queues ≡ find name b.queues)
unfolding ensure_dead_letter_queue create_queue queue_exists
ensured name b i = elim (Option-cases (find (dead_letter_queue_name name) b.queues)) [
  | inl e ↦ (
    new_queue (dead_letter_config name),
    set_queue (dead_letter_queue_name name) (new_queue (dead_letter_config name)) b,
    let v = is_empty_list-append name in ground arith,
    find-set_queue (dead_letter_queue_name name) (new_queue (dead_letter_config name)) b,
    ground arith,
    find-set_queue_ne (dead_letter_queue_name name) name (new_queue (dead_letter_config name)) b
        (dlq_differs name),
  )
  | inr found ↦ let (d, e) = found in (d, b, ground arith, e, ground arith, refl)
]

pub counted :
    (name : Name) (reason : DeadLetterReason) (q : QueueData) (b : Broker)
    → find name b.queues ≡ some q
    → count_on name reason b
      ≡ set_queue name (record q { stats = count_reason reason (count_dead q.stats) }) b
counted name reason q b e = rw (e, count_on) refl

-- The two queues that MoveToDeadLetter changes.
module _ (now : ℕ) (name : Name) (m : Message) (reason : DeadLetterReason) (q d : QueueData)
    (b b1 : Broker) where
  abbrev pub moved : Broker
  moved =
      set_queue name (record q { stats = count_reason reason (count_dead q.stats) })
        (set_queue (dead_letter_queue_name name)
          (push_dead_letter (marked_dead now name reason m) d) b1)

  pub move_to_dead_letter-ensured :
      find name b.queues ≡ some q
      → ensure_dead_letter_queue name b ≡ (QueueResult.success, b1)
      → find (dead_letter_queue_name name) b1.queues ≡ some d
      → find name b1.queues ≡ find name b.queues
      → move_to_dead_letter now name m reason b ≡ moved
  unfolding move_to_dead_letter
  move_to_dead_letter-ensured f u k n =
      let m' = marked_dead now name reason m in
      let n2 =
        find-set_queue_ne (dead_letter_queue_name name) name (push_dead_letter m' d) b1
          (dlq_differs name) in
      let opened : move_to_dead_letter now name m reason b
          ≡ count_on name reason (if_ensured name m' (ensure_dead_letter_queue name b)) =
        rw (f, move_to_dead_letter) refl in
      let pushed : push_to (dead_letter_queue_name name) m' b1
          ≡ set_queue (dead_letter_queue_name name) (push_dead_letter m' d) b1 =
        rw (k, push_to) refl in
      opened
      ∙ ap (λ r. count_on name reason (if_ensured name m' r)) u
      ∙ ap (count_on name reason) pushed
      ∙ counted name reason q (set_queue (dead_letter_queue_name name) (push_dead_letter m' d) b1)
          (n2 ∙ n ∙ f)

-- On an initialized broker, MoveToDeadLetter puts the message behind the dead letters of the queue,
-- marked with the reason and the queue, whether or not a queue for them existed.
pub move_to_dead_letter-appends :
    (now : ℕ) (name : Name) (m : Message) (reason : DeadLetterReason) (q : QueueData) (b : Broker)
    → b.initialized ≡ true
    → find name b.queues ≡ some q
    → dead_letters_of name (move_to_dead_letter now name m reason b)
      ≡ dead_letters_of name b ++ (marked_dead now name reason m ∷ [])
move_to_dead_letter-appends now name m reason q b i f =
    let (d, b1, u, k, l, n) = ensured name b i in
    let m' = marked_dead now name reason m in
    let q2 : QueueData = record q { stats = count_reason reason (count_dead q.stats) } in
    let k3 =
      find-set_queue_ne name (dead_letter_queue_name name) q2
        (set_queue (dead_letter_queue_name name) (push_dead_letter m' d) b1) (differs_dlq name) in
    ap (dead_letters_of name) (move_to_dead_letter-ensured now name m reason q d b b1 f u k n)
    ∙ dead_letters_of-found name (push_dead_letter m' d) (moved now name m reason q d b b1)
        (k3 ∙ find-set_queue (dead_letter_queue_name name) (push_dead_letter m' d) b1)
    ∙ ap (λ t. t ++ (m' ∷ [])) l
