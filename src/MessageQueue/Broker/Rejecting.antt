-- ===== src/MessageQueue/Broker/Rejecting.antt =====
-- Shared/MessageQueue/MessageQueue.cpp: rejected messages, and dead letters that are queued again.
use mathlib.Core.Bool.{true≢false}
use helianthus.Prelude.{
  ℕ, ◌≡◌, refl, sym, ap, ◌∙◌, inl, inr, Bool, true, false, ◌&&◌, ◌||◌, Option, none, some, List, [],
  ◌∷◌, ◌++◌, arith, find_id, remove_id, Name, find, ◌==◌, if◌then◌else◌, Option-cases,
}
use helianthus.MessageQueue.Types.{QueueResult, DeadLetterReason}
use helianthus.MessageQueue.Message.{Message, can_retry}
use helianthus.MessageQueue.Queue.{QueueData, add_message}
use helianthus.MessageQueue.Broker.{Broker, set_queue, find-set_queue, find-set_queue_ne}
use helianthus.MessageQueue.Broker.DeadLetter.{
  dead_letter_queue_name, marked_dead, count_dead, count_reason, push_dead_letter,
  move_to_dead_letter, pick_dead_letter, revived, uncount_dead, requeue_to, requeue_picked,
  requeue_dead_letter_message,
}
use helianthus.MessageQueue.Broker.Transfer.{settle_rejected, reject_message}
use helianthus.MessageQueue.Broker.Settling.{
  dead_letters_of, dead_letters_of-found, dlq_differs, differs_dlq, ensured, moved,
  move_to_dead_letter-ensured, move_to_dead_letter-appends,
}

-- A rejected message that may not be tried again is answered with SUCCESS and goes behind the dead
-- letters of its queue, with the reason that says whether another try was asked for.
pub reject_message-dead_letter :
    (now : ℕ) (name : Name) (id : ℕ) (requeue : Bool) (m : Message) (q : QueueData) (b : Broker)
    → b.initialized ≡ true
    → find name b.queues ≡ some q
    → find_id id q.pending_acks ≡ some m
    → (requeue && can_retry m) ≡ false
    → ((reject_message now name id requeue b).0 ≡ QueueResult.success)
      × (dead_letters_of name (reject_message now name id requeue b).1
          ≡ dead_letters_of name b
            ++ (marked_dead now name
                  (if requeue
                    then DeadLetterReason.max_retries_exceeded
                    else DeadLetterReason.rejected)
                  m
                ∷ []))
unfolding reject_message
reject_message-dead_letter now name id requeue m q b i f p r =
    let q' : QueueData = record q { pending_acks = remove_id id q.pending_acks } in
    let reason =
      if requeue then DeadLetterReason.max_retries_exceeded else DeadLetterReason.rejected in
    let k =
      move_to_dead_letter-appends now name m reason q' (set_queue name q' b) i
        (find-set_queue name q' b) in
    let kept : dead_letters_of name (set_queue name q' b) ≡ dead_letters_of name b =
      rw
        (
          find-set_queue_ne name (dead_letter_queue_name name) q' b (differs_dlq name),
          dead_letters_of,
        )
        refl in
    let u : reject_message now name id requeue b
        ≡ (QueueResult.success, move_to_dead_letter now name m reason (set_queue name q' b)) =
      rw (f, reject_message, p, r, settle_rejected) refl in
    (
      ap (λ x. x.0) u,
      ap (λ x. dead_letters_of name x.1) u
          ∙ k
          ∙ ap (λ t. t ++ (marked_dead now name reason m ∷ [])) kept,
    )

abbrev pub has_id : ℕ → List Message → Bool
has_id id [] = false
has_id id (m ∷ ms) = m.id == id || has_id id ms

abbrev is_some : Option Message → Bool
is_some none = false
is_some (some m) = true

pick_dead_letter-cases :
    (id : ℕ) (target : Option Message) (ms : List Message)
    → (has_id id (pick_dead_letter id target ms).1 ≡ false)
      × (is_some (pick_dead_letter id target ms).0 ≡ (has_id id ms || is_some target))
unfolding pick_dead_letter
pick_dead_letter-cases id none [] = (refl, refl)
pick_dead_letter-cases id (some x) [] = (refl, refl)
pick_dead_letter-cases id target (m ∷ ms) =
    let a = pick_dead_letter-cases id (some m) ms in
    let b = pick_dead_letter-cases id target ms in ground arith

no_dead_letters :
    (name : Name) (b : Broker)
    → find (dead_letter_queue_name name) b.queues ≡ none
    → dead_letters_of name b ≡ []
no_dead_letters name b e = rw (e, dead_letters_of) refl

requeue_picked-lost :
    (now id : ℕ) (name : Name) (d : QueueData) (b : Broker) (picked : Option Message × List Message)
    → find name b.queues ≡ none
    → is_some picked.0 ≡ true
    → has_id id picked.1 ≡ false
    → (let r = requeue_picked now name d b picked in
        (r.0 ≡ QueueResult.success)
        × (find name r.1.queues ≡ none)
        × (has_id id (dead_letters_of name r.1) ≡ false))
requeue_picked-lost now id name d b (none, rest) n p h = absurd (true≢false (sym p))
requeue_picked-lost now id name d b (some m, rest) n p h =
    let d' : QueueData = record d { dead_letters = rest } in
    let e : requeue_to now name m d' b ≡ set_queue (dead_letter_queue_name name) d' b =
      rw (n, requeue_to) refl in
    (
      refl,
      ap (λ x. find name x.queues) e
          ∙ find-set_queue_ne (dead_letter_queue_name name) name d' b (dlq_differs name)
          ∙ n,
      ap (λ x. has_id id (dead_letters_of name x)) e
          ∙ ap (has_id id) (
              dead_letters_of-found name d' (set_queue (dead_letter_queue_name name) d' b)
                (find-set_queue (dead_letter_queue_name name) d' b))
          ∙ h,
    )

-- RequeueDeadLetterMessage with the id of a dead letter whose queue was deleted answers SUCCESS, but
-- then neither the queue nor the dead letters hold a message with this id.
pub requeue_dead_letter_message-lost :
    (now : ℕ) (name : Name) (id : ℕ) (b : Broker)
    → find name b.queues ≡ none
    → has_id id (dead_letters_of name b) ≡ true
    → (let r = requeue_dead_letter_message now name id b in
        (r.0 ≡ QueueResult.success)
        × (find name r.1.queues ≡ none)
        × (has_id id (dead_letters_of name r.1) ≡ false))
unfolding requeue_dead_letter_message
requeue_dead_letter_message-lost now name id b n h =
    elim (Option-cases (find (dead_letter_queue_name name) b.queues)) [
      | inl e ↦ absurd (true≢false (sym h ∙ ap (has_id id) (no_dead_letters name b e)))
      | inr found ↦
          let (d, e) = found in
          let (o, s) = pick_dead_letter-cases id none d.dead_letters in
          let k = ap (has_id id) (sym (dead_letters_of-found name d b e)) ∙ h in
          rw (e, requeue_dead_letter_message)
            (requeue_picked-lost now id name d b (pick_dead_letter id none d.dead_letters) n
              (s ∙ ground arith) o)
    ]

pick_dead_letter-last :
    (m : Message) (ms : List Message)
    → has_id m.id ms ≡ false
    → pick_dead_letter m.id none (ms ++ (m ∷ [])) ≡ (some m, ms)
unfolding pick_dead_letter
pick_dead_letter-last m [] h = ground arith
pick_dead_letter-last m (x ∷ ms) h = ground (arith, pick_dead_letter-last m ms)

requeue-found :
    (now : ℕ) (name : Name) (m : Message) (rest : List Message) (d q : QueueData) (b : Broker)
    (id : ℕ)
    → find (dead_letter_queue_name name) b.queues ≡ some d
    → find name b.queues ≡ some q
    → pick_dead_letter id none d.dead_letters ≡ (some m, rest)
    → (requeue_dead_letter_message now name id b).1
      ≡ set_queue
          (dead_letter_queue_name name)
          (record d { dead_letters = rest; stats = uncount_dead d.stats })
          (set_queue name (add_message (revived now m) q) b)
unfolding requeue_dead_letter_message
requeue-found now name m rest d q b id f e p =
    rw (f, requeue_dead_letter_message)
      (ap (λ x. (requeue_picked now name d b x).1) p ∙ rw (e, requeue_picked, requeue_to) refl)

-- On an initialized broker, a message that MoveToDeadLetter moved from a queue that exists, where
-- no other dead letter of the queue has its id, is put back into that queue by the
-- RequeueDeadLetterMessage that directly follows, without its retries and its reason, and the other
-- dead letters stay.
pub requeue-move_to_dead_letter :
    (now later : ℕ) (name : Name) (m : Message) (reason : DeadLetterReason) (q : QueueData)
    (b : Broker)
    → b.initialized ≡ true
    → find name b.queues ≡ some q
    → has_id m.id (dead_letters_of name b) ≡ false
    → (let b2 =
          (requeue_dead_letter_message later name m.id
            (move_to_dead_letter now name m reason b)).1 in
        (dead_letters_of name b2 ≡ dead_letters_of name b)
        × (find name b2.queues
            ≡ some (
                add_message
                  (revived later (marked_dead now name reason m))
                  (record q { stats = count_reason reason (count_dead q.stats) }))))
requeue-move_to_dead_letter now later name m reason q b i f h =
    let (d, b1, u, k, l, n) = ensured name b i in
    let m' = marked_dead now name reason m in
    let d' : QueueData = push_dead_letter m' d in
    let q2 : QueueData = record q { stats = count_reason reason (count_dead q.stats) } in
    let b2 : Broker = moved now name m reason q d b b1 in
    let back : QueueData = add_message (revived later m') q2 in
    let kept : QueueData = record d' {
      dead_letters = d.dead_letters;
      stats = uncount_dead d'.stats;
    } in
    let k2 =
      find-set_queue_ne name (dead_letter_queue_name name) q2
        (set_queue (dead_letter_queue_name name) d' b1) (differs_dlq name)
      ∙ find-set_queue (dead_letter_queue_name name) d' b1 in
    let r =
      ap (λ x. (requeue_dead_letter_message later name m.id x).1)
        (move_to_dead_letter-ensured now name m reason q d b b1 f u k n)
      ∙ requeue-found later name m' d.dead_letters d' q2 b2 m.id k2
          (find-set_queue name q2 (set_queue (dead_letter_queue_name name) d' b1))
          (pick_dead_letter-last m' d.dead_letters (ap (has_id m.id) l ∙ h)) in
    let set_back : Broker = set_queue name back b2 in
    (
      ap (dead_letters_of name) r
          ∙ dead_letters_of-found name kept (set_queue (dead_letter_queue_name name) kept set_back)
              (find-set_queue (dead_letter_queue_name name) kept set_back)
          ∙ l,
      ap (λ x. find name x.queues) r
          ∙ find-set_queue_ne (dead_letter_queue_name name) name kept set_back (dlq_differs name)
          ∙ find-set_queue name back b2,
    )
