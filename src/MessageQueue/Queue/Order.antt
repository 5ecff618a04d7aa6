-- ===== src/MessageQueue/Queue/Order.antt =====
-- Shared/MessageQueue/MessageQueue.cpp, AddMessage and GetNextMessage: the order in which a queue
-- hands out its messages.
use mathlib.Core.Path.{subst}
use mathlib.Core.Bool.{true≢false}
use mathlib.Core.List.{append-nil, append_assoc}
use helianthus.Prelude.{
  ℕ, suc, ◌+◌, ◌-◌, ◌≤◌, ◌<◌, max, ◌≡◌, refl, sym, ap, ◌∙◌, inl, inr, Bool, true, false, ◌||◌,
  Option, none, some, List, [], ◌∷◌, ◌++◌, arith, one_if, length, length-append, ◌==◌,
  if◌then◌else◌, ==_iff, Bool-cases, Option-cases,
}
use helianthus.MessageQueue.Message.{Message, rank}
use helianthus.MessageQueue.Queue.{
  count_added, QueueData, add_message, max_rank, take_ranked, count_taken, take_next,
  get_next_message,
}

abbrev pub add_all : List Message → QueueData → QueueData
add_all [] q = q
add_all (m ∷ ms) q = add_all ms (add_message m q)

-- One call of GetNextMessage for each pick, and the messages that they return.
pub drain : List ℕ → QueueData → List Message × QueueData
drain [] q = ([], q)
drain (pick ∷ picks) q = elim (get_next_message pick q) [
  | none ↦ ([], q)
  | some (m, q') ↦ let (ms, q'') = drain picks q' in (m ∷ ms, q'')
]

add_all-fifo :
    (ms : List Message) (q : QueueData)
    → q.config.enable_priority ≡ false
    → ((add_all ms q).messages ≡ q.messages ++ ms) × ((add_all ms q).config.enable_priority ≡ false)
unfolding add_message
add_all-fifo [] q h = (sym (append-nil q.messages), h)
add_all-fifo (m ∷ ms) q h =
    let rest =
      add_all-fifo ms
        (record q { messages = q.messages ++ (m ∷ []); stats = count_added m q.stats }) h in
    simp h (rest.0 ∙ append_assoc q.messages (m ∷ []) ms, rest.1)

get_next_message-front :
    (pick : ℕ) (m : Message) (ms : List Message) (q : QueueData)
    → q.config.enable_priority ≡ false
    → q.messages ≡ m ∷ ms
    → get_next_message pick q ≡ some (m, record q { messages = ms; stats = count_taken q.stats })
unfolding get_next_message take_next
get_next_message-front pick m ms q h e = ground arith

drain-fifo :
    (picks : List ℕ) (ms : List Message) (q : QueueData)
    → q.config.enable_priority ≡ false
    → q.messages ≡ ms
    → length picks ≡ length ms
    → (drain picks q).0 ≡ ms
unfolding drain
drain-fifo [] [] q h e l = refl
drain-fifo [] (m ∷ ms) q h e l = absurd (omega arith)
drain-fifo (pick ∷ picks) [] q h e l = absurd (omega arith)
drain-fifo (pick ∷ picks) (m ∷ ms) q h e l =
    rw (get_next_message-front pick m ms q h e, drain)
      (ap (λ t. m ∷ t)
        (drain-fifo picks ms (record q { messages = ms; stats = count_taken q.stats }) h refl
          (omega arith)))

-- A queue without priorities hands its messages out in the order they were added, those that were
-- there first.
pub drain-add_all :
    (ms : List Message) (picks : List ℕ) (q : QueueData)
    → q.config.enable_priority ≡ false
    → length picks ≡ length q.messages + length ms
    → (drain picks (add_all ms q)).0 ≡ q.messages ++ ms
drain-add_all ms picks q h l =
    let (e, p) = add_all-fifo ms q h in
    let n = length-append q.messages ms in
    drain-fifo picks (q.messages ++ ms) (add_all ms q) p e (omega arith)

-- No later message has a higher rank.
abbrev pub IsDescending : List Message → Type 0
IsDescending [] = Unit {0}
IsDescending (m ∷ ms) = (max_rank ms ≤ rank m.priority) × IsDescending ms

abbrev pub count_if : (Message → Bool) → List Message → ℕ
count_if p [] = 0
count_if p (m ∷ ms) = one_if (p m) + count_if p ms

unfoldable pub has_rank : ℕ → List Message → Bool
has_rank r [] = false
has_rank r (m ∷ ms) = rank m.priority == r || has_rank r ms

has_rank-max_rank : (m : Message) (ms : List Message) → has_rank (max_rank (m ∷ ms)) (m ∷ ms) ≡ true
unfolding has_rank max_rank
has_rank-max_rank m [] = ground arith
has_rank-max_rank m (m' ∷ ms) = ground (arith, has_rank-max_rank m' ms)

-- What `take_ranked` answers about the list it was given.
unfoldable pub Ranked :
    (Message → Bool) → ℕ → List Message → Option (Message × List Message) → Type 0
Ranked p r ms none = has_rank r ms ≡ false
Ranked p r ms (some (m, rest)) =
    (rank m.priority ≡ r)
    × (max_rank ms ≡ max r (max_rank rest))
    × (count_if p ms ≡ one_if (p m) + count_if p rest)

or_self : Message → List Message → Option (Message × List Message) → Option (Message × List Message)
or_self m ms none = some (m, ms)
or_self m ms (some (x, rest)) = some (x, m ∷ rest)

behind : Message → Option (Message × List Message) → Option (Message × List Message)
behind m none = none
behind m (some (x, rest)) = some (x, m ∷ rest)

Ranked-or_self :
    (p : Message → Bool) (r : ℕ) (m : Message) (ms : List Message)
    (o : Option (Message × List Message))
    → Ranked p r ms o
    → rank m.priority ≡ r
    → Ranked p r (m ∷ ms) (or_self m ms o)
unfolding Ranked or_self max_rank
Ranked-or_self p r m ms none h e = (e, omega arith, refl)
Ranked-or_self p r m ms (some (x, rest)) h e = let (a, b, c) = h in (a, omega arith, omega arith)

Ranked-behind :
    (p : Message → Bool) (r : ℕ) (m : Message) (ms : List Message)
    (o : Option (Message × List Message))
    → Ranked p r ms o
    → (rank m.priority == r) ≡ false
    → Ranked p r (m ∷ ms) (behind m o)
unfolding Ranked behind max_rank has_rank
Ranked-behind p r m ms none h n = ground arith
Ranked-behind p r m ms (some (x, rest)) h n = let (a, b, c) = h in (a, omega arith, omega arith)

take_ranked-cons :
    (r pick : ℕ) (m : Message) (ms : List Message)
    → take_ranked r pick (m ∷ ms) ≡ (
        if rank m.priority == r
        then (if pick == 0 then some (m, ms) else or_self m ms (take_ranked r (pick - 1) ms))
        else behind m (take_ranked r pick ms))
unfolding take_ranked or_self behind
take_ranked-cons r pick m ms = refl

pub take_ranked-Ranked :
    (p : Message → Bool) (r pick : ℕ) (ms : List Message) → Ranked p r ms (take_ranked r pick ms)
unfolding Ranked take_ranked has_rank max_rank
take_ranked-Ranked p r pick [] = refl
take_ranked-Ranked p r pick (m ∷ ms) =
    rw (take_ranked-cons r pick m ms) (elim (Bool-cases (rank m.priority == r)) [
      | inl e ↦ rw e (elim (Bool-cases (pick == 0)) [
        | inl z ↦ rw z (let k = (==_iff (rank m.priority) r).0 e in (k, omega arith, refl))
        | inr z ↦ rw z (
            Ranked-or_self p r m ms (take_ranked r (pick - 1) ms)
              (take_ranked-Ranked p r (pick - 1) ms) ((==_iff (rank m.priority) r).0 e))
      ])
      | inr e ↦
          rw e (Ranked-behind p r m ms (take_ranked r pick ms) (take_ranked-Ranked p r pick ms) e)
    ])

pub count_if-length : (ms : List Message) → count_if (λ m. true) ms ≡ length ms
count_if-length [] = refl
count_if-length (m ∷ ms) = let rest = count_if-length ms in omega arith

pop_priority-cases :
    (p : Message → Bool) (r pick : ℕ) (ms : List Message)
    → has_rank r ms ≡ true
    → (m : Message) × (rest : List Message) × (take_ranked r pick ms ≡ some (m, rest))
      × (rank m.priority ≡ r)
      × (max_rank ms ≡ max r (max_rank rest))
      × (count_if p ms ≡ one_if (p m) + count_if p rest)
      × (length ms ≡ suc (length rest))
unfolding Ranked
pop_priority-cases p r pick ms h = elim (Option-cases (take_ranked r pick ms)) [
  | inl e ↦
      let none_left = subst (Ranked p r ms) e (take_ranked-Ranked p r pick ms) in
      absurd (true≢false (sym h ∙ none_left))
  | inr found ↦
      let ((m, rest), e) = found in
      let (a, b, c) = subst (Ranked p r ms) e (take_ranked-Ranked p r pick ms) in
      let (a', b', n) =
        subst (Ranked (λ m. true) r ms) e (take_ranked-Ranked (λ m. true) r pick ms) in
      let l = count_if-length ms in
      let l' = count_if-length rest in (m, rest, e, a, b, c, omega arith)
]

has_rank-nonempty : (ms : List Message) → 0 < length ms → has_rank (max_rank ms) ms ≡ true
has_rank-nonempty [] h = absurd (omega arith)
has_rank-nonempty (m ∷ ms) h = has_rank-max_rank m ms

get_next_message-top :
    (p : Message → Bool) (pick : ℕ) (q : QueueData)
    → q.config.enable_priority ≡ true
    → 0 < length q.priority_messages
    → (m : Message) × (rest : List Message) × (get_next_message pick q
        ≡ some (m, record q { priority_messages = rest; stats = count_taken q.stats }))
      × (rank m.priority ≡ max_rank q.priority_messages)
      × (max_rank rest ≤ rank m.priority)
      × (count_if p q.priority_messages ≡ one_if (p m) + count_if p rest)
      × (length q.priority_messages ≡ suc (length rest))
unfolding get_next_message take_next
get_next_message-top p pick q h l =
    let (m, rest, e, r, b, c, n) =
      pop_priority-cases p (max_rank q.priority_messages) pick q.priority_messages
        (has_rank-nonempty q.priority_messages l) in
    (m, rest, ground arith, r, omega arith, c, n)

drained :
    (p : Message → Bool) (ms : List Message)
    → length ms ≡ 0
    → IsDescending [] × (max_rank [] ≡ max_rank ms) × (count_if p [] ≡ count_if p ms)
drained p [] h = (tt, refl, refl)
drained p (m ∷ ms) h = absurd (omega arith)

max_rank-drain :
    (p : Message → Bool) (picks : List ℕ) (q : QueueData)
    → q.config.enable_priority ≡ true
    → length picks ≡ length q.priority_messages
    → IsDescending (drain picks q).0
      × (max_rank (drain picks q).0 ≡ max_rank q.priority_messages)
      × (count_if p (drain picks q).0 ≡ count_if p q.priority_messages)
unfolding drain max_rank
max_rank-drain p [] q h l = drained p q.priority_messages (omega arith)
max_rank-drain p (pick ∷ picks) q h l =
    let (m, rest, e, r, b, c, n) = get_next_message-top p pick q h (omega arith) in
    let (d, x, k) =
      max_rank-drain p picks (record q { priority_messages = rest; stats = count_taken q.stats }) h
        (omega arith) in
    rw (e, drain) ((omega arith, d), omega arith, omega arith)

-- With priorities enabled, the messages are handed out by descending rank, and they are exactly those
-- that were in the queue, as often as they were there.
pub drain-IsDescending :
    (p : Message → Bool) (picks : List ℕ) (q : QueueData)
    → q.config.enable_priority ≡ true
    → length picks ≡ length q.priority_messages
    → IsDescending (drain picks q).0
      × (count_if p (drain picks q).0 ≡ count_if p q.priority_messages)
drain-IsDescending p picks q h l = let (d, x, k) = max_rank-drain p picks q h l in (d, k)
