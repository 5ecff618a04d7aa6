-- ===== src/Framing/Settled.antt =====
-- MessageProtocol::ProcessBuffer ends, and its rounds as a relation.
use mathlib.Core.List.{append-nil, append_assoc}
use helianthus.Prelude.{
  ℕ, zero, suc, ◌+◌, ◌*◌, ◌<◌, ◌≡◌, refl, sym, ap, ◌∙◌, inl, inr, Option, none, some, List, [], ◌∷◌,
  ◌++◌, arith, length, length-drop, Option-cases,
}
use helianthus.Framing.{
  MessageProtocol, State, round, round_in, process_loop, process_buffer, process_received_data,
  append, fuel_for,
}

-- What is left to do: a length takes four bytes, a message at least its own state.
abbrev pending_state : State → ℕ
pending_state State.waiting_for_length = 0
pending_state State.waiting_for_message = 1

abbrev work : MessageProtocol → ℕ
work p = 2 * length p.receive_buffer + pending_state p.current_state

round_in-work :
    (s : State) (p q : MessageProtocol) (d : List (List ℕ))
    → p.current_state ≡ s
    → round_in s p ≡ some (q, d)
    → work q < work p
unfolding round_in
round_in-work State.waiting_for_length p q d e h =
    ground (arith, ap pending_state e, length-drop 4 p.receive_buffer)
round_in-work State.waiting_for_message p q d e h =
    ground (arith, ap pending_state e, length-drop p.expected_message_length p.receive_buffer)

-- Every round makes progress.
pub round-work :
    (p q : MessageProtocol) (d : List (List ℕ)) → round p ≡ some (q, d) → work q < work p
unfolding round
round-work p q d h = round_in-work p.current_state p q d refl h

-- The rounds from `p` to the break at `q`, with the messages delivered on the way.
pub data Runs : MessageProtocol → List (List ℕ) → MessageProtocol → Type 0 where
  done : {p : MessageProtocol} → round p ≡ none → Runs p [] p
  more :
      {p p' q : MessageProtocol} {d out all : List (List ℕ)}
      → round p ≡ some (p', d)
      → Runs p' out q
      → all ≡ d ++ out
      → Runs p all q

abbrev pub Outcome :
    MessageProtocol → List (List ℕ) → Option (MessageProtocol × List (List ℕ)) → Type 0
Outcome p acc r =
    (out : List (List ℕ)) × (q : MessageProtocol) × (r ≡ some (q, acc ++ out)) × Runs p out q

loop-Runs :
    (fuel : ℕ) (p : MessageProtocol) (acc : List (List ℕ))
    → work p < fuel
    → Outcome p acc (process_loop fuel p acc)
unfolding process_loop
loop-Runs zero p acc h = absurd (omega arith)
loop-Runs (suc fuel) p acc h = elim (Option-cases (round p)) [
  | inl e ↦ ([], p, rw (e, process_loop) (ap (λ xs. some (p, xs)) (sym (append-nil acc))), done e)
  | inr ((p', d), e) ↦
      let less : work p' < work p = round-work p p' d e in
      let (out, q, eq, run) = loop-Runs fuel p' (acc ++ d) (omega arith) in
      (
        d ++ out,
        q,
        rw (e, process_loop) (eq ∙ ap (λ xs. some (q, xs)) (append_assoc acc d out)),
        more e run refl,
      )
]

state_small : (s : State) → pending_state s < 2
state_small State.waiting_for_length = omega arith
state_small State.waiting_for_message = omega arith

pub buffer-Runs : (p : MessageProtocol) → Outcome p [] (process_buffer p)
unfolding process_buffer fuel_for
buffer-Runs p = loop-Runs (fuel_for p) p [] (omega (arith, state_small p.current_state))

-- The loop ends on every state and input: the fuel never runs out.
pub process_received_data_total :
    (p : MessageProtocol) (bytes : List ℕ)
    → (q : MessageProtocol) × (out : List (List ℕ)) × (process_received_data p bytes
        ≡ some (q, out))
unfolding process_received_data
process_received_data_total p [] = (p, [], refl)
process_received_data_total p (b ∷ bytes) =
    let (out, q, e, run) = buffer-Runs (append p (b ∷ bytes)) in (q, out, e)
