-- ===== src/Framing/Chunks.antt =====
-- How a stream is cut into calls of MessageProtocol::ProcessReceivedData does not matter.
use mathlib.Core.Path.{ap₂, subst}
use mathlib.Core.List.{append-nil, append_assoc, flatten}
use mathlib.Core.Option
use helianthus.Prelude.{
  ℕ, ◌≡◌, refl, sym, ap, ◌∙◌, Option, none, some, List, [], ◌∷◌, ◌++◌, arith, length-append,
  take-append_le, drop-append_le,
}
use helianthus.Framing.{
  MessageProtocol, State, round, round_in, process_buffer, process_received_data, append,
}
use helianthus.Framing.Settled.{Runs, buffer-Runs, process_received_data_total}

round_in-append :
    (s : State) (p q : MessageProtocol) (d : List (List ℕ)) (bytes : List ℕ)
    → round_in s p ≡ some (q, d)
    → round_in s (append p bytes) ≡ some (append q bytes, d)
unfolding round_in append
round_in-append State.waiting_for_length p q d bytes h = ground (
  arith,
  length-append p.receive_buffer bytes,
  take-append_le 4 p.receive_buffer bytes,
  drop-append_le 4 p.receive_buffer bytes,
)
round_in-append State.waiting_for_message p q d bytes h = ground (
  arith,
  length-append p.receive_buffer bytes,
  take-append_le p.expected_message_length p.receive_buffer bytes,
  drop-append_le p.expected_message_length p.receive_buffer bytes,
)

-- A round that is possible stays possible, and does the same, when more bytes arrive.
round-append :
    (p q : MessageProtocol) (d : List (List ℕ)) (bytes : List ℕ)
    → round p ≡ some (q, d)
    → round (append p bytes) ≡ some (append q bytes, d)
unfolding round append
round-append p q d bytes h = unfold append in round_in-append p.current_state p q d bytes h

-- Runs that end in a break agree.
pub Runs-unique :
    {p p' q r : MessageProtocol} {out out' : List (List ℕ)}
    → p ≡ p'
    → Runs p out q
    → Runs p' out' r
    → (out ≡ out') × (q ≡ r)
Runs-unique same (Runs.done e) (Runs.done e') = (refl, same)
Runs-unique same (Runs.done e) (Runs.more e' run e'') = absurd (cc (ap round same))
Runs-unique same (Runs.more e run e'') (Runs.done e') = absurd (cc (ap round same))
Runs-unique {out} {out'} same (Runs.more {d = d} {out = o} e run x)
      (Runs.more {d = d'} {out = o'} e' run' x') =
    let (eo, eq) = Runs-unique (cc (ap round same)) run run' in
    let ed : d ≡ d' = cc (ap round same) in (x ∙ ap₂ ◌++◌ ed eo ∙ sym x', eq)

Runs-append :
    {p q r : MessageProtocol} {out out' : List (List ℕ)} (bytes : List ℕ)
    → Runs p out q
    → Runs (append q bytes) out' r
    → Runs (append p bytes) (out ++ out') r
Runs-append bytes (Runs.done e) next = next
Runs-append {out' = out'} bytes (Runs.more {p = p} {p' = p'} {d = d} {out = out} e run x) next =
    Runs.more (round-append p p' d bytes e) (Runs-append bytes run next)
      (ap (λ xs. xs ++ out') x ∙ append_assoc d out out')

-- One call on the whole is the two calls on the parts, in delivered messages and final state.
pub buffer_append :
    (p q r : MessageProtocol) (out out' : List (List ℕ)) (bytes : List ℕ)
    → process_buffer p ≡ some (q, out)
    → process_buffer (append q bytes) ≡ some (r, out')
    → process_buffer (append p bytes) ≡ some (r, out ++ out')
buffer_append p q r out out' bytes e e' =
    let (o, s, x, run) = buffer-Runs p in
    let (o', s', x', run') = buffer-Runs (append q bytes) in
    let (o'', s'', x'', run'') = buffer-Runs (append p bytes) in
    let whole : Runs (append p bytes) (o ++ o') s' =
      Runs-append bytes run (subst (λ t. Runs (append t bytes) o' s') (cc) run') in
    let (eo, es) = Runs-unique refl run'' whole in let eo' : o ≡ out = cc in x'' ∙ cc

append-append : (p : MessageProtocol) (a b : List ℕ) → append (append p a) b ≡ append p (a ++ b)
unfolding append
append-append p a b =
    ap (λ bs. record p { receive_buffer = bs }) (append_assoc p.receive_buffer a b)

received_append :
    (p q r : MessageProtocol) (a b : List ℕ) (out out' : List (List ℕ))
    → process_received_data p a ≡ some (q, out)
    → process_received_data q b ≡ some (r, out')
    → process_received_data p (a ++ b) ≡ some (r, out ++ out')
unfolding process_received_data
received_append p q r [] b out out' e e' =
    subst (λ t. process_received_data t b ≡ some (r, out ++ out')) (cc)
      (e' ∙ ap (λ xs. some (r, xs)) (cc))
received_append p q r (x ∷ a) [] out out' e e' = rw append-nil (e ∙ cc (append-nil out))
received_append p q r (x ∷ a) (y ∷ b) out out' e e' =
    ap process_buffer (sym (append-append p (x ∷ a) (y ∷ b)))
    ∙ buffer_append (append p (x ∷ a)) q r out out' (y ∷ b) e e'

-- A client that calls ProcessReceivedData once for each chunk.
pub feed : MessageProtocol → List (List ℕ) → Option (MessageProtocol × List (List ℕ))
feed p [] = some (p, [])
feed p (c ∷ cs) = elim (process_received_data p c) [
  | none ↦ none
  | some (q, out) ↦ Option.map (λ r. (r.0, out ++ r.1)) (feed q cs)
]

-- However a stream of bytes is cut into chunks, the messages delivered and the state reached are
-- those of one call on the whole stream.
pub feed-flatten :
    (p : MessageProtocol) (chunks : List (List ℕ))
    → feed p chunks ≡ process_received_data p (flatten chunks)
unfolding feed flatten
feed-flatten p [] = unfold process_received_data in refl
feed-flatten p (c ∷ cs) =
    let (q, out, e) = process_received_data_total p c in
    let (r, out', e') = process_received_data_total q (flatten cs) in
    rw (e, feed)
      (rw (feed-flatten q cs, e') (sym (received_append p q r c (flatten cs) out out' e e')))
