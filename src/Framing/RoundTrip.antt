-- ===== src/Framing/RoundTrip.antt =====
-- What MessageProtocol::EncodeMessage writes, ProcessReceivedData reads back.
use mathlib.Core.List.{append_assoc, flatten}
use helianthus.Prelude.{
  ℕ, ◌%◌, ◌<◌, ◌≡◌, refl, ap, ◌∙◌, true, none, some, List, [], ◌∷◌, ◌++◌, map, arith, length,
  length-append, take-length_append, drop-length_append, le_bytes, length-le_bytes, take-le_bytes,
  drop-le_bytes, le_value-le_bytes, u32_mod, All,
}
use helianthus.Framing.{
  MessageProtocol, State, init, set_message_handler, encode_message, round, process_received_data,
  append,
}
use helianthus.Framing.Settled.{Runs, buffer-Runs}
use helianthus.Framing.Chunks.{Runs-unique, feed, feed-flatten}

-- The length fits the `uint32_t` that it is narrowed to.
abbrev pub Fits : List ℕ → Type 0
Fits message = length message < u32_mod

-- Between two messages, with a handler set and these bytes unread.
abbrev pub ready : List ℕ → MessageProtocol
ready bytes = record {
  receive_buffer = bytes;
  current_state = State.waiting_for_length;
  expected_message_length = 0;
  message_handler_callback = true;
}

abbrev reading : ℕ → List ℕ → MessageProtocol
reading n bytes = record {
  receive_buffer = bytes;
  current_state = State.waiting_for_message;
  expected_message_length = n;
  message_handler_callback = true;
}

round-length :
    (n : ℕ) (rest : List ℕ)
    → n < u32_mod
    → round (ready (le_bytes 4 n ++ rest)) ≡ some (reading n rest, [])
unfolding round
round-length n rest h = ground (
  arith,
  length-append (le_bytes 4 n) rest,
  length-le_bytes 4 n,
  take-le_bytes 4 n rest,
  drop-le_bytes 4 n rest,
  le_value-le_bytes 4 n h,
)

round-message :
    (m rest : List ℕ) → round (reading (length m) (m ++ rest)) ≡ some (ready rest, m ∷ [])
unfolding round
round-message m rest =
    ground (arith, length-append m rest, take-length_append m rest, drop-length_append m rest)

encode-Runs :
    (m rest : List ℕ) (out : List (List ℕ)) (q : MessageProtocol)
    → Fits m
    → Runs (ready rest) out q
    → Runs (ready (encode_message m ++ rest)) (m ∷ out) q
unfolding encode_message
encode-Runs m rest out q h run =
    let fits : length m % u32_mod ≡ length m = omega arith in
    rw (fits, append_assoc (le_bytes 4 (length m)) m rest)
      (Runs.more (round-length (length m) (m ++ rest) h) (Runs.more (round-message m rest) run refl)
        refl)

abbrev pub stream : List (List ℕ) → List ℕ
stream ms = flatten (map encode_message ms)

nothing : round (ready []) ≡ none
unfolding round
nothing = refl

stream-Runs : (ms : List (List ℕ)) → All Fits ms → Runs (ready (stream ms)) ms (ready [])
unfolding flatten
stream-Runs [] h = Runs.done nothing
stream-Runs (m ∷ ms) h = encode-Runs m (stream ms) ms (ready []) h.0 (stream-Runs ms h.1)

received-Runs :
    (bytes : List ℕ) (out : List (List ℕ)) (q : MessageProtocol)
    → Runs (ready bytes) out q
    → process_received_data (ready []) bytes ≡ some (q, out)
unfolding process_received_data append
received-Runs [] out q run = let (eo, es) = Runs-unique refl (Runs.done nothing) run in cc
received-Runs (b ∷ bytes) out q run =
    let (o, s, e, run') = buffer-Runs (ready (b ∷ bytes)) in
    let (eo, es) = Runs-unique refl run' run in e ∙ cc

-- However the encodings of a list of messages are cut into chunks, the handler is called with these
-- messages in this order, and nothing is left unread.
pub feed-encode_message :
    (ms chunks : List (List ℕ))
    → All Fits ms
    → flatten chunks ≡ flatten (map encode_message ms)
    → feed (set_message_handler init) chunks ≡ some (set_message_handler init, ms)
unfolding set_message_handler init
feed-encode_message ms chunks h e =
    feed-flatten (ready []) chunks
    ∙ ap (process_received_data (ready [])) e
    ∙ received-Runs (stream ms) ms (ready []) (stream-Runs ms h)
