-- ===== src/Framing/Tests.antt =====
-- MessageProtocol at concrete inputs.
use mathlib.Core.List.{flatten}
use helianthus.Prelude.{ℕ, ◌≡◌, refl, some, List, [], ◌∷◌, arith, le_bytes, le_value}
use helianthus.Framing.{
  MessageProtocol, State, init, set_message_handler, encode_message, reset, process_received_data,
  process_buffer, process_loop, round, append, fuel_for,
}
use helianthus.Framing.Settled.{process_received_data_total}
use helianthus.Framing.Chunks.{feed, feed-flatten}
use helianthus.Framing.RoundTrip.{feed-encode_message}

hi_encoded : encode_message (104 ∷ 105 ∷ []) ≡ 2 ∷ 0 ∷ 0 ∷ 0 ∷ 104 ∷ 105 ∷ []
unfolding encode_message le_bytes
hi_encoded = refl

abbrev chunks : List (List ℕ)
chunks = (2 ∷ 0 ∷ []) ∷ (0 ∷ 0 ∷ 104 ∷ []) ∷ (105 ∷ 0 ∷ 0 ∷ 0 ∷ 0 ∷ []) ∷ []

-- With no handler the message is read and dropped.
no_handler :
    process_received_data init (1 ∷ 0 ∷ 0 ∷ 0 ∷ 7 ∷ 9 ∷ [])
    ≡ some (record init { receive_buffer = 9 ∷ [] }, [])
unfolding process_received_data process_buffer process_loop fuel_for append round init le_value
no_handler = refl

reset_midway :
    reset (record init { receive_buffer = 1 ∷ []; current_state = State.waiting_for_message })
    ≡ init
unfolding reset init
reset_midway = refl

process_received_data_total_example :
    (q : MessageProtocol) × (out : List (List ℕ)) × (process_received_data init (9 ∷ 0 ∷ [])
      ≡ some (q, out))
process_received_data_total_example = process_received_data_total init (9 ∷ 0 ∷ [])

feed-flatten_example : feed init chunks ≡ process_received_data init (flatten chunks)
feed-flatten_example = feed-flatten init chunks

feed-encode_message_example :
    feed (set_message_handler init) chunks
    ≡ some (set_message_handler init, (104 ∷ 105 ∷ []) ∷ [] ∷ [])
unfolding encode_message flatten le_bytes
feed-encode_message_example =
    feed-encode_message ((104 ∷ 105 ∷ []) ∷ [] ∷ []) chunks (omega arith) refl
