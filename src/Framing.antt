-- ===== src/Framing.antt =====
-- Shared/Network/Asio/MessageProtocol.cpp: messages behind a four-byte little-endian length.
-- A byte is a number below 256. The handler is an observer: what it is called with is returned.
mod Settled
mod Chunks
mod RoundTrip
mod Tests
use helianthus.Prelude.{
  ℕ, zero, suc, ◌+◌, ◌*◌, ◌%◌, ◌≡◌, Bool, true, false, Option, none, some, List, [], ◌∷◌, ◌++◌, ltb,
  if◌then◌else◌, length, take, drop, le_bytes, le_value, u32_mod,
}

pub data State : Type 0 where
  waiting_for_length waiting_for_message : State

pub record MessageProtocol : Type 0 where
  pub receive_buffer : List ℕ
  pub current_state : State
  pub expected_message_length : ℕ
  pub message_handler_callback : Bool

-- The constructor, before `SetMessageHandler`.
pub init : MessageProtocol
init = record {
  receive_buffer = [];
  current_state = waiting_for_length;
  expected_message_length = 0;
  message_handler_callback = false;
}

pub set_message_handler : MessageProtocol → MessageProtocol
set_message_handler p = record p { message_handler_callback = true }

-- The size is narrowed to `uint32_t`.
pub encode_message : List ℕ → List ℕ
encode_message message = le_bytes 4 (length message % u32_mod) ++ message

pub reset : MessageProtocol → MessageProtocol
reset p = record p {
  receive_buffer = [];
  current_state = waiting_for_length;
  expected_message_length = 0;
}

-- One round of the loop: `none` is a `break`.
read_length : MessageProtocol → Option (MessageProtocol × List (List ℕ))
read_length p =
    if ltb (length p.receive_buffer) 4
    then none
    else some (
      record p {
        receive_buffer = drop 4 p.receive_buffer;
        current_state = waiting_for_message;
        expected_message_length = le_value (take 4 p.receive_buffer);
      },
      [],
    )

read_message : MessageProtocol → Option (MessageProtocol × List (List ℕ))
read_message p =
    if ltb (length p.receive_buffer) p.expected_message_length
    then none
    else some (
      record p {
        receive_buffer = drop p.expected_message_length p.receive_buffer;
        current_state = waiting_for_length;
        expected_message_length = 0;
      },
      if p.message_handler_callback
          then take p.expected_message_length p.receive_buffer ∷ []
          else [],
    )

round_in : State → MessageProtocol → Option (MessageProtocol × List (List ℕ))
unfolding read_length read_message
round_in waiting_for_length p = read_length p
round_in waiting_for_message p = read_message p

pub round : MessageProtocol → Option (MessageProtocol × List (List ℕ))
unfolding round_in
round p = round_in p.current_state p

-- The loop on fuel; `none` means that the fuel ran out.
pub process_loop : ℕ → MessageProtocol → List (List ℕ) → Option (MessageProtocol × List (List ℕ))
process_loop zero p out = none
process_loop (suc fuel) p out = elim (round p) [
  | none ↦ some (p, out)
  | some (p', delivered) ↦ process_loop fuel p' (out ++ delivered)
]

-- A length uses up four bytes and a message returns to waiting for a length, so this suffices.
pub fuel_for : MessageProtocol → ℕ
fuel_for p = 2 * length p.receive_buffer + 2

pub process_buffer : MessageProtocol → Option (MessageProtocol × List (List ℕ))
process_buffer p = process_loop (fuel_for p) p []

pub append : MessageProtocol → List ℕ → MessageProtocol
append p bytes = record p { receive_buffer = p.receive_buffer ++ bytes }

pub process_received_data : MessageProtocol → List ℕ → Option (MessageProtocol × List (List ℕ))
process_received_data p [] = some (p, [])
process_received_data p (b ∷ bytes) = process_buffer (append p (b ∷ bytes))
