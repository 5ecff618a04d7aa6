-- ===== src/RpcPayload/RoundTrip.antt =====
-- RpcMessagePayload::FromBinary after ToBinary: what crosses the wire, and what does not.
use mathlib.Core.List.{append_assoc}
use helianthus.Prelude.{
  ℕ, ◌%◌, ◌<◌, ◌≡◌, true, some, List, ◌++◌, arith, length, length-append, take-length_append,
  drop-length_append, le_bytes, le_value, length-le_bytes, take-le_bytes, drop-le_bytes,
  le_value-le_bytes, u32_mod, u64_mod,
}
use helianthus.RpcPayload.{
  RpcMessagePayload, write_string, to_binary, read_string, Reading, Setter, read_into, read_call_id,
  read_strings, read_error_code, from_binary, set_service_name, set_method_name, set_parameters,
  set_result, set_error_message,
}

-- Every field fits the width in which it is written.
pub record Fits (p : RpcMessagePayload) : Type 0 where
  pub call_id : p.context.call_id < u64_mod
  pub service_name : length p.context.service_name < u32_mod
  pub method_name : length p.context.method_name < u32_mod
  pub parameters : length p.parameters < u32_mod
  pub result : length p.result < u32_mod
  pub error_message : length p.error_message < u32_mod
  pub error_code : p.error_code < u32_mod

pub read-write_string :
    (s rest : List ℕ) → length s < u32_mod → read_string (write_string s ++ rest) ≡ some (s, rest)
unfolding read_string write_string
read-write_string s rest h =
    let fits : length s % u32_mod ≡ length s = omega arith in
    let value : le_value (le_bytes 4 (length s)) ≡ length s =
      le_value-le_bytes 4 (length s) (omega arith) in
    rw (fits, append_assoc (le_bytes 4 (length s)) s rest)
      (ground (
        arith,
        length-append (le_bytes 4 (length s)) (s ++ rest),
        length-append s rest,
        length-le_bytes 4 (length s),
        take-le_bytes 4 (length s) (s ++ rest),
        drop-le_bytes 4 (length s) (s ++ rest),
        value,
        take-length_append s rest,
        drop-length_append s rest,
      ))

read_into_written :
    (set : Setter) (p : RpcMessagePayload) (s rest : List ℕ)
    → length s < u32_mod
    → read_into set (Reading.going p (write_string s ++ rest)) ≡ Reading.going (set p s) rest
unfolding read_into
read_into_written set p s rest h = rw (read-write_string s rest h, read_into)

-- The receiver's object with the seven fields that ToBinary writes.
pub received : RpcMessagePayload → RpcMessagePayload → RpcMessagePayload
received q p = record {
  context = record (q.context) {
    call_id = p.context.call_id;
    service_name = p.context.service_name;
    method_name = p.context.method_name;
  };
  parameters = p.parameters;
  result = p.result;
  error_code = p.error_code;
  error_message = p.error_message;
}

read_call_id_written :
    (q : RpcMessagePayload) (n : ℕ) (rest : List ℕ)
    → n < u64_mod
    → read_call_id q (le_bytes 8 n ++ rest)
      ≡ Reading.going (record q { context = record (q.context) { call_id = n } }) rest
unfolding read_call_id
read_call_id_written q n rest h = ground (
  arith,
  length-append (le_bytes 8 n) rest,
  length-le_bytes 8 n,
  take-le_bytes 8 n rest,
  drop-le_bytes 8 n rest,
  le_value-le_bytes 8 n h,
)

read_error_code_written :
    (q : RpcMessagePayload) (n : ℕ) (rest : List ℕ)
    → n < u32_mod
    → read_error_code (Reading.going q (le_bytes 4 n ++ rest)) ≡ (record q { error_code = n }, true)
unfolding read_error_code
read_error_code_written q n rest h = ground (
  arith,
  length-append (le_bytes 4 n) rest,
  length-le_bytes 4 n,
  take-le_bytes 4 n rest,
  le_value-le_bytes 4 n h,
)

abbrev pub before_error_code : RpcMessagePayload → RpcMessagePayload → RpcMessagePayload
before_error_code q p = record (received q p) { error_code = q.error_code }

-- Everything up to the error code.
pub read_strings_written :
    (q p : RpcMessagePayload) (rest : List ℕ)
    → Fits p
    → read_strings (read_call_id q (to_binary p ++ rest))
      ≡ Reading.going (before_error_code q p) (le_bytes 4 p.error_code ++ rest)
unfolding to_binary read_strings received
read_strings_written q p rest h = simp (
  append_assoc,
  read_call_id_written q p.context.call_id _ h.call_id,
  read_into_written set_service_name _ p.context.service_name _ h.service_name,
  read_into_written set_method_name _ p.context.method_name _ h.method_name,
  read_into_written set_parameters _ p.parameters _ h.parameters,
  read_into_written set_result _ p.result _ h.result,
  read_into_written set_error_message _ p.error_message _ h.error_message,
)

-- If its texts are below 2^32 bytes and its numbers fit their types, FromBinary reads back what
-- ToBinary wrote, whatever follows: it succeeds and sets exactly the call id, the two names, the
-- parameters, the result, the error message and the error code; every other field stays that of the
-- receiver.
pub from_binary-to_binary :
    (q p : RpcMessagePayload) (rest : List ℕ)
    → Fits p
    → from_binary q (to_binary p ++ rest) ≡ (received q p, true)
unfolding from_binary received
from_binary-to_binary q p rest h =
    rw (read_strings_written q p rest h) (read_error_code_written _ p.error_code rest h.error_code)
