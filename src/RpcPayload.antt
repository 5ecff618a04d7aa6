-- ===== src/RpcPayload.antt =====
-- Shared/RPC/RpcMessage.cpp: the binary form of an RPC payload (RpcMessagePayload).
-- Texts are lists of bytes. `RpcResult` has an int32_t below it: `memcpy` reads any bit pattern into
-- it, so the error code is that pattern, a number below 2 ^ 32.
mod RoundTrip
mod Truncation
mod Tests
use helianthus.Prelude.{
  ℕ, ◌-◌, ◌%◌, ◌≡◌, Bool, true, false, Option, none, some, List, ◌++◌, ltb, if◌then◌else◌, length,
  take, drop, le_bytes, le_value, u32_mod,
}

pub data RpcCallType : Type 0 where
  request response notification heartbeat error : RpcCallType

pub data SerializationFormat : Type 0 where
  json binary protobuf msgpack : SerializationFormat

pub data RpcResult : Type 0 where
  success failed timeout service_not_found method_not_found invalid_parameters : RpcResult
  serialization_error network_error server_overloaded client_error internal_error : RpcResult

-- The enumerators are 0, -1, …, -10, as two's complement patterns of 32 bits.
pub code : RpcResult → ℕ
code RpcResult.success = 0
code RpcResult.failed = u32_mod - 1
code RpcResult.timeout = u32_mod - 2
code RpcResult.service_not_found = u32_mod - 3
code RpcResult.method_not_found = u32_mod - 4
code RpcResult.invalid_parameters = u32_mod - 5
code RpcResult.serialization_error = u32_mod - 6
code RpcResult.network_error = u32_mod - 7
code RpcResult.server_overloaded = u32_mod - 8
code RpcResult.client_error = u32_mod - 9
code RpcResult.internal_error = u32_mod - 10

pub record RpcContext : Type 0 where
  pub call_id : ℕ
  pub service_id_value : ℕ
  pub method_id_value : ℕ
  pub service_name : List ℕ
  pub method_name : List ℕ
  pub call_type : RpcCallType
  pub format : SerializationFormat
  pub timestamp : ℕ
  pub timeout_ms : ℕ
  pub retry_count : ℕ
  pub max_retries : ℕ
  pub client_id : List ℕ
  pub server_id : List ℕ

pub record RpcMessagePayload : Type 0 where
  pub context : RpcContext
  pub parameters : List ℕ
  pub result : List ℕ
  pub error_code : ℕ
  pub error_message : List ℕ

-- The length is narrowed to `uint32_t`.
pub write_string : List ℕ → List ℕ
write_string str = le_bytes 4 (length str % u32_mod) ++ str

pub to_binary : RpcMessagePayload → List ℕ
to_binary p =
    le_bytes 8 p.context.call_id
    ++ (write_string p.context.service_name
        ++ (write_string p.context.method_name
            ++ (write_string p.parameters
                ++ (write_string p.result
                    ++ (write_string p.error_message ++ le_bytes 4 p.error_code)))))

-- The text and what is left behind it.
pub read_string : List ℕ → Option (List ℕ × List ℕ)
read_string bytes =
    if ltb (length bytes) 4
    then none
    else if ltb (length (drop 4 bytes)) (le_value (take 4 bytes))
    then none
    else some (
      take (le_value (take 4 bytes)) (drop 4 bytes),
      drop (le_value (take 4 bytes)) (drop 4 bytes),
    )

-- The object while it is read: given up, or with the bytes that remain. What was read stays.
pub data Reading : Type 0 where
  failed : RpcMessagePayload → Reading
  going : RpcMessagePayload → List ℕ → Reading

abbrev pub Setter : Type 0
Setter = RpcMessagePayload → List ℕ → RpcMessagePayload

pub read_into : Setter → Reading → Reading
read_into set (Reading.failed p) = Reading.failed p
read_into set (Reading.going p bytes) = elim (read_string bytes) [
  | none ↦ Reading.failed p
  | some (str, rest) ↦ Reading.going (set p str) rest
]

abbrev pub set_service_name : Setter
set_service_name p s = record p { context = record (p.context) { service_name = s } }

abbrev pub set_method_name : Setter
set_method_name p s = record p { context = record (p.context) { method_name = s } }

abbrev pub set_parameters : Setter
set_parameters p s = record p { parameters = s }

abbrev pub set_result : Setter
set_result p s = record p { result = s }

abbrev pub set_error_message : Setter
set_error_message p s = record p { error_message = s }

-- The last field is copied in, and what stands behind it is not looked at.
pub read_error_code : Reading → RpcMessagePayload × Bool
read_error_code (Reading.failed p) = (p, false)
read_error_code (Reading.going p bytes) =
    if ltb (length bytes) 4
    then (p, false)
    else (record p { error_code = le_value (take 4 bytes) }, true)

pub read_call_id : RpcMessagePayload → List ℕ → Reading
read_call_id p bytes =
    if ltb (length bytes) 8
    then Reading.failed p
    else Reading.going
        (record p { context = record (p.context) { call_id = le_value (take 8 bytes) } })
        (drop 8 bytes)

pub read_strings : Reading → Reading
read_strings r = read_into set_error_message (
    read_into set_result
      (read_into set_parameters (read_into set_method_name (read_into set_service_name r))))

-- `FromBinary` fills the object that it is called on, and answers whether all could be read.
pub from_binary : RpcMessagePayload → List ℕ → RpcMessagePayload × Bool
from_binary p bytes = read_error_code (read_strings (read_call_id p bytes))
