-- ===== src/RpcPayload/Tests.antt =====
-- RpcMessagePayload at concrete inputs.
use helianthus.Prelude.{
  ◌-◌, ◌≡◌, refl, true, false, [], ◌∷◌, ◌++◌, arith, le_bytes, le_value, u32_mod,
}
use helianthus.RpcPayload.{
  RpcMessagePayload, RpcCallType, SerializationFormat, RpcResult, code, to_binary, from_binary,
  write_string, read_error_code, read_strings, read_into, read_call_id, read_string,
}
use helianthus.RpcPayload.RoundTrip.{Fits, received, from_binary-to_binary}
use helianthus.RpcPayload.Truncation.{from_binary_truncated}

abbrev blank : RpcMessagePayload
blank = record {
  context = record {
    call_id = 0;
    service_id_value = 0;
    method_id_value = 0;
    service_name = [];
    method_name = [];
    call_type = RpcCallType.request;
    format = SerializationFormat.json;
    timestamp = 0;
    timeout_ms = 5000;
    retry_count = 0;
    max_retries = 3;
    client_id = [];
    server_id = [];
  };
  parameters = [];
  result = [];
  error_code = 0;
  error_message = [];
}

-- An error response, as SetError leaves it.
abbrev refused : RpcMessagePayload
refused = record blank {
  context = record (blank.context) { call_id = 7; call_type = RpcCallType.error };
  error_code = u32_mod - 4;
  error_message = 110 ∷ 111 ∷ [];
}

refused-Fits : Fits refused
refused-Fits = record {
  call_id = omega arith;
  service_name = omega arith;
  method_name = omega arith;
  parameters = omega arith;
  result = omega arith;
  error_message = omega arith;
  error_code = omega arith;
}

method_not_found_code : code RpcResult.method_not_found ≡ refused.error_code
unfolding code
method_not_found_code = refl

-- The call type does not cross: the error arrives as a request.
error_type_lost : (from_binary blank (to_binary refused)).0.context.call_type ≡ RpcCallType.request
unfolding to_binary write_string le_bytes from_binary le_value read_error_code read_strings
    read_into read_call_id read_string
error_type_lost = refl

from_binary-to_binary_example :
    from_binary blank (to_binary refused ++ []) ≡ (received blank refused, true)
from_binary-to_binary_example = from_binary-to_binary blank refused [] refused-Fits

from_binary_truncated_example : (from_binary blank (7 ∷ 0 ∷ [])).1 ≡ false
unfolding to_binary write_string le_bytes
from_binary_truncated_example =
    from_binary_truncated blank refused (7 ∷ 0 ∷ [])
      (0 ∷ 0 ∷ 0 ∷ 0 ∷ 0 ∷ 0 ∷ 0 ∷ 0 ∷ 0 ∷ 0 ∷ 0 ∷ 0 ∷ 0 ∷ 0 ∷ 0 ∷ 0 ∷ 0 ∷ 0 ∷ 0 ∷ 0 ∷ 0 ∷ 2 ∷ 0 ∷ 0
        ∷ 0 ∷ 110 ∷ 111 ∷ 252 ∷ 255 ∷ 255 ∷ 255 ∷ [])
      0 refused-Fits refl
