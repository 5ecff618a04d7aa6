-- ===== src/Message.antt =====
-- Shared/Message/Message.cpp: a message with its header, and its form on the wire. Texts and payloads
-- are lists of bytes. The header is copied as memory: on a 64-bit little-endian machine its fields
-- stand without gaps, in 56 bytes. The enumerations are numbers, since any pattern is copied.
pub mod Wire
pub mod Framed
pub mod Delivery
mod Tests
use helianthus.Prelude.{
  ℕ, zero, suc, ◌+◌, ◌-◌, ◌*◌, ◌/◌, ◌%◌, ◌^◌, ◌≤◌, ◌<◌, min, max, ◌≡◌, refl, sym, ap, ◌∙◌, ◌≢◌, ◌↔◌,
  ◌⊎◌, inl, inr, Bool, true, false, not, ◌&&◌, ◌||◌, Option, none, some, List, [], ◌∷◌, ◌++◌, map,
  arith, dec_lt, ℕ_discrete, bit_xor, u32_mod, u64_mod, le_bytes, le_value, length-le_bytes,
  le_value-le_bytes, take-le_bytes, drop-le_bytes, one_if, count, erase, length-erase, count-erase,
  count-append, find_id, put_id, remove_id, find_id-put_id, find_id-remove_id, length, get_elem?,
  set, length-append, length-set, get_elem?-set_self, get_elem?-set_ne, get_or, take, drop,
  replicate, take-append-drop, length-take, length-drop, length-replicate, length-map,
  take-length_append, drop-length_append, take-append_le, drop-append_le, All, Name, same_name,
  same_name→eq, same_name_self, eq→same_name, ne→same_name, find, put, remove, find-put,
  find-remove, map_laws, ltb, leb, ◌==◌, if◌then◌else◌, ltb→lt, lt→ltb, leb→le, ==_iff, tests,
  Bool-cases, Option-cases, zero-bit_xor, bit_xor_step, bit_xor_comm, bit_xor-half, bit_xor-parity,
  bit_xor_assoc, bit_xor_self, bit_xor_twice, bit_xor_cancel, bit_xor_bound,
}
use helianthus.Crc32.{calculate_crc32}

abbrev pub message_header_magic : ℕ
message_header_magic = 0x48454C49

pub record MessageHeader : Type 0 where
  pub msg_id : ℕ
  pub msg_type : ℕ
  pub priority : ℕ
  pub post_mode : ℕ
  pub sender_id : ℕ
  pub receiver_id : ℕ
  pub them_id : ℕ
  pub timestamp : ℕ
  pub payload_size : ℕ
  pub checksum : ℕ
  pub sequence_number : ℕ
  pub retry_count : ℕ
  pub max_retries : ℕ
  pub timeout_ms : ℕ

abbrev pub default_header : MessageHeader
default_header = record {
  msg_id = 0;
  msg_type = 10000;
  priority = 1;
  post_mode = 0;
  sender_id = 0;
  receiver_id = 0;
  them_id = 0;
  timestamp = 0;
  payload_size = 0;
  checksum = 0;
  sequence_number = 0;
  retry_count = 0;
  max_retries = 3;
  timeout_ms = 5000;
}

pub record Message : Type 0 where
  pub header : MessageHeader
  pub payload : List ℕ
  pub is_compressed : Bool
  pub is_encrypted : Bool

-- `NextMessageId` before and after, and the id.
unfoldable pub generate_message_id : ℕ → ℕ × ℕ
generate_message_id next = (next, (next + 1) % u64_mod)

-- The counter, the clock and the type.
unfoldable pub new_message : ℕ → ℕ → ℕ → Message × ℕ
unfolding generate_message_id
new_message next now msg_type =
    let (id, next') = generate_message_id next in
    (
      record {
        header = record default_header { msg_id = id; timestamp = now; msg_type = msg_type };
        payload = [];
        is_compressed = false;
        is_encrypted = false;
      },
      next',
    )

unfoldable pub update_header_from_payload : Message → Message
update_header_from_payload m = record m {
  header = record m.header { payload_size = length m.payload % u32_mod };
}

unfoldable pub set_payload : List ℕ → Message → Message
unfolding update_header_from_payload
set_payload bytes m = update_header_from_payload (record m { payload = bytes })

unfoldable pub new_message_with : ℕ → ℕ → ℕ → List ℕ → Message × ℕ
unfolding new_message set_payload
new_message_with next now msg_type bytes =
    let (m, next') = new_message next now msg_type in (set_payload bytes m, next')

-- `MessageHeader{}` with a new id and the time, whatever the message was.
unfoldable pub reset : ℕ → ℕ → Message → Message × ℕ
unfolding new_message
reset next now m = new_message next now default_header.msg_type

unfoldable pub create_response : ℕ → ℕ → ℕ → Message → Message × ℕ
unfolding new_message
create_response next now response_type original =
    let (m, next') = new_message next now response_type in
    (
      record m {
        header = record m.header {
          receiver_id = original.header.sender_id;
          sender_id = original.header.receiver_id;
          them_id = original.header.them_id;
        };
      },
      next',
    )

-- Compress and Encrypt only set a flag.
unfoldable pub compress : Message → Message
compress m = record m { is_compressed = true }

unfoldable pub decompress : Message → Message
decompress m = record m { is_compressed = false }

unfoldable pub encrypt : Message → Message
encrypt m = record m { is_encrypted = true }

unfoldable pub decrypt : Message → Message
decrypt m = record m { is_encrypted = false }

unfoldable pub get_total_size : Message → ℕ
get_total_size m = 56 + length m.payload

unfoldable pub is_valid : Message → Bool
is_valid m =
    not (m.header.msg_id == 0)
    && ((m.header.payload_size == length m.payload) && leb m.header.max_retries 10)

abbrev pub no_bytes : List ℕ → Bool
no_bytes [] = true
no_bytes (b ∷ bs) = false

-- What the fields of the header contribute.
unfoldable pub header_checksum : MessageHeader → ℕ
header_checksum h =
    bit_xor
      (bit_xor
        (bit_xor
          (bit_xor (calculate_crc32 (le_bytes 8 h.msg_id))
            (calculate_crc32 (le_bytes 2 h.msg_type)))
          (calculate_crc32 (le_bytes 4 h.sender_id)))
        (calculate_crc32 (le_bytes 4 h.receiver_id)))
      (calculate_crc32 (le_bytes 4 h.payload_size))

unfoldable pub calculate_checksum : Message → ℕ
unfolding header_checksum
calculate_checksum m =
    let sum = header_checksum m.header in
    if no_bytes m.payload then sum else bit_xor sum (calculate_crc32 m.payload)

unfoldable pub validate_checksum : Message → Bool
validate_checksum m = calculate_checksum m == m.header.checksum

unfoldable pub update_checksum : Message → Message
update_checksum m = record m { header = record m.header { checksum = calculate_checksum m } }

unfoldable pub header_bytes : MessageHeader → List ℕ
header_bytes h =
    le_bytes 8 h.msg_id
    ++ (le_bytes 2 h.msg_type
        ++ (le_bytes 1 h.priority
            ++ (le_bytes 1 h.post_mode
                ++ (le_bytes 4 h.sender_id
                    ++ (le_bytes 4 h.receiver_id
                        ++ (le_bytes 4 h.them_id
                            ++ (le_bytes 8 h.timestamp
                                ++ (le_bytes 4 h.payload_size
                                    ++ (le_bytes 4 h.checksum
                                        ++ (le_bytes 4 h.sequence_number
                                            ++ (le_bytes 4 h.retry_count
                                                ++ (le_bytes 4 h.max_retries
                                                    ++ le_bytes 4 h.timeout_ms))))))))))))

-- `memcpy` into a header, from the front of the bytes.
unfoldable pub read_header : List ℕ → MessageHeader
read_header b0 =
    let b1 = drop 8 b0 in
    let b2 = drop 2 b1 in
    let b3 = drop 1 b2 in
    let b4 = drop 1 b3 in
    let b5 = drop 4 b4 in
    let b6 = drop 4 b5 in
    let b7 = drop 4 b6 in
    let b8 = drop 8 b7 in
    let b9 = drop 4 b8 in
    let b10 = drop 4 b9 in
    let b11 = drop 4 b10 in
    let b12 = drop 4 b11 in
    let b13 = drop 4 b12 in
    record {
      msg_id = le_value (take 8 b0);
      msg_type = le_value (take 2 b1);
      priority = le_value (take 1 b2);
      post_mode = le_value (take 1 b3);
      sender_id = le_value (take 4 b4);
      receiver_id = le_value (take 4 b5);
      them_id = le_value (take 4 b6);
      timestamp = le_value (take 8 b7);
      payload_size = le_value (take 4 b8);
      checksum = le_value (take 4 b9);
      sequence_number = le_value (take 4 b10);
      retry_count = le_value (take 4 b11);
      max_retries = le_value (take 4 b12);
      timeout_ms = le_value (take 4 b13);
    }

-- The bytes, and the message with its checksum brought up to date.
unfoldable pub serialize : Message → List ℕ × Message
unfolding update_checksum header_bytes
serialize m =
    let m' = update_checksum m in
    (le_bytes 4 message_header_magic ++ (header_bytes m'.header ++ m'.payload), m')

-- The header and the payload go into the object before they are tested.
unfoldable pub accept : MessageHeader → ℕ → List ℕ → Message → Bool × Message
unfolding is_valid validate_checksum
accept h payload_size payload m =
    let m1 = record m { header = h } in
    let m2 = record m1 { payload = payload } in
    if not (payload_size == h.payload_size)
    then (false, m1)
    else if not (is_valid m2)
    then (false, m2)
    else (validate_checksum m2, m2)

-- Whether the bytes are a message, and the object after the call.
unfoldable pub deserialize : List ℕ → Message → Bool × Message
unfolding read_header accept
deserialize bytes m =
    let body = drop 4 bytes in
    if ltb (length bytes) 60
    then (false, m)
    else if not (le_value (take 4 bytes) == message_header_magic)
    then (false, m)
    else accept (read_header body) (length bytes - 60) (drop 56 body) m

-- A null pointer is no message.
unfoldable pub deserialize_data : Option (List ℕ) → Message → Bool × Message
unfolding deserialize
deserialize_data none m = (false, m)
deserialize_data (some bytes) m = deserialize bytes m
