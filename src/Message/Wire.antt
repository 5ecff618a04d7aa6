-- ===== src/Message/Wire.antt =====
-- Shared/Message/Message.cpp: what is serialized is read back, and a changed byte is refused.
use mathlib.Core.List.{append_assoc}
use helianthus.Prelude.{
  ℕ, zero, suc, ◌/◌, ◌^◌, ◌<◌, ◌≡◌, List, ◌++◌, arith, u32_mod, u64_mod, le_bytes, length-le_bytes,
  le_value-le_bytes, take-le_bytes, drop-le_bytes, length, length-append, All, bit_xor_bound,
}
use helianthus.Crc32.{calculate_crc32}
use helianthus.Crc32.Errors.{calculate_crc32_bound}
use helianthus.Message.{
  MessageHeader, Message, header_checksum, calculate_checksum, header_bytes, read_header,
}

-- The fields fit their types.
pub record Fits (h : MessageHeader) : Type 0 where
  pub msg_id_fits : h.msg_id < u64_mod
  pub msg_type_fits : h.msg_type < 65536
  pub priority_fits : h.priority < 256
  pub post_mode_fits : h.post_mode < 256
  pub sender_id_fits : h.sender_id < u32_mod
  pub receiver_id_fits : h.receiver_id < u32_mod
  pub them_id_fits : h.them_id < u32_mod
  pub timestamp_fits : h.timestamp < u64_mod
  pub payload_size_fits : h.payload_size < u32_mod
  pub checksum_fits : h.checksum < u32_mod
  pub sequence_number_fits : h.sequence_number < u32_mod
  pub retry_count_fits : h.retry_count < u32_mod
  pub max_retries_fits : h.max_retries < u32_mod
  pub timeout_ms_fits : h.timeout_ms < u32_mod

pub length-header_bytes : (h : MessageHeader) → length (header_bytes h) ≡ 56
unfolding header_bytes
length-header_bytes h = simp (length-append, length-le_bytes)

-- A header is read back, whatever bytes follow.
pub read_header-header_bytes :
    (h : MessageHeader) (rest : List ℕ) → Fits h → read_header (header_bytes h ++ rest) ≡ h
unfolding header_bytes read_header
read_header-header_bytes h rest f = simp (
  append_assoc,
  take-le_bytes,
  drop-le_bytes,
  le_value-le_bytes 8 h.msg_id (omega arith),
  le_value-le_bytes 2 h.msg_type (omega arith),
  le_value-le_bytes 1 h.priority (omega arith),
  le_value-le_bytes 1 h.post_mode (omega arith),
  le_value-le_bytes 4 h.sender_id (omega arith),
  le_value-le_bytes 4 h.receiver_id (omega arith),
  le_value-le_bytes 4 h.them_id (omega arith),
  le_value-le_bytes 8 h.timestamp (omega arith),
  le_value-le_bytes 4 h.payload_size (omega arith),
  le_value-le_bytes 4 h.checksum (omega arith),
  le_value-le_bytes 4 h.sequence_number (omega arith),
  le_value-le_bytes 4 h.retry_count (omega arith),
  le_value-le_bytes 4 h.max_retries (omega arith),
  le_value-le_bytes 4 h.timeout_ms (omega arith),
)

le_bytes-All : (k n : ℕ) → All (λ b. b < 256) (le_bytes k n)
unfolding le_bytes
le_bytes-All zero n = tt
le_bytes-All (suc k) n = (omega arith, le_bytes-All k (n / 256))

crc-le_bytes : (k n : ℕ) → calculate_crc32 (le_bytes k n) < 2 ^ 32
crc-le_bytes k n = calculate_crc32_bound (le_bytes k n) (le_bytes-All k n)

header_checksum_bound : (h : MessageHeader) → header_checksum h < 2 ^ 32
unfolding header_checksum
header_checksum_bound h =
    bit_xor_bound 32 _ (calculate_crc32 (le_bytes 4 h.payload_size))
      (bit_xor_bound 32 _ (calculate_crc32 (le_bytes 4 h.receiver_id))
        (bit_xor_bound 32 _ (calculate_crc32 (le_bytes 4 h.sender_id))
          (bit_xor_bound 32 _ (calculate_crc32 (le_bytes 2 h.msg_type)) (crc-le_bytes 8 h.msg_id)
            (crc-le_bytes 2 h.msg_type))
          (crc-le_bytes 4 h.sender_id))
        (crc-le_bytes 4 h.receiver_id))
      (crc-le_bytes 4 h.payload_size)

pub calculate_checksum_bound :
    (m : Message) → All (λ b. b < 256) m.payload → calculate_checksum m < u32_mod
unfolding calculate_checksum
calculate_checksum_bound m p =
    let a = header_checksum_bound m.header in
    let b =
      bit_xor_bound 32 (header_checksum m.header) (calculate_crc32 m.payload) a
        (calculate_crc32_bound m.payload p) in
    ground arith
