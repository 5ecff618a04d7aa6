-- ===== src/Crc32.antt =====
-- Shared/Message/Message.cpp: the CRC-32 of the checksum, by a table of 256 entries. The table is
-- filled on the first use; here an entry is computed where it is read.
pub mod Linear
pub mod Reference
pub mod Errors
mod Tests
use helianthus.Prelude.{
  ℕ, zero, suc, ◌+◌, ◌-◌, ◌*◌, ◌/◌, ◌%◌, ◌^◌, ◌≤◌, ◌<◌, min, max, ◌≡◌, refl, sym, ap, ◌∙◌, ◌≢◌, ◌↔◌,
  ◌⊎◌, inl, inr, Bool, true, false, not, ◌&&◌, ◌||◌, Option, none, some, List, [], ◌∷◌, ◌++◌, map,
  arith, dec_lt, ℕ_discrete, bit_xor, u32_mod, u64_mod, le_bytes, le_value, length-le_bytes,
  le_value-le_bytes, take-le_bytes, drop-le_bytes, one_if, count, erase, length-erase, count-erase,
  count-append, find_id, put_id, remove_id, find_id-put_id, find_id-remove_id, length, get_elem?,
  set, length-append, length-set, get_elem?-set_self, get_elem?-set_ne, get_or, take, drop,
  replicate, take-append-drop, length-take, length-drop, length-replicate, length-map,
  take-length_append, drop-length_append, take-append_le, drop-append_le, All, Name, same_name,
  same_name→eq, same_name_self, eq→same_name, ne→same_name, find, put, remove, find-put,
  find-remove, map_laws, ltb, leb, ◌==◌, if◌then◌else◌, ltb→lt, lt→ltb, leb→le, ==_iff, tests,
  Bool-cases, Option-cases, zero-bit_xor, bit_xor_step, bit_xor_comm, bit_xor-half, bit_xor-parity,
  bit_xor_assoc, bit_xor_self, bit_xor_twice, bit_xor_cancel, bit_xor_bound,
}

-- The polynomial, with its bits reversed.
abbrev pub polynomial : ℕ
polynomial = 0xEDB88320

abbrev pub all_ones : ℕ
all_ones = 0xFFFFFFFF

unfoldable pub crc_bit : ℕ → ℕ
crc_bit crc = if crc % 2 == 1 then bit_xor (crc / 2) polynomial else crc / 2

unfoldable pub crc_bits : ℕ → ℕ → ℕ
unfolding crc_bit
crc_bits zero crc = crc
crc_bits (suc j) crc = crc_bits j (crc_bit crc)

unfoldable pub crc_table : ℕ → ℕ
unfolding crc_bits
crc_table i = crc_bits 8 i

-- Both parts of the index are bytes.
unfoldable pub crc_step : ℕ → ℕ → ℕ
unfolding crc_table
crc_step crc byte = bit_xor (crc / 256) (crc_table (bit_xor (crc % 256) byte))

unfoldable pub crc_loop : ℕ → List ℕ → ℕ
unfolding crc_step
crc_loop crc [] = crc
crc_loop crc (byte ∷ bytes) = crc_loop (crc_step crc byte) bytes

unfoldable pub calculate_crc32 : List ℕ → ℕ
unfolding crc_loop
calculate_crc32 bytes = bit_xor (crc_loop all_ones bytes) all_ones
