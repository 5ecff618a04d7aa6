-- ===== src/Message/Framed.antt =====
-- Shared/Message/Message.cpp: how the bytes of a header and a payload are taken in.
use mathlib.Core.Path.{ap₂}
use helianthus.Prelude.{
  ==_iff, ◌≢◌, ◌==◌, ℕ, ◌+◌, ◌-◌, ◌≤◌, ◌≡◌, sym, ap, ◌∙◌, ◌≢◌, Bool, true, false, not, List, ◌++◌,
  arith, le_bytes, le_value, length-le_bytes, le_value-le_bytes, take-le_bytes, drop-le_bytes,
  length, length-append, take, drop, drop-length_append, ltb, ◌==◌, if◌then◌else◌, ==_iff,
}
use helianthus.Message.{
  calculate_checksum, accept, message_header_magic, MessageHeader, Message, is_valid,
  calculate_checksum, validate_checksum, header_bytes, read_header, deserialize,
}
use helianthus.Message.Wire.{Fits, length-header_bytes, read_header-header_bytes}

-- The magic number, a header and a payload.
abbrev pub framed : MessageHeader → List ℕ → List ℕ
framed h p = le_bytes 4 message_header_magic ++ (header_bytes h ++ p)

pub length-framed : (h : MessageHeader) (p : List ℕ) → length (framed h p) ≡ 60 + length p
length-framed h p = omega (
  arith,
  length-append (le_bytes 4 message_header_magic) (header_bytes h ++ p),
  length-append (header_bytes h) p,
  length-header_bytes h,
  length-le_bytes 4 message_header_magic,
)

magic-framed :
    (h : MessageHeader) (p : List ℕ) → le_value (take 4 (framed h p)) ≡ message_header_magic
magic-framed h p =
    ap le_value (take-le_bytes 4 message_header_magic (header_bytes h ++ p))
    ∙ le_value-le_bytes 4 message_header_magic (omega arith)

header-framed : (h : MessageHeader) (p : List ℕ) → Fits h → read_header (drop 4 (framed h p)) ≡ h
header-framed h p f =
    ap read_header (drop-le_bytes 4 message_header_magic (header_bytes h ++ p))
    ∙ read_header-header_bytes h p f

payload-framed : (h : MessageHeader) (p : List ℕ) → drop 56 (drop 4 (framed h p)) ≡ p
payload-framed h p =
    ap (drop 56) (drop-le_bytes 4 message_header_magic (header_bytes h ++ p))
    ∙ ap (λ (n : ℕ). drop n (header_bytes h ++ p)) (sym (length-header_bytes h))
    ∙ drop-length_append (header_bytes h) p

-- Bytes that frame a header and a payload come to the last tests.
pub deserialize-framed :
    (h : MessageHeader) (p : List ℕ) (m : Message)
    → Fits h
    → deserialize (framed h p) m ≡ accept h (length p) p m
unfolding deserialize
deserialize-framed h p m f =
    let bytes = framed h p in
    let l = length-framed h p in
    let g = magic-framed h p in
    let size : length bytes - 60 ≡ length p = omega arith in
    let long : 60 ≤ length bytes = omega (arith, l) in
    let q : (read_header (drop 4 bytes), drop 56 (drop 4 bytes)) ≡ (h, p) =
      ap₂ (λ x y. (x, y)) (header-framed h p f) (payload-framed h p) in
    let last = ap₂ (λ (x : MessageHeader × List ℕ) (n : ℕ). accept x.0 n x.1 m) q size in
    past_tests bytes m
      (accept (read_header (drop 4 bytes)) (length bytes - 60) (drop 56 (drop 4 bytes)) m) long g
    ∙ last
  where
    past_tests :
        (bytes : List ℕ) (m : Message) (r : Bool × Message)
        → 60 ≤ length bytes
        → le_value (take 4 bytes) ≡ message_header_magic
        → (if ltb (length bytes) 60
            then (false, m)
            else if not (le_value (take 4 bytes) == message_header_magic)
            then (false, m)
            else r)
          ≡ r
    past_tests bytes m r h g = ground arith

pub accept-valid :
    (h : MessageHeader) (p : List ℕ) (m : Message)
    → h.msg_id ≢ 0
    → h.payload_size ≡ length p
    → h.max_retries ≤ 10
    → accept h (length p) p m ≡ (
      calculate_checksum (record m { header = h; payload = p }) == h.checksum,
      record m { header = h; payload = p },
    )
unfolding accept is_valid validate_checksum
accept-valid h p m i s r = ground arith

-- A valid message is accepted if its checksum is right, and refused if it is not.
pub accepted :
    (h : MessageHeader) (p : List ℕ) (m : Message)
    → h.msg_id ≢ 0
    → h.payload_size ≡ length p
    → h.max_retries ≤ 10
    → calculate_checksum (record m { header = h; payload = p }) ≡ h.checksum
    → accept h (length p) p m ≡ (true, record m { header = h; payload = p })
accepted h p m i s r c =
    accept-valid h p m i s r
    ∙ ap (λ b. (b, record m { header = h; payload = p })) ((==_iff _ h.checksum).1 c)

pub refused :
    (h : MessageHeader) (p : List ℕ) (m : Message)
    → h.msg_id ≢ 0
    → h.payload_size ≡ length p
    → h.max_retries ≤ 10
    → calculate_checksum (record m { header = h; payload = p }) ≢ h.checksum
    → (accept h (length p) p m).0 ≡ false
refused h p m i s r c =
    ap (λ x. x.0) (accept-valid h p m i s r)
    ∙ ne_test (calculate_checksum (record m { header = h; payload = p })) h.checksum c
  where
    ne_test : (a b : ℕ) → a ≢ b → (a == b) ≡ false
    ne_test a b h = ground arith
