-- ===== src/Message/Delivery.antt =====
-- Shared/Message/Message.cpp: messages that are read back, with and without a change on the way.
use mathlib.Core.Path.{subst}
use mathlib.Core.List.{append_assoc}
use helianthus.Prelude.{
  bit_xor_right_comm, ℕ, ◌≤◌, ◌<◌, ◌≡◌, refl, sym, ap, ◌∙◌, ◌≢◌, Bool, true, false, List, [], ◌∷◌,
  ◌++◌, arith, bit_xor, u32_mod, le_bytes, length-le_bytes, length, length-append, take,
  take-length_append, All, if◌then◌else◌, bit_xor_cancel,
}
use helianthus.Crc32.{calculate_crc32}
use helianthus.Crc32.Errors.{calculate_crc32_one_byte}
use helianthus.Message.{
  message_header_magic, MessageHeader, Message, no_bytes, header_checksum, calculate_checksum,
  update_checksum, header_bytes, serialize, deserialize,
}
use helianthus.Message.Wire.{Fits, length-header_bytes, calculate_checksum_bound}
use helianthus.Message.Framed.{accepted, refused, framed, deserialize-framed, deserialize-framed}

-- What a message is that the other side accepts: valid, of fields that fit and of bytes.
pub record IsSendable (m : Message) : Type 0 where
  pub fits : Fits m.header
  pub named : m.header.msg_id ≢ 0
  pub sized : m.header.payload_size ≡ length m.payload
  pub few_retries : m.header.max_retries ≤ 10
  pub of_bytes : All (λ b. b < 256) m.payload

-- The ids and the checksum may be replaced by others that fit.
replaced-Fits :
    (h : MessageHeader) (sender receiver sum : ℕ)
    → Fits h
    → sender < u32_mod
    → receiver < u32_mod
    → sum < u32_mod
    → Fits (record h { sender_id = sender; receiver_id = receiver; checksum = sum })
replaced-Fits h sender receiver sum f s r c = record {
  msg_id_fits = f.msg_id_fits;
  msg_type_fits = f.msg_type_fits;
  priority_fits = f.priority_fits;
  post_mode_fits = f.post_mode_fits;
  sender_id_fits = s;
  receiver_id_fits = r;
  them_id_fits = f.them_id_fits;
  timestamp_fits = f.timestamp_fits;
  payload_size_fits = f.payload_size_fits;
  checksum_fits = c;
  sequence_number_fits = f.sequence_number_fits;
  retry_count_fits = f.retry_count_fits;
  max_retries_fits = f.max_retries_fits;
  timeout_ms_fits = f.timeout_ms_fits;
}

update_checksum-Fits : (m : Message) → IsSendable m → Fits (update_checksum m).header
unfolding update_checksum
update_checksum-Fits m s =
    replaced-Fits m.header m.header.sender_id m.header.receiver_id (calculate_checksum m) s.fits
      s.fits.sender_id_fits s.fits.receiver_id_fits (calculate_checksum_bound m s.of_bytes)

checksum_of_checksum :
    (m target : Message) (c : ℕ)
    → calculate_checksum
        (record target { header = record m.header { checksum = c }; payload = m.payload })
      ≡ calculate_checksum m
unfolding calculate_checksum header_checksum
checksum_of_checksum m target c = refl

-- A message that is valid and fits is read back from its bytes, with its header and payload, into any
-- object, which keeps its two flags.
pub deserialize-serialize :
    (m target : Message)
    → IsSendable m
    → deserialize (serialize m).0 target
      ≡ (true, record target { header = (serialize m).1.header; payload = m.payload })
unfolding serialize update_checksum
deserialize-serialize m target s =
    let h = (update_checksum m).header in
    deserialize-framed h m.payload target (update_checksum-Fits m s)
    ∙ accepted h m.payload target s.named s.sized s.few_retries
        (checksum_of_checksum m target (calculate_checksum m))

-- The bytes of a message before its payload.
front : Message → List ℕ
front m = take 60 (serialize m).0

framed-front : (m : Message) (p : List ℕ) → front m ++ p ≡ framed (update_checksum m).header p
unfolding front serialize update_checksum
framed-front m p =
    let h = (update_checksum m).header in
    let a = le_bytes 4 message_header_magic in
    let n : length (a ++ header_bytes h) ≡ 60 = omega (
      arith,
      length-append a (header_bytes h),
      length-header_bytes h,
      length-le_bytes 4 message_header_magic,
    ) in
    let cut : take 60 (a ++ (header_bytes h ++ m.payload)) ≡ a ++ header_bytes h =
      ap (take 60) (sym (append_assoc a (header_bytes h) m.payload))
      ∙ ap (λ (k : ℕ). take k ((a ++ header_bytes h) ++ m.payload)) (sym n)
      ∙ take-length_append (a ++ header_bytes h) m.payload in
    ap (λ b. b ++ p) cut ∙ append_assoc a (header_bytes h) p

bytes-append :
    (xs ys : List ℕ) → All (λ b. b < 256) (xs ++ ys) → All (λ b. b < 256) xs × All (λ b. b < 256) ys
bytes-append [] ys h = (tt, h)
bytes-append (x ∷ xs) ys h = let r = bytes-append xs ys h.1 in ((h.0, r.0), r.1)

no_bytes-append : (xs ys : List ℕ) (b : ℕ) → no_bytes (xs ++ (b ∷ ys)) ≡ false
no_bytes-append [] ys b = refl
no_bytes-append (x ∷ xs) ys b = refl

length-replaced : (xs ys : List ℕ) (a b : ℕ) → length (xs ++ (a ∷ ys)) ≡ length (xs ++ (b ∷ ys))
length-replaced xs ys a b = omega (arith, length-append xs (a ∷ ys), length-append xs (b ∷ ys))

checksum_with_payload :
    (h : MessageHeader) (xs ys : List ℕ) (b : ℕ) (m : Message)
    → calculate_checksum (record m { header = h; payload = xs ++ (b ∷ ys) })
      ≡ bit_xor (header_checksum h) (calculate_crc32 (xs ++ (b ∷ ys)))
unfolding calculate_checksum
checksum_with_payload h xs ys b m = rw (no_bytes-append xs ys b) refl

same_checksum :
    (m : Message) (xs ys : List ℕ) (a : ℕ)
    → m.payload ≡ xs ++ (a ∷ ys)
    → calculate_checksum
        (record m { header = (update_checksum m).header; payload = xs ++ (a ∷ ys) })
      ≡ (update_checksum m).header.checksum
unfolding update_checksum
same_checksum m xs ys a e =
    let p = λ (l : List ℕ).
      calculate_checksum (record m { header = (update_checksum m).header; payload = l }) in
    ap p (sym e) ∙ checksum_of_checksum m m (calculate_checksum m)

-- If one byte of the payload is changed on the way, the bytes are refused.
pub deserialize_one_byte :
    (m target : Message) (xs ys : List ℕ) (a b : ℕ)
    → IsSendable m
    → m.payload ≡ xs ++ (a ∷ ys)
    → b < 256
    → a ≢ b
    → (deserialize (take 60 (serialize m).0 ++ (xs ++ (b ∷ ys))) target).0 ≡ false
unfolding front update_checksum
deserialize_one_byte m target xs ys a b s e k ne =
    let h = (update_checksum m).header in
    let p = xs ++ (b ∷ ys) in
    let parts = bytes-append xs (a ∷ ys) (subst (All (λ b. b < 256)) e s.of_bytes) in
    let size = s.sized ∙ ap length e ∙ length-replaced xs ys a b in
    ap (λ (l : List ℕ). (deserialize l target).0) (framed-front m p)
    ∙ ap (λ (r : Bool × Message). r.0) (deserialize-framed h p target (update_checksum-Fits m s))
    ∙ refused h p target s.named size s.few_retries (λ c.
      calculate_crc32_one_byte xs ys a b parts.0 parts.1.1 parts.1.0 k ne (
        bit_xor_cancel (header_checksum h) (calculate_crc32 (xs ++ (a ∷ ys))) (calculate_crc32 p) (
          sym (checksum_with_payload h xs ys a m)
          ∙ same_checksum m xs ys a e
          ∙ sym c
          ∙ checksum_with_payload h xs ys b target)))

abbrev pub swapped : MessageHeader → MessageHeader
swapped h = record h { sender_id = h.receiver_id; receiver_id = h.sender_id }

header_checksum-swapped : (h : MessageHeader) → header_checksum (swapped h) ≡ header_checksum h
unfolding header_checksum
header_checksum-swapped h =
    ap (λ (c : ℕ). bit_xor c (calculate_crc32 (le_bytes 4 h.payload_size)))
      (bit_xor_right_comm
        (bit_xor (calculate_crc32 (le_bytes 8 h.msg_id)) (calculate_crc32 (le_bytes 2 h.msg_type)))
        (calculate_crc32 (le_bytes 4 h.receiver_id)) (calculate_crc32 (le_bytes 4 h.sender_id)))

header_checksum-update_checksum :
    (m : Message) → header_checksum (update_checksum m).header ≡ header_checksum m.header
unfolding header_checksum update_checksum
header_checksum-update_checksum m = refl

checksum-swapped :
    (m target : Message)
    → calculate_checksum
        (record target { header = swapped (update_checksum m).header; payload = m.payload })
      ≡ calculate_checksum m
unfolding calculate_checksum update_checksum
checksum-swapped m target =
    let s = header_checksum-swapped (update_checksum m).header in
    ap (λ (c : ℕ). if no_bytes m.payload then c else bit_xor c (calculate_crc32 m.payload))
      (s ∙ header_checksum-update_checksum m)

-- If sender and receiver are exchanged on the way, the message is accepted all the same.
pub deserialize-swapped :
    (m target : Message)
    → IsSendable m
    → (let h = swapped (serialize m).1.header in
        deserialize (le_bytes 4 message_header_magic ++ (header_bytes h ++ m.payload)) target
        ≡ (true, record target { header = h; payload = m.payload }))
unfolding serialize update_checksum
deserialize-swapped m target s =
    let h = swapped (update_checksum m).header in
    deserialize-framed h m.payload target (
      replaced-Fits m.header m.header.receiver_id m.header.sender_id (calculate_checksum m) s.fits
        s.fits.receiver_id_fits s.fits.sender_id_fits (calculate_checksum_bound m s.of_bytes))
    ∙ accepted h m.payload target s.named s.sized s.few_retries (checksum-swapped m target)
