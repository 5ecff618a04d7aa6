-- ===== src/Persistence/RoundTrip.antt =====
-- Shared/MessageQueue/MessagePersistence.cpp: a record is read back as the message it was made of.
use mathlib.Core.List.{append_assoc, append-nil}
use helianthus.Prelude.{
  ℕ, ◌%◌, ◌^◌, ◌<◌, ◌≡◌, refl, sym, ap, ◌∙◌, none, some, List, [], ◌∷◌, ◌++◌, arith, u32_mod,
  u64_mod, le_bytes, length-le_bytes, le_value-le_bytes, length, length-append, take, drop,
  take-length_append, drop-length_append, Name, find,
}
use helianthus.Persistence.Records.{
  StoredMessage, append_string, append_properties, serialize_message, ◌>>=◌, read_bytes, read_pod,
  read_string, emplace, read_properties, unknown_reason, text_plain, utf8, deserialize_message,
}

-- The keys of the properties are apart from one another, and from those read before.
unfoldable pub Apart : List (Name × Name) → List (Name × Name) → Type 0
Apart [] before = Unit
Apart ((k, v) ∷ ps) before = (find k before ≡ none) × Apart ps (before ++ ((k, v) ∷ []))

unfoldable pub ShortProperties : List (Name × Name) → Type 0
ShortProperties [] = Unit
ShortProperties ((k, v) ∷ ps) = (length k < u32_mod) × (length v < u32_mod) × ShortProperties ps

-- The fields fit their types, and a map stands behind the properties.
pub record Fits (m : StoredMessage) : Type 0 where
  pub id_fits : m.id < u64_mod
  pub kind_fits : m.kind < 256
  pub priority_fits : m.priority < 256
  pub delivery_fits : m.delivery < 256
  pub timestamp_fits : m.timestamp < u64_mod
  pub expire_time_fits : m.expire_time < u64_mod
  pub retry_count_fits : m.retry_count < u32_mod
  pub max_retries_fits : m.max_retries < u32_mod
  pub status_fits : m.status < 256
  pub payload_fits : length m.payload < u32_mod
  pub few_properties : length m.properties < u32_mod
  pub short_properties : ShortProperties m.properties
  pub apart : Apart m.properties []

read_bytes-append :
    (size : ℕ) (bytes rest : List ℕ)
    → length bytes ≡ size
    → read_bytes size (bytes ++ rest) ≡ some (bytes, rest)
unfolding read_bytes
read_bytes-append size bytes rest h =
    let l = length-append bytes rest in
    let t : take size (bytes ++ rest) ≡ bytes =
      ap (λ (n : ℕ). take n (bytes ++ rest)) (sym h) ∙ take-length_append bytes rest in
    let d : drop size (bytes ++ rest) ≡ rest =
      ap (λ (n : ℕ). drop n (bytes ++ rest)) (sym h) ∙ drop-length_append bytes rest in
    ground arith

pub read_pod-le_bytes :
    (k n : ℕ) (rest : List ℕ) → n < 256 ^ k → read_pod k (le_bytes k n ++ rest) ≡ some (n, rest)
unfolding read_pod
read_pod-le_bytes k n rest h =
    let e = read_bytes-append k (le_bytes k n) rest (length-le_bytes k n) in
    rw (◌>>=◌, e, le_value-le_bytes k n h) refl

take_all : (s : List ℕ) → take (length s) s ≡ s
take_all s = ap (take (length s)) (sym (append-nil s)) ∙ take-length_append s []

pub read_string-append_string :
    (s rest : List ℕ) → length s < u32_mod → read_string (append_string s ++ rest) ≡ some (s, rest)
unfolding read_string append_string
read_string-append_string s rest h =
    let n = length s % u32_mod in
    let t : take (length s % u32_mod) s ≡ s =
      ap (λ (k : ℕ). take k s) (let l : n ≡ length s = omega arith in l) ∙ take_all s in
    let a = append_assoc (le_bytes 4 n) s rest in
    let e = read_pod-le_bytes 4 n (s ++ rest) (omega arith) in
    let b = read_bytes-append n s rest (omega arith) in rw (t, a, ◌>>=◌, e, b) refl

pub read_properties-append_properties :
    (ps before : List (Name × Name)) (rest : List ℕ)
    → ShortProperties ps
    → Apart ps before
    → read_properties (length ps) before (append_properties ps ++ rest) ≡ some (before ++ ps, rest)
unfolding read_properties append_properties ShortProperties Apart
read_properties-append_properties [] before rest s a =
    ap (λ l. some (l, rest)) (sym (append-nil before))
read_properties-append_properties ((k, v) ∷ ps) before rest s a =
    let r = append_properties ps ++ rest in
    let e1 = append_assoc (append_string k) (append_string v ++ append_properties ps) rest in
    let e2 = append_assoc (append_string v) (append_properties ps) rest in
    let e3 = read_string-append_string k (append_string v ++ r) s.0 in
    let e4 = read_string-append_string v r s.1 in
    let e5 : emplace k v before ≡ before ++ ((k, v) ∷ []) = rw (emplace, a.0) refl in
    rw (e1, e2, ◌>>=◌, e3, e4, e5)
      (read_properties-append_properties ps (before ++ ((k, v) ∷ [])) rest s.2 a.1
        ∙ ap (λ l. some (l, rest)) (append_assoc before ((k, v) ∷ []) ps))

-- What a record keeps of a message: six fields of the header have their default values, and the
-- payload is a text.
abbrev pub recorded : StoredMessage → StoredMessage
recorded m = record m {
  next_retry_time = 0;
  dead_letter_reason = unknown_reason;
  original_queue = [];
  source_id = [];
  target_id = [];
  correlation_id = [];
  content_type = text_plain;
  encoding = utf8;
}

-- A message whose numbers fit their types, whose texts are below 2^32 bytes, and which has fewer
-- than 2^32 properties, of distinct names, is read back from its record, whatever follows, except
-- that its next retry time, dead-letter reason, original queue, source, target and correlation id
-- have their default values and its payload is of type text/plain in utf-8; every other modelled
-- field is the message's.
pub deserialize_message-serialize_message :
    (m : StoredMessage) (rest : List ℕ)
    → Fits m
    → deserialize_message (serialize_message m ++ rest) ≡ some (recorded m, rest)
unfolding deserialize_message serialize_message
deserialize_message-serialize_message m rest f =
    let count : ℕ = length m.properties % u32_mod in
    let n : length m.properties % u32_mod ≡ length m.properties = omega (arith, f.few_properties) in
    let r11 = append_string m.payload ++ rest in
    let r10 = le_bytes 1 m.status ++ r11 in
    let r9 = append_properties m.properties ++ r10 in
    let r8 = le_bytes 4 count ++ r9 in
    let r7 = le_bytes 4 m.max_retries ++ r8 in
    let r6 = le_bytes 4 m.retry_count ++ r7 in
    let r5 = le_bytes 8 m.expire_time ++ r6 in
    let r4 = le_bytes 8 m.timestamp ++ r5 in
    let r3 = le_bytes 1 m.delivery ++ r4 in
    let r2 = le_bytes 1 m.priority ++ r3 in
    let r1 = le_bytes 1 m.kind ++ r2 in
    let e1 = read_pod-le_bytes 8 m.id r1 (omega (arith, f.id_fits)) in
    let e2 = read_pod-le_bytes 1 m.kind r2 (omega (arith, f.kind_fits)) in
    let e3 = read_pod-le_bytes 1 m.priority r3 (omega (arith, f.priority_fits)) in
    let e4 = read_pod-le_bytes 1 m.delivery r4 (omega (arith, f.delivery_fits)) in
    let e5 = read_pod-le_bytes 8 m.timestamp r5 (omega (arith, f.timestamp_fits)) in
    let e6 = read_pod-le_bytes 8 m.expire_time r6 (omega (arith, f.expire_time_fits)) in
    let e7 = read_pod-le_bytes 4 m.retry_count r7 (omega (arith, f.retry_count_fits)) in
    let e8 = read_pod-le_bytes 4 m.max_retries r8 (omega (arith, f.max_retries_fits)) in
    let e9 = read_pod-le_bytes 4 count r9 (omega arith) in
    let e10 =
      ap (λ (k : ℕ). read_properties k [] r9) n
      ∙ read_properties-append_properties m.properties [] r10 f.short_properties f.apart in
    let e11 = read_pod-le_bytes 1 m.status r11 (omega (arith, f.status_fits)) in
    let e12 = read_string-append_string m.payload rest f.payload_fits in
    simp append_assoc (rw (◌>>=◌, e1, e2, e3, e4, e5, e6, e7, e8, e9, e10, e11, e12) refl)
