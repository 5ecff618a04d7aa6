-- ===== src/Persistence/Kept.antt =====
-- Shared/MessageQueue/MessagePersistence.cpp: a record is read from where it stands.
use mathlib.Core.List.{append_assoc, append-nil}
use helianthus.Prelude.{
  ℕ, zero, suc, ◌+◌, ◌-◌, ◌%◌, ◌<◌, ◌≡◌, refl, sym, ap, ◌∙◌, Bool, false, some, List, [], ◌∷◌, ◌++◌,
  arith, u32_mod, le_bytes, le_value, length-le_bytes, le_value-le_bytes, drop-le_bytes, length,
  length-append, take, drop, replicate, take-length_append, ltb,
}
use helianthus.Persistence.Records.{StoredMessage, serialize_message, deserialize_message}
use helianthus.Persistence.RoundTrip.{recorded, Fits, deserialize_message-serialize_message}
use helianthus.Persistence.DataFile.{DataFile, flush, seekg, read}
use helianthus.Persistence.Store.{record_bytes, read_message_from_file}
use helianthus.Persistence.Offsets.{contents}

-- A file with an empty buffer that is read from an offset on.
abbrev pub reading : List ℕ → ℕ → DataFile
reading c off = record { disk = c; position = off; buffer = []; failed = false }

seekg-reading : (off : ℕ) (f : DataFile) → f.failed ≡ false → seekg off f ≡ reading (contents f) off
unfolding seekg flush
seekg-reading off f h = by_buffer f.disk f.position f.failed f.buffer h
  where
    by_buffer :
        (d : List ℕ) (n : ℕ) (b : Bool) (l : List ℕ)
        → b ≡ false
        → seekg off (record { disk = d; position = n; buffer = l; failed = b })
          ≡ reading (d ++ l) off
    by_buffer d n b [] q = let e = append-nil d in ground arith
    by_buffer d n b (x ∷ l) q = ground arith

no_bytes : List ℕ
no_bytes = []

drop-nil : (n : ℕ) → drop n no_bytes ≡ no_bytes
unfolding no_bytes
drop-nil zero = refl
drop-nil (suc n) = refl

drop_add : (a b : ℕ) (xs : List ℕ) → drop (a + b) xs ≡ drop b (drop a xs)
unfolding no_bytes
drop_add zero b xs = ap (λ (n : ℕ). drop n xs) (let e : 0 + b ≡ b = omega arith in e)
drop_add (suc a) b [] = drop-nil (suc a + b) ∙ sym (drop-nil b)
drop_add (suc a) b (x ∷ xs) =
    ap (λ (n : ℕ). drop n (x ∷ xs)) (let e : suc a + b ≡ suc (a + b) = omega arith in e)
    ∙ drop_add a b xs

read-reading :
    (n off : ℕ) (c xs rest : List ℕ)
    → drop off c ≡ xs ++ rest
    → length xs ≡ n
    → read n (reading c off) ≡ (xs, reading c (off + n))
unfolding read
read-reading n off c xs rest e h =
    let l = length-append xs rest in
    let t : take n (xs ++ rest) ≡ xs =
      ap (λ (k : ℕ). take k (xs ++ rest)) (sym h) ∙ take-length_append xs rest in
    let long : ltb (length (xs ++ rest)) n ≡ false = ground arith in rw (e, long, t) refl

-- What stands at an offset: the record of a message.
abbrev pub StandsAt : StoredMessage → ℕ → List ℕ → Type 0
StandsAt m off c = (rest : List ℕ) × (drop off c ≡ record_bytes m ++ rest)

-- A message fits its record, and the record's size its four bytes.
pub record IsStorable (m : StoredMessage) : Type 0 where
  pub fits : Fits m
  pub short : length (serialize_message m) < u32_mod

pub read_message_from_file-StandsAt :
    (garbage off : ℕ) (m : StoredMessage) (f : DataFile)
    → f.failed ≡ false
    → IsStorable m
    → StandsAt m off (contents f)
    → read_message_from_file garbage off f
      ≡ (some (recorded m), reading (contents f) (off + 4 + length (serialize_message m)))
unfolding read_message_from_file
read_message_from_file-StandsAt garbage off m f h s at =
    let (rest, e) = at in
    let c = contents f in
    let bytes = serialize_message m in
    let n : length bytes % u32_mod ≡ length bytes = omega (arith, s.short) in
    let size = le_bytes 4 (length bytes % u32_mod) in
    let e1 : drop off c ≡ size ++ (bytes ++ rest) = e ∙ append_assoc size bytes rest in
    let k = seekg-reading off f h in
    let r1 =
      read-reading 4 off c size (bytes ++ rest) e1 (length-le_bytes 4 (length bytes % u32_mod)) in
    let v : le_value size ≡ length bytes =
      le_value-le_bytes 4 (length bytes % u32_mod) (omega arith) ∙ n in
    let e2 : drop (off + 4) c ≡ bytes ++ rest =
      drop_add off 4 c
      ∙ ap (drop 4) e1
      ∙ drop-le_bytes 4 (length bytes % u32_mod) (bytes ++ rest) in
    let r2 = read-reading (length bytes) (off + 4) c bytes rest e2 refl in
    let z : length bytes - length bytes ≡ 0 = omega arith in
    let d : deserialize_message (bytes ++ replicate (length bytes - length bytes) 0)
        ≡ some (recorded m, []) =
      ap (λ (x : ℕ). deserialize_message (bytes ++ replicate x 0)) z
      ∙ deserialize_message-serialize_message m [] s.fits in
    rw (k, r1, length-le_bytes 4 (length bytes % u32_mod), v, r2, d) refl
