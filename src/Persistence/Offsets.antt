-- ===== src/Persistence/Offsets.antt =====
-- Shared/MessageQueue/MessagePersistence.cpp: what is written to the file, and where.
use mathlib.Core.List.{append_assoc, append-nil}
use helianthus.Prelude.{
  ℕ, ◌+◌, ◌%◌, ◌≡◌, refl, sym, ap, ◌∙◌, Bool, true, false, List, [], ◌∷◌, ◌++◌, arith, u32_mod,
  le_bytes, length, length-append,
}
use helianthus.Persistence.Records.{StoredMessage, serialize_message}
use helianthus.Persistence.DataFile.{DataFile, tellp, flush, write}
use helianthus.Persistence.Store.{record_bytes, flush_if, write_message_to_file}

-- The bytes that are on the disk or on their way there.
abbrev pub contents : DataFile → List ℕ
contents f = f.disk ++ f.buffer

-- The position is the end of the file, and no read has failed.
abbrev pub IsAtEnd : DataFile → Type 0
IsAtEnd f = (f.position ≡ length f.disk) × (f.failed ≡ false)

pub contents-flush : (f : DataFile) → contents (flush f) ≡ contents f
unfolding flush
contents-flush f = by_buffer f.disk f.position f.failed f.buffer
  where
    by_buffer :
        (d : List ℕ) (n : ℕ) (b : Bool) (l : List ℕ)
        → contents (flush (record { disk = d; position = n; buffer = l; failed = b })) ≡ d ++ l
    by_buffer d n b [] = refl
    by_buffer d n b (x ∷ l) = append-nil (d ++ (x ∷ l))

pub IsAtEnd-flush : (f : DataFile) → IsAtEnd f → IsAtEnd (flush f)
unfolding flush
IsAtEnd-flush f h = by_buffer f.disk f.position f.failed f.buffer h.0 h.1
  where
    by_buffer :
        (d : List ℕ) (n : ℕ) (b : Bool) (l : List ℕ)
        → n ≡ length d
        → b ≡ false
        → IsAtEnd (flush (record { disk = d; position = n; buffer = l; failed = b }))
    by_buffer d n b [] p q = (p, q)
    by_buffer d n b (x ∷ l) p q = (sym (length-append d (x ∷ l)), q)

pub disk-flush : (f : DataFile) → (flush f).disk ≡ contents f
unfolding flush
disk-flush f = by_buffer f.disk f.position f.failed f.buffer
  where
    by_buffer :
        (d : List ℕ) (n : ℕ) (b : Bool) (l : List ℕ)
        → (flush (record { disk = d; position = n; buffer = l; failed = b })).disk ≡ d ++ l
    by_buffer d n b [] = sym (append-nil d)
    by_buffer d n b (x ∷ l) = refl

contents-flush_if : (b : Bool) (f : DataFile) → contents (flush_if b f) ≡ contents f
contents-flush_if true f = contents-flush f
contents-flush_if false f = refl

IsAtEnd-flush_if : (b : Bool) (f : DataFile) → IsAtEnd f → IsAtEnd (flush_if b f)
IsAtEnd-flush_if true f h = IsAtEnd-flush f h
IsAtEnd-flush_if false f h = h

contents-write :
    (bytes : List ℕ) (f : DataFile)
    → f.failed ≡ false
    → contents (write bytes f) ≡ contents f ++ bytes
unfolding write
contents-write bytes f h = let a = append_assoc f.disk f.buffer bytes in ground arith

IsAtEnd-write : (bytes : List ℕ) (f : DataFile) → IsAtEnd f → IsAtEnd (write bytes f)
unfolding write
IsAtEnd-write bytes f h = (ground arith, ground arith)

pub tellp-IsAtEnd : (f : DataFile) → IsAtEnd f → tellp f ≡ length (contents f)
unfolding tellp
tellp-IsAtEnd f h = let l = length-append f.disk f.buffer in ground arith

pub tellp-open : (f : DataFile) → f.failed ≡ false → tellp f ≡ f.position + length f.buffer
unfolding tellp
tellp-open f h = ground arith

failed-flush : (f : DataFile) → (flush f).failed ≡ f.failed
unfolding flush
failed-flush f = by_buffer f.disk f.position f.failed f.buffer
  where
    by_buffer :
        (d : List ℕ) (n : ℕ) (b : Bool) (l : List ℕ)
        → (flush (record { disk = d; position = n; buffer = l; failed = b })).failed ≡ b
    by_buffer d n b [] = refl
    by_buffer d n b (x ∷ l) = refl

failed-flush_if : (b : Bool) (f : DataFile) → (flush_if b f).failed ≡ f.failed
failed-flush_if true f = failed-flush f
failed-flush_if false f = refl

failed-write : (bytes : List ℕ) (f : DataFile) → (write bytes f).failed ≡ f.failed
unfolding write
failed-write bytes f = ground arith

-- A record that is written to a file on which no read has failed.
module _ (middle late : Bool) (m : StoredMessage) (f : DataFile) where
  pub offset-write_message_to_file : (write_message_to_file middle late m f).0 ≡ tellp f
  unfolding write_message_to_file
  offset-write_message_to_file = refl

  pub failed-write_message_to_file : (write_message_to_file middle late m f).1.failed ≡ f.failed
  unfolding write_message_to_file
  failed-write_message_to_file =
      let bytes = serialize_message m in
      let size = le_bytes 4 (length bytes % u32_mod) in
      failed-flush_if late (write bytes (flush_if middle (write size f)))
      ∙ failed-write bytes (flush_if middle (write size f))
      ∙ failed-flush_if middle (write size f)
      ∙ failed-write size f

  pub IsAtEnd-write_message_to_file : IsAtEnd f → IsAtEnd (write_message_to_file middle late m f).1
  unfolding write_message_to_file
  IsAtEnd-write_message_to_file h =
      let bytes = serialize_message m in
      let size = le_bytes 4 (length bytes % u32_mod) in
      IsAtEnd-flush_if late (write bytes (flush_if middle (write size f))) (
        IsAtEnd-write bytes (flush_if middle (write size f))
          (IsAtEnd-flush_if middle (write size f) (IsAtEnd-write size f h)))

  pub contents-write_message_to_file :
      f.failed ≡ false
      → contents (write_message_to_file middle late m f).1 ≡ contents f ++ record_bytes m
  unfolding write_message_to_file
  contents-write_message_to_file h =
      let bytes = serialize_message m in
      let size = le_bytes 4 (length bytes % u32_mod) in
      let f1 = flush_if middle (write size f) in
      contents-flush_if late (write bytes f1)
      ∙ contents-write bytes f1 (failed-flush_if middle (write size f) ∙ failed-write size f ∙ h)
      ∙ ap (λ l. l ++ bytes) (contents-flush_if middle (write size f) ∙ contents-write size f h)
      ∙ append_assoc (contents f) size bytes
