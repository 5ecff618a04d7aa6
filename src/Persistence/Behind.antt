-- ===== src/Persistence/Behind.antt =====
-- Shared/MessageQueue/MessagePersistence.cpp: WriteMessageToFile notes the position of the file, which
-- a load has moved; the bytes go to the end of the file.
use mathlib.Core.List.{append-nil}
use mathlib.Core.Path.{subst}
use helianthus.Prelude.{
  ℕ, ◌+◌, ◌%◌, ◌≡◌, refl, sym, ap, ◌∙◌, ◌≢◌, Bool, true, false, none, some, List, [], ◌++◌, arith,
  u32_mod, le_bytes, length-le_bytes, find_id, put_id, find_id-put_id, length, length-append, Name,
}
use helianthus.MessageQueue.Types.{QueueResult}
use helianthus.Persistence.Records.{StoredMessage, serialize_message}
use helianthus.Persistence.RoundTrip.{recorded}
use helianthus.Persistence.DataFile.{tellp}
use helianthus.Persistence.Store.{
  FileBasedPersistence, record_bytes, index_of, stored, save_message, loaded, load_message,
}
use helianthus.Persistence.Offsets.{contents, IsAtEnd, tellp-IsAtEnd, tellp-open}
use helianthus.Persistence.Kept.{reading, StandsAt, IsStorable}
use helianthus.Persistence.Loaded.{
  index_entry, initialized-stored, find-stored, failed-stored, contents-stored, StandsAt-end,
  find_id-put_id_self,
}
use helianthus.Persistence.Saved.{StandsAt-append, load_message-StandsAt, save_message-initialized}

length-record_bytes :
    (m : StoredMessage) → length (record_bytes m) ≡ 4 + length (serialize_message m)
length-record_bytes m =
    let n = length (serialize_message m) % u32_mod in
    length-append (le_bytes 4 n) (serialize_message m)
    ∙ ap (λ (k : ℕ). k + length (serialize_message m)) (length-le_bytes 4 n)

-- The record that was appended after another one stands behind it.
StandsAt-behind :
    (m n : StoredMessage) (c : List ℕ)
    → StandsAt n
        (length c + 4 + length (serialize_message m))
        ((c ++ record_bytes m) ++ record_bytes n)
StandsAt-behind m n c =
    let l : length (c ++ record_bytes m) ≡ length c + 4 + length (serialize_message m) =
      omega (arith, length-append c (record_bytes m), length-record_bytes m) in
    subst (λ (k : ℕ). StandsAt n k ((c ++ record_bytes m) ++ record_bytes n)) l
      (StandsAt-end n (c ++ record_bytes m))

-- What is saved when the file is at the record of another message is entered there.
load_message-moved :
    (now garbage off : ℕ) (middle late : Bool) (name : Name) (m n : StoredMessage) (c : List ℕ)
    (p : FileBasedPersistence)
    → p.initialized ≡ true
    → p.message_data_file ≡ reading c off
    → IsStorable m
    → StandsAt m off c
    → (let answer =
          load_message garbage name n.id (save_message now middle late name (some n) p).1 in
        (answer.0 ≡ QueueResult.success) × (answer.1 ≡ some (recorded m)))
unfolding loaded index_entry
load_message-moved now garbage off middle late name m n c p i f s at =
    let q = stored now middle late name n p in
    let open_file : p.message_data_file.failed ≡ false = ap (λ x. x.failed) f in
    let here : tellp p.message_data_file ≡ off =
      tellp-open p.message_data_file open_file
      ∙ ap (λ x. x.position + length x.buffer) f
      ∙ (omega arith) in
    let bytes : contents q.message_data_file ≡ c ++ record_bytes n =
      contents-stored now middle late name n p open_file
      ∙ ap (λ x. contents x ++ record_bytes n) f
      ∙ ap (λ xs. xs ++ record_bytes n) (append-nil c) in
    let e = index_entry now name n (tellp p.message_data_file) in
    let old = index_of name p.queue_message_index in
    let there =
      subst (λ (k : ℕ). StandsAt m k (contents q.message_data_file)) (sym here)
        (subst (StandsAt m off) (sym bytes) (StandsAt-append m off c (record_bytes n) at)) in
    let l =
      ap (λ x. load_message garbage name n.id x.1)
        (save_message-initialized now middle late name n p i)
      ∙ load_message-StandsAt garbage name n.id m q (put_id n.id e old) e
          (initialized-stored now middle late name n p ∙ i)
          (failed-stored now middle late name n p ∙ open_file) s
          (find-stored now middle late name n p) (find_id-put_id_self n.id e old) refl there in
    (ap (λ r. r.0) l, ap (λ r. r.1) l)

-- Two messages that are stored one after the other, and a load of the first.
module _ (now garbage : ℕ) (middle late : Bool) (name : Name) (m n : StoredMessage)
    (p : FileBasedPersistence) (i : p.initialized ≡ true) (h : IsAtEnd p.message_data_file)
    (s : IsStorable m) (ne : n.id ≢ m.id) where
  abbrev both : FileBasedPersistence
  both = stored now middle late name n (stored now middle late name m p)

  contents-both :
      contents both.message_data_file
      ≡ (contents p.message_data_file ++ record_bytes m) ++ record_bytes n
  contents-both =
      contents-stored now middle late name n (stored now middle late name m p)
        (failed-stored now middle late name m p ∙ h.1)
      ∙ ap (λ xs. xs ++ record_bytes n) (contents-stored now middle late name m p h.1)

  initialized-both : both.initialized ≡ true
  initialized-both =
      initialized-stored now middle late name n (stored now middle late name m p)
      ∙ initialized-stored now middle late name m p
      ∙ i

  load_first :
      load_message garbage name m.id both
      ≡ loaded
          (
            some (recorded m),
            reading
                (contents both.message_data_file)
                (length (contents p.message_data_file) + 4 + length (serialize_message m)),
          )
          both
  unfolding index_entry
  load_first =
      let c = contents p.message_data_file in
      let q = stored now middle late name m p in
      let e1 = index_entry now name m (tellp p.message_data_file) in
      let e2 = index_entry now name n (tellp q.message_data_file) in
      let old = put_id m.id e1 (index_of name p.queue_message_index) in
      let same : index_of name q.queue_message_index ≡ old =
        ap (λ o. elim o [ none ↦ [] | some l ↦ l ]) (find-stored now middle late name m p) in
      let at_first : find_id m.id (put_id n.id e2 (index_of name q.queue_message_index)) ≡ some e1 =
        let k = find_id-put_id n.id m.id e2 (index_of name q.queue_message_index) in
        let first =
          ap (find_id m.id) same
          ∙ find_id-put_id_self m.id e1 (index_of name p.queue_message_index) in
        ground arith in
      let there : StandsAt m (tellp p.message_data_file) (contents both.message_data_file) =
        subst (λ (k : ℕ). StandsAt m k (contents both.message_data_file))
          (sym (tellp-IsAtEnd p.message_data_file h))
          (subst (StandsAt m (length c)) (sym contents-both) (
            StandsAt-append m (length c) (c ++ record_bytes m) (record_bytes n)
              (StandsAt-end m c))) in
      load_message-StandsAt garbage name m.id m both
        (put_id n.id e2 (index_of name q.queue_message_index)) e1 initialized-both
        (failed-stored now middle late name n q ∙ failed-stored now middle late name m p ∙ h.1) s
        (find-stored now middle late name n q) at_first refl there
      ∙ ap
          (λ (k : ℕ).
            loaded
              (
                some (recorded m),
                reading (contents both.message_data_file) (k + 4 + length (serialize_message m)),
              )
              both)
          (tellp-IsAtEnd p.message_data_file h)

-- On an initialized store with its file at the end, two messages of different ids are saved, whose
-- fields fit their types and whose records are below 2^32 bytes; the first is loaded and a third is
-- saved: a load of the third answers with the second, as far as a record keeps it.
pub save_message-load_message :
    (now garbage : ℕ) (middle late : Bool) (name : Name) (first second third : StoredMessage)
    (p : FileBasedPersistence)
    → p.initialized ≡ true
    → IsAtEnd p.message_data_file
    → IsStorable first
    → IsStorable second
    → second.id ≢ first.id
    → (let p1 = (save_message now middle late name (some first) p).1 in
        let p2 = (save_message now middle late name (some second) p1).1 in
        let p3 = (load_message garbage name first.id p2).2 in
        let p4 = (save_message now middle late name (some third) p3).1 in
        let answer = load_message garbage name third.id p4 in
        (answer.0 ≡ QueueResult.success) × (answer.1 ≡ some (recorded second)))
unfolding loaded
save_message-load_message now garbage middle late name first second third p i h s1 s2 ne =
    let q1 = stored now middle late name first p in
    let q2 = both now garbage middle late name first second p i h s1 ne in
    let off = length (contents p.message_data_file) + 4 + length (serialize_message first) in
    let read_once : FileBasedPersistence = record q2 {
      message_data_file = reading (contents q2.message_data_file) off;
    } in
    let e1 = ap (λ r. r.1) (save_message-initialized now middle late name first p i) in
    let e2 =
      ap (λ x. (save_message now middle late name (some second) x).1) e1
      ∙ ap (λ r. r.1)
          (save_message-initialized now middle late name second q1
            (initialized-stored now middle late name first p ∙ i)) in
    let e3 : (load_message garbage name first.id
          (save_message now middle late name (some second)
            (save_message now middle late name (some first) p).1).1).2
        ≡ read_once =
      ap (λ x. (load_message garbage name first.id x).2) e2
      ∙ ap (λ r. r.2) (load_first now garbage middle late name first second p i h s1 ne) in
    let at =
      subst (StandsAt second off)
        (sym (contents-both now garbage middle late name first second p i h s1 ne))
        (StandsAt-behind first second (contents p.message_data_file)) in
    let last =
      load_message-moved now garbage off middle late name second third
        (contents q2.message_data_file) read_once
        (initialized-both now garbage middle late name first second p i h s1 ne) refl s2 at in
    let l =
      ap
        (λ x.
          load_message garbage name third.id (save_message now middle late name (some third) x).1)
        e3 in
    (ap (λ r. r.0) l ∙ last.0, ap (λ r. r.1) l ∙ last.1)
