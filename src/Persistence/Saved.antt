-- ===== src/Persistence/Saved.antt =====
-- Shared/MessageQueue/MessagePersistence.cpp: a saved message is loaded, whatever is saved after it.
use mathlib.Core.List.{append_assoc}
use mathlib.Core.Path.{subst}
use helianthus.Prelude.{
  ℕ, ◌+◌, ◌%◌, ◌≡◌, refl, sym, ap, ◌∙◌, ◌≢◌, Bool, true, false, not, Option, none, some, List, [],
  ◌∷◌, ◌++◌, arith, u32_mod, le_bytes, length-le_bytes, find_id, put_id, find_id-put_id, length,
  length-append, drop, length-drop, drop-append_le, Name, find, if◌then◌else◌,
}
use helianthus.MessageQueue.Types.{QueueResult}
use helianthus.Persistence.Records.{StoredMessage, serialize_message}
use helianthus.Persistence.RoundTrip.{recorded}
use helianthus.Persistence.DataFile.{tellp}
use helianthus.Persistence.Store.{
  MessageIndexEntry, Index, FileBasedPersistence, record_bytes, read_message_from_file, index_of,
  stored, save_message, Item, store_all, save_batch_messages, load_entry, Answer, loaded,
  load_message,
}
use helianthus.Persistence.Offsets.{contents, IsAtEnd}
use helianthus.Persistence.Kept.{reading, StandsAt, IsStorable, read_message_from_file-StandsAt}
use helianthus.Persistence.Loaded.{
  IsKept, Others, index_entry, initialized-stored, find-stored, IsAtEnd-stored, contents-stored,
  IsKept-stored,
}

pub StandsAt-append :
    (m : StoredMessage) (off : ℕ) (c after : List ℕ)
    → StandsAt m off c
    → StandsAt m off (c ++ after)
StandsAt-append m off c after (rest, e) =
    let bytes = serialize_message m in
    let size = le_bytes 4 (length bytes % u32_mod) in
    let l : length (drop off c) ≡ 4 + length bytes + length rest =
      ap length e
      ∙ length-append (size ++ bytes) rest
      ∙ ap (λ (n : ℕ). n + length rest)
          (length-append size bytes
            ∙ ap (λ (n : ℕ). n + length bytes) (length-le_bytes 4 (length bytes % u32_mod))) in
    let d = length-drop off c in
    (
      rest ++ after,
      drop-append_le off c after (omega arith)
          ∙ ap (λ xs. xs ++ after) e
          ∙ append_assoc (record_bytes m) rest after,
    )

-- Another message that is stored under the same queue.
IsKept-stored_ne :
    (now : ℕ) (middle late : Bool) (name : Name) (m other : StoredMessage)
    (p : FileBasedPersistence)
    → IsAtEnd p.message_data_file
    → other.id ≢ m.id
    → IsKept name m p
    → IsKept name m (stored now middle late name other p)
unfolding IsKept
IsKept-stored_ne now middle late name m other p h ne (entries, e, at_queue, at_id, alive, at) =
    let e2 = index_entry now name other (tellp p.message_data_file) in
    let old = index_of name p.queue_message_index in
    let i = find_id-put_id other.id m.id e2 old in
    let same : old ≡ entries = ap (λ o. elim o [ none ↦ [] | some l ↦ l ]) at_queue in
    let at_old : find_id m.id old ≡ some e = ap (find_id m.id) same ∙ at_id in
    (
      put_id other.id e2 old,
      e,
      find-stored now middle late name other p,
      ground arith,
      alive,
      subst (StandsAt m e.file_offset) (sym (contents-stored now middle late name other p h.1))
          (StandsAt-append m e.file_offset (contents p.message_data_file) (record_bytes other) at),
    )

IsAtEnd-store_all :
    (now : ℕ) (name : Name) (items : List Item) (p : FileBasedPersistence)
    → IsAtEnd p.message_data_file
    → IsAtEnd (store_all now name items p).message_data_file
unfolding store_all
IsAtEnd-store_all now name [] p h = h
IsAtEnd-store_all now name ((middle, late, none) ∷ items) p h = IsAtEnd-store_all now name items p h
IsAtEnd-store_all now name ((middle, late, some m) ∷ items) p h =
    IsAtEnd-store_all now name items (stored now middle late name m p)
      (IsAtEnd-stored now middle late name m p h)

IsKept-store_all :
    (now : ℕ) (name : Name) (m : StoredMessage) (items : List Item) (p : FileBasedPersistence)
    → IsAtEnd p.message_data_file
    → Others m.id items
    → IsKept name m p
    → IsKept name m (store_all now name items p)
unfolding store_all
IsKept-store_all now name m [] p h o k = k
IsKept-store_all now name m ((middle, late, none) ∷ items) p h o k =
    IsKept-store_all now name m items p h o k
IsKept-store_all now name m ((middle, late, some other) ∷ items) p h o k =
    IsKept-store_all now name m items (stored now middle late name other p)
      (IsAtEnd-stored now middle late name other p h) o.1
      (IsKept-stored_ne now middle late name m other p h o.0 k)

initialized-store_all :
    (now : ℕ) (name : Name) (items : List Item) (p : FileBasedPersistence)
    → (store_all now name items p).initialized ≡ p.initialized
unfolding store_all
initialized-store_all now name [] p = refl
initialized-store_all now name ((middle, late, none) ∷ items) p =
    initialized-store_all now name items p
initialized-store_all now name ((middle, late, some m) ∷ items) p =
    initialized-store_all now name items (stored now middle late name m p)
    ∙ initialized-stored now middle late name m p

-- The three tests of a load.
load_message-found :
    (garbage : ℕ) (name : Name) (id : ℕ) (p : FileBasedPersistence) (entries : Index)
    (e : MessageIndexEntry)
    → p.initialized ≡ true
    → find name p.queue_message_index ≡ some entries
    → find_id id entries ≡ some e
    → load_message garbage name id p ≡ load_entry garbage e p
unfolding load_message
load_message-found garbage name id p entries e i at_queue at_id =
    let by_entry : Option MessageIndexEntry → Answer = λ o. elim o [
      | none ↦ (QueueResult.message_not_found, none, p)
      | some x ↦ load_entry garbage x p
    ] in
    let by_queue : Option Index → Answer = λ o. elim o [
      | none ↦ (QueueResult.queue_not_found, none, p)
      | some l ↦ by_entry (find_id id l)
    ] in
    ap
      (λ b.
        if not b
        then (QueueResult.internal_error, none, p)
        else by_queue (find name p.queue_message_index))
      i
    ∙ ap by_queue at_queue
    ∙ ap by_entry at_id

load_entry-StandsAt :
    (garbage : ℕ) (m : StoredMessage) (p : FileBasedPersistence) (e : MessageIndexEntry)
    → p.message_data_file.failed ≡ false
    → IsStorable m
    → e.is_deleted ≡ false
    → StandsAt m e.file_offset (contents p.message_data_file)
    → load_entry garbage e p
      ≡ loaded
          (
            some (recorded m),
            reading
                (contents p.message_data_file)
                (e.file_offset + 4 + length (serialize_message m)),
          )
          p
unfolding load_entry
load_entry-StandsAt garbage m p e f s alive at =
    ap
      (λ b.
        if b
        then (QueueResult.message_not_found, none, p)
        else loaded (read_message_from_file garbage e.file_offset p.message_data_file) p)
      alive
    ∙ ap (λ r. loaded r p)
        (read_message_from_file-StandsAt garbage e.file_offset m p.message_data_file f s at)

-- The record that an entry names is loaded; the file is left behind its record.
pub load_message-StandsAt :
    (garbage : ℕ) (name : Name) (id : ℕ) (m : StoredMessage) (p : FileBasedPersistence)
    (entries : Index) (e : MessageIndexEntry)
    → p.initialized ≡ true
    → p.message_data_file.failed ≡ false
    → IsStorable m
    → find name p.queue_message_index ≡ some entries
    → find_id id entries ≡ some e
    → e.is_deleted ≡ false
    → StandsAt m e.file_offset (contents p.message_data_file)
    → load_message garbage name id p
      ≡ loaded
          (
            some (recorded m),
            reading
                (contents p.message_data_file)
                (e.file_offset + 4 + length (serialize_message m)),
          )
          p
load_message-StandsAt garbage name id m p entries e i f s at_queue at_id alive at =
    load_message-found garbage name id p entries e i at_queue at_id
    ∙ load_entry-StandsAt garbage m p e f s alive at

pub save_message-initialized :
    (now : ℕ) (middle late : Bool) (name : Name) (m : StoredMessage) (p : FileBasedPersistence)
    → p.initialized ≡ true
    → save_message now middle late name (some m) p
      ≡ (QueueResult.success, stored now middle late name m p)
unfolding save_message
save_message-initialized now middle late name m p i =
    ap
      (λ b.
        if b
        then (QueueResult.success, stored now middle late name m p)
        else (QueueResult.internal_error, p))
      i

save_batch_messages-initialized :
    (now : ℕ) (name : Name) (items : List Item) (p : FileBasedPersistence)
    → p.initialized ≡ true
    → save_batch_messages now name items p ≡ (QueueResult.success, store_all now name items p)
unfolding save_batch_messages
save_batch_messages-initialized now name items p i =
    ap
      (λ b.
        if b
        then (QueueResult.success, store_all now name items p)
        else (QueueResult.internal_error, p))
      i

-- On an initialized store with its file at the end, a message whose fields fit their types and
-- whose record is below 2^32 bytes is answered, as far as a record keeps it, by a load of its id
-- after it was saved, if what the batch saved after it has other ids.
pub load_message-save_batch_messages :
    (now now2 garbage : ℕ) (middle late : Bool) (name : Name) (m : StoredMessage)
    (items : List Item) (p : FileBasedPersistence)
    → p.initialized ≡ true
    → IsAtEnd p.message_data_file
    → IsStorable m
    → Others m.id items
    → (let saved = (save_message now middle late name (some m) p).1 in
        let answer = load_message garbage name m.id (save_batch_messages now2 name items saved).1 in
        (answer.0 ≡ QueueResult.success) × (answer.1 ≡ some (recorded m)))
unfolding IsKept loaded
load_message-save_batch_messages now now2 garbage middle late name m items p i h s o =
    let q = stored now middle late name m p in
    let k = IsKept-stored now middle late name m p h in
    let a = IsAtEnd-stored now middle late name m p h in
    let all = store_all now2 name items q in
    let j : q.initialized ≡ true = initialized-stored now middle late name m p ∙ i in
    let (entries, entry, at_queue, at_id, alive, at) = IsKept-store_all now2 name m items q a o k in
    let e =
      load_message-StandsAt garbage name m.id m all entries entry
        (initialized-store_all now2 name items q ∙ j) (IsAtEnd-store_all now2 name items q a).1 s
        at_queue at_id alive at in
    let saved =
      ap (λ x. (save_batch_messages now2 name items x.1).1)
        (save_message-initialized now middle late name m p i)
      ∙ ap (λ x. x.1) (save_batch_messages-initialized now2 name items q j) in
    let l = ap (load_message garbage name m.id) saved ∙ e in (ap (λ r. r.0) l, ap (λ r. r.1) l)
