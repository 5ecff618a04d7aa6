-- ===== src/Persistence/Store.antt =====
-- Shared/MessageQueue/MessagePersistence.cpp: FileBasedPersistence, its index and its messages. The
-- clock and what is decided elsewhere are arguments: whether the stream or the policy flushes after a
-- write, and what stands in a size that could not be read. The locks, the metrics, the log and the
-- queues' configurations are left out, and so is the half-read message that a load which failed leaves
-- behind; memory suffices.
use helianthus.Prelude.{
  ℕ, ◌+◌, ◌-◌, ◌%◌, Bool, true, false, not, Option, none, some, List, [], ◌∷◌, ◌++◌, u32_mod,
  le_bytes, le_value, find_id, put_id, length, replicate, Name, find, put, ◌==◌, if◌then◌else◌,
}
use helianthus.MessageQueue.Types.{QueueResult}
use helianthus.Persistence.Records.{StoredMessage, serialize_message, deserialize_message}
use helianthus.Persistence.DataFile.{DataFile, tellp, flush, write, seekg, read}

pub record MessageIndexEntry : Type 0 where
  pub id : ℕ
  pub queue_name : Name
  pub file_offset : ℕ
  pub message_size : ℕ
  pub timestamp : ℕ
  pub is_deleted : Bool

abbrev pub Index : Type 0
Index = List (ℕ × MessageIndexEntry)

pub record FileBasedPersistence : Type 0 where
  pub initialized : Bool
  pub message_data_file : DataFile
  pub queue_message_index : List (Name × Index)

-- A record in the file: its size, then its bytes.
abbrev pub record_bytes : StoredMessage → List ℕ
record_bytes m = le_bytes 4 (length (serialize_message m) % u32_mod) ++ serialize_message m

abbrev pub flush_if : Bool → DataFile → DataFile
flush_if b f = if b then flush f else f

-- The offset and the file. The stream may flush after each write.
unfoldable pub write_message_to_file : Bool → Bool → StoredMessage → DataFile → ℕ × DataFile
unfolding tellp write flush
write_message_to_file middle late m f =
    let bytes = serialize_message m in
    let f1 = flush_if middle (write (le_bytes 4 (length bytes % u32_mod)) f) in
    (tellp f, flush_if late (write bytes f1))

-- A size that was not read whole is whatever the memory held; missing data are zeros.
unfoldable pub read_message_from_file : ℕ → ℕ → DataFile → Option StoredMessage × DataFile
unfolding seekg read
read_message_from_file garbage offset f =
    let (bs, f1) = read 4 (seekg offset f) in
    let size = if length bs == 4 then le_value bs else garbage in
    let (ds, f2) = read size f1 in
    (
      elim (deserialize_message (ds ++ replicate (size - length ds) 0)) [
        | none ↦ none
        | some (m, rest) ↦ some m
      ],
      f2,
    )

abbrev pub index_of : Name → List (Name × Index) → Index
index_of name idx = elim (find name idx) [ none ↦ [] | some entries ↦ entries ]

unfoldable pub update_message_index :
    ℕ → Name → ℕ → ℕ → ℕ → FileBasedPersistence → FileBasedPersistence
update_message_index now name id offset size p = record p {
  queue_message_index =
      put name
        (put_id id
          (record {
            id = id;
            queue_name = name;
            file_offset = offset;
            message_size = size;
            timestamp = now;
            is_deleted = false;
          })
          (index_of name p.queue_message_index))
        p.queue_message_index;
}

-- Writes a message and enters it into the index.
unfoldable pub stored :
    ℕ → Bool → Bool → Name → StoredMessage → FileBasedPersistence → FileBasedPersistence
unfolding write_message_to_file update_message_index
stored now middle late name m p =
    let (offset, f) = write_message_to_file middle late m p.message_data_file in
    update_message_index now name m.id offset (length m.payload)
      (record p { message_data_file = f })

unfoldable pub save_message :
    ℕ
    → Bool
    → Bool
    → Name
    → Option StoredMessage
    → FileBasedPersistence
    → QueueResult × FileBasedPersistence
unfolding stored
save_message now middle late name none p = (QueueResult.internal_error, p)
save_message now middle late name (some m) p =
    if p.initialized
    then (QueueResult.success, stored now middle late name m p)
    else (QueueResult.internal_error, p)

-- A message in a batch, with what the stream decides at it.
abbrev pub Item : Type 0
Item = Bool × Bool × Option StoredMessage

unfoldable pub store_all : ℕ → Name → List Item → FileBasedPersistence → FileBasedPersistence
unfolding stored
store_all now name [] p = p
store_all now name ((middle, late, none) ∷ items) p = store_all now name items p
store_all now name ((middle, late, some m) ∷ items) p =
    store_all now name items (stored now middle late name m p)

unfoldable pub save_batch_messages :
    ℕ → Name → List Item → FileBasedPersistence → QueueResult × FileBasedPersistence
unfolding store_all
save_batch_messages now name items p =
    if p.initialized
    then (QueueResult.success, store_all now name items p)
    else (QueueResult.internal_error, p)

abbrev pub Answer : Type 0
Answer = QueueResult × Option StoredMessage × FileBasedPersistence

-- The answer of a load that has read from the file.
unfoldable pub loaded : Option StoredMessage × DataFile → FileBasedPersistence → Answer
loaded (none, f) p = (QueueResult.invalid_parameter, none, record p { message_data_file = f })
loaded (some m, f) p = (QueueResult.success, some m, record p { message_data_file = f })

-- Reads the message that an entry names.
unfoldable pub load_entry : ℕ → MessageIndexEntry → FileBasedPersistence → Answer
unfolding loaded read_message_from_file
load_entry garbage e p =
    if e.is_deleted
    then (QueueResult.message_not_found, none, p)
    else loaded (read_message_from_file garbage e.file_offset p.message_data_file) p

unfoldable pub load_message : ℕ → Name → ℕ → FileBasedPersistence → Answer
unfolding load_entry
load_message garbage name id p =
    if not p.initialized
    then (QueueResult.internal_error, none, p)
    else elim (find name p.queue_message_index) [
      | none ↦ (QueueResult.queue_not_found, none, p)
      | some entries ↦ elim (find_id id entries) [
        | none ↦ (QueueResult.message_not_found, none, p)
        | some e ↦ load_entry garbage e p
      ]
    ]

unfoldable pub delete_message : Name → ℕ → FileBasedPersistence → QueueResult × FileBasedPersistence
delete_message name id p =
    if not p.initialized
    then (QueueResult.internal_error, p)
    else elim (find name p.queue_message_index) [
      | none ↦ (QueueResult.queue_not_found, p)
      | some entries ↦ elim (find_id id entries) [
        | none ↦ (QueueResult.message_not_found, p)
        | some e ↦ (
          QueueResult.success,
          record p {
            queue_message_index =
                put name (put_id id (record e { is_deleted = true }) entries) p.queue_message_index;
          },
        )
      ]
    ]

unfoldable pub read_entries : ℕ → Index → DataFile → List StoredMessage × DataFile
unfolding read_message_from_file
read_entries garbage [] f = ([], f)
read_entries garbage ((id, e) ∷ entries) f =
    let (m, f1) =
      if e.is_deleted then (none, f) else read_message_from_file garbage e.file_offset f in
    let (ms, f2) = read_entries garbage entries f1 in (elim m [ none ↦ ms | some m ↦ m ∷ ms ], f2)

unfoldable pub load_all_messages :
    ℕ → Name → FileBasedPersistence → QueueResult × List StoredMessage × FileBasedPersistence
unfolding read_entries
load_all_messages garbage name p =
    if not p.initialized
    then (QueueResult.internal_error, [], p)
    else elim (find name p.queue_message_index) [
      | none ↦ (QueueResult.queue_not_found, [], p)
      | some entries ↦
          let (ms, f) = read_entries garbage entries p.message_data_file in
          (QueueResult.success, ms, record p { message_data_file = f })
    ]

-- The index is cleared; the rest is not implemented.
unfoldable pub rebuild_index : FileBasedPersistence → QueueResult × FileBasedPersistence
rebuild_index p =
    if p.initialized
    then (QueueResult.success, record p { queue_message_index = [] })
    else (QueueResult.internal_error, p)

unfoldable pub count_kept : Index → ℕ
count_kept [] = 0
count_kept ((id, e) ∷ entries) = if e.is_deleted then count_kept entries else count_kept entries + 1

unfoldable pub get_persisted_message_count : Name → FileBasedPersistence → ℕ
unfolding count_kept
get_persisted_message_count name p =
    if p.initialized then count_kept (index_of name p.queue_message_index) else 0
