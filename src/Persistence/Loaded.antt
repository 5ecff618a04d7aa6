-- ===== src/Persistence/Loaded.antt =====
-- Shared/MessageQueue/MessagePersistence.cpp: what was saved is loaded, and when it is not.
use mathlib.Core.List.{append-nil}
use mathlib.Core.Path.{subst}
use helianthus.Prelude.{
  ℕ, ◌≡◌, refl, sym, ap, ◌∙◌, ◌≢◌, Bool, false, none, some, List, [], ◌∷◌, ◌++◌, arith, find_id,
  put_id, find_id-put_id, length, drop-length_append, Name, same_name_self, find, find-put,
  if◌then◌else◌,
}
use helianthus.Persistence.Records.{StoredMessage}
use helianthus.Persistence.DataFile.{tellp}
use helianthus.Persistence.Store.{
  MessageIndexEntry, Index, FileBasedPersistence, record_bytes, write_message_to_file, index_of,
  update_message_index, stored, Item,
}
use helianthus.Persistence.Offsets.{
  contents, IsAtEnd, tellp-IsAtEnd, failed-write_message_to_file, IsAtEnd-write_message_to_file,
  contents-write_message_to_file,
}
use helianthus.Persistence.Kept.{StandsAt}

-- The entry of a message under a queue, and the message's record where the entry says.
unfoldable pub IsKept : Name → StoredMessage → FileBasedPersistence → Type 0
IsKept name m p =
    (entries : Index) × (e : MessageIndexEntry) × (find name p.queue_message_index ≡ some entries)
    × (find_id m.id entries ≡ some e)
    × (e.is_deleted ≡ false)
    × StandsAt m e.file_offset (contents p.message_data_file)

-- Some items do not concern an id.
abbrev pub Others : ℕ → List Item → Type 0
Others id [] = Unit
Others id ((middle, late, none) ∷ items) = Others id items
Others id ((middle, late, some m) ∷ items) = (m.id ≢ id) × Others id items

unfoldable pub index_entry : ℕ → Name → StoredMessage → ℕ → MessageIndexEntry
index_entry now name m offset = record {
  id = m.id;
  queue_name = name;
  file_offset = offset;
  message_size = length m.payload;
  timestamp = now;
  is_deleted = false;
}

-- What `stored` makes of the store.
module _ (now : ℕ) (middle late : Bool) (name : Name) (m : StoredMessage)
    (p : FileBasedPersistence) where
  pub initialized-stored : (stored now middle late name m p).initialized ≡ p.initialized
  unfolding stored update_message_index
  initialized-stored = refl

  pub find-stored :
      find name (stored now middle late name m p).queue_message_index
      ≡ some (
          put_id m.id
            (index_entry now name m (tellp p.message_data_file))
            (index_of name p.queue_message_index))
  unfolding stored update_message_index index_entry write_message_to_file
  find-stored =
      let entries =
        put_id m.id (index_entry now name m (tellp p.message_data_file))
          (index_of name p.queue_message_index) in
      let k = find-put name name entries p.queue_message_index in
      let s = same_name_self name in
      k ∙ ap (λ b. if b then some entries else find name p.queue_message_index) s

  pub failed-stored :
      (stored now middle late name m p).message_data_file.failed ≡ p.message_data_file.failed
  unfolding stored update_message_index
  failed-stored = failed-write_message_to_file middle late m p.message_data_file

  pub IsAtEnd-stored :
      IsAtEnd p.message_data_file → IsAtEnd (stored now middle late name m p).message_data_file
  unfolding stored update_message_index
  IsAtEnd-stored h = IsAtEnd-write_message_to_file middle late m p.message_data_file h

  pub contents-stored :
      p.message_data_file.failed ≡ false
      → contents (stored now middle late name m p).message_data_file
        ≡ contents p.message_data_file ++ record_bytes m
  unfolding stored update_message_index
  contents-stored h = contents-write_message_to_file middle late m p.message_data_file h

-- A record at the end of the contents.
pub StandsAt-end : (m : StoredMessage) (c : List ℕ) → StandsAt m (length c) (c ++ record_bytes m)
StandsAt-end m c = ([], drop-length_append c (record_bytes m) ∙ sym (append-nil (record_bytes m)))

pub find_id-put_id_self :
    (k : ℕ) (e : MessageIndexEntry) (entries : Index) → find_id k (put_id k e entries) ≡ some e
find_id-put_id_self k e entries = let i = find_id-put_id k k e entries in ground arith

pub IsKept-stored :
    (now : ℕ) (middle late : Bool) (name : Name) (m : StoredMessage) (p : FileBasedPersistence)
    → IsAtEnd p.message_data_file
    → IsKept name m (stored now middle late name m p)
unfolding IsKept index_entry
IsKept-stored now middle late name m p h =
    let c = contents p.message_data_file in
    let off = tellp p.message_data_file in
    let e = index_entry now name m off in
    let old = index_of name p.queue_message_index in
    (
      put_id m.id e old,
      e,
      find-stored now middle late name m p,
      find_id-put_id_self m.id e old,
      refl,
      subst (λ (n : ℕ). StandsAt m n (contents (stored now middle late name m p).message_data_file))
          (sym (tellp-IsAtEnd p.message_data_file h))
          (subst (StandsAt m (length c)) (sym (contents-stored now middle late name m p h.1))
            (StandsAt-end m c)),
    )
