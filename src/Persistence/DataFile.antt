-- ===== src/Persistence/DataFile.antt =====
-- Shared/MessageQueue/MessagePersistence.cpp: the file of the messages, a std::fstream opened with
-- ios::in, out and app. It has one position for reading and writing. What is written is kept in a
-- buffer until it is flushed; it then goes to the end of the file, wherever the position was.
use helianthus.Prelude.{
  ℕ, ◌+◌, ◌-◌, Bool, true, false, List, [], ◌∷◌, ◌++◌, u64_mod, length, take, drop, ltb,
  if◌then◌else◌,
}

pub record DataFile : Type 0 where
  pub disk : List ℕ
  pub position : ℕ
  pub buffer : List ℕ
  pub failed : Bool

-- The position with what is in the buffer; -1 as a size_t on a stream that has failed.
unfoldable pub tellp : DataFile → ℕ
tellp f = if f.failed then u64_mod - 1 else f.position + length f.buffer

unfoldable pub flush : DataFile → DataFile
flush f = elim f.buffer [
  | [] ↦ f
  | b ∷ bs ↦ record f {
    disk = f.disk ++ (b ∷ bs);
    position = length f.disk + length (b ∷ bs);
    buffer = [];
  }
]

unfoldable pub write : List ℕ → DataFile → DataFile
write bytes f = if f.failed then f else record f { buffer = f.buffer ++ bytes }

-- A seek flushes first. After a failed read it does nothing.
unfoldable pub seekg : ℕ → DataFile → DataFile
unfolding flush
seekg offset f = if f.failed then f else record (flush f) { position = offset }

-- Reads bytes at the position; too few set the fail bit.
unfoldable pub read : ℕ → DataFile → List ℕ × DataFile
read size f =
    let ahead = drop f.position f.disk in
    if f.failed
    then ([], f)
    else if ltb (length ahead) size
    then (ahead, record f { position = length f.disk; failed = true })
    else (take size ahead, record f { position = f.position + size })

-- A file that was just opened.
abbrev pub opened : List ℕ → DataFile
opened bytes = record { disk = bytes; position = 0; buffer = []; failed = false }
