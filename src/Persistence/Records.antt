-- ===== src/Persistence/Records.antt =====
-- Shared/MessageQueue/MessagePersistence.cpp: a message as the bytes of a record. The enumerations
-- are numbers of one byte, since `memcpy` takes any pattern.
use helianthus.Prelude.{
  ℕ, zero, suc, ◌%◌, Option, none, some, List, [], ◌∷◌, ◌++◌, u32_mod, le_bytes, le_value, count,
  length, take, drop, Name, find, ltb, if◌then◌else◌,
}

-- A message: its header, its status, and its payload. The two times at which the object was made and
-- changed are left out.
pub record StoredMessage : Type 0 where
  pub id : ℕ
  pub kind : ℕ
  pub priority : ℕ
  pub delivery : ℕ
  pub timestamp : ℕ
  pub expire_time : ℕ
  pub retry_count : ℕ
  pub max_retries : ℕ
  pub next_retry_time : ℕ
  pub dead_letter_reason : ℕ
  pub original_queue : Name
  pub source_id : Name
  pub target_id : Name
  pub correlation_id : Name
  pub properties : List (Name × Name)
  pub status : ℕ
  pub payload : List ℕ
  pub content_type : Name
  pub encoding : Name

unfoldable pub append_string : List ℕ → List ℕ
append_string s = le_bytes 4 (length s % u32_mod) ++ take (length s % u32_mod) s

unfoldable pub append_properties : List (Name × Name) → List ℕ
unfolding append_string
append_properties [] = []
append_properties ((k, v) ∷ ps) = append_string k ++ (append_string v ++ append_properties ps)

unfoldable pub serialize_message : StoredMessage → List ℕ
serialize_message m =
    le_bytes 8 m.id
    ++ (le_bytes 1 m.kind
        ++ (le_bytes 1 m.priority
            ++ (le_bytes 1 m.delivery
                ++ (le_bytes 8 m.timestamp
                    ++ (le_bytes 8 m.expire_time
                        ++ (le_bytes 4 m.retry_count
                            ++ (le_bytes 4 m.max_retries
                                ++ (le_bytes 4 (length m.properties % u32_mod)
                                    ++ (append_properties m.properties
                                        ++ (le_bytes 1 m.status ++ append_string m.payload))))))))))

-- A reader takes bytes from the front, or finds too few.
abbrev pub Reader : Type 0 → Type 0
Reader A = List ℕ → Option (A × List ℕ)

infixl 5 ◌>>=◌
abbrev pub ◌>>=◌ : {A B : Type 0} → Reader A → (A → Reader B) → Reader B
◌>>=◌ r f bytes = elim (r bytes) [ none ↦ none | some (a, rest) ↦ f a rest ]

abbrev pub pure : {A : Type 0} → A → Reader A
pure a bytes = some (a, bytes)

unfoldable pub read_bytes : ℕ → Reader (List ℕ)
read_bytes size bytes =
    if ltb (length bytes) size then none else some (take size bytes, drop size bytes)

unfoldable pub read_pod : ℕ → Reader ℕ
unfolding read_bytes
read_pod size = do bs ← read_bytes size; pure (le_value bs)

unfoldable pub read_string : Reader (List ℕ)
unfolding read_pod read_bytes
read_string = do size ← read_pod 4; read_bytes size

-- `emplace` keeps the entry of a key that is there.
unfoldable pub emplace : Name → Name → List (Name × Name) → List (Name × Name)
emplace k v ps = elim (find k ps) [ none ↦ ps ++ ((k, v) ∷ []) | some w ↦ ps ]

unfoldable pub read_properties : ℕ → List (Name × Name) → Reader (List (Name × Name))
unfolding read_string emplace
read_properties zero ps = pure ps
read_properties (suc n) ps = do k ← read_string; v ← read_string; read_properties n (emplace k v ps)

abbrev pub unknown_reason : ℕ
unknown_reason = 255

-- What SetString makes of the payload's type and encoding: text/plain and utf-8.
abbrev pub text_plain : Name
text_plain = 116 ∷ 101 ∷ 120 ∷ 116 ∷ 47 ∷ 112 ∷ 108 ∷ 97 ∷ 105 ∷ 110 ∷ []

abbrev pub utf8 : Name
utf8 = 117 ∷ 116 ∷ 102 ∷ 45 ∷ 56 ∷ []

-- What stands behind the payload is not looked at. The fields that are not in the record have their
-- default values.
unfoldable pub deserialize_message : Reader StoredMessage
unfolding read_pod read_properties read_string
deserialize_message = do
  id ← read_pod 8
  kind ← read_pod 1
  priority ← read_pod 1
  delivery ← read_pod 1
  timestamp ← read_pod 8
  expire_time ← read_pod 8
  retry_count ← read_pod 4
  max_retries ← read_pod 4
  count ← read_pod 4
  properties ← read_properties count []
  status ← read_pod 1
  payload ← read_string
  pure (record {
    id = id;
    kind = kind;
    priority = priority;
    delivery = delivery;
    timestamp = timestamp;
    expire_time = expire_time;
    retry_count = retry_count;
    max_retries = max_retries;
    next_retry_time = 0;
    dead_letter_reason = unknown_reason;
    original_queue = [];
    source_id = [];
    target_id = [];
    correlation_id = [];
    properties = properties;
    status = status;
    payload = payload;
    content_type = text_plain;
    encoding = utf8;
  })
