-- ===== src/Message/Tests.antt =====
-- Shared/Message/Message.cpp: applications at a concrete message.
use helianthus.Prelude.{◌≡◌, refl, true, false, [], ◌∷◌, ◌++◌, arith, le_bytes, take}
use helianthus.Message.{
  message_header_magic, default_header, Message, header_bytes, serialize, deserialize,
}
use helianthus.Message.Delivery.{
  IsSendable, deserialize-serialize, deserialize_one_byte, swapped, deserialize-swapped,
}

abbrev greeting : Message
greeting = record {
  header = record default_header {
    msg_id = 7;
    sender_id = 1;
    receiver_id = 2;
    timestamp = 1700000000000;
    payload_size = 3;
  };
  payload = 104 ∷ 101 ∷ 121 ∷ [];
  is_compressed = true;
  is_encrypted = false;
}

abbrev blank : Message
blank = record {
  header = default_header;
  payload = [];
  is_compressed = false;
  is_encrypted = false;
}

greeting-IsSendable : IsSendable greeting
greeting-IsSendable = record {
  fits = omega arith;
  named = omega arith;
  sized = refl;
  few_retries = omega arith;
  of_bytes = omega arith;
}

deserialize-serialize_example :
    deserialize (serialize greeting).0 blank
    ≡ (true, record blank { header = (serialize greeting).1.header; payload = greeting.payload })
deserialize-serialize_example = deserialize-serialize greeting blank greeting-IsSendable

deserialize_one_byte_example :
    (deserialize (take 60 (serialize greeting).0 ++ ((104 ∷ []) ++ (97 ∷ (121 ∷ [])))) blank).0
    ≡ false
deserialize_one_byte_example =
    deserialize_one_byte greeting blank (104 ∷ []) (121 ∷ []) 101 97 greeting-IsSendable refl
      (omega arith) (omega arith)

deserialize-swapped_example :
    (let h = swapped (serialize greeting).1.header in
      deserialize (le_bytes 4 message_header_magic ++ (header_bytes h ++ greeting.payload)) blank
      ≡ (true, record blank { header = h; payload = greeting.payload }))
deserialize-swapped_example = deserialize-swapped greeting blank greeting-IsSendable
