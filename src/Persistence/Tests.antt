-- ===== src/Persistence/Tests.antt =====
-- Shared/MessageQueue/MessagePersistence.cpp: applications at concrete messages.
use helianthus.Prelude.{
  ℕ, le_bytes, find, ◌<◌, ◌≡◌, refl, true, false, some, none, [], ◌∷◌, ◌++◌, arith, List, Name,
}
use helianthus.MessageQueue.Types.{QueueResult}
use helianthus.Persistence.Records.{
  StoredMessage, append_string, append_properties, serialize_message, deserialize_message,
}
use helianthus.Persistence.RoundTrip.{
  recorded, Fits, Apart, ShortProperties, deserialize_message-serialize_message,
}
use helianthus.Persistence.DataFile.{opened}
use helianthus.Persistence.Store.{
  FileBasedPersistence, Item, save_message, save_batch_messages, load_message,
}
use helianthus.Persistence.Kept.{IsStorable}
use helianthus.Persistence.Saved.{load_message-save_batch_messages}
use helianthus.Persistence.Behind.{save_message-load_message}

abbrev jobs : Name
jobs = 106 ∷ 111 ∷ 98 ∷ 115 ∷ []

abbrev text : ℕ → StoredMessage
text id = record {
  id = id;
  kind = 1;
  priority = 2;
  delivery = 1;
  timestamp = 1700000000000;
  expire_time = 0;
  retry_count = 0;
  max_retries = 3;
  next_retry_time = 0;
  dead_letter_reason = 2;
  original_queue = jobs;
  source_id = [];
  target_id = [];
  correlation_id = 55 ∷ [];
  properties = (jobs, 49 ∷ []) ∷ [];
  status = 0;
  payload = 104 ∷ 105 ∷ [];
  content_type = [];
  encoding = [];
}

abbrev empty_store : FileBasedPersistence
empty_store = record { initialized = true; message_data_file = opened []; queue_message_index = [] }

abbrev more : List Item
more = (true, false, some (text 8)) ∷ (false, false, none) ∷ (false, true, some (text 9)) ∷ []

fits : (id : ℕ) → id < 100 → Fits (text id)
unfolding Apart ShortProperties find
fits id h = record {
  id_fits = omega arith;
  kind_fits = omega arith;
  priority_fits = omega arith;
  delivery_fits = omega arith;
  timestamp_fits = omega arith;
  expire_time_fits = omega arith;
  retry_count_fits = omega arith;
  max_retries_fits = omega arith;
  status_fits = omega arith;
  payload_fits = omega arith;
  few_properties = omega arith;
  short_properties = (omega arith, omega arith, tt);
  apart = (refl, tt);
}

text-IsStorable : (id : ℕ) → id < 100 → IsStorable (text id)
unfolding serialize_message append_string append_properties le_bytes
text-IsStorable id h = record { fits = fits id h; short = omega arith }

deserialize_message-serialize_message_example :
    deserialize_message (serialize_message (text 7) ++ (1 ∷ [])) ≡ some (recorded (text 7), 1 ∷ [])
deserialize_message-serialize_message_example =
    deserialize_message-serialize_message (text 7) (1 ∷ []) (fits 7 (omega arith))

load_message-save_batch_messages_example :
    (let saved = (save_message 5 true false jobs (some (text 7)) empty_store).1 in
      let answer = load_message 0 jobs 7 (save_batch_messages 6 jobs more saved).1 in
      (answer.0 ≡ QueueResult.success) × (answer.1 ≡ some (recorded (text 7))))
load_message-save_batch_messages_example =
    load_message-save_batch_messages 5 6 0 true false jobs (text 7) more empty_store refl
      (refl, refl) (text-IsStorable 7 (omega arith))
      (λ e. absurd (omega arith), (λ e. absurd (omega arith), tt))

save_message-load_message_example :
    (let p1 = (save_message 5 false true jobs (some (text 7)) empty_store).1 in
      let p2 = (save_message 5 false true jobs (some (text 8)) p1).1 in
      let p3 = (load_message 0 jobs 7 p2).2 in
      let p4 = (save_message 5 false true jobs (some (text 9)) p3).1 in
      let answer = load_message 0 jobs 9 p4 in
      (answer.0 ≡ QueueResult.success) × (answer.1 ≡ some (recorded (text 8))))
save_message-load_message_example =
    save_message-load_message 5 0 false true jobs (text 7) (text 8) (text 9) empty_store refl
      (refl, refl) (text-IsStorable 7 (omega arith)) (text-IsStorable 8 (omega arith))
      (λ e. absurd (omega arith))
