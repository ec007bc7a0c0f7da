-- ===== src/Tests/Queue.antt =====
-- The consumer and its monitor, with one topic.
use vox_streaming.Base.{
  ℕ, refl, ◌⊎◌, inl, true, false, List, [], ◌∷◌, none, some, Elem, if◌then◌else◌, ltb, leb,
}
use vox_streaming.Base.Eq.{eq, eq_ℕ, eq_text}
use vox_streaming.Base.Failure.{Error, message}
use vox_streaming.Base.Redis.{doc, garbage}
use vox_streaming.Queue.Classify.{unknown}
use vox_streaming.Queue.Replay.{
  Codec, DlqMessage, DlqWriter, got, Fetch, cancelled, nothing_replayed, replay, IsCounted,
  SettledIn, replay_loses_nothing,
}
use vox_streaming.Queue.Monitor.{ConsumerKey, eq_consumer_key, fallback_alert_config, Monitor}
use vox_streaming.Queue.Consumer.{
  Message, Delivery, Consumer, Turn, fetched, Loop, run, turn, process_message, process_handled,
  retry_from, after_dead_letter, poison_pill, count_dlq_failure, after_processing, commit,
  handle_with_retry, DeliveredIn, run-delivers,
}

abbrev key_t : ConsumerKey
key_t = record { topic = "t"; group_id = "g" }

abbrev quiet : Monitor
quiet = record {
  alert_configs = (key_t, fallback_alert_config) ∷ [];
  lag_exceeded_since = [];
  dlq_count = [];
  fetch_error_count = [];
  fired = [];
}

abbrev message_7 : Message
message_7 = record { topic = "t"; offset = 7; key = []; payload = [] }

abbrev broken : Error
broken = message "broken"

-- The handler fails twice and then succeeds; and nothing succeeds.
abbrev third_time : Delivery
third_time = record {
  handler = λ j. if ltb j 3 then some broken else none;
  cancelled = λ j. none;
  dlq_send = some broken;
  now = 1;
}

abbrev hopeless : Delivery
hopeless = record {
  handler = λ j. some broken;
  cancelled = λ j. none;
  dlq_send = some broken;
  now = 1;
}

abbrev consumer_with : ℕ → Consumer
consumer_with max = record {
  topic = "t";
  group_id = "g";
  has_dlq = true;
  max_retries = 3;
  commit_on_dlq_failure = false;
  dlq_fail_count = 0;
  last_fail_offset = 0;
  max_dlq_fails = max;
}

abbrev loop_with : ℕ → Loop
loop_with max = record { consumer = consumer_with max; monitor = some quiet; committed = [] }

abbrev turns : List Turn
turns = fetched message_7 hopeless none false ∷ fetched message_7 third_time none false ∷ []

committed_7 : Elem 7 (run turns (loop_with 0)).0.committed
unfolding run turn process_message process_handled handle_with_retry retry_from after_dead_letter
    poison_pill count_dlq_failure after_processing commit
committed_7 = inl refl

run-delivers_example : Elem {A = ℕ} 7 [] ⊎ DeliveredIn turns 7
run-delivers_example = run-delivers turns (loop_with 0) (refl, refl, refl) 7 committed_7

abbrev letter : DlqMessage
letter = record {
  failed_at = 1;
  reason = unknown;
  error_detail = [];
  attempt_count = 4;
  original_topic = "t";
  original_offset = 7;
  original_key = [];
  original_payload = 1 ∷ [];
  consumer_group = "g";
}

abbrev fetches : List Fetch
fetches = got 3 (doc letter) none ∷ got 4 garbage none ∷ cancelled ∷ []

replay_loses_nothing_example :
    IsCounted (replay (λ _. true) fetches nothing_replayed).0
    × ((o : ℕ)
        → Elem o (replay (λ _. true) fetches nothing_replayed).0.committed
        → SettledIn (λ _. true) (replay (λ _. true) fetches nothing_replayed).0 o fetches)
replay_loses_nothing_example = replay_loses_nothing (λ _. true) fetches

abbrev writer : DlqWriter
writer = record { topics = "t" ∷ []; group_id = "g" }

-- The encoder drops spaces; a text that begins with a letter is no JSON.
abbrev without_spaces : List ℕ → List ℕ
without_spaces [] = []
without_spaces (b ∷ bs) = if eq b 32 then without_spaces bs else b ∷ without_spaces bs

abbrev codec : Codec
codec = record {
  raw_message = λ bs. elim bs [
    | [] ↦ some (110 ∷ 117 ∷ 108 ∷ 108 ∷ [])
    | b ∷ rest ↦ if leb 97 b then none else some (without_spaces (b ∷ rest))
  ];
  text = λ bs. bs;
}

abbrev spaced : Message
spaced = record { topic = "t"; offset = 7; key = 107 ∷ []; payload = 49 ∷ 32 ∷ [] }

abbrev no_json : Message
no_json = record { topic = "t"; offset = 8; key = []; payload = 104 ∷ 105 ∷ [] }
