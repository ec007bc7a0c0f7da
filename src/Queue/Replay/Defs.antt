-- ===== src/Queue/Replay/Defs.antt =====
-- internal/infrastructure/queue/dlq.go: writing a message to the dead-letter topic, and replaying that
-- topic. Partition and headers are left out. What Go's JSON encoder makes of a raw message and of a string
-- is a parameter: it compacts and escapes the one and replaces what is no UTF-8 in the other.
use vox_streaming.Base.{
  ℕ, ◌+◌, Bool, true, false, List, [], ◌∷◌, Option, none, some, String, if◌then◌else◌,
}
use vox_streaming.Base.Text.{contains}
use vox_streaming.Base.Clock.{Time}
use vox_streaming.Base.Redis.{Document, doc, garbage}
use vox_streaming.Base.Failure.{
  Error, Result, ok, err, Fault, check_as, wrapped, message, ◌>>=◌, ◌>>◌,
}
use vox_streaming.Queue.Classify.{Reason, classify_error}
use vox_streaming.Queue.Consumer.{Message}

pub record DlqMessage : Type 0 where
  pub failed_at : Time
  pub reason : Reason
  pub error_detail : List ℕ
  pub attempt_count : ℕ
  pub original_topic : String
  pub original_offset : ℕ
  pub original_key : List ℕ
  pub original_payload : List ℕ
  pub consumer_group : String

-- A raw message as it is written, if it is a JSON text at all, and the bytes of a string as they are
-- read back.
pub record Codec : Type 0 where
  pub raw_message : List ℕ → Option (List ℕ)
  pub text : List ℕ → List ℕ

abbrev pub marshalled : Option (List ℕ) → Result (List ℕ)
marshalled none = err (message "dlq: marshal message")
marshalled (some p) = ok p

pub record DlqWriter : Type 0 where
  pub topics : List String
  pub group_id : String

abbrev pub refuse_unless : Bool → String → Result (Unit {0})
refuse_unless true text = ok tt
refuse_unless false text = err (message text)

-- `Send`: the message that was written.
unfoldable pub send : Codec → Fault → Time → DlqWriter → Message → List ℕ → ℕ → Result DlqMessage
send codec write_fault now d msg error_text attempts = do
  refuse_unless (contains d.topics msg.topic) "dlq: no writer for topic"
  payload ← marshalled (codec.raw_message msg.payload)
  check_as "dlq write fetch_error" write_fault
  ok (record {
    failed_at = now;
    reason = classify_error (some error_text);
    error_detail = codec.text error_text;
    attempt_count = attempts;
    original_topic = msg.topic;
    original_offset = msg.offset;
    original_key = codec.text msg.key;
    original_payload = payload;
    consumer_group = d.group_id;
  })

-- A fetch from the dead-letter topic: a message at an offset with the publisher's answer, the end of
-- the context, or an error.
pub data Fetch : Type 0 where
  got : ℕ → Document DlqMessage → Fault → Fetch
  cancelled : Fetch
  fetch_error : Error → Fetch

pub record Replayed : Type 0 where
  pub replayed : ℕ
  pub skipped : ℕ
  pub published : List (String × List ℕ × List ℕ)
  pub committed : List ℕ

abbrev pub nothing_replayed : Replayed
nothing_replayed = record { replayed = 0; skipped = 0; published = []; committed = [] }

abbrev pub skip : ℕ → Replayed → Replayed
skip offset s = record s { skipped = s.skipped + 1; committed = offset ∷ s.committed }

abbrev pub republish : ℕ → DlqMessage → Replayed → Replayed
republish offset m s = record s {
  replayed = s.replayed + 1;
  published = (m.original_topic, m.original_key, m.original_payload) ∷ s.published;
  committed = offset ∷ s.committed;
}

-- `ReplayToOriginalTopic`, over the fetches that the world answers: the counts, what was published and
-- committed, and the error, if it returned with one. A filter that is nil accepts every message.
unfoldable pub replay : (DlqMessage → Bool) → List Fetch → Replayed → Replayed × Fault
replay accepts [] s = (s, none)
replay accepts (cancelled ∷ fs) s = (s, none)
replay accepts (fetch_error e ∷ fs) s = (s, some (wrapped "dlq fetch" e))
replay accepts (got offset garbage answer ∷ fs) s = replay accepts fs (skip offset s)
replay accepts (got offset (doc m) none ∷ fs) s =
    let sent = replay accepts fs (republish offset m s) in
    let left = replay accepts fs (skip offset s) in if accepts m then sent else left
replay accepts (got offset (doc m) (some e) ∷ fs) s =
    let left = replay accepts fs (skip offset s) in if accepts m then (s, some e) else left
