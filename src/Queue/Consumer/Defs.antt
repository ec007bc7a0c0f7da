-- ===== src/Queue/Consumer/Defs.antt =====
-- consumer.go: retrying a handler, and deciding whether a message may be committed.
use vox_streaming.Base.{
  ℕ, zero, suc, ◌+◌, ◌-◌, ◌*◌, ◌^◌, ◌%◌, Bool, true, false, not, ◌&&◌, ◌||◌, List, [], ◌∷◌, Option,
  none, some, String, ltb, leb, ◌==◌, if◌then◌else◌,
}
use vox_streaming.Base.Int.{signed64}
use vox_streaming.Base.Clock.{Time, Duration}
use vox_streaming.Base.Failure.{Error, Fault, wrapped, outside}
use vox_streaming.Queue.Monitor.{ConsumerKey, Monitor, record_dlq, record_fetch_error}

pub record Message : Type 0 where
  pub topic : String
  pub offset : ℕ
  pub key : List ℕ
  pub payload : List ℕ

-- What the world does while one message is handled: how the handler answers on each attempt, the
-- error of the context if it ends during the pause before an attempt, how the dead-letter writer
-- answers, and the time.
pub record Delivery : Type 0 where
  pub handler : ℕ → Fault
  pub cancelled : ℕ → Fault
  pub dlq_send : Fault
  pub now : Time

-- `c.retryDelay * time.Duration(1<<uint(attempt-2))`, in 64 bits.
unfoldable pub retry_pause : ℕ → ℕ → Duration
retry_pause retry_delay attempt = signed64 (retry_delay * 2 ^ (attempt - 2) % 2 ^ 64)

pub record Handled : Type 0 where
  pub error : Fault
  pub attempts : ℕ

abbrev pub last_error : Fault → Error
last_error none = outside "nil"
last_error (some e) = e

-- The loop, with the attempts left as its fuel and `lastErr` as it stands.
unfoldable pub retry_from : Delivery → ℕ → ℕ → ℕ → Fault → Handled
retry_from w zero attempt max_retries last = record {
  error = some (wrapped "all handler attempts failed" (last_error last));
  attempts = max_retries + 1;
}
retry_from w (suc left) attempt max_retries last =
    elim (if ltb 1 attempt then w.cancelled attempt else none) [
      | some e ↦ record { error = some e; attempts = attempt }
      | none ↦ elim (w.handler attempt) [
        | none ↦ record { error = none; attempts = attempt }
        | some e ↦ retry_from w left (attempt + 1) max_retries (some e)
      ]
    ]

unfoldable pub handle_with_retry : Delivery → ℕ → Handled
unfolding retry_from
handle_with_retry w max_retries = retry_from w (max_retries + 1) 1 max_retries none

pub record Consumer : Type 0 where
  pub topic : String
  pub group_id : String
  pub has_dlq : Bool
  pub max_retries : ℕ
  pub commit_on_dlq_failure : Bool
  pub dlq_fail_count : ℕ
  pub last_fail_offset : ℕ
  pub max_dlq_fails : ℕ

-- The consumer, with the monitor that it may have and whether the message may be committed.
pub record Processed : Type 0 where
  pub consumer : Consumer
  pub monitor : Option Monitor
  pub safe_to_commit : Bool

abbrev pub consumer_key : Consumer → ConsumerKey
consumer_key c = record { topic = c.topic; group_id = c.group_id }

abbrev pub with_monitor : Option Monitor → (Monitor → Monitor) → Option Monitor
with_monitor none f = none
with_monitor (some m) f = some (f m)

-- The counter of failed dead letters, started anew at another offset.
unfoldable pub count_dlq_failure : ℕ → Consumer → Consumer
count_dlq_failure offset c =
    if not (offset == c.last_fail_offset)
    then record c { dlq_fail_count = 1; last_fail_offset = offset }
    else record c { dlq_fail_count = c.dlq_fail_count + 1 }

unfoldable pub poison_pill : Consumer → Option Monitor → Processed
poison_pill c m =
    if ltb 0 c.max_dlq_fails && leb c.max_dlq_fails c.dlq_fail_count
    then record { consumer = record c { dlq_fail_count = 0 }; monitor = m; safe_to_commit = true }
    else record { consumer = c; monitor = m; safe_to_commit = false }

unfoldable pub after_dead_letter : Fault → Delivery → ℕ → Consumer → Option Monitor → Processed
unfolding poison_pill count_dlq_failure
after_dead_letter none w offset c m = record {
  consumer = c;
  monitor = with_monitor m (record_dlq w.now (consumer_key c));
  safe_to_commit = true;
}
after_dead_letter (some e) w offset c m = poison_pill (count_dlq_failure offset c) m

-- `processMessage`; `RecordProcessing` only moves metrics.
unfoldable pub process_handled : Fault → Delivery → Message → Consumer → Option Monitor → Processed
unfolding after_dead_letter
process_handled none w msg c m = record { consumer = c; monitor = m; safe_to_commit = true }
process_handled (some e) w msg c m =
    if c.has_dlq
    then after_dead_letter w.dlq_send w msg.offset c m
    else record { consumer = c; monitor = m; safe_to_commit = true }

unfoldable pub process_message : Delivery → Message → Consumer → Option Monitor → Processed
unfolding process_handled handle_with_retry
process_message w msg c m = process_handled (handle_with_retry w c.max_retries).error w msg c m

-- One turn of `Run`: a message, or a fetch that failed. The flags say whether our own context had
-- ended when the fetch or the commit failed, or ended during the pause after a failed fetch.
pub data Turn : Type 0 where
  fetched : Message → Delivery → Fault → Bool → Turn
  fetch_failed : Time → Bool → Bool → Turn

-- The loop's state: the offsets committed, the newest first.
pub record Loop : Type 0 where
  pub consumer : Consumer
  pub monitor : Option Monitor
  pub committed : List ℕ

pub data Next : Type 0 where
  goes_on : Loop → Next
  returns : Loop → Next

unfoldable pub commit : Fault → Bool → ℕ → Loop → Next
commit none context_ended offset l = goes_on (record l { committed = offset ∷ l.committed })
commit (some e) context_ended offset l = if context_ended then returns l else goes_on l

unfoldable pub after_processing : Fault → Bool → ℕ → Processed → List ℕ → Next
unfolding commit
after_processing fault context_ended offset p committed =
    let l : Loop = record { consumer = p.consumer; monitor = p.monitor; committed = committed } in
    if p.safe_to_commit || p.consumer.commit_on_dlq_failure
    then commit fault context_ended offset l
    else goes_on l

unfoldable pub turn : Turn → Loop → Next
unfolding process_message after_processing
turn (fetched msg w fault context_ended) l =
    after_processing fault context_ended msg.offset (process_message w msg l.consumer l.monitor)
      l.committed
turn (fetch_failed now context_ended ended_in_pause) l =
    let m = with_monitor l.monitor (record_fetch_error now (consumer_key l.consumer)) in
    if context_ended
    then returns l
    else if ended_in_pause
    then returns (record l { monitor = m })
    else goes_on (record l { monitor = m })

-- `Run`, over the turns that the world gives it, and whether it has returned.
unfoldable pub run : List Turn → Loop → Loop × Bool
unfolding turn
run [] l = (l, false)
run (t ∷ ts) l = elim (turn t l) [ returns l' ↦ (l', true) | goes_on l' ↦ run ts l' ]
