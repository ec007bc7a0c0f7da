-- ===== src/Queue/Monitor/Defs.antt =====
-- monitor.go: the thresholds of each consumer, and the alerts that the monitor fires. Metrics and
-- log lines are left out; `fired` lists the alerts given to `alertFn`, the newest first.
use vox_streaming.Base.{
  ◌≡◌, ◌↔◌, Bool, true, ◌&&◌, List, [], ◌∷◌, Option, none, some, String, arith, if◌then◌else◌,
}
use vox_streaming.Base.Text.{text_eq, text_eq_iff}
use vox_streaming.Base.Int.{ℤ, pos, ltb_ℤ, leb_ℤ, ◌+ℤ◌, wrap64}
use vox_streaming.Base.Clock.{Time, Duration, sub, minutes}
use vox_streaming.Base.Eq.{Eq, eq_text}
use vox_streaming.Base.Store.{Store, lookup, insert, remove}

pub record ConsumerKey : Type 0 where
  pub topic : String
  pub group_id : String

abbrev pub consumer_key_beq : ConsumerKey → ConsumerKey → Bool
consumer_key_beq a b = text_eq a.topic b.topic && text_eq a.group_id b.group_id

pub consumer_key_beq_iff : (a b : ConsumerKey) → (consumer_key_beq a b ≡ true) ↔ (a ≡ b)
consumer_key_beq_iff a b =
    ground (arith, text_eq_iff a.topic b.topic, text_eq_iff a.group_id b.group_id)

instance abbrev pub eq_consumer_key : Eq ConsumerKey
eq_consumer_key = record { beq = consumer_key_beq; beq_iff = consumer_key_beq_iff }

pub record AlertConfig : Type 0 where
  pub lag_threshold : ℤ
  pub lag_duration : Duration
  pub dlq_threshold : ℤ
  pub fetch_error_threshold : ℤ

abbrev pub fallback_alert_config : AlertConfig
fallback_alert_config = record {
  lag_threshold = pos 100;
  lag_duration = pos (minutes 2);
  dlq_threshold = pos 5;
  fetch_error_threshold = pos 10;
}

-- The configuration of one consumer: its override, else its topic's, else the fallback.
abbrev pub or_default : Option AlertConfig → AlertConfig
or_default none = fallback_alert_config
or_default (some c) = c

abbrev pub override_or : Option AlertConfig → Option AlertConfig → AlertConfig
override_or (some c) d = c
override_or none d = or_default d

-- `BuildAlertConfigs`, over the keys of the consumers.
unfoldable pub build_alert_configs :
    List ConsumerKey
    → Store String AlertConfig
    → Store ConsumerKey AlertConfig
    → Store ConsumerKey AlertConfig
    → Store ConsumerKey AlertConfig
build_alert_configs [] defaults overrides result = result
build_alert_configs (k ∷ ks) defaults overrides result =
    build_alert_configs ks defaults overrides
      (insert k (override_or (lookup k overrides) (lookup k.topic defaults)) result)

pub data AlertLevel : Type 0 where
  warning critical : AlertLevel

pub data AlertSubject : Type 0 where
  consumer_lag dead_letters fetch_errors : AlertSubject

pub record Alert : Type 0 where
  pub level : AlertLevel
  pub subject : AlertSubject
  pub key : ConsumerKey
  pub value : ℤ
  pub threshold : ℤ
  pub fired_at : Time

pub record Monitor : Type 0 where
  pub alert_configs : Store ConsumerKey AlertConfig
  pub lag_exceeded_since : Store ConsumerKey Time
  pub dlq_count : Store ConsumerKey ℤ
  pub fetch_error_count : Store ConsumerKey ℤ
  pub fired : List Alert

unfoldable pub lag_level : ℤ → AlertConfig → AlertLevel
lag_level lag cfg =
    if ltb_ℤ (wrap64 (cfg.lag_threshold +ℤ cfg.lag_threshold +ℤ cfg.lag_threshold)) lag
    then critical
    else warning

abbrev pub lag_alert : Time → ConsumerKey → ℤ → AlertConfig → Alert
lag_alert now key lag cfg = record {
  level = lag_level lag cfg;
  subject = consumer_lag;
  key = key;
  value = lag;
  threshold = cfg.lag_threshold;
  fired_at = now;
}

-- The branch of `checkLagAlert` in which the lag is above the threshold.
unfoldable pub lag_exceeded : Option Time → Time → ConsumerKey → ℤ → AlertConfig → Monitor → Monitor
unfolding lag_level
lag_exceeded none now key lag cfg m = record m {
  lag_exceeded_since = insert key now m.lag_exceeded_since;
}
lag_exceeded (some since) now key lag cfg m =
    if ltb_ℤ cfg.lag_duration (sub now since)
    then record m {
      lag_exceeded_since = insert key now m.lag_exceeded_since;
      fired = lag_alert now key lag cfg ∷ m.fired;
    }
    else m

-- `checkLagAlert`.
unfoldable pub check_lag_alert : Time → ConsumerKey → ℤ → AlertConfig → Monitor → Monitor
unfolding lag_exceeded
check_lag_alert now key lag cfg m =
    if ltb_ℤ cfg.lag_threshold lag
    then lag_exceeded (lookup key m.lag_exceeded_since) now key lag cfg m
    else record m { lag_exceeded_since = remove key m.lag_exceeded_since }

abbrev pub with_config : Option AlertConfig → (AlertConfig → Monitor → Monitor) → Monitor → Monitor
with_config none f m = m
with_config (some cfg) f m = f cfg m

-- `processStats`, for the lag that the reader of a consumer reports.
unfoldable pub process_stats : Time → ConsumerKey → ℤ → Monitor → Monitor
unfolding check_lag_alert
process_stats now key lag m =
    with_config (lookup key m.alert_configs) (check_lag_alert now key lag) m

abbrev pub count_of : Option ℤ → ℤ
count_of none = pos 0
count_of (some n) = n

abbrev pub next_count : Option ℤ → ℤ
next_count n = wrap64 (count_of n +ℤ pos 1)

-- `RecordDLQ`: the count moves also where the consumer has no configuration.
unfoldable pub dlq_alert : Time → ConsumerKey → ℤ → AlertConfig → Monitor → Monitor
dlq_alert now key count cfg m =
    if leb_ℤ cfg.dlq_threshold count
    then record m {
      dlq_count = insert key (pos 0) m.dlq_count;
      fired =
          record {
            level = critical;
            subject = dead_letters;
            key = key;
            value = count;
            threshold = cfg.dlq_threshold;
            fired_at = now;
          }
          ∷ m.fired;
    }
    else m

unfoldable pub record_dlq : Time → ConsumerKey → Monitor → Monitor
unfolding dlq_alert
record_dlq now key m =
    let count = next_count (lookup key m.dlq_count) in
    with_config (lookup key m.alert_configs) (dlq_alert now key count)
      (record m { dlq_count = insert key count m.dlq_count })

-- `RecordFetchError`: nothing is counted without a configuration.
unfoldable pub fetch_error_alert : Time → ConsumerKey → AlertConfig → Monitor → Monitor
fetch_error_alert now key cfg m =
    let count = next_count (lookup key m.fetch_error_count) in
    if leb_ℤ cfg.fetch_error_threshold count
    then record m {
      fetch_error_count = insert key (pos 0) (insert key count m.fetch_error_count);
      fired =
          record {
            level = warning;
            subject = fetch_errors;
            key = key;
            value = count;
            threshold = cfg.fetch_error_threshold;
            fired_at = now;
          }
          ∷ m.fired;
    }
    else record m { fetch_error_count = insert key count m.fetch_error_count }

unfoldable pub record_fetch_error : Time → ConsumerKey → Monitor → Monitor
unfolding fetch_error_alert
record_fetch_error now key m =
    with_config (lookup key m.alert_configs) (fetch_error_alert now key) m
