-- ===== src/Cache/ScheduleStream.antt =====
-- internal/infrastructure/cache/schedule_stream.go: every stream that a schedule had, alive or
-- finished.
use Prim.Native.String.{compare}
use text.Mathlib.Text.{is_lt}
use vox_streaming.Base.{
  ℕ, ◌+◌, ◌<◌, ◌≡◌, ◌∙◌, refl, sym, ap, ◌&&◌, ◌||◌, ◌==◌, ltb, Bool, Bool-cases, List, [], ◌∷◌, inl,
  inr, Elem, Option, none, some, String,
}
use vox_streaming.Base.Text.{text_eq}
use vox_streaming.Base.Order.{sort, Elem-sort}
use vox_streaming.Base.Clock.{Time}
use vox_streaming.Base.Eq.{eq_text, eq_refl}
use vox_streaming.Base.Store.{Store, lookup, values}
use vox_streaming.Base.Redis.{
  Keys, Document, doc, garbage, hget, hgetall, hset_expire, hget-hset_expire, decoded,
}
use vox_streaming.Base.Failure.{Result, ok, err, message, Fault, check_as, ◌>>=◌, ◌>>◌}
use vox_streaming.Cache.Hls.{hls_fragment_ttl}

abbrev pub schedule_stream_ttl : ℕ
schedule_stream_ttl = hls_fragment_ttl

pub record ScheduleStream : Type 0 where
  pub stream_id : String
  pub schedule_id : String
  pub session_id : String
  pub participant_id : String
  pub stream_type : String
  pub started_at : Time
  pub ended_at : Option Time

abbrev pub Schedules : Type 0
Schedules = Keys String (Store String (Document ScheduleStream))

-- `Record`.
unfoldable pub record_stream : Fault → Time → ScheduleStream → Schedules → Result Schedules
record_stream fault now s m = do
  check_as "record schedule stream" fault
  ok (hset_expire now s.schedule_id s.stream_id (doc s) (now + schedule_stream_ttl) m)

-- What `MarkEnded` does with what the read found.
unfoldable pub end_found :
    Option (Document ScheduleStream) → Fault → Time → Time → Schedules → Result Schedules
unfolding record_stream
end_found none fault now happened_at m = ok m
end_found (some garbage) fault now happened_at m = err (message "unmarshal schedule stream")
end_found (some (doc s)) fault now happened_at m = elim s.ended_at [
  | some t ↦ ok m
  | none ↦ record_stream fault now (record s { ended_at = some happened_at }) m
]

unfoldable pub mark_ended :
    Fault → Fault → Time → String → String → Time → Schedules → Result Schedules
unfolding end_found
mark_ended load_fault fault now schedule_id stream_id happened_at m = do
  check_as "load schedule stream" load_fault
  end_found (hget now schedule_id stream_id m) fault now happened_at m

-- The first end of a stream wins: while its entry lives, a later call with another moment leaves the
-- entry that the first call wrote, which is the one that was recorded but for its end.
pub mark_ended_twice :
    (now later : Time) (s : ScheduleStream) (first second : Time) (m : Schedules)
    → hget now s.schedule_id s.stream_id m ≡ some (doc s)
    → s.ended_at ≡ none
    → later < now + schedule_stream_ttl
    → (m' : Schedules) × ((mark_ended none none now s.schedule_id s.stream_id first m
          >>= mark_ended none none later s.schedule_id s.stream_id second)
        ≡ ok m')
      × (hget later s.schedule_id s.stream_id m' ≡ some (doc (record s { ended_at = some first })))
unfolding mark_ended end_found record_stream
mark_ended_twice now later s first second m found running h =
    let s' : ScheduleStream = record s { ended_at = some first } in
    let m' : Schedules =
      hset_expire now s.schedule_id s.stream_id (doc s') (now + schedule_stream_ttl) m in
    let read =
      hget-hset_expire now later s.schedule_id s.stream_id s.stream_id (doc s')
        (now + schedule_stream_ttl) m h in
    (m', rw (found, running, read, eq_refl s.stream_id), rw (read, eq_refl s.stream_id))

-- A stream without an entry is not brought back.
pub mark_ended_absent :
    (fault : Fault) (now : Time) (schedule_id stream_id : String) (happened_at : Time)
    (m : Schedules)
    → hget now schedule_id stream_id m ≡ none
    → mark_ended none fault now schedule_id stream_id happened_at m ≡ ok m
unfolding mark_ended end_found
mark_ended_absent fault now schedule_id stream_id happened_at m h = rw h

abbrev pub stream_before : ScheduleStream → ScheduleStream → Bool
stream_before a b =
    ltb a.started_at b.started_at
    || (a.started_at == b.started_at && is_lt (compare a.stream_id b.stream_id))

-- `List`, with the streams in order of their starts and then of their identifiers.
unfoldable pub list_streams : Fault → Time → String → Schedules → Result (List ScheduleStream)
list_streams fault now schedule_id m = do
  check_as "list schedule streams" fault
  ok (sort stream_before (decoded (values (hgetall now schedule_id m))))

garbage-doc : {s : ScheduleStream} → some garbage ≡ some (doc s) → ⊥
garbage-doc h = cc

stream_of : {t s : ScheduleStream} → some (doc t) ≡ some (doc s) → t ≡ s
stream_of {t} h = ap (λ o. read o) h
  where
    read : Option (Document ScheduleStream) → ScheduleStream
    read (some (doc x)) = x
    read (some garbage) = t
    read none = t

decoded-values-Elem :
    (k : String) (s : ScheduleStream) (h : Store String (Document ScheduleStream))
    → lookup k h ≡ some (doc s)
    → Elem s (decoded (values h))
unfolding lookup values decoded
decoded-values-Elem k s [] e = cc
decoded-values-Elem k s ((j, garbage) ∷ h) e = elim (Bool-cases (text_eq j k)) [
  | inl y ↦ absurd (garbage-doc (rw y at e))
  | inr n ↦ decoded-values-Elem k s h (rw n at e)
]
decoded-values-Elem k s ((j, doc t) ∷ h) e = elim (Bool-cases (text_eq j k)) [
  | inl y ↦ inl (sym (stream_of (rw y at e)))
  | inr n ↦ inr (decoded-values-Elem k s h (rw n at e))
]

-- A stream that was recorded is listed under its schedule for as long as the entry lives.
pub list_streams-record_stream :
    (now later : Time) (s : ScheduleStream) (m : Schedules)
    → later < now + schedule_stream_ttl
    → (l : List ScheduleStream) × ((record_stream none now s m
          >>= list_streams none later s.schedule_id)
        ≡ ok l)
      × Elem s l
unfolding record_stream list_streams hget
list_streams-record_stream now later s m h = (
  sort stream_before (decoded (values (hgetall later s.schedule_id (recorded s)))),
  refl,
  Elem-sort stream_before s _ (decoded-values-Elem s.stream_id s _ found),
)
  where
    recorded : ScheduleStream → Schedules
    recorded x = hset_expire now x.schedule_id x.stream_id (doc x) (now + schedule_stream_ttl) m

    found : lookup s.stream_id (hgetall later s.schedule_id (recorded s)) ≡ some (doc s)
    found =
        hget-hset_expire now later s.schedule_id s.stream_id s.stream_id (doc s)
          (now + schedule_stream_ttl) m h
        ∙ rw (eq_refl s.stream_id) refl
