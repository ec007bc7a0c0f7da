-- ===== src/Usecase/Assembler/Outcomes.antt =====
-- How an assembly ends, and what it leaves.
use vox_streaming.Base.{
  ◌≡◌, refl, ◌⊎◌, inl, inr, Bool, true, false, List, [], ◌∷◌, none, some, String, ap,
}
use vox_streaming.Base.Text.{contains}
use vox_streaming.Base.Failure.{Result, ok, err, Fault}
use vox_streaming.Domain.{RecordingAssemblyRequestedEvent, RecordingPartChangedEvent}
use vox_streaming.Cache.Segment.{SegmentMeta, list}
use vox_streaming.Stream.Float.{Floats}
use vox_streaming.Usecase.Assembler.Announce.{
  AssemblerUseCase, AssemblyCalls, Outcome, assembled, unpublished, failed, recording_status,
  Summary, publish_recording_state, announce, part_changed, load_summary,
}
use vox_streaming.Usecase.Assembler.Build.{
  joined, store_recording, finish, build, acquired, after_check,
}
use vox_streaming.Usecase.Assembler.Defs.{
  assemble_listed, assemble, with_flights, report_outcome, assemble_requested, no_summary,
}

-- What no assembly touches.
abbrev pub Untouched : AssemblerUseCase → AssemblerUseCase → Type 0
Untouched u v = (v.pending ≡ u.pending) × (v.segments ≡ u.segments) × (v.inventory ≡ u.inventory)

-- One event was published: of the stream, with a status that says whether something is missing, and
-- with the key of a recording that is stored now or was stored before.
abbrev pub Recorded :
    AssemblyCalls → RecordingAssemblyRequestedEvent → AssemblerUseCase → AssemblerUseCase → Type 0
Recorded w event u v =
    (e : RecordingPartChangedEvent) × (v.published ≡ e ∷ u.published)
    × (e.stream_id ≡ event.stream_id)
    × (e.status ≡ recording_status e.has_gaps)
    × (((v.recordings ≡ u.recordings)
          × (w.recording_exists ≡ ok true)
          × (e.object_key ≡ w.final_key))
        ⊎ (v.recordings ≡ e.object_key ∷ u.recordings))

abbrev Left :
    AssemblyCalls
    → RecordingAssemblyRequestedEvent
    → AssemblerUseCase
    → AssemblerUseCase × Outcome
    → Type 0
Left w event u (v, assembled) = Untouched u v × Recorded w event u v
Left w event u (v, unpublished e) = Untouched u v × (v.published ≡ u.published)
Left w event u (v, failed e) =
    Untouched u v × (v.published ≡ u.published) × (v.recordings ≡ u.recordings)

announce-Left :
    (w : AssemblyCalls) (event : RecordingAssemblyRequestedEvent) (key : String) (s : Summary)
    (u v : AssemblerUseCase)
    → Untouched u v
    → v.published ≡ u.published
    → ((v.recordings ≡ u.recordings) × (w.recording_exists ≡ ok true) × (key ≡ w.final_key))
      ⊎ (v.recordings ≡ key ∷ u.recordings)
    → Left w event u (announce w event key s v)
unfolding announce publish_recording_state part_changed
announce-Left w event key s u v same pub_same recs = go (w.event_id 0) refl (w.publish 0) refl
  where
    go :
        (i : Result String)
        → w.event_id 0 ≡ i
        → (f : Fault) → w.publish 0 ≡ f
        → Left w event u (announce w event key s v)
    go (err e) ei f ef = rw (announce, publish_recording_state, ei) (same, pub_same)
    go (ok id) ei (some e) ef = rw (announce, publish_recording_state, ei, ef) (same, pub_same)
    go (ok id) ei none ef =
        rw (announce, publish_recording_state, ei, ef)
          (
            same,
            (
              part_changed w event id (recording_status s.has_gaps) key s "",
              ap (λ x. part_changed w event id (recording_status s.has_gaps) key s "" ∷ x) pub_same,
              refl,
              refl,
              recs,
            ),
          )

store_recording-Left :
    (r : Result String) (w : AssemblyCalls) (event : RecordingAssemblyRequestedEvent) (s : Summary)
    (u v : AssemblerUseCase)
    → Untouched u v
    → v.published ≡ u.published
    → v.recordings ≡ u.recordings
    → Left w event u (store_recording r w event s v)
unfolding store_recording
store_recording-Left (err e) w event s u v same ps rs = (same, ps, rs)
store_recording-Left (ok key) w event s u v same ps rs =
    announce-Left w event key s u (record v { recordings = key ∷ v.recordings }) same ps
      (inr (ap (λ x. key ∷ x) rs))

Untouched-refl : (u : AssemblerUseCase) → Untouched u u
Untouched-refl u = (refl, refl, refl)

finish-Left :
    (w : AssemblyCalls) (event : RecordingAssemblyRequestedEvent) (s : Summary)
    (u : AssemblerUseCase)
    → Left w event u (finish w event s u)
unfolding finish
finish-Left w event s u = go w.open_output refl
  where
    go : (f : Fault) → w.open_output ≡ f → Left w event u (finish w event s u)
    go (some e) h = rw (finish, h) (Untouched-refl u, refl, refl)
    go none h =
        rw (finish, h) (store_recording-Left w.stored w event s u _ (Untouched-refl u) refl refl)

build-Left :
    (w : AssemblyCalls) (event : RecordingAssemblyRequestedEvent) (metas : List SegmentMeta)
    (s : Summary) (u : AssemblerUseCase)
    → Left w event u (build w event metas s u)
unfolding build
build-Left w event metas s u = go (joined w metas) refl
  where
    go : (r : Result (Unit {0})) → joined w metas ≡ r → Left w event u (build w event metas s u)
    go (err e) h = rw (build, h) (Untouched-refl u, refl, refl)
    go (ok x) h = rw (build, h) (finish-Left w event s u)

assemble_listed-Left :
    (fl : Floats) (w : AssemblyCalls) (event : RecordingAssemblyRequestedEvent)
    (l : Result (List SegmentMeta)) (u : AssemblerUseCase)
    → Left w event u (assemble_listed fl w event l u)
unfolding assemble_listed acquired after_check
assemble_listed-Left fl w event (err e) u = (Untouched-refl u, refl, refl)
assemble_listed-Left fl w event (ok []) u = (Untouched-refl u, refl, refl)
assemble_listed-Left fl w event (ok (m ∷ ms)) u =
    go w.ctx_done w.recording_exists refl (load_summary fl w event.stream_id (m ∷ ms) u)
  where
    checked :
        (x : Result Bool)
        → w.recording_exists ≡ x
        → (s : Summary) → Left w event u (after_check x w event (m ∷ ms) s u)
    checked (err e) ex s = (Untouched-refl u, refl, refl)
    checked (ok true) ex s =
        announce-Left w event w.final_key s u u (Untouched-refl u) refl (inl (refl, ex, refl))
    checked (ok false) ex s = build-Left w event (m ∷ ms) s u

    go :
        (c : Fault)
        → (x : Result Bool) → w.recording_exists ≡ x
        → (s : Summary) → Left w event u (acquired c w event (m ∷ ms) s u)
    go (some e) x ex s = (Untouched-refl u, refl, refl)
    go none x ex s = checked w.recording_exists refl s

-- A failure was announced: one event of the stream with the status FAILED.
abbrev pub AnnouncedFailure :
    RecordingAssemblyRequestedEvent → AssemblerUseCase → AssemblerUseCase → Type 0
AnnouncedFailure event u v =
    (e : RecordingPartChangedEvent) × (v.published ≡ e ∷ u.published)
    × (e.stream_id ≡ event.stream_id)
    × (e.status ≡ "FAILED")

-- The answer to a request: without an error the recording is there and announced; with one, nothing was
-- announced or the failure was. Either way the marks of streams in flight are as they were.
abbrev pub Answered :
    AssemblyCalls
    → RecordingAssemblyRequestedEvent
    → AssemblerUseCase
    → AssemblerUseCase × Fault
    → Type 0
Answered w event u (v, none) = Untouched u v × (v.in_flight ≡ u.in_flight) × Recorded w event u v
Answered w event u (v, some e) =
    Untouched u v
    × (v.in_flight ≡ u.in_flight)
    × ((v.published ≡ u.published) ⊎ AnnouncedFailure event u v)

report-Answered :
    (w : AssemblyCalls) (event : RecordingAssemblyRequestedEvent) (u : AssemblerUseCase)
    (r : AssemblerUseCase × Outcome)
    → r.0.in_flight ≡ u.in_flight
    → Left w event u r
    → Answered w event u (report_outcome w event r)
unfolding report_outcome publish_recording_state part_changed
report-Answered w event u (v, assembled) f l = (l.0, f, l.1)
report-Answered w event u (v, unpublished e) f l = (l.0, f, inl l.1)
report-Answered w event u (v, failed e) f l = go (w.event_id 1) refl (w.publish 1) refl
  where
    announcement : String → RecordingPartChangedEvent
    announcement id = part_changed w event id "FAILED" "" no_summary (w.describe e)

    go :
        (i : Result String)
        → w.event_id 1 ≡ i
        → (p : Fault) → w.publish 1 ≡ p
        → Answered w event u (report_outcome w event (v, failed e))
    go (err x) ei p ep = rw (report_outcome, publish_recording_state, ei) (l.0, f, inl l.1)
    go (ok id) ei (some x) ep =
        rw (report_outcome, publish_recording_state, ei, ep) (l.0, f, inl l.1)
    go (ok id) ei none ep =
        rw (report_outcome, publish_recording_state, ei, ep)
          (l.0, f, inr (announcement id, ap (λ x. announcement id ∷ x) l.1, refl, refl))

-- A request for a stream that no other call is working on is answered for, whatever fails: success
-- means one event that says READY or PARTIAL of a recording that is stored, an error means that
-- nothing was published or that one FAILED event was; the segments, inventories and pending entries
-- are not touched, and the mark that keeps a second call out is gone again.
pub assemble_requested-Answered :
    (fl : Floats) (w : AssemblyCalls) (event : RecordingAssemblyRequestedEvent)
    (u : AssemblerUseCase)
    → contains u.in_flight event.stream_id ≡ false
    → Answered w event u (assemble_requested fl w event u)
unfolding assemble_requested assemble
assemble_requested-Answered fl w event u idle =
    rw (assemble_requested, assemble, idle)
      (report-Answered w event u _ refl (
        flown
          (assemble_listed fl w event (list w.list_fault w.now event.stream_id u.segments)
            (record u { in_flight = event.stream_id ∷ u.in_flight }))
          (assemble_listed-Left fl w event (list w.list_fault w.now event.stream_id u.segments)
            (record u { in_flight = event.stream_id ∷ u.in_flight }))))
  where
    flown :
        (r : AssemblerUseCase × Outcome)
        → Left w event (record u { in_flight = event.stream_id ∷ u.in_flight }) r
        → Left w event u (with_flights u.in_flight r)
    flown (v, assembled) l = l
    flown (v, unpublished e) l = l
    flown (v, failed e) l = l
