-- ===== src/Usecase/Assembler/Build.antt =====
-- assembler_usecase.go: the work of one assembly. The job directory, ffmpeg and the object store answer
-- from outside.
use vox_streaming.Base.{
  ℕ, ◌*◌, ◌%◌, ◌^◌, Bool, true, false, List, [], ◌∷◌, none, some, String, ltb, if◌then◌else◌,
  length,
}
use vox_streaming.Base.Failure.{Result, ok, err, Fault, check_as, wrapped, message, ◌>>◌}
use vox_streaming.Domain.{RecordingAssemblyRequestedEvent}
use vox_streaming.Cache.Segment.{SegmentMeta}
use vox_streaming.Cache.Upload.{lookup_upload}
use vox_streaming.Usecase.Assembler.Announce.{
  AssemblerUseCase, AssemblyCalls, Outcome, Summary, announce, failed,
}

-- `checkDiskSpace`: an unknown amount of space is enough. The product is of 64 bits.
unfoldable pub check_disk_space : Result ℕ → ℕ → Fault
check_disk_space (err e) segments = none
check_disk_space (ok available) segments =
    if ltb available (segments * 20 * 1024 * 1024 * 2 % 2 ^ 64)
    then some (message "insufficient disk space")
    else none

abbrev pub some_files : Result (List String) → Result (Unit {0})
some_files (err e) = err (wrapped "glob segments" e)
some_files (ok []) = err (message "no segments downloaded")
some_files (ok (f ∷ fs)) = ok tt

-- The work in the job directory, up to the joined file.
unfoldable pub joined : AssemblyCalls → List SegmentMeta → Result (Unit {0})
unfolding check_disk_space
joined w metas = do
  check_as "create job dir" w.mkdir
  check_as "pre-flight disk check" (check_disk_space w.disk_space (length metas))
  check_as "download segments" w.download
  some_files w.local_files
  check_as "write concat list" w.concat_list
  check_as "ffmpeg concat" w.concat

unfoldable pub store_recording :
    Result String
    → AssemblyCalls
    → RecordingAssemblyRequestedEvent
    → Summary
    → AssemblerUseCase
    → AssemblerUseCase × Outcome
unfolding announce
store_recording (err e) w event s u = (u, failed (wrapped "upload final recording" e))
store_recording (ok key) w event s u =
    announce w event key s (record u { recordings = key ∷ u.recordings })

-- From the joined file to the end; the look at the upload session may drop an expired one.
unfoldable pub finish :
    AssemblyCalls
    → RecordingAssemblyRequestedEvent
    → Summary
    → AssemblerUseCase
    → AssemblerUseCase × Outcome
unfolding store_recording
finish w event s u =
    let v : AssemblerUseCase = record u {
      sessions = (lookup_upload w.lookup_fault w.now event.stream_id u.sessions).0;
    } in
    elim (check_as "open output" w.open_output) [
      | err e ↦ (v, failed e)
      | ok _ ↦ store_recording w.stored w event s v
    ]

unfoldable pub build :
    AssemblyCalls
    → RecordingAssemblyRequestedEvent
    → List SegmentMeta
    → Summary
    → AssemblerUseCase
    → AssemblerUseCase × Outcome
unfolding joined finish
build w event metas s u = elim (joined w metas) [
  | err e ↦ (u, failed e)
  | ok _ ↦ finish w event s u
]

-- What is done when the store was asked for the recording.
unfoldable pub after_check :
    Result Bool
    → AssemblyCalls
    → RecordingAssemblyRequestedEvent
    → List SegmentMeta
    → Summary
    → AssemblerUseCase
    → AssemblerUseCase × Outcome
unfolding announce build
after_check (err e) w event metas s u = (u, failed (wrapped "check existing recording" e))
after_check (ok true) w event metas s u = announce w event w.final_key s u
after_check (ok false) w event metas s u = build w event metas s u

-- The wait for one of the three places, or for the end of the context.
unfoldable pub acquired :
    Fault
    → AssemblyCalls
    → RecordingAssemblyRequestedEvent
    → List SegmentMeta
    → Summary
    → AssemblerUseCase
    → AssemblerUseCase × Outcome
unfolding after_check
acquired (some e) w event metas s u = (u, failed e)
acquired none w event metas s u = after_check w.recording_exists w event metas s u
