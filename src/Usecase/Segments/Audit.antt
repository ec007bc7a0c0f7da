-- ===== src/Usecase/Segments/Audit.antt =====
-- segment_usecase.go: auditing and completing a stream.
use vox_streaming.Base.{ℕ, Bool, true, List, Option, String, if◌then◌else◌, length}
use vox_streaming.Base.Text.{is_empty}
use vox_streaming.Base.Clock.{Duration}
use vox_streaming.Base.Failure.{Result, ok, err, wrapped}
use vox_streaming.Cache.Segment.{SegmentMeta, SegmentRegistry, list, mark_complete}
use vox_streaming.Cache.Inventory.{StreamInventory, find_inventory}
use vox_streaming.Cache.Upload.{UploadSession, UploadRegistry, lookup_upload, mark_upload_complete}
use vox_streaming.Stream.Gap.{SegmentGap, audit_gaps}
use vox_streaming.Stream.Float.{Floats}
use vox_streaming.Stream.Coverage.{StreamCoverage, reconcile, coverage_has_gaps, recorded_duration}
use vox_streaming.Usecase.Segments.Defs.{
  Hashing, SegmentUploadRequest, SegmentUseCase, Calls, owned,
}

pub record StreamAudit (F : Type 0) : Type 0 where
  pub stream_id : String
  pub total_segments : ℕ
  pub gaps : List SegmentGap
  pub has_gaps : Bool
  pub recorded : Duration
  pub coverage : StreamCoverage F

unfoldable pub audit_of :
    (fl : Floats) → String → Option StreamInventory → List SegmentMeta → StreamAudit fl.Float
audit_of fl stream_id inventory metas =
    let coverage = reconcile fl inventory metas in
    record {
      stream_id = stream_id;
      total_segments = length metas;
      gaps = (audit_gaps metas).0;
      has_gaps = coverage_has_gaps coverage;
      recorded = recorded_duration inventory metas;
      coverage = coverage;
    }

abbrev pub audit_read :
    (fl : Floats)
    → String
    → Result (List SegmentMeta)
    → Result (Option StreamInventory)
    → Result (StreamAudit fl.Float)
audit_read fl stream_id (err e) inventory = err e
audit_read fl stream_id (ok metas) (err e) = err e
audit_read fl stream_id (ok metas) (ok inventory) = ok (audit_of fl stream_id inventory metas)

unfoldable pub audit :
    (fl : Floats)
    → Hashing
    → Calls
    → SegmentUploadRequest
    → SegmentUseCase
    → SegmentUseCase × Result (StreamAudit fl.Float)
unfolding owned audit_of
audit fl h w req u =
    owned h req.stream_id req.upload_token
      (lookup_upload w.lookup_fault w.now req.stream_id u.sessions) u
      (λ session v. (
        v,
        audit_read fl req.stream_id (list w.list_fault w.now req.stream_id v.segments)
            (find_inventory w.inventory_fault w.now req.stream_id v.inventory),
      ))

-- The copy of the session that `MarkComplete` hands back.
unfoldable pub reported_session : String → UploadSession → UploadSession
reported_session reason s = record s {
  completed = true;
  stop_reason = if is_empty s.stop_reason then reason else s.stop_reason;
}

abbrev pub flagged :
    Result SegmentRegistry
    → UploadSession
    → Bool
    → SegmentUseCase
    → SegmentUseCase × Result (UploadSession × Bool)
flagged (err e) session newly u = (u, err (wrapped "mark segment stream complete" e))
flagged (ok r) session newly u = (record u { segments = r }, ok (session, newly))

unfoldable pub complete_owned :
    Calls
    → SegmentUploadRequest
    → UploadSession
    → UploadRegistry × Result Bool
    → SegmentUseCase
    → SegmentUseCase × Result (UploadSession × Bool)
unfolding reported_session
complete_owned w req session (sessions, err e) u = (record u { sessions = sessions }, err e)
complete_owned w req session (sessions, ok newly) u =
    flagged (mark_complete w.mark_fault w.now req.stream_id u.segments)
      (reported_session req.stop_reason session) newly (record u { sessions = sessions })

-- `MarkComplete`.
unfoldable pub complete_upload :
    Hashing
    → Calls
    → SegmentUploadRequest
    → SegmentUseCase
    → SegmentUseCase × Result (UploadSession × Bool)
unfolding owned complete_owned
complete_upload h w req u =
    owned h req.stream_id req.upload_token
      (lookup_upload w.lookup_fault w.now req.stream_id u.sessions) u
      (λ session v.
        complete_owned w req session
          (mark_upload_complete w.complete_fault w.now req.stream_id req.stop_reason v.sessions) v)
