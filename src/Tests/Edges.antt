-- ===== src/Tests/Edges.antt =====
-- The playlist, the peers and the tokens.
use vox_streaming.Base.{
  ℕ, ◌++◌, ◌<◌, ◌+◌, ◌*◌, ◌≤◌, ◌≡◌, Elem, refl, ◌⊎◌, inr, Bool, true, false, ◌||◌, List, [], ◌∷◌,
  some, String, arith,
}
use vox_streaming.Base.Int.{pos, wrap64, ◌+ℤ◌}
use vox_streaming.Base.Eq.{eq_ℤ}
use vox_streaming.Base.Clock.{sub}
use vox_streaming.Base.Text.{text_eq, contains}
use vox_streaming.Base.Failure.{ok}
use vox_streaming.Cache.Hls.{HlsInitMeta, HlsFragmentMeta}
use vox_streaming.Transport.LiveManifest.{
  Line, extm3u, version, target_duration, media_sequence, discontinuity_sequence, discontinuity,
  map_uri, program_date_time, extinf, build_live_manifest, init_of, discontinuities, epoch_changes,
  build_live_manifest-discontinuities, window_fragments, total_span, window_fragments_shortest,
}
use vox_streaming.Transport.SessionManager.{
  SessionKey, get, replace, steps, leaves, steps-keep_peer,
}
use vox_streaming.Auth.Claims.{
  StreamClaims, MonitorClaims, validate_stream, validate_monitor, can_access, can_monitor_schedule,
  supported_types, schedules_checked, has_monitor_role, has_role,
}
use vox_streaming.Auth.Access.{IsStreamToken, IsStreamType, validate_stream-access}
use vox_streaming.Auth.Monitors.{IsMonitorToken, validate_monitor-access}

abbrev fragment : ℕ → ℕ → HlsFragmentMeta
fragment seq epoch = record {
  seq = pos seq;
  epoch = pos epoch;
  s3_key = "k";
  started_at = seq * 2000000000;
  ended_at = seq * 2000000000 + 2000000000;
  size_bytes = pos 9;
  uploaded_at = 0;
}

abbrev init : ℕ → HlsInitMeta
init epoch = record { epoch = pos epoch; s3_key = "i"; uploaded_at = 0 }

-- Three fragments over two restarts, of which the window keeps the last two.
abbrev fragments : List HlsFragmentMeta
fragments = fragment 1 0 ∷ fragment 2 1 ∷ fragment 3 2 ∷ []

abbrev lines : List Line
lines =
    extm3u
    ∷ version 7
    ∷ target_duration 2
    ∷ media_sequence (pos 2)
    ∷ discontinuity_sequence 1
    ∷ map_uri (pos 1)
    ∷ program_date_time 4000000000
    ∷ extinf (pos 2000000000) (pos 2)
    ∷ discontinuity
    ∷ map_uri (pos 2)
    ∷ program_date_time 6000000000
    ∷ extinf (pos 2000000000) (pos 3)
    ∷ []

rendered :
    build_live_manifest (init 0 ∷ init 1 ∷ init 2 ∷ []) fragments (pos 4000000000) false ≡ ok lines
unfolding build_live_manifest wrap64 ◌+ℤ◌ sub init_of
rendered = refl

build_live_manifest-discontinuities_example : discontinuities lines ≡ epoch_changes fragments
build_live_manifest-discontinuities_example =
    build_live_manifest-discontinuities (init 0 ∷ init 1 ∷ init 2 ∷ []) fragments (pos 4000000000)
      false lines ((refl, (refl, tt)), ((refl, tt), (tt, tt))) (refl, (refl, (refl, tt))) rendered

window_fragments_shortest_example :
    (before : List HlsFragmentMeta) × (before ++ window_fragments fragments (pos 3000000000)
      ≡ fragments)
    × ((before ≡ []) ⊎ (3000000000 ≤ total_span (window_fragments fragments (pos 3000000000))))
    × ((f : HlsFragmentMeta) (later : List HlsFragmentMeta)
        → window_fragments fragments (pos 3000000000) ≡ f ∷ later
        → total_span later < 3000000000)
unfolding total_span
window_fragments_shortest_example =
    window_fragments_shortest fragments 3000000000 (omega arith)
      (omega arith, (omega arith, (omega arith, tt))) (omega arith)

abbrev seat : SessionKey
seat = record { schedule_id = "room"; participant_id = "c"; stream_type = "camera" }

steps-keep_peer_example :
    get seat (steps (leaves seat 1 ∷ []) (replace seat 2 ((seat, 1) ∷ [])).1) ≡ some 2
steps-keep_peer_example =
    steps-keep_peer seat 2 (leaves seat 1 ∷ []) ((seat, 1) ∷ [])
      (inr (λ e. absurd (omega (arith, e))), tt)

abbrev student : StreamClaims
student = record {
  candidate_id = "c";
  session_id = "s";
  schedule_id = "room";
  exam_id = "x";
  stream_types = "camera" ∷ [];
  token_use = "stream";
  schedule_end_at = pos 0;
}

accepted : validate_stream (ok student) ≡ ok student
unfolding validate_stream supported_types text_eq
accepted = refl

validate_stream-access_example :
    (ok student ≡ ok student)
    × IsStreamToken student
    × (can_access student "room" "camera" ≡ true
        → (student.schedule_id ≡ "room")
          × Elem "camera" student.stream_types
          × IsStreamType "camera")
validate_stream-access_example =
    validate_stream-access (ok student) student "room" "camera" accepted

abbrev proctor : MonitorClaims
proctor = record {
  user_id = "u";
  school_id = "h";
  monitor_scope = "EXAM_CHAIR";
  schedule_ids = "room" ∷ [];
  exam_id = "x";
  roles = "TEACHER" ∷ [];
  token_use = "monitor";
  subject = "u";
  jti = "j";
}

abbrev any_uuid : String → Bool
any_uuid s = true

admitted : validate_monitor any_uuid (ok proctor) ≡ ok proctor
unfolding validate_monitor schedules_checked has_monitor_role has_role text_eq contains
admitted = refl

validate_monitor-access_example :
    (ok proctor ≡ ok proctor)
    × IsMonitorToken any_uuid proctor
    × (can_monitor_schedule proctor "room" ≡ true
        → (contains ("room" ∷ []) "room" ≡ true)
          × (any_uuid "room" ≡ true)
          × (((text_eq "EXAM_CHAIR" "SCHOOL_ADMIN" ≡ true)
                × (contains ("TEACHER" ∷ []) "SCHOOL_ADMIN" ≡ true))
              ⊎ ((text_eq "EXAM_CHAIR" "EXAM_CHAIR" || text_eq "EXAM_CHAIR" "SCHEDULE_PROCTOR"
                    ≡ true)
                  × (contains ("TEACHER" ∷ []) "TEACHER" ≡ true))))
validate_monitor-access_example =
    validate_monitor-access any_uuid (ok proctor) proctor "room" admitted
