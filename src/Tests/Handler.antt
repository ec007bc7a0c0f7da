-- ===== src/Tests/Handler.antt =====
-- The endpoints for segments.
use vox_streaming.Base.{
  ℕ, zero, suc, ◌+◌, ◌*◌, ◌≡◌, refl, ◌⊎◌, inl, inr, true, false, List, [], ◌∷◌, Option, none, some,
  String, if◌then◌else◌, Bool-cases, leb, ltb, arith, sym, subst,
}
use vox_streaming.Base.Int.{pos}
use vox_streaming.Base.Text.{text_eq, text_eq_iff, is_empty, contains}
use vox_streaming.Base.Eq.{eq_text}
use vox_streaming.Base.Store.{lookup, insert}
use vox_streaming.Base.Clock.{sub}
use vox_streaming.Base.Failure.{ok, err, message}
use vox_streaming.Stream.Float.{Floats}
use vox_streaming.Base.Redis.{doc, set, hget, get, get_cell, live}
use vox_streaming.Auth.Claims.{
  StreamClaims, can_stream, validate_stream, supported_types, schedule_end,
}
use vox_streaming.Cache.Upload.{
  lookup_upload, mark_upload_complete, IsValid, register_or_get_upload, registered_or_fault,
  register_script, register_fresh,
}
use vox_streaming.Cache.Pending.{PendingAssembly, live_due, schedule}
use vox_streaming.Cache.Segment.{mark_complete, find, add}
use vox_streaming.Usecase.Segments.{complete_upload, Calls, SegmentUploadRequest, upload}
use vox_streaming.Handler.Segments.{
  bearer_token, checked_upload, Request, Library, refused, no_content, json, SegmentHandler,
  Answers, answered, upload_segment, IsSound, upload_segment-IsSound, complete, HandedOver,
  complete-HandedOver, Call, uploads, completes, opens, serve_all, IsOwed, serve_all-IsOwed,
  create_session, HasOpened, create_session-HasOpened, checked_session, validate_stream_token,
  new_upload_token, credential_expires, session_registered, announce_session, announced,
  after_bearer,
}

-- Floating-point numbers that stand for whole ones.
abbrev whole : Floats
whole = record {
  Float = ℕ;
  of_int = λ n. 1;
  seconds_of = λ d. 1;
  plus = λ a b. a + b;
  times = λ a b. a * b;
  over = λ a b. a;
  less = ltb;
}

abbrev claims : StreamClaims
claims = record {
  candidate_id = "c";
  session_id = "s";
  schedule_id = "room";
  exam_id = "exam";
  stream_types = "camera" ∷ [];
  token_use = "stream";
  schedule_end_at = pos 0;
}

-- A hash is 32 times the byte 7, or 32 times the byte 8; the text of it is one of the bytes.
abbrev times : ℕ → ℕ → List ℕ
times zero b = []
times (suc n) b = b ∷ times n b

abbrev digest : ℕ → List ℕ
digest b = times 32 b

abbrev digit : List ℕ → String
digit [] = ""
digit (b ∷ bs) = if leb b 7 then "07" else "08"

abbrev undigit : String → Option (List ℕ)
undigit t = if text_eq t "07" then some (digest 7) else some (digest 8)

abbrev mark : String → List ℕ
mark t = if text_eq t "secret" then digest 7 else digest 8

abbrev library : Library
library = record {
  hashing = record { sha256 = mark; hex_decode = undigit };
  trim_space = λ t. t;
  to_lower = λ t. t;
  equal_fold = text_eq;
  is_uuid = λ t. true;
  parse_int = λ t. some (pos 1);
  parse_time = λ t. if text_eq t "later" then some 2 else some 1;
  media_type = λ t. some t;
  sha256_bytes = λ bs. digest 7;
  hex_encode = digit;
  base64 = λ bs. "secret";
  parse_token = λ t. if text_eq t "jwt" then ok claims else err (message "token is invalid");
  token_expires = λ c. 9000000;
  decode_stop_reason = λ bs. none;
  decode_inventory = λ b. none;
  decode_stream_type = λ b. some "camera";
}

abbrev request : String → Request
request token = record {
  authorization = token;
  stream_id = "a";
  seq = "1";
  started_at = "now";
  ended_at = "later";
  content_type = "video/mp4";
  content_length = pos 1;
  segment_sha256 = "07";
  body = record { bytes = 1 ∷ []; broken = false };
}

abbrev calls : Calls
calls = record {
  now = 1;
  lookup_fault = none;
  find_fault = none;
  stored = ok "key";
  add_fault = none;
  inventory_fault = none;
  put_fault = none;
  list_fault = none;
  complete_fault = none;
  mark_fault = none;
}

abbrev answers : Answers
answers = record {
  calls = calls;
  new_stream_id = some "a";
  event_id = some "e";
  random = some (1 ∷ []);
  register_fault = none;
  schedule_fault = none;
  publish_fault = none;
  cancel_fault = none;
}

abbrev empty : SegmentHandler
empty = record {
  use_case = record {
    sessions = record { sessions = []; index = [] };
    segments = record { hashes = []; complete = [] };
    inventory = [];
    objects = [];
  };
  pending = record { due = []; due_expires = 0; details = [] };
  published = [];
}

empty-IsValid : IsValid empty.use_case.sessions
unfolding lookup
empty-IsValid k = tt

decodes : (t : String) → undigit (digit (mark t)) ≡ some (mark t)
unfolding text_eq
decodes t = elim (Bool-cases (text_eq t "secret")) [ inl e ↦ rw e refl | inr e ↦ rw e refl ]

create_session-HasOpened_example :
    HasOpened library answers empty (create_session library answers (request "Bearer jwt") empty)
create_session-HasOpened_example =
    create_session-HasOpened library answers (request "Bearer jwt") empty decodes empty-IsValid

-- The client that opened a stream completes it: its session, its watch and its token are there.
abbrev opened : SegmentHandler
opened = (create_session library answers (request "Bearer jwt") empty).0

created :
    (create_session library answers (request "Bearer jwt") empty).1
    ≡ json 201 (record {
      stream_id = "a";
      stream_type = "camera";
      expires_at = 9000000 + 1800000000000;
      upload_token = "secret";
    })
unfolding create_session checked_session validate_stream_token can_stream new_upload_token
    credential_expires session_registered announce_session announced after_bearer
    register_or_get_upload registered_or_fault register_script register_fresh validate_stream
    supported_types schedule_end text_eq is_empty contains get get_cell live lookup
created = refl

-- The watchdog watches the stream "a".
abbrev watched_a : PendingAssembly
watched_a = record {
  stream_id = "a";
  schedule_id = "room";
  session_id = "s";
  participant_id = "c";
  stream_type = "camera";
  due_at = 9;
  attempts = 0;
  source = "";
}

abbrev watched : SegmentHandler
watched = record empty {
  pending = record {
    due = ("a", 9) ∷ [];
    due_expires = 9000;
    details = ("a", record { value = doc watched_a; deadline = 9000 }) ∷ [];
  };
}

watched-IsOwed : IsOwed 8000 "a" watched
unfolding lookup text_eq live_due get get_cell live
watched-IsOwed = inl (9, watched_a, refl, refl)

handed_over : (complete library answers (request "Bearer secret") opened).1 ≡ no_content
unfolding complete bearer_token complete_upload lookup_upload get live lookup create_session
    contains register_or_get_upload schedule set insert mark_upload_complete mark_complete
handed_over = refl

complete-HandedOver_example :
    HandedOver answers "a" opened (complete library answers (request "Bearer secret") opened)
complete-HandedOver_example = complete-HandedOver library answers (request "Bearer secret") opened

accepted : (upload_segment library answers (request "Bearer secret") opened).1 ≡ no_content
unfolding upload_segment checked_upload bearer_token sub upload lookup_upload get live lookup
    create_session contains register_or_get_upload schedule set insert find hget add
accepted = refl

abbrev served : List Call
served =
    opens answers (request "Bearer jwt")
    ∷ uploads answers (request "Bearer secret")
    ∷ completes answers (request "Bearer secret")
    ∷ []

serve_all-IsOwed_example : IsOwed 8000 "a" (serve_all whole library served watched)
serve_all-IsOwed_example =
    serve_all-IsOwed 8000 whole library served "a" watched
      ((omega arith, omega arith), ((omega arith, omega arith), ((omega arith, omega arith), tt)))
      watched-IsOwed

folds :
    (a : String) (b : List ℕ) → text_eq a (digit (digest 7)) ≡ true → undigit a ≡ some (digest 7)
unfolding text_eq
folds a b e =
    subst (λ (t : String). undigit t ≡ some (digest 7)) (sym ((text_eq_iff a "07").0 e)) refl

upload_segment-IsSound_example :
    ((status : ℕ) × (text : String) × (upload_segment library answers
          (request "Bearer secret")
          opened
        ≡ (opened, refused status text)))
    ⊎ ((q : SegmentUploadRequest) × IsSound library (request "Bearer secret") q
        × (upload_segment library answers (request "Bearer secret") opened
            ≡ answered "upload failed" (upload library.hashing calls q opened.use_case) opened))
upload_segment-IsSound_example =
    upload_segment-IsSound library answers (request "Bearer secret") opened folds
