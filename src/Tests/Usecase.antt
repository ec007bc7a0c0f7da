-- ===== src/Tests/Usecase.antt =====
-- The use case of uploads, and what is missing of a recording.
use vox_streaming.Base.{
  ℕ, ◌+◌, ◌*◌, ◌≡◌, refl, ◌↔◌, true, false, [], ◌∷◌, none, some, String, arith, Elem, if◌then◌else◌,
  ltb, Option, List, ap,
}
use vox_streaming.Base.Int.{ℤ, pos}
use vox_streaming.Base.Eq.{eq_text, eq_ℤ}
use vox_streaming.Base.Text.{text_eq}
use vox_streaming.Base.Store.{lookup}
use vox_streaming.Base.Order.{IsSorted}
use vox_streaming.Base.Redis.{doc, get, get_cell, live, hget, hgetall}
use vox_streaming.Base.Failure.{
  ok, err, segment_conflict, upload_session_ownership, upload_session_completed,
}
use vox_streaming.Cache.Segment.{SegmentMeta, find}
use vox_streaming.Cache.Inventory.{DeclaredSegment, StreamInventory}
use vox_streaming.Cache.Upload.{UploadSession, lookup_upload, lookup_found}
use vox_streaming.Stream.Float.{Floats}
use vox_streaming.Stream.Coverage.{reconcile, ltb_seq, IsAbsent, IsDeclared, reconcile-missing}
use vox_streaming.Usecase.Segments.{
  Hashing, SegmentUploadRequest, InventoryDeclaration, SegmentUseCase, Calls, owns, bytes_eq,
  upload, with_segment, upload_again, upload-complete_upload, reported_session, declare_inventory,
  complete_upload, audit, IsOwnToken, stranger_changes_nothing,
}

-- Floating-point numbers that stand for whole ones.
abbrev pub whole : Floats
whole = record {
  Float = ℕ;
  of_int = λ n. 1;
  seconds_of = λ d. 1;
  plus = λ a b. a + b;
  times = λ a b. a * b;
  over = λ a b. a;
  less = ltb;
}

abbrev pub segment : ℕ → SegmentMeta
segment n = record {
  seq = pos n;
  s3_key = "k";
  sha256 = "h";
  started_at = n;
  ended_at = n + 1;
  size_bytes = pos 9;
  uploaded_at = 9;
}

abbrev declared : ℕ → DeclaredSegment
declared n = record {
  seq = pos n;
  started_at = n;
  ended_at = n + 1;
  sha256 = "h";
  size_bytes = pos 9;
  frames_written = pos 30;
}

abbrev inventory : StreamInventory
inventory = record {
  stream_id = "a";
  complete = true;
  declared_at = 5;
  segments = declared 1 ∷ declared 2 ∷ [];
}

reconcile-missing_example :
    IsSorted ltb_seq (reconcile whole (some inventory) (segment 1 ∷ [])).missing_seqs
    × ((seq : ℤ)
        → Elem seq (reconcile whole (some inventory) (segment 1 ∷ [])).missing_seqs
          ↔ (IsDeclared inventory.segments seq × IsAbsent (segment 1 ∷ []) seq))
reconcile-missing_example =
    reconcile-missing whole inventory (declared 1) (declared 2 ∷ []) (segment 1 ∷ []) refl

abbrev session_a : UploadSession
session_a = record {
  stream_id = "a";
  candidate_id = "c";
  session_id = "s";
  schedule_id = "room";
  stream_type = "camera";
  created_at = 0;
  expires_at = 9000000;
  completed = false;
  upload_token_hash = "00";
  stop_reason = "";
}

-- A hash that is the length of nothing: each token decodes to its own mark.
abbrev hashing : Hashing
hashing = record {
  sha256 = λ t. if text_eq t "secret" then 7 ∷ [] else 8 ∷ [];
  hex_decode = λ t. some (7 ∷ []);
}

abbrev request : String → String → SegmentUploadRequest
request token sha = record {
  stream_id = "a";
  upload_token = token;
  seq = pos 1;
  started_at = 1;
  ended_at = 2;
  sha256 = sha;
  payload = 1 ∷ [];
  stop_reason = "";
}

abbrev calls : ℕ → Calls
calls now = record {
  now = now;
  lookup_fault = none;
  find_fault = none;
  stored = ok "key";
  add_fault = none;
  inventory_fault = none;
  put_fault = none;
  list_fault = none;
  complete_fault = none;
  mark_fault = none;
}

abbrev service : SegmentUseCase
service = record {
  sessions = record {
    sessions = ("a", record { value = doc session_a; deadline = 9000000 }) ∷ [];
    index = [];
  };
  segments = record { hashes = []; complete = [] };
  inventory = [];
  objects = [];
}

looked_up : lookup_upload none 1 "a" service.sessions ≡ (service.sessions, ok session_a)
unfolding lookup_upload lookup_found get get_cell live lookup text_eq
looked_up = refl

looked_up_later : lookup_upload none 2 "a" service.sessions ≡ (service.sessions, ok session_a)
unfolding lookup_upload lookup_found get get_cell live lookup text_eq
looked_up_later = refl

owner : owns hashing session_a "a" "secret" ≡ true
unfolding owns bytes_eq text_eq
owner = refl

first_byte : Option (List ℕ) → ℕ
first_byte (some (x ∷ xs)) = x
first_byte o = 0

stranger : ¬ (IsOwnToken hashing session_a "a" "guess")
unfolding text_eq first_byte
stranger o = absurd (omega (arith, ap first_byte o.1))

nothing_there : find none 1 "a" (pos 1) service.segments ≡ ok none
unfolding find hget hgetall get get_cell live lookup
nothing_there = refl

upload_again_example :
    (upload hashing (calls 1) (request "secret" "h") service
      ≡ (with_segment "key" (calls 1) (request "secret" "h") service, ok tt))
    × (upload hashing
          (calls 2)
          (request "secret" "other")
          (with_segment "key" (calls 1) (request "secret" "h") service)
        ≡ (
          with_segment "key" (calls 1) (request "secret" "h") service,
          (if text_eq "h" "other" then ok tt else err segment_conflict),
        ))
upload_again_example =
    upload_again hashing (calls 1) (calls 2) (request "secret" "h") (request "secret" "other")
      service session_a "key" looked_up looked_up_later owner refl nothing_there refl refl refl
      (omega arith) refl refl refl

shown : get 1 "a" service.sessions.sessions ≡ some (doc session_a)
unfolding get get_cell live lookup text_eq
shown = refl

shown_later : get 2 "a" service.sessions.sessions ≡ some (doc session_a)
unfolding get get_cell live lookup text_eq
shown_later = refl

upload-complete_upload_example :
    ((complete_upload hashing (calls 1) (request "secret" "h") service).1
      ≡ ok (reported_session "" session_a, true))
    × (upload hashing
          (calls 2)
          (request "secret" "h")
          (complete_upload hashing (calls 1) (request "secret" "h") service).0
        ≡ (
          (complete_upload hashing (calls 1) (request "secret" "h") service).0,
          err upload_session_completed,
        ))
upload-complete_upload_example =
    upload-complete_upload hashing (calls 1) (calls 2) (request "secret" "h") (request "secret" "h")
      service session_a shown shown_later (omega arith) (omega arith) owner refl refl refl refl refl
      refl

abbrev declaration : InventoryDeclaration
declaration = record {
  stream_id = "a";
  upload_token = "guess";
  complete = true;
  declared_at = 1;
  segments = [];
}

stranger_changes_nothing_example :
    (upload hashing (calls 1) (request "guess" "h") service
      ≡ (service, err upload_session_ownership))
    × (declare_inventory hashing (calls 1) declaration service
        ≡ (service, err upload_session_ownership))
    × (complete_upload hashing (calls 1) (request "guess" "h") service
        ≡ (service, err upload_session_ownership))
    × (audit whole hashing (calls 1) (request "guess" "h") service
        ≡ (service, err upload_session_ownership))
stranger_changes_nothing_example =
    stranger_changes_nothing whole hashing (calls 1) (request "guess" "h") declaration service
      session_a refl refl looked_up stranger
