-- ===== src/Cache/Pending/Registry.antt =====
-- assembly.go: the registry and its operations.
use vox_streaming.Base.{
  ℕ, ◌+◌, Bool, List, [], ◌∷◌, none, some, String, ltb, leb, if◌then◌else◌, take,
}
use vox_streaming.Base.Text.{is_empty}
use vox_streaming.Base.Clock.{Time, unix}
use vox_streaming.Base.Eq.{eq_text}
use vox_streaming.Base.Order.{sort}
use vox_streaming.Base.Store.{Store, insert, remove}
use vox_streaming.Base.Redis.{Keys, Document, doc, garbage, get, set, del}
use vox_streaming.Base.Failure.{Result, ok, err, Fault, check_as, wrapped, ◌>>◌}
use vox_streaming.Cache.Segment.{segment_ttl}

abbrev pub pending_assembly_ttl : ℕ
pending_assembly_ttl = segment_ttl

pub record PendingAssembly : Type 0 where
  pub stream_id : String
  pub schedule_id : String
  pub session_id : String
  pub participant_id : String
  pub stream_type : String
  pub due_at : Time
  pub attempts : ℕ
  pub source : String

abbrev pub assembly_source_watchdog : String
assembly_source_watchdog = "SERVER_WATCHDOG"

abbrev pub assembly_source_webrtc : String
assembly_source_webrtc = "SERVER_WEBRTC"

unfoldable pub assembly_source : PendingAssembly → String
unfolding is_empty
assembly_source p = if is_empty p.source then assembly_source_watchdog else p.source

-- `due` is the sorted set, members with their scores, a key of its own that expires at `due_expires`;
-- every entry pushes that out.
pub record PendingRegistry : Type 0 where
  pub due : Store String ℕ
  pub due_expires : Time
  pub details : Keys String (Document PendingAssembly)

-- The sorted set as Redis shows it.
unfoldable pub live_due : Time → PendingRegistry → Store String ℕ
live_due now r = if ltb now r.due_expires then r.due else []

unfoldable pub schedule : Fault → Time → PendingAssembly → PendingRegistry → Result PendingRegistry
unfolding live_due
schedule fault now p r = do
  check_as "schedule pending assembly" fault
  ok (record {
    due = insert p.stream_id (unix p.due_at) (live_due now r);
    due_expires = now + pending_assembly_ttl;
    details = set p.stream_id (doc p) (now + pending_assembly_ttl) r.details;
  })

unfoldable pub cancel : Fault → String → PendingRegistry → Result PendingRegistry
cancel fault stream_id r = do
  check_as "cancel pending assembly" fault
  ok (record r { due = remove stream_id r.due; details = del stream_id r.details })

-- The members whose score is at most `now`, in order of their scores.
unfoldable pub scored_up_to : ℕ → Store String ℕ → Store String ℕ
scored_up_to now [] = []
scored_up_to now ((i, s) ∷ m) =
    if leb s now then (i, s) ∷ scored_up_to now m else scored_up_to now m

abbrev pub score_before : String × ℕ → String × ℕ → Bool
score_before (i, s) (j, t) = ltb s t

abbrev pub members : Store String ℕ → List String
members [] = []
members ((i, s) ∷ m) = i ∷ members m

-- ZRANGEBYSCORE -inf now LIMIT 0 limit.
unfoldable pub range_by_score : ℕ → ℕ → Store String ℕ → List String
unfolding scored_up_to
range_by_score now limit m = members (take limit (sort score_before (scored_up_to now m)))

-- The errors of the reads of a sweep, and of the removals whose errors `Due` ignores, by stream.
pub record SweepFaults : Type 0 where
  pub load : String → Fault
  pub clean : String → Fault

abbrev pub unless_fault {ℓ} : {A : Type ℓ} → Fault → A → A → A
unless_fault none new old = new
unless_fault (some e) new old = old

-- ZREM alone, and `Cancel`, as `Due` calls them.
abbrev pub drop_member : Fault → String → PendingRegistry → PendingRegistry
drop_member fault i r = unless_fault fault (record r { due = remove i r.due }) r

abbrev pub drop_entry : Fault → String → PendingRegistry → PendingRegistry
drop_entry fault i r =
    unless_fault fault (record r { due = remove i r.due; details = del i r.details }) r

abbrev pub prepend {ℓ} :
    {A : Type ℓ} → A → PendingRegistry × Result (List A) → PendingRegistry × Result (List A)
prepend p (r, ok ps) = (r, ok (p ∷ ps))
prepend p (r, err e) = (r, err e)

-- The loop of `Due`. An entry whose details are gone, or do not decode, is removed and left out; a
-- read that fails ends the sweep.
unfoldable pub due_loop :
    SweepFaults
    → Time
    → List String
    → PendingRegistry
    → PendingRegistry × Result (List PendingAssembly)
due_loop f now [] r = (r, ok [])
due_loop f now (i ∷ is) r = elim (f.load i) [
  | some e ↦ (r, err (wrapped "load pending assembly" e))
  | none ↦ elim (get now i r.details) [
    | none ↦ due_loop f now is (drop_member (f.clean i) i r)
    | some d ↦ elim d [
      | garbage ↦ due_loop f now is (drop_entry (f.clean i) i r)
      | doc p ↦ prepend p (due_loop f now is r)
    ]
  ]
]

unfoldable pub due :
    Fault
    → SweepFaults
    → Time
    → ℕ
    → PendingRegistry
    → PendingRegistry × Result (List PendingAssembly)
unfolding due_loop range_by_score live_due
due (some e) f now limit r = (r, err (wrapped "list due assemblies" e))
due none f now limit r = due_loop f now (range_by_score (unix now) limit (live_due now r)) r
