-- ===== src/Cache/Segment.antt =====
-- internal/infrastructure/cache/segment.go: the segments that were uploaded, by stream and sequence
-- number, and the flag that the client is done.
use vox_streaming.Base.{
  ℕ, ◌+◌, ◌<◌, ◌≡◌, Bool, true, false, List, Option, none, some, String, arith, subst, inl, inr,
  if◌then◌else◌, Bool-cases,
}
use vox_streaming.Base.Int.{ℤ, ltb_ℤ}
use vox_streaming.Base.Clock.{Time, minutes}
use vox_streaming.Base.Eq.{eq, eq_ℤ, eq_text}
use vox_streaming.Base.Order.{sort, IsSorted, sort-IsSorted}
use vox_streaming.Base.Store.{Store, values}
use vox_streaming.Base.Redis.{
  Keys, Document, doc, garbage, get, set, hget, hgetall, hset_expire, decoded, hget-hset_expire,
}
use vox_streaming.Base.Failure.{ok-injective, Result, ok, err, Fault, check, message, ◌>>=◌, ◌>>◌}

-- 24 hours.
abbrev pub segment_ttl : ℕ
segment_ttl = minutes 1440

pub record SegmentMeta : Type 0 where
  pub seq : ℤ
  pub s3_key : String
  pub sha256 : String
  pub started_at : Time
  pub ended_at : Time
  pub size_bytes : ℤ
  pub uploaded_at : Time

pub record SegmentRegistry : Type 0 where
  pub hashes : Keys String (Store ℤ (Document SegmentMeta))
  pub complete : Keys String String

unfoldable pub add : Fault → Time → String → SegmentMeta → SegmentRegistry → Result SegmentRegistry
add fault now stream_id meta r = do
  check fault
  ok (record r {
    hashes = hset_expire now stream_id meta.seq (doc meta) (now + segment_ttl) r.hashes;
  })

-- `nil, nil` when the field is not there.
abbrev pub decode_field {ℓ} : {A : Type ℓ} → Option (Document A) → Result (Option A)
decode_field none = ok none
decode_field (some (doc m)) = ok (some m)
decode_field (some garbage) = err (message "unmarshal")

unfoldable pub find : Fault → Time → String → ℤ → SegmentRegistry → Result (Option SegmentMeta)
find fault now stream_id seq r = do check fault; decode_field (hget now stream_id seq r.hashes)

abbrev pub seq_before : SegmentMeta → SegmentMeta → Bool
seq_before a b = ltb_ℤ a.seq b.seq

unfoldable pub list : Fault → Time → String → SegmentRegistry → Result (List SegmentMeta)
list fault now stream_id r = do
  check fault
  ok (sort seq_before (decoded (values (hgetall now stream_id r.hashes))))

unfoldable pub mark_complete : Fault → Time → String → SegmentRegistry → Result SegmentRegistry
mark_complete fault now stream_id r = do
  check fault
  ok (record r { complete = set stream_id "1" (now + segment_ttl) r.complete })

abbrev pub is_some {ℓ} : {A : Type ℓ} → Option A → Bool
is_some none = false
is_some (some a) = true

unfoldable pub is_complete : Fault → Time → String → SegmentRegistry → Result Bool
is_complete fault now stream_id r = do check fault; ok (is_some (get now stream_id r.complete))

seq_before_asym : (a b : SegmentMeta) → seq_before a b ≡ true → seq_before b a ≡ false
seq_before_asym a b h = ground arith

-- The list that a call returns is in order of the sequence numbers, whatever the order of the hash.
pub list-IsSorted :
    (fault : Fault) (now : Time) (stream_id : String) (r : SegmentRegistry)
    {metas : List SegmentMeta}
    → list fault now stream_id r ≡ ok metas
    → IsSorted seq_before metas
unfolding list
list-IsSorted none now stream_id r h =
    subst (IsSorted seq_before) (ok-injective h)
      (sort-IsSorted seq_before seq_before_asym (decoded (values (hgetall now stream_id r.hashes))))
list-IsSorted (some e) now stream_id r h = cc

-- For a day after a segment is added it is found under its sequence number; the other numbers of
-- the stream are found as before.
pub find-add :
    (now later : Time) (stream_id : String) (meta : SegmentMeta) (seq : ℤ) (r : SegmentRegistry)
    → later < now + segment_ttl
    → (add none now stream_id meta r >>= find none later stream_id seq)
      ≡ (if eq meta.seq seq then ok (some meta) else decode_field (hget now stream_id seq r.hashes))
unfolding add find
find-add now later stream_id meta seq r h = elim (Bool-cases (eq meta.seq seq)) [
  | inl e ↦ rw (
    hget-hset_expire now later stream_id meta.seq seq (doc meta) (now + segment_ttl) r.hashes h,
    e,
  )
  | inr e ↦ rw (
    hget-hset_expire now later stream_id meta.seq seq (doc meta) (now + segment_ttl) r.hashes h,
    e,
  )
]
