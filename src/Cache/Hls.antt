-- ===== src/Cache/Hls.antt =====
-- internal/infrastructure/cache/hls.go: the init segments and fragments of a live recording, by epoch
-- and by sequence number.
use vox_streaming.Base.{
  ℕ, ◌+◌, ◌<◌, ◌≡◌, refl, inl, inr, Bool, true, false, List, Option, none, some, String, arith,
  subst, if◌then◌else◌, Bool-cases,
}
use vox_streaming.Base.Int.{ℤ, ltb_ℤ}
use vox_streaming.Base.Clock.{Time, minutes}
use vox_streaming.Base.Eq.{eq, eq_ℤ, eq_text}
use vox_streaming.Base.Order.{sort, IsSorted, sort-IsSorted}
use vox_streaming.Base.Store.{Store, values}
use vox_streaming.Base.Redis.{
  Keys, Document, doc, hget, hgetall, hset_expire, decoded, hget-hset_expire,
}
use vox_streaming.Base.Failure.{Result, ok, Fault, check, ◌>>=◌, ◌>>◌, ok-injective}
use vox_streaming.Cache.Segment.{decode_field}

-- 24 hours.
abbrev pub hls_fragment_ttl : ℕ
hls_fragment_ttl = minutes 1440

pub record HlsInitMeta : Type 0 where
  pub epoch : ℤ
  pub s3_key : String
  pub uploaded_at : Time

pub record HlsFragmentMeta : Type 0 where
  pub seq : ℤ
  pub epoch : ℤ
  pub s3_key : String
  pub started_at : Time
  pub ended_at : Time
  pub size_bytes : ℤ
  pub uploaded_at : Time

pub record HlsFragmentRegistry : Type 0 where
  pub inits : Keys String (Store ℤ (Document HlsInitMeta))
  pub fragments : Keys String (Store ℤ (Document HlsFragmentMeta))

unfoldable pub add_init :
    Fault → Time → String → HlsInitMeta → HlsFragmentRegistry → Result HlsFragmentRegistry
add_init fault now stream_id meta r = do
  check fault
  ok (record r {
    inits = hset_expire now stream_id meta.epoch (doc meta) (now + hls_fragment_ttl) r.inits;
  })

unfoldable pub add_fragment :
    Fault → Time → String → HlsFragmentMeta → HlsFragmentRegistry → Result HlsFragmentRegistry
add_fragment fault now stream_id meta r = do
  check fault
  ok (record r {
    fragments = hset_expire now stream_id meta.seq (doc meta) (now + hls_fragment_ttl) r.fragments;
  })

unfoldable pub get_init :
    Fault → Time → String → ℤ → HlsFragmentRegistry → Result (Option HlsInitMeta)
get_init fault now stream_id epoch r = do
  check fault
  decode_field (hget now stream_id epoch r.inits)

unfoldable pub get_fragment :
    Fault → Time → String → ℤ → HlsFragmentRegistry → Result (Option HlsFragmentMeta)
get_fragment fault now stream_id seq r = do
  check fault
  decode_field (hget now stream_id seq r.fragments)

abbrev pub init_before : HlsInitMeta → HlsInitMeta → Bool
init_before a b = ltb_ℤ a.epoch b.epoch

abbrev pub fragment_before : HlsFragmentMeta → HlsFragmentMeta → Bool
fragment_before a b = ltb_ℤ a.seq b.seq

unfoldable pub list_inits : Fault → Time → String → HlsFragmentRegistry → Result (List HlsInitMeta)
list_inits fault now stream_id r = do
  check fault
  ok (sort init_before (decoded (values (hgetall now stream_id r.inits))))

unfoldable pub list_fragments :
    Fault → Time → String → HlsFragmentRegistry → Result (List HlsFragmentMeta)
list_fragments fault now stream_id r = do
  check fault
  ok (sort fragment_before (decoded (values (hgetall now stream_id r.fragments))))

fragment_before_asym :
    (a b : HlsFragmentMeta) → fragment_before a b ≡ true → fragment_before b a ≡ false
fragment_before_asym a b h = ground arith

-- The fragments come in order of their sequence numbers, whatever the order of the hash.
pub list_fragments-IsSorted :
    (fault : Fault) (now : Time) (stream_id : String) (r : HlsFragmentRegistry)
    {frags : List HlsFragmentMeta}
    → list_fragments fault now stream_id r ≡ ok frags
    → IsSorted fragment_before frags
unfolding list_fragments
list_fragments-IsSorted none now stream_id r h = subst (IsSorted fragment_before) (ok-injective h) (
    sort-IsSorted fragment_before fragment_before_asym
      (decoded (values (hgetall now stream_id r.fragments))))
list_fragments-IsSorted (some e) now stream_id r h = cc

-- For a day after a fragment is added it is found under its sequence number; the other fragments of
-- the stream, and every init segment, are found as before.
pub get_fragment-add_fragment :
    (now later : Time) (stream_id other : String) (meta : HlsFragmentMeta) (seq epoch : ℤ)
    (r : HlsFragmentRegistry)
    → later < now + hls_fragment_ttl
    → ((add_fragment none now stream_id meta r >>= get_fragment none later stream_id seq) ≡ (
        if eq meta.seq seq
        then ok (some meta)
        else decode_field (hget now stream_id seq r.fragments)))
      × ((add_fragment none now stream_id meta r >>= get_init none later other epoch)
          ≡ get_init none later other epoch r)
unfolding add_fragment get_fragment get_init
get_fragment-add_fragment now later stream_id other meta seq epoch r h = (
  elim (Bool-cases (eq meta.seq seq)) [
    | inl e ↦ rw (
      hget-hset_expire now later stream_id meta.seq seq (doc meta) (now + hls_fragment_ttl)
          r.fragments h,
      e,
    )
    | inr e ↦ rw (
      hget-hset_expire now later stream_id meta.seq seq (doc meta) (now + hls_fragment_ttl)
          r.fragments h,
      e,
    )
  ],
  refl,
)
