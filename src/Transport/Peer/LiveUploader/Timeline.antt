-- ===== src/Transport/Peer/LiveUploader/Timeline.antt =====
-- Where the fragments of a live recording stand in time.
use vox_streaming.Base.{
  ℕ, ◌+◌, ◌^◌, ◌<◌, ◌≡◌, refl, sym, ap, ◌∙◌, subst, true, false, [], ◌∷◌, none, some, String,
  if_ind, arith,
}
use vox_streaming.Base.Int.{pos, ◌+ℤ◌, wrap64, wrap64_fits, saturate64, saturate64_fits, sub_ℕ}
use vox_streaming.Base.Eq.{eq, eq_ℤ, eq_refl}
use vox_streaming.Base.Clock.{Time, Duration, sub}
use vox_streaming.Base.Failure.{ok, ◌>>=◌}
use vox_streaming.Cache.Hls.{
  HlsFragmentMeta, HlsFragmentRegistry, add_fragment, get_fragment, hls_fragment_ttl,
  get_fragment-add_fragment,
}
use vox_streaming.Transport.LiveManifest.{span}
use vox_streaming.Transport.Peer.LiveUploader.Defs.{
  Asset, LiveUploader, plus_duration, minus_duration, fragment_meta, upload_hls_fragment, anchored,
  placed, take_asset, run_hls_fragment_uploader,
}

-- A fragment of `d` nanoseconds that is uploaded and registered under `key`.
pub record Lands (a : Asset) (key : String) (d : ℕ) : Type 0 where
  pub fragment : a.event.is_init ≡ false
  pub long : a.event.duration ≡ pos d
  pub opens : a.open_fault ≡ none
  pub stores : a.stored ≡ ok key
  pub registers : a.register_fault ≡ none

-- The time that an uploader has counted in its epoch fits a duration, with what is to come.
abbrev pub Counts : LiveUploader → ℕ → Type 0
Counts u more = (c : ℕ) × (u.cumulative ≡ pos c) × (c + more < 2 ^ 63)

abbrev pub end_of : LiveUploader → Time
end_of u = plus_duration u.base_time u.cumulative

-- What one fragment leaves.
pub record Landed (stream_id : String) (a : Asset) (key : String) (d more : ℕ) (u v : LiveUploader)
    : Type 0 where
  pub started : Time
  pub added :
      ok v.registry
      ≡ add_fragment none a.uploaded_at stream_id
          (fragment_meta a u.seq started (started + d) key)
          u.registry
  pub next : v.seq ≡ u.seq + 1
  pub in_epoch : v.last_epoch ≡ a.event.epoch
  pub starts : a.event.epoch ≡ u.last_epoch → started ≡ end_of u
  pub ends : started + d ≡ end_of v
  pub counts : Counts v more

upload_registers :
    (stream_id : String) (a : Asset) (key : String) (d seq : ℕ) (started ended : Time)
    (r : HlsFragmentRegistry)
    → Lands a key d
    → ok (upload_hls_fragment stream_id a seq started ended r)
      ≡ add_fragment none a.uploaded_at stream_id (fragment_meta a seq started ended key) r
unfolding upload_hls_fragment add_fragment
upload_registers stream_id a key d seq started ended r l = rw (l.opens, l.stores, l.registers) refl

sum_pos : (c d : ℕ) → pos c +ℤ pos d ≡ pos (c + d)
unfolding ◌+ℤ◌
sum_pos c d = ground arith

counted :
    (c d more : ℕ) (x y : Duration)
    → x ≡ pos c
    → y ≡ pos d
    → c + (d + more) < 2 ^ 63
    → wrap64 (x +ℤ y) ≡ pos (c + d)
counted c d more x y e f h =
    rw (e, f) (ap wrap64 (sum_pos c d) ∙ wrap64_fits (c + d) (omega (arith, h)))

placed-Landed :
    (stream_id : String) (a : Asset) (key : String) (d more c : ℕ) (u v : LiveUploader)
    → Lands a key d
    → v.cumulative ≡ pos c
    → c + (d + more) < 2 ^ 63
    → v.seq ≡ u.seq
    → v.registry ≡ u.registry
    → v.last_epoch ≡ a.event.epoch
    → (a.event.epoch ≡ u.last_epoch → end_of v ≡ end_of u)
    → Landed stream_id a key d more u (placed stream_id a v)
placed-Landed stream_id a key d more c u v l e h s r i b =
    let total = counted c d more v.cumulative a.event.duration e l.long h in
    let ends : end_of v + d
        ≡ plus_duration v.base_time (wrap64 (v.cumulative +ℤ a.event.duration)) =
      ap (λ x. plus_duration v.base_time x + d) e
      ∙ (later v.base_time c ∙ sym (ap (plus_duration v.base_time) total)) in
    record {
      started = end_of v;
      added =
          upload_registers stream_id a key d v.seq (end_of v)
            (plus_duration v.base_time (wrap64 (v.cumulative +ℤ a.event.duration))) v.registry l
          ∙ rw (sym ends, s, r) refl;
      next = ap (λ n. n + 1) s;
      in_epoch = i;
      starts = b;
      ends = ends;
      counts = (c + d, total, omega (arith, h));
    }
  where
    later : (t c : ℕ) → t + c + d ≡ t + (c + d)
    later t c = omega arith

take_asset-Landed :
    (stream_id : String) (a : Asset) (key : String) (d more : ℕ) (u : LiveUploader)
    → Lands a key d
    → Counts u (d + more)
    → Landed stream_id a key d more u (take_asset stream_id a u)
unfolding take_asset anchored
take_asset-Landed stream_id a key d more u l (c, e, h) =
    if_ind (Landed stream_id a key d more u) a.event.is_init (λ y. absurd (no_init y))
      (λ _.
        if_ind (λ v. Landed stream_id a key d more u (placed stream_id a v))
          (eq a.event.epoch u.last_epoch)
          (λ y.
            placed-Landed stream_id a key d more c u u l e h refl refl
              (sym ((eq_ℤ.beq_iff a.event.epoch u.last_epoch).0 y)) (λ _. refl))
          (λ n.
            placed-Landed stream_id a key d more 0 u
              (record u {
                base_time = minus_duration a.now a.event.duration;
                cumulative = pos 0;
                last_epoch = a.event.epoch;
              })
              l refl (omega (arith, h)) refl refl refl (λ x. absurd (differ x n))))
  where
    no_init : a.event.is_init ≡ true → ⊥
    no_init y = ground (arith, y, l.fragment)

    differ : a.event.epoch ≡ u.last_epoch → eq a.event.epoch u.last_epoch ≡ false → ⊥
    differ x n = ground (arith, (eq_ℤ.beq_iff a.event.epoch u.last_epoch).1 x, n)

read_back :
    (stream_id : String) (now later : Time) (m : HlsFragmentMeta) (r s : HlsFragmentRegistry)
    → later < now + hls_fragment_ttl
    → ok s ≡ add_fragment none now stream_id m r
    → get_fragment none later stream_id m.seq s ≡ ok (some m)
read_back stream_id now later m r s h e =
    ap (λ o. o >>= get_fragment none later stream_id m.seq) e
    ∙ ((get_fragment-add_fragment now later stream_id stream_id m m.seq (pos 0) r h).0
        ∙ rw (eq_refl m.seq) refl)

kept :
    (stream_id : String) (now later : Time) (m : HlsFragmentMeta) (n : ℕ) (x : HlsFragmentMeta)
    (r s : HlsFragmentRegistry)
    → later < now + hls_fragment_ttl
    → ok s ≡ add_fragment none now stream_id m r
    → m.seq ≡ pos (n + 1)
    → get_fragment none now stream_id (pos n) r ≡ ok (some x)
    → get_fragment none later stream_id (pos n) s ≡ ok (some x)
unfolding get_fragment
kept stream_id now later m n x r s h e f g =
    ap (λ o. o >>= get_fragment none later stream_id (pos n)) e
    ∙ ((get_fragment-add_fragment now later stream_id stream_id m (pos n) (pos 0) r h).0
        ∙ rw (other) g)
  where
    other : eq m.seq (pos n) ≡ false
    other = rw f (ground arith)

sub_later : (t d : ℕ) → d < 2 ^ 63 → sub (t + d) t ≡ pos d
unfolding sub
sub_later t d h = ap saturate64 (between t d) ∙ saturate64_fits d (omega (arith, h))
  where
    between : (t d : ℕ) → sub_ℕ (t + d) t ≡ pos d
    between t d = ground arith

-- Two fragments of one epoch that come one after the other and land: for a day after the second both
-- are found under consecutive numbers, the second begins where the first ends, and each is as long as
-- ffmpeg says it is, which is what the playlist tells of it, however long the uploads took.
pub run_hls_fragment_uploader-contiguous :
    (stream_id : String) (a b : Asset) (j k : String) (m n : ℕ) (u : LiveUploader) (later : Time)
    → Lands a j m
    → Lands b k n
    → b.event.epoch ≡ a.event.epoch
    → Counts u (m + n)
    → b.uploaded_at < a.uploaded_at + hls_fragment_ttl
    → later < b.uploaded_at + hls_fragment_ttl
    → let v = run_hls_fragment_uploader stream_id (a ∷ b ∷ []) u in
      (x : HlsFragmentMeta) × (y : HlsFragmentMeta) × (get_fragment none later stream_id
          (pos u.seq)
          v.registry
        ≡ ok (some x))
      × (get_fragment none later stream_id (pos (u.seq + 1)) v.registry ≡ ok (some y))
      × (y.started_at ≡ x.ended_at)
      × (span x ≡ pos m)
      × (span y ≡ pos n)
unfolding run_hls_fragment_uploader
run_hls_fragment_uploader-contiguous stream_id a b j k m n u later la lb same c h l =
    let f = take_asset-Landed stream_id a j m n u la c in
    let w = take_asset stream_id a u in
    let g =
      take_asset-Landed stream_id b k n 0 w lb
        (f.counts.0, f.counts.1, omega (arith, f.counts.2)) in
    let x = fragment_meta a u.seq f.started (f.started + m) j in
    let y = fragment_meta b w.seq g.started (g.started + n) k in
    let seq : pos w.seq ≡ pos (u.seq + 1) = ap pos f.next in
    (
      x,
      y,
      kept stream_id b.uploaded_at later y u.seq x w.registry (take_asset stream_id b w).registry l
          g.added seq
          (read_back stream_id a.uploaded_at b.uploaded_at x u.registry w.registry h f.added),
      subst
          (λ s.
            get_fragment none later stream_id s (take_asset stream_id b w).registry ≡ ok (some y))
          seq
          (read_back stream_id b.uploaded_at later y w.registry (take_asset stream_id b w).registry
            l g.added),
      g.starts (same ∙ sym f.in_epoch) ∙ sym f.ends,
      sub_later f.started m (omega (arith, c.2)),
      sub_later g.started n (omega (arith, c.2)),
    )
