-- ===== src/Watcher/Tail/Once.antt =====
-- hls_watch.go: what the tail of a playlist passed on, the init segment and the fragments apart.
use vox_streaming.Base.{
  drop-append, ◌≡◌, refl, sym, ap, ◌∙◌, subst, inl, inr, Bool, true, false, not, ◌&&◌, List, [],
  ◌∷◌, ◌++◌, Option, none, some, String, arith, length, drop, length-append, map, leb,
  if◌then◌else◌, Bool-cases,
}
use vox_streaming.Base.Int.{ℤ}
use vox_streaming.Base.Text.{is_empty}
use vox_streaming.Watcher.Tail.Readings.{Host, Grows, last_reading, map-append}
use vox_streaming.Watcher.Tail.Fragments.{
  HlsFragmentEvent, FragEntry, Playlist, empty_playlist, scan, HlsTail, init_event, fragment_event,
  emit_init, emit_fragments, emit_new_hls_entries, watch_hls_fragments,
}
use mathlib.Core.List.{append-nil}
use vox_streaming.Watcher.Tail.Growth.{Further, if_keeps, apart, scan-Further, scan-append}
use vox_streaming.Watcher.Tail.Events.{
  events_of, inits-append, fragments-append, inits-map, fragments-map,
}

module _ (host : Host) (hls_dir : String) (epoch : ℤ) where
  -- All the fragments of the playlist were passed on.
  abbrev FragmentsSent : List FragEntry → HlsTail → Type 0
  FragmentsSent fs t =
      (t.sent_frags ≡ length fs)
      × (events_of false t.out ≡ map (fragment_event host hls_dir epoch) fs)

  -- The init segment was passed on once if it was at all.
  abbrev inits : Bool → String → List HlsFragmentEvent
  inits sent uri = if sent then init_event host hls_dir epoch uri ∷ [] else []

  abbrev InitSent : String → HlsTail → Type 0
  InitSent uri t =
      (events_of true t.out ≡ inits t.sent_init uri) × (t.sent_init ≡ true → is_empty uri ≡ false)

  init-Further :
      (p q : Playlist) (t : HlsTail) → Further p q → InitSent p.init_uri t → InitSent q.init_uri t
  init-Further p q t f i = elim (Bool-cases t.sent_init) [
    | inl e ↦ subst (λ u. InitSent u t) (sym (f.1 (i.1 e))) i
    | inr e ↦ (
      i.0 ∙ (ap (λ b. inits b p.init_uri) e ∙ ap (λ b. inits b q.init_uri) (sym e)),
      λ h. absurd (apart t.sent_init h e),
    )
  ]

  emit_init-FragmentsSent :
      (exists : String → Bool) (fs : List FragEntry) (q : Playlist) (t : HlsTail)
      → FragmentsSent fs t
      → FragmentsSent fs (emit_init host hls_dir epoch exists q t)
  unfolding emit_init init_event
  emit_init-FragmentsSent exists fs q t s =
      if_keeps (FragmentsSent fs)
        (not t.sent_init && not (is_empty q.init_uri) && exists (host.join hls_dir q.init_uri)) _ _
        (λ e. (
          s.0,
          fragments-append t.out (init_event host hls_dir epoch q.init_uri ∷ [])
              ∙ (append-nil (events_of false t.out) ∙ s.1),
        ))
        (λ e. s)

  emit_init-InitSent :
      (exists : String → Bool) (p : Playlist) (t : HlsTail)
      → InitSent p.init_uri t
      → InitSent p.init_uri (emit_init host hls_dir epoch exists p t)
  unfolding emit_init init_event
  emit_init-InitSent exists p t s =
      if_keeps (InitSent p.init_uri)
        (not t.sent_init && not (is_empty p.init_uri) && exists (host.join hls_dir p.init_uri)) _ _
        (λ e. (
          inits-append t.out (init_event host hls_dir epoch p.init_uri ∷ [])
              ∙ ap (λ l. l ++ init_event host hls_dir epoch p.init_uri ∷ [])
                  (s.0 ∙ ap (λ b. inits b p.init_uri) (opened _ _ _ e).0),
          λ h. (opened _ _ _ e).1,
        ))
        (λ e. s)
    where
      opened : (a b c : Bool) → (not a && not b && c) ≡ true → (a ≡ false) × (b ≡ false)
      opened a b c h = (ground arith, ground arith)

  fragments_grown :
      (fs more : List FragEntry) (t : HlsTail)
      → FragmentsSent fs t
      → FragmentsSent (fs ++ more) (
          if leb (length (fs ++ more)) t.sent_frags then t else record t {
            out = t.out ++ map (fragment_event host hls_dir epoch) (drop t.sent_frags (fs ++ more));
            sent_frags = length (fs ++ more);
          })
  fragments_grown fs [] t s =
      if_keeps (FragmentsSent (fs ++ [])) (leb (length (fs ++ [])) t.sent_frags) _ _
        (λ e. subst (λ gs. FragmentsSent gs t) (sym (append-nil fs)) s)
        (λ e. absurd (ground (arith, e, s.0, length-append fs [])))
  fragments_grown fs (m ∷ ms) t s =
      if_keeps (FragmentsSent (fs ++ m ∷ ms)) (leb (length (fs ++ m ∷ ms)) t.sent_frags) _ _
        (λ e. absurd (ground (arith, e, s.0, length-append fs (m ∷ ms))))
        (λ e. (
          refl,
          rw (
            fragments-append t.out
                (map (fragment_event host hls_dir epoch) (drop t.sent_frags (fs ++ m ∷ ms))),
            fragments-map host hls_dir epoch (drop t.sent_frags (fs ++ m ∷ ms)),
            s.0,
            drop-append fs (m ∷ ms),
            s.1,
            map-append (fragment_event host hls_dir epoch) fs (m ∷ ms),
          ),
        ))

  emit_fragments-FragmentsSent :
      (p q : Playlist) (t : HlsTail)
      → Further p q
      → FragmentsSent p.frags t
      → FragmentsSent q.frags (emit_fragments host hls_dir epoch q t)
  unfolding emit_fragments
  emit_fragments-FragmentsSent p q t f s =
      subst
        (λ gs. FragmentsSent gs (
          if leb (length gs) t.sent_frags then t else record t {
            out = t.out ++ map (fragment_event host hls_dir epoch) (drop t.sent_frags gs);
            sent_frags = length gs;
          }))
        (sym f.0.1) (fragments_grown p.frags f.0.0 t s)

  emit_fragments-InitSent :
      (uri : String) (p : Playlist) (t : HlsTail)
      → InitSent uri t
      → InitSent uri (emit_fragments host hls_dir epoch p t)
  unfolding emit_fragments
  emit_fragments-InitSent uri p t s =
      if_keeps (InitSent uri) (leb (length p.frags) t.sent_frags) _ _ (λ e. s)
        (λ e. (
          inits-append t.out (map (fragment_event host hls_dir epoch) (drop t.sent_frags p.frags))
              ∙ (ap (λ l. events_of true t.out ++ l)
                    (inits-map host hls_dir epoch (drop t.sent_frags p.frags))
                  ∙ (append-nil (events_of true t.out) ∙ s.0)),
          s.1,
        ))

  -- What a tail that caught up with a playlist is after it read further.
  abbrev CaughtUp : List String → HlsTail → Type 0
  CaughtUp raw t =
      FragmentsSent (scan host raw empty_playlist).frags t
      × InitSent (scan host raw empty_playlist).init_uri t

  emit_new_hls_entries-CaughtUp :
      (exists : String → Bool) (raw extra : List String) (t : HlsTail)
      → CaughtUp raw t
      → CaughtUp
          (raw ++ extra)
          (emit_new_hls_entries host hls_dir epoch (some (raw ++ extra)) exists t)
  unfolding emit_new_hls_entries
  emit_new_hls_entries-CaughtUp exists raw extra t c =
      let p = scan host raw empty_playlist in
      let q = scan host (raw ++ extra) empty_playlist in
      let f : Further p q =
        subst (Further p) (sym (scan-append host raw extra empty_playlist))
          (scan-Further host extra p) in
      let v = emit_init host hls_dir epoch exists q t in
      (
        emit_fragments-FragmentsSent p q v f (emit_init-FragmentsSent exists p.frags q t c.0),
        emit_fragments-InitSent q.init_uri q v
            (emit_init-InitSent exists q t (init-Further p q t f c.1)),
      )

  watch_hls_fragments-CaughtUp :
      (raw : List String) (ticks : List (Option (List String) × (String → Bool))) (t : HlsTail)
      → Grows raw (map (λ r. r.0) ticks)
      → CaughtUp raw t
      → CaughtUp
          (last_reading raw (map (λ r. r.0) ticks))
          (watch_hls_fragments host hls_dir epoch ticks t)
  unfolding watch_hls_fragments emit_new_hls_entries
  watch_hls_fragments-CaughtUp raw [] t g c = c
  watch_hls_fragments-CaughtUp raw ((none, exists) ∷ rs) t g c =
      watch_hls_fragments-CaughtUp raw rs t g c
  watch_hls_fragments-CaughtUp raw ((some next, exists) ∷ rs) t g c =
      watch_hls_fragments-CaughtUp next rs
        (emit_new_hls_entries host hls_dir epoch (some next) exists t) g.1
        (subst (λ n. CaughtUp n (emit_new_hls_entries host hls_dir epoch (some n) exists t))
          (sym g.0.1) (emit_new_hls_entries-CaughtUp exists raw g.0.0 t c))

-- While the playlist only grows by whole lines: every entry that the tail reads in its last reading is
-- passed on as a fragment exactly once and in order, and the init segment at most once and under the
-- name that was read in the end, whatever the ticks, those at which it cannot be read included, and
-- whenever the init file appears. How a line is read is not part of it.
pub watch_hls_fragments_once :
    (host : Host) (hls_dir : String) (epoch : ℤ)
    (ticks : List (Option (List String) × (String → Bool)))
    → Grows [] (map (λ r. r.0) ticks)
    → let playlist = scan host (last_reading [] (map (λ r. r.0) ticks)) empty_playlist in
      let t =
        watch_hls_fragments host hls_dir epoch ticks
          (record { sent_init = false; sent_frags = 0; out = [] }) in
      (events_of false t.out ≡ map (fragment_event host hls_dir epoch) playlist.frags)
      × (events_of true t.out
          ≡ (if t.sent_init then init_event host hls_dir epoch playlist.init_uri ∷ [] else []))
unfolding scan
watch_hls_fragments_once host hls_dir epoch ticks g =
    let c =
      watch_hls_fragments-CaughtUp host hls_dir epoch [] ticks
        (record { sent_init = false; sent_frags = 0; out = [] }) g
        ((refl, refl), (refl, λ h. absurd (apart false h refl))) in
    (c.0.1, c.1.0)
