-- ===== src/Watcher/Tail/Segments.antt =====
-- segment_watch.go: each line of ffmpeg's list of segments is passed on.
use vox_streaming.Base.{
  drop-append, ℕ, ◌≡◌, refl, sym, ap, ◌∙◌, subst, inl, inr, List, [], ◌∷◌, ◌++◌, Option, none, some,
  String, length, drop, map, leb, if◌then◌else◌, Bool-cases,
}
use vox_streaming.Base.Text.{is_empty}
use vox_streaming.Watcher.Tail.Readings.{Host, Grows, last_reading, map-append, longer, longest}
use mathlib.Core.List.{append-nil}

-- `sent`, and what went into the channel.
pub record SegmentTail : Type 0 where
  pub sent : ℕ
  pub out : List String

unfoldable pub lines_of : Host → List String → List String
lines_of host [] = []
lines_of host (l ∷ ls) =
    let line = host.trim_space l in
    let rest = lines_of host ls in if is_empty line then rest else line ∷ rest

unfoldable pub placed : Host → String → String → String
placed host out_dir line = if host.is_abs line then line else host.join out_dir line

unfoldable pub emit_new_lines : Host → String → Option (List String) → SegmentTail → SegmentTail
unfolding lines_of placed
emit_new_lines host out_dir none t = t
emit_new_lines host out_dir (some raw) t =
    let lines = lines_of host raw in
    if leb (length lines) t.sent then t else record {
      sent = length lines;
      out = t.out ++ map (placed host out_dir) (drop t.sent lines);
    }

-- A tick for each reading, and one more when the context ends.
unfoldable pub watch_segments :
    Host → String → List (Option (List String)) → SegmentTail → SegmentTail
unfolding emit_new_lines
watch_segments host out_dir [] t = t
watch_segments host out_dir (r ∷ rs) t =
    watch_segments host out_dir rs (emit_new_lines host out_dir r t)

lines_of-append :
    (host : Host) (xs ys : List String)
    → lines_of host (xs ++ ys) ≡ lines_of host xs ++ lines_of host ys
unfolding lines_of
lines_of-append host [] ys = refl
lines_of-append host (x ∷ xs) ys = elim (Bool-cases (is_empty (host.trim_space x))) [
  | inl e ↦ rw (e, lines_of-append host xs ys)
  | inr e ↦ rw (e, lines_of-append host xs ys)
]

-- The tail that has passed on all of a reading.
abbrev caught_up : Host → String → List String → SegmentTail
caught_up host out_dir raw = record {
  sent = length (lines_of host raw);
  out = map (placed host out_dir) (lines_of host raw);
}

-- A tail that has passed on `xs` passes on `ys` next.
passed_on :
    (f : String → String) (xs ys : List String)
    → if◌then◌else◌ {A = SegmentTail}
        (leb (length (xs ++ ys)) (length xs))
        (record { sent = length xs; out = map f xs })
        (record { sent = length (xs ++ ys); out = map f xs ++ map f (drop (length xs) (xs ++ ys)) })
      ≡ record { sent = length (xs ++ ys); out = map f (xs ++ ys) }
passed_on f xs [] = rw (append-nil xs, longest xs)
passed_on f xs (y ∷ ys) = rw (longer xs ys y, drop-append xs (y ∷ ys), map-append f xs (y ∷ ys))

emit_new_lines-caught_up :
    (host : Host) (out_dir : String) (raw extra : List String)
    → emit_new_lines host out_dir (some (raw ++ extra)) (caught_up host out_dir raw)
      ≡ caught_up host out_dir (raw ++ extra)
unfolding emit_new_lines
emit_new_lines-caught_up host out_dir raw extra = rw (
  lines_of-append host raw extra,
  passed_on (placed host out_dir) (lines_of host raw) (lines_of host extra),
)

watch_segments-caught_up :
    (host : Host) (out_dir : String) (raw : List String) (rs : List (Option (List String)))
    → Grows raw rs
    → watch_segments host out_dir rs (caught_up host out_dir raw)
      ≡ caught_up host out_dir (last_reading raw rs)
unfolding watch_segments
watch_segments-caught_up host out_dir raw [] g = refl
watch_segments-caught_up host out_dir raw (none ∷ rs) g =
    watch_segments-caught_up host out_dir raw rs g
watch_segments-caught_up host out_dir raw (some next ∷ rs) g =
    ap (λ t. watch_segments host out_dir rs t)
      (subst
        (λ n.
          emit_new_lines host out_dir (some n) (caught_up host out_dir raw)
          ≡ caught_up host out_dir n)
        (sym g.0.1) (emit_new_lines-caught_up host out_dir raw g.0.0))
    ∙ watch_segments-caught_up host out_dir next rs g.1

-- While the list only grows by whole lines, every segment named in it is passed on exactly once and in
-- the order of the list, whatever the ticks at which it is read and those at which it cannot be read.
pub watch_segments_once :
    (host : Host) (out_dir : String) (readings : List (Option (List String)))
    → Grows [] readings
    → (watch_segments host out_dir readings (record { sent = 0; out = [] })).out
      ≡ map (placed host out_dir) (lines_of host (last_reading [] readings))
unfolding lines_of
watch_segments_once host out_dir readings g =
    ap (λ t. t.out) (watch_segments-caught_up host out_dir [] readings g)
