-- ===== src/Recorder/Frames/Reorder/Ascending.antt =====
-- The order of all that a buffer hands on.
use vox_streaming.Base.{
  ℕ, zero, suc, ◌+◌, ◌-◌, ◌%◌, ◌^◌, ◌<◌, ◌≤◌, ◌≡◌, refl, subst, true, List, [], ◌∷◌, ◌++◌, arith,
  length, All,
}
use vox_streaming.Base.Clock.{Time}
use vox_streaming.Recorder.Frames.Rtp.{Packet, inc16}
use vox_streaming.Recorder.Frames.Reorder.Defs.{
  ReorderBuffer, started, push, push_all, new_reorder_buffer,
}
use vox_streaming.Recorder.Frames.Reorder.Drain.{Consecutive}
use vox_streaming.Recorder.Frames.Reorder.Waiting.{IsValid, Hands}
use vox_streaming.Recorder.Frames.Reorder.Order.{push-Hands, new-IsValid}

-- The packets stand at strictly ascending places of the stream from `v` on, of which `skips` at most are
-- left out; a packet's number is its place modulo 2 ^ 16.
abbrev pub Ascends : ℕ → ℕ → List Packet → Type 0
Ascends v skips [] = Unit
Ascends v skips (p ∷ ps) =
    (d : ℕ) × (d ≤ skips)
    × (p.sequence_number ≡ (v + d) % 2 ^ 16)
    × Ascends (v + d + 1) (skips - d) ps

Ascends-at : (ps : List Packet) (v w s t : ℕ) → v ≡ w → s ≡ t → Ascends v s ps → Ascends w t ps
Ascends-at ps v w s t e f a = subst (λ x. Ascends x t ps) e (subst (λ x. Ascends v x ps) f a)

Ascends-Consecutive :
    (ps rest : List Packet) (v n skips : ℕ)
    → n ≡ v % 2 ^ 16
    → Consecutive n ps
    → Ascends (v + length ps) skips rest
    → Ascends v skips (ps ++ rest)
Ascends-Consecutive [] rest v n skips e c a = Ascends-at rest _ _ skips skips (omega arith) refl a
Ascends-Consecutive (p ∷ ps) rest v n skips e c a = (
  0,
  omega arith,
  omega (arith, c.0, e),
  Ascends-at (ps ++ rest) (v + 1) (v + 0 + 1) skips (skips - 0) (omega arith) (omega arith) (
      Ascends-Consecutive ps rest (v + 1) (inc16 n) skips (omega (arith, e)) c.1 (
        Ascends-at rest (v + suc (length ps)) (v + 1 + length ps) skips skips (omega arith) refl
          a)),
)

Ascends-skip :
    (ps : List Packet) (v skips : ℕ) → Ascends (v + 1) skips ps → Ascends v (skips + 1) ps
Ascends-skip [] v skips a = tt
Ascends-skip (p ∷ ps) v skips (d, l, e, a) = (
  d + 1,
  omega arith,
  omega (arith, e),
  Ascends-at ps (v + 1 + d + 1) (v + (d + 1) + 1) (skips - d) (skips + 1 - (d + 1)) (omega arith)
      (omega arith) a,
)

Ascends-more : (ps : List Packet) (v skips : ℕ) → Ascends v skips ps → Ascends v (skips + 1) ps
Ascends-more [] v skips a = tt
Ascends-more (p ∷ ps) v skips (d, l, e, a) = (
  d,
  omega arith,
  e,
  Ascends-at ps (v + d + 1) (v + d + 1) (skips - d + 1) (skips + 1 - d) refl (omega arith)
      (Ascends-more ps (v + d + 1) (skips - d) a),
)

Ascends-skips :
    (ps : List Packet) (v skip skips : ℕ)
    → skip ≤ 1
    → Ascends (v + skip) skips ps
    → Ascends v (suc skips) ps
Ascends-skips ps v zero skips l a =
    Ascends-at ps v v (skips + 1) (suc skips) refl (omega arith)
      (Ascends-more ps v skips (Ascends-at ps (v + 0) v skips skips (omega arith) refl a))
Ascends-skips ps v (suc zero) skips l a =
    Ascends-at ps v v (skips + 1) (suc skips) refl (omega arith) (Ascends-skip ps v skips a)
Ascends-skips ps v (suc (suc n)) skips l a = absurd (omega (arith, l))

-- A step in the middle of a stream.
step-Ascends :
    (pkt : Packet) (rb : ReorderBuffer) (r : ReorderBuffer × List Packet) (rest : List Packet)
    (v skips : ℕ) (hands : Hands rb pkt r)
    → rb.next_seq ≡ v % 2 ^ 16
    → Ascends (v + hands.skip + length r.1) skips rest
    → Ascends v (suc skips) (r.1 ++ rest)
step-Ascends pkt rb r rest v skips hands e a =
    Ascends-skips (r.1 ++ rest) v hands.skip skips hands.skips_one (
      Ascends-Consecutive r.1 rest (v + hands.skip) ((rb.next_seq + hands.skip) % 2 ^ 16) skips
        (omega (arith, e)) hands.in_order a)

started_again : (pkt : Packet) (rb : ReorderBuffer) → rb.has_next ≡ true → started pkt rb ≡ rb
started_again pkt rb h = ground arith

push_all-Ascends :
    (arrivals : List (Time × Packet)) (rb : ReorderBuffer) (v : ℕ)
    → IsValid rb
    → rb.has_next ≡ true
    → rb.next_seq ≡ v % 2 ^ 16
    → All (λ a. a.1.sequence_number < 2 ^ 16) arrivals
    → Ascends v (length arrivals) (push_all arrivals rb).1
unfolding push_all
push_all-Ascends [] rb v i h e b = tt
push_all-Ascends ((now, pkt) ∷ arrivals) rb v i h e b =
    let hands =
      subst (λ s. Hands s pkt (push now pkt rb)) (started_again pkt rb h)
        (push-Hands now pkt rb i b.0) in
    let r = push now pkt rb in
    step-Ascends pkt rb r (push_all arrivals r.0).1 v (length arrivals) hands e (
      push_all-Ascends arrivals r.0 (v + hands.skip + length r.1) hands.valid hands.running
        (omega (arith, e, hands.counted)) b.1)

-- Whatever packets come and whenever they do, a new buffer hands them on at strictly ascending places
-- of the stream that begins with the first one, so that none comes out of order or twice, and it leaves
-- out no more places than packets came.
pub push_all_ascending :
    (now : Time) (pkt : Packet) (arrivals : List (Time × Packet))
    → All (λ a. a.1.sequence_number < 2 ^ 16) ((now, pkt) ∷ arrivals)
    → Ascends pkt.sequence_number
        (suc (length arrivals))
        (push_all ((now, pkt) ∷ arrivals) new_reorder_buffer).1
unfolding push_all
push_all_ascending now pkt arrivals b =
    let hands = push-Hands now pkt new_reorder_buffer new-IsValid b.0 in
    let r = push now pkt new_reorder_buffer in
    step-Ascends pkt (started pkt new_reorder_buffer) r (push_all arrivals r.0).1
      pkt.sequence_number (length arrivals) hands (omega (arith, b.0))
      (push_all-Ascends arrivals r.0 (pkt.sequence_number + hands.skip + length r.1) hands.valid
        hands.running (omega (arith, hands.counted)) b.1)
