-- ===== src/Recorder/Frames/Reorder/Order.antt =====
-- What one packet does to the buffer, wherever it stands in the stream.
use vox_streaming.Base.{
  ℕ, zero, suc, ◌^◌, ◌<◌, ◌≤◌, ◌≡◌, refl, ◌≢◌, inl, true, false, [], some, arith, if_ind,
}
use vox_streaming.Base.Int.{ℤ, pos, negsuc}
use vox_streaming.Base.Clock.{Time}
use vox_streaming.Base.Eq.{eq_ℕ}
use vox_streaming.Base.Store.{lookup}
use vox_streaming.Recorder.Frames.Rtp.{Packet, sub16, delta}
use vox_streaming.Recorder.Frames.Reorder.Defs.{
  ReorderBuffer, started, push_at, push, new_reorder_buffer,
}
use vox_streaming.Recorder.Frames.Reorder.Waiting.{IsValid, Hands, take_next-Hands, hold-Hands}

-- A packet that is behind changes nothing.
behind-Hands :
    (pkt : Packet) (rb : ReorderBuffer)
    → IsValid rb
    → rb.has_next ≡ true
    → 2 ^ 15 ≤ sub16 pkt.sequence_number rb.next_seq
    → Hands rb pkt (rb, [])
behind-Hands pkt rb v h a = record {
  valid = v;
  running = h;
  skip = 0;
  skips_one = omega arith;
  in_order = tt;
  counted = omega (arith, v.in_range);
  keeps = λ k q l n. inl l;
  arrives = λ b. absurd (omega (arith, a, b));
}

delta_behind : (a b n : ℕ) → delta a b ≡ negsuc n → 2 ^ 15 ≤ sub16 a b
unfolding delta
delta_behind a b n e = ground arith

delta_same : (a b : ℕ) → a < 2 ^ 16 → b < 2 ^ 16 → delta a b ≡ pos 0 → a ≡ b
unfolding delta
delta_same a b p q e = ground arith

delta_ahead : (a b n : ℕ) → a < 2 ^ 16 → delta a b ≡ pos (suc n) → (a ≢ b) × (sub16 a b < 2 ^ 15)
unfolding delta
delta_ahead a b n p e = (λ s. ground (arith, s, e), ground arith)

push_at-Hands :
    (now : Time) (pkt : Packet) (rb : ReorderBuffer)
    → IsValid rb
    → rb.has_next ≡ true
    → pkt.sequence_number < 2 ^ 16
    → Hands rb pkt (push_at (delta pkt.sequence_number rb.next_seq) now pkt rb)
unfolding push_at
push_at-Hands now pkt rb v h b = go (delta pkt.sequence_number rb.next_seq) refl
  where
    go : (d : ℤ) → delta pkt.sequence_number rb.next_seq ≡ d → Hands rb pkt (push_at d now pkt rb)
    go (negsuc n) e = behind-Hands pkt rb v h (delta_behind _ _ n e)
    go (pos zero) e = take_next-Hands pkt rb v h (delta_same _ _ b v.in_range e)
    go (pos (suc n)) e = let (ne, a) = delta_ahead _ _ n b e in hold-Hands now pkt rb v h b ne a

started-IsValid :
    (pkt : Packet) (rb : ReorderBuffer)
    → IsValid rb
    → pkt.sequence_number < 2 ^ 16
    → IsValid (started pkt rb) × ((started pkt rb).has_next ≡ true)
unfolding lookup
started-IsValid pkt rb v b =
    if_ind (λ s. IsValid s × (s.has_next ≡ true)) rb.has_next (λ e. (v, e))
      (λ e. (
        record {
          fits = λ k p l. absurd (held k p l e);
          waiting = rw (v.fresh e) refl;
          in_range = b;
          fresh = λ x. cc;
        },
        refl,
      ))
  where
    held : (k : ℕ) (p : Packet) → lookup k rb.pending ≡ some p → rb.has_next ≡ false → ⊥
    held k p l e = ground (arith, v.fresh e, l)

-- A packet with a 16-bit number makes a valid buffer skip one number at most and hand on packets that
-- are numbered from there without a gap. Whatever was held under another number is held still or
-- handed on, and so is the packet itself unless it is behind; the buffer stays valid, so that what is
-- held lies ahead, each packet under its own number.
pub push-Hands :
    (now : Time) (pkt : Packet) (rb : ReorderBuffer)
    → IsValid rb
    → pkt.sequence_number < 2 ^ 16
    → Hands (started pkt rb) pkt (push now pkt rb)
unfolding push
push-Hands now pkt rb v b =
    let (w, h) = started-IsValid pkt rb v b in push_at-Hands now pkt (started pkt rb) w h b

pub new-IsValid : IsValid new_reorder_buffer
unfolding lookup
new-IsValid = record {
  fits = λ k p l. cc;
  waiting = refl;
  in_range = omega arith;
  fresh = λ x. refl;
}
