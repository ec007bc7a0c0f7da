-- ===== src/Recorder/Frames/Reorder/Waiting.antt =====
-- What it does to the buffer that a packet is handed on or held, and that a wait is given up.
use vox_streaming.Base.{
  ℕ, ◌+◌, ◌%◌, ◌^◌, ◌<◌, ◌≤◌, ◌≡◌, refl, subst, ◌≢◌, ◌⊎◌, inl, inr, true, false, List, [], none,
  some, arith, length, Elem, Bool-cases, if◌then◌else◌, if_ind, leb, ◌||◌,
}
use vox_streaming.Base.Int.{pos, leb_ℤ}
use vox_streaming.Base.Clock.{Time, sub}
use vox_streaming.Base.Eq.{eq_ℕ, eq}
use vox_streaming.Base.Store.{Store, lookup, insert, lookup-insert}
use vox_streaming.Recorder.Frames.Rtp.{Packet, inc16, sub16}
use vox_streaming.Recorder.Frames.Reorder.Defs.{
  ReorderBuffer, drain, give_up_and_drain, take_next, hold, is_empty_store, reorder_max_hold,
  reorder_max_wait,
}
use vox_streaming.Recorder.Frames.Reorder.Drain.{Fits, Consecutive, drain-Drains}

-- The held packets lie ahead of the one waited for, which is not among them.
pub record IsValid (rb : ReorderBuffer) : Type 0 where
  pub fits : Fits rb.next_seq rb.pending
  pub waiting : lookup rb.next_seq rb.pending ≡ none
  pub in_range : rb.next_seq < 2 ^ 16
  pub fresh : rb.has_next ≡ false → rb.pending ≡ []

-- What a step does that meets `pkt`: it skips one number at most, hands on packets numbered from there
-- without a gap, and loses none of those held, nor `pkt` if it is not behind.
pub record Hands (rb : ReorderBuffer) (pkt : Packet) (r : ReorderBuffer × List Packet)
    : Type 0 where
  pub valid : IsValid r.0
  pub running : r.0.has_next ≡ true
  pub skip : ℕ
  pub skips_one : skip ≤ 1
  pub in_order : Consecutive ((rb.next_seq + skip) % 2 ^ 16) r.1
  pub counted : r.0.next_seq ≡ (rb.next_seq + skip + length r.1) % 2 ^ 16
  pub keeps :
      (k : ℕ) (q : Packet)
      → lookup k rb.pending ≡ some q
      → k ≢ pkt.sequence_number
      → (lookup k r.0.pending ≡ some q) ⊎ Elem q r.1
  pub arrives :
      sub16 pkt.sequence_number rb.next_seq < 2 ^ 15
      → (lookup pkt.sequence_number r.0.pending ≡ some pkt) ⊎ Elem pkt r.1

shift-Fits :
    (next : ℕ) (m : Store ℕ Packet)
    → next < 2 ^ 16
    → Fits next m
    → lookup next m ≡ none
    → Fits (inc16 next) m
shift-Fits next m b f w k p h = elim (Bool-cases (eq next k)) [
  | inl same ↦ ground (arith, same, w, h)
  | inr other ↦ ground (arith, f k p h, other)
]

pub take_next-Hands :
    (pkt : Packet) (rb : ReorderBuffer)
    → IsValid rb
    → rb.has_next ≡ true
    → pkt.sequence_number ≡ rb.next_seq
    → Hands rb pkt (take_next pkt rb)
unfolding take_next
take_next-Hands pkt rb v h e =
    let d =
      drain-Drains (length rb.pending) (inc16 rb.next_seq) rb.pending (omega arith) (omega arith)
        (shift-Fits rb.next_seq rb.pending v.in_range v.fits v.waiting) in
    record {
      valid = record { fits = d.fits; waiting = d.ended; in_range = d.in_range; fresh = λ x. cc };
      running = h;
      skip = 0;
      skips_one = omega arith;
      in_order = (
        omega (arith, e, v.in_range),
        subst
            (λ n.
              Consecutive (inc16 n) (drain (length rb.pending) rb.pending (inc16 rb.next_seq)).out)
            (omega (arith, v.in_range)) d.in_order,
      );
      counted = omega (arith, d.counted);
      keeps = λ k q l n. elim (d.keeps k q l) [ inl left ↦ inl left | inr out ↦ inr (inr out) ];
      arrives = λ a. inr (inl refl);
    }

give_up-Hands :
    (now : Time) (pkt : Packet) (rb held : ReorderBuffer)
    → IsValid held
    → held.has_next ≡ true
    → held.next_seq ≡ rb.next_seq
    → held.pending ≡ insert pkt.sequence_number pkt rb.pending
    → Hands rb pkt (give_up_and_drain now held)
unfolding give_up_and_drain
give_up-Hands now pkt rb held v h e m =
    let d =
      drain-Drains (length held.pending) (inc16 held.next_seq) held.pending (omega arith)
        (omega arith) (shift-Fits held.next_seq held.pending v.in_range v.fits v.waiting) in
    record {
      valid = record { fits = d.fits; waiting = d.ended; in_range = d.in_range; fresh = λ x. cc };
      running = h;
      skip = 1;
      skips_one = omega arith;
      in_order =
          subst
            (λ n.
              Consecutive ((n + 1) % 2 ^ 16)
                (drain (length held.pending) held.pending (inc16 held.next_seq)).out)
            e d.in_order;
      counted = omega (arith, d.counted, e);
      keeps = λ k q l n. d.keeps k q (held_still k q l n);
      arrives = λ a. d.keeps pkt.sequence_number pkt held_now;
    }
  where
    held_still :
        (k : ℕ) (q : Packet)
        → lookup k rb.pending ≡ some q
        → k ≢ pkt.sequence_number
        → lookup k held.pending ≡ some q
    held_still k q l n = ground (arith, m, lookup-insert pkt.sequence_number k pkt rb.pending, l, n)

    held_now : lookup pkt.sequence_number held.pending ≡ some pkt
    held_now =
        ground (arith, m, lookup-insert pkt.sequence_number pkt.sequence_number pkt rb.pending)

-- The same for a buffer that goes on waiting.
wait-Hands :
    (pkt : Packet) (rb held : ReorderBuffer)
    → IsValid held
    → held.has_next ≡ true
    → held.next_seq ≡ rb.next_seq
    → held.pending ≡ insert pkt.sequence_number pkt rb.pending
    → Hands rb pkt (held, [])
wait-Hands pkt rb held v h e m = record {
  valid = v;
  running = h;
  skip = 0;
  skips_one = omega arith;
  in_order = tt;
  counted = omega (arith, v.in_range, e);
  keeps =
      λ k q l n. inl (ground (arith, m, lookup-insert pkt.sequence_number k pkt rb.pending, l, n));
  arrives = λ a.
      inl (ground (arith, m, lookup-insert pkt.sequence_number pkt.sequence_number pkt rb.pending));
}

-- A packet ahead fits among those held.
insert-IsValid :
    (pkt : Packet) (rb : ReorderBuffer) (t : Time)
    → IsValid rb
    → rb.has_next ≡ true
    → pkt.sequence_number < 2 ^ 16
    → pkt.sequence_number ≢ rb.next_seq
    → sub16 pkt.sequence_number rb.next_seq < 2 ^ 15
    → IsValid (record rb { gap_since = t; pending = insert pkt.sequence_number pkt rb.pending })
insert-IsValid pkt rb t v h b n a = record {
  fits = λ k p l. elim (Bool-cases (eq pkt.sequence_number k)) [
    | inl same ↦ ground (arith, same, lookup-insert pkt.sequence_number k pkt rb.pending, l)
    | inr other ↦
        v.fits k p (ground (arith, other, lookup-insert pkt.sequence_number k pkt rb.pending, l))
  ];
  waiting =
      ground (arith, lookup-insert pkt.sequence_number rb.next_seq pkt rb.pending, n, v.waiting);
  in_range = v.in_range;
  fresh = λ x. cc;
}

pub hold-Hands :
    (now : Time) (pkt : Packet) (rb : ReorderBuffer)
    → IsValid rb
    → rb.has_next ≡ true
    → pkt.sequence_number < 2 ^ 16
    → pkt.sequence_number ≢ rb.next_seq
    → sub16 pkt.sequence_number rb.next_seq < 2 ^ 15
    → Hands rb pkt (hold now pkt rb)
unfolding hold
hold-Hands now pkt rb v h b n a =
    let held : ReorderBuffer = record rb {
      gap_since = if is_empty_store rb.pending then now else rb.gap_since;
      pending = insert pkt.sequence_number pkt rb.pending;
    } in
    let w = insert-IsValid pkt rb held.gap_since v h b n a in
    if_ind (Hands rb pkt)
      (leb reorder_max_hold (length held.pending)
        || leb_ℤ (pos reorder_max_wait) (sub now held.gap_since))
      (λ x. give_up-Hands now pkt rb held w h refl refl) (λ x. wait-Hands pkt rb held w h refl refl)
