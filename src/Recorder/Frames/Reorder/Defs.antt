-- ===== src/Recorder/Frames/Reorder/Defs.antt =====
-- frame_extractor.go: `reorderBuffer.push` and `giveUpAndDrain`. The map of held packets has one entry
-- for each sequence number; its loop runs once for each entry at most, so their number is its fuel.
use vox_streaming.Base.{
  ℕ, zero, suc, ◌*◌, Bool, true, false, ◌||◌, List, [], ◌∷◌, none, some, leb, if◌then◌else◌, length,
  ◌++◌,
}
use vox_streaming.Base.Int.{ℤ, pos, negsuc, leb_ℤ}
use vox_streaming.Base.Clock.{Time, sub}
use vox_streaming.Base.Eq.{eq_ℕ}
use vox_streaming.Base.Store.{Store, lookup, insert, remove}
use vox_streaming.Recorder.Frames.Rtp.{Packet, inc16, delta}

pub record ReorderBuffer : Type 0 where
  pub pending : Store ℕ Packet
  pub next_seq : ℕ
  pub has_next : Bool
  pub gap_since : Time

-- 120 milliseconds.
abbrev pub reorder_max_wait : ℕ
reorder_max_wait = 120 * 1000000

abbrev pub reorder_max_hold : ℕ
reorder_max_hold = 64

pub record Drained : Type 0 where
  pub left : Store ℕ Packet
  pub next : ℕ
  pub out : List Packet

-- The loop that `push` and `giveUpAndDrain` share.
unfoldable pub drain : ℕ → Store ℕ Packet → ℕ → Drained
drain zero pending next = record { left = pending; next = next; out = [] }
drain (suc fuel) pending next = elim (lookup next pending) [
  | none ↦ record { left = pending; next = next; out = [] }
  | some p ↦ let r = drain fuel (remove next pending) (inc16 next) in record r { out = p ∷ r.out }
]

abbrev pub is_empty_store : Store ℕ Packet → Bool
is_empty_store [] = true
is_empty_store (e ∷ m) = false

unfoldable pub give_up_and_drain : Time → ReorderBuffer → ReorderBuffer × List Packet
unfolding drain
give_up_and_drain now rb =
    let d = drain (length rb.pending) rb.pending (inc16 rb.next_seq) in
    (
      record rb {
        pending = d.left;
        next_seq = d.next;
        gap_since = if is_empty_store d.left then rb.gap_since else now;
      },
      d.out,
    )

-- A packet that is exactly the one waited for.
unfoldable pub take_next : Packet → ReorderBuffer → ReorderBuffer × List Packet
unfolding drain
take_next pkt rb =
    let d = drain (length rb.pending) rb.pending (inc16 rb.next_seq) in
    (record rb { pending = d.left; next_seq = d.next }, pkt ∷ d.out)

-- A packet ahead of the one waited for is held; when too many are held, or for too long, the wait ends.
unfoldable pub hold : Time → Packet → ReorderBuffer → ReorderBuffer × List Packet
unfolding give_up_and_drain
hold now pkt rb =
    let held : ReorderBuffer = record rb {
      gap_since = if is_empty_store rb.pending then now else rb.gap_since;
      pending = insert pkt.sequence_number pkt rb.pending;
    } in
    if leb reorder_max_hold (length held.pending)
      || leb_ℤ (pos reorder_max_wait) (sub now held.gap_since)
    then give_up_and_drain now held
    else (held, [])

-- The first packet sets the number that is waited for.
abbrev pub started : Packet → ReorderBuffer → ReorderBuffer
started pkt rb =
    if rb.has_next then rb else record rb { next_seq = pkt.sequence_number; has_next = true }

unfoldable pub push_at : ℤ → Time → Packet → ReorderBuffer → ReorderBuffer × List Packet
unfolding take_next hold
push_at (negsuc n) now pkt rb = (rb, [])
push_at (pos zero) now pkt rb = take_next pkt rb
push_at (pos (suc n)) now pkt rb = hold now pkt rb

unfoldable pub push : Time → Packet → ReorderBuffer → ReorderBuffer × List Packet
unfolding push_at delta
push now pkt rb = let s = started pkt rb in push_at (delta pkt.sequence_number s.next_seq) now pkt s

abbrev pub new_reorder_buffer : ReorderBuffer
new_reorder_buffer = record { pending = []; next_seq = 0; has_next = false; gap_since = 0 }

-- The packets that come, each with the moment at which it does, and all that is handed on.
unfoldable pub push_all : List (Time × Packet) → ReorderBuffer → ReorderBuffer × List Packet
unfolding push
push_all [] rb = (rb, [])
push_all ((now, pkt) ∷ arrivals) rb =
    let a = push now pkt rb in let b = push_all arrivals a.0 in (b.0, a.1 ++ b.1)
