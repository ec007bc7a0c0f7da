-- ===== src/Tests/Frames.antt =====
-- The frame extractor and its reorder buffer.
use vox_streaming.Base.{ℕ, ◌≡◌, refl, inl, inr, true, List, [], ◌∷◌, ◌++◌, none, some, arith}
use vox_streaming.Base.Clock.{Time, sub}
use vox_streaming.Base.Eq.{eq_ℕ}
use vox_streaming.Base.Store.{lookup, insert, remove}
use vox_streaming.Recorder.Frames.Rtp.{Packet, delta}
use vox_streaming.Recorder.Frames.Reorder.{
  push, push_all, push_at, take_next, hold, drain, give_up_and_drain, started, new_reorder_buffer,
  Hands, Ascends, push-Hands, push_all_ascending, new-IsValid,
}
use vox_streaming.Recorder.Frames.Extractor.{
  Bytes, FrameExtractor, ◌>>=◌, add_nal, has_idr, ingest_payload, ingest_ordered, ingest_all,
  ingest, capture_key_frame, annex_b, if_present, new_frame_extractor,
}
use vox_streaming.Recorder.Frames.Fragments.{
  fragment, middles, ingest_unmarked, ingest_payload-fragments,
}
use vox_streaming.Recorder.Frames.Aggregates.{aggregate, ingest_payload-picture}
use vox_streaming.Recorder.Frames.Panics.{Returns, ingest_all-Returns, ingest-empty_unit}

abbrev packet : ℕ → Bytes → Packet
packet n payload = record { sequence_number = n; timestamp = 0; marker = true; payload = payload }

push-Hands_example :
    Hands
      (started (packet 65535 []) new_reorder_buffer)
      (packet 65535 [])
      (push 1 (packet 65535 []) new_reorder_buffer)
push-Hands_example = push-Hands 1 (packet 65535 []) new_reorder_buffer new-IsValid (omega arith)

-- Two packets change places, across the end of the range of the numbers.
abbrev swapped : List (Time × Packet)
swapped = (2, packet 0 []) ∷ (3, packet 65535 []) ∷ []

push_all_ascending_example :
    Ascends 65534 3 (push_all ((1, packet 65534 []) ∷ swapped) new_reorder_buffer).1
push_all_ascending_example =
    push_all_ascending 1 (packet 65534 []) swapped (omega arith, (omega arith, (omega arith, tt)))

in_order :
    (push_all ((1, packet 65534 []) ∷ swapped) new_reorder_buffer).1
    ≡ packet 65534 [] ∷ packet 65535 [] ∷ packet 0 [] ∷ []
unfolding push_all push push_at take_next hold drain give_up_and_drain delta lookup insert remove
    sub
in_order = refl

ingest_payload-fragments_example :
    (ingest_unmarked 1
        (fragment 0x65 0x80 (1 ∷ []) ∷ middles 0x65 ((2 ∷ []) ∷ []))
        new_frame_extractor
      >>= λ f. ingest_payload 1 (fragment 0x65 0x40 (3 ∷ [])) true f)
    ≡ add_nal 1 (0x65 ∷ 1 ∷ 2 ∷ 3 ∷ []) true new_frame_extractor
ingest_payload-fragments_example =
    ingest_payload-fragments 1 0x65 (1 ∷ []) ((2 ∷ []) ∷ []) (3 ∷ []) true new_frame_extractor
      (omega arith)

-- A parameter set and a key frame.
abbrev picture : List Bytes
picture = (0x67 ∷ 1 ∷ []) ∷ (0x65 ∷ 2 ∷ []) ∷ []

picture-has_idr : has_idr picture ≡ true
unfolding has_idr
picture-has_idr = refl

ingest_payload-picture_example :
    (f : FrameExtractor) × (ingest_payload 1 (0x78 ∷ aggregate picture) true new_frame_extractor
      ≡ some f)
    × (capture_key_frame f ≡ some (annex_b (if_present f.sps ++ if_present f.pps ++ picture)))
ingest_payload-picture_example =
    ingest_payload-picture 1 0x78 picture new_frame_extractor (inr (inr (inr (inl refl))))
      ((omega arith, omega arith), ((omega arith, omega arith), tt)) picture-has_idr refl refl

abbrev spoilt : FrameExtractor
spoilt = record new_frame_extractor {
  picture_corrupted = true;
  idr_ready = true;
  idr_nals = picture;
}

ingest_all-Returns_example :
    Returns (ingest_all 1 (packet 1 [] ∷ packet 2 (0x65 ∷ 2 ∷ []) ∷ []) new_frame_extractor)
ingest_all-Returns_example =
    ingest_all-Returns 1 (packet 1 [] ∷ packet 2 (0x65 ∷ 2 ∷ []) ∷ []) new_frame_extractor tt
      (refl, (refl, tt))

ingest-empty_unit_example :
    (ingest_ordered 1 (packet 1 (24 ∷ 0 ∷ 0 ∷ [])) new_frame_extractor ≡ none)
    × (ingest 1 (packet 1 (24 ∷ 0 ∷ 0 ∷ [])) new_frame_extractor ≡ none)
ingest-empty_unit_example =
    ingest-empty_unit 1 (packet 1 (24 ∷ 0 ∷ 0 ∷ [])) [] new_frame_extractor refl
