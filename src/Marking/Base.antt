-- ===== src/Marking/Base.antt =====
-- What the marking of frames and fields shares (src/edge264mvc_headers.c): the readers on the decoder,
-- `derive_FrameNum`, and giving up a reference over max_num_ref_frames.
use edge264_mvc.Common.{ℕ, ◌+◌, ◌-◌, ◌^◌, ◌%◌, Bool, ◌&&◌, ◌==◌, ltb, if◌then◌else◌}
use edge264_mvc.Common.Int.{ℤ, int32, pos, ◌+ℤ◌, ◌-ℤ◌, ltb_ℤ, to_unsigned}
use edge264_mvc.Common.Masks.{FrameMask, bit, ◌∪◌, ◌∖◌, for_bits, mask_any, mask_popcount}
use edge264_mvc.Bits
use edge264_mvc.Bits.{GetBits}
use edge264_mvc.Decoder.{Decoder, int_max}
use edge264_mvc.ParameterSets.{Sps}

-- The readers on the decoder's own bitstream.
unfoldable pub get_u1 : Decoder → ℕ × Decoder
get_u1 d = let (v, gb) = Bits.get_u1 d.gb in (v, record d { gb = gb })

unfoldable pub get_ue16 : ℕ → Decoder → ℕ × Decoder
get_ue16 upper d = let (v, gb) = Bits.get_ue16 upper d.gb in (v, record d { gb = gb })

-- PrevRefFrameNum + 1 + ((frame_num - PrevRefFrameNum - 1) & FrameNumMask), where the mask is
-- 2 ^ `bits` - 1, or the same number for the second field of a reference frame.
unfoldable pub derive_frame_num : Decoder → ℕ → ℕ → ℕ → Bool → ℤ
unfolding ◌+ℤ◌ ◌-ℤ◌
derive_frame_num d frame_num bits view field =
    let prev = d.prev_ref_frame_num view in
    if field && to_unsigned bits (int32 (pos frame_num -ℤ prev)) == 0
    then prev
    else int32 (prev +ℤ pos 1 +ℤ pos (to_unsigned bits (int32 (pos frame_num -ℤ prev -ℤ pos 1))))

-- `max_num_ref_frames - (op != 4)`, read as an unsigned bound.
abbrev pub long_term_bound : Sps → ℕ → ℕ
long_term_bound sps op = (sps.max_num_ref_frames + 2 ^ 32 - (if op == 4 then 0 else 1)) % 2 ^ 32

-- The slot of the lowest FrameNum of a set, or `next` and `best` as they were: both loops that look
-- for it compare strictly and start at INT_MAX.
unfoldable pub lowest_step : (ℕ → ℤ) → ℕ → ℕ × ℤ → ℕ × ℤ
lowest_step value i (next, best) = if ltb_ℤ (value i) best then (i, value i) else (next, best)

unfoldable pub lowest_from : FrameMask → (ℕ → ℤ) → ℕ × ℤ → ℕ × ℤ
unfolding lowest_step
lowest_from m value start = for_bits m (lowest_step value) start

-- The reference to give up where there are more than max_num_ref_frames: the oldest short-term one
-- but for `cur`, `cur` if there is no other, or the long-term one of the lowest index.
unfoldable pub surplus : Decoder → ℕ → ℕ
unfolding lowest_from
surplus d cur =
    let start : ℕ × ℤ = (cur, int_max) in
    let longs =
      if mask_any d.short_term_frames
      then start
      else lowest_from d.long_term_frames (λ i. pos (d.long_term_frame_idx i)) start in
    (lowest_from (d.short_term_frames ∖ bit cur) d.frame_nums longs).0

unfoldable pub discard_surplus : Decoder → Sps → ℕ → Decoder
unfolding surplus
discard_surplus d sps cur =
    if ltb sps.max_num_ref_frames (mask_popcount (d.short_term_frames ∪ d.long_term_frames))
    then record d {
      short_term_frames = d.short_term_frames ∖ bit (surplus d cur);
      long_term_frames = d.long_term_frames ∖ bit (surplus d cur);
    }
    else d
