-- ===== src/Marking/FieldCapacity.antt =====
-- The marking of a field picture keeps the references within max_num_ref_frames, and so does the
-- marking as a whole.
use edge264_mvc.Common.{
  ℕ, zero, suc, ◌≤◌, ◌<◌, ◌≡◌, refl, true, false, arith, ◌==◌, if◌then◌else◌, if_elim,
}
use edge264_mvc.Common.Masks.{FrameMask, max_frames, bit, ◌∪◌, mask_popcount}
use edge264_mvc.Common.Masks.Count.{Within, popcount-bit}
use edge264_mvc.Decoder.{Decoder}
use edge264_mvc.ParameterSets.{Sps}
use edge264_mvc.Output.{bump_while}
use edge264_mvc.Output.Keeps.{SameMarking-bump_while}
use edge264_mvc.Marking.Base.{get_u1}
use edge264_mvc.Marking.Frame.{only_idr, nal_view, State, mark_idr}
use edge264_mvc.Marking.Field.{
  mark_frame_from_fields, adaptive_field, add_current_field, keep_marked, mark_field,
  parse_dec_ref_pic_marking,
}
use edge264_mvc.Marking.Capacity.{refs, SmallNums, discard_surplus-le}
use edge264_mvc.Marking.FieldFits.{Fits, adaptive_field-Fits}
use edge264_mvc.Marking.FrameCapacity.{mark_frame-capacity, one_more}

-- The current picture is a reference now, and at most one more slot is.
add_current_field-refs :
    (r : FrameMask) (s : State) (p cur : ℕ)
    → p ≤ 1
    → Fits r s.0
    → (refs (add_current_field s p cur) cur ≡ true)
      × Within (refs (add_current_field s p cur)) (r ∪ bit cur)
unfolding add_current_field mark_frame_from_fields
add_current_field-refs r (d, true) zero cur h f = (
  ground arith,
  λ i. ground (arith, f.within i, f.short_in 0 i, f.short_in 1 i, f.long_in 0 i, f.long_in 1 i),
)
add_current_field-refs r (d, true) (suc zero) cur h f = (
  ground arith,
  λ i. ground (arith, f.within i, f.short_in 0 i, f.short_in 1 i, f.long_in 0 i, f.long_in 1 i),
)
add_current_field-refs r (d, false) zero cur h f = (
  ground arith,
  λ i. ground (arith, f.within i, f.short_in 0 i, f.short_in 1 i, f.long_in 0 i, f.long_in 1 i),
)
add_current_field-refs r (d, false) (suc zero) cur h f = (
  ground arith,
  λ i. ground (arith, f.within i, f.short_in 0 i, f.short_in 1 i, f.long_in 0 i, f.long_in 1 i),
)
add_current_field-refs r (d, b) (suc (suc p)) cur h f = absurd (omega arith)

keep_marked-Fits : (d : Decoder) → Fits (refs d) (keep_marked d)
keep_marked-Fits d = record {
  within = λ i e. e;
  short_in = λ q i e. ground (arith, e);
  long_in = λ q i e. ground (arith, e);
}

-- After the marking of a field picture, whatever operations its header holds, the frames marked
-- short-term or long-term are no more than max_num_ref_frames, if they were so before.
pub mark_field-capacity :
    (d : Decoder) (sps : Sps) (cur : ℕ)
    → cur < max_frames
    → mask_popcount (refs d) ≤ sps.max_num_ref_frames
    → mask_popcount (refs (mark_field d sps cur)) ≤ sps.max_num_ref_frames
unfolding mark_field
mark_field-capacity d sps cur lt h =
    discard_surplus-le (add_current_field marked p cur) sps cur lt added.0
      (omega (arith, one_more d (refs (add_current_field marked p cur)) cur added.1))
  where
    p : ℕ
    p = if d.curr_field == 2 then 1 else 0

    marked : State
    marked = adaptive_field (keep_marked d) sps p cur

    low : p ≤ 1
    low = if_elim (λ (k : ℕ). k ≤ 1) (d.curr_field == 2) (omega arith) (omega arith)

    added :
        (refs (add_current_field marked p cur) cur ≡ true)
        × Within (refs (add_current_field marked p cur)) (refs d ∪ bit cur)
    added =
        add_current_field-refs (refs d) marked p cur low
          (adaptive_field-Fits (refs d) (keep_marked d) sps p cur (keep_marked-Fits d))

only_idr-one : (flag cur : ℕ) (d : Decoder) → mask_popcount (refs (only_idr flag cur d)) ≤ 1
unfolding only_idr
only_idr-one flag cur d = popcount-bit cur (refs (only_idr flag cur d)) (λ i. ground arith)

refs-bump_while :
    (d : Decoder) (view : ℕ) (ignored : FrameMask) → refs (bump_while d view ignored) ≡ refs d
refs-bump_while d view ignored =
    let s = SameMarking-bump_while d view ignored in rw (s.shorts, s.longs) refl

-- After the marking of an IDR picture, at most one frame is marked short-term or long-term, however
-- many were before.
pub mark_idr-one : (d : Decoder) (cur : ℕ) → mask_popcount (refs (mark_idr d cur)) ≤ 1
unfolding mark_idr
mark_idr-one d cur =
    let long_term_flag = (get_u1 (get_u1 d).1).0 in
    let last = (get_u1 (get_u1 d).1).1 in
    rw (refs-bump_while (only_idr long_term_flag cur last) (nal_view last) (bit cur))
      (only_idr-one long_term_flag cur last)

-- However the slice header marks the current picture, as IDR, frame or field, the frames marked
-- short-term or long-term are then no more than max_num_ref_frames (at least 1), if they were no
-- more before and no FrameNum is INT_MAX.
pub parse_dec_ref_pic_marking-capacity :
    (d : Decoder) (sps : Sps)
    → d.curr_pic < max_frames
    → 1 ≤ sps.max_num_ref_frames
    → SmallNums d
    → mask_popcount (refs d) ≤ sps.max_num_ref_frames
    → mask_popcount (refs (parse_dec_ref_pic_marking d sps)) ≤ sps.max_num_ref_frames
unfolding parse_dec_ref_pic_marking
parse_dec_ref_pic_marking-capacity d sps lt one small h =
    if_elim Kept d.idr_pic_flag (omega (arith, mark_idr-one marked d.curr_pic)) (
      if_elim Kept (d.curr_field == 0) (mark_frame-capacity marked sps d.curr_pic lt small h)
        (mark_field-capacity marked sps d.curr_pic lt h))
  where
    marked : Decoder
    marked = record d { curr_pic_marked = true }

    Kept : Decoder → Type 0
    Kept e = mask_popcount (refs e) ≤ sps.max_num_ref_frames
