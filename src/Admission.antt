-- ===== src/Admission.antt =====
-- The entry of the current picture into the decoded picture buffer (C.4.5), in
-- `parse_slice_layer_without_partitioning` of src/edge264mvc_headers.c.
pub mod Keeps
pub mod Reorder
pub mod Tests
use edge264_mvc.Common.{
  ℕ, zero, suc, Bool, true, false, not, ◌&&◌, ◌||◌, Option, none, some, ◌==◌, ltb, if◌then◌else◌,
}
use edge264_mvc.Common.Int.{ltb_ℤ}
use edge264_mvc.Common.Masks.{FrameMask, bit, ◌∩◌, ◌∪◌, ◌∖◌, mask_popcount, empty}
use edge264_mvc.Decoder.{Decoder, frame_poc}
use edge264_mvc.ParameterSets.{Sps}
use edge264_mvc.Output.{same_views, bump_frame, emit}

-- The pictures that wait to be output, and those of a view.
abbrev pub undrained : Decoder → FrameMask
undrained d = d.to_get_frames ∖ d.output_frames

-- `while (mask_popcount(...) > max_dec_frame_buffering && max_bump--) bump_frame(...);`. The result tells
-- whether `max_bump` ran out, as `max_bump < 0` after the loop does.
unfoldable pub bump_at_most : ℕ → FrameMask → ℕ → ℕ → Decoder → Bool × Decoder
unfolding bump_frame
bump_at_most zero references limit view d =
    (ltb limit (mask_popcount (references ∪ undrained d)), d)
bump_at_most (suc bumps) references limit view d =
    elim (ltb limit (mask_popcount (references ∪ undrained d))) [
      | true ↦ bump_at_most bumps references limit view (bump_frame d view empty).1
      | false ↦ (false, d)
    ]

-- How many pictures may be bumped: for a picture that is no reference, those displayed before it.
unfoldable pub max_bump : Decoder → ℕ → ℕ → Sps → ℕ
max_bump d view nal_ref_idc sps =
    let poc = if d.interlaced then frame_poc d d.curr_pic else d.top_field_order_cnt in
    if nal_ref_idc == 0
    then mask_popcount (undrained d ∩ same_views d view ∩ (λ i. ltb_ℤ (frame_poc d i) poc))
    else sps.max_num_ref_frames

-- The current picture awaits output. Where no picture could make room for it, it comes out at once, and
-- else one is bumped where more wait than the stream may reorder.
unfoldable pub enter : ℕ → Sps → Bool × Decoder → Decoder
unfolding emit bump_frame
enter view sps (immediate, d0) =
    let d = record d0 { to_get_frames = d0.to_get_frames ∪ bit d0.curr_pic } in
    if immediate
    then emit d view d.curr_pic
    else (if ltb sps.max_num_reorder_frames (mask_popcount (undrained d ∩ same_views d view))
        then (bump_frame d view empty).1
        else d)

-- The references of both views, of the other one as they were before the picture. `prev_short` and
-- `prev_long` are prev_short_term_frames and prev_long_term_frames.
unfoldable pub reference_frames : Decoder → ℕ → FrameMask → FrameMask → FrameMask
reference_frames d view prev_short prev_long =
    let short_term_frames = prev_short ∖ same_views d view ∪ d.short_term_frames in
    let long_term_frames = prev_long ∖ same_views d view ∪ d.long_term_frames in
    short_term_frames ∪ long_term_frames

-- `view` is non_base_view.
unfoldable pub admit : Decoder → ℕ → FrameMask → FrameMask → ℕ → Sps → Decoder
unfolding bump_at_most max_bump reference_frames enter
admit d view prev_short prev_long nal_ref_idc sps =
    if d.to_get_frames d.curr_pic
    then d
    else enter view sps (
        bump_at_most (max_bump d view nal_ref_idc sps)
          (reference_frames d view prev_short prev_long) sps.max_dec_frame_buffering view d)
