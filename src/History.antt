-- ===== src/History.antt =====
-- The reference marking kept from picture to picture, for both views: `unset_currPic` of
-- src/edge264mvc_headers.c, and what a slice takes from it in `parse_slice_layer_without_partitioning`.
pub mod Commit
pub mod Room
pub mod Tests
use edge264_mvc.Common.{ℕ, Bool, true, false, Option, none, some, ◌==◌, if◌then◌else◌}
use edge264_mvc.Common.Int.{ℤ}
use edge264_mvc.Common.Masks.{FrameMask, ◌∩◌, ◌∪◌, ◌∖◌}
use edge264_mvc.Decoder.{Decoder, update}
use edge264_mvc.Output.{same_views}

-- `currPic` and `basePic` are none where they are -1.
pub record History : Type 0 where
  pub prev_short_term_frames : FrameMask
  pub prev_long_term_frames : FrameMask
  pub prev_short_term_fields : ℕ → FrameMask
  pub prev_long_term_fields : ℕ → FrameMask
  pub prev_long_term_frame_idx : ℕ → ℕ
  pub prev_pic_order_cnt : ℕ → ℤ
  pub base_pic : Option ℕ
  pub curr_pic : Option ℕ

-- Each slice starts from the references of its view.
unfoldable pub begin_slice : History → ℕ → Decoder → Decoder
begin_slice h view d =
    let own = same_views d view in
    record d {
      curr_pic_marked = false;
      short_term_frames = h.prev_short_term_frames ∩ own;
      long_term_frames = h.prev_long_term_frames ∩ own;
      short_term_fields = λ p. h.prev_short_term_fields p ∩ own;
      long_term_fields = λ p. h.prev_long_term_fields p ∩ own;
      long_term_frame_idx = h.prev_long_term_frame_idx;
    }

-- The marking of the current picture's view replaces that of the view.
unfoldable pub commit : ℕ → Decoder → History → History
commit view d h =
    let own = same_views d view in
    let field = if d.curr_field == 2 then 1 else 0 in
    record h {
      prev_pic_order_cnt = update h.prev_pic_order_cnt view (d.field_order_cnt field d.curr_pic);
      prev_short_term_frames = h.prev_short_term_frames ∖ own ∪ d.short_term_frames;
      prev_long_term_frames = h.prev_long_term_frames ∖ own ∪ d.long_term_frames;
      prev_short_term_fields = λ p. h.prev_short_term_fields p ∖ own ∪ d.short_term_fields p;
      prev_long_term_fields = λ p. h.prev_long_term_fields p ∖ own ∪ d.long_term_fields p;
      prev_long_term_frame_idx = d.long_term_frame_idx;
    }

-- The calls that end the last slice of the picture come before, and change none of this.
unfoldable pub unset_curr_pic : Decoder → History → Decoder × History
unfolding commit
unset_curr_pic d h0 =
    let view = if d.non_base_frames d.curr_pic then 1 else 0 in
    let h = if d.curr_pic_marked then commit view d h0 else h0 in
    (
      if d.curr_pic_marked
          then record d {
            prev_ref_frame_num = update d.prev_ref_frame_num view (d.frame_nums d.curr_pic);
          }
          else d,
      record h { base_pic = if view == 0 then some d.curr_pic else h.base_pic; curr_pic = none },
    )
