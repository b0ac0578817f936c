-- ===== src/Marking/Frame.antt =====
-- `parse_dec_ref_pic_marking` for IDR pictures and frame pictures. `cur` is `currPic`.
use edge264_mvc.Common.{ℕ, zero, suc, ◌+◌, Bool, true, false, ◌&&◌, ◌||◌, ◌==◌, leb, if◌then◌else◌}
use edge264_mvc.Common.Int.{ℤ, pos, ◌-ℤ◌, eq_ℤ, int32}
use edge264_mvc.Common.Masks.{
  FrameMask, empty, bit, ◌∩◌, ◌∪◌, ◌∖◌, ◌△◌, complement, for_bits, mask_any, mask_popcount,
}
use edge264_mvc.Decoder.{Decoder, update, int_max, minw}
use edge264_mvc.Output.{bump_while}
use edge264_mvc.ParameterSets.{Sps}
use edge264_mvc.Marking.Base.{get_u1, get_ue16, long_term_bound, lowest_from, discard_surplus}

-- The view of the NAL being parsed (`nal_unit_type == 20`), which is bumped.
abbrev pub nal_view : Decoder → ℕ
nal_view d = if d.nal_unit_type == 20 then 1 else 0

-- The slots of the view of the current picture.
abbrev pub view_slots : Decoder → ℕ → FrameMask
view_slots d cur = if d.non_base_frames cur then d.non_base_frames else complement d.non_base_frames

-- An IDR picture is the only reference left, short-term or long-term.
-- The markings with an IDR picture in slot `cur` the only reference.
unfoldable pub only_idr : ℕ → ℕ → Decoder → Decoder
only_idr long_term_flag cur d =
    let shorts : FrameMask = if long_term_flag == 0 then bit cur else empty in
    let longs : FrameMask = if long_term_flag == 0 then empty else bit cur in
    let marked = λ (q : ℕ). d.curr_field == 0 || d.curr_field == q + 1 in
    record d {
      short_term_frames = shorts;
      long_term_frames = longs;
      short_term_fields = λ q. if marked q then shorts else empty;
      long_term_fields = λ q. if marked q then longs else empty;
      long_term_frame_idx = λ _. 0;
    }

unfoldable pub mark_idr : Decoder → ℕ → Decoder
unfolding get_u1 only_idr bump_while
mark_idr d0 cur =
    let (no_output_of_prior_pics_flag, d1) = get_u1 d0 in
    let (long_term_flag, d) = get_u1 d1 in
    bump_while (only_idr long_term_flag cur d) (nal_view d) (bit cur)

-- Operations 1 and 3: the short-term or non-existing frames of a given FrameNum lose their marking.
-- The second part is `target`, the last of them or the current picture.
unfoldable pub unmark_short : ℤ → ℕ → Decoder × ℕ → Decoder × ℕ
unmark_short num j (d, target) =
    if eq_ℤ (d.frame_nums j) num
    then (
      record d {
        short_term_frames = d.short_term_frames △ bit j;
        long_term_frames = d.long_term_frames ∖ bit j;
      },
      j,
    )
    else (d, target)

unfoldable pub dereference_short : Decoder → ℕ → Decoder × ℕ
unfolding get_ue16 unmark_short ◌-ℤ◌
dereference_short d0 cur =
    let (num, d) = get_ue16 0xffff_fffe d0 in
    for_bits d.short_term_frames (unmark_short (int32 (d.frame_num -ℤ pos 1 -ℤ pos num))) (d, cur)

-- Operations 2, 3, 4 and 6: the long-term frames of an index, or of all indices from it on, lose
-- their marking; 3 and 6 then give the index to the target.
unfoldable pub unmark_long : ℕ → ℕ → ℕ → Decoder → Decoder
unmark_long idx up j d =
    if leb idx (d.long_term_frame_idx j) && leb (d.long_term_frame_idx j) up
    then record d { long_term_frames = d.long_term_frames △ bit j }
    else d

unfoldable pub dereference_long : Decoder → Sps → ℕ → ℕ × Decoder
unfolding get_ue16 unmark_long
dereference_long d0 sps op =
    let (idx, d) = get_ue16 (long_term_bound sps op) d0 in
    let up = if op == 4 then 0x7fff_ffff else idx in
    (idx, for_bits (d.long_term_frames ∖ d.short_term_frames) (unmark_long idx up) d)

-- The state of the loop: the decoder and `long_term_frame`.
abbrev pub State : Type 0
State = Decoder × Bool

unfoldable pub convert : ℕ → ℕ → ℕ → ℕ → State → State
convert op cur target idx (d, long_term_frame) =
    if op == 6
    then (record d { long_term_frame_idx = update d.long_term_frame_idx target idx }, true)
    else (if op == 3
        then (
          record d {
            long_term_frame_idx = update d.long_term_frame_idx target idx;
            long_term_frames =
                if target == cur then d.long_term_frames else d.long_term_frames ∪ bit target;
          },
          long_term_frame,
        )
        else (d, long_term_frame))

-- Operation 5: no reference is left, and the order count of the current picture starts again.
unfoldable pub dereference_all : Decoder → ℕ → Decoder
unfolding bump_while ◌-ℤ◌
dereference_all d cur =
    let temp = minw d.top_field_order_cnt d.bottom_field_order_cnt in
    let d' = record d {
      short_term_frames = empty;
      long_term_frames = empty;
      frame_nums = update d.frame_nums cur (pos 0);
      long_term_frame_idx = λ i. if view_slots d cur i then 0 else d.long_term_frame_idx i;
      field_order_cnt =
          update
            (update d.field_order_cnt 0
              (update (d.field_order_cnt 0) cur (int32 (d.top_field_order_cnt -ℤ temp))))
            1 (update (d.field_order_cnt 1) cur (int32 (d.bottom_field_order_cnt -ℤ temp)));
      resume_state = 2;
      leading_frames = d.leading_frames ∖ bit cur;
    } in
    bump_while d' (nal_view d') (bit cur)

-- One memory_management_control_operation, by the guards on its number: `10 & 1 << op` holds for 1
-- and 3, `92 & 1 << op` for 2, 3, 4 and 6.
unfoldable pub short_part : ℕ → ℕ → Decoder → Decoder × ℕ
unfolding dereference_short
short_part cur op d = if op == 1 || op == 3 then dereference_short d cur else (d, cur)

unfoldable pub long_part : Sps → ℕ → ℕ → ℕ → State → State
unfolding dereference_long convert
long_part sps cur op target (d0, flag) =
    if op == 2 || op == 3 || op == 4 || op == 6
    then (let (idx, d) = dereference_long d0 sps op in convert op cur target idx (d, flag))
    else (d0, flag)

unfoldable pub mmco : Sps → ℕ → ℕ → State → State
unfolding short_part long_part dereference_all
mmco sps cur op (d0, flag0) =
    let (d1, target) = short_part cur op d0 in
    let (d2, flag) = long_part sps cur op target (d1, flag0) in
    (if op == 5 then dereference_all d2 cur else d2, flag)

-- while ((op = get_ue16(gb, 6)) != 0 && i-- > 0)
unfoldable pub mmco_loop : ℕ → Sps → ℕ → State → State
mmco_loop zero sps cur (d0, flag) = let (op, d) = get_ue16 6 d0 in (d, flag)
mmco_loop (suc i) sps cur (d0, flag) =
    let (op, d) = get_ue16 6 d0 in
    let rest = mmco_loop i sps cur (mmco sps cur op (d, flag)) in
    if op == 0 then (d, flag) else rest

unfoldable pub adaptive : Decoder → Sps → ℕ → State
unfolding get_u1 mmco_loop
adaptive d0 sps cur =
    let (adaptive_flag, d) = get_u1 d0 in
    if adaptive_flag == 0 then (d, false) else mmco_loop 32 sps cur (d, false)

-- 8.2.5.3: at capacity the short-term frame of the lowest FrameNum loses its marking.
unfoldable pub oldest : Decoder → ℕ
unfolding lowest_from
oldest d = (lowest_from d.short_term_frames d.frame_nums (0, int_max)).0

abbrev pub give_up_oldest : Decoder → Decoder
give_up_oldest d = record d {
  short_term_frames = d.short_term_frames △ bit (oldest d);
  long_term_frames = d.long_term_frames ∖ bit (oldest d);
}

unfoldable pub slide : Decoder → Sps → Decoder
unfolding oldest
slide d sps =
    if mask_any d.short_term_frames
      && leb sps.max_num_ref_frames (mask_popcount (d.short_term_frames ∪ d.long_term_frames))
    then give_up_oldest d
    else d

unfoldable pub add_current : State → ℕ → Decoder
add_current (d, long_term_frame) cur =
    if long_term_frame
    then record d { long_term_frames = d.long_term_frames ∪ bit cur }
    else record d { short_term_frames = d.short_term_frames ∪ bit cur }

-- A frame picture marks both fields of the frames it marks.
unfoldable pub mark_fields : Decoder → FrameMask → FrameMask → Decoder
mark_fields d old_short old_long = record d {
  short_term_fields =
      λ q. d.short_term_fields q ∩ d.short_term_frames ∪ d.short_term_frames ∖ old_short;
  long_term_fields = λ q. d.long_term_fields q ∩ d.long_term_frames ∪ d.long_term_frames ∖ old_long;
}

unfoldable pub mark_frame : Decoder → Sps → ℕ → Decoder
unfolding adaptive slide add_current discard_surplus mark_fields
mark_frame d0 sps cur =
    let (d, long_term_frame) = adaptive d0 sps cur in
    mark_fields (discard_surplus (add_current (slide d sps, long_term_frame) cur) sps cur)
      d0.short_term_frames d0.long_term_frames
