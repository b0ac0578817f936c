-- ===== src/Marking/Field.antt =====
-- `parse_dec_ref_pic_marking_field`, the marking of a field picture, and the function that chooses
-- between it and the marking of frames. `p` is the parity of the current field, `cur` is `currPic`.
use edge264_mvc.Common.{
  ℕ, zero, suc, ◌-◌, Bool, true, false, not, ◌&&◌, ◌||◌, ◌==◌, leb, if◌then◌else◌, Option, some,
  none,
}
use edge264_mvc.Common.Int.{ℤ, pos, ◌+ℤ◌, ◌-ℤ◌, ◌*ℤ◌, eq_ℤ}
use edge264_mvc.Common.Masks.{empty, bit, ◌∩◌, ◌∪◌, ◌∖◌, for_bits, mask_any, mask_popcount}
use edge264_mvc.Decoder.{Decoder, update}
use edge264_mvc.Output.{bump_while}
use edge264_mvc.ParameterSets.{Sps}
use edge264_mvc.Marking.Base.{get_u1, get_ue16, long_term_bound, discard_surplus}
use edge264_mvc.Marking.Frame.{nal_view, view_slots, oldest, mark_idr, mark_frame, State}

-- The marking of the frame in slot `s` is taken from those of its fields.
unfoldable pub mark_frame_from_fields : ℕ → Decoder → Decoder
mark_frame_from_fields s d = record d {
  short_term_frames =
      d.short_term_frames ∖ bit s ∪ (d.short_term_fields 0 ∪ d.short_term_fields 1) ∩ bit s;
  long_term_frames =
      d.long_term_frames ∖ bit s ∪ (d.long_term_fields 0 ∪ d.long_term_fields 1) ∩ bit s;
}

-- Fields of parity `q` lose a marking.
abbrev pub clear_short : ℕ → ℕ → Decoder → Decoder
clear_short q s d = record d {
  short_term_fields = update d.short_term_fields q (d.short_term_fields q ∖ bit s);
}

abbrev pub clear_long : ℕ → ℕ → Decoder → Decoder
clear_long q s d = record d {
  long_term_fields = update d.long_term_fields q (d.long_term_fields q ∖ bit s);
}

abbrev pub set_long : ℕ → ℕ → Decoder → Decoder
set_long q s d = record d {
  long_term_fields = update d.long_term_fields q (d.long_term_fields q ∪ bit s);
}

-- PicNum and LongTermPicNum of the field of parity `k` (8-30 to 8-33).
abbrev pub field_num : ℤ → ℕ → ℕ → ℤ
field_num n k p = pos 2 *ℤ n +ℤ pos (if k == p then 1 else 0)

-- Operations 1 and 3 look for the short-term field of a PicNum: its slot and parity.
abbrev pub Found : Type 0
Found = Option ℕ × ℕ

unfoldable pub match_parity : Decoder → ℕ → ℤ → ℕ → ℕ → Found → Found
unfolding ◌+ℤ◌ ◌*ℤ◌
match_parity d p num r k f =
    if d.short_term_fields k r && eq_ℤ (field_num (d.frame_nums r) k p) num then (some r, k) else f

unfoldable pub match_slot : Decoder → ℕ → ℤ → ℕ → Found → Found
unfolding match_parity
match_slot d p num r (some s, q) = (some s, q)
match_slot d p num r (none, q) = match_parity d p num r 1 (match_parity d p num r 0 (none, q))

unfoldable pub find_short : Decoder → ℕ → ℤ → Found
unfolding match_slot
find_short d p num = for_bits d.short_term_frames (match_slot d p num) (none, 0)

unfoldable pub unmark_found : Found → Decoder → Decoder
unfolding mark_frame_from_fields
unmark_found (none, q) d = d
unmark_found (some s, q) d = mark_frame_from_fields s (clear_short q s d)

-- Operation 2: the long-term field of a LongTermPicNum loses its marking.
unfoldable pub unmark_long_parity : ℕ → ℤ → ℕ → ℕ → Decoder → Decoder
unfolding mark_frame_from_fields ◌+ℤ◌ ◌*ℤ◌
unmark_long_parity p num k r d =
    if d.long_term_fields k r && eq_ℤ (field_num (pos (d.long_term_frame_idx r)) k p) num
    then mark_frame_from_fields r (clear_long k r d)
    else d

unfoldable pub unmark_long_num : ℕ → Decoder → Decoder
unfolding get_ue16 unmark_long_parity
unmark_long_num p d0 =
    let (num, d) = get_ue16 0xffff_fffe d0 in
    for_bits (d.long_term_frames ∖ d.short_term_frames)
      (λ r e. unmark_long_parity p (pos num) 1 r (unmark_long_parity p (pos num) 0 r e)) d

-- The long-term fields holding an index of a range lose their marking, but for those of `keep`.
unfoldable pub unmark_index : Option ℕ → ℕ → ℕ → ℕ → Decoder → Decoder
unfolding mark_frame_from_fields
unmark_index keep idx up j d =
    if not (elim keep [ none ↦ false | some s ↦ s == j ])
      && leb idx (d.long_term_frame_idx j)
      && leb (d.long_term_frame_idx j) up
    then mark_frame_from_fields j (clear_long 1 j (clear_long 0 j d))
    else d

-- Operations 3 and 6 then mark the field found, or the current one when the loop is over.
unfoldable pub convert_field : ℕ → ℕ → Found → ℕ → State → State
unfolding mark_frame_from_fields
convert_field cur op (some s, q) idx (d, flag) =
    if op == 3
    then (
      mark_frame_from_fields s (record (set_long q s (clear_short q s d)) {
        long_term_frame_idx = update d.long_term_frame_idx s idx;
      }),
      flag,
    )
    else (if op == 6
        then (record d { long_term_frame_idx = update d.long_term_frame_idx cur idx }, true)
        else (d, flag))
convert_field cur op (none, q) idx (d, flag) =
    if op == 6
    then (record d { long_term_frame_idx = update d.long_term_frame_idx cur idx }, true)
    else (d, flag)

-- The part under `92 & 1 << op`, which holds for the operations 2, 3, 4 and 6.
unfoldable pub long_part : Sps → ℕ → ℕ → Found → State → State
unfolding get_ue16 unmark_index convert_field
long_part sps cur op found (d0, flag) =
    let (idx, d) = get_ue16 (long_term_bound sps op) d0 in
    let up = if op == 4 then 0x7fff_ffff else idx in
    let keep : Option ℕ = if op == 6 then some cur else if op == 3 then found.0 else none in
    convert_field cur op found idx
      (for_bits (d.long_term_frames ∖ d.short_term_frames) (unmark_index keep idx up) d, flag)

-- Operation 5.
unfoldable pub dereference_all_fields : ℕ → ℕ → Decoder → Decoder
unfolding bump_while
dereference_all_fields p cur d =
    let view = if d.non_base_frames cur then 1 else 0 in
    let zeroed = update d.field_order_cnt p (update (d.field_order_cnt p) cur (pos 0)) in
    let first : Bool = elim (d.field_slot view) [ none ↦ false | some s ↦ s == cur ] in
    let d' = record d {
      short_term_frames = empty;
      long_term_frames = empty;
      short_term_fields = λ _. empty;
      long_term_fields = λ _. empty;
      frame_nums = update d.frame_nums cur (pos 0);
      long_term_frame_idx = λ i. if view_slots d cur i then 0 else d.long_term_frame_idx i;
      field_order_cnt =
          if first then update zeroed (1 - p) (update (zeroed (1 - p)) cur (pos 0)) else zeroed;
      resume_state = 2;
      leading_frames = d.leading_frames ∖ bit cur;
    } in
    bump_while d' (nal_view d') (bit cur)

-- picNumX of the operations 1 and 3, and what is found where it is not read.
unfoldable pub read_short : ℕ → Decoder → Found × Decoder
unfolding get_ue16 find_short ◌-ℤ◌ ◌*ℤ◌
read_short p d0 =
    let (num, d) = get_ue16 0xffff_fffe d0 in (find_short d p (pos 2 *ℤ d.frame_num -ℤ pos num), d)

abbrev pub not_read : Decoder → Found × Decoder
not_read d = ((none, 0), d)

unfoldable pub mmco_field : Sps → ℕ → ℕ → ℕ → State → State
unfolding read_short unmark_found unmark_long_num long_part dereference_all_fields
mmco_field sps p cur op (d0, flag0) =
    let (found, d1) = if op == 1 || op == 3 then read_short p d0 else not_read d0 in
    let d2 =
      if op == 1 then unmark_found found d1 else if op == 2 then unmark_long_num p d1 else d1 in
    let (d3, flag3) =
      if op == 2 || op == 3 || op == 4 || op == 6
      then long_part sps cur op found (d2, flag0)
      else (d2, flag0) in
    (if op == 5 then dereference_all_fields p cur d3 else d3, flag3)

unfoldable pub mmco_field_loop : ℕ → Sps → ℕ → ℕ → State → State
mmco_field_loop zero sps p cur (d0, flag) = let (op, d) = get_ue16 6 d0 in (d, flag)
mmco_field_loop (suc i) sps p cur (d0, flag) =
    let (op, d) = get_ue16 6 d0 in
    let rest = mmco_field_loop i sps p cur (mmco_field sps p cur op (d, flag)) in
    if op == 0 then (d, flag) else rest

-- 8.2.5.3: at capacity both fields of the oldest short-term frame lose their marking. A frame
-- inferred for a gap is marked both ways.
unfoldable pub drop_gap_mark : ℕ → ℕ → Decoder → Decoder
drop_gap_mark b k d =
    clear_short k b
      (if d.long_term_fields k b && d.short_term_fields k b then clear_long k b d else d)

unfoldable pub slide_field : Decoder → Sps → Decoder
unfolding oldest drop_gap_mark mark_frame_from_fields
slide_field d sps =
    if mask_any d.short_term_frames
      && leb sps.max_num_ref_frames (mask_popcount (d.short_term_frames ∪ d.long_term_frames))
    then mark_frame_from_fields (oldest d)
        (drop_gap_mark (oldest d) 1 (drop_gap_mark (oldest d) 0 d))
    else d

-- The memory management control operations, or the sliding window but for the second field of a
-- frame whose first field is a short-term reference.
unfoldable pub adaptive_field : Decoder → Sps → ℕ → ℕ → State
unfolding get_u1 mmco_field_loop slide_field
adaptive_field d0 sps p cur =
    let (adaptive_flag, d) = get_u1 d0 in
    if adaptive_flag == 0
    then (if d.short_term_fields (1 - p) cur then d else slide_field d sps, false)
    else mmco_field_loop 32 sps p cur (d, false)

unfoldable pub add_current_field : State → ℕ → ℕ → Decoder
unfolding mark_frame_from_fields
add_current_field (d, long_term_field) p cur = mark_frame_from_fields cur (
    if long_term_field then set_long p cur d else record d {
      short_term_fields = update d.short_term_fields p (d.short_term_fields p ∪ bit cur);
    })

-- A field is marked only while its frame is.
abbrev pub keep_marked : Decoder → Decoder
keep_marked d = record d {
  short_term_fields = λ q. d.short_term_fields q ∩ d.short_term_frames;
  long_term_fields = λ q. d.long_term_fields q ∩ d.long_term_frames;
}

unfoldable pub mark_field : Decoder → Sps → ℕ → Decoder
unfolding adaptive_field add_current_field discard_surplus
mark_field d sps cur =
    let p = if d.curr_field == 2 then 1 else 0 in
    discard_surplus (add_current_field (adaptive_field (keep_marked d) sps p cur) p cur) sps cur

unfoldable pub parse_dec_ref_pic_marking : Decoder → Sps → Decoder
unfolding mark_idr mark_frame mark_field
parse_dec_ref_pic_marking d sps =
    let marked = record d { curr_pic_marked = true } in
    if d.idr_pic_flag
    then mark_idr marked d.curr_pic
    else (if d.curr_field == 0
        then mark_frame marked sps d.curr_pic
        else mark_field marked sps d.curr_pic)
