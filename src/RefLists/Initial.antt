-- ===== src/RefLists/Initial.antt =====
-- The initial lists of a frame picture.
use edge264_mvc.Common.{
  ℕ, zero, suc, ◌+◌, ◌-◌, ◌*◌, ◌/◌, ◌^◌, Bool, true, false, ◌&&◌, List, [], ◌∷◌, Option, some, none,
  ◌==◌, ltb, if◌then◌else◌, set, get_or,
}
use edge264_mvc.Common.Int.{pos, pos_part, neg_part, ◌-ℤ◌, ltb_ℤ}
use edge264_mvc.Common.Masks.{FrameMask, max_frames, bit, ◌∩◌, ◌∪◌, ◌△◌, mask_any, for_bits}
use edge264_mvc.Decoder.{Decoder, update}
use edge264_mvc.ParameterSets.{Sps}
use edge264_mvc.RefLists.{Slice, same_entry}

-- A frame picture of an interlaced stream predicts from the frames of which both fields are marked.
unfoldable pub whole_short : Decoder → FrameMask
whole_short d =
    if d.interlaced
    then d.short_term_frames ∩ d.short_term_fields 0 ∩ d.short_term_fields 1
    else d.short_term_frames

unfoldable pub whole_long : Decoder → FrameMask
whole_long d =
    if d.interlaced
    then d.long_term_frames ∩ d.long_term_fields 0 ∩ d.long_term_fields 1
    else d.long_term_frames

-- `refs`: B lists of pic_order_cnt_type 0 leave out the frames inferred for a gap, marked both ways.
unfoldable pub initial_refs : Decoder → Sps → Slice → FrameMask
unfolding whole_short whole_long
initial_refs d sps s =
    if s.slice_type == 0
    then whole_short d ∪ whole_long d
    else (if sps.pic_order_cnt_type == 0
        then whole_short d △ whole_long d
        else whole_short d ∪ whole_long d)

-- The class (0 before, 1 after, 2 long-term) above the distance.
unfoldable pub sort_key : Decoder → Slice → ℕ → ℕ
unfolding whole_short ◌-ℤ◌
sort_key d s i =
    let value = if s.slice_type == 0 then d.frame_nums i else d.field_order_cnt 0 i in
    let pic_value = if s.slice_type == 0 then d.frame_num else d.top_field_order_cnt in
    let diff = value -ℤ pic_value in
    let short_term_num = if ltb_ℤ (pos 0) diff then 2 ^ 32 + pos_part diff else neg_part diff in
    if whole_short d i then short_term_num else s.prev_long_term_frame_idx i + 2 * 2 ^ 32

-- A round of the search for the lowest key, from INT64_MAX.
unfoldable pub lower_key : (ℕ → ℕ) → ℕ → ℕ × ℕ → ℕ × ℕ
lower_key key i (next, best) = if ltb (key i) best then (i, key i) else (next, best)

unfoldable pub lowest_key : (ℕ → ℕ) → FrameMask → ℕ → ℕ × ℕ
unfolding lower_key
lowest_key key refs next = for_bits refs (lower_key key) (next, 2 ^ 63 - 1)

-- The frames taken out of `refs` one by one, lowest key first, and how many there are of each class.
unfoldable pub order_frames : ℕ → (ℕ → ℕ) → FrameMask → ℕ → List ℕ × (ℕ → ℕ)
unfolding lowest_key
order_frames zero key refs next = ([], λ _. 0)
order_frames (suc fuel) key refs next = elim (mask_any refs) [
  | false ↦ ([], λ _. 0)
  | true ↦
      let (next', best) = lowest_key key refs next in
      let (frames, count) = order_frames fuel key (refs △ bit next') next' in
      (next' ∷ frames, update count (best / 2 ^ 32) (count (best / 2 ^ 32) + 1))
]

-- Writes from position `i` on.
unfoldable pub write_from : ℕ → List ℕ → List (Option ℕ) → List (Option ℕ)
write_from i [] list = list
write_from i (f ∷ frames) list = write_from (suc i) frames (set list i (some f))

-- RefPicListL1 takes the frames after the current one first.
unfoldable pub swap_position : ℕ → ℕ → ℕ → ℕ
swap_position before after src =
    if ltb src before then src + after else (if ltb src (before + after) then src - before else src)

unfoldable pub write_swapped : ℕ → ℕ → ℕ → List ℕ → List (Option ℕ) → List (Option ℕ)
unfolding swap_position
write_swapped before after src [] list = list
write_swapped before after src (f ∷ frames) list =
    write_swapped before after (suc src) frames (set list (swap_position before after src) (some f))

-- The lists of a frame picture that is not IDR, and their size. No more rounds than slots are made.
unfoldable pub init_frame_lists : Decoder → Sps → Slice → ℕ × Slice
unfolding initial_refs sort_key order_frames write_from write_swapped
init_frame_lists d sps s =
    let (frames, count) = order_frames max_frames (sort_key d s) (initial_refs d sps s) 0 in
    let list0 = write_from 0 frames (s.ref_pic_list 0) in
    let list1 = write_swapped (count 0) (count 1) 0 frames (s.ref_pic_list 1) in
    (size_of frames, record s { ref_pic_list = update (update s.ref_pic_list 0 list0) 1 list1 })
  where
    size_of : List ℕ → ℕ
    size_of [] = 0
    size_of (f ∷ frames) = suc (size_of frames)

-- Whether the two lists are the same from position `i` on, over `n` entries.
unfoldable pub same_from : ℕ → ℕ → Slice → Bool
same_from zero i s = true
same_from (suc n) i s =
    same_entry (get_or (s.ref_pic_list 0) i none) (get_or (s.ref_pic_list 1) i none)
    && same_from n (suc i) s

-- The first two entries of a list 1 that is the same as list 0 are swapped.
unfoldable pub swap_identical : ℕ → Slice → Slice
unfolding same_from
swap_identical size s =
    let first = get_or (s.ref_pic_list 0) 0 none in
    let second = get_or (s.ref_pic_list 0) 1 none in
    let several : Bool = elim second [ none ↦ false | some p ↦ true ] in
    if several
      && same_entry first (get_or (s.ref_pic_list 1) 0 none)
      && (if s.field_pic_flag then same_from (size - 1) 1 s else true)
    then record s {
      ref_pic_list = update s.ref_pic_list 1 (set (set (s.ref_pic_list 1) 0 second) 1 first);
    }
    else s
