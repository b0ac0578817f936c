-- ===== src/RefLists/Fields.antt =====
-- The initial lists of a field picture: `init_field_lists` and `append_fields` of
-- src/edge264mvc_headers.c.
use edge264_mvc.Common.{
  ℕ, zero, suc, ◌+◌, ◌-◌, ◌*◌, ◌^◌, not, ◌&&◌, List, [], ◌∷◌, ◌++◌, Option, some, none, ◌==◌, ltb,
  if◌then◌else◌, set, take, drop, length,
}
use edge264_mvc.Common.Int.{ℤ, pos, ◌+ℤ◌, ◌-ℤ◌, ltb_ℤ, to_unsigned}
use edge264_mvc.Common.Masks.{FrameMask, field_id, ◌∩◌, ◌∪◌, ◌∖◌, for_bits}
use edge264_mvc.Decoder.{Decoder, update, minw}
use edge264_mvc.ParameterSets.{Sps}
use edge264_mvc.RefLists.{Slice}

-- The fields of a parity that lists hold, with the frames inferred for a gap left out of B lists.
unfoldable pub field_shorts : Decoder → Sps → Slice → ℕ → FrameMask
field_shorts d sps s q =
    let shorts = d.short_term_fields q ∩ d.short_term_frames in
    if not (s.slice_type == 0) && sps.pic_order_cnt_type == 0
    then shorts ∖ (d.short_term_frames ∩ d.long_term_frames)
    else shorts

unfoldable pub field_longs : Decoder → ℕ → FrameMask
field_longs d q = d.long_term_fields q ∩ d.long_term_frames ∖ d.short_term_fields q

-- FrameNumWrap, highest first, or the distance in order count, with those after the current field last.
-- `minw` returns an unsigned, which keeps its value in 64 bits.
unfoldable pub field_key : Decoder → Slice → ℕ → ℤ
unfolding ◌+ℤ◌ ◌-ℤ◌
field_key d s i =
    if s.slice_type == 0
    then pos 0 -ℤ d.frame_nums i
    else (let diff =
          pos (to_unsigned 32 (minw (d.field_order_cnt 0 i) (d.field_order_cnt 1 i)))
          -ℤ d.top_field_order_cnt in
        if ltb_ℤ (pos 0) diff then pos (2 ^ 33) +ℤ diff else pos 0 -ℤ diff)

-- The insertion of a frame after those of a key no higher, as both sorts do.
abbrev pub insert_by : (ℕ → ℤ) → ℕ → List ℕ → List ℕ
insert_by key f [] = f ∷ []
insert_by key f (g ∷ frames) =
    if ltb_ℤ (key f) (key g) then f ∷ g ∷ frames else g ∷ insert_by key f frames

-- The frames of a set, sorted by key, in the order of their slots where keys are equal.
unfoldable pub sort_slots : (ℕ → ℤ) → FrameMask → List ℕ
sort_slots key m = for_bits m (insert_by key) []

-- The next frame of `frames` marked in `marked`, and those after it.
unfoldable pub next_marked : FrameMask → List ℕ → Option ℕ × List ℕ
next_marked marked [] = (none, [])
next_marked marked (f ∷ frames) = if marked f then (some f, frames) else next_marked marked frames

-- Alternately a field of the current parity and of the other, from the frames left for each: a list that
-- is full takes no more.
unfoldable pub alternate :
    ℕ → (ℕ → FrameMask) → ℕ → ℕ → List ℕ → List ℕ → List (Option ℕ) → ℕ → List (Option ℕ) × ℕ
unfolding next_marked
alternate zero marked p k here other list size = (list, size)
alternate (suc fuel) marked p k here other list size =
    let q = if k == 0 then p else 1 - p in
    let (found, rest) = next_marked (marked q) (if k == 0 then here else other) in
    let here' = if k == 0 then rest else here in
    let other' = if k == 0 then other else rest in
    let list' : List (Option ℕ) = elim found [
      | none ↦ list
      | some f ↦ if ltb size 32 then set list size (some (f + q * field_id)) else list
    ] in
    let size' : ℕ = elim found [ none ↦ size | some f ↦ if ltb size 32 then suc size else size ] in
    let next = alternate fuel marked p (1 - k) here' other' list' size' in
    if length here + length other == 0 then (list, size) else next

-- Of two rounds, one at least moves on in a list that is not at its end, so these rounds are enough.
unfoldable pub append_fields : Slice → ℕ → ℕ → List ℕ → (ℕ → FrameMask) → ℕ × Slice
unfolding alternate
append_fields s l size frames marked =
    let (list, size') =
      alternate (2 * length frames + 2) marked s.bottom_field_flag 0 frames frames
        (s.ref_pic_list l) size in
    (size', record s { ref_pic_list = update s.ref_pic_list l list })

unfoldable pub count_before : (ℕ → ℤ) → List ℕ → ℕ
count_before key [] = 0
count_before key (f ∷ frames) =
    if ltb_ℤ (key f) (pos (2 ^ 33)) then suc (count_before key frames) else 0

unfoldable pub init_field_lists : Decoder → Sps → Slice → ℕ × Slice
unfolding field_shorts field_longs field_key sort_slots append_fields count_before
init_field_lists d sps s0 =
    let shorts = field_shorts d sps s0 in
    let longs = field_longs d in
    let frames = sort_slots (field_key d s0) (shorts 0 ∪ shorts 1) in
    let lt = sort_slots (λ i. pos (d.long_term_frame_idx i)) (longs 0 ∪ longs 1) in
    let (n1, s1) = append_fields s0 0 0 frames shorts in
    let (size, s2) = append_fields s1 0 n1 lt longs in
    if s0.slice_type == 1
    then (let before = count_before (field_key d s0) frames in
        let (n3, s3) = append_fields s2 1 0 (drop before frames ++ take before frames) shorts in
        let (n4, s4) = append_fields s3 1 n3 lt longs in (size, s4))
    else (size, s2)
