-- ===== src/RefLists/Modify.antt =====
-- The modification of a list by the slice header.
use edge264_mvc.Common.{
  ℕ, zero, suc, ◌+◌, ◌-◌, ◌*◌, ◌%◌, ◌^◌, Bool, not, ◌&&◌, List, Option, some, none, ◌==◌, ltb,
  if◌then◌else◌, set, get_or,
}
use edge264_mvc.Common.Int.{ℤ, pos, ◌+ℤ◌, ◌*ℤ◌, to_unsigned}
use edge264_mvc.Common.Masks.{field_id, ◌∖◌, for_bits}
use edge264_mvc.Bits.{get_u1, get_ue16, get_ue32}
use edge264_mvc.Parser.{Parser, ◌>>=◌, pure}
use edge264_mvc.Decoder.{Decoder, update}
use edge264_mvc.ParameterSets.{Sps}
use edge264_mvc.RefLists.{Slice, same_entry}
use edge264_mvc.RefLists.Initial.{whole_short, whole_long}

-- Whether a number and `num` agree in their lowest `bits` bits.
abbrev pub agree : ℕ → ℤ → ℕ → Bool
agree bits n num = to_unsigned bits n == num % 2 ^ bits

-- A search that keeps the first slot found.
abbrev pub or_else : Option ℕ → Option ℕ → Option ℕ
or_else none o = o
or_else (some p) o = some p

-- The short-term frame of a PicNum, as the lowest bits of an unsigned.
unfoldable pub find_short_frame : Decoder → Sps → ℕ → Option ℕ
unfolding whole_short
find_short_frame d sps num =
    for_bits (whole_short d)
      (λ i pic.
        or_else pic (if agree sps.log2_max_frame_num (d.frame_nums i) num then some i else none))
      none

-- The short-term field of a PicNum (8-30, 8-31), as a slot or a slot plus FIELD_ID. Of the two fields
-- of a frame the bottom one is tried last and counts.
unfoldable pub match_short_field : Decoder → Sps → Slice → ℕ → ℕ → Option ℕ
unfolding ◌+ℤ◌ ◌*ℤ◌
match_short_field d sps s num i =
    if found 1 then some (i + field_id) else (if found 0 then some i else none)
  where
    found : ℕ → Bool
    found q =
        d.short_term_fields q i
        && agree (sps.log2_max_frame_num + 1)
            (d.frame_nums i *ℤ pos 2 +ℤ pos (if q == s.bottom_field_flag then 1 else 0)) num

unfoldable pub find_short_field : Decoder → Sps → Slice → ℕ → Option ℕ
unfolding match_short_field
find_short_field d sps s num =
    for_bits d.short_term_frames (λ i pic. or_else pic (match_short_field d sps s num i)) none

-- The long-term frame of a LongTermPicNum.
unfoldable pub find_long_frame : Decoder → Slice → ℕ → Option ℕ
unfolding whole_short whole_long
find_long_frame d s num =
    for_bits (whole_long d ∖ whole_short d)
      (λ i pic. or_else pic (if s.prev_long_term_frame_idx i == num then some i else none)) none

-- The long-term field of a LongTermPicNum (8-32, 8-33).
unfoldable pub match_long_field : Decoder → Slice → ℕ → ℕ → Option ℕ
match_long_field d s num i =
    if found 1 then some (i + field_id) else (if found 0 then some i else none)
  where
    found : ℕ → Bool
    found q =
        d.long_term_fields q i
        && not (d.short_term_fields q i)
        && s.prev_long_term_frame_idx i * 2 + (if q == s.bottom_field_flag then 1 else 0) == num

unfoldable pub find_long_field : Decoder → Slice → ℕ → Option ℕ
unfolding match_long_field
find_long_field d s num =
    for_bits (d.long_term_frames ∖ d.short_term_frames)
      (λ i pic. or_else pic (match_long_field d s num i)) none

-- picNumLX and the picture that an operation refers to: 0 and 1 count down and up from the last PicNum,
-- 2 is a LongTermPicNum, 4 and 5 the inter-view reference.
unfoldable pub target : Decoder → Sps → Slice → Option ℕ → ℕ → ℕ → ℕ → ℕ × Option ℕ
unfolding find_short_frame find_short_field find_long_frame find_long_field
target d sps s base_pic idc num pic_num =
    let moved =
      if idc == 0 then (pic_num + 2 ^ 32 - (num + 1)) % 2 ^ 32 else (pic_num + num + 1) % 2 ^ 32 in
    if ltb idc 2
    then (
      moved,
      if s.field_pic_flag then find_short_field d sps s moved else find_short_frame d sps moved,
    )
    else (if idc == 2
        then (
          pic_num,
          if s.field_pic_flag then find_long_field d s num else find_long_frame d s num,
        )
        else (pic_num, base_pic))

-- do { swap } while (++cIdx < num_ref_idx_active && buf != pic), over `n` + 1 rounds at most.
unfoldable pub insert : ℕ → ℕ → Option ℕ → Option ℕ → List (Option ℕ) → List (Option ℕ)
insert zero i buf pic list = set list i buf
insert (suc n) i buf pic list =
    let rest = insert n (suc i) (get_or list i none) pic (set list i buf) in
    if same_entry (get_or list i none) pic then set list i buf else rest

-- The loop over the operations of a list from `ref_idx` on, at most 32 - `ref_idx` of them. The code that
-- ends it is read even then.
unfoldable pub modify_from :
    ℕ → Decoder → Sps → Slice → Option ℕ → ℕ → ℕ → ℕ → List (Option ℕ) → Parser (List (Option ℕ))
unfolding target insert
modify_from zero d sps s base_pic active ref_idx pic_num list = do
  modification_of_pic_nums_idc ← get_ue16 5
  pure list
modify_from (suc n) d sps s base_pic active ref_idx pic_num list = do
  modification_of_pic_nums_idc ← get_ue16 5
  if modification_of_pic_nums_idc == 3 then pure list else (do
    num ← get_ue32 4294967294
    let t = target d sps s base_pic modification_of_pic_nums_idc num pic_num
    modify_from n d sps s base_pic active (suc ref_idx) t.0
        (insert (active - suc ref_idx) ref_idx t.1 t.1 list))

-- A list under its ref_pic_list_modification_flag.
unfoldable pub modify_list : Decoder → Sps → Option ℕ → ℕ → Slice → Parser Slice
unfolding modify_from ◌+ℤ◌ ◌*ℤ◌
modify_list d sps base_pic l s = do
  let pic_num = if s.field_pic_flag then d.frame_num *ℤ pos 2 +ℤ pos 1 else d.frame_num
  ref_pic_list_modification_flag ← get_u1
  if ref_pic_list_modification_flag == 0 then pure s else (do
    list ←
        modify_from 32 d sps s base_pic (s.num_ref_idx_active l) 0 (to_unsigned 32 pic_num)
          (s.ref_pic_list l)
    pure (record s { ref_pic_list = update s.ref_pic_list l list }))
