-- ===== src/Tests.antt =====
-- The theorems at concrete inputs: a decoder with two short-term frames waiting for output, and the
-- bitstreams of a smallest sequence and picture parameter set.
use edge264_mvc.Common.{
  ℕ, suc, ◌+◌, ◌-◌, ◌/◌, ◌%◌, ◌^◌, ◌≤◌, ◌<◌, ◌≡◌, refl, true, false, not, ◌&&◌, none, arith, ◌==◌,
  if◌then◌else◌, inl, replicate, [], ◌∷◌, some, Option,
}
use edge264_mvc.Common.Int.{pos, ◌<ℤ◌, ◌≤ℤ◌}
use edge264_mvc.Common.Masks.{max_frames, empty, bit, ◌∪◌, for_bits, mask_any, mask_popcount}
use edge264_mvc.Bits.{GetBits, rbsp_end, get_u1, get_uv, get_ue16, get_se16}
use edge264_mvc.Parser.{Gives, ◌>>=◌, pure}
use edge264_mvc.Decoder.{Decoder, frame_poc}
use edge264_mvc.ParameterSets.{Sps, Pps}
use edge264_mvc.Marking.Base.{derive_frame_num}
use edge264_mvc.Marking.Capacity.{refs, SmallNums}
use edge264_mvc.Marking.Frame.{mark_idr, oldest, slide}
use edge264_mvc.Marking.Field.{parse_dec_ref_pic_marking}
use edge264_mvc.Marking.FieldCapacity.{mark_idr-one, parse_dec_ref_pic_marking-capacity}
use edge264_mvc.Marking.Window.{slide-lowest, derive_frame_num-next}
use edge264_mvc.Output.{bump_frame, bump_while}
use edge264_mvc.Output.Choice.{eligible}
use edge264_mvc.Output.Bump.{Bumped, bump_frame_lem, bump_while-drained}
use edge264_mvc.Output.Order.{Before, RanksLeft, bump_while-sorted}
use edge264_mvc.Output.{waiting}
use edge264_mvc.Common.Masks.Count.{popcount-le}
use edge264_mvc.Common.Int.{◌-ℤ◌}
use edge264_mvc.ParameterSets.Scaling.{parse_scaling_lists}
use edge264_mvc.ParameterSets.Weights.{All, All-replicate, parse_scaling_lists-All}
use edge264_mvc.ParameterSets.Crop.{Cropped, parse_crop-Cropped}
use edge264_mvc.ParameterSets.SpsParser.{
  initial_sps, parse_crop, Verdict, kept, malformed, unsupported,
}
use edge264_mvc.ParameterSets.PpsParser.{
  initial_pps, PpsVerdict, saved, malformed as malformed_pps, no_memory, parse_pic_parameter_set,
}
use edge264_mvc.ParameterSets.PpsBounds.{Byte, PpsLimits, parse_pic_parameter_set-PpsLimits}
use edge264_mvc.PredWeights.{WeightTable, parse_pred_weight_table}
use edge264_mvc.PredWeights.Bounds.{TableOk, parse_pred_weight_table-TableOk}
use edge264_mvc.Delivery.{handle_of, handle_pic, find_start_code}
use edge264_mvc.Delivery.Handles.{handle_pic-handle_of}
use edge264_mvc.Delivery.Keys.{Ascending, keys, keys-Ascending}
use edge264_mvc.Delivery.StartCode.{IsFirst, find_start_code-IsFirst}
use edge264_mvc.RefLists.{Slice}
use edge264_mvc.RefLists.Fix.{fix_list}
use edge264_mvc.RefLists.Whole.{parse_ref_pic_list_modification}
use edge264_mvc.RefLists.Valid.{
  Fixed, FixedList, fix_list-FixedList, parse_ref_pic_list_modification-Fixed,
}

abbrev no_bits : GetBits
no_bits = record { mem = λ _. 0; cpb = 0; end = 0; lsb_cache = 0; msb_cache = 2 ^ 63 }

-- The frames in slots 1 and 2, of order counts 8 and 4; the current picture is in slot 5.
abbrev pub two_frames : Decoder
two_frames = record {
  gb = no_bits;
  nal_unit_type = 1;
  interlaced = false;
  idr_pic_flag = false;
  curr_pic = 5;
  curr_pic_marked = false;
  curr_field = 0;
  field_slot = λ _. none;
  resume_state = 0;
  frame_num = pos 3;
  prev_ref_frame_num = λ _. pos 2;
  top_field_order_cnt = pos 0;
  bottom_field_order_cnt = pos 0;
  next_dispnum = pos 0;
  short_term_frames = bit 1 ∪ bit 2;
  long_term_frames = empty;
  to_get_frames = bit 1 ∪ bit 2;
  output_frames = empty;
  non_base_frames = empty;
  leading_frames = empty;
  short_term_fields = λ _. bit 1 ∪ bit 2;
  long_term_fields = λ _. empty;
  frame_nums = λ i. pos (if i == 1 then 1 else 2);
  frame_ids = λ i. pos 0;
  disp_order = λ i. pos 0;
  au_base_ids = λ v i. pos 0;
  long_term_frame_idx = λ i. 0;
  field_order_cnt = λ q i. pos (if i == 1 then 8 else 4);
  get_frame_queue = λ _. replicate max_frames none;
}

-- A header without modifications: a zero bit, and bits to spare.
abbrev no_references : GetBits
no_references = record { mem = λ _. 0; cpb = 1010; end = 1000; lsb_cache = 0x80; msb_cache = 0 }

abbrev two_refs : Sps
two_refs = record initial_sps { max_num_ref_frames = 2 }

two_frames-small : SmallNums two_frames
two_frames-small i = ground arith

two_frames-count : mask_popcount (refs two_frames) ≡ 2
unfolding mask_popcount
two_frames-count = refl

two_frames-some : mask_any two_frames.short_term_frames ≡ true
unfolding mask_any
two_frames-some = refl

parse_dec_ref_pic_marking-capacity_example :
    mask_popcount (refs (parse_dec_ref_pic_marking two_frames two_refs)) ≤ 2
parse_dec_ref_pic_marking-capacity_example =
    parse_dec_ref_pic_marking-capacity two_frames two_refs (omega arith) (omega arith)
      two_frames-small (omega (arith, two_frames-count))

mark_idr-one_example : mask_popcount (refs (mark_idr two_frames 5)) ≤ 1
mark_idr-one_example = mark_idr-one two_frames 5

slide-lowest_example :
    (two_frames.short_term_frames (oldest two_frames) ≡ true)
    × ((i : ℕ)
        → i < max_frames
        → two_frames.short_term_frames i ≡ true
        → two_frames.frame_nums (oldest two_frames) ≤ℤ two_frames.frame_nums i)
    × ((i : ℕ)
        → refs (slide two_frames two_refs) i ≡ (refs two_frames i && not (i == oldest two_frames)))
    × (suc (mask_popcount (refs (slide two_frames two_refs))) ≤ mask_popcount (refs two_frames))
slide-lowest_example =
    slide-lowest two_frames two_refs two_frames-small two_frames-some
      (omega (arith, two_frames-count))

-- frame_num 1 of 16 after PrevRefFrameNum 2.
two_frames-prev : two_frames.prev_ref_frame_num 0 ≡ pos 3 -ℤ pos 1
unfolding ◌-ℤ◌
two_frames-prev = refl

derive_frame_num-next_example :
    (r : ℕ) × (derive_frame_num two_frames 1 4 0 false ≡ pos r)
    × (3 ≤ r)
    × (r < 3 + 2 ^ 4)
    × (r % 2 ^ 4 ≡ 1)
derive_frame_num-next_example =
    derive_frame_num-next two_frames 1 4 0 3 two_frames-prev (omega arith) (omega arith)

bump_frame_lem_example : Bumped two_frames 0 empty (bump_frame two_frames 0 empty)
bump_frame_lem_example = bump_frame_lem two_frames 0 empty

bump_while-drained_example : eligible (bump_while two_frames 0 empty) 0 empty 1 ≡ false
bump_while-drained_example = bump_while-drained two_frames 0 empty 1 (omega arith)

two_frames-Before : Before two_frames 2 1
unfolding frame_poc
two_frames-Before = inl (omega arith)

two_frames-ranks : RanksLeft two_frames (mask_popcount (waiting two_frames 0 empty))
two_frames-ranks = (0, refl, omega (arith, popcount-le (waiting two_frames 0 empty)))

bump_while-sorted_example :
    (bump_while two_frames 0 empty).disp_order 2 <ℤ (bump_while two_frames 0 empty).disp_order 1
bump_while-sorted_example =
    bump_while-sorted two_frames 0 empty 2 1 (omega arith) (omega arith) refl refl two_frames-Before
      two_frames-ranks

-- 42 00 0A DA 79: profile 66, level 10, 16x16, one reference.
abbrev sps_bits : GetBits
sps_bits = record {
  mem = λ _. 0;
  cpb = 1010;
  end = 1000;
  lsb_cache = 0x80;
  msb_cache = 0x42000ADA79000000;
}

abbrev kept_set : Verdict → Sps
kept_set (kept s) = s
kept_set malformed = initial_sps
kept_set unsupported = initial_sps

-- CE 38 80: a set with one reference in each list.
abbrev pps_bits : GetBits
pps_bits = record {
  mem = λ _. 0;
  cpb = 1012;
  end = 1000;
  lsb_cache = 0x80;
  msb_cache = 0xCE38800000000000;
}

abbrev saved_set : PpsVerdict → Pps
saved_set (saved id p ids) = p
saved_set malformed_pps = initial_pps
saved_set no_memory = initial_pps

pps_saved :
    (parse_pic_parameter_set (λ _. true) 1 pps_bits).0
    ≡ saved 0 (saved_set (parse_pic_parameter_set (λ _. true) 1 pps_bits).0) none
unfolding parse_pic_parameter_set rbsp_end ◌>>=◌ pure get_u1 get_ue16 get_uv get_se16
pps_saved = refl

parse_pic_parameter_set-PpsLimits_example :
    (0 ≤ 255) × PpsLimits none (saved_set (parse_pic_parameter_set (λ _. true) 1 pps_bits).0)
parse_pic_parameter_set-PpsLimits_example =
    parse_pic_parameter_set-PpsLimits (λ _. true) 1 0 pps_bits
      (saved_set (parse_pic_parameter_set (λ _. true) 1 pps_bits).0) none (omega arith) pps_saved

parse_scaling_lists-All_example :
    Gives
      (λ r. All (All Byte) r.0 × All (All Byte) r.1)
      (parse_scaling_lists 1 1 (replicate 6 (replicate 16 16)) (replicate 6 (replicate 64 16)))
parse_scaling_lists-All_example =
    parse_scaling_lists-All Byte (λ n ge le. le) 1 1 (replicate 6 (replicate 16 16))
      (replicate 6 (replicate 64 16))
      (All-replicate (All Byte) 6 (replicate 16 16) (All-replicate Byte 16 16 (omega arith)))
      (All-replicate (All Byte) 6 (replicate 64 16) (All-replicate Byte 64 16 (omega arith)))

-- 8 lines of 1088 are cropped in units of 2.
parse_crop-Cropped_example : Gives (λ r. Cropped 1088 r.0 r.1) (parse_crop (1088 / 2 ^ 1 - 1) 1)
parse_crop-Cropped_example = parse_crop-Cropped 1088 1 (omega arith) (omega arith) (omega arith)

keys-Ascending_example : Ascending (pos 6) (
    keys
      (record { base = pos 0; prev = pos 6; have_prev = true })
      ((0, 4, pos 0) ∷ (2, 4, pos 0) ∷ []))
keys-Ascending_example =
    keys-Ascending 6 (record { base = pos 0; prev = pos 6; have_prev = true })
      ((0, 4, pos 0) ∷ (2, 4, pos 0) ∷ []) refl
      (record { above = omega arith; below = omega arith })
      (record { above = omega arith; below = omega arith })
      (
        omega arith,
        record { above = omega arith; below = omega arith },
        (omega arith, record { above = omega arith; below = omega arith }, tt),
      )
      (omega arith)

find_start_code-IsFirst_example :
    IsFirst (5 ∷ 0 ∷ 0 ∷ 1 ∷ 9 ∷ []) 5 2 (find_start_code (5 ∷ 0 ∷ 0 ∷ 1 ∷ 9 ∷ []) 5)
find_start_code-IsFirst_example = find_start_code-IsFirst (5 ∷ 0 ∷ 0 ∷ 1 ∷ 9 ∷ []) 5

-- A P slice with three active references, for two frames.
abbrev p_slice : Slice
p_slice = record {
  slice_type = 0;
  field_pic_flag = false;
  bottom_field_flag = 0;
  num_ref_idx_active = λ _. 3;
  ref_pic_list = λ _. replicate 32 none;
  prev_long_term_frame_idx = λ _. 0;
  base_pic = none;
  curr_vp = some 5;
}

abbrev fixed_or : Option Slice → Slice
fixed_or none = p_slice
fixed_or (some s) = s

abbrev p_result : Option Slice
p_result = (parse_ref_pic_list_modification two_frames two_refs p_slice no_references).0

p_fixed : p_result ≡ some (fixed_or p_result)
unfolding parse_ref_pic_list_modification ◌>>=◌ pure get_u1 mask_any for_bits
p_fixed = refl

parse_ref_pic_list_modification-Fixed_example :
    Fixed (suc (fixed_or p_result).slice_type) 0 (fixed_or p_result)
parse_ref_pic_list_modification-Fixed_example =
    parse_ref_pic_list_modification-Fixed two_frames two_refs p_slice (fixed_or p_result)
      no_references p_fixed

fix_list-FixedList_example :
    FixedList (some 5) 2 (some 5 ∷ some 1 ∷ []) (fix_list (some 5) 2 (some 5 ∷ some 1 ∷ []))
fix_list-FixedList_example = fix_list-FixedList (some 5) 2 (some 5 ∷ some 1 ∷ [])

-- A P slice with two references and explicit weights.
abbrev weighted : WeightTable
weighted = record {
  slice_type = 0;
  num_ref_idx_active = λ _. 2;
  weighted_pred_flag = 1;
  weighted_bipred_idc = 0;
  luma_log2_weight_denom = 0;
  chroma_log2_weight_denom = 0;
  explicit_weights = λ _ _. pos 0;
  explicit_offsets = λ _ _. pos 0;
}

parse_pred_weight_table-TableOk_example : Gives TableOk (parse_pred_weight_table 1 weighted)
parse_pred_weight_table-TableOk_example = parse_pred_weight_table-TableOk 1 weighted (record {
  luma_le = omega arith;
  chroma_le = omega arith;
  weights_in = λ _ _. (omega arith, omega arith);
  offsets_in = λ _ _. (omega arith, omega arith);
})

-- Slot 0 and slot 127.
handle_pic-handle_of_example :
    (handle_pic (handle_of (some 0) (some 127)) 0 ≡ some 0)
    × (handle_pic (handle_of (some 0) (some 127)) 1 ≡ some 127)
handle_pic-handle_of_example = handle_pic-handle_of (some 0) (some 127) (omega arith) (omega arith)
