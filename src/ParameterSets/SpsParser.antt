-- ===== src/ParameterSets/SpsParser.antt =====
-- `parse_seq_parameter_set` up to its verdict (src/edge264mvc_headers.c), in the order of the syntax.
-- `unsupported` is `ret` at ENOTSUP. What follows the verdict, the change of the decoder and the limits
-- set once a base and a subset parameter set are both there, is not modelled.
use edge264_mvc.Common.{
  ℕ, ◌+◌, ◌-◌, ◌*◌, ◌/◌, ◌%◌, ◌^◌, min, max, Bool, true, false, not, ◌&&◌, ◌||◌, List, ◌==◌, ltb,
  if◌then◌else◌, set, replicate,
}
use edge264_mvc.Common.Int.{
  ℤ, pos, negsuc, pos_part, ◌+ℤ◌, ◌-ℤ◌, ◌*ℤ◌, ltb_ℤ, min_ℤ, max_ℤ, int16, to_signed, to_unsigned,
}
use edge264_mvc.Bits.{GetBits, get_u1, get_uv, get_ue16, get_se32, bits_left, rbsp_end}
use edge264_mvc.Parser.{Parser, ◌>>=◌, pure, repeat}
use edge264_mvc.ParameterSets.{Sps}
use edge264_mvc.ParameterSets.Scaling.{
  default_4x4_intra, default_4x4_inter, default_8x8_intra, default_8x8_inter, parse_scaling_lists,
}
use edge264_mvc.ParameterSets.Vui.{parse_vui_parameters}
use edge264_mvc.ParameterSets.Mvc.{
  parse_seq_parameter_set_mvc_extension, parse_mvc_vui_parameters_extension,
}

-- The set before anything is read.
abbrev pub initial_sps : Sps
initial_sps = record {
  chroma_format_idc = 1;
  chroma_array_type = 1;
  bit_depth_y = 8;
  bit_depth_c = 8;
  qpprime_y_zero_transform_bypass_flag = 0;
  log2_max_frame_num = 0;
  pic_order_cnt_type = 0;
  log2_max_pic_order_cnt_lsb = 16;
  delta_pic_order_always_zero_flag = 0;
  num_ref_frames_in_pic_order_cnt_cycle = 0;
  max_num_ref_frames = 0;
  frame_mbs_only_flag = 0;
  mb_adaptive_frame_field_flag = 0;
  direct_8x8_inference_flag = 0;
  max_dec_frame_buffering = 0;
  max_num_reorder_frames = 0;
  nal_hrd_cpb_cnt = 0;
  vcl_hrd_cpb_cnt = 0;
  initial_cpb_removal_delay_length = 24;
  cpb_removal_delay_length = 24;
  dpb_output_delay_length = 24;
  time_offset_length = 24;
  pic_struct_present_flag = 0;
  seq_scaling_matrix_present_flag = 0;
  num_views = 0;
  dependent_view_id = 0;
  pic_width_in_mbs = 0;
  pic_height_in_mbs = 0;
  offset_for_non_ref_pic = pos 0;
  offset_for_top_to_bottom_field = pos 0;
  pic_order_cnt_deltas = replicate 255 (pos 0);
  num_units_in_tick = 0;
  time_scale = 0;
  crop_top = pos 0;
  crop_right = pos 0;
  crop_bottom = pos 0;
  crop_left = pos 0;
  weight_scale4x4 = replicate 6 (replicate 16 16);
  weight_scale8x8 = replicate 6 (replicate 64 16);
}

-- The chroma format, and separate_colour_plane_flag of 4:4:4.
unfoldable pub parse_chroma_format : Sps → Parser (Bool × Sps)
parse_chroma_format sps = do
  chroma_format_idc ← get_ue16 3
  if ltb 2 chroma_format_idc
      then (do
        separate_colour_plane_flag ← get_u1
        pure (
          true,
          record sps {
            chroma_format_idc = chroma_format_idc;
            chroma_array_type = if separate_colour_plane_flag == 0 then 3 else 0;
          },
        ))
      else pure (
        false,
        record sps { chroma_format_idc = chroma_format_idc; chroma_array_type = chroma_format_idc },
      )

unfoldable pub parse_bit_depths : Bool × Sps → Parser (Bool × Sps)
parse_bit_depths (unsupported, sps) = do
  depth_y ← get_ue16 6
  depth_c ← get_ue16 6
  let bit_depth_c = if sps.chroma_format_idc == 0 then 8 + depth_y else 8 + depth_c
  bypass ← get_u1
  pure (
    unsupported || ltb 10 (8 + depth_y) || not (bit_depth_c == 8 + depth_y) || not (bypass == 0),
    record sps {
      bit_depth_y = 8 + depth_y;
      bit_depth_c = bit_depth_c;
      qpprime_y_zero_transform_bypass_flag = bypass;
    },
  )

unfoldable pub parse_seq_scaling_matrix : Bool × Sps → Parser (Bool × Sps)
unfolding parse_scaling_lists
parse_seq_scaling_matrix (unsupported, sps) = do
  present ← get_u1
  let sps' = record sps { seq_scaling_matrix_present_flag = present }
  if present == 0 then pure (unsupported, sps') else (do
    (w4x4, w8x8) ←
        parse_scaling_lists 1 sps.chroma_format_idc
          (set (set sps.weight_scale4x4 0 default_4x4_intra) 3 default_4x4_inter)
          (set (set sps.weight_scale8x8 0 default_8x8_intra) 1 default_8x8_inter)
    pure (unsupported, record sps' { weight_scale4x4 = w4x4; weight_scale8x8 = w8x8 }))

-- What the profiles other than Baseline, Main and Extended code.
unfoldable pub parse_high : ℕ → Sps → Parser (Bool × Sps)
unfolding parse_chroma_format parse_bit_depths parse_seq_scaling_matrix
parse_high profile_idc sps =
    if profile_idc == 66 || profile_idc == 77 || profile_idc == 88 then pure (false, sps) else (do
      chroma ← parse_chroma_format sps
      depths ← parse_bit_depths chroma
      parse_seq_scaling_matrix depths)

-- A round of the loop over offset_for_ref_frame: the index, `delta` and the deltas so far.
unfoldable pub parse_offset_for_ref_frame : ℕ × ℤ × List ℤ → Parser (ℕ × ℤ × List ℤ)
unfolding ◌+ℤ◌
parse_offset_for_ref_frame (i, delta, deltas) = do
  offset_for_ref_frame ← get_se32 (negsuc 65534) (pos 65535)
  let delta' = delta +ℤ offset_for_ref_frame
  pure (i + 1, delta', set deltas i (int16 delta'))

unfoldable pub parse_pic_order_cnt_cycle : Sps → Parser Sps
unfolding parse_offset_for_ref_frame repeat
parse_pic_order_cnt_cycle sps = do
  always_zero ← get_u1
  non_ref ← get_se32 (negsuc 32767) (pos 32767)
  top_to_bottom ← get_se32 (negsuc 32767) (pos 32767)
  cycle ← get_ue16 255
  (_, _, deltas) ← repeat cycle parse_offset_for_ref_frame (0, pos 0, sps.pic_order_cnt_deltas)
  pure (record sps {
    delta_pic_order_always_zero_flag = always_zero;
    offset_for_non_ref_pic = non_ref;
    offset_for_top_to_bottom_field = top_to_bottom;
    num_ref_frames_in_pic_order_cnt_cycle = cycle;
    pic_order_cnt_deltas = deltas;
  })

unfoldable pub parse_order : Sps → Parser Sps
unfolding parse_pic_order_cnt_cycle
parse_order sps0 = do
  log2_max_frame_num_minus4 ← get_ue16 12
  pic_order_cnt_type ← get_ue16 2
  let sps = record sps0 {
    log2_max_frame_num = log2_max_frame_num_minus4 + 4;
    pic_order_cnt_type = pic_order_cnt_type;
  }
  if pic_order_cnt_type == 0
      then (do lsb ← get_ue16 12; pure (record sps { log2_max_pic_order_cnt_lsb = lsb + 4 }))
      else (if pic_order_cnt_type == 1 then parse_pic_order_cnt_cycle sps else pure sps)

-- `MaxDpbMbs`, by level_idc.
abbrev pub max_dpb_mbs : ℕ → ℕ
max_dpb_mbs level =
    if ltb level 11
    then 396
    else (if ltb level 12
        then 900
        else (if ltb level 21
            then 2376
            else (if ltb level 22
                then 4752
                else (if ltb level 31
                    then 8100
                    else (if ltb level 32
                        then 18000
                        else (if ltb level 33
                            then 20480
                            else (if ltb level 42
                                then 32768
                                else (if ltb level 43
                                    then 34816
                                    else (if ltb level 51
                                        then 110400
                                        else (if ltb level 53
                                            then 184320
                                            else (if ltb level 63
                                                then 696320
                                                else 0xffff_ffff)))))))))))

-- The profiles that infer an empty buffer of intra pictures under constraint_set3_flag.
abbrev pub is_intra_profile : ℕ → Bool
is_intra_profile p = p == 44 || p == 86 || p == 100 || p == 110 || p == 122 || p == 244

-- `MaxDpbFrames` of a size in macroblocks, where `mvc` is 1 in a subset set: the level's number of
-- frames as an int, but 16 at most and no less than the references.
unfoldable pub max_dpb_frames : ℕ → ℕ → ℕ → ℕ → ℕ
max_dpb_frames level_idc frame_mbs mvc refs =
    let level_frames = max_dpb_mbs (min level_idc 63) / frame_mbs * 2 ^ mvc % 2 ^ 32 in
    pos_part (max_ℤ (min_ℤ (to_signed 32 level_frames) (pos 16)) (pos (refs * 2 ^ mvc)))

-- From max_num_ref_frames to direct_8x8_inference_flag. `MaxDpbFrames` comes with the set.
unfoldable pub parse_size : ℕ → ℕ → ℕ → ℕ → Sps → Parser (ℕ × Sps)
unfolding max_dpb_frames
parse_size profile_idc constraint_set_flags level_idc mvc sps = do
  max_num_ref_frames ← get_ue16 16
  gaps_in_frame_num_value_allowed_flag ← get_u1
  width_minus1 ← get_ue16 1022
  height_minus1 ← get_ue16 1054
  frame_mbs_only_flag ← get_u1
  let width = width_minus1 + 1
  let height = (height_minus1 + 1) * 2 / 2 ^ frame_mbs_only_flag
  let refs = max (min max_num_ref_frames (16 / 2 ^ mvc)) 1
  let frames = max_dpb_frames level_idc (width * height) mvc refs
  let intra = is_intra_profile profile_idc && not (constraint_set_flags / 2 ^ 4 % 2 == 0)
  mbaff ← if frame_mbs_only_flag == 0 then get_u1 else pure sps.mb_adaptive_frame_field_flag
  direct_8x8_inference_flag ← get_u1
  pure (
    frames,
    record sps {
      pic_width_in_mbs = width;
      frame_mbs_only_flag = frame_mbs_only_flag;
      pic_height_in_mbs = height;
      max_num_ref_frames = refs;
      max_num_reorder_frames = if intra then 0 else frames;
      max_dec_frame_buffering = if intra then refs * 2 ^ mvc else frames;
      mb_adaptive_frame_field_flag = mbaff;
      direct_8x8_inference_flag = direct_8x8_inference_flag;
    },
  )

-- An arithmetic shift to the right.
abbrev pub shr_ℤ : ℤ → ℕ → ℤ
shr_ℤ (pos n) k = pos (n / 2 ^ k)
shr_ℤ (negsuc n) k = negsuc (n / 2 ^ k)

-- The two offsets of a dimension, in units of 2 ^ `shift` samples, kept in an int16_t. The first is
-- at most `lim` units and the second what is left.
unfoldable pub parse_crop : ℕ → ℕ → Parser (ℤ × ℤ)
unfolding ◌-ℤ◌
parse_crop lim shift = do
  a ← get_ue16 lim
  let first = int16 (pos (a * 2 ^ shift))
  b ← get_ue16 (to_unsigned 32 (pos lim -ℤ shr_ℤ first shift))
  pure (first, int16 (pos (b * 2 ^ shift)))

unfoldable pub parse_frame_cropping : Sps → Parser Sps
unfolding parse_crop
parse_frame_cropping sps = do
  frame_cropping_flag ← get_u1
  if frame_cropping_flag == 0 then pure sps else (do
    let shift_x = if sps.chroma_array_type == 1 || sps.chroma_array_type == 2 then 1 else 0
    let shift_y = (if sps.chroma_array_type == 1 then 1 else 0) + 1 - sps.frame_mbs_only_flag
    (left, right) ← parse_crop (sps.pic_width_in_mbs * 16 / 2 ^ shift_x - 1) shift_x
    (top, bottom) ← parse_crop (sps.pic_height_in_mbs * 16 / 2 ^ shift_y - 1) shift_y
    pure
        (record sps { crop_left = left; crop_right = right; crop_top = top; crop_bottom = bottom }))

-- A frame larger than max_frame_pixels, or than any level allows where that is 0.
unfoldable pub is_too_large : ℕ → Sps → Bool
unfolding ◌-ℤ◌ ◌*ℤ◌
is_too_large max_frame_pixels sps =
    let frame_mbs = sps.pic_width_in_mbs * sps.pic_height_in_mbs in
    if max_frame_pixels == 0
    then ltb 139264 frame_mbs
    else ltb_ℤ (pos max_frame_pixels) (
        (pos (sps.pic_width_in_mbs * 16) -ℤ sps.crop_left -ℤ sps.crop_right)
        *ℤ (pos (sps.pic_height_in_mbs * 16) -ℤ sps.crop_top -ℤ sps.crop_bottom))
      || ltb (max_frame_pixels / 256 + sps.pic_width_in_mbs + sps.pic_height_in_mbs + 1) frame_mbs

-- 0, EBADMSG and ENOTSUP, with the set read where it is kept.
pub data Verdict : Type 0 where
  kept : Sps → Verdict
  malformed : Verdict
  unsupported : Verdict

-- The part of a subset set after the VUI, `none` where it cannot be parsed further.
unfoldable pub parse_subset : ℕ → ℕ → Sps → Parser (Bool × Sps)
unfolding parse_seq_parameter_set_mvc_extension parse_mvc_vui_parameters_extension
parse_subset profile_idc frames sps0 = do
  let sps1 = record sps0 { max_dec_frame_buffering = max sps0.max_dec_frame_buffering frames }
  if not (profile_idc == 118) && not (profile_idc == 128) && not (profile_idc == 134)
      then pure (true, sps1)
      else (do
        bit_equal_to_one ← get_u1
        (failed, sps2) ← parse_seq_parameter_set_mvc_extension profile_idc sps1
        if failed then pure (true, sps2) else (do
          mvc_vui_parameters_present_flag ← get_u1
          sps3 ←
              if mvc_vui_parameters_present_flag == 0
              then pure sps2
              else parse_mvc_vui_parameters_extension sps2
          additional_extension2_flag ← get_u1
          pure (false, sps3)))

-- What becomes of the set, by the bits that are left: stray bits are let through after a VUI, whose
-- two values are then dropped, and up to 16 of them in a subset set.
unfoldable pub judge : ℕ → ℕ → Bool → Sps → Sps → GetBits → Verdict
unfolding ◌-ℤ◌
judge nal_unit_type vui_present unsup inferred sps gb =
    let good : Verdict = if unsup then unsupported else kept sps in
    let reverted = record sps {
      max_num_reorder_frames = inferred.max_num_reorder_frames;
      max_dec_frame_buffering = inferred.max_dec_frame_buffering;
    } in
    if rbsp_end gb 1
    then good
    else (if nal_unit_type == 7 && not (vui_present == 0)
        then (if unsup then unsupported else kept reverted)
        else (if not (nal_unit_type == 15) || ltb 16 (to_unsigned 64 (bits_left gb -ℤ pos 1))
            then malformed
            else good))

-- The header, up to and with the VUI: `MaxDpbFrames`, vui_present, `ret`, and the set before and
-- after the VUI.
pub record Body : Type 0 where
  pub profile_idc : ℕ
  pub frames : ℕ
  pub vui_present : ℕ
  pub unsup : Bool
  pub inferred : Sps
  pub read : Sps

unfoldable pub parse_body : ℕ → ℕ → Parser Body
unfolding parse_high parse_order parse_size parse_frame_cropping parse_vui_parameters
parse_body nal_unit_type max_frame_pixels = do
  profile_idc ← get_uv 8
  constraint_set_flags ← get_uv 8
  level_idc ← get_uv 8
  seq_parameter_set_id ← get_ue16 31
  (unsup, high) ← parse_high profile_idc initial_sps
  ordered ← parse_order high
  (frames, sized) ←
      parse_size profile_idc constraint_set_flags level_idc (if nal_unit_type == 15 then 1 else 0)
        ordered
  cropped ← parse_frame_cropping sized
  vui_present ← get_u1
  read ← if vui_present == 0 then pure cropped else parse_vui_parameters cropped
  pure (record {
    profile_idc = profile_idc;
    frames = frames;
    vui_present = vui_present;
    unsup = unsup || is_too_large max_frame_pixels cropped;
    inferred = cropped;
    read = read;
  })

unfoldable pub parse_seq_parameter_set : ℕ → ℕ → GetBits → Verdict
unfolding parse_body parse_subset judge
parse_seq_parameter_set nal_unit_type max_frame_pixels gb =
    let (body, gb1) = parse_body nal_unit_type max_frame_pixels gb in
    if nal_unit_type == 15
    then (let ((failed, sps), gb2) = parse_subset body.profile_idc body.frames body.read gb1 in
        if failed
        then unsupported
        else judge nal_unit_type body.vui_present body.unsup body.inferred sps gb2)
    else judge nal_unit_type body.vui_present body.unsup body.inferred body.read gb1
