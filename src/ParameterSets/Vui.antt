-- ===== src/ParameterSets/Vui.antt =====
-- The VUI parameters and the HRD parameters they hold (src/edge264mvc_headers.c). What is only
-- logged is read and dropped.
use edge264_mvc.Common.{ℕ, ◌+◌, ◌/◌, ◌%◌, ◌^◌, min, max, ◌&&◌, ◌==◌, if◌then◌else◌}
use edge264_mvc.Bits.{get_u1, get_uv, get_ue16, get_ue32}
use edge264_mvc.Parser.{Parser, ◌>>=◌, ◌>>◌, pure, repeat}
use edge264_mvc.ParameterSets.{Sps}

-- One entry of the loop over the CPBs.
unfoldable pub parse_cpb : Unit {0} → Parser (Unit {0})
parse_cpb _ = do
  bit_rate_value ← get_ue32 4294967294
  cpb_size_value ← get_ue32 4294967294
  cbr_flag ← get_u1
  pure tt

-- The number of CPBs, and the set with the lengths of the delays.
unfoldable pub parse_hrd_parameters : Sps → Parser (ℕ × Sps)
unfolding parse_cpb repeat
parse_hrd_parameters sps = do
  cpb_cnt_minus1 ← get_ue16 31
  bit_rate_scale ← get_uv 4
  cpb_size_scale ← get_uv 4
  repeat (cpb_cnt_minus1 + 1) parse_cpb tt
  delays ← get_uv 20
  pure (
    cpb_cnt_minus1 + 1,
    record sps {
      initial_cpb_removal_delay_length = delays / 2 ^ 15 + 1;
      cpb_removal_delay_length = delays / 2 ^ 10 % 2 ^ 5 + 1;
      dpb_output_delay_length = delays / 2 ^ 5 % 2 ^ 5 + 1;
      time_offset_length = delays % 2 ^ 5;
    },
  )

-- The two HRD of a set, each under its flag, and low_delay_hrd_flag where there is one.
unfoldable pub parse_hrds : Sps → Parser Sps
unfolding parse_hrd_parameters
parse_hrds sps0 = do
  nal_hrd_parameters_present_flag ← get_u1
  (nal, sps1) ←
      if nal_hrd_parameters_present_flag == 0
      then pure (sps0.nal_hrd_cpb_cnt, sps0)
      else parse_hrd_parameters sps0
  vcl_hrd_parameters_present_flag ← get_u1
  (vcl, sps2) ←
      if vcl_hrd_parameters_present_flag == 0
      then pure (sps1.vcl_hrd_cpb_cnt, sps1)
      else parse_hrd_parameters sps1
  low_delay_hrd_flag ←
      if nal_hrd_parameters_present_flag == 0 && vcl_hrd_parameters_present_flag == 0
      then pure 0
      else get_u1
  pure (record sps2 { nal_hrd_cpb_cnt = nal; vcl_hrd_cpb_cnt = vcl })

-- video_signal_type, all of it dropped.
unfoldable pub parse_video_signal_type : Parser (Unit {0})
parse_video_signal_type = do
  video_signal_type_present_flag ← get_u1
  if video_signal_type_present_flag == 0 then pure tt else (do
    video_format ← get_uv 3
    video_full_range_flag ← get_u1
    colour_description_present_flag ← get_u1
    desc ← if colour_description_present_flag == 0 then pure 0 else get_uv 24
    pure tt)

-- From the aspect ratio to the location of the chroma samples, all of it dropped.
unfoldable pub parse_display : Parser (Unit {0})
unfolding parse_video_signal_type
parse_display = do
  aspect_ratio_info_present_flag ← get_u1
  sar ←
      if aspect_ratio_info_present_flag == 0
      then pure 0
      else (do aspect_ratio_idc ← get_uv 8; if aspect_ratio_idc == 255 then get_uv 32 else pure 0)
  overscan_info_present_flag ← get_u1
  overscan_appropriate_flag ← if overscan_info_present_flag == 0 then pure 0 else get_u1
  parse_video_signal_type
  chroma_loc_info_present_flag ← get_u1
  if chroma_loc_info_present_flag == 0 then pure tt else (do
    chroma_sample_loc_type_top_field ← get_ue16 5
    chroma_sample_loc_type_bottom_field ← get_ue16 5
    pure tt)

unfoldable pub parse_timing : Sps → Parser Sps
parse_timing sps = do
  timing_info_present_flag ← get_u1
  if timing_info_present_flag == 0 then pure sps else (do
    num_units_in_tick ← get_uv 32
    time_scale ← get_uv 32
    fixed_frame_rate_flag ← get_u1
    pure
        (record sps { num_units_in_tick = max num_units_in_tick 1; time_scale = max time_scale 1 }))

-- What bitstream_restriction_flag announces: the two sizes of the picture buffer.
unfoldable pub parse_bitstream_restriction : Sps → Parser Sps
parse_bitstream_restriction sps = do
  motion_vectors_over_pic_boundaries_flag ← get_u1
  max_bytes_per_pic_denom ← get_ue16 16
  max_bits_per_mb_denom ← get_ue16 16
  log2_max_mv_length_horizontal ← get_ue16 15
  log2_max_mv_length_vertical ← get_ue16 15
  max_num_reorder_frames ← get_ue16 16
  max_dec_frame_buffering ← get_ue16 16
  let buffering = max max_dec_frame_buffering sps.max_num_ref_frames
  pure (record sps {
    max_dec_frame_buffering = buffering;
    max_num_reorder_frames = min max_num_reorder_frames buffering;
  })

unfoldable pub parse_vui_parameters : Sps → Parser Sps
unfolding parse_display parse_timing parse_hrds parse_bitstream_restriction
parse_vui_parameters sps0 = do
  parse_display
  sps1 ← parse_timing sps0
  sps2 ← parse_hrds sps1
  pic_struct_present_flag ← get_u1
  let sps3 = record sps2 { pic_struct_present_flag = pic_struct_present_flag }
  bitstream_restriction_flag ← get_u1
  if bitstream_restriction_flag == 0 then pure sps3 else parse_bitstream_restriction sps3
