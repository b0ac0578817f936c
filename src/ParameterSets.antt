-- ===== src/ParameterSets.antt =====
-- The parameter sets of src/edge264mvc_internal.h (`Edge264MvcSeqParameterSet` and
-- `Edge264MvcPicParameterSet`): flags and counts are numbers, signed offsets integers, arrays lists.
pub mod Scaling
pub mod Weights
pub mod Vui
pub mod Mvc
pub mod SpsParser
pub mod PpsParser
pub mod Crop
pub mod PpsBounds
pub mod SpsBounds
pub mod SpsKept
pub mod SpsVerdict
use edge264_mvc.Common.{ℕ, List}
use edge264_mvc.Common.Int.{ℤ}

pub record Sps : Type 0 where
  pub chroma_format_idc : ℕ
  pub chroma_array_type : ℕ
  pub bit_depth_y : ℕ
  pub bit_depth_c : ℕ
  pub qpprime_y_zero_transform_bypass_flag : ℕ
  pub log2_max_frame_num : ℕ
  pub pic_order_cnt_type : ℕ
  pub log2_max_pic_order_cnt_lsb : ℕ
  pub delta_pic_order_always_zero_flag : ℕ
  pub num_ref_frames_in_pic_order_cnt_cycle : ℕ
  pub max_num_ref_frames : ℕ
  pub frame_mbs_only_flag : ℕ
  pub mb_adaptive_frame_field_flag : ℕ
  pub direct_8x8_inference_flag : ℕ
  pub max_dec_frame_buffering : ℕ
  pub max_num_reorder_frames : ℕ
  pub nal_hrd_cpb_cnt : ℕ
  pub vcl_hrd_cpb_cnt : ℕ
  pub initial_cpb_removal_delay_length : ℕ
  pub cpb_removal_delay_length : ℕ
  pub dpb_output_delay_length : ℕ
  pub time_offset_length : ℕ
  pub pic_struct_present_flag : ℕ
  pub seq_scaling_matrix_present_flag : ℕ
  pub num_views : ℕ
  pub dependent_view_id : ℕ
  pub pic_width_in_mbs : ℕ
  pub pic_height_in_mbs : ℕ
  pub offset_for_non_ref_pic : ℤ
  pub offset_for_top_to_bottom_field : ℤ
  pub pic_order_cnt_deltas : List ℤ
  pub num_units_in_tick : ℕ
  pub time_scale : ℕ
  -- `frame_crop_offsets`, {top, right, bottom, left}
  pub crop_top : ℤ
  pub crop_right : ℤ
  pub crop_bottom : ℤ
  pub crop_left : ℤ
  pub weight_scale4x4 : List (List ℕ)
  pub weight_scale8x8 : List (List ℕ)

pub record Pps : Type 0 where
  pub entropy_coding_mode_flag : ℕ
  pub bottom_field_pic_order_in_frame_present_flag : ℕ
  pub num_ref_idx_active0 : ℕ
  pub num_ref_idx_active1 : ℕ
  pub weighted_pred_flag : ℕ
  pub weighted_bipred_idc : ℕ
  pub qpprime_y : ℤ
  pub qsprime_y : ℤ
  pub chroma_qp_index_offset : ℤ
  pub deblocking_filter_control_present_flag : ℕ
  pub constrained_intra_pred_flag : ℕ
  pub redundant_pic_cnt_present_flag : ℕ
  pub transform_8x8_mode_flag : ℕ
  pub pic_scaling_matrix_present_flag : ℕ
  pub second_chroma_qp_index_offset : ℤ
  pub num_slice_groups : ℕ
  pub slice_group_map_type : ℕ
  pub slice_group_change_direction_flag : ℕ
  pub slice_group_change_rate : ℕ
  pub run_length_minus1 : List ℕ
  pub top_left : List ℕ
  pub bottom_right : List ℕ
  pub pic_size_in_map_units : ℕ
  pub weight_scale4x4 : List (List ℕ)
  pub weight_scale8x8 : List (List ℕ)
