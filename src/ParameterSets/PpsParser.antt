-- ===== src/ParameterSets/PpsParser.antt =====
-- `parse_pic_parameter_set` up to its verdict (src/edge264mvc_headers.c). `malloc` is the parameter
-- `allocates`, whether it gives that many bytes.
use edge264_mvc.Common.{
  ℕ, ◌+◌, ◌-◌, Bool, ◌&&◌, Option, some, none, List, [], ◌∷◌, ◌++◌, ◌==◌, ltb, leb, if◌then◌else◌,
  set, replicate,
}
use edge264_mvc.Common.Int.{pos, negsuc, ◌+ℤ◌}
use edge264_mvc.Bits.{clz, get_u1, get_uv, get_ue16, get_ue32, get_se16, rbsp_end}
use edge264_mvc.Parser.{Parser, ◌>>=◌, pure, repeat}
use edge264_mvc.ParameterSets.{Pps}
use edge264_mvc.ParameterSets.Scaling.{parse_scaling_lists}

abbrev pub initial_pps : Pps
initial_pps = record {
  entropy_coding_mode_flag = 0;
  bottom_field_pic_order_in_frame_present_flag = 0;
  num_ref_idx_active0 = 0;
  num_ref_idx_active1 = 0;
  weighted_pred_flag = 0;
  weighted_bipred_idc = 0;
  qpprime_y = pos 0;
  qsprime_y = pos 0;
  chroma_qp_index_offset = pos 0;
  deblocking_filter_control_present_flag = 0;
  constrained_intra_pred_flag = 0;
  redundant_pic_cnt_present_flag = 0;
  transform_8x8_mode_flag = 0;
  pic_scaling_matrix_present_flag = 0;
  second_chroma_qp_index_offset = pos 0;
  num_slice_groups = 0;
  slice_group_map_type = 0;
  slice_group_change_direction_flag = 0;
  slice_group_change_rate = 0;
  run_length_minus1 = replicate 8 0;
  top_left = replicate 8 0;
  bottom_right = replicate 8 0;
  pic_size_in_map_units = 0;
  weight_scale4x4 = replicate 6 (replicate 16 0);
  weight_scale8x8 = replicate 6 (replicate 64 0);
}

-- The loops of the map types 0 and 2, with their index.
unfoldable pub parse_run_length : ℕ × Pps → Parser (ℕ × Pps)
parse_run_length (i, pps) = do
  run ← get_ue32 139263
  pure (i + 1, record pps { run_length_minus1 = set pps.run_length_minus1 i run })

unfoldable pub parse_rectangle : ℕ × Pps → Parser (ℕ × Pps)
parse_rectangle (i, pps) = do
  top_left ← get_ue32 139263
  bottom_right ← get_ue32 139263
  pure (
    i + 1,
    record pps {
      top_left = set pps.top_left i top_left;
      bottom_right = set pps.bottom_right i bottom_right;
    },
  )

-- A round of the loop over slice_group_id: one out of range is 0.
unfoldable pub parse_slice_group_id : ℕ → ℕ → List ℕ → Parser (List ℕ)
parse_slice_group_id num_slice_groups bits ids = do
  id ← get_uv bits
  pure (ids ++ (if ltb id num_slice_groups then id else 0) ∷ [])

-- The set, and slice_group_ids where map type 6 codes them. `none` is a failed allocation.
abbrev pub Groups : Type 0
Groups = Option (Pps × Option (List ℕ))

unfoldable pub parse_explicit_map : (ℕ → Bool) → Pps → Parser Groups
unfolding clz parse_slice_group_id repeat
parse_explicit_map allocates pps = do
  size_minus1 ← get_ue32 139263
  let pps' = record pps { pic_size_in_map_units = size_minus1 + 1 }
  if allocates (size_minus1 + 1)
      then (do
        ids ←
            repeat (size_minus1 + 1)
              (parse_slice_group_id pps.num_slice_groups (64 - clz (pps.num_slice_groups - 1))) []
        pure (some (pps', some ids)))
      else pure none

unfoldable pub parse_map : (ℕ → Bool) → ℕ → Pps → Parser Groups
unfolding parse_run_length parse_rectangle parse_explicit_map repeat
parse_map allocates type pps =
    if type == 0
    then (do r ← repeat pps.num_slice_groups parse_run_length (0, pps); pure (some (r.1, none)))
    else (if type == 2
        then (do
          r ← repeat (pps.num_slice_groups - 1) parse_rectangle (0, pps)
          pure (some (r.1, none)))
        else (if leb 3 type && leb type 5
            then (do
              direction ← get_u1
              rate ← get_ue32 139263
              pure (
                  some (
                    record pps {
                      slice_group_change_direction_flag = direction;
                      slice_group_change_rate = rate + 1;
                    },
                    none,
                  )))
            else (if type == 6 then parse_explicit_map allocates pps else pure (some (pps, none)))))

unfoldable pub parse_slice_groups : (ℕ → Bool) → Pps → Parser Groups
unfolding parse_map
parse_slice_groups allocates pps =
    if ltb 1 pps.num_slice_groups
    then (do
      type ← get_ue16 6
      parse_map allocates type (record pps { slice_group_map_type = type }))
    else pure (some (pps, none))

-- From num_ref_idx_default_active to redundant_pic_cnt_present_flag.
unfoldable pub parse_defaults : Pps → Parser Pps
unfolding ◌+ℤ◌
parse_defaults pps = do
  active0 ← get_ue16 31
  active1 ← get_ue16 31
  weighted_pred_flag ← get_u1
  bipred ← get_uv 2
  qp ← get_se16 (negsuc 37) (pos 25)
  qs ← get_se16 (negsuc 25) (pos 25)
  offset ← get_se16 (negsuc 11) (pos 12)
  deblocking ← get_u1
  constrained ← get_u1
  redundant ← get_u1
  pure (record pps {
    num_ref_idx_active0 = active0 + 1;
    num_ref_idx_active1 = active1 + 1;
    weighted_pred_flag = weighted_pred_flag;
    weighted_bipred_idc = if bipred == 3 then 0 else bipred;
    qpprime_y = qp +ℤ pos 26;
    qsprime_y = qs +ℤ pos 26;
    chroma_qp_index_offset = offset;
    second_chroma_qp_index_offset = offset;
    deblocking_filter_control_present_flag = deblocking;
    constrained_intra_pred_flag = constrained;
    redundant_pic_cnt_present_flag = redundant;
  })

-- `rbsp_end(&dec->gb, 1)`
unfoldable pub at_end : Parser Bool
unfolding rbsp_end
at_end gb = (rbsp_end gb 1, gb)

-- What follows unless the set ends there.
unfoldable pub parse_extension : ℕ → Pps → Parser Pps
unfolding parse_scaling_lists at_end
parse_extension chroma_format_idc pps0 = do
  ended ← at_end
  if ended then pure pps0 else (do
    transform ← get_u1
    present ← get_u1
    lists ←
        if present == 0
        then pure (pps0.weight_scale4x4, pps0.weight_scale8x8)
        else parse_scaling_lists transform chroma_format_idc pps0.weight_scale4x4
            pps0.weight_scale8x8
    offset ← get_se16 (negsuc 11) (pos 12)
    pure (record pps0 {
      transform_8x8_mode_flag = transform;
      pic_scaling_matrix_present_flag = present;
      weight_scale4x4 = lists.0;
      weight_scale8x8 = lists.1;
      second_chroma_qp_index_offset = offset;
    }))

-- 0 with what is written to the slot, EBADMSG and ENOMEM.
pub data PpsVerdict : Type 0 where
  saved : ℕ → Pps → Option (List ℕ) → PpsVerdict
  malformed : PpsVerdict
  no_memory : PpsVerdict

unfoldable pub parse_rest : ℕ → ℕ → Groups → Parser PpsVerdict
unfolding parse_defaults parse_extension at_end
parse_rest id chroma_format_idc none = pure no_memory
parse_rest id chroma_format_idc (some (pps0, ids)) = do
  pps1 ← parse_defaults pps0
  pps2 ← parse_extension chroma_format_idc pps1
  ended ← at_end
  pure (if ended then saved id pps2 ids else malformed)

unfoldable pub parse_pic_parameter_set : (ℕ → Bool) → ℕ → Parser PpsVerdict
unfolding parse_slice_groups parse_rest
parse_pic_parameter_set allocates chroma_format_idc = do
  id ← get_ue16 255
  seq_parameter_set_id ← get_ue16 31
  entropy_coding_mode_flag ← get_u1
  bottom_field_pic_order ← get_u1
  num_slice_groups_minus1 ← get_ue16 7
  groups ← parse_slice_groups allocates (record initial_pps {
    entropy_coding_mode_flag = entropy_coding_mode_flag;
    bottom_field_pic_order_in_frame_present_flag = bottom_field_pic_order;
    num_slice_groups = num_slice_groups_minus1 + 1;
  })
  parse_rest id chroma_format_idc groups
