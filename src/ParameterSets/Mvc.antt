-- ===== src/ParameterSets/Mvc.antt =====
-- The MVC extensions of a subset parameter set (src/edge264mvc_headers.c): the views, and the lists
-- of references, levels and operation points that are read and dropped.
use edge264_mvc.Common.{ℕ, ◌+◌, ◌-◌, min, Bool, true, ◌==◌, ltb, if◌then◌else◌}
use edge264_mvc.Bits.{get_u1, get_uv, get_ue16}
use edge264_mvc.Parser.{Parser, ◌>>=◌, ◌>>◌, pure, repeat, repeat_left}
use edge264_mvc.ParameterSets.{Sps}
use edge264_mvc.ParameterSets.Vui.{parse_hrds}

-- A code of at most `upper`, dropped.
unfoldable pub skip : ℕ → Unit {0} → Parser (Unit {0})
skip upper _ = do value ← get_ue16 upper; pure tt

-- A code of at most `upper` and that many view_ids, and one more.
unfoldable pub skip_views : ℕ → Parser (Unit {0})
unfolding skip repeat_left
skip_views upper = do count ← get_ue16 upper; repeat_left (count + 1) (skip 1023) tt

-- The index of the view, which is the dependent one at 1.
unfoldable pub parse_view_id : ℕ × Sps → Parser (ℕ × Sps)
parse_view_id (i, sps) = do
  view_id ← get_ue16 1023
  pure (i + 1, if i == 1 then record sps { dependent_view_id = view_id } else sps)

-- The inter-view references of a view, of both lists.
unfoldable pub skip_list_refs : ℕ → Unit {0} → Parser (Unit {0})
unfolding skip repeat
skip_list_refs num_views _ = do
  num_refs ← get_ue16 (min 15 (num_views - 1))
  repeat num_refs (skip 1023) tt

unfoldable pub skip_view_refs : ℕ → Unit {0} → Parser (Unit {0})
unfolding skip_list_refs repeat
skip_view_refs num_views _ = repeat 2 (skip_list_refs num_views) tt

unfoldable pub skip_anchor_refs : ℕ → Unit {0} → Parser (Unit {0})
unfolding skip_view_refs repeat_left
skip_anchor_refs num_views _ = repeat_left (num_views - 1) (skip_view_refs num_views) tt

unfoldable pub skip_operation_point : Unit {0} → Parser (Unit {0})
unfolding skip_views
skip_operation_point _ = do
  applicable_op_temporal_id ← get_uv 3
  skip_views 1023
  applicable_op_num_views_minus1 ← get_ue16 1023
  pure tt

unfoldable pub skip_level : Unit {0} → Parser (Unit {0})
unfolding skip_operation_point repeat_left
skip_level _ = do
  level_idc ← get_uv 8
  num_applicable_ops_minus1 ← get_ue16 1023
  repeat_left (num_applicable_ops_minus1 + 1) skip_operation_point tt

-- `true` first where the extension is not supported, which ends the parse.
unfoldable pub parse_seq_parameter_set_mvc_extension : ℕ → Sps → Parser (Bool × Sps)
unfolding parse_view_id skip_anchor_refs skip_level repeat repeat_left
parse_seq_parameter_set_mvc_extension profile_idc sps0 = do
  num_views_minus1 ← get_ue16 1023
  let num_views = num_views_minus1 + 1
  (_, sps) ← repeat num_views parse_view_id (0, record sps0 { num_views = num_views })
  if ltb num_views 2 then pure (true, sps) else (do
    repeat 2 (skip_anchor_refs num_views) tt
    num_level_values_signalled_minus1 ← get_ue16 63
    repeat_left (num_level_values_signalled_minus1 + 1) skip_level tt
    pure (profile_idc == 134, sps))

-- The timing of an operation point, dropped.
unfoldable pub skip_timing : Parser (Unit {0})
skip_timing = do
  timing_info_present_flag ← get_u1
  if timing_info_present_flag == 0 then pure tt else (do
    num_units_in_tick ← get_uv 32
    time_scale ← get_uv 32
    fixed_frame_rate_flag ← get_u1
    pure tt)

unfoldable pub parse_vui_operation_point : Sps → Parser Sps
unfolding skip_views skip_timing parse_hrds
parse_vui_operation_point sps0 = do
  temporal_id ← get_uv 3
  skip_views 1023
  skip_timing
  sps ← parse_hrds sps0
  pic_struct_present_flag ← get_u1
  pure sps

unfoldable pub parse_mvc_vui_parameters_extension : Sps → Parser Sps
unfolding parse_vui_operation_point repeat_left
parse_mvc_vui_parameters_extension sps = do
  vui_mvc_num_ops_minus1 ← get_ue16 1023
  repeat_left (vui_mvc_num_ops_minus1 + 1) parse_vui_operation_point sps
