-- ===== src/PredWeights.antt =====
-- `parse_pred_weight_table` of src/edge264mvc_headers.c: the explicit weights of a slice.
pub mod Bounds
use edge264_mvc.Common.{ℕ, zero, suc, ◌+◌, ◌*◌, ◌^◌, Bool, ◌==◌, if◌then◌else◌}
use edge264_mvc.Common.Int.{ℤ, pos, negsuc}
use edge264_mvc.Bits.{get_u1, get_ue16, get_se16}
use edge264_mvc.Parser.{Parser, ◌>>=◌, ◌>>◌, pure}
use edge264_mvc.Decoder.{update}

-- The part of `Edge264MvcTask` that it reads and writes. Weights and offsets are by plane (0 to 2) and
-- index (32 per list).
pub record WeightTable : Type 0 where
  pub slice_type : ℕ
  pub num_ref_idx_active : ℕ → ℕ
  pub weighted_pred_flag : ℕ
  pub weighted_bipred_idc : ℕ
  pub luma_log2_weight_denom : ℕ
  pub chroma_log2_weight_denom : ℕ
  pub explicit_weights : ℕ → ℕ → ℤ
  pub explicit_offsets : ℕ → ℕ → ℤ

-- An entry of a plane.
abbrev pub write_weight : ℕ → ℕ → ℤ → ℤ → WeightTable → WeightTable
write_weight plane i weight offset t = record t {
  explicit_weights = update t.explicit_weights plane (update (t.explicit_weights plane) i weight);
  explicit_offsets = update t.explicit_offsets plane (update (t.explicit_offsets plane) i offset);
}

-- A weight and an offset that are coded.
unfoldable pub parse_weight : ℕ → ℕ → WeightTable → Parser WeightTable
parse_weight plane i t = do
  weight ← get_se16 (negsuc 127) (pos 127)
  offset ← get_se16 (negsuc 127) (pos 127)
  pure (write_weight plane i weight offset t)

-- Those of entry `i`, or the unit weights of its planes.
unfoldable pub parse_entry : ℕ → ℕ → WeightTable → Parser WeightTable
unfolding parse_weight
parse_entry chroma_array_type i t0 = do
  luma_weight_flag ← get_u1
  t1 ←
      if luma_weight_flag == 0
      then pure (write_weight 0 i (pos (2 ^ t0.luma_log2_weight_denom)) (pos 0) t0)
      else parse_weight 0 i t0
  chroma_weight_flag ← if chroma_array_type == 0 then pure 0 else get_u1
  if chroma_weight_flag == 0
      then (let unit = pos (2 ^ t1.chroma_log2_weight_denom) in
          pure (write_weight 2 i unit (pos 0) (write_weight 1 i unit (pos 0) t1)))
      else (do t2 ← parse_weight 1 i t1; parse_weight 2 i t2)

-- `n` entries from `i` on.
unfoldable pub parse_entries : ℕ → ℕ → ℕ → WeightTable → Parser WeightTable
unfolding parse_entry
parse_entries zero chroma_array_type i t = pure t
parse_entries (suc n) chroma_array_type i t = do
  t' ← parse_entry chroma_array_type i t
  parse_entries n chroma_array_type (suc i) t'

-- The lists from `l` on, `n` of them.
unfoldable pub parse_weight_lists : ℕ → ℕ → ℕ → WeightTable → Parser WeightTable
unfolding parse_entries
parse_weight_lists zero chroma_array_type l t = pure t
parse_weight_lists (suc n) chroma_array_type l t = do
  t' ← parse_entries (t.num_ref_idx_active l) chroma_array_type (l * 32) t
  parse_weight_lists n chroma_array_type (suc l) t'

unfoldable pub parse_pred_weight_table : ℕ → WeightTable → Parser WeightTable
unfolding parse_weight_lists
parse_pred_weight_table chroma_array_type t0 =
    let idc = if t0.slice_type == 0 then t0.weighted_pred_flag else t0.weighted_bipred_idc in
    let t1 = record t0 { weighted_bipred_idc = idc } in
    if idc == 1
    then (do
      luma ← get_ue16 7
      chroma ← if chroma_array_type == 0 then pure t1.chroma_log2_weight_denom else get_ue16 7
      parse_weight_lists (suc t1.slice_type) chroma_array_type 0
          (record t1 { luma_log2_weight_denom = luma; chroma_log2_weight_denom = chroma }))
    else pure t1
