-- ===== src/PredWeights/Bounds.antt =====
-- The bounds of the explicit weights of a slice.
use edge264_mvc.Common.{
  ℕ, zero, suc, ◌*◌, ◌^◌, ◌≤◌, Bool, true, false, arith, ◌==◌, if◌then◌else◌, if_elim,
}
use edge264_mvc.Common.Int.{ℤ, pos, negsuc, ◌≤ℤ◌}
use edge264_mvc.Parser.{
  Gives, Gives-pure, Gives-bind, Gives-if, Gives-weaken, Gives-get_u1, Gives-get_ue16,
  Gives-get_se16,
}
use edge264_mvc.Decoder.{update}
use edge264_mvc.PredWeights.{
  WeightTable, write_weight, parse_weight, parse_entry, parse_entries, parse_weight_lists,
  parse_pred_weight_table,
}

-- Between two bounds.
abbrev pub Within : ℤ → ℤ → ℤ → Type 0
Within low high x = (low ≤ℤ x) × (x ≤ℤ high)

-- The same, at every plane and index.
abbrev pub Between : ℤ → ℤ → (ℕ → ℕ → ℤ) → Type 0
Between low high f = (plane i : ℕ) → Within low high (f plane i)

pub record TableBounds (luma chroma : ℕ) (weights offsets : ℕ → ℕ → ℤ) : Type 0 where
  pub luma_le : luma ≤ 7
  pub chroma_le : chroma ≤ 7
  pub weights_in : Between (negsuc 127) (pos 128) weights
  pub offsets_in : Between (negsuc 127) (pos 127) offsets

abbrev pub TableOk : WeightTable → Type 0
TableOk t =
    TableBounds t.luma_log2_weight_denom t.chroma_log2_weight_denom t.explicit_weights
      t.explicit_offsets

Between-update :
    (low high : ℤ) (f : ℕ → ℕ → ℤ) (plane i : ℕ) (v : ℤ)
    → Between low high f
    → (low ≤ℤ v) × (v ≤ℤ high)
    → Between low high (update f plane (update (f plane) i v))
Between-update low high f plane i v h hv p k = go (plane == p)
  where
    go : (b : Bool) → Within low high ((if b then update (f plane) i v else f p) k)
    go true = if_elim (Within low high) (i == k) hv (h plane k)
    go false = h p k

write_weight-TableOk :
    (plane i : ℕ) (w o : ℤ) (t : WeightTable)
    → (negsuc 127 ≤ℤ w) × (w ≤ℤ pos 128)
    → (negsuc 127 ≤ℤ o) × (o ≤ℤ pos 127)
    → TableOk t
    → TableOk (write_weight plane i w o t)
write_weight-TableOk plane i w o t hw ho h = record {
  luma_le = h.luma_le;
  chroma_le = h.chroma_le;
  weights_in = Between-update (negsuc 127) (pos 128) t.explicit_weights plane i w h.weights_in hw;
  offsets_in = Between-update (negsuc 127) (pos 127) t.explicit_offsets plane i o h.offsets_in ho;
}

unit_weight : (n : ℕ) → n ≤ 7 → (negsuc 127 ≤ℤ pos (2 ^ n)) × (pos (2 ^ n) ≤ℤ pos 128)
unit_weight zero _ = (omega arith, omega arith)
unit_weight (suc zero) _ = (omega arith, omega arith)
unit_weight (suc (suc zero)) _ = (omega arith, omega arith)
unit_weight (suc (suc (suc zero))) _ = (omega arith, omega arith)
unit_weight (suc (suc (suc (suc zero)))) _ = (omega arith, omega arith)
unit_weight (suc (suc (suc (suc (suc zero))))) _ = (omega arith, omega arith)
unit_weight (suc (suc (suc (suc (suc (suc zero)))))) _ = (omega arith, omega arith)
unit_weight (suc (suc (suc (suc (suc (suc (suc zero))))))) _ = (omega arith, omega arith)
unit_weight (suc (suc (suc (suc (suc (suc (suc (suc n)))))))) h = absurd (omega (arith, h))

parse_weight-TableOk :
    (plane i : ℕ) (t : WeightTable) → TableOk t → Gives TableOk (parse_weight plane i t)
unfolding parse_weight
parse_weight-TableOk plane i t h =
    Gives-bind (Gives-get_se16 (negsuc 127) (pos 127) (omega arith)) λ w hw.
      Gives-bind (Gives-get_se16 (negsuc 127) (pos 127) (omega arith)) λ o ho.
        Gives-pure (write_weight plane i w o t)
          (write_weight-TableOk plane i w o t (hw.0, omega (arith, hw.1)) ho h)

parse_entry-TableOk :
    (type i : ℕ) (t : WeightTable) → TableOk t → Gives TableOk (parse_entry type i t)
unfolding parse_entry
parse_entry-TableOk type i t h = Gives-bind Gives-get_u1 λ flag _.
    Gives-bind {P = TableOk}
      (Gives-if (flag == 0)
        (Gives-pure (write_weight 0 i (pos (2 ^ t.luma_log2_weight_denom)) (pos 0) t) (
          write_weight-TableOk 0 i (pos (2 ^ t.luma_log2_weight_denom)) (pos 0) t
            (unit_weight t.luma_log2_weight_denom h.luma_le) zero_offset h))
        (parse_weight-TableOk 0 i t h))
      λ t1 h1.
        Gives-bind {P = λ _. Unit {0}}
          (Gives-if (type == 0) (Gives-pure 0 tt) (Gives-weaken (λ _ _. tt) Gives-get_u1))
          λ coded _.
            let unit = pos (2 ^ t1.chroma_log2_weight_denom) in
            let hu = unit_weight t1.chroma_log2_weight_denom h1.chroma_le in
            let one = write_weight-TableOk 1 i unit (pos 0) t1 hu zero_offset h1 in
            Gives-if (coded == 0)
              (Gives-pure (write_weight 2 i unit (pos 0) (write_weight 1 i unit (pos 0) t1)) (
                write_weight-TableOk 2 i unit (pos 0) (write_weight 1 i unit (pos 0) t1) hu
                  zero_offset one))
              (Gives-bind (parse_weight-TableOk 1 i t1 h1) λ t2 h2. parse_weight-TableOk 2 i t2 h2)
  where
    zero_offset : (negsuc 127 ≤ℤ pos 0) × (pos 0 ≤ℤ pos 127)
    zero_offset = (omega arith, omega arith)

parse_entries-TableOk :
    (n type i : ℕ) (t : WeightTable) → TableOk t → Gives TableOk (parse_entries n type i t)
unfolding parse_entries
parse_entries-TableOk zero type i t h = Gives-pure t h
parse_entries-TableOk (suc n) type i t h =
    Gives-bind (parse_entry-TableOk type i t h) λ t' h'. parse_entries-TableOk n type (suc i) t' h'

parse_weight_lists-TableOk :
    (n type l : ℕ) (t : WeightTable) → TableOk t → Gives TableOk (parse_weight_lists n type l t)
unfolding parse_weight_lists
parse_weight_lists-TableOk zero type l t h = Gives-pure t h
parse_weight_lists-TableOk (suc n) type l t h =
    Gives-bind (parse_entries-TableOk (t.num_ref_idx_active l) type (l * 32) t h)
      λ t' h'. parse_weight_lists-TableOk n type (suc l) t' h'

-- Whatever the bitstream, the table keeps its bounds: denominators of at most 7, weights from -128 to
-- 128 (128 is a unit weight) and offsets from -128 to 127.
pub parse_pred_weight_table-TableOk :
    (chroma_array_type : ℕ) (t : WeightTable)
    → TableOk t
    → Gives TableOk (parse_pred_weight_table chroma_array_type t)
unfolding parse_pred_weight_table
parse_pred_weight_table-TableOk type t h =
    Gives-if ((if t.slice_type == 0 then t.weighted_pred_flag else t.weighted_bipred_idc) == 1)
      (Gives-bind (Gives-get_ue16 7) λ luma hl.
        Gives-bind {P = λ v. v ≤ 7}
          (Gives-if (type == 0) (Gives-pure t.chroma_log2_weight_denom h.chroma_le)
            (Gives-get_ue16 7))
          λ chroma hc.
            parse_weight_lists-TableOk (suc t.slice_type) type 0
              (record t {
                weighted_bipred_idc =
                    if t.slice_type == 0 then t.weighted_pred_flag else t.weighted_bipred_idc;
                luma_log2_weight_denom = luma;
                chroma_log2_weight_denom = chroma;
              })
              (record {
                luma_le = hl;
                chroma_le = hc;
                weights_in = h.weights_in;
                offsets_in = h.offsets_in;
              }))
      (Gives-pure _ h)
