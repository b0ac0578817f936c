-- ===== src/ParameterSets/SpsBounds.antt =====
-- What every sequence parameter set that is kept satisfies.
use edge264_mvc.Common.{
  ℕ, zero, suc, ◌+◌, ◌*◌, ◌/◌, ◌%◌, ◌^◌, ◌≤◌, ◌≡◌, min, max, Bool, true, false, not, ◌&&◌, ◌||◌,
  List, arith, ◌==◌, ltb, if◌then◌else◌, if_elim,
}
use edge264_mvc.Common.Int.{ℤ, pos, pos_part, min_ℤ, max_ℤ, to_signed, int_laws}
use edge264_mvc.Parser.{
  Gives, Gives-pure, Gives-bind, Gives-if, Gives-weaken, Gives-repeat, Gives-get_u1, Gives-get_ue16,
  Gives-get_se16,
}
use edge264_mvc.ParameterSets.{Sps}
use edge264_mvc.ParameterSets.Weights.{
  Weights, All, Weight, parse_scaling_lists-All, All-set, defaults,
}
use edge264_mvc.ParameterSets.Crop.{Cropped}
use edge264_mvc.ParameterSets.SpsParser.{
  parse_chroma_format, parse_bit_depths, parse_seq_scaling_matrix, parse_high,
  parse_offset_for_ref_frame, parse_pic_order_cnt_cycle, parse_order, max_dpb_mbs, is_intra_profile,
  max_dpb_frames, parse_size,
}

pub record Bounds (frame_num width height refs buffering reorder : ℕ) (left right top bottom : ℤ)
    (w4x4 w8x8 : List (List ℕ)) : Type 0 where
  pub frame_num_ge : 4 ≤ frame_num
  pub frame_num_le : frame_num ≤ 16
  pub width_ge : 1 ≤ width
  pub width_le : width ≤ 1023
  pub height_ge : 1 ≤ height
  pub height_le : height ≤ 2110
  pub refs_ge : 1 ≤ refs
  pub refs_le : refs ≤ buffering
  pub buffering_le : buffering ≤ 16
  pub reorder_le : reorder ≤ buffering
  pub crop_x : Cropped (width * 16) left right
  pub crop_y : height ≤ 2047 → Cropped (height * 16) top bottom
  pub weights4x4 : All Weights w4x4
  pub weights8x8 : All Weights w8x8

module _ {frame_num width height refs buffering reorder : ℕ} {left right top bottom : ℤ}
    {w4x4 w8x8 : List (List ℕ)}
    (b : Bounds frame_num width height refs buffering reorder left right top bottom w4x4 w8x8) where
  pub crop-Bounds :
      {left' right' top' bottom' : ℤ}
      → Cropped (width * 16) left' right'
      → (height ≤ 2047 → Cropped (height * 16) top' bottom')
      → Bounds frame_num width height refs buffering reorder left' right' top' bottom' w4x4 w8x8
  crop-Bounds x y = record {
    frame_num_ge = b.frame_num_ge;
    frame_num_le = b.frame_num_le;
    width_ge = b.width_ge;
    width_le = b.width_le;
    height_ge = b.height_ge;
    height_le = b.height_le;
    refs_ge = b.refs_ge;
    refs_le = b.refs_le;
    buffering_le = b.buffering_le;
    reorder_le = b.reorder_le;
    crop_x = x;
    crop_y = y;
    weights4x4 = b.weights4x4;
    weights8x8 = b.weights8x8;
  }

  pub buffering-Bounds :
      {buffering' reorder' : ℕ}
      → refs ≤ buffering'
      → buffering' ≤ 16
      → reorder' ≤ buffering'
      → Bounds frame_num width height refs buffering' reorder' left right top bottom w4x4 w8x8
  buffering-Bounds x y z = record {
    frame_num_ge = b.frame_num_ge;
    frame_num_le = b.frame_num_le;
    width_ge = b.width_ge;
    width_le = b.width_le;
    height_ge = b.height_ge;
    height_le = b.height_le;
    refs_ge = b.refs_ge;
    refs_le = x;
    buffering_le = y;
    reorder_le = z;
    crop_x = b.crop_x;
    crop_y = b.crop_y;
    weights4x4 = b.weights4x4;
    weights8x8 = b.weights8x8;
  }

abbrev pub Limits : Sps → Type 0
Limits s =
    Bounds s.log2_max_frame_num s.pic_width_in_mbs s.pic_height_in_mbs s.max_num_ref_frames
      s.max_dec_frame_buffering s.max_num_reorder_frames s.crop_left s.crop_right s.crop_top
      s.crop_bottom s.weight_scale4x4 s.weight_scale8x8

-- What the parts before the size leave: nothing cropped, and weights.
abbrev pub NoCrop : Sps → Type 0
NoCrop s =
    (s.crop_left ≡ pos 0) × (s.crop_right ≡ pos 0) × (s.crop_top ≡ pos 0) × (s.crop_bottom ≡ pos 0)

abbrev pub Fresh : Sps → Type 0
Fresh s = NoCrop s × All Weights s.weight_scale4x4 × All Weights s.weight_scale8x8

parse_chroma_format-Fresh : (s : Sps) → Fresh s → Gives (λ r. Fresh r.1) (parse_chroma_format s)
unfolding parse_chroma_format
parse_chroma_format-Fresh s h = Gives-bind (Gives-get_ue16 3) λ idc _.
    Gives-if (ltb 2 idc) (Gives-bind Gives-get_u1 λ flag _. Gives-pure _ h) (Gives-pure _ h)

parse_bit_depths-Fresh : (r : Bool × Sps) → Fresh r.1 → Gives (λ r. Fresh r.1) (parse_bit_depths r)
unfolding parse_bit_depths
parse_bit_depths-Fresh (b, s) h =
    Gives-bind (Gives-get_ue16 6)
      λ y _. Gives-bind (Gives-get_ue16 6) λ c _. Gives-bind Gives-get_u1 λ bypass _. Gives-pure _ h

parse_seq_scaling_matrix-Fresh :
    (r : Bool × Sps) → Fresh r.1 → Gives (λ r. Fresh r.1) (parse_seq_scaling_matrix r)
unfolding parse_seq_scaling_matrix
parse_seq_scaling_matrix-Fresh (b, s) (crops, h4, h8) = Gives-bind Gives-get_u1 λ present _.
    Gives-if (present == 0) (Gives-pure _ (crops, h4, h8)) (
      Gives-bind
        (parse_scaling_lists-All Weight (λ n ge le. (ge, le)) 1 s.chroma_format_idc _ _
          (All-set Weights _ 3 _
            (All-set Weights _ 0 _ h4 (defaults Weight (λ n ge le. (ge, le))).0)
            (defaults Weight (λ n ge le. (ge, le))).1)
          (All-set Weights _ 1 _
            (All-set Weights _ 0 _ h8 (defaults Weight (λ n ge le. (ge, le))).2)
            (defaults Weight (λ n ge le. (ge, le))).3))
        λ w hw. Gives-pure _ (crops, hw.0, hw.1))

pub parse_high-Fresh :
    (profile : ℕ) (s : Sps) → Fresh s → Gives (λ r. Fresh r.1) (parse_high profile s)
unfolding parse_high
parse_high-Fresh profile s h =
    Gives-if (profile == 66 || profile == 77 || profile == 88) (Gives-pure (false, s) h) (
      Gives-bind (parse_chroma_format-Fresh s h) λ c hc.
        Gives-bind (parse_bit_depths-Fresh c hc) λ d hd. parse_seq_scaling_matrix-Fresh d hd)

abbrev pub Ordered : Sps → Type 0
Ordered s = Fresh s × (4 ≤ s.log2_max_frame_num) × (s.log2_max_frame_num ≤ 16)

parse_offset_for_ref_frame-any :
    (s : ℕ × ℤ × List ℤ) → Gives (λ _. Unit {0}) (parse_offset_for_ref_frame s)
unfolding parse_offset_for_ref_frame
parse_offset_for_ref_frame-any (i, delta, deltas) =
    Gives-bind (Gives-get_se16 _ _ (omega arith)) λ offset _. Gives-pure _ tt

parse_pic_order_cnt_cycle-Ordered :
    (s : Sps) → Ordered s → Gives Ordered (parse_pic_order_cnt_cycle s)
unfolding parse_pic_order_cnt_cycle
parse_pic_order_cnt_cycle-Ordered s h = Gives-bind Gives-get_u1 λ always_zero _.
    Gives-bind (Gives-get_se16 _ _ (omega arith)) λ non_ref _.
      Gives-bind (Gives-get_se16 _ _ (omega arith)) λ top_to_bottom _.
        Gives-bind (Gives-get_ue16 255) λ cycle _.
          Gives-bind
            (Gives-repeat cycle parse_offset_for_ref_frame (0, pos 0, s.pic_order_cnt_deltas)
              (λ t _. parse_offset_for_ref_frame-any t) tt)
            λ t _. Gives-pure _ h

pub parse_order-Ordered : (s : Sps) → Fresh s → Gives Ordered (parse_order s)
unfolding parse_order
parse_order-Ordered s h = Gives-bind (Gives-get_ue16 12) λ log2 le.
    Gives-bind (Gives-get_ue16 2) λ type _.
      Gives-if (type == 0)
        (Gives-bind (Gives-get_ue16 12) λ lsb _. Gives-pure _ (h, omega arith, omega arith))
        (Gives-if (type == 1)
          (parse_pic_order_cnt_cycle-Ordered
            (record s { log2_max_frame_num = log2 + 4; pic_order_cnt_type = type })
            (h, omega arith, omega arith))
          (Gives-pure _ (h, omega arith, omega arith)))

-- The level's number of frames, never under the references.
max_dpb_frames-bounds :
    (level mbs mvc refs : ℕ)
    → refs * 2 ^ mvc ≤ 16
    → (refs * 2 ^ mvc ≤ max_dpb_frames level mbs mvc refs)
      × (max_dpb_frames level mbs mvc refs ≤ 16)
unfolding max_dpb_frames
max_dpb_frames-bounds level mbs mvc refs h =
    clamp (to_signed 32 (max_dpb_mbs (min level 63) / mbs * 2 ^ mvc % 2 ^ 32)) (refs * 2 ^ mvc) h
  where
    clamp :
        (a : ℤ) (n : ℕ)
        → n ≤ 16
        → (n ≤ pos_part (max_ℤ (min_ℤ a (pos 16)) (pos n)))
          × (pos_part (max_ℤ (min_ℤ a (pos 16)) (pos n)) ≤ 16)
    clamp a n le = ground arith

refs-bounds :
    (n mvc : ℕ)
    → mvc ≤ 1
    → (1 ≤ max (min n (16 / 2 ^ mvc)) 1)
      × (max (min n (16 / 2 ^ mvc)) 1 ≤ max (min n (16 / 2 ^ mvc)) 1 * 2 ^ mvc)
      × (max (min n (16 / 2 ^ mvc)) 1 * 2 ^ mvc ≤ 16)
refs-bounds n zero h = (omega arith, omega arith, omega arith)
refs-bounds n (suc zero) h = (omega arith, omega arith, omega arith)
refs-bounds n (suc (suc k)) h = absurd (omega arith)

height-bounds :
    (n flag : ℕ)
    → n ≤ 1054
    → flag ≤ 1
    → (1 ≤ (n + 1) * 2 / 2 ^ flag) × ((n + 1) * 2 / 2 ^ flag ≤ 2110)
height-bounds n zero le h = (omega arith, omega arith)
height-bounds n (suc zero) le h = (omega arith, omega arith)
height-bounds n (suc (suc k)) le h = absurd (omega arith)

Cropped-nothing : (size : ℕ) (a b : ℤ) → 1 ≤ size → a ≡ pos 0 → b ≡ pos 0 → Cropped size a b
Cropped-nothing size a b h ea eb =
    rw (ea, eb)
      (record { first_le = omega arith; second_le = omega arith; both_lt = omega int_laws })

pub parse_size-Limits :
    (profile flags level mvc : ℕ) (s : Sps)
    → mvc ≤ 1
    → Ordered s
    → Gives (λ r. Limits r.1 × (r.0 ≤ 16)) (parse_size profile flags level mvc s)
unfolding parse_size
parse_size-Limits profile flags level mvc s h (fresh, ge, le) =
    Gives-bind (Gives-get_ue16 16) λ n _. Gives-bind Gives-get_u1 λ gaps _.
      Gives-bind (Gives-get_ue16 1022) λ w hw. Gives-bind (Gives-get_ue16 1054) λ height hh.
        Gives-bind Gives-get_u1 λ only ho.
          Gives-bind {P = λ _. Unit {0}}
            (Gives-if (only == 0) (Gives-weaken (λ _ _. tt) Gives-get_u1) (Gives-pure _ tt))
            λ mbaff _.
              Gives-bind Gives-get_u1 λ direct _. Gives-pure _ (sized n w height only hw hh ho)
  where
    refs : ℕ → ℕ
    refs n = max (min n (16 / 2 ^ mvc)) 1

    frames : ℕ → ℕ → ℕ → ℕ → ℕ
    frames n w height only =
        max_dpb_frames level ((w + 1) * ((height + 1) * 2 / 2 ^ only)) mvc (refs n)

    intra : Bool
    intra = is_intra_profile profile && not (flags / 2 ^ 4 % 2 == 0)

    sized :
        (n w height only : ℕ)
        → w ≤ 1022
        → height ≤ 1054
        → only ≤ 1
        → Bounds s.log2_max_frame_num
            (w + 1)
            ((height + 1) * 2 / 2 ^ only)
            (refs n)
            (if intra then refs n * 2 ^ mvc else frames n w height only)
            (if intra then 0 else frames n w height only)
            s.crop_left
            s.crop_right
            s.crop_top
            s.crop_bottom
            s.weight_scale4x4
            s.weight_scale8x8
          × (frames n w height only ≤ 16)
    sized n w height only hw hh ho =
        let rb = refs-bounds n mvc h in
        let fb =
          max_dpb_frames-bounds level ((w + 1) * ((height + 1) * 2 / 2 ^ only)) mvc (refs n) rb.2 in
        let hb = height-bounds height only hh ho in
        (
          record {
            frame_num_ge = ge;
            frame_num_le = le;
            width_ge = omega arith;
            width_le = omega arith;
            height_ge = hb.0;
            height_le = hb.1;
            refs_ge = rb.0;
            refs_le = if_elim (λ v. refs n ≤ v) intra rb.1 (omega (arith, rb.1, fb.0));
            buffering_le = if_elim (λ v. v ≤ 16) intra rb.2 fb.1;
            reorder_le = reordered intra;
            crop_x = Cropped-nothing ((w + 1) * 16) _ _ (omega arith) fresh.0.0 fresh.0.1;
            crop_y = λ _.
                Cropped-nothing ((height + 1) * 2 / 2 ^ only * 16) _ _ (omega (arith, hb.0))
                  fresh.0.2 fresh.0.3;
            weights4x4 = fresh.1;
            weights8x8 = fresh.2;
          },
          fb.1,
        )
      where
        reordered :
            (b : Bool)
            → (if b then 0 else frames n w height only)
              ≤ (if b then refs n * 2 ^ mvc else frames n w height only)
        reordered true = omega arith
        reordered false = omega arith
