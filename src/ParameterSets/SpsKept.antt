-- ===== src/ParameterSets/SpsKept.antt =====
-- Every sequence parameter set that is kept is within its limits.
use edge264_mvc.Common.{
  ℕ, ◌+◌, ◌-◌, ◌*◌, ◌≤◌, ◌≡◌, refl, ◌&&◌, ◌||◌, arith, ◌==◌, if◌then◌else◌, if_elim, replicate,
}
use edge264_mvc.Parser.{
  Parser, Gives, Gives-pure, Gives-bind, Gives-if, Gives-weaken, Gives-repeat, Gives-get_u1,
  Gives-get_ue16, Gives-get_uv,
}
use edge264_mvc.ParameterSets.{Sps}
use edge264_mvc.ParameterSets.Weights.{Weights, Weight, All-replicate}
use edge264_mvc.ParameterSets.SpsBounds.{
  crop-Bounds, buffering-Bounds, Limits, Fresh, parse_high-Fresh, parse_order-Ordered,
  parse_size-Limits,
}
use edge264_mvc.ParameterSets.Crop.{crop-Cropped}
use edge264_mvc.ParameterSets.Vui.{
  parse_cpb, parse_hrd_parameters, parse_hrds, parse_video_signal_type, parse_display, parse_timing,
  parse_bitstream_restriction, parse_vui_parameters,
}
use edge264_mvc.ParameterSets.SpsParser.{initial_sps, parse_frame_cropping, Body, parse_body}

parse_frame_cropping-Limits : (s : Sps) → Limits s → Gives Limits (parse_frame_cropping s)
unfolding parse_frame_cropping
parse_frame_cropping-Limits s b = Gives-bind Gives-get_u1 λ flag _.
    Gives-if (flag == 0) (Gives-pure s b) (
      Gives-bind
        (crop-Cropped (s.pic_width_in_mbs * 16)
          (if s.chroma_array_type == 1 || s.chroma_array_type == 2 then 1 else 0)
          (if_elim (λ v. v ≤ 2) (s.chroma_array_type == 1 || s.chroma_array_type == 2) (omega arith)
            (omega arith))
          (omega (arith, b.width_ge)))
        λ x hx.
          Gives-bind
            (crop-Cropped (s.pic_height_in_mbs * 16)
              ((if s.chroma_array_type == 1 then 1 else 0) + 1 - s.frame_mbs_only_flag)
              (if_elim (λ v. v + 1 - s.frame_mbs_only_flag ≤ 2) (s.chroma_array_type == 1)
                (omega arith) (omega arith))
              (omega (arith, b.height_ge)))
            λ y hy.
              Gives-pure _
                (crop-Bounds b (hx (omega (arith, b.width_le))) (λ le. hy (omega arith))))

-- The parts whose values are dropped.
abbrev pub Any {ℓ} : {A : Type ℓ} → Parser A → Type ℓ
Any m = Gives (λ _. Unit {0}) m

parse_video_signal_type-Any : Any parse_video_signal_type
unfolding parse_video_signal_type
parse_video_signal_type-Any = Gives-bind Gives-get_u1 λ present _.
    Gives-if (present == 0) (Gives-pure tt tt) (
      Gives-bind (Gives-get_uv 3) λ format _. Gives-bind Gives-get_u1 λ range _.
        Gives-bind Gives-get_u1 λ described _.
          Gives-bind {P = λ _. Unit {0}}
            (Gives-if (described == 0) (Gives-pure 0 tt) (Gives-get_uv 24))
            λ desc _. Gives-pure tt tt)

parse_display-Any : Any parse_display
unfolding parse_display
parse_display-Any = Gives-bind Gives-get_u1 λ aspect _.
    Gives-bind {P = λ _. Unit {0}}
      (Gives-if (aspect == 0) (Gives-pure 0 tt) (
        Gives-bind (Gives-get_uv 8)
          λ idc _. Gives-if (idc == 255) (Gives-get_uv 32) (Gives-pure 0 tt)))
      λ sar _. Gives-bind Gives-get_u1 λ overscan _.
        Gives-bind {P = λ _. Unit {0}}
          (Gives-if (overscan == 0) (Gives-pure 0 tt) (Gives-weaken (λ _ _. tt) Gives-get_u1))
          λ flag _. Gives-bind parse_video_signal_type-Any λ _ _. Gives-bind Gives-get_u1 λ loc _.
            Gives-if (loc == 0) (Gives-pure tt tt) (
              Gives-bind (Gives-get_ue16 5)
                λ t _. Gives-bind (Gives-get_ue16 5) λ b _. Gives-pure tt tt)

parse_cpb-Any : (u : Unit {0}) → Any (parse_cpb u)
unfolding parse_cpb
parse_cpb-Any u =
    Gives-bind (Gives-get_ue16 _)
      λ a _. Gives-bind (Gives-get_ue16 _) λ b _. Gives-bind Gives-get_u1 λ c _. Gives-pure tt tt

-- A set with `n` references within its limits.
abbrev pub Good : ℕ → Sps → Type 0
Good n s = Limits s × (s.max_num_ref_frames ≡ n)

module _ (n : ℕ) where
  parse_hrd_parameters-Good :
      (s : Sps) → Good n s → Gives (λ r. Good n r.1) (parse_hrd_parameters s)
  unfolding parse_hrd_parameters
  parse_hrd_parameters-Good s h = Gives-bind (Gives-get_ue16 31) λ count _.
      Gives-bind (Gives-get_uv 4) λ a _. Gives-bind (Gives-get_uv 4) λ b _.
        Gives-bind (Gives-repeat (count + 1) parse_cpb tt (λ u _. parse_cpb-Any u) tt)
          λ _ _. Gives-bind (Gives-get_uv 20) λ delays _. Gives-pure _ h

  pub parse_hrds-Good : (s : Sps) → Good n s → Gives (Good n) (parse_hrds s)
  unfolding parse_hrds
  parse_hrds-Good s h = Gives-bind Gives-get_u1 λ nal _.
      Gives-bind {P = λ r. Good n r.1}
        (Gives-if (nal == 0) (Gives-pure (s.nal_hrd_cpb_cnt, s) h) (parse_hrd_parameters-Good s h))
        λ r1 h1. Gives-bind Gives-get_u1 λ vcl _.
          Gives-bind {P = λ r. Good n r.1}
            (Gives-if (vcl == 0) (Gives-pure (r1.1.vcl_hrd_cpb_cnt, r1.1) h1)
              (parse_hrd_parameters-Good r1.1 h1))
            λ r2 h2.
              Gives-bind {P = λ _. Unit {0}}
                (Gives-if (nal == 0 && vcl == 0) (Gives-pure 0 tt)
                  (Gives-weaken (λ _ _. tt) Gives-get_u1))
                λ low _. Gives-pure _ h2

  parse_timing-Good : (s : Sps) → Good n s → Gives (Good n) (parse_timing s)
  unfolding parse_timing
  parse_timing-Good s h = Gives-bind Gives-get_u1 λ present _.
      Gives-if (present == 0) (Gives-pure s h) (
        Gives-bind (Gives-get_uv 32) λ tick _.
          Gives-bind (Gives-get_uv 32) λ scale _. Gives-bind Gives-get_u1 λ fixed _. Gives-pure _ h)

  parse_bitstream_restriction-Good :
      (s : Sps) → Good n s → Gives (Good n) (parse_bitstream_restriction s)
  unfolding parse_bitstream_restriction
  parse_bitstream_restriction-Good s (b, e) = Gives-bind Gives-get_u1 λ over _.
      Gives-bind (Gives-get_ue16 16) λ bytes _. Gives-bind (Gives-get_ue16 16) λ bits _.
        Gives-bind (Gives-get_ue16 15) λ hor _. Gives-bind (Gives-get_ue16 15) λ ver _.
          Gives-bind (Gives-get_ue16 16) λ reorder _. Gives-bind (Gives-get_ue16 16) λ buffering le.
            Gives-pure _ (
              buffering-Bounds b (omega arith) (omega (arith, le, b.refs_le, b.buffering_le))
                  (omega arith),
              e,
            )

  parse_vui_parameters-Good : (s : Sps) → Good n s → Gives (Good n) (parse_vui_parameters s)
  unfolding parse_vui_parameters
  parse_vui_parameters-Good s h = Gives-bind parse_display-Any λ _ _.
      Gives-bind (parse_timing-Good s h) λ s1 h1. Gives-bind (parse_hrds-Good s1 h1) λ s2 h2.
        Gives-bind Gives-get_u1 λ struct _. Gives-bind Gives-get_u1 λ restricted _.
          Gives-if (restricted == 0)
            (Gives-pure (record s2 { pic_struct_present_flag = struct }) h2)
            (parse_bitstream_restriction-Good (record s2 { pic_struct_present_flag = struct }) h2)

-- What is read up to the VUI and with it.
abbrev pub BodyOk : Body → Type 0
BodyOk b = Good b.inferred.max_num_ref_frames b.read × Limits b.inferred × (b.frames ≤ 16)

pub parse_body-ok : (nal max_pixels : ℕ) → Gives BodyOk (parse_body nal max_pixels)
unfolding parse_body
parse_body-ok nal max_pixels = Gives-bind (Gives-get_uv 8) λ profile _.
    Gives-bind (Gives-get_uv 8) λ flags _. Gives-bind (Gives-get_uv 8) λ level _.
      Gives-bind (Gives-get_ue16 31) λ id _.
        Gives-bind (parse_high-Fresh profile initial_sps initial) λ high h1.
          Gives-bind (parse_order-Ordered high.1 h1) λ ordered h2.
            Gives-bind
              (parse_size-Limits profile flags level (if nal == 15 then 1 else 0) ordered
                (if_elim (λ v. v ≤ 1) (nal == 15) (omega arith) (omega arith)) h2)
              λ sized h3. Gives-bind (parse_frame_cropping-Limits sized.1 h3.0) λ cropped h4.
                Gives-bind Gives-get_u1 λ vui _.
                  Gives-bind {P = Good cropped.max_num_ref_frames}
                    (Gives-if (vui == 0) (Gives-pure cropped (h4, refl))
                      (parse_vui_parameters-Good cropped.max_num_ref_frames cropped (h4, refl)))
                    λ read h5. Gives-pure _ (h5, h4, h3.1)
  where
    initial : Fresh initial_sps
    initial = (
      (refl, refl, refl, refl),
      All-replicate Weights 6 (replicate 16 16)
          (All-replicate Weight 16 16 (omega arith, omega arith)),
      All-replicate Weights 6 (replicate 64 16)
          (All-replicate Weight 64 16 (omega arith, omega arith)),
    )
