-- ===== src/Decoder.antt =====
-- The decoder's state: the fields of `Edge264MvcDecoder` (src/edge264mvc_internal.h) that reference
-- marking, output and reference lists read and write. An array over frame slots is a function of the
-- slot, an index or slot that may be -1 an option, and a field `x[2]` a function of the parity or view.
use edge264_mvc.Common.{
  ℕ, ◌-◌, Bool, ◌&&◌, ◌||◌, List, ◌∷◌, Option, some, ◌==◌, if◌then◌else◌, take,
}
use edge264_mvc.Common.Int.{ℤ, pos, ◌+ℤ◌, ◌-ℤ◌, ltb_ℤ, eq_ℤ, int32}
use edge264_mvc.Common.Masks.{FrameMask, max_frames}
use edge264_mvc.Bits.{GetBits}

pub record Decoder : Type 0 where
  pub gb : GetBits
  pub nal_unit_type : ℕ
  pub interlaced : Bool
  pub idr_pic_flag : Bool
  -- `currPic`, and whether the marking ran for it
  pub curr_pic : ℕ
  pub curr_pic_marked : Bool
  -- 0 for a frame, 1 plus bottom_field_flag for a field
  pub curr_field : ℕ
  pub field_slot : ℕ → Option ℕ
  -- 0, 1 or 2, see `leading_frames`
  pub resume_state : ℕ
  pub frame_num : ℤ
  pub prev_ref_frame_num : ℕ → ℤ
  pub top_field_order_cnt : ℤ
  pub bottom_field_order_cnt : ℤ
  pub next_dispnum : ℤ
  pub short_term_frames : FrameMask
  pub long_term_frames : FrameMask
  pub to_get_frames : FrameMask
  pub output_frames : FrameMask
  pub non_base_frames : FrameMask
  pub leading_frames : FrameMask
  pub short_term_fields : ℕ → FrameMask
  pub long_term_fields : ℕ → FrameMask
  pub frame_nums : ℕ → ℤ
  pub frame_ids : ℕ → ℤ
  pub disp_order : ℕ → ℤ
  pub au_base_ids : ℕ → ℕ → ℤ
  pub long_term_frame_idx : ℕ → ℕ
  pub field_order_cnt : ℕ → ℕ → ℤ
  pub get_frame_queue : ℕ → List (Option ℕ)

-- A write to an array.
abbrev pub update {ℓ} : {A : Type ℓ} → (ℕ → A) → ℕ → A → ℕ → A
update f p v q = if p == q then v else f q

-- `INT_MAX`
abbrev pub int_max : ℤ
int_max = pos 0x7fff_ffff

-- The lower of two values that may have wrapped around.
abbrev pub minw : ℤ → ℤ → ℤ
minw a b = if ltb_ℤ (int32 (a -ℤ b)) (pos 0) then a else b

-- PicOrderCnt of the frame in slot `i`, the lower of its fields in interlaced streams.
unfoldable pub frame_poc : Decoder → ℕ → ℤ
unfolding ◌-ℤ◌
frame_poc d i =
    if d.interlaced
    then minw (d.field_order_cnt 0 i) (d.field_order_cnt 1 i)
    else d.field_order_cnt 0 i

-- Whether the dependent view in slot `dep` is of the access unit of the base view in slot `base`.
unfoldable pub same_access_unit : Decoder → ℕ → ℕ → Bool
unfolding ◌+ℤ◌
same_access_unit d base dep =
    eq_ℤ (d.frame_nums base) (d.frame_nums dep)
    && eq_ℤ (d.field_order_cnt 0 base) (d.field_order_cnt 0 dep)
    && (eq_ℤ (int32 (d.frame_ids base +ℤ pos 1)) (d.au_base_ids 0 dep)
        || eq_ℤ (int32 (d.frame_ids base +ℤ pos 1)) (d.au_base_ids 1 dep))

-- `QUEUE_SIZE`
abbrev pub queue_size : ℕ
queue_size = max_frames

-- A picture is shifted in at the front of the queue of a view, and the last entry dropped.
unfoldable pub queue_push : Decoder → ℕ → ℕ → Decoder
queue_push d view pic = record d {
  get_frame_queue =
      update d.get_frame_queue view (some pic ∷ take (queue_size - 1) (d.get_frame_queue view));
}
