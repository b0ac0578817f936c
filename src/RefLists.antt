-- ===== src/RefLists.antt =====
-- Reference lists (8.2.4): `parse_ref_pic_list_modification` of src/edge264mvc_headers.c, from the
-- initial lists of frames and fields to the lists that the slice uses.
pub mod Initial
pub mod Fields
pub mod Modify
pub mod Fix
pub mod Whole
pub mod Valid
use edge264_mvc.Common.{ℕ, Bool, true, false, List, Option, some, none, ◌==◌}

-- What the function reads and writes beside the decoder's marking: the slice (`Edge264MvcTask`) with
-- its two lists of 32 entries, `none` for a negative one, and the decoder's prev_LongTermFrameIdx,
-- basePic and currVp.
pub record Slice : Type 0 where
  -- 0 for P, 1 for B
  pub slice_type : ℕ
  pub field_pic_flag : Bool
  pub bottom_field_flag : ℕ
  pub num_ref_idx_active : ℕ → ℕ
  pub ref_pic_list : ℕ → List (Option ℕ)
  pub prev_long_term_frame_idx : ℕ → ℕ
  pub base_pic : Option ℕ
  pub curr_vp : Option ℕ

-- Entries are equal as numbers.
abbrev pub same_entry : Option ℕ → Option ℕ → Bool
same_entry none none = true
same_entry none (some b) = false
same_entry (some a) none = false
same_entry (some a) (some b) = a == b
