-- ===== src/RefLists/Whole.antt =====
-- `parse_ref_pic_list_modification` as a whole.
use edge264_mvc.Common.{ℕ, zero, suc, ◌+◌, ◌*◌, Option, some, none, ◌==◌, if◌then◌else◌, set}
use edge264_mvc.Common.Masks.{field_id}
use edge264_mvc.Parser.{Parser, ◌>>=◌, pure}
use edge264_mvc.Decoder.{Decoder, update}
use edge264_mvc.ParameterSets.{Sps}
use edge264_mvc.RefLists.{Slice}
use edge264_mvc.RefLists.Initial.{init_frame_lists, swap_identical}
use edge264_mvc.RefLists.Fields.{init_field_lists}
use edge264_mvc.RefLists.Modify.{modify_list}
use edge264_mvc.RefLists.Fix.{fix_lists}

-- The initial lists and their size: none in an IDR picture.
unfoldable pub init_lists : Decoder → Sps → Slice → ℕ × Slice
unfolding init_frame_lists init_field_lists swap_identical
init_lists d sps s =
    if d.idr_pic_flag
    then (0, swap_identical 0 s)
    else (let (size, s') =
          if s.field_pic_flag then init_field_lists d sps s else init_frame_lists d sps s in
        (size, swap_identical size s'))

-- The inter-view reference, of a field the base field of its parity.
unfoldable pub inter_view : Slice → Option ℕ
inter_view s = elim s.base_pic [ none ↦ none | some b ↦ some (b + s.bottom_field_flag * field_id) ]

-- The dependent view appends it to both lists.
unfoldable pub append_inter_view : Decoder → ℕ → Slice → Slice
unfolding inter_view
append_inter_view d size s =
    if d.nal_unit_type == 20
    then record s {
      ref_pic_list =
          update (update s.ref_pic_list 0 (set (s.ref_pic_list 0) size (inter_view s))) 1
            (set (s.ref_pic_list 1) size (inter_view s));
    }
    else s

-- The lists from `l` on, `n` of them.
unfoldable pub modify_lists : ℕ → ℕ → Decoder → Sps → Slice → Parser Slice
unfolding modify_list inter_view
modify_lists zero l d sps s = pure s
modify_lists (suc n) l d sps s = do
  s' ← modify_list d sps (inter_view s) l s
  modify_lists n (suc l) d sps s'

-- `none` is EBADMSG.
unfoldable pub parse_ref_pic_list_modification : Decoder → Sps → Slice → Parser (Option Slice)
unfolding init_lists append_inter_view modify_lists fix_lists
parse_ref_pic_list_modification d sps s = do
  let (size, initial) = init_lists d sps s
  modified ← modify_lists (suc s.slice_type) 0 d sps (append_inter_view d size initial)
  pure (fix_lists modified)
