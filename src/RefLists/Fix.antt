-- ===== src/RefLists/Fix.antt =====
-- The last part: entries that refer to no picture, or to the current one, are replaced.
use edge264_mvc.Common.{
  ℕ, zero, suc, Bool, false, not, ◌&&◌, List, [], ◌∷◌, Option, some, none, ltb, if◌then◌else◌,
}
use edge264_mvc.Common.Masks.{max_frames}
use edge264_mvc.Decoder.{update}
use edge264_mvc.RefLists.{Slice, same_entry}

-- (unsigned)entry < MAX_FRAMES && entry != dec->currVp
unfoldable pub is_usable : Option ℕ → Option ℕ → Bool
is_usable curr_vp none = false
is_usable curr_vp (some p) = ltb p max_frames && not (same_entry (some p) curr_vp)

-- `valid`: the first usable entry among the active ones.
unfoldable pub first_usable : Option ℕ → ℕ → List (Option ℕ) → Option ℕ
unfolding is_usable
first_usable curr_vp zero list = none
first_usable curr_vp (suc n) [] = none
first_usable curr_vp (suc n) (e ∷ list) =
    let rest = first_usable curr_vp n list in if is_usable curr_vp e then e else rest

unfoldable pub replace_unusable : Option ℕ → Option ℕ → ℕ → List (Option ℕ) → List (Option ℕ)
unfolding is_usable
replace_unusable curr_vp valid zero list = list
replace_unusable curr_vp valid (suc n) [] = []
replace_unusable curr_vp valid (suc n) (e ∷ list) =
    (if is_usable curr_vp e then e else valid) ∷ replace_unusable curr_vp valid n list

-- A list with `active` entries in use, or `none` for EBADMSG.
unfoldable pub fix_list : Option ℕ → ℕ → List (Option ℕ) → Option (List (Option ℕ))
unfolding first_usable replace_unusable
fix_list curr_vp active list = elim (first_usable curr_vp active list) [
  | none ↦ none
  | some v ↦ some (replace_unusable curr_vp (some v) active list)
]

-- The lists from `l` on, `n` of them.
unfoldable pub fix_from : ℕ → ℕ → Slice → Option Slice
unfolding fix_list
fix_from zero l s = some s
fix_from (suc n) l s = elim (fix_list s.curr_vp (s.num_ref_idx_active l) (s.ref_pic_list l)) [
  | none ↦ none
  | some list ↦ fix_from n (suc l) (record s { ref_pic_list = update s.ref_pic_list l list })
]

-- for (int l = 0; l <= t->slice_type; l++)
unfoldable pub fix_lists : Slice → Option Slice
unfolding fix_from
fix_lists s = fix_from (suc s.slice_type) 0 s
