-- ===== src/SliceGroups.antt =====
-- Slice groups of macroblocks (8.2.2): `derive_fmo_map` of src/edge264mvc_headers.c.
pub mod Bounds
pub mod Inside
pub mod Tests
use edge264_mvc.Common.{
  ℕ, zero, suc, ◌+◌, ◌-◌, ◌*◌, ◌/◌, ◌%◌, min, max, Bool, true, false, not, ◌&&◌, ◌||◌, List, [],
  ◌∷◌, Option, none, some, ◌==◌, ltb, leb, if◌then◌else◌, get_or,
}
use edge264_mvc.Common.Int.{ℤ, pos, pos_part, ◌+ℤ◌, ◌-ℤ◌, ◌*ℤ◌, min_ℤ, max_ℤ, eq_ℤ}
use edge264_mvc.ParameterSets.{Pps}

-- The slice group of a map unit, at its address.
abbrev pub GroupMap : Type 0
GroupMap = ℕ → ℕ

-- `for (int j = 0; j <= run && i + j < size; j++) map[i + j] = group;`
unfoldable pub write_run : ℕ → ℕ → ℕ → ℕ → GroupMap → GroupMap
write_run size i run group m a = if leb i a && leb a (i + run) && ltb a size then group else m a

-- The two loops as one: a round for each run. A run has one unit at least, so `size` rounds are enough.
unfoldable pub interleave_from : ℕ → Pps → ℕ → ℕ → ℕ → GroupMap → GroupMap
unfolding write_run
interleave_from zero pps size i group m = m
interleave_from (suc fuel) pps size i group m =
    let run = get_or pps.run_length_minus1 group 0 in
    let next = if ltb (suc group) pps.num_slice_groups then suc group else 0 in
    elim (ltb i size) [
      | true ↦ interleave_from fuel pps size (i + run + 1) next (write_run size i run group m)
      | false ↦ m
    ]

unfoldable pub dispersed : ℕ → ℕ → GroupMap
dispersed n w a = (a % w + a / w * n / 2) % n

-- Rectangle `group`, in rows below `h`.
unfoldable pub write_rectangle : Pps → ℕ → ℕ → ℕ → GroupMap → GroupMap
write_rectangle pps w h group m a =
    let top_left = get_or pps.top_left group 0 in
    let bottom_right = get_or pps.bottom_right group 0 in
    if leb (top_left / w) (a / w)
      && leb (a / w) (bottom_right / w)
      && ltb (a / w) h
      && leb (top_left % w) (a % w)
      && leb (a % w) (bottom_right % w)
    then group
    else m a

-- `for (int iGroup = k - 1; iGroup >= 0; iGroup--)`
unfoldable pub write_rectangles : ℕ → Pps → ℕ → ℕ → GroupMap → GroupMap
unfolding write_rectangle
write_rectangles zero pps w h m = m
write_rectangles (suc k) pps w h m = write_rectangles k pps w h (write_rectangle pps w h k m)

-- `xDir` and `yDir`
pub data Dir : Type 0 where
  left : Dir
  right : Dir
  up : Dir
  down : Dir

pub record Walk : Type 0 where
  pub x : ℤ
  pub y : ℤ
  pub left_bound : ℤ
  pub top_bound : ℤ
  pub right_bound : ℤ
  pub bottom_bound : ℤ
  pub dir : Dir

-- The turn at a bound, which the walk moves out by a unit, or a step ahead.
unfoldable pub move_to : Dir → Bool → ℕ → ℕ → Walk → Walk
unfolding ◌+ℤ◌ ◌-ℤ◌
move_to left flag w h s =
    let bound = max_ℤ (s.left_bound -ℤ pos 1) (pos 0) in
    if eq_ℤ s.x s.left_bound
    then record s { left_bound = bound; x = bound; dir = if flag then Dir.down else Dir.up }
    else record s { x = s.x -ℤ pos 1 }
move_to right flag w h s =
    let bound = min_ℤ (s.right_bound +ℤ pos 1) (pos w -ℤ pos 1) in
    if eq_ℤ s.x s.right_bound
    then record s { right_bound = bound; x = bound; dir = if flag then Dir.up else Dir.down }
    else record s { x = s.x +ℤ pos 1 }
move_to up flag w h s =
    let bound = max_ℤ (s.top_bound -ℤ pos 1) (pos 0) in
    if eq_ℤ s.y s.top_bound
    then record s { top_bound = bound; y = bound; dir = if flag then Dir.left else Dir.right }
    else record s { y = s.y -ℤ pos 1 }
move_to down flag w h s =
    let bound = min_ℤ (s.bottom_bound +ℤ pos 1) (pos h -ℤ pos 1) in
    if eq_ℤ s.y s.bottom_bound
    then record s { bottom_bound = bound; y = bound; dir = if flag then Dir.right else Dir.left }
    else record s { y = s.y +ℤ pos 1 }

unfoldable pub move : Bool → ℕ → ℕ → Walk → Walk
unfolding move_to
move flag w h s = move_to s.dir flag w h s

-- y * w + x
unfoldable pub address : ℕ → Walk → ℤ
unfolding ◌+ℤ◌ ◌*ℤ◌
address w s = s.y *ℤ pos w +ℤ s.x

unfoldable pub write_unit : ℕ → ℕ → GroupMap → GroupMap
write_unit at group m a = if a == at then group else m a

-- `k` units are left of group 0, and `fuel` steps of the source's bound. A map has no unit at a negative
-- address, and Inside shows that the walk has none.
unfoldable pub box_from : ℕ → ℕ → Bool → ℕ → ℕ → Walk → GroupMap → GroupMap
unfolding move address write_unit
box_from zero k flag w h s m = m
box_from (suc fuel) zero flag w h s m = m
box_from (suc fuel) (suc k) flag w h s m =
    let at = pos_part (address w s) in
    elim (m at == 1) [
      | true ↦ box_from fuel k flag w h (move flag w h s) (write_unit at 0 m)
      | false ↦ box_from fuel (suc k) flag w h (move flag w h s) m
    ]

-- The sizes are 1 at least, so that (w - flag) / 2 has nothing negative.
unfoldable pub box_start : ℕ → ℕ → ℕ → Walk
box_start flag w h = record {
  x = pos ((w - flag) / 2);
  y = pos ((h - flag) / 2);
  left_bound = pos ((w - flag) / 2);
  top_bound = pos ((h - flag) / 2);
  right_bound = pos ((w - flag) / 2);
  bottom_bound = pos ((h - flag) / 2);
  dir = if flag == 1 then Dir.down else Dir.left;
}

-- `upper_left` units of group `flag`, then the other one, in raster order or by columns.
unfoldable pub raster : ℕ → ℕ → GroupMap
raster flag upper_left a = if ltb a upper_left then flag else 1 - flag

unfoldable pub wipe : ℕ → ℕ → ℕ → ℕ → GroupMap
wipe flag upper_left w h a = if ltb (a % w * h + a / w) upper_left then flag else 1 - flag

unfoldable pub explicit : ℕ → Option (List ℕ) → GroupMap
explicit coded none a = 0
explicit coded (some ids) a = if ltb a coded then get_or ids a 0 else 0

-- The map of a picture of `w` by `h` units. `ids` are the slice_group_ids, `m` what the map held.
unfoldable pub group_map : Pps → Option (List ℕ) → ℕ → ℕ → ℕ → GroupMap → GroupMap
unfolding interleave_from dispersed write_rectangles box_from box_start raster wipe explicit
group_map pps ids w h cycle m =
    let size = w * h in
    let n = pps.num_slice_groups in
    let flag = pps.slice_group_change_direction_flag in
    let units0 = min (cycle * pps.slice_group_change_rate) size in
    let upper_left = if flag == 0 then units0 else size - units0 in
    let type = pps.slice_group_map_type in
    if type == 0
    then interleave_from size pps size 0 0 m
    else (if type == 1
        then dispersed n w
        else (if type == 2
            then write_rectangles (n - 1) pps w h (λ a. n - 1)
            else (if type == 3
                then box_from (8 * size + 16) units0 (flag == 1) w h (box_start flag w h) (λ a. 1)
                else (if type == 4
                    then raster flag upper_left
                    else (if type == 5
                        then wipe flag upper_left w h
                        else explicit pps.pic_size_in_map_units ids)))))

-- `none` is the result ENOMEM. The map of the slot has `held` units, and realloc grows it.
unfoldable pub derive_fmo_map :
    (ℕ → Bool) → ℕ → GroupMap → Pps → Option (List ℕ) → ℕ → ℕ → ℕ → Option (ℕ × GroupMap)
unfolding group_map
derive_fmo_map reallocates held m pps ids w h cycle =
    if ltb held (w * h) && not (reallocates (w * h))
    then none
    else some (max held (w * h), group_map pps ids w h cycle m)
