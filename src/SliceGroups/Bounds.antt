-- ===== src/SliceGroups/Bounds.antt =====
-- The slice group of every unit of a map.
use edge264_mvc.Common.{
  inl, inr, ◌⊎◌, ℕ, zero, suc, ◌+◌, ◌-◌, ◌*◌, ◌≤◌, ◌<◌, ◌≡◌, refl, min, max, Bool, true, false,
  ◌&&◌, not, List, [], ◌∷◌, Option, none, some, ◌==◌, ltb, leb, if◌then◌else◌, get_or, if_intro,
  if_elim, elim_intro, arith,
}
use native.Mathlib.Nat.{mod-lt}
use edge264_mvc.Common.Int.{pos_part}
use edge264_mvc.ParameterSets.Weights.{All}
use edge264_mvc.ParameterSets.{Pps}
use edge264_mvc.SliceGroups.{
  GroupMap, write_run, interleave_from, dispersed, write_rectangle, write_rectangles, Walk, move,
  address, write_unit, box_from, box_start, raster, wipe, explicit, group_map, derive_fmo_map,
}

either-lt : (b : Bool) (x y n : ℕ) → x < n → y < n → (if b then x else y) < n
either-lt b x y n p q = if_elim (λ z. z < n) b p q

-- The units below `size` are of groups below `n`.
abbrev pub Below : ℕ → ℕ → GroupMap → Type 0
Below n size m = (a : ℕ) → a < size → m a < n

interleave_from-Below :
    (fuel : ℕ) (pps : Pps) (size i group : ℕ) (m : GroupMap)
    → group < pps.num_slice_groups
    → ((a : ℕ) → a < i → a < size → m a < pps.num_slice_groups)
    → size ≤ i + fuel
    → Below pps.num_slice_groups size (interleave_from fuel pps size i group m)
unfolding interleave_from
interleave_from-Below zero pps size i group m g h enough = λ a lt. h a (omega arith) lt
interleave_from-Below (suc fuel) pps size i group m g h enough =
    let run = get_or pps.run_length_minus1 group 0 in
    let next = if ltb (suc group) pps.num_slice_groups then suc group else 0 in
    elim_intro (Below pps.num_slice_groups size) (ltb i size)
      (λ _.
        interleave_from-Below fuel pps size (i + run + 1) next (write_run size i run group m)
          (ground arith) (written run) (omega arith))
      (λ f a lt. h a (ground arith) lt)
  where
    written :
        (run a : ℕ)
        → a < i + run + 1
        → a < size
        → write_run size i run group m a < pps.num_slice_groups
    written run a near lt =
        unfold write_run in
        if_intro (λ z. z < pps.num_slice_groups) (leb i a && leb a (i + run) && ltb a size) (λ _. g)
          (λ f. h a (ground arith) lt)

write_rectangles-Below :
    (k n size : ℕ) (pps : Pps) (w h : ℕ) (m : GroupMap)
    → k ≤ n
    → Below n size m
    → Below n size (write_rectangles k pps w h m)
unfolding write_rectangles write_rectangle
write_rectangles-Below zero n size pps w h m le b = b
write_rectangles-Below (suc k) n size pps w h m le b =
    write_rectangles-Below k n size pps w h (write_rectangle pps w h k m) (omega arith)
      (λ a lt. either-lt _ k (m a) n (omega arith) (b a lt))

box_from-Below :
    (fuel k n size : ℕ) (flag : Bool) (w h : ℕ) (s : Walk) (m : GroupMap)
    → 0 < n
    → Below n size m
    → Below n size (box_from fuel k flag w h s m)
unfolding box_from write_unit
box_from-Below zero k n size flag w h s m pos b = b
box_from-Below (suc fuel) zero n size flag w h s m pos b = b
box_from-Below (suc fuel) (suc k) n size flag w h s m pos b =
    elim_intro (Below n size) (m (pos_part (address w s)) == 1)
      (λ _.
        box_from-Below fuel k n size flag w h (move flag w h s)
          (write_unit (pos_part (address w s)) 0 m) pos
          (λ a lt. if_elim (λ z. z < n) (a == pos_part (address w s)) pos (b a lt)))
      (λ _. box_from-Below fuel (suc k) n size flag w h (move flag w h s) m pos b)

get_or-Below : (n : ℕ) (l : List ℕ) (i : ℕ) → 0 < n → All (λ id. id < n) l → get_or l i 0 < n
get_or-Below n [] i pos h = pos
get_or-Below n (x ∷ l) zero pos h = h.0
get_or-Below n (x ∷ l) (suc i) pos h = get_or-Below n l i pos h.1

-- The slice_group_ids of a set, where it has them.
abbrev pub IdsBelow : ℕ → Option (List ℕ) → Type 0
IdsBelow n none = Unit {0}
IdsBelow n (some l) = All (λ id. id < n) l

module _ (pps : Pps) (ids : Option (List ℕ)) (w h cycle : ℕ) (m : GroupMap)
    (groups : 1 < pps.num_slice_groups) (direction : pps.slice_group_change_direction_flag ≤ 1)
    (known : IdsBelow pps.num_slice_groups ids) where
  explicit-Below :
      (o : Option (List ℕ))
      → IdsBelow pps.num_slice_groups o
      → Below pps.num_slice_groups (w * h) (explicit pps.pic_size_in_map_units o)
  unfolding explicit
  explicit-Below none k a lt = omega arith
  explicit-Below (some l) k a lt =
      either-lt _ (get_or l a 0) 0 pps.num_slice_groups
        (get_or-Below pps.num_slice_groups l a (omega arith) k) (omega arith)

  either-Below :
      (upper_left : ℕ)
      → Below pps.num_slice_groups (w * h) (raster pps.slice_group_change_direction_flag upper_left)
        × Below pps.num_slice_groups
            (w * h)
            (wipe pps.slice_group_change_direction_flag upper_left w h)
  unfolding raster wipe
  either-Below upper_left =
      let flag = pps.slice_group_change_direction_flag in
      (
        λ a lt. either-lt _ flag (1 - flag) pps.num_slice_groups (omega arith) (omega arith),
        λ a lt. either-lt _ flag (1 - flag) pps.num_slice_groups (omega arith) (omega arith),
      )

  group_map-Below : Below pps.num_slice_groups (w * h) (group_map pps ids w h cycle m)
  unfolding group_map dispersed
  group_map-Below =
      let n = pps.num_slice_groups in
      let flag = pps.slice_group_change_direction_flag in
      let units0 = min (cycle * pps.slice_group_change_rate) (w * h) in
      let upper_left = if flag == 0 then units0 else w * h - units0 in
      let P = Below n (w * h) in
      let type = pps.slice_group_map_type in
      if_elim P (type == 0)
        (interleave_from-Below (w * h) pps (w * h) 0 0 m (omega arith)
          (λ a lt. absurd (omega arith)) (omega arith))
        (if_elim P (type == 1) (λ a lt. mod-lt _ (omega arith))
          (if_elim P (type == 2)
            (write_rectangles-Below (n - 1) n (w * h) pps w h _ (omega arith) (λ a lt. omega arith))
            (if_elim P (type == 3)
              (box_from-Below (8 * (w * h) + 16) units0 n (w * h) (flag == 1) w h
                (box_start flag w h) (λ a. 1) (omega arith) (λ a lt. groups))
              (if_elim P (type == 4) (either-Below upper_left).0
                (if_elim P (type == 5) (either-Below upper_left).1 (explicit-Below ids known))))))

  -- For more than one slice group, a direction flag of 0 or 1, and slice_group_ids below the number of
  -- groups, the map is derived where it already has the size or realloc succeeds, whatever its type, and
  -- every unit of the picture is then of one of the groups.
  pub derive_fmo_map-Below :
      (reallocates : ℕ → Bool) (held : ℕ)
      → (w * h ≤ held) ⊎ (reallocates (w * h) ≡ true)
      → (r : ℕ × GroupMap) × (derive_fmo_map reallocates held m pps ids w h cycle ≡ some r)
        × (w * h ≤ r.0)
        × Below pps.num_slice_groups (w * h) r.1
  unfolding derive_fmo_map
  derive_fmo_map-Below reallocates held room =
      let grown : (ltb held (w * h) && not (reallocates (w * h))) ≡ false = elim room [
        | inl le ↦ ground (arith, le)
        | inr ok ↦ ground (arith, ok)
      ] in
      (
        (max held (w * h), group_map pps ids w h cycle m),
        rw grown refl,
        omega arith,
        group_map-Below,
      )
