-- ===== src/SliceGroups/Tests.antt =====
-- Two slice groups in a picture of 3 by 2 macroblocks.
use edge264_mvc.Common.{inr, ℕ, ◌≤◌, ◌≡◌, refl, true, List, [], ◌∷◌, none, some, arith}
use edge264_mvc.Common.Int.{pos, ◌≤ℤ◌, ◌<ℤ◌}
use edge264_mvc.ParameterSets.{Pps}
use edge264_mvc.ParameterSets.PpsParser.{initial_pps}
use edge264_mvc.SliceGroups.{GroupMap, derive_fmo_map, address, box_start, group_map}
use edge264_mvc.SliceGroups.Bounds.{Below, derive_fmo_map-Below}
use edge264_mvc.SliceGroups.Inside.{steps, steps_inside}

abbrev box_out : Pps
box_out = record initial_pps {
  num_slice_groups = 2;
  slice_group_map_type = 3;
  slice_group_change_rate = 2;
}

derive_fmo_map-Below_example :
    (r : ℕ × GroupMap) × (derive_fmo_map (λ size. true) 0 (λ a. 255) box_out none 3 2 1 ≡ some r)
    × (6 ≤ r.0)
    × Below 2 6 r.1
derive_fmo_map-Below_example =
    derive_fmo_map-Below box_out none 3 2 1 (λ a. 255) (omega arith) (omega arith) tt (λ size. true)
      0 (inr refl)

steps_inside_example :
    let s = steps true 3 2 4 (box_start 1 3 2) in
    (pos 0 ≤ℤ s.x)
    × (s.x <ℤ pos 3)
    × (pos 0 ≤ℤ s.y)
    × (s.y <ℤ pos 2)
    × (pos 0 ≤ℤ address 3 s)
    × (address 3 s <ℤ pos 6)
steps_inside_example = steps_inside 3 2 4 true (omega arith) (omega arith)

abbrev units : GroupMap → List ℕ
units m = m 0 ∷ m 1 ∷ m 2 ∷ m 3 ∷ m 4 ∷ m 5 ∷ []

-- The first two units of the walk are of group 0.
box_out-units : units (group_map box_out none 3 2 1 (λ a. 255)) ≡ 1 ∷ 1 ∷ 1 ∷ 0 ∷ 0 ∷ 1 ∷ []
unfolding group_map
box_out-units = refl
