-- ===== src/Admission/Tests.antt =====
-- A third picture enters where the stream reorders two.
use edge264_mvc.Common.{◌≤◌, ◌≡◌, refl, arith}
use edge264_mvc.Common.Masks.{mask_popcount, empty}
use edge264_mvc.ParameterSets.{Sps}
use edge264_mvc.ParameterSets.SpsParser.{initial_sps}
use edge264_mvc.Admission.{admit}
use edge264_mvc.Admission.Reorder.{base_waiting, admit-reorder}
use edge264_mvc.Tests.{two_frames}

abbrev reorder_two : Sps
reorder_two = record initial_sps {
  max_num_ref_frames = 2;
  max_dec_frame_buffering = 4;
  max_num_reorder_frames = 2;
}

two_frames-waiting : mask_popcount (base_waiting two_frames) ≡ 2
unfolding mask_popcount
two_frames-waiting = refl

admit-reorder_example :
    mask_popcount (base_waiting (admit two_frames 0 empty empty 1 reorder_two)) ≤ 2
admit-reorder_example =
    admit-reorder two_frames empty empty 1 reorder_two (omega (arith, two_frames-waiting))
