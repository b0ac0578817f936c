-- ===== src/Admission/Reorder.antt =====
-- How many pictures of the base view wait for output when one enters (C.4.5.3).
use edge264_mvc.Common.{
  ℕ, zero, suc, ◌≤◌, ◌<◌, ◌≡◌, refl, sym, ap, Bool, true, arith, ltb, inl, inr, ◌⊎◌, if_intro,
  if_elim, elim_intro,
}
use mathlib.Core.Path.{subst}
use edge264_mvc.Common.Masks.{FrameMask, max_frames, bit, ◌∩◌, ◌∪◌, ◌∖◌, mask_popcount, empty}
use edge264_mvc.Common.Masks.Count.{popcount_mono, popcount_add, popcount_remove, popcount-none}
use edge264_mvc.Decoder.{Decoder, queue_push}
use edge264_mvc.ParameterSets.{Sps}
use edge264_mvc.Output.{same_views, bump_frame, emit}
use edge264_mvc.Output.Bump.{bump_frame_lem}
use edge264_mvc.Admission.{undrained, bump_at_most, max_bump, reference_frames, enter, admit}

-- The pictures of the base view that wait.
abbrev pub base_waiting : Decoder → FrameMask
base_waiting d = undrained d ∩ same_views d 0

-- One call of bump_frame takes a picture from those that wait, unless there is none.
abbrev Fewer : Decoder → Decoder → Type 0
Fewer d d' =
    (suc (mask_popcount (base_waiting d')) ≤ mask_popcount (base_waiting d))
    ⊎ ((mask_popcount (base_waiting d) ≡ 0) × (d' ≡ d))

emit-waiting :
    (d : Decoder) (p : ℕ)
    → p < max_frames
    → base_waiting d p ≡ true
    → suc (mask_popcount (base_waiting (emit d 0 p))) ≤ mask_popcount (base_waiting d)
unfolding emit queue_push
emit-waiting d p in_range w = omega (
  arith,
  popcount_remove p (base_waiting d) in_range w,
  popcount_mono (base_waiting (emit d 0 p)) (base_waiting d ∖ bit p) (λ i t. ground arith),
)

bump_frame-waiting : (d : Decoder) → Fewer d (bump_frame d 0 empty).1
bump_frame-waiting d = elim (bump_frame_lem d 0 empty) [
  | inl (p, in_range, el, best, e) ↦
      subst (λ (r : Bool × Decoder). Fewer d r.1) (sym e)
        (inl (emit-waiting d p in_range (ground arith)))
  | inr (idle, e) ↦
      subst (λ (r : Bool × Decoder). Fewer d r.1) (sym e)
        (inr (popcount-none (base_waiting d) (λ i lt. let n = idle i lt in ground arith), refl))
]

-- Nothing is added to those that wait.
bump_frame-fewer :
    (d : Decoder)
    → mask_popcount (base_waiting (bump_frame d 0 empty).1) ≤ mask_popcount (base_waiting d)
bump_frame-fewer d = elim (bump_frame-waiting d) [
  | inl less ↦ omega arith
  | inr (none_waits, same) ↦
      let a = ap (λ (e : Decoder). mask_popcount (base_waiting e)) same in omega arith
]

bump_at_most-fewer :
    (n : ℕ) (refs : FrameMask) (limit : ℕ) (d : Decoder)
    → mask_popcount (base_waiting (bump_at_most n refs limit 0 d).1)
      ≤ mask_popcount (base_waiting d)
unfolding bump_at_most
bump_at_most-fewer zero refs limit d = omega arith
bump_at_most-fewer (suc n) refs limit d =
    elim_intro
      (λ (r : Bool × Decoder). mask_popcount (base_waiting r.1) ≤ mask_popcount (base_waiting d))
      (ltb limit (mask_popcount (refs ∪ undrained d)))
      (λ _.
        omega (arith, bump_at_most-fewer n refs limit (bump_frame d 0 empty).1, bump_frame-fewer d))
      (λ _. omega arith)

enter-reorder :
    (sps : Sps) (r : Bool × Decoder)
    → mask_popcount (base_waiting r.1) ≤ sps.max_num_reorder_frames
    → mask_popcount (base_waiting (enter 0 sps r)) ≤ sps.max_num_reorder_frames
unfolding enter emit queue_push
enter-reorder sps (immediate, d0) h =
    let d = record d0 { to_get_frames = d0.to_get_frames ∪ bit d0.curr_pic } in
    let more =
      popcount_mono (base_waiting d) (base_waiting d0 ∪ bit d0.curr_pic) (λ i t. ground arith) in
    let one = popcount_add d0.curr_pic (base_waiting d0) in
    if_elim (λ e. mask_popcount (base_waiting e) ≤ sps.max_num_reorder_frames) immediate
      (omega (
        arith,
        popcount_mono (base_waiting (emit d 0 d0.curr_pic)) (base_waiting d0) (λ i t. ground arith),
      ))
      (if_intro (λ e. mask_popcount (base_waiting e) ≤ sps.max_num_reorder_frames)
        (ltb sps.max_num_reorder_frames (mask_popcount (undrained d ∩ same_views d 0)))
        (λ _. elim (bump_frame-waiting d) [
          | inl less ↦ omega arith
          | inr (none_waits, same) ↦
              let a = ap (λ (e : Decoder). mask_popcount (base_waiting e)) same in omega arith
        ])
        (λ f. ground arith))

-- Where no more pictures of the base view wait than max_num_reorder_frames, the entry of a picture of
-- that view leaves it so, whatever the references and the state of the buffer.
pub admit-reorder :
    (d : Decoder) (prev_short prev_long : FrameMask) (nal_ref_idc : ℕ) (sps : Sps)
    → mask_popcount (base_waiting d) ≤ sps.max_num_reorder_frames
    → mask_popcount (base_waiting (admit d 0 prev_short prev_long nal_ref_idc sps))
      ≤ sps.max_num_reorder_frames
unfolding admit
admit-reorder d prev_short prev_long nal_ref_idc sps h =
    if_elim (λ e. mask_popcount (base_waiting e) ≤ sps.max_num_reorder_frames)
      (d.to_get_frames d.curr_pic) h
      (let n = max_bump d 0 nal_ref_idc sps in
        let refs = reference_frames d 0 prev_short prev_long in
        let limit = sps.max_dec_frame_buffering in
        enter-reorder sps (bump_at_most n refs limit 0 d)
          (omega (arith, bump_at_most-fewer n refs limit d)))
