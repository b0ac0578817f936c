-- ===== src/Admission/Keeps.antt =====
-- The entry of the current picture keeps what the output queues hold.
use edge264_mvc.Common.{
  ℕ, zero, suc, ◌<◌, ◌≡◌, refl, sym, Bool, true, false, arith, ◌==◌, ==_iff, ltb, inl, inr,
  Bool-cases, if_intro, if_elim, elim_intro,
}
use mathlib.Core.Path.{subst}
use edge264_mvc.Common.Masks.{FrameMask, max_frames, bit, ◌∪◌, mask_popcount, empty}
use edge264_mvc.Decoder.{Decoder, queue_push}
use edge264_mvc.ParameterSets.{Sps}
use edge264_mvc.Output.{bump_frame, emit}
use edge264_mvc.Output.Bump.{bump_frame_lem}
use edge264_mvc.Frames.Queues.{Queued, push-QueuesOk, grow-QueuesOk}
use edge264_mvc.Frames.Keep.{waiting_bits, bump_frame-Queued}
use edge264_mvc.Admission.{undrained, bump_at_most, max_bump, enter, admit}

-- The current picture neither awaits delivery nor is held by the caller.
record Ready (view cur : ℕ) (d : Decoder) : Type 0 where
  pub queued : Queued d
  pub to_get : d.to_get_frames cur ≡ false
  pub output : d.output_frames cur ≡ false
  pub view_bit : d.non_base_frames cur ≡ (view == 1)
  pub current : d.curr_pic ≡ cur

module _ (view cur : ℕ) (lt : view < 2) where
  emit-output :
      (d : Decoder) (p : ℕ)
      → d.to_get_frames p ≡ true
      → d.to_get_frames cur ≡ false
      → d.output_frames cur ≡ false
      → (d.output_frames ∪ bit p) cur ≡ false
  emit-output d p g c o = elim (Bool-cases (cur == p)) [
    | inl e ↦ let a = subst (λ z. d.to_get_frames z ≡ true) (sym ((==_iff cur p).0 e)) g in cc
    | inr e ↦ ground arith
  ]

  bump_frame-Ready : (d : Decoder) → Ready view cur d → Ready view cur (bump_frame d view empty).1
  unfolding emit queue_push
  bump_frame-Ready d h = elim (bump_frame_lem d view empty) [
    | inl (p, in_range, el, best, e) ↦
        let q = bump_frame-Queued d view empty lt h.queued in
        subst (λ (r : Bool × Decoder). Queued r.1 → Ready view cur r.1) (sym e)
          (λ q'. record {
            queued = q';
            to_get = h.to_get;
            output = emit-output d p (waiting_bits d view empty p lt el).0 h.to_get h.output;
            view_bit = h.view_bit;
            current = h.current;
          })
          q
    | inr (idle, e) ↦ subst (λ (r : Bool × Decoder). Ready view cur r.1) (sym e) h
  ]

  bump_at_most-Ready :
      (n : ℕ) (refs : FrameMask) (limit : ℕ) (d : Decoder)
      → Ready view cur d
      → Ready view cur (bump_at_most n refs limit view d).1
  unfolding bump_at_most
  bump_at_most-Ready zero refs limit d h = h
  bump_at_most-Ready (suc n) refs limit d h =
      elim_intro (λ (r : Bool × Decoder). Ready view cur r.1)
        (ltb limit (mask_popcount (refs ∪ undrained d)))
        (λ _. bump_at_most-Ready n refs limit (bump_frame d view empty).1 (bump_frame-Ready d h))
        (λ _. h)

  enter-Queued :
      (sps : Sps) (r : Bool × Decoder)
      → cur < max_frames
      → Ready view cur r.1
      → Queued (enter view sps r)
  unfolding enter emit queue_push
  enter-Queued sps (immediate, d0) in_range h =
      let c = d0.curr_pic in
      let g = d0.to_get_frames ∪ bit c in
      let d = record d0 { to_get_frames = g } in
      let grown =
        grow-QueuesOk d0.to_get_frames g d0.output_frames d0.non_base_frames d0.get_frame_queue
          (λ x t. rw t refl) h.queued in
      let r = subst (λ z. z < max_frames) (sym h.current) in_range in
      let self : (c == c) ≡ true = ground arith in
      if_elim Queued immediate
        (push-QueuesOk g d.output_frames d.non_base_frames d.get_frame_queue grown view c lt 127 r
          (ground arith) (subst (λ z. d.output_frames z ≡ false) (sym h.current) h.output)
          (subst (λ z. d.non_base_frames z ≡ (view == 1)) (sym h.current) h.view_bit))
        (if_elim Queued _ (bump_frame-Queued d view empty lt grown) grown)

-- The current picture enters the decoded picture buffer, and the queues hold what they should.
pub admit-Queued :
    (d : Decoder) (view : ℕ) (prev_short prev_long : FrameMask) (nal_ref_idc : ℕ) (sps : Sps)
    → view < 2
    → d.curr_pic < max_frames
    → d.output_frames d.curr_pic ≡ false
    → d.non_base_frames d.curr_pic ≡ (view == 1)
    → Queued d
    → Queued (admit d view prev_short prev_long nal_ref_idc sps)
unfolding admit
admit-Queued d view prev_short prev_long nal_ref_idc sps lt in_range out v h =
    if_intro Queued (d.to_get_frames d.curr_pic) (λ _. h)
      (λ waits. enter-Queued view d.curr_pic lt sps _ in_range (
        bump_at_most-Ready view d.curr_pic lt (max_bump d view nal_ref_idc sps) _ _ d
          (record { queued = h; to_get = waits; output = out; view_bit = v; current = refl })))
