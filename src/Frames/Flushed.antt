-- ===== src/Frames/Flushed.antt =====
-- The queues after a flush hold what they should.
use edge264_mvc.Common.{
  ℕ, zero, suc, ◌<◌, ◌≡◌, true, false, ◌||◌, arith, inl, inr, ltb, elim_intro, Bool-cases,
}
use edge264_mvc.Common.Masks.{FrameMask, max_frames, empty, ◌∖◌}
use edge264_mvc.Decoder.{Decoder, queue_size}
use edge264_mvc.Output.{bump_frame}
use edge264_mvc.Frames.{Player, queue_len}
use edge264_mvc.Frames.Queues.{AllSome-map, Queued, Entry}
use edge264_mvc.Frames.Keep.{bump_frame-Queued}
use edge264_mvc.Frames.Flush.{bump_both_from, bump_into_from, baseless, unblock_output}

pub bump_both_from-Queued : (fuel : ℕ) (d : Decoder) → Queued d → Queued (bump_both_from fuel d)
unfolding bump_both_from
bump_both_from-Queued zero d h = h
bump_both_from-Queued (suc fuel) d h =
    let d1 = (bump_frame d 0 empty).1 in
    let d2 = (bump_frame d1 1 empty).1 in
    let h2 =
      bump_frame-Queued d1 1 empty (omega arith) (bump_frame-Queued d 0 empty (omega arith) h) in
    elim_intro Queued ((bump_frame d 0 empty).0 || (bump_frame d1 1 empty).0)
      (λ _. bump_both_from-Queued fuel d2 h2) (λ _. h2)

bump_into_from-Queued :
    (fuel v : ℕ) (d : Decoder) → v < 2 → Queued d → Queued (bump_into_from fuel v d)
unfolding bump_into_from
bump_into_from-Queued zero v d lt h = h
bump_into_from-Queued (suc fuel) v d lt h =
    let d' = (bump_frame d v empty).1 in
    let h' = bump_frame-Queued d v empty lt h in
    elim_intro Queued (ltb (queue_len (d.get_frame_queue v)) queue_size)
      (λ _.
        elim_intro Queued (bump_frame d v empty).0 (λ _. bump_into_from-Queued fuel v d' lt h')
          (λ _. h'))
      (λ _. h)

-- A picture that is not marked for output is in no queue, and may stop to await delivery.
drop-Queued :
    (d : Decoder) (gone : FrameMask)
    → ((x : ℕ) → gone x ≡ true → d.output_frames x ≡ false)
    → Queued d
    → Queued (record d { to_get_frames = d.to_get_frames ∖ gone })
drop-Queued d gone out h = record {
  entries = λ v v2.
      AllSome-map (Entry d.to_get_frames d.output_frames d.non_base_frames v)
        (Entry (d.to_get_frames ∖ gone) d.output_frames d.non_base_frames v) (d.get_frame_queue v)
        (keep v) (h.entries v v2);
  distinct = h.distinct;
}
  where
    keep :
        (v x : ℕ)
        → Entry d.to_get_frames d.output_frames d.non_base_frames v x
        → Entry (d.to_get_frames ∖ gone) d.output_frames d.non_base_frames v x
    keep v x e = record {
      in_range = e.in_range;
      to_get = elim (Bool-cases (gone x)) [
        | inl t ↦ let o = out x t in let o' = e.output in cc
        | inr f ↦ let g = e.to_get in ground arith
      ];
      output = e.output;
      view = e.view;
    }

pub unblock_output-Queued : (p : Player) → Queued p.dec → Queued (unblock_output p).dec
unfolding unblock_output baseless
unblock_output-Queued p h =
    let d = bump_into_from (suc max_frames) 1 (bump_into_from (suc max_frames) 0 p.dec) in
    drop-Queued d (baseless p d) (λ x t. ground arith)
      (bump_into_from-Queued (suc max_frames) 1 _ (omega arith)
        (bump_into_from-Queued (suc max_frames) 0 p.dec (omega arith) h))
