-- ===== src/Frames/Flush.antt =====
-- The queues at the end of a stream and on a damaged one: `bump_all_frames` of src/edge264mvc_headers.c
-- and `unblock_output` of src/edge264mvc.c.
use edge264_mvc.Common.{
  ℕ, zero, suc, Bool, true, false, not, ◌&&◌, ◌||◌, List, [], ◌∷◌, Option, none, some, ltb,
  if◌then◌else◌,
}
use edge264_mvc.Common.Masks.{FrameMask, max_frames, empty, bit, ◌∩◌, ◌∪◌, ◌∖◌, mask_any, for_bits}
use edge264_mvc.Decoder.{Decoder, update, same_access_unit, queue_size}
use edge264_mvc.Output.{bump_frame}
use edge264_mvc.Frames.{Player, is_pic, queue_len}

-- `while (bump_frame(dec, 0, 0) | bump_frame(dec, 1, 0));`. Each round but the last queues a slot more.
unfoldable pub bump_both_from : ℕ → Decoder → Decoder
unfolding bump_frame
bump_both_from zero d = d
bump_both_from (suc fuel) d =
    let (base, d1) = bump_frame d 0 empty in
    let (dependent, d2) = bump_frame d1 1 empty in
    elim (base || dependent) [ true ↦ bump_both_from fuel d2 | false ↦ d2 ]

-- The slots in a queue.
unfoldable pub queued_in : List (Option ℕ) → FrameMask
queued_in [] = empty
queued_in (none ∷ rest) = queued_in rest
queued_in (some q ∷ rest) = bit q ∪ queued_in rest

-- A picture takes the first empty entry, if there is one.
unfoldable pub place : ℕ → List (Option ℕ) → Option (List (Option ℕ))
place i [] = none
place i (none ∷ rest) = some (some i ∷ rest)
place i (some q ∷ rest) = elim (place i rest) [ none ↦ none | some rest' ↦ some (some q ∷ rest') ]

unfoldable pub queue_back : ℕ → Decoder → Decoder
unfolding place
queue_back i d =
    let v = if d.non_base_frames i then 1 else 0 in
    elim (place i (d.get_frame_queue v)) [
      | none ↦ d
      | some q ↦ record d {
        get_frame_queue = update d.get_frame_queue v q;
        output_frames = d.output_frames ∪ bit i;
      }
    ]

-- What bump_all_frames does to the queues, with the tasks finished and the pictures concealed. The result
-- tells whether pictures are left, the result ENOBUFS.
unfoldable pub bump_all_frames : Decoder → Bool × Decoder
unfolding bump_both_from queued_in queue_back
bump_all_frames d0 =
    let d = record (bump_both_from (suc max_frames) d0) { field_slot = λ _. none } in
    let queued = queued_in (d.get_frame_queue 0) ∪ queued_in (d.get_frame_queue 1) in
    let d' = for_bits (d.to_get_frames ∖ queued) queue_back d in
    (mask_any (d'.to_get_frames ∪ d'.output_frames), d')

-- `while (queue_len(dec, v) < QUEUE_SIZE && bump_frame(dec, v, 0));`
unfoldable pub bump_into_from : ℕ → ℕ → Decoder → Decoder
unfolding bump_frame queue_len
bump_into_from zero v d = d
bump_into_from (suc fuel) v d = elim (ltb (queue_len (d.get_frame_queue v)) queue_size) [
  | true ↦
      (let (more, d') = bump_frame d v empty in
        elim more [ true ↦ bump_into_from fuel v d' | false ↦ d' ])
  | false ↦ d
]

-- Dependent views that wait with no base view in to_get_frames, but for the picture being parsed.
unfoldable pub baseless : Player → Decoder → FrameMask
baseless p d = d.to_get_frames ∖ d.output_frames ∩ d.non_base_frames ∩ (λ i.
    not (is_pic p.curr_pic i)
    && not (mask_any (d.to_get_frames ∖ d.non_base_frames ∩ (λ b. same_access_unit d b i))))

unfoldable pub unblock_output : Player → Player
unfolding bump_into_from baseless
unblock_output p =
    let d = bump_into_from (suc max_frames) 1 (bump_into_from (suc max_frames) 0 p.dec) in
    record p { dec = record d { to_get_frames = d.to_get_frames ∖ baseless p d }; flushing = true }
