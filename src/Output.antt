-- ===== src/Output.antt =====
-- Output of decoded pictures in display order: bumping (`bump_frame`, `dequeue_frame`,
-- `catch_up_dependent_bumps` of src/edge264mvc_headers.c). A view is 0 (base) or 1 (dependent).
pub mod Choice
pub mod Bump
pub mod Order
pub mod Keeps
use edge264_mvc.Common.{
  ℕ, zero, suc, ◌+◌, ◌-◌, Bool, true, false, not, ◌&&◌, ◌||◌, List, [], ◌∷◌, ◌++◌, Option, none,
  some, ◌==◌, if◌then◌else◌, take, drop,
}
use edge264_mvc.Common.Int.{ℤ, pos, ◌+ℤ◌, ltb_ℤ, eq_ℤ, int32}
use edge264_mvc.Common.Masks.{
  FrameMask, max_frames, bit, complement, ◌∩◌, ◌∪◌, ◌∖◌, mask_any, for_bits, empty,
}
use edge264_mvc.Decoder.{
  Decoder, update, int_max, frame_poc, same_access_unit, queue_size, queue_push,
}

-- `same_views`: the slots of the pictures of a view.
abbrev pub same_views : Decoder → ℕ → FrameMask
same_views d view = if view == 0 then complement d.non_base_frames else d.non_base_frames

-- Whether a base view already queued or delivered is of the access unit of slot `i`.
unfoldable pub is_paired : Decoder → ℕ → Bool
is_paired d i = mask_any (d.output_frames ∖ d.non_base_frames ∩ (λ b. same_access_unit d b i))

-- The slots that `bump_frame` looks at.
abbrev pub waiting : Decoder → ℕ → FrameMask → FrameMask
waiting d view ignored = d.to_get_frames ∖ d.output_frames ∩ same_views d view ∖ ignored

-- `pic` and `lowest_poc`
abbrev pub Choice : Type 0
Choice = Option ℕ × ℤ

-- Whether slot `i` comes out before the slot chosen so far: by its order count, then in decoding order.
unfoldable pub comes_before : Decoder → ℕ → Choice → Bool
comes_before d i (none, lowest) = true
comes_before d i (some pic, lowest) =
    ltb_ℤ (frame_poc d i) lowest
    || (eq_ℤ (frame_poc d i) lowest && ltb_ℤ (d.frame_ids i) (d.frame_ids pic))

unfoldable pub consider : Decoder → ℕ → ℕ → Choice → Choice
unfolding comes_before is_paired
consider d view i c =
    if (view == 0 || is_paired d i) && comes_before d i c then (some i, frame_poc d i) else c

unfoldable pub choose : Decoder → ℕ → FrameMask → Choice
unfolding consider
choose d view ignored = for_bits (waiting d view ignored) (consider d view) (none, int_max)

-- The chosen picture gets the next display rank and enters the queue of its view.
unfoldable pub emit : Decoder → ℕ → ℕ → Decoder
unfolding ◌+ℤ◌ queue_push
emit d view pic =
    queue_push
      (record d {
        disp_order = update d.disp_order pic d.next_dispnum;
        next_dispnum = int32 (d.next_dispnum +ℤ pos 1);
        output_frames = d.output_frames ∪ bit pic;
      })
      view pic

-- `if (pic < 0) return 0;`, or the rest of the function.
unfoldable pub emit_choice : Decoder → ℕ → Choice → Bool × Decoder
unfolding emit
emit_choice d view (none, lowest) = (false, d)
emit_choice d view (some pic, lowest) = (true, emit d view pic)

unfoldable pub bump_frame : Decoder → ℕ → FrameMask → Bool × Decoder
unfolding choose emit_choice
bump_frame d view ignored = emit_choice d view (choose d view ignored)

-- `while (bump_frame(dec, view, ignored));`
unfoldable pub bump_while_from : ℕ → Decoder → ℕ → FrameMask → Decoder
bump_while_from zero d view ignored = d
bump_while_from (suc fuel) d view ignored =
    let (more, d') = bump_frame d view ignored in
    elim more [ true ↦ bump_while_from fuel d' view ignored | false ↦ d' ]

-- Each round queues a picture more, so a round for each slot and one more are enough.
unfoldable pub bump_while : Decoder → ℕ → FrameMask → Decoder
unfolding bump_while_from
bump_while d view ignored = bump_while_from (suc max_frames) d view ignored

-- Entry `i` of a queue is removed, and the gap closed.
unfoldable pub dequeue_frame : Decoder → ℕ → ℕ → Decoder
dequeue_frame d view i =
    let q = d.get_frame_queue view in
    record d {
      get_frame_queue = update d.get_frame_queue view (take i q ++ drop (suc i) q ++ none ∷ []);
    }

-- Whether slot `j` is a picture of the access unit of base view `base`, before the one found so far in
-- decoding order.
unfoldable pub sooner_dependent : Decoder → ℕ → ℕ → Option ℕ → Option ℕ
unfolding same_access_unit
sooner_dependent d base j none = if same_access_unit d base j then some j else none
sooner_dependent d base j (some e) =
    if same_access_unit d base j && ltb_ℤ (d.frame_ids j) (d.frame_ids e) then some j else some e

-- The first dependent view of the access unit in decoding order, of those in a set.
unfoldable pub first_dependent : Decoder → FrameMask → ℕ → Option ℕ
unfolding sooner_dependent
first_dependent d slots base = for_bits slots (sooner_dependent d base) none

-- A picture is marked for output and queued.
unfoldable pub queue_for_output : Decoder → ℕ → ℕ → Decoder
unfolding queue_push
queue_for_output d view pic =
    queue_push (record d { output_frames = d.output_frames ∪ bit pic }) view pic

-- The queued base view of lowest display rank, of those not done. The entries are packed at the front.
unfoldable pub front_of : Decoder → FrameMask → List (Option ℕ) → Choice → Choice
front_of d done [] c = c
front_of d done (none ∷ rest) c = c
front_of d done (some q ∷ rest) (front, lowest) = front_of d done rest (
    if not (done q) && ltb_ℤ (d.disp_order q) lowest
    then (some q, d.disp_order q)
    else (front, lowest))

unfoldable pub catch_up_dependent : Decoder → ℕ → Decoder
unfolding queue_for_output
catch_up_dependent d dep = if d.output_frames dep then d else queue_for_output d 1 dep

-- `for (;;)`: each round is done with one more queued base view.
unfoldable pub catch_up_from : ℕ → Decoder → FrameMask → Decoder
unfolding front_of first_dependent catch_up_dependent
catch_up_from zero d done = d
catch_up_from (suc fuel) d done = elim (front_of d done (d.get_frame_queue 0) (none, int_max)).0 [
  | none ↦ d
  | some front ↦ elim (first_dependent d (d.to_get_frames ∩ d.non_base_frames) front) [
    | none ↦ d
    | some dep ↦ catch_up_from fuel (catch_up_dependent d dep) (done ∪ bit front)
  ]
]

-- `mvc` is `ssps.BitDepth_Y != 0`.
unfoldable pub catch_up_dependent_bumps : Bool → Decoder → Decoder
unfolding catch_up_from
catch_up_dependent_bumps mvc d = if mvc then catch_up_from (suc max_frames) d empty else d
