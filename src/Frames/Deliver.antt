-- ===== src/Frames/Deliver.antt =====
-- What `get_frame` of src/edge264mvc.c does once it has chosen a frame, and `return_frame`.
use edge264_mvc.Common.{
  ℕ, suc, Bool, true, false, not, ◌||◌, List, [], ◌∷◌, Option, none, some, if◌then◌else◌,
}
use edge264_mvc.Common.Int.{pos}
use edge264_mvc.Common.Masks.{FrameMask, bit, ◌∩◌, ◌∪◌, ◌∖◌, ◌△◌, mask_any}
use edge264_mvc.Decoder.{update, frame_poc, same_access_unit}
use edge264_mvc.Output.{dequeue_frame}
use edge264_mvc.Delivery.{unwrap_output_poc, handle_of, handle_frames}
use edge264_mvc.Frames.{Player, Output, is_pic, slot_bits, select, pair, force_unpaired}

-- The frame leaves the queues and to_get_frames. The caller holds its slots until it returns them, or
-- without `borrow` not at all.
unfoldable pub deliver_base : Player → ℕ → ℕ → Output × Player
unfolding dequeue_frame unwrap_output_poc handle_of
deliver_base p idx0 pic0 =
    let d = dequeue_frame p.dec 0 idx0 in
    let poc = frame_poc p.dec pic0 in
    let (display, key) = unwrap_output_poc p.poc_type p.poc_log2 (p.keys 0) poc in
    (
      record {
        pic0 = pic0;
        pic1 = none;
        frame_id = p.dec.frame_ids pic0;
        poc = poc;
        display_poc = display;
        frame_id_mvc = none;
        poc_mvc = pos 0;
        display_poc_mvc = pos 0;
        return_arg = handle_of (some pic0) none;
      },
      record p {
        dec = record d { to_get_frames = d.to_get_frames ∖ bit pic0 };
        keys = update p.keys 0 key;
        undelivered = false;
      },
    )

unfoldable pub deliver_dependent : ℕ → ℕ → Output × Player → Output × Player
unfolding dequeue_frame unwrap_output_poc handle_of
deliver_dependent idx1 pic1 (out, p) =
    let d = dequeue_frame p.dec 1 idx1 in
    let poc = p.dec.field_order_cnt 0 pic1 in
    let (display, key) = unwrap_output_poc p.poc_type p.poc_log2 (p.keys 1) poc in
    (
      record out {
        pic1 = some pic1;
        frame_id_mvc = some (p.dec.frame_ids pic1);
        poc_mvc = poc;
        display_poc_mvc = display;
        return_arg = handle_of (some out.pic0) (some pic1);
      },
      record p {
        dec = record d { to_get_frames = d.to_get_frames △ bit pic1 };
        keys = update p.keys 1 key;
      },
    )

unfoldable pub unborrow : Bool → Output × Player → Output × Player
unfolding handle_frames
unborrow borrow (out, p) = if borrow then (out, p) else (
  out,
  record p {
    dec = record p.dec { output_frames = p.dec.output_frames ∖ handle_frames out.return_arg };
  },
)

unfoldable pub deliver : Player → Bool → ℕ → ℕ → Option (ℕ × ℕ) → Output × Player
unfolding deliver_base deliver_dependent unborrow
deliver p borrow idx0 pic0 none = unborrow borrow (deliver_base p idx0 pic0)
deliver p borrow idx0 pic0 (some (idx1, pic1)) =
    unborrow borrow (deliver_dependent idx1 pic1 (deliver_base p idx0 pic0))

-- A base view comes out with its dependent view, or alone where that is due.
unfoldable pub deliver_paired : Bool → ℕ → ℕ → Player × Option (ℕ × ℕ) → Option Output × Player
unfolding deliver force_unpaired
deliver_paired borrow idx0 pic0 (p, some found) =
    let (out, p') = deliver p borrow idx0 pic0 (some found) in (some out, p')
deliver_paired borrow idx0 pic0 (p, none) =
    let (out, p') = deliver p borrow idx0 pic0 none in
    if not p.mvc || force_unpaired p pic0 then (some out, p') else (none, p)

unfoldable pub deliver_selected : Player → Bool → Option (ℕ × ℕ) → Option Output × Player
unfolding deliver_paired pair
deliver_selected p borrow none = (none, p)
deliver_selected p borrow (some (idx0, pic0)) = deliver_paired borrow idx0 pic0 (pair p pic0)

-- Whether a dependent view stays in its queue: it is still parsed or written, or its base view is live.
unfoldable pub is_live : Player → FrameMask → FrameMask → ℕ → Bool
is_live p inflight live_bases dep =
    is_pic p.curr_pic dep
    || inflight dep
    || mask_any (live_bases ∩ (λ b. same_access_unit p.dec b dep))

unfoldable pub drop_orphan : Player → ℕ → ℕ → Player
unfolding dequeue_frame
drop_orphan p i dep =
    let d = dequeue_frame p.dec 1 i in
    record p {
      dec = record d {
        to_get_frames = d.to_get_frames ∖ bit dep;
        output_frames = d.output_frames ∖ bit dep;
      };
      undelivered = false;
    }

-- The entries from index `i` on. One that is dropped leaves its index to the next.
unfoldable pub drop_orphans : FrameMask → FrameMask → ℕ → List (Option ℕ) → Player → Player
unfolding is_live drop_orphan
drop_orphans inflight live_bases i [] p = p
drop_orphans inflight live_bases i (none ∷ rest) p = p
drop_orphans inflight live_bases i (some dep ∷ rest) p = elim (is_live p inflight live_bases dep) [
  | true ↦ drop_orphans inflight live_bases (suc i) rest p
  | false ↦ drop_orphans inflight live_bases i rest (drop_orphan p i dep)
]

-- Dependent views whose base view is missing are dropped where no frame was delivered.
unfoldable pub orphans : Option Output × Player → Option Output × Player
unfolding drop_orphans
orphans (some out, p) = (some out, p)
orphans (none, p) =
    let inflight = slot_bits p.dec p.writing in
    let live_bases = (p.dec.to_get_frames ∪ inflight) ∖ p.dec.non_base_frames in
    if p.mvc
    then (none, drop_orphans inflight live_bases 0 (p.dec.get_frame_queue 1) p)
    else (none, p)

-- `none` is the result ENOMSG, and `some` the result 0.
unfoldable pub get_frame : Player → Bool → Option Output × Player
unfolding select deliver_selected orphans
get_frame p borrow = orphans (deliver_selected p borrow (select p))

-- The caller gives back the slots of a handle.
unfoldable pub return_frame : Player → ℕ → Player
unfolding handle_frames
return_frame p return_arg =
    let frames = handle_frames return_arg in
    record p {
      dec = record p.dec { output_frames = p.dec.output_frames ∖ frames };
      stale_frames = p.stale_frames ∖ frames;
    }
