-- ===== src/Frames/Reach.antt =====
-- The parser, the workers and the caller of the API take turns at the output queues.
use edge264_mvc.Common.{ℕ, ◌<◌, ◌≡◌, sym, ◌∙◌, Bool, true, false, Option, none, some, ◌==◌}
use mathlib.Core.Path.{subst}
use edge264_mvc.Common.Masks.{FrameMask, max_frames}
use edge264_mvc.Decoder.{Decoder}
use edge264_mvc.Delivery.{handle_frames}
use edge264_mvc.Output.{bump_frame, catch_up_dependent_bumps}
use edge264_mvc.ParameterSets.{Sps}
use edge264_mvc.Admission.{admit}
use edge264_mvc.Admission.Keeps.{admit-Queued}
use edge264_mvc.Frames.{Player, Output}
use edge264_mvc.Frames.Deliver.{get_frame, return_frame}
use edge264_mvc.Frames.Queues.{Queued, QueuesOk, Entry, AllSome-map}
use edge264_mvc.Frames.Keep.{bump_frame-Queued, catch_up_dependent_bumps-Queued}
use edge264_mvc.Frames.Clear.{clear_decoder, clear_decoder-Queued}
use edge264_mvc.Frames.Flush.{bump_all_frames, unblock_output}
use edge264_mvc.Frames.Flushed.{unblock_output-Queued}
use edge264_mvc.Frames.Filled.{bump_all_frames-Queued}
use edge264_mvc.Frames.GetFrame.{Outcome}
use edge264_mvc.Frames.Orphans.{get_frame-Outcome, return_frame-Queued}

-- What a step of the rest of the decoder is taken to leave alone: the queues, and the pictures that await delivery,
-- which it may add to.
pub record Leaves (d d' : Decoder) : Type 0 where
  pub queues : d'.get_frame_queue ≡ d.get_frame_queue
  pub to_get : (x : ℕ) → d.to_get_frames x ≡ true → d'.to_get_frames x ≡ true
  pub output :
      (x : ℕ) → d.to_get_frames x ≡ true → d.output_frames x ≡ true → d'.output_frames x ≡ true
  pub view : (x : ℕ) → d.to_get_frames x ≡ true → d'.non_base_frames x ≡ d.non_base_frames x

pub data Step (p : Player) : Player → Type 0 where
  bumped :
      (view : ℕ) (ignored : FrameMask)
      → view < 2
      → Step p (record p { dec = (bump_frame p.dec view ignored).1 })
  filled : Step p (record p { dec = (bump_all_frames p.dec).1 })
  unblocked : Step p (unblock_output p)
  caught_up : Step p (record p { dec = catch_up_dependent_bumps p.mvc p.dec })
  admitted :
      (view : ℕ) (prev_short prev_long : FrameMask) (nal_ref_idc : ℕ) (sps : Sps)
      → view < 2
      → p.dec.curr_pic < max_frames
      → p.dec.output_frames p.dec.curr_pic ≡ false
      → p.dec.non_base_frames p.dec.curr_pic ≡ (view == 1)
      → Step p (record p { dec = admit p.dec view prev_short prev_long nal_ref_idc sps })
  got : (borrow : Bool) → Step p (get_frame p borrow).1
  returned :
      (return_arg : ℕ)
      → ((x : ℕ) → handle_frames return_arg x ≡ true → p.dec.to_get_frames x ≡ false)
      → Step p (return_frame p return_arg)
  cleared : Step p (clear_decoder p)
  other : (p' : Player) → Leaves p.dec p'.dec → Step p p'

pub data Reach (p : Player) : Player → Type 0 where
  start : Reach p p
  later : {q r : Player} → Reach p q → Step q r → Reach p r

Leaves-Queued : (d d' : Decoder) → Leaves d d' → Queued d → Queued d'
Leaves-Queued d d' l h =
    subst (λ q. QueuesOk d'.to_get_frames d'.output_frames d'.non_base_frames q) (sym l.queues)
      (record {
        entries = λ v v2.
            AllSome-map (Entry d.to_get_frames d.output_frames d.non_base_frames v)
              (Entry d'.to_get_frames d'.output_frames d'.non_base_frames v) (d.get_frame_queue v)
              (keep v) (h.entries v v2);
        distinct = h.distinct;
      })
  where
    keep :
        (v x : ℕ)
        → Entry d.to_get_frames d.output_frames d.non_base_frames v x
        → Entry d'.to_get_frames d'.output_frames d'.non_base_frames v x
    keep v x e = record {
      in_range = e.in_range;
      to_get = l.to_get x e.to_get;
      output = l.output x e.to_get e.output;
      view = l.view x e.to_get ∙ e.view;
    }

Outcome-Queued :
    (p : Player) (borrow : Bool) (r : Option Output × Player) → Outcome p borrow r → Queued r.1.dec
Outcome-Queued p borrow (none, p') h = h
Outcome-Queued p borrow (some out, p') h = h.0

Step-Queued : (p q : Player) → Step p q → Queued p.dec → Queued q.dec
Step-Queued p _ (bumped view ignored lt) h = bump_frame-Queued p.dec view ignored lt h
Step-Queued p _ filled h = bump_all_frames-Queued p.dec h
Step-Queued p _ unblocked h = unblock_output-Queued p h
Step-Queued p _ caught_up h = catch_up_dependent_bumps-Queued p.mvc p.dec h
Step-Queued p _ (admitted view prev_short prev_long nal_ref_idc sps lt in_range out v) h =
    admit-Queued p.dec view prev_short prev_long nal_ref_idc sps lt in_range out v h
Step-Queued p _ (got borrow) h =
    Outcome-Queued p borrow (get_frame p borrow) (get_frame-Outcome p borrow h)
Step-Queued p _ (returned a away) h = return_frame-Queued p a away h
Step-Queued p _ cleared h = clear_decoder-Queued p
Step-Queued p _ (other p' l) h = Leaves-Queued p.dec p'.dec l h

Reach-keeps : (p q : Player) → Reach p q → Queued p.dec → Queued q.dec
Reach-keeps p _ start h = h
Reach-keeps p _ (later {q} {r} before step) h = Step-Queued q r step (Reach-keeps p q before h)

-- From a cleared decoder (as open leaves one too), after any sequence of the operations on the output
-- queues, calls of get_frame, returns of frames, clears and other steps, each queue holds a picture once,
-- and only pictures of its view that await delivery and are marked for output. It is taken that a picture
-- enters with its view set and a slot that is not marked for output, that a handle returned names no slot
-- that awaits delivery, and that the other steps leave the queues alone, and the pictures that await
-- delivery with their marks and views.
pub Reach-Queued : (p q : Player) → Reach (clear_decoder p) q → Queued q.dec
Reach-Queued p q run = Reach-keeps (clear_decoder p) q run (clear_decoder-Queued p)
