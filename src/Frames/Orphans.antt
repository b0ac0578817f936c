-- ===== src/Frames/Orphans.antt =====
-- Dependent views whose base view is missing, and `get_frame` and `return_frame` as a whole.
use edge264_mvc.Common.{
  ℕ, suc, ◌+◌, ◌≡◌, refl, Bool, true, false, [], ◌∷◌, Option, none, some, arith, ==_iff, if_elim,
  elim_intro, get_elem?,
}
use mathlib.Core.Path.{subst}
use edge264_mvc.Common.Masks.{FrameMask, bit, ◌∖◌}
use edge264_mvc.Delivery.{handle_frames}
use edge264_mvc.Frames.{Player, Output, select, pair}
use edge264_mvc.Frames.Deliver.{
  deliver_selected, drop_orphan, drop_orphans, is_live, orphans, get_frame, return_frame,
}
use edge264_mvc.Frames.Queues.{Queue, Queued, without-later, remove-QueuesOk, clear-QueuesOk}
use edge264_mvc.Frames.Select.{select-FoundAt}
use edge264_mvc.Frames.Lowest.{select-lowest}
use edge264_mvc.Frames.Paired.{pair-PairOk}
use edge264_mvc.Frames.GetFrame.{Outcome, paired-Outcome}

-- Dropping dependent views whose base is missing keeps the queues.
drop_orphan-Queued :
    (p : Player) (i dep : ℕ)
    → Queued p.dec
    → get_elem? (p.dec.get_frame_queue 1) i ≡ some (some dep)
    → Queued (drop_orphan p i dep).dec
unfolding drop_orphan
drop_orphan-Queued p i dep h at =
    remove-QueuesOk p.dec.to_get_frames p.dec.output_frames p.dec.non_base_frames
      p.dec.get_frame_queue h 1 dep (omega arith) i (p.dec.to_get_frames ∖ bit dep)
      (p.dec.output_frames ∖ bit dep) at (λ x ne g. ground (arith, ==_iff x dep))
      (λ x ne g. ground (arith, ==_iff x dep))

-- The entries still to be seen, at their indices.
abbrev Stands : Queue → ℕ → Queue → Type 0
Stands q i rest =
    (j k x : ℕ) → i + j ≡ k → get_elem? rest j ≡ some (some x) → get_elem? q k ≡ some (some x)

drop_orphans-Queued :
    (inflight live : FrameMask) (i : ℕ) (rest : Queue) (p : Player)
    → Queued p.dec
    → Stands (p.dec.get_frame_queue 1) i rest
    → Queued (drop_orphans inflight live i rest p).dec
unfolding drop_orphans drop_orphan
drop_orphans-Queued inflight live i [] p h at = h
drop_orphans-Queued inflight live i (none ∷ rest) p h at = h
drop_orphans-Queued inflight live i (some dep ∷ rest) p h at =
    elim_intro (λ (r : Player). Queued r.dec) (is_live p inflight live dep)
      (λ _.
        drop_orphans-Queued inflight live (suc i) rest p h
          (λ j k x n e. at (suc j) k x (omega arith) e))
      (λ _.
        drop_orphans-Queued inflight live i rest (drop_orphan p i dep)
          (drop_orphan-Queued p i dep h (at 0 i dep (omega arith) refl))
          (λ j k x n e.
            without-later (p.dec.get_frame_queue 1) i k x (omega arith)
              (at (suc j) (suc k) x (omega arith) e)))

orphans-Outcome :
    (p : Player) (borrow : Bool) (r : Option Output × Player)
    → Outcome p borrow r
    → Outcome p borrow (orphans r)
unfolding orphans
orphans-Outcome p borrow (some out, p') h = h
orphans-Outcome p borrow (none, p') h =
    let q = p'.dec.get_frame_queue 1 in
    if_elim (Outcome p borrow) p'.mvc
      (drop_orphans-Queued _ _ 0 q p' h (λ j k x n e.
        let same : j ≡ k = omega arith in subst (λ z. get_elem? q z ≡ some (some x)) same e))
      h

deliver_selected-Outcome :
    (p : Player) (borrow : Bool) (f : Option (ℕ × ℕ))
    → Queued p.dec
    → select p ≡ f
    → Outcome p borrow (deliver_selected p borrow f)
unfolding deliver_selected
deliver_selected-Outcome p borrow none h e = h
deliver_selected-Outcome p borrow (some (idx0, pic0)) h e =
    paired-Outcome p borrow idx0 pic0 h (select-FoundAt p idx0 pic0 e) (select-lowest p idx0 pic0 e)
      (pair p pic0).0 (pair p pic0).1 (pair-PairOk p pic0 h)

-- Where each output queue holds pictures of its view once, that await delivery and are marked for output,
-- get_frame keeps that. If it delivers a frame, the base view awaited delivery, was complete or is flushed,
-- and no base view packed in the queue that may come out has a lower display rank; the dependent view is
-- complete, awaited delivery and is of the same access unit; the handle names the slots of the two, which
-- alone leave to_get_frames; and a borrowed frame keeps them marked for output.
pub get_frame-Outcome :
    (p : Player) (borrow : Bool) → Queued p.dec → Outcome p borrow (get_frame p borrow)
unfolding get_frame
get_frame-Outcome p borrow h =
    orphans-Outcome p borrow _ (deliver_selected-Outcome p borrow (select p) h refl)

-- What awaits delivery is not in a handle that the caller holds.
unheld : (held awaits : Bool) → (held ≡ true → awaits ≡ false) → awaits ≡ true → held ≡ false
unheld true awaits away g = let n = away refl in cc
unheld false awaits away g = refl

pub return_frame-Queued :
    (p : Player) (return_arg : ℕ)
    → ((x : ℕ) → handle_frames return_arg x ≡ true → p.dec.to_get_frames x ≡ false)
    → Queued p.dec
    → Queued (return_frame p return_arg).dec
unfolding return_frame
return_frame-Queued p a away h =
    clear-QueuesOk p.dec.to_get_frames p.dec.output_frames (p.dec.output_frames ∖ handle_frames a)
      p.dec.non_base_frames p.dec.get_frame_queue
      (λ x g o.
        let n = unheld (handle_frames a x) (p.dec.to_get_frames x) (away x) g in ground arith)
      h
