-- ===== src/Frames/Drain.antt =====
-- The conditions under which a flushing `get_frame` delivers a frame.
use edge264_mvc.Common.{
  ℕ, ◌≡◌, refl, sym, ap, ◌∙◌, Bool, true, false, not, ◌&&◌, ◌||◌, ◌∷◌, Option, none, some, arith,
  ◌==◌, if◌then◌else◌, option_intro, Bool-cases, inl, inr,
}
use mathlib.Core.Path.{subst}
use edge264_mvc.Common.Masks.{FrameMask, ◌∩◌}
use edge264_mvc.Common.Masks.Count.{mask_any-false}
use edge264_mvc.Decoder.{same_access_unit}
use edge264_mvc.Frames.{
  Player, Output, Scan, can_output, scan, in_flight, held, select, is_pic, pair, force_unpaired,
}
use edge264_mvc.Frames.Deliver.{deliver_paired, deliver_selected, orphans, get_frame}
use edge264_mvc.Frames.Queues.{Queue, Queued}
use edge264_mvc.Frames.Lowest.{is_found, scan-found}
use edge264_mvc.Frames.Paired.{PairOk, pair-PairOk}

unfoldable pub is_some {ℓ} : {A : Type ℓ} → Option A → Bool
is_some none = false
is_some (some _) = true

flushing_ready :
    (p : Player) (x : ℕ) → p.flushing ≡ true → is_pic p.curr_pic x ≡ false → can_output p x ≡ true
unfolding can_output
flushing_ready p x f c = rw (f, c) (ground arith)

flushing_unheld : (p : Player) (pic0 : ℕ) (s : Scan) → p.flushing ≡ true → held p pic0 s ≡ false
unfolding held
flushing_unheld p pic0 s f =
    option_intro (λ (b : Bool). b ≡ false) s.lowest_any_pic
      (λ any. not (any == pic0) && not p.flushing && in_flight p any) (λ _. refl)
      (λ any _. rw f (ground arith))

select_some :
    (p : Player) → p.flushing ≡ true → is_found (scan p).found ≡ true → is_some (select p) ≡ true
unfolding select is_found is_some
select_some p f h =
    option_intro (λ (r : Option (ℕ × ℕ)). is_some r ≡ true) (scan p).found
      (λ (i, pic0). if held p pic0 (scan p) then none else some (i, pic0))
      (λ e. let n = ap is_found e in cc)
      (λ (i, pic0) _. rw (flushing_unheld p pic0 (scan p) f) refl)

module _ (p : Player) (borrow : Bool) (idx0 pic0 : ℕ) where
  paired_some :
      (r : Player × Option (ℕ × ℕ))
      → ((r.1 ≡ none) → (not r.0.mvc || force_unpaired r.0 pic0) ≡ true)
      → is_some (deliver_paired borrow idx0 pic0 r).0 ≡ true
  unfolding deliver_paired is_some
  paired_some (p1, some found) h = refl
  paired_some (p1, none) h = let t = h refl in rw t refl

-- No dependent view awaits delivery, in an MVC stream.
abbrev pub NoDependents : Player → Type 0
NoDependents p = p.mvc ≡ true → (y : ℕ) → (p.dec.to_get_frames ∩ p.dec.non_base_frames) y ≡ false

pair-forced :
    (p : Player) (pic0 : ℕ) (r : Player × Option (ℕ × ℕ))
    → PairOk p pic0 r
    → p.flushing ≡ true
    → ((y : ℕ) → (p.dec.to_get_frames ∩ p.dec.non_base_frames) y ≡ false)
    → force_unpaired r.0 pic0 ≡ true
unfolding force_unpaired
pair-forced p pic0 r ok f none_awaits =
    let d = r.0.dec in
    let flush = ok.same_flushing ∙ f in
    let idle =
      mask_any-false (d.to_get_frames ∩ d.non_base_frames ∩ (λ j. same_access_unit d pic0 j))
        (λ i lt.
          let a = ap (λ (m : FrameMask). m i) ok.same_to_get in
          let b = ap (λ (m : FrameMask). m i) ok.same_view in
          let c = none_awaits i in ground arith) in
    rw (idle, flush) refl

pair_flat : (p : Player) (pic0 : ℕ) → p.mvc ≡ false → pair p pic0 ≡ (p, none)
unfolding pair
pair_flat p pic0 e = rw e refl

pair_some :
    (p : Player) (borrow : Bool) (idx0 pic0 : ℕ)
    → Queued p.dec
    → p.flushing ≡ true
    → NoDependents p
    → is_some (deliver_paired borrow idx0 pic0 (pair p pic0)).0 ≡ true
pair_some p borrow idx0 pic0 h f alone = elim (Bool-cases p.mvc) [
  | inl mvc ↦ paired_some (pair p pic0).0 borrow idx0 pic0 (pair p pic0) (λ _.
      let t = pair-forced p pic0 (pair p pic0) (pair-PairOk p pic0 h) f (alone mvc) in ground arith)
  | inr flat ↦
      subst (λ r. is_some (deliver_paired borrow idx0 pic0 r).0 ≡ true)
        (sym (pair_flat p pic0 flat)) (paired_some p borrow idx0 pic0 (p, none) (λ _. rw flat refl))
]

select-delivers :
    (p : Player) (borrow : Bool) (r : Option (ℕ × ℕ))
    → Queued p.dec
    → p.flushing ≡ true
    → NoDependents p
    → is_some r ≡ true
    → is_some (orphans (deliver_selected p borrow r)).0 ≡ true
unfolding deliver_selected orphans is_some
select-delivers p borrow none h f alone some_r = cc
select-delivers p borrow (some (idx0, pic0)) h f alone some_r =
    orphans-some (deliver_paired borrow idx0 pic0 (pair p pic0))
      (pair_some p borrow idx0 pic0 h f alone)
  where
    orphans-some : (r : Option Output × Player) → is_some r.0 ≡ true → is_some (orphans r).0 ≡ true
    orphans-some (some out, p') e = refl
    orphans-some (none, p') e = cc

-- While flushing, with the queues in order, a base view at the head of its queue that is not being parsed,
-- and no dependent view that awaits delivery in an MVC stream, get_frame delivers a frame, complete or not.
pub get_frame_drains :
    (p : Player) (borrow : Bool) (x : ℕ) (rest : Queue)
    → Queued p.dec
    → p.flushing ≡ true
    → p.dec.get_frame_queue 0 ≡ some x ∷ rest
    → is_pic p.curr_pic x ≡ false
    → NoDependents p
    → is_some (get_frame p borrow).0 ≡ true
unfolding get_frame
get_frame_drains p borrow x rest h f e c alone =
    select-delivers p borrow (select p) h f alone
      (select_some p f (scan-found p x rest e (flushing_ready p x f c)))
