-- ===== src/Frames/Paired.antt =====
-- The dependent view that `get_frame` pairs with a base view.
use edge264_mvc.Common.{
  ℕ, ◌+◌, ◌≡◌, refl, ap, ◌∙◌, true, ◌∷◌, Option, none, some, arith, if◌then◌else◌, if_intro,
  if_elim, option_intro, get_elem?, take,
}
use mathlib.Core.Path.{subst}
use edge264_mvc.Common.Masks.{◌∩◌, ◌∖◌}
use edge264_mvc.Decoder.{same_access_unit}
use edge264_mvc.Output.{first_dependent, queue_for_output}
use edge264_mvc.Frames.{Player, frame_complete, pair_from, queue_dependent, pair}
use edge264_mvc.Frames.Queues.{Queued}
use edge264_mvc.Frames.Select.{PairedAt, pair_from-PairedAt}
use edge264_mvc.Frames.Keep.{Dependent, first_dependent-Dependent, queue_for_output-Queued}

-- The dependent view chosen is complete, of the access unit, and in its queue.
pub record PairOk (p : Player) (pic0 : ℕ) (r : Player × Option (ℕ × ℕ)) : Type 0 where
  pub queued : Queued r.0.dec
  pub base_queue : r.0.dec.get_frame_queue 0 ≡ p.dec.get_frame_queue 0
  pub same_to_get : r.0.dec.to_get_frames ≡ p.dec.to_get_frames
  pub same_flushing : r.0.flushing ≡ p.flushing
  pub same_view : r.0.dec.non_base_frames ≡ p.dec.non_base_frames
  pub at : (k y : ℕ) → r.1 ≡ some (k, y) → get_elem? (r.0.dec.get_frame_queue 1) k ≡ some (some y)
  pub complete : (k y : ℕ) → r.1 ≡ some (k, y) → frame_complete p y ≡ true
  pub same : (k y : ℕ) → r.1 ≡ some (k, y) → same_access_unit p.dec pic0 y ≡ true

module _ (p : Player) (pic0 : ℕ) (h : Queued p.dec) where
  unpaired : PairOk p pic0 (p, none)
  unpaired = record {
    queued = h;
    base_queue = refl;
    same_to_get = refl;
    same_flushing = refl;
    same_view = refl;
    at = λ k y e. cc;
    complete = λ k y e. cc;
    same = λ k y e. cc;
  }

  queue_dependent-PairOk : PairOk p pic0 (queue_dependent p pic0)
  unfolding queue_dependent
  queue_dependent-PairOk =
      let slots = p.dec.to_get_frames ∖ p.dec.output_frames ∩ p.dec.non_base_frames in
      option_intro (PairOk p pic0) (first_dependent p.dec slots pic0)
        (λ d.
          if frame_complete p d
          then (record p { dec = queue_for_output p.dec 1 d }, some (0, d))
          else (p, none))
        (λ _. unpaired)
        (λ d e.
          if_intro (PairOk p pic0) (frame_complete p d)
            (λ t. queued_now d (first_dependent-Dependent p.dec slots pic0 d e) t) (λ _. unpaired))
    where
      queued_now :
          (d : ℕ)
          → Dependent p.dec
              (p.dec.to_get_frames ∖ p.dec.output_frames ∩ p.dec.non_base_frames)
              pic0
              d
          → frame_complete p d ≡ true
          → PairOk p pic0 (record p { dec = queue_for_output p.dec 1 d }, some (0, d))
      queued_now d f t = record {
        queued =
            queue_for_output-Queued p.dec _ pic0 d (λ i m. ground arith) f
              (let m = f.member in ground arith) h;
        base_queue = refl;
        same_to_get = refl;
        same_flushing = refl;
        same_view = refl;
        at = λ k y e.
            let a : 0 ≡ k = cc in
            let b : d ≡ y = cc in
            subst (λ i. get_elem? (some d ∷ take 127 (p.dec.get_frame_queue 1)) i ≡ some (some y)) a
              (ap (λ z. some (some z)) b);
        complete = λ k y e. let same : d ≡ y = cc in subst (λ z. frame_complete p z ≡ true) same t;
        same = λ k y e.
            let same : d ≡ y = cc in subst (λ z. same_access_unit p.dec pic0 z ≡ true) same f.same;
      }

  pub pair-PairOk : PairOk p pic0 (pair p pic0)
  unfolding pair
  pair-PairOk =
      let q = p.dec.get_frame_queue 1 in
      if_elim (PairOk p pic0) p.mvc
        (option_intro (PairOk p pic0) (pair_from p pic0 0 q) (λ found. (p, some found))
          (λ _. queue_dependent-PairOk)
          (λ found e. paired found.0 found.1 (
            pair_from-PairedAt p q pic0 q 0
              (λ j. let z : j ≡ 0 + j = omega arith in ap (get_elem? q) z) found.0 found.1 e)))
        unpaired
    where
      paired :
          (k y : ℕ) → PairedAt p (p.dec.get_frame_queue 1) pic0 k y → PairOk p pic0 (p, some (k, y))
      paired k y f = record {
        queued = h;
        base_queue = refl;
        same_to_get = refl;
        same_flushing = refl;
        same_view = refl;
        at = λ k' y' e.
            let a : k ≡ k' = cc in
            let b : y ≡ y' = cc in
            subst (λ i. get_elem? (p.dec.get_frame_queue 1) i ≡ some (some y')) a
              (f.at ∙ ap (λ z. some (some z)) b);
        complete =
            λ k' y' e. let b : y ≡ y' = cc in subst (λ z. frame_complete p z ≡ true) b f.complete;
        same = λ k' y' e.
            let b : y ≡ y' = cc in subst (λ z. same_access_unit p.dec pic0 z ≡ true) b f.same;
      }
