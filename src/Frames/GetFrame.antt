-- ===== src/Frames/GetFrame.antt =====
-- `get_frame` as a whole.
use edge264_mvc.Common.{
  ℕ, ◌≡◌, refl, sym, ap, ◌∙◌, Bool, true, not, ◌&&◌, ◌||◌, Option, none, some, arith, ◌==◌, ==_iff,
  if_elim, get_elem?, inl, inr, Bool-cases,
}
use mathlib.Core.Path.{subst}
use edge264_mvc.Common.Masks.{FrameMask, bit, ◌∪◌}
use edge264_mvc.Decoder.{same_access_unit}
use edge264_mvc.Delivery.{handle_frames, add_pic}
use edge264_mvc.Frames.{Player, Output, frame_complete, can_output, scan}
use edge264_mvc.Frames.Deliver.{deliver_base, deliver_dependent, deliver}
use edge264_mvc.Frames.Queues.{Queued, Entry, AllSome-at}
use edge264_mvc.Frames.Select.{FoundAt}
use edge264_mvc.Common.Int.{◌≤ℤ◌}
use edge264_mvc.Frames.Lowest.{AllPacked}
use edge264_mvc.Frames.{is_pic, force_unpaired}
use edge264_mvc.Frames.Deliver.{deliver_paired}
use edge264_mvc.Frames.Paired.{PairOk}
use edge264_mvc.Frames.Delivered.{
  Left, unborrow-Left, deliver_base-Left, deliver_dependent-Left, base-Entry,
}

-- A delivery of `get_frame` of slots `pic0` and `pic1`, with the state before and after it.
pub record Delivery (p : Player) (borrow : Bool) (pic0 : ℕ) (pic1 : Option ℕ) (handle : ℕ)
    (p' : Player) : Type 0 where
  -- the base view was queued, awaited delivery and was marked for output
  pub base : Entry p.dec.to_get_frames p.dec.output_frames p.dec.non_base_frames 0 pic0
  pub ready : can_output p pic0 ≡ true
  -- no frame that may come out is displayed before it
  pub lowest :
      AllPacked
        (λ x. can_output p x ≡ true → p.dec.disp_order pic0 ≤ℤ p.dec.disp_order x)
        (p.dec.get_frame_queue 0)
  -- its dependent view is complete, of the same access unit, and awaited delivery
  pub complete : (y : ℕ) → pic1 ≡ some y → frame_complete p y ≡ true
  pub same : (y : ℕ) → pic1 ≡ some y → same_access_unit p.dec pic0 y ≡ true
  pub awaited :
      (y : ℕ) → pic1 ≡ some y → (p.dec.to_get_frames y ≡ true) × (p.dec.non_base_frames y ≡ true)
  -- the handle names the two slots, which alone no longer await delivery
  pub names : handle_frames handle ≡ add_pic pic1 (bit pic0)
  pub gone :
      (x : ℕ)
      → p'.dec.to_get_frames x ≡ (p.dec.to_get_frames x && not (x == pic0) && not (is_pic pic1 x))
  -- a borrowed frame keeps its slots marked for output
  pub held_slots :
      borrow ≡ true → (x : ℕ) → handle_frames handle x ≡ true → p'.dec.output_frames x ≡ true

abbrev pub Delivered : Player → Bool → Output → Player → Type 0
Delivered p borrow out p' = Delivery p borrow out.pic0 out.pic1 out.return_arg p'

-- The two outcomes, the queues kept in both.
abbrev pub Outcome : Player → Bool → Option Output × Player → Type 0
Outcome p borrow (none, p') = Queued p'.dec
Outcome p borrow (some out, p') = Queued p'.dec × Delivered p borrow out p'

module _ (p : Player) (borrow : Bool) (idx0 pic0 : ℕ) (h : Queued p.dec)
    (f : FoundAt p (p.dec.get_frame_queue 0) (scan p) idx0 pic0)
    (lowest : AllPacked
      (λ x. can_output p x ≡ true → p.dec.disp_order pic0 ≤ℤ p.dec.disp_order x)
      (p.dec.get_frame_queue 0)) where
  entry0 : Entry p.dec.to_get_frames p.dec.output_frames p.dec.non_base_frames 0 pic0
  entry0 = base-Entry p idx0 pic0 h f.at

  Left-Delivered :
      (p1 : Player) (pic1 : Option ℕ) (r : Output × Player)
      → Left p1 borrow pic0 pic1 r
      → p1.dec.to_get_frames ≡ p.dec.to_get_frames
      → ((y : ℕ)
          → pic1 ≡ some y
          → (frame_complete p y ≡ true) × (same_access_unit p.dec pic0 y ≡ true))
      → ((y : ℕ)
          → pic1 ≡ some y
          → (p.dec.to_get_frames y ≡ true) × (p.dec.non_base_frames y ≡ true))
      → ((x : ℕ) → add_pic pic1 (bit pic0) x ≡ true → p1.dec.output_frames x ≡ true)
      → Delivered p borrow r.0 r.1
  Left-Delivered p1 pic1 r l got good awaited marked =
      subst (λ a. Delivery p borrow a r.0.pic1 r.0.return_arg r.1) (sym l.out0)
        (subst (λ a. Delivery p borrow pic0 a r.0.return_arg r.1) (sym l.out1)
          (record {
            base = entry0;
            ready = f.ready;
            lowest = lowest;
            complete = λ y e. (good y e).0;
            same = λ y e. (good y e).1;
            awaited = awaited;
            names = l.names;
            gone = λ x.
                l.gone x
                ∙ ap (λ (g : FrameMask). g x && not (x == pic0) && not (is_pic pic1 x)) got;
            held_slots = λ b x n.
                ap (λ (m : FrameMask). m x) (l.kept b)
                ∙ marked x (sym (ap (λ (m : FrameMask). m x) l.names) ∙ n);
          }))

  -- The slots delivered were marked for output.
  marked_none :
      (p1 : Player)
      → Entry p1.dec.to_get_frames p1.dec.output_frames p1.dec.non_base_frames 0 pic0
      → (x : ℕ) → bit pic0 x ≡ true
      → p1.dec.output_frames x ≡ true
  marked_none p1 e x t =
      let same = (==_iff x pic0).0 t in
      subst (λ z. p1.dec.output_frames z ≡ true) (sym same) e.output

  marked_both :
      (p1 : Player) (y : ℕ)
      → p1.dec.output_frames pic0 ≡ true
      → p1.dec.output_frames y ≡ true
      → (x : ℕ) → (bit pic0 ∪ bit y) x ≡ true
      → p1.dec.output_frames x ≡ true
  marked_both p1 y a b x t = elim (Bool-cases (x == pic0)) [
    | inl u ↦ subst (λ z. p1.dec.output_frames z ≡ true) (sym ((==_iff x pic0).0 u)) a
    | inr u ↦
        let v : (x == y) ≡ true = ground arith in
        subst (λ z. p1.dec.output_frames z ≡ true) (sym ((==_iff x y).0 v)) b
  ]

  pub paired-Outcome :
      (p1 : Player) (found : Option (ℕ × ℕ))
      → PairOk p pic0 (p1, found)
      → Outcome p borrow (deliver_paired borrow idx0 pic0 (p1, found))
  unfolding deliver_paired deliver add_pic
  paired-Outcome p1 (some (k, y)) ok =
      let at0 : get_elem? (p1.dec.get_frame_queue 0) idx0 ≡ some (some pic0) =
        ap (λ q. get_elem? q idx0) ok.base_queue ∙ f.at in
      let at1 = ok.at k y refl in
      let l =
        unborrow-Left p1 borrow pic0 (some y) (deliver_dependent k y (deliver_base p1 idx0 pic0))
          (deliver_dependent-Left p1 idx0 pic0 ok.queued at0 k y at1) in
      let e0 = base-Entry p1 idx0 pic0 ok.queued at0 in
      let e1 =
        AllSome-at (Entry p1.dec.to_get_frames p1.dec.output_frames p1.dec.non_base_frames 1)
          (p1.dec.get_frame_queue 1) k y (ok.queued.entries 1 (omega arith)) at1 in
      (
        l.queued,
        Left-Delivered p1 (some y) _ l ok.same_to_get
            (λ z e.
              let q : y ≡ z = cc in
              subst (λ w. (frame_complete p w ≡ true) × (same_access_unit p.dec pic0 w ≡ true)) q
                (ok.complete k y refl, ok.same k y refl))
            (λ z e.
              let q : y ≡ z = cc in
              subst (λ w. (p.dec.to_get_frames w ≡ true) × (p.dec.non_base_frames w ≡ true)) q
                (
                  ap (λ (m : FrameMask). m y) (sym ok.same_to_get) ∙ e1.to_get,
                  ap (λ (m : FrameMask). m y) (sym ok.same_view) ∙ e1.view,
                ))
            (marked_both p1 y e0.output e1.output),
      )
  paired-Outcome p1 none ok =
      let at0 : get_elem? (p1.dec.get_frame_queue 0) idx0 ≡ some (some pic0) =
        ap (λ q. get_elem? q idx0) ok.base_queue ∙ f.at in
      let l =
        unborrow-Left p1 borrow pic0 none (deliver_base p1 idx0 pic0)
          (deliver_base-Left p1 idx0 pic0 ok.queued at0) in
      if_elim (Outcome p borrow) (not p1.mvc || force_unpaired p1 pic0)
        (
          l.queued,
          Left-Delivered p1 none _ l ok.same_to_get (λ z e. cc) (λ z e. cc)
              (marked_none p1 (base-Entry p1 idx0 pic0 ok.queued at0)),
        )
        ok.queued
