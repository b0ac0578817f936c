-- ===== src/Frames/Delivered.antt =====
-- What `get_frame` delivers, and that it keeps the output queues.
use edge264_mvc.Common.{
  ℕ, ◌^◌, ◌<◌, ◌≡◌, ◌≢◌, refl, sym, ap, ◌∙◌, Bool, true, false, not, ◌&&◌, Option, none, some,
  arith, ◌==◌, ==_iff, if_elim, get_elem?,
}
use mathlib.Core.Path.{subst, ap₂}
use native.Mathlib.Decide.{ℕ_discrete}
use edge264_mvc.Common.Masks.{FrameMask, max_frames, empty, bit, ◌∖◌, ◌△◌}
use edge264_mvc.Delivery.{slot_byte, handle_of, handle_frames, add_pic}
use edge264_mvc.Delivery.Handles.{handle_pic-handle_of}
use edge264_mvc.Frames.{Player, Output}
use edge264_mvc.Frames.Deliver.{deliver_base, deliver_dependent, unborrow}
use edge264_mvc.Frames.Queues.{Queued, Entry, AllSome-at, remove-QueuesOk, clear-QueuesOk}
use edge264_mvc.Frames.{is_pic}

-- A slot that the handle names is one of the two.
handle_frames-of :
    (pic0 : ℕ) (pic1 : Option ℕ)
    → pic0 < max_frames
    → slot_byte pic1 < 2 ^ 8
    → handle_frames (handle_of (some pic0) pic1) ≡ add_pic pic1 (bit pic0)
unfolding handle_frames
handle_frames-of pic0 pic1 lt lt1 =
    let e = handle_pic-handle_of (some pic0) pic1 (omega arith) lt1 in
    ap₂ (λ a b. add_pic b (add_pic a empty)) e.0 e.1

-- The queues once a base view has left.
deliver_base-Queued :
    (p : Player) (idx0 pic0 : ℕ)
    → Queued p.dec
    → get_elem? (p.dec.get_frame_queue 0) idx0 ≡ some (some pic0)
    → Queued (deliver_base p idx0 pic0).1.dec
unfolding deliver_base
deliver_base-Queued p idx0 pic0 h at =
    remove-QueuesOk p.dec.to_get_frames p.dec.output_frames p.dec.non_base_frames
      p.dec.get_frame_queue h 0 pic0 (omega arith) idx0 (p.dec.to_get_frames ∖ bit pic0)
      p.dec.output_frames at (λ x ne g. ground (arith, ==_iff x pic0)) (λ x ne o. o)

deliver_dependent-Queued :
    (idx1 pic1 : ℕ) (q : Output × Player)
    → Queued q.1.dec
    → get_elem? (q.1.dec.get_frame_queue 1) idx1 ≡ some (some pic1)
    → Queued (deliver_dependent idx1 pic1 q).1.dec
unfolding deliver_dependent
deliver_dependent-Queued idx1 pic1 (out, p) h at =
    remove-QueuesOk p.dec.to_get_frames p.dec.output_frames p.dec.non_base_frames
      p.dec.get_frame_queue h 1 pic1 (omega arith) idx1 (p.dec.to_get_frames △ bit pic1)
      p.dec.output_frames at (λ x ne g. ground (arith, ==_iff x pic1)) (λ x ne o. o)

-- The caller gives up slots that no longer await delivery.
unborrow-Queued :
    (borrow : Bool) (q : Output × Player)
    → Queued q.1.dec
    → ((x : ℕ) → q.1.dec.to_get_frames x ≡ true → handle_frames q.0.return_arg x ≡ false)
    → Queued (unborrow borrow q).1.dec
unfolding unborrow
unborrow-Queued borrow (out, p) h away =
    if_elim (λ (r : Output × Player). Queued r.1.dec) borrow h
      (clear-QueuesOk p.dec.to_get_frames p.dec.output_frames
        (p.dec.output_frames ∖ handle_frames out.return_arg) p.dec.non_base_frames
        p.dec.get_frame_queue (λ x g o. let a = away x g in ground arith) h)

-- What leaves with slots `pic0` and `pic1`, and what stays.
pub record Left (p : Player) (borrow : Bool) (pic0 : ℕ) (pic1 : Option ℕ) (r : Output × Player)
    : Type 0 where
  pub queued : Queued r.1.dec
  pub out0 : r.0.pic0 ≡ pic0
  pub out1 : r.0.pic1 ≡ pic1
  pub names : handle_frames r.0.return_arg ≡ add_pic pic1 (bit pic0)
  pub gone :
      (x : ℕ)
      → r.1.dec.to_get_frames x ≡ (p.dec.to_get_frames x && not (x == pic0) && not (is_pic pic1 x))
  pub kept : borrow ≡ true → r.1.dec.output_frames ≡ p.dec.output_frames

unnamed :
    (pic0 x : ℕ) (pic1 : Option ℕ) (g : Bool)
    → (g && not (x == pic0) && not (is_pic pic1 x)) ≡ true
    → add_pic pic1 (bit pic0) x ≡ false
unfolding add_pic
unnamed pic0 x none g e = ground arith
unnamed pic0 x (some y) g e = ground arith

pub unborrow-Left :
    (p : Player) (borrow : Bool) (pic0 : ℕ) (pic1 : Option ℕ) (q : Output × Player)
    → Left p true pic0 pic1 q
    → Left p borrow pic0 pic1 (unborrow borrow q)
unfolding unborrow
unborrow-Left p true pic0 pic1 q l = l
unborrow-Left p false pic0 pic1 (out, p') l = record {
  queued =
      unborrow-Queued false (out, p') l.queued
        (λ x g.
          ap (λ (m : FrameMask). m x) l.names
          ∙ unnamed pic0 x pic1 (p.dec.to_get_frames x) (sym (l.gone x) ∙ g));
  out0 = l.out0;
  out1 = l.out1;
  names = l.names;
  gone = l.gone;
  kept = λ e. cc;
}

toggled :
    (g : FrameMask) (a b : ℕ)
    → g b ≡ true
    → b ≢ a
    → (x : ℕ) → ((g ∖ bit a) △ bit b) x ≡ (g x && not (x == a) && not (b == x))
toggled g a b gb ne x = elim (ℕ_discrete b x) [
  | yes e ↦
      subst (λ z. ((g ∖ bit a) △ bit b) z ≡ (g z && not (z == a) && not (b == z))) e
        (let t : (b == a) ≡ false = ground arith in
          let u : (b == b) ≡ true = ground arith in rw (u, gb, t) refl)
  | no nx ↦
      let t : (b == x) ≡ false = ground arith in
      let u : (x == b) ≡ false = ground arith in rw (t, u) (ground arith)
]

module _ (p : Player) (idx0 pic0 : ℕ) (h : Queued p.dec)
    (at0 : get_elem? (p.dec.get_frame_queue 0) idx0 ≡ some (some pic0)) where
  pub base-Entry : Entry p.dec.to_get_frames p.dec.output_frames p.dec.non_base_frames 0 pic0
  base-Entry =
      AllSome-at (Entry p.dec.to_get_frames p.dec.output_frames p.dec.non_base_frames 0)
        (p.dec.get_frame_queue 0) idx0 pic0 (h.entries 0 (omega arith)) at0

  pub deliver_base-Left : Left p true pic0 none (deliver_base p idx0 pic0)
  unfolding deliver_base
  deliver_base-Left = record {
    queued = deliver_base-Queued p idx0 pic0 h at0;
    out0 = refl;
    out1 = refl;
    names = handle_frames-of pic0 none base-Entry.in_range (omega arith);
    gone = λ x. ground arith;
    kept = λ e. refl;
  }

  pub deliver_dependent-Left :
      (idx1 pic1 : ℕ)
      → get_elem? (p.dec.get_frame_queue 1) idx1 ≡ some (some pic1)
      → Left p true pic0 (some pic1) (deliver_dependent idx1 pic1 (deliver_base p idx0 pic0))
  unfolding deliver_dependent deliver_base
  deliver_dependent-Left idx1 pic1 at1 =
      let b = deliver_base-Left in
      let e1 =
        AllSome-at (Entry p.dec.to_get_frames p.dec.output_frames p.dec.non_base_frames 1)
          (p.dec.get_frame_queue 1) idx1 pic1 (h.entries 1 (omega arith)) at1 in
      record {
        queued = deliver_dependent-Queued idx1 pic1 (deliver_base p idx0 pic0) b.queued at1;
        out0 = refl;
        out1 = refl;
        names = handle_frames-of pic0 (some pic1) base-Entry.in_range (omega (arith, e1.in_range));
        gone = toggled p.dec.to_get_frames pic0 pic1 e1.to_get (apart e1);
        kept = λ e. refl;
      }
    where
      apart :
          Entry p.dec.to_get_frames p.dec.output_frames p.dec.non_base_frames 1 pic1 → pic1 ≢ pic0
      apart e1 same =
          let a : p.dec.non_base_frames pic0 ≡ true =
            subst (λ z. p.dec.non_base_frames z ≡ true) same e1.view in
          let b : p.dec.non_base_frames pic0 ≡ false = base-Entry.view in cc
