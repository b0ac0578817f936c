-- ===== src/Marking/FrameCapacity.antt =====
-- The marking of a frame picture keeps the references within max_num_ref_frames.
use edge264_mvc.Common.{
  ℕ, zero, suc, ◌≤◌, ◌<◌, ◌≡◌, refl, ◌⊎◌, inl, inr, Bool, true, false, ◌&&◌, ◌||◌, arith, leb, ◌==◌,
  if◌then◌else◌, Bool-cases, if_elim,
}
use edge264_mvc.Common.Int.{ℤ, ◌<ℤ◌, eq_ℤ}
use edge264_mvc.Common.Masks.{
  FrameMask, max_frames, bit, ◌∪◌, mask_popcount, mask_any, for_bits_inv,
}
use edge264_mvc.Common.Masks.Count.{Within, popcount_mono, popcount_add}
use edge264_mvc.Decoder.{Decoder, int_max}
use edge264_mvc.ParameterSets.{Sps}
use edge264_mvc.Output.Keeps.{SameMarking, SameMarking-bump_while}
use edge264_mvc.Marking.Base.{get_u1, get_ue16}
use edge264_mvc.Marking.Frame.{
  unmark_short, dereference_short, short_part, long_part, unmark_long, dereference_long, State,
  convert, dereference_all, mmco, mmco_loop, adaptive, oldest, give_up_oldest, slide, add_current,
  mark_fields, mark_frame,
}
use edge264_mvc.Marking.Lowest.{lowest_from-IsLowest}
use edge264_mvc.Marking.Capacity.{
  refs, SmallNums, Fits, Within-drop, Within-toggle, Within-add_long, discard_surplus-le,
}

pub Fits-same : (r : FrameMask) {d e : Decoder} → SameMarking d e → Fits r d → Fits r e
Fits-same r s f = record { within = rw (s.shorts, s.longs) f.within; small = rw s.nums f.small }

pub Fits-get_ue16 : (r : FrameMask) (u : ℕ) {d : Decoder} → Fits r d → Fits r (get_ue16 u d).1
unfolding get_ue16
Fits-get_ue16 r u f = record { within = f.within; small = f.small }

pub Fits-get_u1 : (r : FrameMask) {d : Decoder} → Fits r d → Fits r (get_u1 d).1
unfolding get_u1
Fits-get_u1 r f = record { within = f.within; small = f.small }

-- A target is the current picture or one of `r`.
abbrev Target : FrameMask → ℕ → ℕ → Type 0
Target r cur t = (t ≡ cur) ⊎ (r t ≡ true)

module _ (r : FrameMask) (cur : ℕ) where
  unmark_short-Fits :
      (num : ℤ) (j : ℕ) (s : Decoder × ℕ)
      → r j ≡ true
      → Fits r s.0 × Target r cur s.1
      → Fits r (unmark_short num j s).0 × Target r cur (unmark_short num j s).1
  unfolding unmark_short
  unmark_short-Fits num j (d, t) e (f, h) = elim (Bool-cases (eq_ℤ (d.frame_nums j) num)) [
    | inl q ↦ rw q (record { within = Within-drop _ _ r j f.within e; small = f.small }, inr e)
    | inr q ↦ rw q (f, h)
  ]

  dereference_short-Fits :
      (d : Decoder)
      → Fits r d
      → Fits r (dereference_short d cur).0 × Target r cur (dereference_short d cur).1
  unfolding dereference_short
  dereference_short-Fits d f =
      let g = Fits-get_ue16 r 0xffff_fffe f in
      for_bits_inv (λ (s : Decoder × ℕ). Fits r s.0 × Target r cur s.1) _ _
        (λ j s lt e. unmark_short-Fits _ j s (g.within j (rw e))) _ (g, inl refl)

  unmark_long-Fits :
      (idx up j : ℕ) (d : Decoder) → r j ≡ true → Fits r d → Fits r (unmark_long idx up j d)
  unfolding unmark_long
  unmark_long-Fits idx up j d e f =
      elim (Bool-cases (leb idx (d.long_term_frame_idx j) && leb (d.long_term_frame_idx j) up)) [
        | inl q ↦ rw q (record { within = Within-toggle _ _ r j f.within e; small = f.small })
        | inr q ↦ rw q f
      ]

  dereference_long-Fits :
      (sps : Sps) (op : ℕ) (d : Decoder) → Fits r d → Fits r (dereference_long d sps op).1
  unfolding dereference_long
  dereference_long-Fits sps op d f =
      let g = Fits-get_ue16 r _ f in
      for_bits_inv (Fits r) _ _ (λ j s lt e. unmark_long-Fits _ _ j s (g.within j (ground arith))) _
        g

  convert-Fits :
      (op t idx : ℕ) (s : State) → Target r cur t → Fits r s.0 → Fits r (convert op cur t idx s).0
  unfolding convert
  convert-Fits op t idx (d, flag) h f =
      if_elim (λ (s : State). Fits r s.0) (op == 6) (record { within = f.within; small = f.small })
        (if_elim (λ (s : State). Fits r s.0) (op == 3)
          (record { within = kept (t == cur) refl; small = f.small }) f)
    where
      kept :
          (b : Bool)
          → (t == cur) ≡ b
          → Within
              (d.short_term_frames ∪ (if b then d.long_term_frames else d.long_term_frames ∪ bit t))
              r
      kept true e = f.within
      kept false e =
          Within-add_long _ _ r t f.within (elim h [ inl q ↦ absurd (ground arith) | inr q ↦ q ])

  dereference_all-Fits : (d : Decoder) → Fits r d → Fits r (dereference_all d cur)
  unfolding dereference_all
  dereference_all-Fits d f = Fits-same r (SameMarking-bump_while _ _ _) (record {
    within = λ i e. cc;
    small = λ i. if_elim (λ (v : ℤ). v <ℤ int_max) (cur == i) (omega arith) (f.small i);
  })

  short_part-Fits :
      (op : ℕ) (d : Decoder)
      → Fits r d
      → Fits r (short_part cur op d).0 × Target r cur (short_part cur op d).1
  unfolding short_part
  short_part-Fits op d f =
      if_elim (λ (s : Decoder × ℕ). Fits r s.0 × Target r cur s.1) (op == 1 || op == 3)
        (dereference_short-Fits d f) (f, inl refl)

  long_part-Fits :
      (sps : Sps) (op t : ℕ) (s : State)
      → Target r cur t
      → Fits r s.0
      → Fits r (long_part sps cur op t s).0
  unfolding long_part
  long_part-Fits sps op t (d, flag) h f =
      if_elim (λ (s : State). Fits r s.0) (op == 2 || op == 3 || op == 4 || op == 6)
        (convert-Fits op t _ _ h (dereference_long-Fits sps op d f)) f

  mmco-Fits : (sps : Sps) (op : ℕ) (s : State) → Fits r s.0 → Fits r (mmco sps cur op s).0
  unfolding mmco
  mmco-Fits sps op (d, flag) f =
      let (g, h) = short_part-Fits op d f in
      let k = long_part-Fits sps op (short_part cur op d).1 ((short_part cur op d).0, flag) h g in
      if_elim (Fits r) (op == 5) (dereference_all-Fits _ k) k

  mmco_loop-Fits : (i : ℕ) (sps : Sps) (s : State) → Fits r s.0 → Fits r (mmco_loop i sps cur s).0
  unfolding mmco_loop
  mmco_loop-Fits zero sps (d, flag) f = Fits-get_ue16 r 6 f
  mmco_loop-Fits (suc i) sps (d, flag) f =
      let g = Fits-get_ue16 r 6 f in
      if_elim (λ (s : State). Fits r s.0) ((get_ue16 6 d).0 == 0) g
        (mmco_loop-Fits i sps (mmco sps cur (get_ue16 6 d).0 ((get_ue16 6 d).1, flag))
          (mmco-Fits sps (get_ue16 6 d).0 ((get_ue16 6 d).1, flag) g))

  adaptive-Fits : (d : Decoder) (sps : Sps) → Fits r d → Fits r (adaptive d sps cur).0
  unfolding adaptive
  adaptive-Fits d sps f =
      let g = Fits-get_u1 r f in
      if_elim (λ (s : State). Fits r s.0) ((get_u1 d).0 == 0) g (mmco_loop-Fits 32 sps _ g)

-- The window gives up a short-term reference, so it adds no slot.
oldest-mem :
    (d : Decoder)
    → SmallNums d
    → mask_any d.short_term_frames ≡ true
    → d.short_term_frames (oldest d) ≡ true
unfolding oldest
oldest-mem d small e = (lowest_from-IsLowest d.short_term_frames d.frame_nums small 0 e).1

slide-Fits : (r : FrameMask) (d : Decoder) (sps : Sps) → Fits r d → Fits r (slide d sps)
unfolding slide
slide-Fits r d sps f = go (mask_any d.short_term_frames) refl
  where
    go :
        (b : Bool)
        → mask_any d.short_term_frames ≡ b
        → Fits r (
            if b && leb sps.max_num_ref_frames (mask_popcount (refs d))
            then give_up_oldest d
            else d)
    go true e =
        if_elim (Fits r) (leb sps.max_num_ref_frames (mask_popcount (refs d)))
          (record {
            within =
                Within-drop _ _ r (oldest d) f.within (f.within _ (rw (oldest-mem d f.small e)));
            small = f.small;
          })
          f
    go false e = f

pub one_more :
    (d : Decoder) (m : FrameMask) (cur : ℕ)
    → Within m (refs d ∪ bit cur)
    → mask_popcount m ≤ suc (mask_popcount (refs d))
one_more d m cur h = omega (arith, popcount_mono m (refs d ∪ bit cur) h, popcount_add cur (refs d))

-- The current picture is a reference now, and at most one more slot is.
add_current-refs :
    (s : State) (cur : ℕ)
    → (refs (add_current s cur) cur ≡ true)
      × (mask_popcount (refs (add_current s cur)) ≤ suc (mask_popcount (refs s.0)))
unfolding add_current
add_current-refs (d, true) cur = (
  ground arith,
  omega (
    arith,
    one_more d (d.short_term_frames ∪ (d.long_term_frames ∪ bit cur)) cur (λ i. ground arith),
  ),
)
add_current-refs (d, false) cur = (
  ground arith,
  omega (
    arith,
    one_more d ((d.short_term_frames ∪ bit cur) ∪ d.long_term_frames) cur (λ i. ground arith),
  ),
)

-- After the marking of a frame picture, whatever operations its header holds, the frames marked
-- short-term or long-term are no more than max_num_ref_frames, if they were so before.
pub mark_frame-capacity :
    (d : Decoder) (sps : Sps) (cur : ℕ)
    → cur < max_frames
    → SmallNums d
    → mask_popcount (refs d) ≤ sps.max_num_ref_frames
    → mask_popcount (refs (mark_frame d sps cur)) ≤ sps.max_num_ref_frames
unfolding mark_frame mark_fields
mark_frame-capacity d sps cur lt small h =
    discard_surplus-le (add_current slid cur) sps cur lt added.0
      (omega (arith, added.1, popcount_mono (refs slid.0) (refs d) fits.within))
  where
    marked : State
    marked = adaptive d sps cur

    slid : State
    slid = (slide marked.0 sps, marked.1)

    fits : Fits (refs d) slid.0
    fits =
        slide-Fits (refs d) _ sps
          (adaptive-Fits (refs d) cur d sps (record { within = λ i e. e; small = small }))

    added :
        (refs (add_current slid cur) cur ≡ true)
        × (mask_popcount (refs (add_current slid cur)) ≤ suc (mask_popcount (refs slid.0)))
    added = add_current-refs slid cur
