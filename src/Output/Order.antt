-- ===== src/Output/Order.antt =====
-- Display ranks: the loop of `bump_frame` calls gives them in output order.
use edge264_mvc.Common.{
  ℕ, zero, suc, ◌+◌, ◌^◌, ◌≤◌, ◌<◌, ◌≡◌, refl, ap, ◌∙◌, ◌⊎◌, inl, inr, true, false, ◌==◌, arith,
  Bool-cases,
}
use edge264_mvc.Common.Int.{ℤ, pos, pos_part, neg_part, ◌+ℤ◌, ◌≤ℤ◌, ◌<ℤ◌, int32}
use edge264_mvc.Common.Masks.{FrameMask, max_frames, mask_popcount}
use edge264_mvc.Common.Masks.Count.{popcount-le}
use edge264_mvc.Decoder.{Decoder, frame_poc, queue_push}
use edge264_mvc.Output.{waiting, emit, bump_while_from, bump_while}
use edge264_mvc.Output.Choice.{eligible, NotAfter}
use edge264_mvc.Output.Bump.{
  bump_frame_lem, eligible-emit, waiting_fewer, bump_while-step, bump_while-stop,
}

-- Slot `i` comes out before slot `j`: the lower order count, or the same one and decoded earlier.
abbrev pub Before : Decoder → ℕ → ℕ → Type 0
Before d i j =
    (frame_poc d i <ℤ frame_poc d j)
    ⊎ ((frame_poc d i ≡ frame_poc d j) × (d.frame_ids i <ℤ d.frame_ids j))

Before-emit : (d : Decoder) (view p i j : ℕ) → Before d i j → Before (emit d view p) i j
unfolding emit queue_push frame_poc
Before-emit d view p i j h = h

disp_order-emit_self : (d : Decoder) (view p : ℕ) → (emit d view p).disp_order p ≡ d.next_dispnum
unfolding emit queue_push
disp_order-emit_self d view p = ground arith

disp_order-emit_ne :
    (d : Decoder) (view p i : ℕ) → (i == p) ≡ false → (emit d view p).disp_order i ≡ d.disp_order i
unfolding emit queue_push
disp_order-emit_ne d view p i h = ground arith

next_dispnum-emit :
    (d : Decoder) (view p : ℕ) → (emit d view p).next_dispnum ≡ int32 (d.next_dispnum +ℤ pos 1)
unfolding emit queue_push
next_dispnum-emit d view p = refl

-- The next rank is a number, and `n` more pictures may get one before it leaves the range of int.
abbrev pub RanksLeft : Decoder → ℕ → Type 0
RanksLeft d n = (rank : ℕ) × (d.next_dispnum ≡ pos rank) × (rank + n < 2 ^ 31)

one_more : (rank : ℕ) → rank + 1 < 2 ^ 31 → int32 (pos rank +ℤ pos 1) ≡ pos (suc rank)
unfolding ◌+ℤ◌
one_more rank h = ground arith

RanksLeft-emit :
    (d : Decoder) (view p n k : ℕ)
    → suc k ≤ n
    → RanksLeft d n
    → (RanksLeft (emit d view p) k)
      × ((r : ℤ) → (emit d view p).next_dispnum ≤ℤ r → d.next_dispnum <ℤ r)
RanksLeft-emit d view p n k le (rank, e, h) = (
  (suc rank, next, omega arith),
  λ r l. omega (arith, ap pos_part e, ap neg_part e, ap pos_part next, ap neg_part next),
)
  where
    next : (emit d view p).next_dispnum ≡ pos (suc rank)
    next = next_dispnum-emit d view p ∙ ap (λ v. int32 (v +ℤ pos 1)) e ∙ one_more rank (omega arith)

not-Before : (d : Decoder) (p i : ℕ) → NotAfter d p i → ¬ (Before d i p)
not-Before d p i h b = ground arith

Before-self : (d : Decoder) (p : ℕ) → ¬ (Before d p p)
Before-self d p b = ground arith

module _ (view : ℕ) (ignored : FrameMask) where
  -- An eligible slot is not one that is not, and stays eligible while another is queued.
  slot_ne :
      (d : Decoder) (p i : ℕ)
      → eligible d view ignored p ≡ true
      → eligible d view ignored i ≡ false
      → (i == p) ≡ false
  slot_ne d p i el h = elim (Bool-cases (i == p)) [
    | inl e ↦ let e' : i ≡ p = ground arith in cc
    | inr e ↦ e
  ]

  stays_out :
      (d : Decoder) (p i : ℕ)
      → eligible d view ignored p ≡ true
      → eligible d view ignored i ≡ false
      → eligible (emit d view p) view ignored i ≡ false
  stays_out d p i el h = rw (eligible-emit d view ignored p i el, h)

  stays_in :
      (d : Decoder) (p i : ℕ)
      → eligible d view ignored p ≡ true
      → eligible d view ignored i ≡ true
      → (i == p) ≡ false
      → eligible (emit d view p) view ignored i ≡ true
  stays_in d p i el h ne = rw (eligible-emit d view ignored p i el, h, ne)

  leaves :
      (d : Decoder) (p : ℕ)
      → eligible d view ignored p ≡ true
      → eligible (emit d view p) view ignored p ≡ false
  leaves d p el =
      let e : (p == p) ≡ true = ground arith in rw (eligible-emit d view ignored p p el, el, e)

  -- The rank of a slot that is not eligible stays.
  kept_rank :
      (fuel : ℕ) (d : Decoder) (i : ℕ)
      → eligible d view ignored i ≡ false
      → (bump_while_from fuel d view ignored).disp_order i ≡ d.disp_order i
  kept_rank zero d i h = unfold bump_while_from in refl
  kept_rank (suc fuel) d i h = elim (bump_frame_lem d view ignored) [
    | inl (p, lt, el, best, e) ↦ rw (bump_while-step d view ignored fuel e) (
        kept_rank fuel (emit d view p) i (stays_out d p i el h)
        ∙ disp_order-emit_ne d view p i (slot_ne d p i el h))
    | inr (idle, e) ↦ rw (bump_while-stop d view ignored fuel e)
  ]

  -- The picture queued first takes the next rank, the others later ones.
  first_rank :
      (fuel : ℕ) (d : Decoder) (p : ℕ)
      → eligible d view ignored p ≡ true
      → (bump_while_from fuel (emit d view p) view ignored).disp_order p ≡ d.next_dispnum
  first_rank fuel d p el =
      kept_rank fuel (emit d view p) p (leaves d p el) ∙ disp_order-emit_self d view p

  -- Enough ranks for all that may be queued.
  abbrev EnoughRanks : Decoder → Type 0
  EnoughRanks d = RanksLeft d (mask_popcount (waiting d view ignored))

  enough :
      (d : Decoder) (p : ℕ)
      → p < max_frames
      → eligible d view ignored p ≡ true
      → EnoughRanks d
      → EnoughRanks (emit d view p)
        × ((r : ℤ) → (emit d view p).next_dispnum ≤ℤ r → d.next_dispnum <ℤ r)
  enough d p lt el l =
      RanksLeft-emit d view p (mask_popcount (waiting d view ignored))
        (mask_popcount (waiting (emit d view p) view ignored))
        (omega (arith, waiting_fewer d view ignored p lt el)) l

  later_rank :
      (fuel : ℕ) (d : Decoder) (i : ℕ)
      → mask_popcount (waiting d view ignored) < fuel
      → i < max_frames
      → eligible d view ignored i ≡ true
      → EnoughRanks d
      → d.next_dispnum ≤ℤ (bump_while_from fuel d view ignored).disp_order i
  later_rank zero d i h lt el l = absurd (omega arith)
  later_rank (suc fuel) d i h lt el l = elim (bump_frame_lem d view ignored) [
    | inl (p, plt, pel, best, e) ↦
        rw (bump_while-step d view ignored fuel e) (elim (Bool-cases (i == p)) [
          | inl q ↦ let q' : i ≡ p = ground arith in rw (q', first_rank fuel d p pel) (omega arith)
          | inr q ↦
              let next = enough d p plt pel l in
              omega (
                arith,
                next.1 _ (
                    later_rank fuel (emit d view p) i
                      (omega (arith, waiting_fewer d view ignored p plt pel)) lt
                      (stays_in d p i pel el q) next.0),
              )
        ])
    | inr (idle, e) ↦ cc (idle i lt)
  ]

  first_before :
      (fuel : ℕ) (d : Decoder) (p j : ℕ)
      → mask_popcount (waiting d view ignored) < suc fuel
      → p < max_frames
      → j < max_frames
      → eligible d view ignored p ≡ true
      → eligible d view ignored j ≡ true
      → Before d p j
      → EnoughRanks d
      → (bump_while_from fuel (emit d view p) view ignored).disp_order p
        <ℤ (bump_while_from fuel (emit d view p) view ignored).disp_order j
  first_before fuel d p j h plt ltj pel elj b l = elim (Bool-cases (j == p)) [
    | inl r ↦ let r' : j ≡ p = ground arith in absurd (Before-self d p (rw r' at b))
    | inr r ↦ rw (first_rank fuel d p pel) (
        (enough d p plt pel l).1 _ (
          later_rank fuel (emit d view p) j (omega (arith, waiting_fewer d view ignored p plt pel))
            ltj (stays_in d p j pel elj r) (enough d p plt pel l).0))
  ]

  ranks_sorted :
      (fuel : ℕ) (d : Decoder) (i j : ℕ)
      → mask_popcount (waiting d view ignored) < fuel
      → i < max_frames
      → j < max_frames
      → eligible d view ignored i ≡ true
      → eligible d view ignored j ≡ true
      → Before d i j
      → EnoughRanks d
      → (bump_while_from fuel d view ignored).disp_order i
        <ℤ (bump_while_from fuel d view ignored).disp_order j
  ranks_sorted zero d i j h lti ltj eli elj b l = absurd (omega arith)
  ranks_sorted (suc fuel) d i j h lti ltj eli elj b l = elim (bump_frame_lem d view ignored) [
    | inl (p, plt, pel, best, e) ↦
        rw (bump_while-step d view ignored fuel e) (elim (Bool-cases (i == p)) [
          | inl q ↦
              let q' : i ≡ p = ground arith in
              rw q' (first_before fuel d p j h plt ltj pel elj (rw q' at b) l)
          | inr q ↦ elim (Bool-cases (j == p)) [
            | inl r ↦
                let r' : j ≡ p = ground arith in
                absurd (not-Before d p i (best i lti eli) (rw r' at b))
            | inr r ↦
                ranks_sorted fuel (emit d view p) i j
                  (omega (arith, waiting_fewer d view ignored p plt pel)) lti ltj
                  (stays_in d p i pel eli q) (stays_in d p j pel elj r) (Before-emit d view p i j b)
                  (enough d p plt pel l).0
          ]
        ])
    | inr (idle, e) ↦ cc (idle i lti)
  ]

-- The loop of `bump_frame` calls gives display ranks in output order: of two pictures eligible when
-- it starts, the one with the lower order count, or with the same one and decoded earlier, gets the
-- lower rank, provided that next_dispnum is at least 0 and, raised by the number of waiting pictures, is
-- still below 2^31, so that no rank wraps.
pub bump_while-sorted :
    (d : Decoder) (view : ℕ) (ignored : FrameMask) (i j : ℕ)
    → i < max_frames
    → j < max_frames
    → eligible d view ignored i ≡ true
    → eligible d view ignored j ≡ true
    → Before d i j
    → RanksLeft d (mask_popcount (waiting d view ignored))
    → (bump_while d view ignored).disp_order i <ℤ (bump_while d view ignored).disp_order j
unfolding bump_while
bump_while-sorted d view ignored i j =
    ranks_sorted view ignored (suc max_frames) d i j
      (omega (arith, popcount-le (waiting d view ignored)))
