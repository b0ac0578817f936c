-- ===== src/Marking/Capacity.antt =====
-- The references stay within max_num_ref_frames: what the steps of the marking have in common.
use mathlib.Core.Path.{fun_ext}
use edge264_mvc.Common.{
  ℕ, suc, ◌≤◌, ◌<◌, ◌≡◌, refl, Bool, true, false, not, ◌&&◌, ◌||◌, arith, ltb, ◌==◌, if◌then◌else◌,
  ltb→ge,
}
use edge264_mvc.Common.Int.{pos, ◌<ℤ◌}
use edge264_mvc.Common.Masks.{FrameMask, max_frames, bit, ◌∪◌, ◌∖◌, ◌△◌, mask_popcount, mask_any}
use edge264_mvc.Common.Masks.Count.{Within, popcount_remove}
use edge264_mvc.Decoder.{Decoder, int_max}
use edge264_mvc.ParameterSets.{Sps}
use edge264_mvc.Marking.Base.{surplus, discard_surplus}
use edge264_mvc.Marking.Base.{lowest_from}
use edge264_mvc.Marking.Lowest.{lowest_from-inv}

-- The slots marked as reference.
abbrev pub refs : Decoder → FrameMask
refs d = d.short_term_frames ∪ d.long_term_frames

-- No FrameNum has reached INT_MAX, from which the searches for the lowest start.
abbrev pub SmallNums : Decoder → Type 0
SmallNums d = (i : ℕ) → d.frame_nums i <ℤ int_max

-- All references are among `r`.
pub record Fits (r : FrameMask) (d : Decoder) : Type 0 where
  pub within : Within (refs d) r
  pub small : SmallNums d

-- Marking or unmarking a slot of `r` leaves all references among `r`.
module _ (a b r : FrameMask) (j : ℕ) (h : Within (a ∪ b) r) (e : r j ≡ true) where
  same_slot : (i : ℕ) → i ≡ j → r i ≡ true
  same_slot i q = rw q e

  pub Within-drop : Within ((a △ bit j) ∪ (b ∖ bit j)) r
  Within-drop i = ground (arith, h i, same_slot i)

  pub Within-toggle : Within (a ∪ (b △ bit j)) r
  Within-toggle i = ground (arith, h i, same_slot i)

  pub Within-add_long : Within (a ∪ (b ∪ bit j)) r
  Within-add_long i = ground (arith, h i, same_slot i)

-- The slot given up is a reference.
surplus-mem :
    (d : Decoder) (cur : ℕ)
    → cur < max_frames
    → refs d cur ≡ true
    → (surplus d cur < max_frames) × (refs d (surplus d cur) ≡ true)
unfolding surplus
surplus-mem d cur lt e =
    lowest_from-inv Marked (d.short_term_frames ∖ bit cur) d.frame_nums _
      (among_longs (mask_any d.short_term_frames)) (λ i l h. (l, ground arith))
  where
    Marked : ℕ → Type 0
    Marked i = (i < max_frames) × (refs d i ≡ true)

    among_longs :
        (b : Bool)
        → Marked
            (if b
              then (cur, int_max)
              else lowest_from d.long_term_frames
                  (λ i. pos (d.long_term_frame_idx i))
                  (cur, int_max)).0
    among_longs true = (lt, e)
    among_longs false =
        lowest_from-inv Marked d.long_term_frames (λ i. pos (d.long_term_frame_idx i))
          (cur, int_max) (lt, e) (λ i l h. (l, ground arith))

or_minus : (a b c : Bool) → ((a && not c) || (b && not c)) ≡ ((a || b) && not c)
or_minus a b c = ground arith

-- Giving up a reference where there is one too many leaves max_num_ref_frames at most.
pub discard_surplus-le :
    (d : Decoder) (sps : Sps) (cur : ℕ)
    → cur < max_frames
    → refs d cur ≡ true
    → mask_popcount (refs d) ≤ suc sps.max_num_ref_frames
    → mask_popcount (refs (discard_surplus d sps cur)) ≤ sps.max_num_ref_frames
unfolding discard_surplus
discard_surplus-le d sps cur lt e h = go (ltb sps.max_num_ref_frames (mask_popcount (refs d))) refl
  where
    s : ℕ
    s = surplus d cur

    given_up : Decoder
    given_up = record d {
      short_term_frames = d.short_term_frames ∖ bit s;
      long_term_frames = d.long_term_frames ∖ bit s;
    }

    same : refs given_up ≡ (refs d ∖ bit s)
    same = fun_ext λ i. or_minus (d.short_term_frames i) (d.long_term_frames i) (i == s)

    one_less : suc (mask_popcount (refs d ∖ bit s)) ≡ mask_popcount (refs d)
    one_less = let (l, m) = surplus-mem d cur lt e in popcount_remove s (refs d) l m

    go :
        (b : Bool)
        → ltb sps.max_num_ref_frames (mask_popcount (refs d)) ≡ b
        → mask_popcount (refs (if b then given_up else d)) ≤ sps.max_num_ref_frames
    go true over = rw same (omega (arith, one_less))
    go false fits = ltb→ge _ _ fits
