-- ===== src/Output/Choice.antt =====
-- The picture that `bump_frame` chooses: the eligible one that comes first.
use mathlib.Core.Logic.{◌⊎◌}
use edge264_mvc.Common.{
  ℕ, suc, ◌<◌, ◌≡◌, refl, true, false, ◌&&◌, ◌||◌, none, some, ◌==◌, arith, Bool-cases, below_suc,
  inl, inr,
}
use edge264_mvc.Common.Int.{◌≤ℤ◌, ◌<ℤ◌}
use edge264_mvc.Common.Masks.{FrameMask, max_frames, for_bits_rule}
use edge264_mvc.Decoder.{Decoder, int_max, frame_poc}
use edge264_mvc.Output.{waiting, is_paired, Choice, comes_before, consider, choose}

-- A slot that may be bumped: awaiting output in its view, and a dependent view only with its base.
abbrev pub eligible : Decoder → ℕ → FrameMask → FrameMask
eligible d view ignored i = waiting d view ignored i && (view == 0 || is_paired d i)

-- The order of output: by order count, and in decoding order where these are equal.
abbrev pub NotAfter : Decoder → ℕ → ℕ → Type 0
NotAfter d p i =
    (frame_poc d p <ℤ frame_poc d i)
    ⊎ ((frame_poc d p ≤ℤ frame_poc d i) × (d.frame_ids p ≤ℤ d.frame_ids i))

-- The choice among the slots below `k`.
abbrev pub IsBest : Decoder → ℕ → FrameMask → ℕ → Choice → Type 0
IsBest d view ignored k (none, lowest) = (i : ℕ) → i < k → eligible d view ignored i ≡ false
IsBest d view ignored k (some p, lowest) =
    (p < k)
    × (eligible d view ignored p ≡ true)
    × (lowest ≡ frame_poc d p)
    × ((i : ℕ) → i < k → eligible d view ignored i ≡ true → NotAfter d p i)

module _ (d : Decoder) (view : ℕ) (ignored : FrameMask) where
  -- A slot that is not eligible leaves the choice as it is.
  IsBest-skip :
      (k : ℕ) (c : Choice)
      → eligible d view ignored k ≡ false
      → IsBest d view ignored k c
      → IsBest d view ignored (suc k) c
  IsBest-skip k (none, l) e h = below_suc _ k h e
  IsBest-skip k (some p, l) e (lt, el, lo, best) =
      (omega arith, el, lo, below_suc _ k best (λ e'. cc))

  -- An eligible one is taken if it comes before the slot chosen so far.
  IsBest-take :
      (k : ℕ) (c : Choice)
      → eligible d view ignored k ≡ true
      → comes_before d k c ≡ true
      → IsBest d view ignored k c
      → IsBest d view ignored (suc k) (some k, frame_poc d k)
  unfolding comes_before
  IsBest-take k (none, l) e b h = (
    omega arith,
    e,
    refl,
    below_suc _ k (λ i lt e'. cc (h i lt)) (λ _. inr (omega arith, omega arith)),
  )
  IsBest-take k (some p, l) e b (lt, el, lo, best) = (
    omega arith,
    e,
    refl,
    below_suc _ k (λ i lt' e'. after i (best i lt' e')) (λ _. inr (omega arith, omega arith)),
  )
    where
      after : (i : ℕ) → NotAfter d p i → NotAfter d k i
      after i h = ground arith

  IsBest-keep :
      (k : ℕ) (c : Choice)
      → comes_before d k c ≡ false
      → IsBest d view ignored k c
      → IsBest d view ignored (suc k) c
  unfolding comes_before
  IsBest-keep k (none, l) b h = cc
  IsBest-keep k (some p, l) b (lt, el, lo, best) =
      (omega arith, el, lo, below_suc _ k best (λ _. kept))
    where
      kept : NotAfter d p k
      kept = ground arith

  IsBest-consider :
      (k : ℕ) (c : Choice)
      → waiting d view ignored k ≡ true
      → IsBest d view ignored k c
      → IsBest d view ignored (suc k) (consider d view k c)
  unfolding consider
  IsBest-consider k c w h = elim (Bool-cases (view == 0 || is_paired d k)) [
    | inl p ↦ elim (Bool-cases (comes_before d k c)) [
      | inl b ↦ rw (p, b) (IsBest-take k c (rw (w, p)) b h)
      | inr b ↦ rw (p, b) (IsBest-keep k c b h)
    ]
    | inr p ↦ rw p (IsBest-skip k c (rw (w, p)) h)
  ]

  -- The selection loop ends with an eligible slot, its order count, and no eligible slot that comes
  -- before it by order count and then by decoding order, or with none, and then no slot is eligible.
  pub choose-IsBest : IsBest d view ignored max_frames (choose d view ignored)
  unfolding choose
  choose-IsBest =
      for_bits_rule (IsBest d view ignored) (waiting d view ignored) (consider d view)
        (λ k c lt. IsBest-consider k c) (λ k c w. IsBest-skip k c (rw w)) (none, int_max)
        (λ i lt. absurd (omega arith))
