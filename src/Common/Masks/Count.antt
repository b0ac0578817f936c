-- ===== src/Common/Masks/Count.antt =====
-- Laws of counting the slots of a set.
use Prim.Native.Nat.{ℕ, zero, suc, ◌≤◌, ◌<◌}
use mathlib.Core.Path.{◌≡◌, refl}
use mathlib.Core.Logic.{inl, inr}
use mathlib.Core.Bool.{true, false}
use native.Mathlib.Omega.{arith}
use edge264_mvc.Common.Tests.{◌==◌, Bool-cases}
use edge264_mvc.Common.Masks.{
  FrameMask, max_frames, empty, bit, ◌∪◌, ◌∖◌, count_below, mask_popcount, any_below, mask_any,
}

-- `m` holds no slot that `n` lacks.
abbrev pub Within : FrameMask → FrameMask → Type 0
Within m n = (i : ℕ) → m i ≡ true → n i ≡ true

pub count_below_mono : (k : ℕ) (m n : FrameMask) → Within m n → count_below k m ≤ count_below k n
unfolding count_below
count_below_mono zero m n h = omega arith
count_below_mono (suc k) m n h = ground (arith, h k, count_below_mono k m n h)

-- A slot more or less.
pub count_below_add : (k j : ℕ) (m : FrameMask) → count_below k (m ∪ bit j) ≤ suc (count_below k m)
unfolding count_below
count_below_add zero j m = omega arith
count_below_add (suc k) j m = elim (Bool-cases (k == j)) [
  | inl e ↦ ground (arith, same)
  | inr e ↦ ground (arith, count_below_add k j m)
]
  where
    above : (k j : ℕ) (m : FrameMask) → k ≤ j → count_below k (m ∪ bit j) ≡ count_below k m
    above zero j m h = refl
    above (suc k) j m h = ground (arith, above k j m)

    same : k ≡ j → count_below k (m ∪ bit j) ≡ count_below k m
    same e = above k j m (omega arith)

pub count_below_outside :
    (k j : ℕ) (m : FrameMask) → k ≤ j → count_below k (m ∖ bit j) ≡ count_below k m
unfolding count_below
count_below_outside zero j m h = refl
count_below_outside (suc k) j m h = ground (arith, count_below_outside k j m)

pub count_below_remove :
    (k j : ℕ) (m : FrameMask)
    → j < k
    → m j ≡ true
    → suc (count_below k (m ∖ bit j)) ≡ count_below k m
unfolding count_below
count_below_remove zero j m h e = absurd (omega arith)
count_below_remove (suc k) j m h e = elim (Bool-cases (k == j)) [
  | inl p ↦ ground (arith, count_below_outside k j m)
  | inr p ↦ ground (arith, count_below_remove k j m)
]

pub popcount_mono : (m n : FrameMask) → Within m n → mask_popcount m ≤ mask_popcount n
popcount_mono m n h = unfold mask_popcount in count_below_mono max_frames m n h

pub popcount_add : (j : ℕ) (m : FrameMask) → mask_popcount (m ∪ bit j) ≤ suc (mask_popcount m)
popcount_add j m = unfold mask_popcount in count_below_add max_frames j m

pub popcount_remove :
    (j : ℕ) (m : FrameMask)
    → j < max_frames
    → m j ≡ true
    → suc (mask_popcount (m ∖ bit j)) ≡ mask_popcount m
popcount_remove j m h e = unfold mask_popcount in count_below_remove max_frames j m h e

count_below-le : (k : ℕ) (m : FrameMask) → count_below k m ≤ k
unfolding count_below
count_below-le zero m = omega arith
count_below-le (suc k) m = ground (arith, count_below-le k m)

pub popcount-le : (m : FrameMask) → mask_popcount m ≤ max_frames
popcount-le m = unfold mask_popcount in count_below-le max_frames m

any_below-false : (k : ℕ) (m : FrameMask) → ((i : ℕ) → i < k → m i ≡ false) → any_below k m ≡ false
unfolding any_below
any_below-false zero m h = refl
any_below-false (suc k) m h =
    rw (h k (omega arith), any_below-false k m (λ i lt. h i (omega arith)))

-- A set with no slot below `MAX_FRAMES` is zero.
pub mask_any-false : (m : FrameMask) → ((i : ℕ) → i < max_frames → m i ≡ false) → mask_any m ≡ false
mask_any-false m h = unfold mask_any in any_below-false max_frames m h

any_below-none : (k : ℕ) (m : FrameMask) → any_below k m ≡ false → (i : ℕ) → i < k → m i ≡ false
unfolding any_below
any_below-none zero m h i lt = absurd (omega arith)
any_below-none (suc k) m h i lt = elim (Bool-cases (i == k)) [
  | inl e ↦ let same : i ≡ k = ground arith in rw same (ground arith)
  | inr e ↦ any_below-none k m (ground arith) i (ground arith)
]

pub mask_any-none : (m : FrameMask) → mask_any m ≡ false → (i : ℕ) → i < max_frames → m i ≡ false
unfolding mask_any
mask_any-none m h = any_below-none max_frames m h

count_empty : (k : ℕ) → count_below k empty ≡ 0
unfolding count_below
count_empty zero = refl
count_empty (suc k) = ground (arith, count_empty k)

popcount_empty : mask_popcount empty ≡ 0
popcount_empty = unfold mask_popcount in count_empty max_frames

count_below-none : (k : ℕ) (m : FrameMask) → ((i : ℕ) → i < k → m i ≡ false) → count_below k m ≡ 0
unfolding count_below
count_below-none zero m h = refl
count_below-none (suc k) m h =
    ground (arith, h k (omega arith), count_below-none k m (λ i lt. h i (omega arith)))

pub popcount-none : (m : FrameMask) → ((i : ℕ) → i < max_frames → m i ≡ false) → mask_popcount m ≡ 0
popcount-none m h = unfold mask_popcount in count_below-none max_frames m h

-- A set of one slot at most.
pub popcount-bit : (cur : ℕ) (m : FrameMask) → Within m (bit cur) → mask_popcount m ≤ 1
popcount-bit cur m h = omega (
  arith,
  popcount_mono m (empty ∪ bit cur) (λ i. ground (arith, h i)),
  popcount_add cur empty,
  popcount_empty,
)
