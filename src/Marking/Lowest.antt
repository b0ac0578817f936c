-- ===== src/Marking/Lowest.antt =====
-- The search for the lowest value of a set of slots.
use edge264_mvc.Common.{
  ℕ, suc, ◌<◌, ◌≡◌, refl, ap, ◌⊎◌, inl, inr, true, false, arith, Bool-cases, below_suc,
}
use edge264_mvc.Common.Int.{ℤ, pos_part, neg_part, ltb_ℤ, ◌≤ℤ◌, ◌<ℤ◌}
use edge264_mvc.Common.Masks.{FrameMask, max_frames, for_bits_inv, for_bits_rule, mask_any}
use edge264_mvc.Common.Masks.Count.{mask_any-false}
use edge264_mvc.Decoder.{int_max}
use edge264_mvc.Marking.Base.{lowest_step, lowest_from}

-- Whatever holds of the slots of the set and of the one that the search starts with holds of the
-- one that it ends with.
pub lowest_from-inv {ℓ} :
    (P : ℕ → Type ℓ) (m : FrameMask) (value : ℕ → ℤ) (start : ℕ × ℤ)
    → P start.0
    → ((i : ℕ) → i < max_frames → m i ≡ true → P i)
    → P (lowest_from m value start).0
unfolding lowest_from
lowest_from-inv P m value start h all =
    for_bits_inv (λ (s : ℕ × ℤ). P s.0) m (lowest_step value) keep start h
  where
    keep : (i : ℕ) (s : ℕ × ℤ) → i < max_frames → m i ≡ true → P s.0 → P (lowest_step value i s).0
    keep i (n, b) lt e p = elim (Bool-cases (ltb_ℤ (value i) b)) [
      | inl t ↦ rw (t, lowest_step) (all i lt e)
      | inr t ↦ rw (t, lowest_step) p
    ]

-- The search from INT_MAX among the slots below `k`.
abbrev IsLowest : FrameMask → (ℕ → ℤ) → ℕ → ℕ × ℤ → Type 0
IsLowest m value k (n, b) =
    ((n < k) × (m n ≡ true) × (b ≡ value n) × ((i : ℕ) → i < k → m i ≡ true → value n ≤ℤ value i))
    ⊎ ((b ≡ int_max) × ((i : ℕ) → i < k → m i ≡ false))

module _ (m : FrameMask) (value : ℕ → ℤ) (small : (i : ℕ) → value i <ℤ int_max) where
  IsLowest-step :
      (k : ℕ) (s : ℕ × ℤ)
      → m k ≡ true
      → IsLowest m value k s
      → IsLowest m value (suc k) (lowest_step value k s)
  unfolding lowest_step
  IsLowest-step k (n, b) e (inl (lt, mn, eb, low)) = elim (Bool-cases (ltb_ℤ (value k) b)) [
    | inl t ↦ rw t (
        inl (
          omega arith,
          e,
          refl,
          below_suc _ k (λ i l' e'. lower t i (low i l' e')) (λ _. omega arith),
        ))
    | inr t ↦ rw t (inl (omega arith, mn, eb, below_suc _ k low (λ _. ground arith)))
  ]
    where
      lower : ltb_ℤ (value k) b ≡ true → (i : ℕ) → value n ≤ℤ value i → value k ≤ℤ value i
      lower t i h = ground (arith, ap pos_part eb, ap neg_part eb)
  IsLowest-step k (n, b) e (inr (eb, none)) =
      rw (below)
        (inl (omega arith, e, refl, below_suc _ k (λ i l e'. cc (none i l)) (λ _. omega arith)))
    where
      below : ltb_ℤ (value k) b ≡ true
      below = rw eb (ground (arith, small k))

  pub lowest_from-IsLowest :
      (n0 : ℕ)
      → mask_any m ≡ true
      → let p = (lowest_from m value (n0, int_max)).0 in
        (p < max_frames)
        × (m p ≡ true)
        × ((i : ℕ) → i < max_frames → m i ≡ true → value p ≤ℤ value i)
  unfolding lowest_from
  lowest_from-IsLowest n0 h =
      elim (for_bits_rule (IsLowest m value) m (lowest_step value) (λ k s lt. IsLowest-step k s)
        skip (n0, int_max) start) [
          | inl (lt, e, eb, low) ↦ (lt, e, low)
          | inr (eb, none) ↦ cc (h, mask_any-false m none)
        ]
    where
      skip : (k : ℕ) (s : ℕ × ℤ) → m k ≡ false → IsLowest m value k s → IsLowest m value (suc k) s
      skip k (n, b) e (inl (lt, mn, eb, low)) =
          inl (omega arith, mn, eb, below_suc _ k low (λ e'. cc))
      skip k (n, b) e (inr (eb, none)) = inr (eb, below_suc _ k none e)

      start : IsLowest m value 0 (n0, int_max)
      start = inr (refl, λ i lt. absurd (omega arith))
