-- ===== src/ParameterSets/Crop.antt =====
-- The cropping of a dimension leaves at least one sample.
use edge264_mvc.Common.{ℕ, zero, suc, ◌+◌, ◌-◌, ◌*◌, ◌/◌, ◌^◌, ◌≤◌, ◌<◌, ◌≡◌, arith}
use mathlib.Core.Path.{subst}
use edge264_mvc.Common.Int.{ℤ, pos, ◌≤ℤ◌, ◌<ℤ◌, ◌+ℤ◌, ◌-ℤ◌, int16, to_unsigned, int_laws}
use edge264_mvc.Parser.{Gives, Gives-pure, Gives-bind, Gives-weaken, Gives-get_ue16}
use edge264_mvc.ParameterSets.SpsParser.{shr_ℤ, parse_crop}

-- The offsets of a dimension leave at least one of its `size` samples.
pub record Cropped (size : ℕ) (first second : ℤ) : Type 0 where
  pub first_le : pos 0 ≤ℤ first
  pub second_le : pos 0 ≤ℤ second
  pub both_lt : first +ℤ second <ℤ pos size

int16_small : (n : ℕ) → n < 32768 → int16 (pos n) ≡ pos n
int16_small n h = ground arith

units_lt :
    (shift a b size : ℕ)
    → shift ≤ 2
    → 16 ≤ size
    → a + b ≤ size / 2 ^ shift - 1
    → a * 2 ^ shift + b * 2 ^ shift < size
units_lt zero a b size s2 ge h = omega arith
units_lt (suc zero) a b size s2 ge h = omega arith
units_lt (suc (suc zero)) a b size s2 ge h = omega arith
units_lt (suc (suc (suc s))) a b size s2 ge h = absurd (omega arith)

times_over : (shift a : ℕ) → shift ≤ 2 → a * 2 ^ shift / 2 ^ shift ≡ a
times_over zero a h = omega arith
times_over (suc zero) a h = omega arith
times_over (suc (suc zero)) a h = omega arith
times_over (suc (suc (suc s))) a h = absurd (omega arith)

left_over : (lim a : ℕ) → a ≤ lim → lim < 2 ^ 32 → to_unsigned 32 (pos lim -ℤ pos a) ≡ lim - a
unfolding ◌-ℤ◌
left_over lim a h lt = ground arith

div_le : (size shift : ℕ) → shift ≤ 2 → size / 2 ^ shift ≤ size
div_le size zero h = omega arith
div_le size (suc zero) h = omega arith
div_le size (suc (suc zero)) h = omega arith
div_le size (suc (suc (suc s))) h = absurd (omega arith)

-- What can be said before the size is known to fit 16 bits.
pub crop-Cropped :
    (size shift : ℕ)
    → shift ≤ 2
    → 16 ≤ size
    → Gives (λ r. size < 32768 → Cropped size r.0 r.1) (parse_crop (size / 2 ^ shift - 1) shift)
unfolding parse_crop
crop-Cropped size shift s2 ge =
    Gives-bind (Gives-get_ue16 _)
      λ a ha. Gives-bind (Gives-get_ue16 _) λ b hb. Gives-pure _ (crop a b ha hb)
  where
    crop :
        (a b : ℕ)
        → a ≤ size / 2 ^ shift - 1
        → b
          ≤ to_unsigned 32 (pos (size / 2 ^ shift - 1) -ℤ shr_ℤ (int16 (pos (a * 2 ^ shift))) shift)
        → size < 32768
        → Cropped size (int16 (pos (a * 2 ^ shift))) (int16 (pos (b * 2 ^ shift)))
    crop a b ha hb lt =
        let alone : a * 2 ^ shift < size =
          omega (arith, units_lt shift a 0 size s2 ge (omega arith)) in
        let ea : int16 (pos (a * 2 ^ shift)) ≡ pos (a * 2 ^ shift) = int16_small _ (omega arith) in
        let hb' : b
            ≤ to_unsigned 32 (pos (size / 2 ^ shift - 1) -ℤ pos (a * 2 ^ shift / 2 ^ shift)) =
          subst (λ v. b ≤ to_unsigned 32 (pos (size / 2 ^ shift - 1) -ℤ shr_ℤ v shift)) ea hb in
        let le : size / 2 ^ shift ≤ size = div_le size shift s2 in
        let hb'' : b ≤ size / 2 ^ shift - 1 - a =
          subst (λ v. b ≤ v) (left_over (size / 2 ^ shift - 1) a ha (omega arith))
            (subst (λ v. b ≤ to_unsigned 32 (pos (size / 2 ^ shift - 1) -ℤ pos v))
              (times_over shift a s2) hb') in
        let rest : a + b ≤ size / 2 ^ shift - 1 = omega (arith, hb'', ha) in
        let both : a * 2 ^ shift + b * 2 ^ shift < size = units_lt shift a b size s2 ge rest in
        let eb : int16 (pos (b * 2 ^ shift)) ≡ pos (b * 2 ^ shift) = int16_small _ (omega arith) in
        rw (ea, eb)
          (record { first_le = omega arith; second_le = omega arith; both_lt = omega int_laws })

-- Whatever the bitstream, the two offsets that are read for a dimension of 16 to INT16_MAX samples, in
-- units of 1, 2 or 4, are not negative and leave at least one of its samples.
pub parse_crop-Cropped :
    (size shift : ℕ)
    → shift ≤ 2
    → 16 ≤ size
    → size < 32768
    → Gives (λ r. Cropped size r.0 r.1) (parse_crop (size / 2 ^ shift - 1) shift)
parse_crop-Cropped size shift s2 ge lt = Gives-weaken (λ r h. h lt) (crop-Cropped size shift s2 ge)
