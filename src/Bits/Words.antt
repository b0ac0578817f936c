-- ===== src/Bits/Words.antt =====
-- Words as numbers: powers of two, and the place of the leading bit (`clz`).
use edge264_mvc.Common.{
  ℕ, zero, suc, ◌+◌, ◌-◌, ◌*◌, ◌^◌, ◌≤◌, ◌<◌, ◌≡◌, arith, leb, leb→le, true, false, elim_intro, ap,
  sym, ◌∙◌,
}
use edge264_mvc.Bits.{clz, clz_from}
use native.Mathlib.Nat.{pow-suc, one-le-pow}
use native.Mathlib.Decide.{ℕ_discrete}

pub pow_add : (a b : ℕ) → 2 ^ (a + b) ≡ 2 ^ a * 2 ^ b
pow_add zero b = let e : 0 + b ≡ b = omega arith in rw e (omega arith)
pow_add (suc a) b =
    let e : suc a + b ≡ suc (a + b) = omega arith in
    rw e (grind (arith, pow-suc 2 (a + b), pow-suc 2 a, pow_add a b))

pub pow_sub : (a b : ℕ) → b ≤ a → 2 ^ (a - b) * 2 ^ b ≡ 2 ^ a
pow_sub a b le = sym (pow_add (a - b) b) ∙ ap (λ (t : ℕ). 2 ^ t) (omega arith)

pub pow_mono : (a b : ℕ) → a ≤ b → 2 ^ a ≤ 2 ^ b
pow_mono a b le = grind (arith, pow_sub b a le, one-le-pow (b - a) 2)

clz_from-lead : (k m n : ℕ) → m < k → 2 ^ m ≤ n → n < 2 ^ suc m → clz_from k n + suc m ≡ k
unfolding clz_from
clz_from-lead zero m n lt le up = absurd (omega arith)
clz_from-lead (suc k) m n lt le up =
    elim_intro (λ c. c + suc m ≡ suc k) (leb (2 ^ k) n) top (below (clz_from-lead k m n))
  where
    top : leb (2 ^ k) n ≡ true → 0 + suc m ≡ suc k
    top t = elim (ℕ_discrete m k) [
      | yes e ↦ omega (arith, e)
      | no ne ↦ absurd (omega (arith, pow_mono (suc m) k (omega arith), leb→le (2 ^ k) n t))
    ]

    below :
        (m < k → 2 ^ m ≤ n → n < 2 ^ suc m → clz_from k n + suc m ≡ k)
        → leb (2 ^ k) n ≡ false
        → suc (clz_from k n) + suc m ≡ suc k
    below ih f = elim (ℕ_discrete m k) [
      | yes e ↦ absurd (ground (arith, ap (λ (t : ℕ). 2 ^ t) e))
      | no ne ↦ omega (arith, ih (omega arith) le up)
    ]

-- A word whose leading bit is bit `m`.
pub clz-lead : (m n : ℕ) → m < 64 → 2 ^ m ≤ n → n < 2 ^ suc m → clz n ≡ 63 - m
unfolding clz
clz-lead m n lt le up = omega (arith, clz_from-lead 64 m n lt le up)
