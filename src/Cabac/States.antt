-- ===== src/Cabac/States.antt =====
-- The tables of the engine against those of the standard: a state is `pStateIdx << 2 | valMPS`.
use Prim.Native.Nat.{bit_xor}
use edge264_mvc.Common.{
  ℕ, zero, suc, ◌+◌, ◌-◌, ◌*◌, ◌%◌, ◌≤◌, ◌<◌, ◌≡◌, refl, arith, Bool, true, ◌&&◌, leb, leb→le, ◌==◌,
  ==_iff, if◌then◌else◌, get_or, holds_below, holds_below-at,
}
use edge264_mvc.Cabac.Tables.{range_tab_lps, trans_idx}
use edge264_mvc.Cabac.Standard.{trans_idx_lps, trans_idx_mps}

-- The value of a context variable after the least probable symbol in state `p`.
abbrev pub val_lps : ℕ → ℕ → ℕ
val_lps p v = if p == 0 then 1 - v else v

abbrev same_transitions : ℕ → ℕ → Bool
same_transitions v p =
    (get_or trans_idx (p * 4 + v) 0 == trans_idx_mps p * 4 + v)
    && (get_or trans_idx (bit_xor (p * 4 + v) 255) 0 == get_or trans_idx_lps p 0 * 4 + val_lps p v)
    && (bit_xor (p * 4 + v) 255 % 2 == 1 - v)
    && leb (get_or trans_idx_lps p 0) 63

transitions_0 : holds_below 64 (same_transitions 0) ≡ true
unfolding holds_below
transitions_0 = refl

transitions_1 : holds_below 64 (same_transitions 1) ≡ true
unfolding holds_below
transitions_1 = refl

pub record Transitions (p v : ℕ) : Type 0 where
  pub most : get_or trans_idx (p * 4 + v) 0 ≡ trans_idx_mps p * 4 + v
  pub least :
      get_or trans_idx (bit_xor (p * 4 + v) 255) 0 ≡ get_or trans_idx_lps p 0 * 4 + val_lps p v
  pub flipped : bit_xor (p * 4 + v) 255 % 2 ≡ 1 - v
  pub lps_le : get_or trans_idx_lps p 0 ≤ 63

and4 :
    (a b c d : Bool) → (a && b && c && d) ≡ true → (a ≡ true) × (b ≡ true) × (c ≡ true) × (d ≡ true)
and4 a b c d h = ground arith

same_transitions-Transitions : (p v : ℕ) → same_transitions v p ≡ true → Transitions p v
same_transitions-Transitions p v h =
    let (a, b, c, d) = and4 _ _ _ _ h in
    record {
      most = (==_iff _ _).0 a;
      least = (==_iff _ _).0 b;
      flipped = (==_iff _ _).0 c;
      lps_le = leb→le _ _ d;
    }

pub transitions : (p v : ℕ) → p < 64 → v ≤ 1 → Transitions p v
transitions p zero lt le =
    same_transitions-Transitions p 0 (holds_below-at 64 (same_transitions 0) p transitions_0 lt)
transitions p (suc zero) lt le =
    same_transitions-Transitions p 1 (holds_below-at 64 (same_transitions 1) p transitions_1 lt)
transitions p (suc (suc v)) lt le = absurd (omega arith)

range_tab_in :
    holds_below 256 (λ i. leb 2 (get_or range_tab_lps i 0) && leb (get_or range_tab_lps i 0) 240)
    ≡ true
unfolding holds_below
range_tab_in = refl

pub range_tab_bounds :
    (i : ℕ) → i < 256 → (2 ≤ get_or range_tab_lps i 0) × (get_or range_tab_lps i 0 ≤ 240)
range_tab_bounds i lt =
    let h =
      holds_below-at 256
        (λ i. leb 2 (get_or range_tab_lps i 0) && leb (get_or range_tab_lps i 0) 240) i range_tab_in
        lt in
    both (get_or range_tab_lps i 0) h
  where
    both : (x : ℕ) → (leb 2 x && leb x 240) ≡ true → (2 ≤ x) × (x ≤ 240)
    both x t = (ground arith, ground arith)
