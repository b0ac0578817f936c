-- ===== src/Marking/Window.antt =====
-- The sliding window of frame pictures, and FrameNum.
use edge264_mvc.Common.{
  ℕ, suc, ◌+◌, ◌-◌, ◌*◌, ◌/◌, ◌%◌, ◌^◌, ◌≤◌, ◌<◌, ◌≡◌, ◌∙◌, ap, true, false, not, ◌&&◌, arith, ltb,
  leb, ◌==◌, ltb→lt, ltb→ge, inl, inr, ◌⊎◌, Bool-cases,
}
use native.Mathlib.Nat.{mul-add-mod_self_right, mod-eq_of_lt, mod-lt, suc-mul, div-add-mod'}
use edge264_mvc.Common.Int.{pos, negsuc, ◌≤ℤ◌, ◌+ℤ◌, ◌-ℤ◌, int32, int32-fits, eq_of_parts, int_laws}
use edge264_mvc.Common.Masks.{max_frames, bit, ◌∖◌, mask_any, mask_popcount}
use edge264_mvc.Common.Masks.Count.{popcount_mono, popcount_remove}
use edge264_mvc.Decoder.{Decoder}
use edge264_mvc.ParameterSets.{Sps}
use edge264_mvc.Marking.Base.{derive_frame_num}
use edge264_mvc.Marking.Capacity.{refs, SmallNums}
use edge264_mvc.Marking.Frame.{oldest, give_up_oldest, slide}
use edge264_mvc.Marking.Lowest.{lowest_from-IsLowest}

leb-true : (a b : ℕ) → a ≤ b → leb a b ≡ true
leb-true a b h = ground arith

-- With a short-term frame and all references in use, and every FrameNum below INT_MAX, the window gives
-- up exactly one frame: a short-term one whose FrameNum no other short-term frame is below. No slot is
-- marked that was not, no other slot is unmarked, and one reference at least is free again.
pub slide-lowest :
    (d : Decoder) (sps : Sps)
    → SmallNums d
    → mask_any d.short_term_frames ≡ true
    → sps.max_num_ref_frames ≤ mask_popcount (refs d)
    → (d.short_term_frames (oldest d) ≡ true)
      × ((i : ℕ)
          → i < max_frames
          → d.short_term_frames i ≡ true
          → d.frame_nums (oldest d) ≤ℤ d.frame_nums i)
      × ((i : ℕ) → refs (slide d sps) i ≡ (refs d i && not (i == oldest d)))
      × (suc (mask_popcount (refs (slide d sps))) ≤ mask_popcount (refs d))
unfolding slide
slide-lowest d sps small some full =
    rw (some, leb-true sps.max_num_ref_frames (mask_popcount (refs d)) full)
      (
        low.1,
        low.2,
        left,
        omega (arith, fewer, popcount_remove (oldest d) (refs d) low.0 (ground (arith, low.1))),
      )
  where
    low :
        (oldest d < max_frames)
        × (d.short_term_frames (oldest d) ≡ true)
        × ((i : ℕ)
            → i < max_frames
            → d.short_term_frames i ≡ true
            → d.frame_nums (oldest d) ≤ℤ d.frame_nums i)
    low = unfold oldest in lowest_from-IsLowest d.short_term_frames d.frame_nums small 0 some

    same : (i : ℕ) → i ≡ oldest d → d.short_term_frames i ≡ true
    same i e = rw (e, low.1)

    left : (i : ℕ) → refs (give_up_oldest d) i ≡ (refs d i && not (i == oldest d))
    left i = ground (arith, same i)

    fewer : mask_popcount (refs (give_up_oldest d)) ≤ mask_popcount (refs d ∖ bit (oldest d))
    fewer = popcount_mono _ _ (λ i e. ground (arith, left i))

-- (frame_num - prev - 1) & mask where frame_num is above prev, and where it is not. `q` is prev + 1.
module _ (m f q : ℕ) (h : f < m) where
  above : q ≤ f → (q + (f - q) % m) % m ≡ f
  above le = rw (mod-eq_of_lt {n = f - q} {m = m} (omega arith), whole) (mod-eq_of_lt h)
    where
      whole : q + (f - q) ≡ f
      whole = omega arith

  below : f < q → (q + (m - 1 - (q - suc f) % m)) % m ≡ f
  below lt = ap (λ v. v % m) split ∙ mul-add-mod_self_right (suc t) m f ∙ mod-eq_of_lt h
    where
      t : ℕ
      t = (q - suc f) / m

      divided : t * m + (q - suc f) % m ≡ q - suc f
      divided = div-add-mod' (q - suc f) m

      small : (q - suc f) % m < m
      small = mod-lt (q - suc f) (omega arith)

      split : q + (m - 1 - (q - suc f) % m) ≡ suc t * m + f
      split = omega (arith, divided, small, suc-mul t m)

-- The sums of derive_FrameNum, of type int, in terms of `q`.
restart : (q u : ℕ) → q + u < 2 ^ 31 → int32 (pos q -ℤ pos 1 +ℤ pos 1 +ℤ pos u) ≡ pos (q + u)
restart q u h =
    ap int32 (eq_of_parts _ (pos (q + u)) (omega int_laws))
    ∙ int32-fits (pos (q + u)) (omega arith) (omega arith)

distance :
    (f q : ℕ)
    → f < 2 ^ 31
    → q ≤ 2 ^ 31
    → let step = int32 (pos f -ℤ (pos q -ℤ pos 1) -ℤ pos 1) in
      ((q ≤ f) × (step ≡ pos (f - q))) ⊎ ((f < q) × (step ≡ negsuc (q - suc f)))
distance f q lf lq = elim (Bool-cases (ltb f q)) [
  | inl t ↦ inr (
    ltb→lt f q t,
    ap int32 (eq_of_parts _ (negsuc (q - suc f)) (let lt = ltb→lt f q t in omega int_laws))
        ∙ int32-fits (negsuc (q - suc f)) (omega arith) (omega arith),
  )
  | inr t ↦ inl (
    ltb→ge f q t,
    ap int32 (eq_of_parts _ (pos (f - q)) (let ge = ltb→ge f q t in omega int_laws))
        ∙ int32-fits (pos (f - q)) (omega arith) (omega arith),
  )
]

-- A frame's FrameNum is the number that frame_num gives modulo MaxFrameNum (2 ^ `bits`) and that comes
-- next after PrevRefFrameNum: above it, by MaxFrameNum at most. PrevRefFrameNum is -1 at least, as at the
-- start (`q` is one more), and far enough below 2^31 that the sum does not wrap.
pub derive_frame_num-next :
    (d : Decoder) (f bits view q : ℕ)
    → d.prev_ref_frame_num view ≡ pos q -ℤ pos 1
    → q + 2 ^ bits ≤ 2 ^ 31
    → f < 2 ^ bits
    → (r : ℕ) × (derive_frame_num d f bits view false ≡ pos r)
      × (q ≤ r)
      × (r < q + 2 ^ bits)
      × (r % 2 ^ bits ≡ f)
unfolding derive_frame_num
derive_frame_num-next d f bits view q e room h = elim (distance f q (omega arith) (omega arith)) [
  | inl (le, eq) ↦
      let u = (f - q) % 2 ^ bits in
      let small = mod-lt (f - q) {m = 2 ^ bits} (omega arith) in
      rw (e, eq)
        (q + u, restart q u (omega arith), omega arith, omega arith, above (2 ^ bits) f q h le)
  | inr (lt, eq) ↦
      let u = 2 ^ bits - 1 - (q - suc f) % 2 ^ bits in
      rw (e, eq)
        (q + u, restart q u (omega arith), omega arith, omega arith, below (2 ^ bits) f q h lt)
]
