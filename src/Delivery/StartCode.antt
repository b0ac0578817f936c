-- ===== src/Delivery/StartCode.antt =====
-- The search for a start code finds the first one.
use edge264_mvc.Common.{
  ℕ, zero, suc, ◌+◌, ◌-◌, ◌≤◌, ◌<◌, ◌≡◌, ◌∙◌, refl, Bool, true, false, ◌&&◌, List, Option, none,
  some, arith, ◌==◌, ltb, Bool-cases, inl, inr, ◌⊎◌, get_or, elim_intro,
}
use mathlib.Core.Path.{subst}
use edge264_mvc.Delivery.{find_one, find_from, find_start_code}

-- 00 00 01 at position `r`.
abbrev pub is_start : List ℕ → ℕ → Bool
is_start buf r = get_or buf r 0 == 0 && get_or buf (r + 1) 0 == 0 && get_or buf (r + 2) 0 == 1

-- What memchr gives: the first 1 from `i` on, or that there is none in `n` bytes.
abbrev FirstOne : List ℕ → ℕ → ℕ → Option ℕ → Type 0
FirstOne buf n i none = (j : ℕ) → i ≤ j → j < i + n → (get_or buf j 0 == 1) ≡ false
FirstOne buf n i (some one) =
    (i ≤ one)
    × (one < i + n)
    × ((get_or buf one 0 == 1) ≡ true)
    × ((j : ℕ) → i ≤ j → j < one → (get_or buf j 0 == 1) ≡ false)

-- A position that is not a 1 joins those after it.
at_or_after :
    (buf : List ℕ) (i j : ℕ)
    → (get_or buf i 0 == 1) ≡ false
    → i ≤ j
    → (suc i ≤ j → (get_or buf j 0 == 1) ≡ false)
    → (get_or buf j 0 == 1) ≡ false
at_or_after buf i j e ge later = elim (Bool-cases (i == j)) [
  | inl same ↦ subst (λ v. (get_or buf v 0 == 1) ≡ false) (equal same) e
  | inr other ↦ later (ground arith)
]
  where
    equal : (i == j) ≡ true → i ≡ j
    equal h = ground arith

FirstOne-weaken :
    (buf : List ℕ) (n i : ℕ) (r : Option ℕ)
    → (get_or buf i 0 == 1) ≡ false
    → FirstOne buf n (suc i) r
    → FirstOne buf (suc n) i r
FirstOne-weaken buf n i none e h =
    λ j ge lt. at_or_after buf i j e ge (λ ge'. h j ge' (omega arith))
FirstOne-weaken buf n i (some one) e (ge, lt, at, before) = (
  omega arith,
  omega arith,
  at,
  λ j ge' lt'. at_or_after buf i j e ge' (λ ge''. before j ge'' lt'),
)

find_one-FirstOne : (n : ℕ) (buf : List ℕ) (i : ℕ) → FirstOne buf n i (find_one n buf i)
unfolding find_one
find_one-FirstOne zero buf i = λ j ge lt. absurd (omega arith)
find_one-FirstOne (suc n) buf i =
    elim_intro (FirstOne buf (suc n) i) (get_or buf i 0 == 1) {x = some i}
      {y = find_one n buf (suc i)}
      (λ e. (omega arith, omega arith, e, λ j ge lt. absurd (omega arith)))
      (λ e. FirstOne-weaken buf n i (find_one n buf (suc i)) e (find_one-FirstOne n buf (suc i)))

-- The result `r` of a search from `i` on, that is of start codes whose last byte is at `i` or after.
abbrev pub IsFirst : List ℕ → ℕ → ℕ → ℕ → Type 0
IsFirst buf size i r =
    (((r + 2 < size) × (is_start buf r ≡ true)) ⊎ (r ≡ size))
    × ((j : ℕ) → i ≤ j + 2 → j + 2 < size → j < r → is_start buf j ≡ false)

-- The test of the two bytes before a 1.
test_before :
    (buf : List ℕ) (one : ℕ)
    → 2 ≤ one
    → (get_or buf one 0 == 1) ≡ true
    → is_start buf (one - 2) ≡ (get_or buf (one - 1) 0 == 0 && get_or buf (one - 2) 0 == 0)
test_before buf one ge at = rw (next, last) (ground (arith, at))
  where
    next : one - 2 + 1 ≡ one - 1
    next = omega arith

    last : one - 2 + 2 ≡ one
    last = omega arith

-- No start code ends before a 1, and none at it where the test fails.
join :
    (buf : List ℕ) (size i one r : ℕ)
    → 2 ≤ one
    → ((j : ℕ) → i ≤ j → j < one → (get_or buf j 0 == 1) ≡ false)
    → is_start buf (one - 2) ≡ false
    → ((j : ℕ) → suc one ≤ j + 2 → j + 2 < size → j < r → is_start buf j ≡ false)
    → (j : ℕ) → i ≤ j + 2
    → j + 2 < size
    → j < r
    → is_start buf j ≡ false
join buf size i one r ge before e later j h l lt = elim (Bool-cases (ltb (j + 2) one)) [
  | inl e1 ↦ no_one (before (j + 2) h (ground arith))
  | inr e1 ↦ elim (Bool-cases (ltb one (j + 2))) [
    | inl e2 ↦ later j (ground arith) l lt
    | inr e2 ↦ subst (λ v. is_start buf v ≡ false) (same e1 e2) e
  ]
]
  where
    no_one : (get_or buf (j + 2) 0 == 1) ≡ false → is_start buf j ≡ false
    no_one n = ground (arith, n)

    same : ltb (j + 2) one ≡ false → ltb one (j + 2) ≡ false → one - 2 ≡ j
    same e1 e2 = ground arith

find_from-IsFirst :
    (fuel : ℕ) (buf : List ℕ) (size i : ℕ)
    → 2 ≤ i
    → size ≤ fuel + i
    → IsFirst buf size i (find_from fuel buf size i)
unfolding find_from
find_from-IsFirst zero buf size i ge enough = (inr refl, λ j h lt before. absurd (omega arith))
find_from-IsFirst (suc fuel) buf size i ge enough =
    elim_intro (IsFirst buf size i) (ltb i size)
      (λ e.
        after (find_one (size - i) buf i) (ground arith) (find_one-FirstOne (size - i) buf i)
          (λ one le. find_from-IsFirst fuel buf size (suc one) (omega arith) (omega arith)))
      (λ e. (inr refl, λ j h lt before. absurd (ground arith)))
  where
    no_one : (j : ℕ) → (get_or buf (j + 2) 0 == 1) ≡ false → is_start buf j ≡ false
    no_one j e = ground (arith, e)

    after :
        (o : Option ℕ)
        → i < size
        → FirstOne buf (size - i) i o
        → ((one : ℕ) → i ≤ one → IsFirst buf size (suc one) (find_from fuel buf size (suc one)))
        → IsFirst buf size i (elim o [
          | none ↦ size
          | some one ↦ elim (get_or buf (one - 1) 0 == 0 && get_or buf (one - 2) 0 == 0) [
            | true ↦ one - 2
            | false ↦ find_from fuel buf size (suc one)
          ]
        ])
    after none lt h later = (inr refl, λ j le l before. no_one j (h (j + 2) le (omega arith)))
    after (some one) lt (le, l1, at, before) later =
        elim_intro (IsFirst buf size i) (get_or buf (one - 1) 0 == 0 && get_or buf (one - 2) 0 == 0)
          (λ e. (
            inl (omega arith, test_before buf one (omega arith) at ∙ e),
            λ j h l l2. no_one j (before (j + 2) h (omega arith)),
          ))
          (λ e.
            let (found, none_after) = later one le in
            (
              found,
              join buf size i one (find_from fuel buf size (suc one)) (omega arith) before
                  (test_before buf one (omega arith) at ∙ e) none_after,
            ))

-- The search gives the first position of 00 00 01 in a buffer, with all three bytes inside it, or its
-- size where there is none.
pub find_start_code-IsFirst :
    (buf : List ℕ) (size : ℕ) → IsFirst buf size 2 (find_start_code buf size)
unfolding find_start_code
find_start_code-IsFirst buf size = find_from-IsFirst size buf size 2 (omega arith) (omega arith)
