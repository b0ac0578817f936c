-- ===== src/Common/Masks.antt =====
-- Sets of frame slots: `FrameMask` of src/edge264mvc_internal.h, an integer of 128 bits whose bit `i`
-- stands for slot `i`, is read here as the function from `i` to that bit.
pub mod Count
use Prim.Native.Nat.{ℕ, zero, suc, ◌+◌, ◌-◌, ◌≤◌, ◌<◌}
use mathlib.Core.Path.{◌≡◌, refl, subst}
use mathlib.Core.Bool.{Bool, true, false, not, ◌&&◌, ◌||◌}
use native.Mathlib.Omega.{arith}
use edge264_mvc.Common.Tests.{◌==◌, if◌then◌else◌}

abbrev pub FrameMask : Type 0
FrameMask = ℕ → Bool

-- `MAX_FRAMES`, where the compiler has 128-bit integers.
abbrev pub max_frames : ℕ
max_frames = 128

-- `FIELD_ID`: a bottom field is known as its slot plus this.
abbrev pub field_id : ℕ
field_id = 64

abbrev pub empty : FrameMask
empty i = false

-- `(FrameMask)1 << j`
abbrev pub bit : ℕ → FrameMask
bit j i = i == j

infixl 60 ◌∩◌ ◌∖◌
infixl 58 ◌∪◌ ◌△◌
abbrev pub ◌∩◌ : FrameMask → FrameMask → FrameMask
◌∩◌ m n i = m i && n i

abbrev pub ◌∪◌ : FrameMask → FrameMask → FrameMask
◌∪◌ m n i = m i || n i

-- `m & ~n`
abbrev pub ◌∖◌ : FrameMask → FrameMask → FrameMask
◌∖◌ m n i = m i && not (n i)

-- `m ^ n`
abbrev pub ◌△◌ : FrameMask → FrameMask → FrameMask
◌△◌ m n i = if m i then not (n i) else n i

-- `~m`
abbrev pub complement : FrameMask → FrameMask
complement m i = not (m i)

-- `mask_popcount` counts the bits of the slots below `MAX_FRAMES`.
pub count_below : ℕ → FrameMask → ℕ
count_below zero m = 0
count_below (suc n) m = (if m n then 1 else 0) + count_below n m

unfoldable pub mask_popcount : FrameMask → ℕ
unfolding count_below
mask_popcount m = count_below max_frames m

-- A test `m != 0`: some bit is set.
pub any_below : ℕ → FrameMask → Bool
any_below zero m = false
any_below (suc n) m = m n || any_below n m

unfoldable pub mask_any : FrameMask → Bool
unfolding any_below
mask_any m = any_below max_frames m

-- `for (FrameMask r = m; r; r &= r - 1) { int i = mask_ctz(r); ... }`: the bits set when the loop
-- starts, lowest first. The first number is how many slots are left, the second the next slot.
pub for_bits_from {ℓ} : {S : Type ℓ} → ℕ → ℕ → FrameMask → (ℕ → S → S) → S → S
for_bits_from zero i m body s = s
for_bits_from (suc n) i m body s = for_bits_from n (suc i) m body (if m i then body i s else s)

unfoldable pub for_bits {ℓ} : {S : Type ℓ} → FrameMask → (ℕ → S → S) → S → S
unfolding for_bits_from
for_bits m body s = for_bits_from max_frames 0 m body s

-- The rule of that loop, with the slot in the invariant: `P i s` holds before slot `i` is looked at.
pub for_bits_from_rule {ℓ κ} :
    {S : Type ℓ} (P : ℕ → S → Type κ) (m : FrameMask) (body : ℕ → S → S) (j : ℕ)
    → ((i : ℕ) (s : S) → i < j → m i ≡ true → P i s → P (suc i) (body i s))
    → ((i : ℕ) (s : S) → m i ≡ false → P i s → P (suc i) s)
    → (n i : ℕ) (s : S) → i + n ≡ j
    → P i s
    → P j (for_bits_from n i m body s)
unfolding for_bits_from
for_bits_from_rule P m body j keep skip zero i s e h =
    let e' : i ≡ j = omega arith in subst (λ k. P k s) e' h
for_bits_from_rule P m body j keep skip (suc n) i s e h =
    for_bits_from_rule P m body j keep skip n (suc i) _ (omega arith) (step (m i) refl)
  where
    step : (b : Bool) → m i ≡ b → P (suc i) (if b then body i s else s)
    step true t = keep i s (omega arith) t h
    step false t = skip i s t h

pub for_bits_rule {ℓ κ} :
    {S : Type ℓ} (P : ℕ → S → Type κ) (m : FrameMask) (body : ℕ → S → S)
    → ((i : ℕ) (s : S) → i < max_frames → m i ≡ true → P i s → P (suc i) (body i s))
    → ((i : ℕ) (s : S) → m i ≡ false → P i s → P (suc i) s)
    → (s : S) → P 0 s
    → P max_frames (for_bits m body s)
unfolding for_bits
for_bits_rule P m body keep skip s h =
    for_bits_from_rule P m body max_frames keep skip max_frames 0 s (omega arith) h

-- The same without the slot.
pub for_bits_inv {ℓ κ} :
    {S : Type ℓ} (P : S → Type κ) (m : FrameMask) (body : ℕ → S → S)
    → ((i : ℕ) (s : S) → i < max_frames → m i ≡ true → P s → P (body i s))
    → (s : S) → P s
    → P (for_bits m body s)
for_bits_inv P m body keep = for_bits_rule (λ _. P) m body keep (λ i s e h. h)
