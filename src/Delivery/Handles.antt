-- ===== src/Delivery/Handles.antt =====
-- A frame handle names the slots that it was made of (src/edge264mvc_internal.h).
use Prim.Native.Nat.{max, digits, bit_or, bit_or-bitwise}
use native.Mathlib.Nat.{pow-suc}
use mathlib.Core.Path.{ap}
use edge264_mvc.Common.{
  ℕ, zero, suc, ◌+◌, ◌*◌, ◌/◌, ◌%◌, ◌^◌, ◌≤◌, ◌<◌, ◌≡◌, refl, Option, none, some, arith,
}
use edge264_mvc.Delivery.{slot_byte, handle_of, handle_pic}

double-field : (q k : ℕ) → q * 2 ^ suc k ≡ 2 * (q * 2 ^ k)
double-field q k = omega (arith, ap (λ (t : ℕ). q * t) (pow-suc 2 k))

-- Below a field of `k` digits there is nothing to combine: the digits of both stay.
digits-field :
    (n k r q : ℕ) → r ≤ n → r < 2 ^ k → digits (λ b. b) max n r (q * 2 ^ k) ≡ r + q * 2 ^ k
digits-field zero k zero q le lt = omega arith
digits-field zero k (suc r) q le lt = absurd (omega arith)
digits-field (suc n) k zero q le lt = omega arith
digits-field (suc n) zero (suc r) q le lt = absurd (omega arith)
digits-field (suc n) (suc k) (suc r) q le lt = ground (
  arith,
  double-field q k,
  digits-field n k (suc r / 2) q (omega arith) (omega (arith, pow-suc 2 k)),
)

bit_or-field : (k r q : ℕ) → r < 2 ^ k → bit_or r (q * 2 ^ k) ≡ r + q * 2 ^ k
bit_or-field k r q lt = simp bit_or-bitwise (digits-field r k r q (omega arith) lt)

handle_pic-byte :
    (handle view : ℕ) (pic : Option ℕ)
    → handle / 2 ^ (view * 8) % 2 ^ 8 ≡ slot_byte pic
    → handle_pic handle view ≡ pic
unfolding handle_pic
handle_pic-byte handle view none h = rw h refl
handle_pic-byte handle view (some s) h = rw h refl

-- Where the slots of both views fit a byte with one added, the handle of the two pictures gives back
-- each of them, an absent one included.
pub handle_pic-handle_of :
    (pic0 pic1 : Option ℕ)
    → slot_byte pic0 < 2 ^ 8
    → slot_byte pic1 < 2 ^ 8
    → (handle_pic (handle_of pic0 pic1) 0 ≡ pic0) × (handle_pic (handle_of pic0 pic1) 1 ≡ pic1)
unfolding handle_of
handle_pic-handle_of pic0 pic1 h0 h1 =
    let sum = bit_or-field 8 (slot_byte pic0) (slot_byte pic1) h0 in
    (
      handle_pic-byte (handle_of pic0 pic1) 0 pic0 (omega (arith, sum)),
      handle_pic-byte (handle_of pic0 pic1) 1 pic1 (omega (arith, sum)),
    )
