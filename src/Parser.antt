-- ===== src/Parser.antt =====
-- Parsers as functions of the bitstream reader, and what one gives on every bitstream.
use edge264_mvc.Common.{
  ℕ, zero, suc, ◌*◌, ◌%◌, ◌^◌, ◌≤◌, ◌<◌, ◌==◌, Bool, true, false, arith, if◌then◌else◌, if_elim,
}
use edge264_mvc.Common.Int.{ℤ, pos, ◌≤ℤ◌, ltb_ℤ, min_ℤ, max_ℤ}
use edge264_mvc.Bits.{
  GetBits, shld, refill, advance, get_u1, get_uv, get_ue16, get_se16, bits_left, se_value, ue_code,
}

abbrev pub Parser {ℓ} : Type ℓ → Type ℓ
Parser A = GetBits → A × GetBits

infixl 5 ◌>>=◌ ◌>>◌
unfoldable pub ◌>>=◌ {ℓ κ} : {A : Type ℓ} {B : Type κ} → Parser A → (A → Parser B) → Parser B
◌>>=◌ m f gb = let r = m gb in f r.0 r.1

abbrev pub ◌>>◌ {ℓ κ} : {A : Type ℓ} {B : Type κ} → Parser A → Parser B → Parser B
m >> k = m >>= λ _. k

unfoldable pub pure {ℓ} : {A : Type ℓ} → A → Parser A
pure a gb = (a, gb)

-- `n` rounds of a loop over a state.
unfoldable pub repeat {ℓ} : {A : Type ℓ} → ℕ → (A → Parser A) → A → Parser A
repeat zero m a gb = (a, gb)
repeat (suc n) m a gb = let r = m a gb in repeat n m r.0 r.1

-- `n` rounds at most, each only while `bits_left(&dec->gb) >= 0`.
unfoldable pub repeat_left {ℓ} : {A : Type ℓ} → ℕ → (A → Parser A) → A → Parser A
repeat_left zero m a gb = (a, gb)
repeat_left (suc n) m a gb = elim (ltb_ℤ (bits_left gb) (pos 0)) [
  | true ↦ (a, gb)
  | false ↦ let r = m a gb in repeat_left n m r.0 r.1
]

-- `msb_cache` is a word.
abbrev pub Wide : GetBits → Type 0
Wide gb = gb.msb_cache < 2 ^ 64

elim_test {ℓ κ} :
    {A : Type ℓ} (P : A → Type κ) (b : Bool) {x y : A}
    → P x
    → P y
    → P (elim b [ true ↦ x | false ↦ y ])
elim_test P true p q = p
elim_test P false p q = q

-- Whatever the bitstream, the value read is one of `P`.
pub record Gives {ℓ} {A : Type ℓ} (P : A → Type 0) (m : Parser A) : Type ℓ where
  pub on : (gb : GetBits) → Wide gb → P (m gb).0 × Wide (m gb).1

module _ {ℓ} {A : Type ℓ} where
  pub Gives-pure : {P : A → Type 0} (a : A) → P a → Gives P (pure a)
  unfolding pure
  Gives-pure a h = record { on = λ gb w. (h, w) }

  pub Gives-bind {κ} :
      {B : Type κ} {P : A → Type 0} {Q : B → Type 0} {m : Parser A} {f : A → Parser B}
      → Gives P m
      → ((a : A) → P a → Gives Q (f a))
      → Gives Q (m >>= f)
  unfolding ◌>>=◌
  Gives-bind {m = m} g h = record {
    on = λ gb w. let r = g.on gb w in (h (m gb).0 r.0).on (m gb).1 r.1;
  }

  pub Gives-weaken :
      {P Q : A → Type 0} {m : Parser A} → ((a : A) → P a → Q a) → Gives P m → Gives Q m
  Gives-weaken h g = record { on = λ gb w. let r = g.on gb w in (h _ r.0, r.1) }

  pub Gives-if :
      {P : A → Type 0} (b : Bool) {m k : Parser A}
      → Gives P m
      → Gives P k
      → Gives P (if b then m else k)
  Gives-if true g h = g
  Gives-if false g h = h

  pub Gives-repeat :
      {P : A → Type 0} (n : ℕ) (m : A → Parser A) (a : A)
      → ((a : A) → P a → Gives P (m a))
      → P a
      → Gives P (repeat n m a)
  unfolding repeat
  Gives-repeat zero m a g h = record { on = λ gb w. (h, w) }
  Gives-repeat (suc n) m a g h = record {
    on = λ gb w. let r = (g a h).on gb w in (Gives-repeat n m (m a gb).0 g r.0).on (m a gb).1 r.1;
  }

  pub Gives-repeat_left :
      {P : A → Type 0} (n : ℕ) (m : A → Parser A) (a : A)
      → ((a : A) → P a → Gives P (m a))
      → P a
      → Gives P (repeat_left n m a)
  unfolding repeat_left
  Gives-repeat_left zero m a g h = record { on = λ gb w. (h, w) }
  Gives-repeat_left {P = P} (suc n) m a g h = record {
    on = λ gb w.
        let r = (g a h).on gb w in
        elim_test (λ (s : A × GetBits). P s.0 × Wide s.1) (ltb_ℤ (bits_left gb) (pos 0)) (h, w)
          ((Gives-repeat_left n m (m a gb).0 g r.0).on (m a gb).1 r.1);
  }

refill-Wide : (gb : GetBits) → Wide (refill gb)
unfolding refill
refill-Wide gb = omega arith

advance-Wide : (gb : GetBits) (v : ℕ) → Wide (advance gb v)
unfolding advance
advance-Wide gb v = if_elim Wide (gb.lsb_cache * 2 ^ v % 2 ^ 64 == 0) (refill-Wide shifted) narrow
  where
    shifted : GetBits
    shifted = record gb {
      msb_cache = shld gb.lsb_cache gb.msb_cache v;
      lsb_cache = gb.lsb_cache * 2 ^ v % 2 ^ 64;
    }

    narrow : shifted.msb_cache < 2 ^ 64
    narrow = omega arith

pub Gives-get_u1 : Gives (λ v. v ≤ 1) get_u1
unfolding get_u1
Gives-get_u1 = record { on = λ gb w. (omega arith, advance-Wide gb 1) }

pub Gives-get_ue16 : (upper : ℕ) → Gives (λ v. v ≤ upper) (get_ue16 upper)
unfolding get_ue16
Gives-get_ue16 upper = record { on = λ gb w. (omega arith, advance-Wide gb _) }

clip_bounds :
    (a lower upper : ℤ)
    → lower ≤ℤ upper
    → (lower ≤ℤ min_ℤ (max_ℤ a lower) upper) × (min_ℤ (max_ℤ a lower) upper ≤ℤ upper)
clip_bounds a lower upper h = ground arith

pub Gives-get_se16 :
    (lower upper : ℤ)
    → lower ≤ℤ upper
    → Gives (λ v. (lower ≤ℤ v) × (v ≤ℤ upper)) (get_se16 lower upper)
unfolding get_se16
Gives-get_se16 lower upper h = record {
  on = λ gb w. (clip_bounds (se_value (ue_code gb)) lower upper h, advance-Wide gb _);
}

pub Gives-get_uv : (v : ℕ) → Gives (λ _. Unit {0}) (get_uv v)
unfolding get_uv
Gives-get_uv v = record { on = λ gb w. (tt, advance-Wide gb _) }

-- A field of a fixed length below 2 to that length.
pub Gives-get_u2 : Gives (λ v. v < 4) (get_uv 2)
unfolding get_uv
Gives-get_u2 = record { on = λ gb w. (omega arith, advance-Wide gb 2) }
