-- ===== src/Cabac/Wide.antt =====
-- The engine's wide registers hold those of the standard above the bits that were loaded ahead.
use edge264_mvc.Common.{
  ℕ, suc, ◌+◌, ◌-◌, ◌*◌, ◌/◌, ◌%◌, ◌^◌, ◌≤◌, ◌<◌, ◌≡◌, ap, ◌∙◌, arith, ltb, if◌then◌else◌,
}
use native.Mathlib.Nat.{
  pow-suc, one-le-pow, add-mul, div-add-mod', div-lt_iff_lt-mul, mod-eq_of_lt, mul-le-mul_right,
}
use edge264_mvc.Bits.{GetBits, shld, get_bytes}
use edge264_mvc.Bits.Words.{pow_sub}
use edge264_mvc.Bits.Bytes.{Octets, get_bytes-lt, get_bytes-caches}
use edge264_mvc.Cabac.{Context, Regs, regs, store, refill_offset, refill_regs}
use edge264_mvc.Cabac.Standard.{Standard, load, shift_in}

-- The registers of the source at a state of the standard's engine: `left` bits were loaded ahead.
abbrev pub wide : Standard → Context
wide s = record {
  gb = record s.gb {
    lsb_cache = s.cod_i_range * 2 ^ s.left;
    msb_cache = s.cod_i_offset * 2 ^ s.left + s.bits;
  };
  cabac = λ i. s.p_state_idx i * 4 + s.val_mps i;
}

-- codIRange has at most 9 bits, codIOffset is below it, and with the bits ahead they fit a word.
pub record InRange (low : ℕ) (s : Standard) : Type 0 where
  pub range_ge : low ≤ s.cod_i_range
  pub range_le : s.cod_i_range ≤ 510
  pub offset_lt : s.cod_i_offset < s.cod_i_range
  pub bits_lt : s.bits < 2 ^ s.left
  pub left_le : s.left ≤ 55
  pub octets : Octets s.gb
  pub state_lt : (i : ℕ) → s.p_state_idx i < 64
  pub mps_le : (i : ℕ) → s.val_mps i ≤ 1

-- Between the operations codIRange is at least 256.
abbrev pub Settled : Standard → Type 0
Settled = InRange 256

pub settled : (s : Standard) → InRange 2 s → 256 ≤ s.cod_i_range → Settled s
settled s h ge = record {
  range_ge = ge;
  range_le = h.range_le;
  offset_lt = h.offset_lt;
  bits_lt = h.bits_lt;
  left_le = h.left_le;
  octets = h.octets;
  state_lt = h.state_lt;
  mps_le = h.mps_le;
}

-- `if (range < low)` a refill by `bytes`, then the registers are stored.
abbrev pub top_up : ℕ → ℕ → Context → Regs → Context
top_up low bytes ctx r =
    let (r', ctx') = if ltb r.range low then refill_regs ctx r bytes else (r, ctx) in store ctx' r'

-- A refill does not look at the stored registers.
pub store-refill_regs :
    (ctx : Context) (r : Regs) (bytes : ℕ)
    → (let q = refill_regs (store ctx r) r bytes in store q.1 q.0)
      ≡ (let q = refill_regs ctx r bytes in store q.1 q.0)
unfolding refill_regs refill_offset
store-refill_regs ctx r bytes =
    ap
      (λ (q : ℕ × GetBits).
        let offset = shld q.0 r.offset (bytes * 8) in
        store (record ctx { gb = q.1 })
          (record { range = r.range * 2 ^ (bytes * 8) % 2 ^ 64; offset = offset }))
      (get_bytes-caches ctx.gb bytes r.range r.offset)

pub double_range : (r j : ℕ) → r * 2 * 2 ^ j ≡ r * 2 ^ suc j
double_range r j = grind (arith, pow-suc 2 j)

pub shift_in-parts : (o b j : ℕ) → (o * 2 + b / 2 ^ j) * 2 ^ j + b % 2 ^ j ≡ o * 2 ^ suc j + b
shift_in-parts o b j =
    omega (arith, add-mul (o * 2) (b / 2 ^ j) (2 ^ j), double_range o j, div-add-mod' b (2 ^ j))

-- A round of the renormalisation where bits are left.
abbrev pub round_left : Standard → Standard
round_left s = let s' = shift_in s in record s' { cod_i_range = s'.cod_i_range * 2 }

-- Bits shifted in one at a time leave the wide registers as they are.
pub shift_in-wide : (s : Standard) → 0 < s.left → s.bits < 2 ^ s.left → wide (round_left s) ≡ wide s
unfolding shift_in
shift_in-wide s pos lt =
    let e : suc (s.left - 1) ≡ s.left = omega arith in
    let range = double_range s.cod_i_range (s.left - 1) ∙ ap (λ (t : ℕ). s.cod_i_range * 2 ^ t) e in
    let offset =
      shift_in-parts s.cod_i_offset s.bits (s.left - 1)
      ∙ ap (λ (t : ℕ). s.cod_i_offset * 2 ^ t + s.bits) e in
    λ i. record (wide s) { gb = record s.gb { lsb_cache = range i; msb_cache = offset i } }

pub new_bits-lt :
    (s : Standard) (bytes : ℕ)
    → bytes ≤ 7
    → Octets s.gb
    → (get_bytes s.gb bytes).0 / 2 ^ (64 - bytes * 8) < 2 ^ (bytes * 8)
new_bits-lt s bytes le oct = (div-lt_iff_lt-mul (one-le-pow (64 - bytes * 8) 2 (omega arith))).1 (
    omega (
      arith,
      get_bytes-lt s.gb bytes oct,
      pow_sub 64 (64 - bytes * 8) (omega arith),
      ap (λ (t : ℕ). 2 ^ t * 2 ^ (64 - bytes * 8))
          (let e : 64 - (64 - bytes * 8) ≡ bytes * 8 = omega arith in e),
    ))

pub new_bits_fit :
    (s : Standard) (bytes : ℕ)
    → bytes ≤ 7
    → s.cod_i_range * 2 ^ (bytes * 8) < 2 ^ 64
    → s.cod_i_offset < s.cod_i_range
    → Octets s.gb
    → s.cod_i_offset * 2 ^ (bytes * 8) + (get_bytes s.gb bytes).0 / 2 ^ (64 - bytes * 8) < 2 ^ 64
new_bits_fit s bytes le fits lt oct =
    let next : suc s.cod_i_offset * 2 ^ (bytes * 8) ≤ s.cod_i_range * 2 ^ (bytes * 8) =
      mul-le-mul_right (2 ^ (bytes * 8)) lt in
    omega (
      arith,
      next,
      new_bits-lt s bytes le oct,
      add-mul s.cod_i_offset 1 (2 ^ (bytes * 8)),
      suc_eq s.cod_i_offset,
    )
  where
    suc_eq : (x : ℕ) → suc x * 2 ^ (bytes * 8) ≡ x * 2 ^ (bytes * 8) + 2 ^ (bytes * 8)
    suc_eq x = grind arith

-- With none left, a load is a refill of the wide registers.
pub load-wide :
    (s : Standard) (bytes : ℕ)
    → bytes ≤ 7
    → s.left ≡ 0
    → s.bits ≡ 0
    → s.cod_i_range * 2 ^ (bytes * 8) < 2 ^ 64
    → s.cod_i_offset < s.cod_i_range
    → Octets s.gb
    → (let q = refill_regs (wide s) (regs (wide s)) bytes in store q.1 q.0) ≡ wide (load bytes s)
unfolding load refill_regs refill_offset
load-wide s bytes le none none' fits lt oct =
    let caches =
      get_bytes-caches s.gb bytes (s.cod_i_range * 2 ^ s.left)
        (s.cod_i_offset * 2 ^ s.left + s.bits) in
    let range : s.cod_i_range * 2 ^ s.left * 2 ^ (bytes * 8) % 2 ^ 64
        ≡ s.cod_i_range * 2 ^ (bytes * 8) =
      rw none (rw (one s.cod_i_range) (mod-eq_of_lt fits)) in
    let offset : shld (get_bytes s.gb bytes).0 (s.cod_i_offset * 2 ^ s.left + s.bits) (bytes * 8)
        ≡ s.cod_i_offset * 2 ^ (bytes * 8) + (get_bytes s.gb bytes).0 / 2 ^ (64 - bytes * 8) =
      rw (none, none') (rw (one_zero s.cod_i_offset) (mod-eq_of_lt room)) in
    ap
      (λ (q : ℕ × GetBits). record (wide s) {
        gb = record q.1 {
          lsb_cache = s.cod_i_range * 2 ^ s.left * 2 ^ (bytes * 8) % 2 ^ 64;
          msb_cache = shld q.0 (s.cod_i_offset * 2 ^ s.left + s.bits) (bytes * 8);
        };
      })
      caches
    ∙ (λ i. record (wide s) {
      gb = record (get_bytes s.gb bytes).1 { lsb_cache = range i; msb_cache = offset i };
    })
  where
    one : (x : ℕ) → x * 2 ^ 0 ≡ x
    one x = omega arith

    one_zero : (x : ℕ) → x * 2 ^ 0 + 0 ≡ x
    one_zero x = omega arith

    room :
        s.cod_i_offset * 2 ^ (bytes * 8) + (get_bytes s.gb bytes).0 / 2 ^ (64 - bytes * 8) < 2 ^ 64
    room = new_bits_fit s bytes le fits lt oct
