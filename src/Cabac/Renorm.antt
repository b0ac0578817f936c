-- ===== src/Cabac/Renorm.antt =====
-- The renormalisation of the standard's engine on the wide registers.
use edge264_mvc.Common.{
  ℕ, zero, suc, ◌-◌, ◌*◌, ◌/◌, ◌^◌, ◌≤◌, ◌<◌, ◌≡◌, refl, sym, ap, ◌∙◌, arith, Bool, true, false,
  ltb, ◌==◌, if◌then◌else◌, if_elim, ltb→lt, lt→ltb, ltb→ge, elim_intro,
}
use mathlib.Core.Path.{subst}
use native.Mathlib.Nat.{pow-suc, one-le-pow, div-lt_iff_lt-mul, mod-lt, le-mul_of_pos_right}
use native.Mathlib.Decide.{ℕ_discrete}
use edge264_mvc.Bits.Bytes.{Octets, get_bytes-mem}
use edge264_mvc.Cabac.{Context, regs, store, refill_regs}
use edge264_mvc.Cabac.Standard.{Standard, load, shift_in, next_bit, renorm_d}
use edge264_mvc.Cabac.Wide.{
  wide, InRange, Settled, settled, top_up, round_left, double_range, shift_in-wide, new_bits-lt,
  load-wide,
}

-- A round of the renormalisation.
abbrev round : Standard → Standard
round s = let s' = next_bit 7 s in record s' { cod_i_range = s'.cod_i_range * 2 }

pub next_bit-some : (s : Standard) (bytes : ℕ) → 0 < s.left → next_bit bytes s ≡ shift_in s
unfolding next_bit
next_bit-some s bytes lt =
    let e : (s.left == 0) ≡ false = ground arith in
    ap (λ (c : Bool). shift_in (if c then load bytes s else s)) e

pub next_bit-none :
    (s : Standard) (bytes : ℕ) → s.left ≡ 0 → next_bit bytes s ≡ shift_in (load bytes s)
unfolding next_bit
next_bit-none s bytes h =
    let e : (s.left == 0) ≡ true = ground arith in
    ap (λ (c : Bool). shift_in (if c then load bytes s else s)) e

round-some : (s : Standard) → 0 < s.left → round s ≡ round_left s
round-some s lt =
    ap (λ (t : Standard). record t { cod_i_range = t.cod_i_range * 2 }) (next_bit-some s 7 lt)

round-none : (s : Standard) → s.left ≡ 0 → round s ≡ round_left (load 7 s)
round-none s h =
    ap (λ (t : Standard). record t { cod_i_range = t.cod_i_range * 2 }) (next_bit-none s 7 h)

round_left-left : (s : Standard) → (round_left s).left ≡ s.left - 1
unfolding shift_in
round_left-left s = refl

pub round_left-bits : (s : Standard) → (round_left s).bits < 2 ^ (round_left s).left
unfolding shift_in
round_left-bits s = mod-lt s.bits (one-le-pow (s.left - 1) 2 (omega arith))

-- Where enough bits were loaded, a renormalisation leaves the wide registers as they are.
pub renorm_d-wide :
    (n : ℕ) (s : Standard) → n ≤ s.left → s.bits < 2 ^ s.left → wide (renorm_d n s) ≡ wide s
unfolding renorm_d
renorm_d-wide zero s le fits = refl
renorm_d-wide (suc n) s le fits =
    elim_intro (λ t. wide t ≡ wide s) (ltb s.cod_i_range 256)
      (λ _.
        ap (λ (t : Standard). wide (renorm_d n t)) (round-some s (omega arith))
        ∙ renorm_d-wide n (round_left s) (omega (arith, round_left-left s)) (round_left-bits s)
        ∙ shift_in-wide s (omega arith) fits)
      (λ _. refl)

-- The bit that comes next.
pub next-lt : (s : Standard) → 0 < s.left → s.bits < 2 ^ s.left → s.bits / 2 ^ (s.left - 1) < 2
next-lt s pos lt =
    let whole : suc (s.left - 1) ≡ s.left = omega arith in
    (div-lt_iff_lt-mul (one-le-pow (s.left - 1) 2 (omega arith))).1
      (omega (arith, pow-suc 2 (s.left - 1), ap (λ (t : ℕ). 2 ^ t) whole))

-- What the rounds keep.
round_left-InRange :
    (s : Standard)
    → (2 ≤ s.cod_i_range) × (s.cod_i_range < 256) × (s.cod_i_offset < s.cod_i_range)
    → (0 < s.left) × (s.left ≤ 56) × (s.bits < 2 ^ s.left)
    → Octets s.gb
    → ((i : ℕ) → s.p_state_idx i < 64)
    → ((i : ℕ) → s.val_mps i ≤ 1)
    → InRange 2 (round_left s)
unfolding shift_in
round_left-InRange s r l oct st mps = record {
  range_ge = omega arith;
  range_le = omega arith;
  offset_lt = omega (arith, next-lt s l.0 l.2);
  bits_lt = mod-lt s.bits (one-le-pow (s.left - 1) 2 (omega arith));
  left_le = omega arith;
  octets = oct;
  state_lt = st;
  mps_le = mps;
}

round-InRange : (s : Standard) → InRange 2 s → s.cod_i_range < 256 → InRange 2 (round s)
unfolding load
round-InRange s h lt = elim (ℕ_discrete s.left 0) [
  | yes e ↦ subst (InRange 2) (sym (round-none s e)) (
      round_left-InRange (load 7 s) (h.range_ge, lt, h.offset_lt)
        (omega arith, omega arith, new_bits-lt s 7 (omega arith) h.octets)
        (λ i. rw (get_bytes-mem s.gb 7) (h.octets i)) h.state_lt h.mps_le)
  | no ne ↦ subst (InRange 2) (sym (round-some s (omega arith))) (
      round_left-InRange s (h.range_ge, lt, h.offset_lt)
        (omega arith, omega (arith, h.left_le), h.bits_lt) h.octets h.state_lt h.mps_le)
]

round-range : (s : Standard) → (round s).cod_i_range ≡ s.cod_i_range * 2
unfolding next_bit shift_in load
round-range s =
    if_elim (λ (t : Standard). t.cod_i_range * 2 ≡ s.cod_i_range * 2) (s.left == 0) {x = load 7 s}
      {y = s} refl refl

pub renorm_d-Settled :
    (n : ℕ) (s : Standard) → InRange 2 s → 256 ≤ s.cod_i_range * 2 ^ n → Settled (renorm_d n s)
unfolding renorm_d
renorm_d-Settled zero s h enough = settled s h (omega arith)
renorm_d-Settled (suc n) s h enough =
    elim_intro Settled (ltb s.cod_i_range 256)
      (λ t.
        renorm_d-Settled n (round s) (round-InRange s h (ltb→lt _ _ t))
          (rw (round-range s) (omega (arith, double_range s.cod_i_range n))))
      (λ f. settled s h (ltb→ge _ _ f))

module _ (low bytes : ℕ) (ctx : Context) where
  pub top_up-idle : low ≤ ctx.gb.lsb_cache → top_up low bytes ctx (regs ctx) ≡ ctx
  top_up-idle le =
      let e : ltb ctx.gb.lsb_cache low ≡ false = ground arith in
      ap
        (λ (c : Bool).
          let q = if c then refill_regs ctx (regs ctx) bytes else (regs ctx, ctx) in store q.1 q.0)
        e

  pub top_up-refill :
      ctx.gb.lsb_cache < low
      → top_up low bytes ctx (regs ctx)
        ≡ (let q = refill_regs ctx (regs ctx) bytes in store q.1 q.0)
  top_up-refill lt =
      let e : ltb ctx.gb.lsb_cache low ≡ true = lt→ltb _ _ lt in
      ap
        (λ (c : Bool).
          let q = if c then refill_regs ctx (regs ctx) bytes else (regs ctx, ctx) in store q.1 q.0)
        e

idle_settled : (s : Standard) → 256 ≤ s.cod_i_range → top_up 256 7 (wide s) (regs (wide s)) ≡ wide s
idle_settled s ge = top_up-idle 256 7 (wide s) (omega (arith, ge, scaled))
  where
    scaled : s.cod_i_range ≤ s.cod_i_range * 2 ^ s.left
    scaled = le-mul_of_pos_right s.cod_i_range (one-le-pow s.left 2 (omega arith))

-- With no bit left, a refill brings more than the rounds read.
refill_round :
    (n : ℕ) (s : Standard)
    → n ≤ 8
    → InRange 2 s
    → s.cod_i_range < 256
    → s.left ≡ 0
    → top_up 256 7 (wide s) (regs (wide s)) ≡ wide (renorm_d n (round s))
unfolding load
refill_round n s le h lt none =
    let empty : s.bits ≡ 0 = omega (arith, h.bits_lt, ap (λ (t : ℕ). 2 ^ t) none) in
    let small : s.cod_i_range * 2 ^ s.left < 256 = rw none (omega arith) in
    let fits = new_bits-lt s 7 (omega arith) h.octets in
    let after = round_left (load 7 s) in
    top_up-refill 256 7 (wide s) small
    ∙ load-wide s 7 (omega arith) none empty (omega arith) h.offset_lt h.octets
    ∙ sym (shift_in-wide (load 7 s) (omega arith) fits)
    ∙ sym (
        renorm_d-wide n after (omega (arith, round_left-left (load 7 s)))
          (round_left-bits (load 7 s)))
    ∙ ap (λ (t : Standard). wide (renorm_d n t)) (sym (round-none s none))

-- The refill of the source is the renormalisation of the standard, whose rounds it saves.
pub top_up-renorm_d :
    (n : ℕ) (s : Standard)
    → n ≤ 8
    → InRange 2 s
    → 256 ≤ s.cod_i_range * 2 ^ n
    → top_up 256 7 (wide s) (regs (wide s)) ≡ wide (renorm_d n s)
unfolding renorm_d
top_up-renorm_d zero s le h enough = idle_settled s (omega arith)
top_up-renorm_d (suc n) s le h enough =
    elim_intro (λ t. top_up 256 7 (wide s) (regs (wide s)) ≡ wide t) (ltb s.cod_i_range 256)
      (λ t. short (ltb→lt _ _ t) (
        top_up-renorm_d n (round s) (omega arith) (round-InRange s h (ltb→lt _ _ t))
          (rw (round-range s) (omega (arith, double_range s.cod_i_range n)))))
      (λ f. idle_settled s (ltb→ge _ _ f))
  where
    short :
        s.cod_i_range < 256
        → top_up 256 7 (wide (round s)) (regs (wide (round s))) ≡ wide (renorm_d n (round s))
        → top_up 256 7 (wide s) (regs (wide s)) ≡ wide (renorm_d n (round s))
    short lt ih = elim (ℕ_discrete s.left 0) [
      | yes e ↦ refill_round n s (omega arith) h lt e
      | no ne ↦
          let same =
            ap wide (round-some s (omega arith)) ∙ shift_in-wide s (omega arith) h.bits_lt in
          subst (λ c. top_up 256 7 c (regs c) ≡ wide (renorm_d n (round s))) same ih
    ]
