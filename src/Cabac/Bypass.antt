-- ===== src/Cabac/Bypass.antt =====
-- `get_bypass` decodes the symbol of the standard's bypass, and leaves the same state.
use edge264_mvc.Common.{
  ℕ, suc, ◌+◌, ◌-◌, ◌*◌, ◌/◌, ◌^◌, ◌≤◌, ◌<◌, ◌≡◌, ◌≢◌, refl, sym, ap, ◌∙◌, arith, Bool, true, false,
  ltb, leb, leb→le, ◌==◌, if◌then◌else◌, if_intro,
}
use mathlib.Core.Path.{subst, ap₂}
use native.Mathlib.Nat.{pow-suc, one-le-pow, mod-lt, mul-le-mul}
use native.Mathlib.Decide.{ℕ_discrete}
use edge264_mvc.Bits.Words.{pow_mono}
use edge264_mvc.Bits.Bytes.{Octets, get_bytes-mem}
use edge264_mvc.Cabac.{Context, Regs, regs, store, refill_regs, get_bypass}
use edge264_mvc.Cabac.Standard.{Standard, load, shift_in, next_bit, decode_bypass}
use edge264_mvc.Cabac.Wide.{
  double_range, wide, Settled, top_up, shift_in-parts, new_bits-lt, load-wide,
}
use edge264_mvc.Cabac.Renorm.{top_up-idle, top_up-refill, next-lt}
use edge264_mvc.Cabac.Decision.{leb-scaled, offset-scaled}

-- What `get_bypass` does once its registers hold a bit more than codIRange and codIOffset.
abbrev halve : Context → Regs → ℕ × Context
halve ctx r =
    let x : ℕ × Regs × Context =
      if leb (r.range / 2) r.offset
      then (1, record { range = r.range / 2; offset = r.offset - r.range / 2 }, ctx)
      else (0, record { range = r.range / 2; offset = r.offset }, ctx) in
    (x.0, store x.2 x.1)

halve-store : (ctx : Context) (r : Regs) → halve ctx r ≡ halve (store ctx r) r
halve-store ctx r = go (leb (r.range / 2) r.offset)
  where
    go :
        (b : Bool)
        → (let x : ℕ × Regs × Context =
              if b
              then (1, record { range = r.range / 2; offset = r.offset - r.range / 2 }, ctx)
              else (0, record { range = r.range / 2; offset = r.offset }, ctx) in
            let p : ℕ × Context = (x.0, store x.2 x.1) in p)
          ≡ (let x : ℕ × Regs × Context =
                if b
                then (
                  1,
                  record { range = r.range / 2; offset = r.offset - r.range / 2 },
                  store ctx r,
                )
                else (0, record { range = r.range / 2; offset = r.offset }, store ctx r) in
              let p : ℕ × Context = (x.0, store x.2 x.1) in p)
    go true = refl
    go false = refl

get_bypass-halve :
    (ctx : Context) → get_bypass ctx ≡ (let c = top_up 512 6 ctx (regs ctx) in halve c (regs c))
unfolding get_bypass
get_bypass-halve ctx =
    let q = if ltb ctx.gb.lsb_cache 512 then refill_regs ctx (regs ctx) 6 else (regs ctx, ctx) in
    halve-store q.1 q.0

-- The state with at least a bit ahead.
abbrev supplied : Standard → Standard
supplied s = if s.left == 0 then load 6 s else s

-- `next_bit` on that state, then the comparison.
abbrev compared : Standard → ℕ × Standard
compared s =
    if leb s.cod_i_range s.cod_i_offset
    then (1, record s { cod_i_offset = s.cod_i_offset - s.cod_i_range })
    else (0, s)

-- The registers after `range >>= 1`, as the comparison splits them.
abbrev outcome : Context → Bool → ℕ → ℕ → ℕ × Context
outcome ctx b range offset =
    let x : ℕ × Regs × Context =
      if b
      then (1, record { range = range; offset = offset - range }, ctx)
      else (0, record { range = range; offset = offset }, ctx) in
    (x.0, store x.2 x.1)

outcome-compared :
    (s : Standard) (b : Bool)
    → leb s.cod_i_range s.cod_i_offset ≡ b
    → outcome (wide s) b (s.cod_i_range * 2 ^ s.left) (s.cod_i_offset * 2 ^ s.left + s.bits) ≡ (
        let r : ℕ × Standard =
          if b then (1, record s { cod_i_offset = s.cod_i_offset - s.cod_i_range }) else (0, s) in
        let q : ℕ × Context = (r.0, wide r.1) in q)
outcome-compared s true e =
    let offset =
      offset-scaled s.cod_i_offset s.cod_i_range s.bits s.left
        (leb→le s.cod_i_range s.cod_i_offset e) in
    λ i. (1, record (wide s) { gb = record (wide s).gb { msb_cache = offset i } })
outcome-compared s false e = refl

outcome-same :
    (s : Standard) (b : Bool) (x y : ℕ) → outcome (wide s) b x y ≡ outcome (wide (shift_in s)) b x y
unfolding shift_in
outcome-same s true x y = refl
outcome-same s false x y = refl

halve-wide :
    (s : Standard)
    → 0 < s.left
    → halve (wide s) (regs (wide s)) ≡ (let r = compared (shift_in s) in (r.0, wide r.1))
unfolding shift_in
halve-wide s pos =
    let t = shift_in s in
    let whole : suc (s.left - 1) ≡ s.left = omega arith in
    let range : (wide s).gb.lsb_cache / 2 ≡ t.cod_i_range * 2 ^ t.left = omega (
      arith,
      pow-suc 2 (s.left - 1),
      double_range s.cod_i_range (s.left - 1),
      half s.cod_i_range (s.left - 1),
      ap (λ (k : ℕ). s.cod_i_range * 2 ^ k) whole,
    ) in
    let offset : (wide s).gb.msb_cache ≡ t.cod_i_offset * 2 ^ t.left + t.bits =
      ap (λ (k : ℕ). s.cod_i_offset * 2 ^ k + s.bits) (sym whole)
      ∙ sym (shift_in-parts s.cod_i_offset s.bits (s.left - 1)) in
    let fits : t.bits < 2 ^ t.left = mod-lt s.bits (one-le-pow (s.left - 1) 2 (omega arith)) in
    ap₂ (λ (x y : ℕ). outcome (wide s) (leb x y) x y) range offset
    ∙ ap
        (λ (b : Bool).
          outcome (wide s) b (t.cod_i_range * 2 ^ t.left) (t.cod_i_offset * 2 ^ t.left + t.bits))
        (leb-scaled t.cod_i_range t.cod_i_offset t.bits t.left fits)
    ∙ outcome-same s (leb t.cod_i_range t.cod_i_offset) _ _
    ∙ outcome-compared t (leb t.cod_i_range t.cod_i_offset) refl
  where
    half : (r j : ℕ) → r * 2 * 2 ^ j ≡ 2 * (r * 2 ^ j)
    half r j = grind arith

supplied-none : (s : Standard) → s.left ≡ 0 → supplied s ≡ load 6 s
supplied-none s e =
    let t : (s.left == 0) ≡ true = ground arith in ap (λ (b : Bool). if b then load 6 s else s) t

supplied-some : (s : Standard) → s.left ≢ 0 → supplied s ≡ s
supplied-some s ne =
    let t : (s.left == 0) ≡ false = ground arith in ap (λ (b : Bool). if b then load 6 s else s) t

top_up-supplied :
    (s : Standard) → Settled s → top_up 512 6 (wide s) (regs (wide s)) ≡ wide (supplied s)
top_up-supplied s h = elim (ℕ_discrete s.left 0) [
  | yes e ↦
      let empty : s.bits ≡ 0 = omega (arith, h.bits_lt, ap (λ (t : ℕ). 2 ^ t) e) in
      let small : s.cod_i_range * 2 ^ s.left < 512 = rw e (omega (arith, h.range_le)) in
      top_up-refill 512 6 (wide s) small
      ∙ load-wide s 6 (omega arith) e empty (omega (arith, h.range_le)) h.offset_lt h.octets
      ∙ ap wide (sym (supplied-none s e))
  | no ne ↦
      let large : 256 * 2 ≤ s.cod_i_range * 2 ^ s.left =
        mul-le-mul {n₁ = 256} {m₁ = 2} {n₂ = s.cod_i_range} {m₂ = 2 ^ s.left} h.range_ge
          (omega (arith, pow_mono 1 s.left (omega arith))) in
      top_up-idle 512 6 (wide s) (omega (arith, large)) ∙ ap wide (sym (supplied-some s ne))
]

-- A supplied state has a bit, and at most 55.
supplied-has :
    (s : Standard)
    → Settled s
    → (0 < (supplied s).left)
      × ((supplied s).left ≤ 55)
      × ((supplied s).bits < 2 ^ (supplied s).left)
unfolding load
supplied-has s h =
    if_intro (λ (t : Standard). (0 < t.left) × (t.left ≤ 55) × (t.bits < 2 ^ t.left)) (s.left == 0)
      {x = load 6 s} {y = s}
      (λ _. (omega arith, omega arith, new_bits-lt s 6 (omega arith) h.octets))
      (λ f. (ground arith, h.left_le, h.bits_lt))

compared-Settled :
    (s : Standard)
    → (256 ≤ s.cod_i_range) × (s.cod_i_range ≤ 510) × (s.cod_i_offset < s.cod_i_range)
    → (0 < s.left) × (s.left ≤ 56) × (s.bits < 2 ^ s.left)
    → Octets s.gb
    → ((i : ℕ) → s.p_state_idx i < 64)
    → ((i : ℕ) → s.val_mps i ≤ 1)
    → Settled (compared (shift_in s)).1
unfolding shift_in
compared-Settled s r l oct st mps =
    if_intro (λ (q : ℕ × Standard). Settled q.1)
      (leb s.cod_i_range (s.cod_i_offset * 2 + s.bits / 2 ^ (s.left - 1))) {x = (1, _)} {y = (0, _)}
      (λ t.
        at (s.cod_i_offset * 2 + s.bits / 2 ^ (s.left - 1) - s.cod_i_range)
          (omega (arith, next-lt s l.0 l.2, leb→le s.cod_i_range _ t)))
      (λ f. at (s.cod_i_offset * 2 + s.bits / 2 ^ (s.left - 1)) (ground arith))
  where
    at : (o : ℕ) → o < s.cod_i_range → Settled (record (shift_in s) { cod_i_offset = o })
    at o lt = record {
      range_ge = r.0;
      range_le = r.1;
      offset_lt = lt;
      bits_lt = mod-lt s.bits (one-le-pow (s.left - 1) 2 (omega arith));
      left_le = omega arith;
      octets = oct;
      state_lt = st;
      mps_le = mps;
    }

module _ (s : Standard) (h : Settled s) where
  pub get_bypass-decode_bypass : get_bypass (wide s) ≡ (let r = decode_bypass s in (r.0, wide r.1))
  unfolding decode_bypass next_bit
  get_bypass-decode_bypass =
      get_bypass-halve (wide s)
      ∙ ap (λ (c : Context). halve c (regs c)) (top_up-supplied s h)
      ∙ halve-wide (supplied s) (supplied-has s h).0

  pub decode_bypass-Settled : Settled (decode_bypass s).1
  unfolding decode_bypass next_bit load
  decode_bypass-Settled = elim (ℕ_discrete s.left 0) [
    | yes e ↦
        subst (λ (t : Standard). Settled (compared (shift_in t)).1) (sym (supplied-none s e))
          (compared-Settled (load 6 s) (h.range_ge, h.range_le, h.offset_lt)
            (omega arith, omega arith, new_bits-lt s 6 (omega arith) h.octets)
            (λ i. rw (get_bytes-mem s.gb 6) (h.octets i)) h.state_lt h.mps_le)
    | no ne ↦
        subst (λ (t : Standard). Settled (compared (shift_in t)).1) (sym (supplied-some s ne))
          (compared-Settled s (h.range_ge, h.range_le, h.offset_lt)
            (omega arith, omega (arith, h.left_le), h.bits_lt) h.octets h.state_lt h.mps_le)
  ]
