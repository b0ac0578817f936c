-- ===== src/Cabac/Refines.antt =====
-- `cabac_terminate` and `cabac_start`, and the symbols of a whole run.
use edge264_mvc.Common.{
  ℕ, ◌-◌, ◌*◌, ◌^◌, ◌<◌, ◌≡◌, refl, sym, ap, ◌∙◌, arith, Bool, true, false, ltb, leb, if◌then◌else◌,
}
use mathlib.Core.Path.{subst}
use edge264_mvc.Bits.{clz}
use edge264_mvc.Cabac.{Context, regs, store, refill_regs}
use edge264_mvc.Cabac.Standard.{Standard, renorm_d}
use edge264_mvc.Cabac.{cabac_terminate, renorm_fixed, go_on, finish}
use edge264_mvc.Cabac.Standard.{decode_terminate}
use edge264_mvc.Cabac.Wide.{wide, InRange, Settled, top_up}
use edge264_mvc.Cabac.Renorm.{renorm_d-Settled}
use edge264_mvc.Cabac.Decision.{clz-wide, settle, sub-scaled, leb-scaled}

-- codIRange less the 2 of a terminating bin.
abbrev lowered : Standard → Standard
lowered s = record s { cod_i_range = s.cod_i_range - 2 }

ltb-leb : (a b : ℕ) → ltb a b ≡ (if leb b a then false else true)
ltb-leb a b = ground arith

leb-ltb : (a b : ℕ) → leb a b ≡ (if ltb b a then false else true)
leb-ltb a b = ground arith

go_on-top_up : (ctx : Context) → go_on ctx ≡ (0, top_up 256 7 ctx (regs ctx))
unfolding go_on renorm_fixed
go_on-top_up ctx =
    ap (λ (b : Bool). if b then (0, ctx) else renorm_fixed ctx 0) (leb-ltb 256 ctx.gb.lsb_cache)
    ∙ either (ltb ctx.gb.lsb_cache 256)
  where
    either :
        (b : Bool)
        → (if (if b then false else true) then (0, ctx) else renorm_fixed ctx 0) ≡ (
            let q = if b then refill_regs ctx (regs ctx) 7 else (regs ctx, ctx) in
            let p : ℕ × Context = (0, store q.1 q.0) in p)
    either true = refl
    either false = refl

-- A terminating bin is the standard's. As long as it is 0, so is the state after it.
abbrev pub Terminates : ℕ × Context → ℕ × Standard → Type 0
Terminates q r = (q.0 ≡ r.0) × (r.0 ≡ 0 → (q.1 ≡ wide r.1) × Settled r.1)

module _ (s : Standard) (h : Settled s) where
  lowered-InRange : s.cod_i_offset < s.cod_i_range - 2 → InRange 2 (lowered s)
  lowered-InRange lt = record {
    range_ge = omega (arith, h.range_ge);
    range_le = omega (arith, h.range_le);
    offset_lt = lt;
    bits_lt = h.bits_lt;
    left_le = h.left_le;
    octets = h.octets;
    state_lt = h.state_lt;
    mps_le = h.mps_le;
  }

  range_after :
      (wide s).gb.lsb_cache - 2 * 2 ^ (55 - clz (wide s).gb.lsb_cache)
      ≡ (s.cod_i_range - 2) * 2 ^ s.left
  range_after = rw (clz-wide s.cod_i_range s.left h.range_ge h.range_le h.left_le) (
      ap (λ (k : ℕ). s.cod_i_range * 2 ^ s.left - 2 * 2 ^ k) back
      ∙ sym (sub-scaled s.cod_i_range 2 s.left))
    where
      back : 55 - (55 - s.left) ≡ s.left
      back = omega (arith, h.left_le)

  test_after :
      ltb (wide s).gb.msb_cache ((s.cod_i_range - 2) * 2 ^ s.left)
      ≡ (if leb (s.cod_i_range - 2) s.cod_i_offset then false else true)
  test_after =
      ltb-leb (wide s).gb.msb_cache ((s.cod_i_range - 2) * 2 ^ s.left)
      ∙ ap (λ (b : Bool). if b then false else true)
          (leb-scaled (s.cod_i_range - 2) s.cod_i_offset s.bits s.left h.bits_lt)

  -- `cabac_terminate` branches as the standard's engine does.
  branches : cabac_terminate (wide s) ≡ (
      if leb (s.cod_i_range - 2) s.cod_i_offset
      then finish (55 - clz (wide s).gb.lsb_cache) (wide (lowered s))
      else go_on (wide (lowered s)))
  unfolding cabac_terminate
  branches =
      ap
        (λ (x : ℕ).
          let ctx = store (wide s) (record { range = x; offset = (wide s).gb.msb_cache }) in
          if ltb (wide s).gb.msb_cache x
          then go_on ctx
          else finish (55 - clz (wide s).gb.lsb_cache) ctx)
        range_after
      ∙ ap
          (λ (b : Bool).
            if b
            then go_on (wide (lowered s))
            else finish (55 - clz (wide s).gb.lsb_cache) (wide (lowered s)))
          test_after
      ∙ swapped (leb (s.cod_i_range - 2) s.cod_i_offset)
    where
      swapped :
          (b : Bool)
          → (if (if b then false else true)
              then go_on (wide (lowered s))
              else finish (55 - clz (wide s).gb.lsb_cache) (wide (lowered s)))
            ≡ (if b
                then finish (55 - clz (wide s).gb.lsb_cache) (wide (lowered s))
                else go_on (wide (lowered s)))
      swapped true = refl
      swapped false = refl

  pub cabac_terminate-decode_terminate : Terminates (cabac_terminate (wide s)) (decode_terminate s)
  unfolding decode_terminate finish
  cabac_terminate-decode_terminate =
      subst (λ (q : ℕ × Context). Terminates q (decode_terminate s)) (sym branches)
        (both (leb (s.cod_i_range - 2) s.cod_i_offset) refl)
    where
      both :
          (b : Bool)
          → leb (s.cod_i_range - 2) s.cod_i_offset ≡ b
          → Terminates
              (if b
                then finish (55 - clz (wide s).gb.lsb_cache) (wide (lowered s))
                else go_on (wide (lowered s)))
              (if b then (1, lowered s) else (0, renorm_d 8 (lowered s)))
      both true e = (refl, λ z. absurd (omega (arith, z)))
      both false e =
          let ok = lowered-InRange (ground arith) in
          let same = go_on-top_up (wide (lowered s)) in
          let q = settle (wide (lowered s)) (regs (wide (lowered s))) (lowered s) refl ok in
          (
            ap (λ (p : ℕ × Context). p.0) same,
            λ z. (
              ap (λ (p : ℕ × Context). p.1) same ∙ q,
              renorm_d-Settled 8 (lowered s) ok (omega (arith, h.range_ge)),
            ),
          )
