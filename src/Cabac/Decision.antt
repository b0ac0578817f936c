-- ===== src/Cabac/Decision.antt =====
-- `get_ae` decodes the symbol that the standard's engine decodes, and leaves the same state.
use Prim.Native.Nat.{bit_xor}
use edge264_mvc.Common.{
  ℕ, ◌+◌, ◌-◌, ◌*◌, ◌/◌, ◌%◌, ◌^◌, ◌≤◌, ◌<◌, ◌≡◌, refl, sym, ap, ◌∙◌, arith, Bool, true, false, ltb,
  leb, leb→le, ◌==◌, if◌then◌else◌, get_or, ==_iff, if_elim, if_intro,
}
use mathlib.Core.Path.{fun_ext, ap₂}
use native.Mathlib.Nat.{
  mul_comm, mul-sub, pow-suc, one-le-pow, add-mul, mul-le-mul_right, mul_assoc,
}
use native.Mathlib.Decide.{dec_le}
use edge264_mvc.Bits.{clz}
use edge264_mvc.Bits.Words.{pow_add, pow_sub, clz-lead}
use edge264_mvc.Decoder.{update}
use edge264_mvc.Cabac.{Context, Regs, regs, store, refill_regs, range_lps, split_range, get_ae}
use edge264_mvc.Cabac.Tables.{range_tab_lps, trans_idx}
use edge264_mvc.Cabac.Standard.{
  Standard, trans_idx_mps, renorm_d, most_probable, least_probable, decode_symbol, decode_decision,
}
use edge264_mvc.Cabac.States.{Transitions, transitions, range_tab_bounds}
use edge264_mvc.Cabac.Wide.{wide, InRange, Settled, top_up, store-refill_regs}
use edge264_mvc.Cabac.Renorm.{renorm_d-Settled, top_up-renorm_d}

pub clz-wide : (r k : ℕ) → 256 ≤ r → r ≤ 510 → k ≤ 55 → clz (r * 2 ^ k) ≡ 55 - k
clz-wide r k ge le fits =
    let low : 256 * 2 ^ k ≤ r * 2 ^ k = mul-le-mul_right (2 ^ k) ge in
    let high : r * 2 ^ k ≤ 510 * 2 ^ k = mul-le-mul_right (2 ^ k) le in
    omega (
      arith,
      clz-lead (8 + k) (r * 2 ^ k) (omega arith) (omega (arith, low, pow_add 8 k))
          (omega (arith, high, pow_add 8 k, pow-suc 2 (8 + k), one-le-pow k 2)),
    )

-- The bits of the range below its leading one pick the column of the table.
column :
    (p v r k : ℕ)
    → v ≤ 1
    → 256 ≤ r
    → r ≤ 510
    → k ≤ 55
    → (p * 4 + v) / 4 * 4 + r * 2 ^ k * 2 ^ (55 - k) % 2 ^ 64 / 2 ^ 61 - 4 ≡ p * 4 + r / 64 % 4
column p v r k vle ge le fits =
    let whole : r * 2 ^ k * 2 ^ (55 - k) ≡ r * 2 ^ 55 =
      mul_assoc r (2 ^ k) (2 ^ (55 - k))
      ∙ ap (λ (t : ℕ). r * t) (mul_comm (2 ^ k) (2 ^ (55 - k)) ∙ pow_sub 55 k fits) in
    rw whole (omega arith)

range_lps-wide :
    (p v r k : ℕ)
    → v ≤ 1
    → 256 ≤ r
    → r ≤ 510
    → k ≤ 55
    → range_lps (p * 4 + v) (r * 2 ^ k) ≡ get_or range_tab_lps (p * 4 + r / 64 % 4) 0 * 2 ^ k
unfolding range_lps
range_lps-wide p v r k vle ge le fits = rw (clz-wide r k ge le fits) (
    rw (column p v r k vle ge le fits)
      (ap (λ (t : ℕ). get_or range_tab_lps (p * 4 + r / 64 % 4) 0 * 2 ^ t) back))
  where
    back : 55 - (55 - k) ≡ k
    back = omega arith

pub sub-scaled : (a b k : ℕ) → (a - b) * 2 ^ k ≡ a * 2 ^ k - b * 2 ^ k
sub-scaled a b k =
    omega
      (arith, mul_comm (a - b) (2 ^ k), mul-sub (2 ^ k) a b, mul_comm a (2 ^ k), mul_comm b (2 ^ k))

-- The comparison of the wide registers is that of the narrow ones.
pub leb-scaled : (a o b k : ℕ) → b < 2 ^ k → leb (a * 2 ^ k) (o * 2 ^ k + b) ≡ leb a o
leb-scaled a o b k lt = elim (dec_le a o) [
  | yes le ↦ ground (arith, mul-le-mul_right (2 ^ k) le)
  | no nle ↦
      ground (
        arith,
        mul-le-mul_right (2 ^ k) (let h : o + 1 ≤ a = omega arith in h),
        add-mul o 1 (2 ^ k),
      )
]

pub offset-scaled : (o a b k : ℕ) → a ≤ o → o * 2 ^ k + b - a * 2 ^ k ≡ (o - a) * 2 ^ k + b
offset-scaled o a b k le = omega (arith, sub-scaled o a k, mul-le-mul_right (2 ^ k) le)

pub settle :
    (ctx : Context) (r : Regs) (s : Standard)
    → store ctx r ≡ wide s
    → InRange 2 s
    → top_up 256 7 ctx r ≡ wide (renorm_d 8 s)
settle ctx r s e h =
    stored (ltb r.range 256)
    ∙ ap (λ (c : Context). top_up 256 7 c (regs c)) e
    ∙ top_up-renorm_d 8 s (omega arith) h (omega (arith, h.range_ge))
  where
    stored :
        (c : Bool)
        → (let q = if c then refill_regs ctx r 7 else (r, ctx) in store q.1 q.0)
          ≡ (let q = if c then refill_regs (store ctx r) r 7 else (r, store ctx r) in store q.1 q.0)
    stored true = sym (store-refill_regs ctx r 7)
    stored false = refl

update-at :
    (f g : ℕ → ℕ) (c n : ℕ) → n ≡ g c → ((i : ℕ) → (c == i) ≡ false → f i ≡ g i) → update f c n ≡ g
update-at f g c n at others =
    fun_ext
      (λ i. if_intro (λ x. x ≡ g i) (c == i) (λ t. at ∙ ap g ((==_iff c i).0 t)) (λ t. others i t))

update_self : (f : ℕ → ℕ) (c v : ℕ) → update f c v c ≡ v
update_self f c v = let e : (c == c) ≡ true = (==_iff c c).1 refl in rw e refl

update_other : (f : ℕ → ℕ) (c v i : ℕ) → (c == i) ≡ false → update f c v i ≡ f i
update_other f c v i e = rw e refl

module _ (s : Standard) (c : ℕ) (h : Settled s) where
  -- The range of the least probable symbol.
  abbrev lps : ℕ
  lps = get_or range_tab_lps (s.p_state_idx c * 4 + s.cod_i_range / 64 % 4) 0

  lps_bounds : (2 ≤ lps) × (lps ≤ 240)
  lps_bounds =
      range_tab_bounds (s.p_state_idx c * 4 + s.cod_i_range / 64 % 4) (omega (arith, h.state_lt c))

  table : Transitions (s.p_state_idx c) (s.val_mps c)
  table = transitions (s.p_state_idx c) (s.val_mps c) (h.state_lt c) (h.mps_le c)

  lps-wide : range_lps ((wide s).cabac c) (wide s).gb.lsb_cache ≡ lps * 2 ^ s.left
  lps-wide =
      range_lps-wide (s.p_state_idx c) (s.val_mps c) s.cod_i_range s.left (h.mps_le c) h.range_ge
        h.range_le h.left_le

  most_probable-InRange : s.cod_i_offset < s.cod_i_range - lps → InRange 2 (most_probable c lps s).1
  unfolding most_probable
  most_probable-InRange lt = record {
    range_ge = omega (arith, lps_bounds, h.range_ge);
    range_le = omega (arith, h.range_le);
    offset_lt = lt;
    bits_lt = h.bits_lt;
    left_le = h.left_le;
    octets = h.octets;
    state_lt = λ i.
        if_elim (λ (p : ℕ). p < 64) (c == i) (mps_lt (s.p_state_idx c) (h.state_lt c))
          (h.state_lt i);
    mps_le = h.mps_le;
  }
    where
      mps_lt : (p : ℕ) → p < 64 → trans_idx_mps p < 64
      mps_lt p lt = ground arith

  least_probable-InRange :
      s.cod_i_range - lps ≤ s.cod_i_offset → InRange 2 (least_probable c lps s).1
  unfolding least_probable
  least_probable-InRange le = record {
    range_ge = lps_bounds.0;
    range_le = omega (arith, lps_bounds);
    offset_lt = omega (arith, h.offset_lt, lps_bounds);
    bits_lt = h.bits_lt;
    left_le = h.left_le;
    octets = h.octets;
    state_lt =
        λ i. if_elim (λ (p : ℕ). p < 64) (c == i) (omega (arith, table.lps_le)) (h.state_lt i);
    mps_le = λ i.
        if_elim (λ (v : ℕ). v ≤ 1) (c == i)
          (if_elim (λ (v : ℕ). v ≤ 1) (s.p_state_idx c == 0) (omega arith) (h.mps_le c))
          (h.mps_le i);
  }

  most_probable-wide :
      store
        (record (wide s) {
          cabac = update (wide s).cabac c (get_or trans_idx ((wide s).cabac c) 0);
        })
        (record {
          range = (wide s).gb.lsb_cache - lps * 2 ^ s.left;
          offset = (wide s).gb.msb_cache;
        })
      ≡ wide (most_probable c lps s).1
  unfolding most_probable
  most_probable-wide =
      let range = sym (sub-scaled s.cod_i_range lps s.left) in
      let states =
        update-at (wide s).cabac (wide (most_probable c lps s).1).cabac c _
          (table.most ∙ ap (λ (p : ℕ). p * 4 + s.val_mps c) (sym (update_self s.p_state_idx c _)))
          (λ i t. ap (λ (p : ℕ). p * 4 + s.val_mps i) (sym (update_other s.p_state_idx c _ i t))) in
      λ i. record { gb = record (wide s).gb { lsb_cache = range i }; cabac = states i }

  least_probable-wide :
      s.cod_i_range - lps ≤ s.cod_i_offset
      → store
          (record (wide s) {
            cabac = update (wide s).cabac c (get_or trans_idx (bit_xor ((wide s).cabac c) 255) 0);
          })
          (record {
            range = lps * 2 ^ s.left;
            offset = (wide s).gb.msb_cache - ((wide s).gb.lsb_cache - lps * 2 ^ s.left);
          })
        ≡ wide (least_probable c lps s).1
  unfolding least_probable
  least_probable-wide le =
      let range = sub-scaled s.cod_i_range lps s.left in
      let offset =
        ap (λ (t : ℕ). (wide s).gb.msb_cache - t) (sym range)
        ∙ offset-scaled s.cod_i_offset (s.cod_i_range - lps) s.bits s.left le in
      let states =
        update-at (wide s).cabac (wide (least_probable c lps s).1).cabac c _
          (table.least
            ∙ ap₂ (λ (p v : ℕ). p * 4 + v) (sym (update_self s.p_state_idx c _))
                (sym (update_self s.val_mps c _)))
          (λ i t.
            ap₂ (λ (p v : ℕ). p * 4 + v) (sym (update_other s.p_state_idx c _ i t))
              (sym (update_other s.val_mps c _ i t))) in
      λ i. record {
        gb = record (wide s).gb { lsb_cache = lps * 2 ^ s.left; msb_cache = offset i };
        cabac = states i;
      }

  -- The two outcomes of `split_range`.
  abbrev least : ℕ × Regs
  least = (
    bit_xor ((wide s).cabac c) 255,
    record {
      range = lps * 2 ^ s.left;
      offset = (wide s).gb.msb_cache - ((wide s).gb.lsb_cache - lps * 2 ^ s.left);
    },
  )

  abbrev most : ℕ × Regs
  most = (
    (wide s).cabac c,
    record { range = (wide s).gb.lsb_cache - lps * 2 ^ s.left; offset = (wide s).gb.msb_cache },
  )

  split_range-wide :
      split_range ((wide s).cabac c) (regs (wide s))
      ≡ (if leb (s.cod_i_range - lps) s.cod_i_offset then least else most)
  unfolding split_range
  split_range-wide =
      ap
        (λ (x : ℕ).
          if leb ((wide s).gb.lsb_cache - x) (wide s).gb.msb_cache
          then (
            bit_xor ((wide s).cabac c) 255,
            (let r : Regs = record {
              range = x;
              offset = (wide s).gb.msb_cache - ((wide s).gb.lsb_cache - x);
            } in
                r),
          )
          else (
            (wide s).cabac c,
            (let r : Regs = record {
              range = (wide s).gb.lsb_cache - x;
              offset = (wide s).gb.msb_cache;
            } in
                r),
          ))
        lps-wide
      ∙ ap (λ (b : Bool). if b then least else most)
          (ap (λ (x : ℕ). leb x (wide s).gb.msb_cache) (sym (sub-scaled s.cod_i_range lps s.left))
            ∙ leb-scaled (s.cod_i_range - lps) s.cod_i_offset s.bits s.left h.bits_lt)

  -- What `get_ae` does with an outcome.
  abbrev outcome : ℕ × Regs → ℕ × Context
  outcome q = (
    q.0 % 2,
    top_up 256 7 (record (wide s) { cabac = update (wide s).cabac c (get_or trans_idx q.0 0) }) q.1,
  )

  abbrev renormed : ℕ × Standard → ℕ × Context
  renormed r = (r.0, wide (renorm_d 8 r.1))

  outcome_symbol :
      (b : Bool)
      → leb (s.cod_i_range - lps) s.cod_i_offset ≡ b
      → outcome (if b then least else most)
        ≡ renormed (if b then least_probable c lps s else most_probable c lps s)
  unfolding least_probable most_probable
  outcome_symbol true e =
      let le = leb→le (s.cod_i_range - lps) s.cod_i_offset e in
      let states =
        settle (record (wide s) { cabac = update (wide s).cabac c (get_or trans_idx least.0 0) })
          least.1 (least_probable c lps s).1 (least_probable-wide le) (least_probable-InRange le) in
      λ i. (table.flipped i, states i)
  outcome_symbol false e =
      let lt : s.cod_i_offset < s.cod_i_range - lps = ground arith in
      let states =
        settle (record (wide s) { cabac = update (wide s).cabac c (get_or trans_idx most.0 0) })
          most.1 (most_probable c lps s).1 most_probable-wide (most_probable-InRange lt) in
      let bin : (s.p_state_idx c * 4 + s.val_mps c) % 2 ≡ s.val_mps c = omega (arith, h.mps_le c) in
      λ i. (bin i, states i)

  -- One decision on the wide registers is one of the standard's engine, with the same symbol.
  pub get_ae-decode_decision : get_ae (wide s) c ≡ (let r = decode_decision c s in (r.0, wide r.1))
  unfolding get_ae decode_decision decode_symbol
  get_ae-decode_decision =
      ap outcome split_range-wide ∙ outcome_symbol (leb (s.cod_i_range - lps) s.cod_i_offset) refl

  pub decode_decision-Settled : Settled (decode_decision c s).1
  unfolding decode_decision decode_symbol
  decode_decision-Settled =
      renorm_d-Settled 8 (decode_symbol c s).1 symbol (omega (arith, symbol.range_ge))
    where
      symbol : InRange 2 (decode_symbol c s).1
      symbol =
          if_intro (λ (r : ℕ × Standard). InRange 2 r.1) (leb (s.cod_i_range - lps) s.cod_i_offset)
            (λ t. least_probable-InRange (leb→le (s.cod_i_range - lps) s.cod_i_offset t))
            (λ f. most_probable-InRange (ground arith))
