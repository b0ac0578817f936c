-- ===== src/Delivery/Keys.antt =====
-- The order of the display keys of a view.
use edge264_mvc.Common.{
  ℕ, zero, suc, sym, ◌+◌, ◌*◌, ◌/◌, ◌^◌, ◌≤◌, ◌<◌, ◌≡◌, refl, ap, ◌∙◌, true, ◌==◌, ◌&&◌, ltb,
  if◌then◌else◌, List, [], ◌∷◌, length, arith, if_intro, if_elim, leb→le,
}
use edge264_mvc.Bits.Words.{pow_mono}
use mathlib.Core.Path.{subst}
use native.Mathlib.Nat.{div-add-mod', mod-lt}
use edge264_mvc.Common.Int.{
  ℤ, pos, negsuc, pos_part, neg_part, ◌+ℤ◌, ◌-ℤ◌, ◌*ℤ◌, ◌<ℤ◌, int64, int64-fits, int_laws,
}
use edge264_mvc.Delivery.{OutputKey, quot, raise, not_after, next_base, unwrap_output_poc}

-- A value between -`n` and `n`.
pub record Near (n : ℕ) (a : ℤ) : Type 0 where
  pub above : pos_part a ≤ n + neg_part a
  pub below : neg_part a ≤ n + pos_part a

int64-Near : (n : ℕ) (a : ℤ) → Near n a → n < 2 ^ 63 → int64 a ≡ a
int64-Near n (pos a) h lt = int64-fits (pos a) (omega (arith, h.above)) (omega arith)
int64-Near n (negsuc a) h lt = int64-fits (negsuc a) (omega arith) (omega (arith, h.below))

-- A deficit is raised to a whole number of spans.
whole_spans : (k n : ℕ) → (n ≤ (n + k) / suc k * suc k) × ((n + k) / suc k * suc k ≤ n + k)
whole_spans k n =
    let d = div-add-mod' (n + k) (suc k) in
    let m = mod-lt (n + k) {m = suc k} (omega arith) in (grind (arith, d, m), grind (arith, d, m))

numerator : (n k : ℕ) → pos n +ℤ pos (suc k) -ℤ pos 1 ≡ pos (n + k)
unfolding ◌+ℤ◌ ◌-ℤ◌
numerator n k = ground arith

product : (a b : ℕ) → pos a *ℤ pos b ≡ pos (a * b)
unfolding ◌*ℤ◌
product a b = ground arith

raise-pos :
    (span n : ℕ)
    → 0 < n
    → n + span < 2 ^ 63
    → (r : ℕ) × (raise span (pos n) ≡ pos r) × (n ≤ r) × (r ≤ n + span)
unfolding raise
raise-pos zero n p lt = (n, refl, omega arith, omega arith)
raise-pos (suc k) n p lt =
    let w = whole_spans k n in
    (
      (n + k) / suc k * suc k,
      let t : ltb 0 (suc k) ≡ true = ground arith in
          rw t (
            ap (λ v. int64 (quot v (suc k) *ℤ pos (suc k)))
              (ap int64 (numerator n k) ∙ int64-fits (pos (n + k)) (omega arith) (omega arith))
            ∙ ap int64 (product ((n + k) / suc k) (suc k))
            ∙ int64-fits (pos ((n + k) / suc k * suc k)) (omega (arith, w.1)) (omega arith)),
      w.0,
      omega (arith, w.1),
    )

positive : (a : ℤ) → neg_part a < pos_part a → (n : ℕ) × (a ≡ pos n) × (0 < n)
positive (pos n) h = (n, refl, omega arith)
positive (negsuc n) h = absurd (omega arith)

-- The base and the key of a picture, when those before it are between -`n` and `n`.
record Stepped (n : ℕ) (prev raw base : ℤ) : Type 0 where
  pub base_near : Near (n + 2 ^ 33) base
  pub key_near : Near (n + 2 ^ 33) (int64 (base +ℤ raw))
  pub later : prev <ℤ int64 (base +ℤ raw)

module _ (n : ℕ) (base prev raw : ℤ) (room : n + 2 ^ 33 ≤ 2 ^ 61) (b : Near n base)
    (p : Near n prev) (r : Near (2 ^ 31) raw) where
  stepped : (base' : ℤ) → Near (n + 2 ^ 32) base' → prev <ℤ base' +ℤ raw → Stepped n prev raw base'
  stepped base' near lt =
      let near' : Near (n + 2 ^ 33) (base' +ℤ raw) = record {
        above = omega (int_laws, near.above, near.below, r.above, r.below);
        below = omega (int_laws, near.above, near.below, r.above, r.below);
      } in
      let e = int64-Near (n + 2 ^ 33) (base' +ℤ raw) near' (omega arith) in
      record {
        base_near = record { above = omega (arith, near.above); below = omega (arith, near.below) };
        key_near = subst (Near (n + 2 ^ 33)) (sym e) near';
        later = subst (λ v. prev <ℤ v) (sym e) lt;
      }

  value : int64 (base +ℤ raw) ≡ base +ℤ raw
  value =
      int64-Near (n + 2 ^ 31) (base +ℤ raw)
        (record {
          above = omega (int_laws, b.above, b.below, r.above, r.below);
          below = omega (int_laws, b.above, b.below, r.above, r.below);
        })
        (omega arith)

  raised :
      (span : ℕ)
      → span ≤ 2 ^ 16
      → not_after (base +ℤ raw) prev ≡ true
      → Stepped n prev raw (int64 (base +ℤ raise span (int64 (prev -ℤ (base +ℤ raw) +ℤ pos 1))))
  raised span small after =
      let d = prev -ℤ (base +ℤ raw) +ℤ pos 1 in
      let le = leb→le _ _ after in
      let (m, e, m0) = positive d (omega (int_laws, le)) in
      let fits =
        int64-Near (n + n + 2 ^ 32) d
          (record {
            above = omega (int_laws, b.above, b.below, p.above, p.below, r.above, r.below);
            below = omega (int_laws, b.above, b.below, p.above, p.below, r.above, r.below);
          })
          (omega arith) in
      let size : m ≤ n + n + 2 ^ 32 = omega (
        int_laws,
        b.above,
        b.below,
        p.above,
        p.below,
        r.above,
        r.below,
        ap pos_part e,
        ap neg_part e,
      ) in
      let (q, eq, ge, lt) = raise-pos span m m0 (omega arith) in
      let near : Near (n + 2 ^ 32) (base +ℤ pos q) = record {
        above = omega (
          int_laws,
          b.above,
          b.below,
          p.above,
          p.below,
          r.above,
          r.below,
          ap pos_part e,
          ap neg_part e,
        );
        below = omega (int_laws, b.above, b.below);
      } in
      let whole : int64 (base +ℤ raise span (int64 d)) ≡ base +ℤ pos q =
        ap (λ v. int64 (base +ℤ raise span v)) (fits ∙ e)
        ∙ ap (λ v. int64 (base +ℤ v)) eq
        ∙ int64-Near (n + 2 ^ 32) (base +ℤ pos q) near (omega arith) in
      subst (Stepped n prev raw) (sym whole)
        (stepped (base +ℤ pos q) near (omega (int_laws, ap pos_part e, ap neg_part e)))

span-le : (type log2 : ℕ) → log2 ≤ 16 → (if type == 0 && ltb 0 log2 then 2 ^ log2 else 0) ≤ 2 ^ 16
span-le type log2 le =
    if_elim (λ v. v ≤ 2 ^ 16) (type == 0 && ltb 0 log2) (pow_mono log2 16 le) (omega arith)

next_base-Stepped :
    (n type log2 : ℕ) (k : OutputKey) (raw : ℤ)
    → k.have_prev ≡ true
    → n + 2 ^ 33 ≤ 2 ^ 61
    → Near n k.base
    → Near n k.prev
    → log2 ≤ 16
    → Near (2 ^ 31) raw
    → Stepped n k.prev raw (next_base type log2 k raw)
unfolding next_base
next_base-Stepped n type log2 k raw e room b p le r =
    let span = if type == 0 && ltb 0 log2 then 2 ^ log2 else 0 in
    subst
      (λ v. Stepped n k.prev raw (
        if k.have_prev && not_after v k.prev
        then int64 (k.base +ℤ raise span (int64 (k.prev -ℤ v +ℤ pos 1)))
        else k.base))
      (sym (value n k.base k.prev raw room b p r))
      (if_intro (Stepped n k.prev raw) (k.have_prev && not_after (k.base +ℤ raw) k.prev)
        (λ t. raised n k.base k.prev raw room b p r span (span-le type log2 le) (ground (arith, t)))
        (λ f.
          stepped n k.base k.prev raw room b p r k.base
            (record { above = omega (arith, b.above); below = omega (arith, b.below) })
            (ground (arith, e, f))))

-- The keys of a run of output pictures, each with the pic_order_cnt_type and the length of the order
-- count of the sequence parameter set at hand.
pub keys : OutputKey → List (ℕ × ℕ × ℤ) → List ℤ
keys k [] = []
keys k ((type, log2, raw) ∷ pics) =
    let (key, k') = unwrap_output_poc type log2 k raw in key ∷ keys k' pics

pub Ascending : ℤ → List ℤ → Type 0
Ascending below [] = Unit {0}
Ascending below (key ∷ rest) = (below <ℤ key) × Ascending key rest

-- What a stream may code: an order count of 32 bits, and a length of it that a parameter set has.
abbrev pub Coded : List (ℕ × ℕ × ℤ) → Type 0
Coded [] = Unit {0}
Coded ((type, log2, raw) ∷ pics) = (log2 ≤ 16) × Near (2 ^ 31) raw × Coded pics

-- After a first picture, the display keys of a view ascend strictly and start above the one before,
-- whatever the order counts of 32 bits: across their wraps, IDR pictures and changes of parameter set
-- (log2_max_pic_order_cnt_lsb at most 16). For this the base and the key before lie within `n` of 0 and
-- there is room for the run: `n` and 2^33 for each picture are 2^61 at most, so that no sum of 64 bits
-- wraps.
pub keys-Ascending :
    (n : ℕ) (k : OutputKey) (pics : List (ℕ × ℕ × ℤ))
    → k.have_prev ≡ true
    → Near n k.base
    → Near n k.prev
    → Coded pics
    → n + length pics * 2 ^ 33 ≤ 2 ^ 61
    → Ascending k.prev (keys k pics)
unfolding keys unwrap_output_poc Ascending
keys-Ascending n k [] e b p c room = tt
keys-Ascending n k ((type, log2, raw) ∷ pics) e b p c room =
    let s = next_base-Stepped n type log2 k raw e (omega arith) b p c.0 c.1 in
    (
      s.later,
      keys-Ascending (n + 2 ^ 33) (unwrap_output_poc type log2 k raw).1 pics refl s.base_near
          s.key_near c.2 (omega arith),
    )
