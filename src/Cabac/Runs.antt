-- ===== src/Cabac/Runs.antt =====
-- The symbols of a whole run of the engine, from `cabac_start` on.
use edge264_mvc.Common.{
  ℕ, zero, suc, ◌+◌, ◌-◌, ◌*◌, ◌/◌, ◌%◌, ◌^◌, ◌≤◌, ◌<◌, ◌≡◌, refl, ap, ◌∙◌, arith, Bool, true,
  false, ltb, ◌==◌, if◌then◌else◌, ==_iff,
}
use mathlib.Core.Path.{ap₂}
use edge264_mvc.Bits.{GetBits, shld}
use edge264_mvc.Bits.Bytes.{Octets}
use edge264_mvc.Cabac.{Context, get_ae, get_bypass}
use edge264_mvc.Cabac.Standard.{Standard, decode_decision, decode_bypass}
use edge264_mvc.Common.{List, [], ◌∷◌}
use edge264_mvc.Bits.{ctz}
use edge264_mvc.Cabac.{cabac_start, cabac_terminate, reclaim_byte, reclaim_bytes}
use edge264_mvc.Cabac.Standard.{decode_terminate}
use edge264_mvc.Cabac.Wide.{wide, Settled}
use edge264_mvc.Cabac.Decision.{get_ae-decode_decision, decode_decision-Settled}
use edge264_mvc.Cabac.Bypass.{get_bypass-decode_bypass, decode_bypass-Settled}
use edge264_mvc.Cabac.Refines.{cabac_terminate-decode_terminate}

-- What the parsing of macroblocks asks of the engine.
pub data Request : Type 0 where
  decision : (ctx_idx : ℕ) → Request
  bypass : Request
  terminate : Request

-- The bins of the requests on an engine, up to a terminating one.
pub record Engine (S : Type 0) : Type 0 where
  pub on_decision : S → ℕ → ℕ × S
  pub on_bypass : S → ℕ × S
  pub on_terminate : S → ℕ × S

abbrev pub source : Engine Context
source = record { on_decision = get_ae; on_bypass = get_bypass; on_terminate = cabac_terminate }

abbrev pub standard : Engine Standard
standard = record {
  on_decision = λ s c. decode_decision c s;
  on_bypass = decode_bypass;
  on_terminate = decode_terminate;
}

module _ {S : Type 0} (e : Engine S) where
  pub bins : List Request → S → List ℕ
  bins [] s = []
  bins (decision c ∷ rest) s = let r = e.on_decision s c in r.0 ∷ bins rest r.1
  bins (bypass ∷ rest) s = let r = e.on_bypass s in r.0 ∷ bins rest r.1
  bins (terminate ∷ rest) s =
      let r = e.on_terminate s in r.0 ∷ (if r.0 == 0 then bins rest r.1 else [])

if_cong {ℓ} :
    {A : Type ℓ} (b : Bool) {x y : A} (z : A)
    → (b ≡ true → x ≡ y)
    → (if b then x else z) ≡ (if b then y else z)
if_cong true z h = h refl
if_cong false z h = refl

bins-wide :
    (q : List Request) (s : Standard) → Settled s → bins source q (wide s) ≡ bins standard q s
unfolding bins
bins-wide [] s h = refl
bins-wide (decision c ∷ rest) s h =
    ap (λ (r : ℕ × Context). r.0 ∷ bins source rest r.1) (get_ae-decode_decision s c h)
    ∙ ap (λ (l : List ℕ). (decode_decision c s).0 ∷ l)
        (bins-wide rest (decode_decision c s).1 (decode_decision-Settled s c h))
bins-wide (bypass ∷ rest) s h =
    ap (λ (r : ℕ × Context). r.0 ∷ bins source rest r.1) (get_bypass-decode_bypass s h)
    ∙ ap (λ (l : List ℕ). (decode_bypass s).0 ∷ l)
        (bins-wide rest (decode_bypass s).1 (decode_bypass-Settled s h))
bins-wide (terminate ∷ rest) s h =
    let t = cabac_terminate-decode_terminate s h in
    ap₂ (λ (b : ℕ) (l : List ℕ). b ∷ l) t.0
      (ap (λ (b : ℕ). if b == 0 then bins source rest (cabac_terminate (wide s)).1 else []) t.0
        ∙ if_cong ((decode_terminate s).0 == 0) [] λ z.
          let k = t.1 ((==_iff (decode_terminate s).0 0).0 z) in
          ap (bins source rest) k.0 ∙ bins-wide rest (decode_terminate s).1 k.1)

-- The aligned word that `cabac_start` takes its first bits from.
abbrev pub first_word : GetBits → ℕ
first_word gb = shld gb.lsb_cache gb.msb_cache ((63 - ctz gb.lsb_cache) % 8)

-- The standard's engine at the start: 9 bits are read, and 55 are ahead.
abbrev pub initial : GetBits → (ℕ → ℕ) → (ℕ → ℕ) → Standard
initial gb states mps = record {
  cod_i_range = 510;
  cod_i_offset = first_word gb / 2 ^ 55;
  left = 55;
  bits = first_word gb % 2 ^ 55;
  gb = reclaim_bytes ((63 - ctz gb.lsb_cache) / 8) gb;
  p_state_idx = states;
  val_mps = mps;
}

reclaim_bytes-mem : (n : ℕ) (gb : GetBits) → (reclaim_bytes n gb).mem ≡ gb.mem
unfolding reclaim_bytes
reclaim_bytes-mem zero gb = refl
reclaim_bytes-mem (suc n) gb = reclaim_bytes-mem n (reclaim_byte gb)

module _ (gb : GetBits) (states mps : ℕ → ℕ) (valid : first_word gb / 2 ^ 55 < 510) where
  cabac_start-initial :
      cabac_start (record { gb = gb; cabac = λ i. states i * 4 + mps i })
      ≡ wide (initial gb states mps)
  unfolding cabac_start
  cabac_start-initial =
      let offset : (if ltb (first_word gb) (510 * 2 ^ 55) then first_word gb else 510 * 2 ^ 55)
          ≡ first_word gb / 2 ^ 55 * 2 ^ 55 + first_word gb % 2 ^ 55 =
        word (first_word gb) valid in
      λ i. record (wide (initial gb states mps)) {
        gb = record (reclaim_bytes ((63 - ctz gb.lsb_cache) / 8) gb) {
          lsb_cache = 510 * 2 ^ 55;
          msb_cache = offset i;
        };
      }
    where
      word :
          (w : ℕ)
          → w / 2 ^ 55 < 510
          → (if ltb w (510 * 2 ^ 55) then w else 510 * 2 ^ 55) ≡ w / 2 ^ 55 * 2 ^ 55 + w % 2 ^ 55
      word w lt = ground arith

  -- From `cabac_start` on, whatever sequence of decisions, bypass bins and terminating bins the slice data
  -- asks for, the engine with its wide registers and lazy refills gives the bins of the standard's engine,
  -- which reads bit by bit and renormalises in a loop. The memory holds bytes, the context variables are
  -- states of 0 to 63 with a bit, and the first 9 bits are not 510 or 511, which the standard forbids.
  pub bins-cabac_start :
      Octets gb
      → ((i : ℕ) → states i < 64)
      → ((i : ℕ) → mps i ≤ 1)
      → (q : List Request)
      → bins source q (cabac_start (record { gb = gb; cabac = λ i. states i * 4 + mps i }))
        ≡ bins standard q (initial gb states mps)
  bins-cabac_start oct st bit q =
      ap (bins source q) cabac_start-initial
      ∙ bins-wide q (initial gb states mps) (record {
        range_ge = omega arith;
        range_le = omega arith;
        offset_lt = valid;
        bits_lt = omega arith;
        left_le = omega arith;
        octets = λ i. rw (reclaim_bytes-mem ((63 - ctz gb.lsb_cache) / 8) gb) (oct i);
        state_lt = st;
        mps_le = bit;
      })
