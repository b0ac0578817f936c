-- ===== src/Cabac/Init.antt =====
-- `cabac_init` of src/edge264mvc_bitstream.c: the context variables at the start of a slice. Each of the
-- 1024 bytes is computed in a lane of its own, from two numbers `m` and `n` of a table.
use edge264_mvc.Common.{
  ℕ, ◌+◌, ◌-◌, ◌*◌, ◌%◌, ◌≤◌, ◌≡◌, arith, min, max, ltb, ◌==◌, if◌then◌else◌, ap, ◌∙◌,
}
use edge264_mvc.Common.Int.{ℤ, pos, negsuc, ◌+ℤ◌, ◌*ℤ◌, min_ℤ, max_ℤ}
use edge264_mvc.ParameterSets.SpsParser.{shr_ℤ}

-- A signed 16-bit sum packed to a byte (`packus16`).
abbrev pub saturate : ℤ → ℕ
saturate (pos n) = min n 255
saturate (negsuc n) = 0

-- From `min` to the byte stored: `mask` is the byte 255 where 64 > min.
unfoldable pub context_byte : ℕ → ℕ
context_byte low =
    let mask = if ltb low 64 then 255 else 0 in
    let p_state_idx = (if ltb low 64 then 255 - max low 1 else max low 1) in
    let shift = (p_state_idx + p_state_idx) % 256 in (shift + shift + mask + 1) % 256

-- A lane, at SliceQPY (0 at least): `mul` is the pair of bytes (qp, 16).
unfoldable pub init_lane : ℕ → ℤ → ℤ → ℕ
unfolding context_byte ◌+ℤ◌ ◌*ℤ◌
init_lane qp m n = context_byte (min (saturate (shr_ℤ (pos qp *ℤ m +ℤ pos 16 *ℤ n) 4)) 126)

unfoldable pub cabac_init : (ℕ → ℤ × ℤ) → ℕ → ℕ → ℕ
unfolding init_lane
cabac_init table qp i = if i == 276 then 252 else init_lane qp (table i).0 (table i).1

-- preCtxState of 9.3.1.1.
abbrev pub pre_ctx_state : ℕ → ℤ → ℤ → ℤ
pre_ctx_state qp m n = min_ℤ (max_ℤ (shr_ℤ (pos qp *ℤ m) 4 +ℤ n) (pos 1)) (pos 126)

-- pStateIdx << 2 | valMPS for it.
abbrev pub state_of : ℤ → ℕ
state_of (pos pre) = if ltb pre 64 then (63 - pre) * 4 else (pre - 64) * 4 + 1
state_of (negsuc n) = 0

context_byte-state_of : (n : ℕ) → n ≤ 126 → context_byte n ≡ state_of (pos (max n 1))
unfolding context_byte
context_byte-state_of n le = ground arith

shr-add : (x n : ℤ) → shr_ℤ (x +ℤ pos 16 *ℤ n) 4 ≡ shr_ℤ x 4 +ℤ n
unfolding ◌+ℤ◌ ◌*ℤ◌
shr-add (pos x) (pos n) = ground arith
shr-add (pos x) (negsuc n) = ground arith
shr-add (negsuc x) (pos n) = ground arith
shr-add (negsuc x) (negsuc n) = ground arith

clipped :
    (a : ℤ)
    → state_of (pos (max (min (saturate a) 126) 1)) ≡ state_of (min_ℤ (max_ℤ a (pos 1)) (pos 126))
clipped (pos a) = ground arith
clipped (negsuc a) = ground arith

-- A context variable is initialised as the standard says, from any entry of the table.
pub init_lane-state_of : (qp : ℕ) (m n : ℤ) → init_lane qp m n ≡ state_of (pre_ctx_state qp m n)
unfolding init_lane
init_lane-state_of qp m n =
    ap (λ (a : ℤ). context_byte (min (saturate a) 126)) (shr-add (pos qp *ℤ m) n)
    ∙ context_byte-state_of _ (omega arith)
    ∙ clipped (shr_ℤ (pos qp *ℤ m) 4 +ℤ n)
