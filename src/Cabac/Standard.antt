-- ===== src/Cabac/Standard.antt =====
-- The arithmetic decoding engine of the H.264 standard (9.3.1.2, 9.3.3.2): registers of 9 bits, to which
-- bits are brought one at a time.
use edge264_mvc.Common.{
  ℕ, zero, suc, ◌+◌, ◌-◌, ◌*◌, ◌/◌, ◌%◌, ◌^◌, true, false, ltb, leb, ◌==◌, if◌then◌else◌, get_or,
  List, [], ◌∷◌,
}
use edge264_mvc.Bits.{GetBits, get_bytes}
use edge264_mvc.Decoder.{update}
use edge264_mvc.Cabac.Tables.{range_tab_lps}

-- codIRange and codIOffset; the bits that were loaded and not read yet, as the number of them and
-- their value, with the reader for more; and the context variables.
pub record Standard : Type 0 where
  pub cod_i_range : ℕ
  pub cod_i_offset : ℕ
  pub left : ℕ
  pub bits : ℕ
  pub gb : GetBits
  pub p_state_idx : ℕ → ℕ
  pub val_mps : ℕ → ℕ

-- Table 9-45.
abbrev pub trans_idx_lps : List ℕ
trans_idx_lps =
    0 ∷ 0 ∷ 1 ∷ 2 ∷ 2 ∷ 4 ∷ 4 ∷ 5 ∷ 6 ∷ 7 ∷ 8 ∷ 9 ∷ 9 ∷ 11 ∷ 11 ∷ 12 ∷ 13 ∷ 13 ∷ 15 ∷ 15 ∷ 16 ∷ 16
    ∷ 18 ∷ 18 ∷ 19 ∷ 19 ∷ 21 ∷ 21 ∷ 22 ∷ 22 ∷ 23 ∷ 24 ∷ 24 ∷ 25 ∷ 26 ∷ 26 ∷ 27 ∷ 27 ∷ 28 ∷ 29 ∷ 29
    ∷ 30 ∷ 30 ∷ 30 ∷ 31 ∷ 32 ∷ 32 ∷ 33 ∷ 33 ∷ 33 ∷ 34 ∷ 34 ∷ 35 ∷ 35 ∷ 35 ∷ 36 ∷ 36 ∷ 36 ∷ 37 ∷ 37
    ∷ 37 ∷ 38 ∷ 38 ∷ 63 ∷ []

abbrev pub trans_idx_mps : ℕ → ℕ
trans_idx_mps p = if ltb p 62 then suc p else p

-- Loads `bytes` more bytes.
unfoldable pub load : ℕ → Standard → Standard
load bytes s =
    let r = get_bytes s.gb bytes in
    record s { left = bytes * 8; bits = r.0 / 2 ^ (64 - bytes * 8); gb = r.1 }

-- read_bits(1), at the low end of codIOffset.
unfoldable pub shift_in : Standard → Standard
shift_in s = record s {
  cod_i_offset = s.cod_i_offset * 2 + s.bits / 2 ^ (s.left - 1);
  left = s.left - 1;
  bits = s.bits % 2 ^ (s.left - 1);
}

unfoldable pub next_bit : ℕ → Standard → Standard
unfolding load shift_in
next_bit bytes s = shift_in (if s.left == 0 then load bytes s else s)

-- RenormD (9.3.3.2.2), at most `fuel` rounds: a range is at least 2, so 8 are enough.
unfoldable pub renorm_d : ℕ → Standard → Standard
unfolding next_bit
renorm_d zero s = s
renorm_d (suc fuel) s = elim (ltb s.cod_i_range 256) [
  | true ↦ (let s' = next_bit 7 s in renorm_d fuel (record s' { cod_i_range = s'.cod_i_range * 2 }))
  | false ↦ s
]

-- The most and the least probable symbol of context `c`, whose range is `lps`.
unfoldable pub most_probable : ℕ → ℕ → Standard → ℕ × Standard
most_probable c lps s = (
  s.val_mps c,
  record s {
    cod_i_range = s.cod_i_range - lps;
    p_state_idx = update s.p_state_idx c (trans_idx_mps (s.p_state_idx c));
  },
)

unfoldable pub least_probable : ℕ → ℕ → Standard → ℕ × Standard
least_probable c lps s = (
  1 - s.val_mps c,
  record s {
    cod_i_range = lps;
    cod_i_offset = s.cod_i_offset - (s.cod_i_range - lps);
    val_mps = update s.val_mps c (if s.p_state_idx c == 0 then 1 - s.val_mps c else s.val_mps c);
    p_state_idx = update s.p_state_idx c (get_or trans_idx_lps (s.p_state_idx c) 0);
  },
)

-- DecodeDecision (9.3.3.2.1)
unfoldable pub decode_symbol : ℕ → Standard → ℕ × Standard
unfolding most_probable least_probable
decode_symbol c s =
    let q = s.cod_i_range / 64 % 4 in
    let lps = get_or range_tab_lps (s.p_state_idx c * 4 + q) 0 in
    if leb (s.cod_i_range - lps) s.cod_i_offset
    then least_probable c lps s
    else most_probable c lps s

unfoldable pub decode_decision : ℕ → Standard → ℕ × Standard
decode_decision c s = let (bin, s') = decode_symbol c s in (bin, renorm_d 8 s')

-- DecodeBypass (9.3.3.2.3)
unfoldable pub decode_bypass : Standard → ℕ × Standard
unfolding next_bit
decode_bypass s0 =
    let s = next_bit 6 s0 in
    if leb s.cod_i_range s.cod_i_offset
    then (1, record s { cod_i_offset = s.cod_i_offset - s.cod_i_range })
    else (0, s)

-- DecodeTerminate (9.3.3.2.2.3), where it does not end the slice data.
unfoldable pub decode_terminate : Standard → ℕ × Standard
decode_terminate s0 =
    let s = record s0 { cod_i_range = s0.cod_i_range - 2 } in
    if leb s.cod_i_range s.cod_i_offset then (1, s) else (0, renorm_d 8 s)
