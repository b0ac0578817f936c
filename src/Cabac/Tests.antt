-- ===== src/Cabac/Tests.antt =====
-- The engine at a concrete bitstream.
use edge264_mvc.Common.{◌+◌, ◌*◌, ◌/◌, ◌^◌, ◌≡◌, ◌<◌, arith, [], ◌∷◌}
use edge264_mvc.Common.Int.{pos, negsuc}
use edge264_mvc.Bits.{GetBits, ctz}
use edge264_mvc.Cabac.{cabac_start}
use edge264_mvc.Cabac.Runs.{
  decision, bypass, terminate, bins, source, standard, initial, first_word, bins-cabac_start,
}
use edge264_mvc.Cabac.Init.{init_lane, state_of, pre_ctx_state, init_lane-state_of}

-- Slice data from address 24 to 44, all its bytes 0x35.
abbrev slice : GetBits
slice = record {
  mem = λ _. 0x35;
  cpb = 24;
  end = 44;
  lsb_cache = 2 ^ 63;
  msb_cache = 0x3535_3535_3535_3535;
}

first_word-slice : first_word slice / 2 ^ 55 < 510
unfolding ctz
first_word-slice = omega arith

bins-cabac_start_example :
    bins source
      (decision 11 ∷ bypass ∷ decision 11 ∷ terminate ∷ decision 60 ∷ [])
      (cabac_start (record { gb = slice; cabac = λ _. 12 * 4 + 1 }))
    ≡ bins standard
        (decision 11 ∷ bypass ∷ decision 11 ∷ terminate ∷ decision 60 ∷ [])
        (initial slice (λ _. 12) (λ _. 1))
bins-cabac_start_example =
    bins-cabac_start slice (λ _. 12) (λ _. 1) first_word-slice (λ _. omega arith) (λ _. omega arith)
      (λ _. omega arith) (decision 11 ∷ bypass ∷ decision 11 ∷ terminate ∷ decision 60 ∷ [])

init_lane-state_of_example :
    init_lane 26 (pos 20) (negsuc 14) ≡ state_of (pre_ctx_state 26 (pos 20) (negsuc 14))
init_lane-state_of_example = init_lane-state_of 26 (pos 20) (negsuc 14)
