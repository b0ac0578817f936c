-- ===== src/ParameterSets/Scaling.antt =====
-- `parse_scaling_lists` and the tables it reads (src/edge264mvc_headers.c; the scans are those of
-- frames in src/edge264mvc_internal.h). The four vectors of an 8x8 list are one list of 64.
use edge264_mvc.Common.{ℕ, ◌+◌, ◌-◌, List, [], ◌∷◌, ◌==◌, ltb, leb, ◌%◌, if◌then◌else◌, set, get_or}
use edge264_mvc.Common.Int.{pos, negsuc, ◌+ℤ◌, to_unsigned}
use edge264_mvc.Bits.{get_u1, get_se16}
use edge264_mvc.Parser.{Parser, ◌>>=◌, pure, repeat}

abbrev pub default_4x4_intra : List ℕ
default_4x4_intra =
    6 ∷ 13 ∷ 20 ∷ 28 ∷ 13 ∷ 20 ∷ 28 ∷ 32 ∷ 20 ∷ 28 ∷ 32 ∷ 37 ∷ 28 ∷ 32 ∷ 37 ∷ 42 ∷ []

abbrev pub default_4x4_inter : List ℕ
default_4x4_inter =
    10 ∷ 14 ∷ 20 ∷ 24 ∷ 14 ∷ 20 ∷ 24 ∷ 27 ∷ 20 ∷ 24 ∷ 27 ∷ 30 ∷ 24 ∷ 27 ∷ 30 ∷ 34 ∷ []

abbrev pub default_8x8_intra : List ℕ
default_8x8_intra =
    6 ∷ 10 ∷ 13 ∷ 16 ∷ 18 ∷ 23 ∷ 25 ∷ 27 ∷ 10 ∷ 11 ∷ 16 ∷ 18 ∷ 23 ∷ 25 ∷ 27 ∷ 29 ∷ 13 ∷ 16 ∷ 18 ∷ 23
    ∷ 25 ∷ 27 ∷ 29 ∷ 31 ∷ 16 ∷ 18 ∷ 23 ∷ 25 ∷ 27 ∷ 29 ∷ 31 ∷ 33 ∷ 18 ∷ 23 ∷ 25 ∷ 27 ∷ 29 ∷ 31 ∷ 33
    ∷ 36 ∷ 23 ∷ 25 ∷ 27 ∷ 29 ∷ 31 ∷ 33 ∷ 36 ∷ 38 ∷ 25 ∷ 27 ∷ 29 ∷ 31 ∷ 33 ∷ 36 ∷ 38 ∷ 40 ∷ 27 ∷ 29
    ∷ 31 ∷ 33 ∷ 36 ∷ 38 ∷ 40 ∷ 42 ∷ []

abbrev pub default_8x8_inter : List ℕ
default_8x8_inter =
    9 ∷ 13 ∷ 15 ∷ 17 ∷ 19 ∷ 21 ∷ 22 ∷ 24 ∷ 13 ∷ 13 ∷ 17 ∷ 19 ∷ 21 ∷ 22 ∷ 24 ∷ 25 ∷ 15 ∷ 17 ∷ 19 ∷ 21
    ∷ 22 ∷ 24 ∷ 25 ∷ 27 ∷ 17 ∷ 19 ∷ 21 ∷ 22 ∷ 24 ∷ 25 ∷ 27 ∷ 28 ∷ 19 ∷ 21 ∷ 22 ∷ 24 ∷ 25 ∷ 27 ∷ 28
    ∷ 30 ∷ 21 ∷ 22 ∷ 24 ∷ 25 ∷ 27 ∷ 28 ∷ 30 ∷ 32 ∷ 22 ∷ 24 ∷ 25 ∷ 27 ∷ 28 ∷ 30 ∷ 32 ∷ 33 ∷ 24 ∷ 25
    ∷ 27 ∷ 28 ∷ 30 ∷ 32 ∷ 33 ∷ 35 ∷ []

abbrev pub scan_4x4 : List ℕ
scan_4x4 = 0 ∷ 4 ∷ 1 ∷ 2 ∷ 5 ∷ 8 ∷ 12 ∷ 9 ∷ 6 ∷ 3 ∷ 7 ∷ 10 ∷ 13 ∷ 14 ∷ 11 ∷ 15 ∷ []

abbrev pub scan_8x8_cabac : List ℕ
scan_8x8_cabac =
    0 ∷ 8 ∷ 1 ∷ 2 ∷ 9 ∷ 16 ∷ 24 ∷ 17 ∷ 10 ∷ 3 ∷ 4 ∷ 11 ∷ 18 ∷ 25 ∷ 32 ∷ 40 ∷ 33 ∷ 26 ∷ 19 ∷ 12 ∷ 5
    ∷ 6 ∷ 13 ∷ 20 ∷ 27 ∷ 34 ∷ 41 ∷ 48 ∷ 56 ∷ 49 ∷ 42 ∷ 35 ∷ 28 ∷ 21 ∷ 14 ∷ 7 ∷ 15 ∷ 22 ∷ 29 ∷ 36
    ∷ 43 ∷ 50 ∷ 57 ∷ 58 ∷ 51 ∷ 44 ∷ 37 ∷ 30 ∷ 23 ∷ 31 ∷ 38 ∷ 45 ∷ 52 ∷ 59 ∷ 60 ∷ 53 ∷ 46 ∷ 39 ∷ 47
    ∷ 54 ∷ 61 ∷ 62 ∷ 55 ∷ 63 ∷ []

-- delta_scale, added to a scale modulo 256.
unfoldable pub read_scale : ℕ → Parser ℕ
unfolding ◌+ℤ◌
read_scale scale = do
  delta_scale ← get_se16 (negsuc 127) (pos 127)
  pure (to_unsigned 8 (pos scale +ℤ delta_scale))

-- The loop over the positions of a scan, with `nextScale`, `lastScale` and the list. No code is
-- read after the last position.
unfoldable pub fill : List ℕ → ℕ → ℕ → List ℕ → Parser (List ℕ)
fill [] next last weights = pure weights
fill (p ∷ []) next last weights = pure (set weights p (if next == 0 then last else next))
fill (p ∷ q ∷ scan) next last weights =
    if next == 0
    then fill (q ∷ scan) 0 last (set weights p last)
    else (do next' ← read_scale next; fill (q ∷ scan) next' next (set weights p next))

-- A list that is present: the default one where its first scale is 0.
unfoldable pub read_list : List ℕ → List ℕ → List ℕ → Parser (List ℕ)
unfolding read_scale fill
read_list scan default weights = do
  next ← read_scale 8
  if next == 0 then pure default else fill scan next 0 weights

-- The index, the fall-back list and the six lists.
abbrev pub Lists : Type 0
Lists = ℕ × List ℕ × List (List ℕ)

unfoldable pub scaling_list_4x4 : Lists → Parser Lists
unfolding read_list
scaling_list_4x4 (i, fb4x4, w4x4) = do
  let fb = if i == 3 then get_or w4x4 i [] else fb4x4
  let d4x4 = if ltb i 3 then default_4x4_intra else default_4x4_inter
  scaling_list_present_flag ← get_u1
  weights ←
      if scaling_list_present_flag == 0 then pure fb else read_list scan_4x4 d4x4 (get_or w4x4 i [])
  pure (i + 1, weights, set w4x4 i weights)

-- A list that is absent repeats the one two before it, or stays as it is for the first two.
unfoldable pub scaling_list_8x8 : ℕ × List (List ℕ) → Parser (ℕ × List (List ℕ))
unfolding read_list
scaling_list_8x8 (i, w8x8) = do
  let d8x8 = if i % 2 == 0 then default_8x8_intra else default_8x8_inter
  scaling_list_present_flag ← get_u1
  weights ←
      if scaling_list_present_flag == 0
      then pure (get_or w8x8 (if leb 2 i then i - 2 else i) [])
      else read_list scan_8x8_cabac d8x8 (get_or w8x8 i [])
  pure (i + 1, set w8x8 i weights)

unfoldable pub parse_scaling_lists :
    ℕ → ℕ → List (List ℕ) → List (List ℕ) → Parser (List (List ℕ) × List (List ℕ))
unfolding scaling_list_4x4 scaling_list_8x8 repeat
parse_scaling_lists transform_8x8_mode_flag chroma_format_idc w4x4 w8x8 = do
  (_, _, w4x4') ← repeat 6 scaling_list_4x4 (0, get_or w4x4 0 [], w4x4)
  if transform_8x8_mode_flag == 0 then pure (w4x4', w8x8) else (do
    (_, w8x8') ← repeat (if chroma_format_idc == 3 then 6 else 2) scaling_list_8x8 (0, w8x8)
    pure (w4x4', w8x8'))
