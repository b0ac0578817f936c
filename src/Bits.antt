-- ===== src/Bits.antt =====
-- The bitstream reader of src/edge264mvc_bitstream.c on a 64-bit machine (`SIZE_BIT` 64): the two
-- caches of `Edge264MvcGetBits`, their refill with bytes freed of emulation prevention, and the
-- fixed-length and Exp-Golomb codes.
pub mod Words
pub mod Bytes
use Prim.Native.Nat.{bit_and, bit_or, bit_xor}
use edge264_mvc.Common.{
  ℕ, zero, suc, ◌+◌, ◌-◌, ◌*◌, ◌/◌, ◌%◌, ◌^◌, min, Bool, true, false, not, ◌&&◌, ◌||◌, List, [],
  ◌∷◌, ◌++◌, map, leb, ◌==◌, if◌then◌else◌, take, drop, replicate,
}
use edge264_mvc.Common.Int.{ℤ, pos, ◌+ℤ◌, ◌-ℤ◌, min_ℤ, max_ℤ, to_unsigned, to_signed}

-- `Edge264MvcGetBits`. The pointers are addresses into the memory `mem`; `msb_cache` shares its
-- place with the CABAC `offset` and `lsb_cache` with `range`.
pub record GetBits : Type 0 where
  pub mem : ℕ → ℕ
  pub cpb : ℕ
  pub end : ℕ
  pub lsb_cache : ℕ
  pub msb_cache : ℕ

-- `__builtin_ctzll` and `__builtin_clzll`
ctz_from : ℕ → ℕ → ℕ
ctz_from zero n = 0
ctz_from (suc k) n = elim (n % 2 == 1) [ true ↦ 0 | false ↦ suc (ctz_from k (n / 2)) ]

unfoldable pub ctz : ℕ → ℕ
unfolding ctz_from
ctz n = ctz_from 64 n

clz_from : ℕ → ℕ → ℕ
clz_from zero n = 0
clz_from (suc k) n = elim (leb (2 ^ k) n) [ true ↦ 0 | false ↦ suc (clz_from k n) ]

unfoldable pub clz : ℕ → ℕ
unfolding clz_from
clz n = clz_from 64 n

-- Concatenates two words and shifts them left by `i` (0 to 63) to extract a single word.
abbrev pub shld : ℕ → ℕ → ℕ → ℕ
shld l h i = (h * 2 ^ i + l / 2 ^ (64 - i)) % 2 ^ 64

-- Vectors of 16 bytes, lowest address first.
abbrev pub load128 : (ℕ → ℕ) → ℕ → List ℕ
load128 mem p = window p 16
  where
    window : ℕ → ℕ → List ℕ
    window q zero = []
    window q (suc n) = mem q ∷ window (suc q) n

-- Positions move up, or down, and zeros come in.
abbrev pub shlv128 : List ℕ → ℕ → List ℕ
shlv128 v k = take 16 (replicate k 0 ++ v)

abbrev pub shrv128 : List ℕ → ℕ → List ℕ
shrv128 v k = take 16 (drop k v ++ replicate k 0)

-- A mask of vector positions, as `movemask` gives it: bit `i` is element `i`.
abbrev pub any : List Bool → Bool
any [] = false
any (b ∷ bs) = b || any bs

abbrev pub first_set : List Bool → ℕ
first_set [] = 0
first_set (true ∷ bs) = 0
first_set (false ∷ bs) = suc (first_set bs)

-- `esc & (esc - 1)`
abbrev pub clear_first : List Bool → List Bool
clear_first [] = []
clear_first (true ∷ bs) = false ∷ bs
clear_first (false ∷ bs) = false ∷ clear_first bs

abbrev pub both : List Bool → List Bool → List Bool
both (a ∷ as') (b ∷ bs) = (a && b) ∷ both as' bs
both as' bs = []

-- The positions of the third byte of each 00 00 0n, n at most 3, counted from that byte.
abbrev pub escapes : List ℕ → List Bool
escapes (a ∷ b ∷ c ∷ v) = (a == 0 && b == 0 && leb c 3) ∷ escapes (b ∷ c ∷ v)
escapes v = map (λ _. false) v

-- `shuffle(x, shuf[i])`: byte `i` is removed.
abbrev pub remove_byte : ℕ → List ℕ → List ℕ
remove_byte i x = take i x ++ drop (suc i) x ++ 0 ∷ []

-- for (esc; esc & mask; esc = (esc & (esc - 1)) >> 1): each round drops one of the 16 positions.
remove_escapes : ℕ → ℕ → List Bool → List ℕ → ℕ → List ℕ × ℕ
remove_escapes zero nbytes esc x cpb = (x, cpb)
remove_escapes (suc rounds) nbytes esc x cpb = elim (any (take nbytes esc)) [
  | true ↦
      remove_escapes rounds nbytes (drop 1 (clear_first esc)) (remove_byte (first_set esc) x)
        (cpb + 1)
  | false ↦ (x, cpb)
]

-- The first eight bytes as a number, highest first.
abbrev pub big_endian64 : List ℕ → ℕ
big_endian64 x = go 0 (take 8 x)
  where
    go : ℕ → List ℕ → ℕ
    go acc [] = acc
    go acc (b ∷ bs) = go (acc * 256 + b) bs

-- The 16 bytes from CPB - 2, without reading past the last aligned chunk that holds bytes before
-- `end`; it is called for CPB - end < 2.
unfoldable pub load_window : GetBits → List ℕ
load_window gb =
    let p = min (gb.cpb - 2) ((gb.end - 1) / 16 * 16) in
    if leb (gb.cpb + 14) gb.end
    then load128 gb.mem (gb.cpb - 2)
    else shrv128 (shlv128 (load128 gb.mem p) (p + 16 - gb.end)) (min (gb.cpb + 14 - gb.end) 16)

-- `x` cut before the first 00 00 0n with n below 3, where `end` is set.
cut : List Bool → GetBits → List ℕ → List ℕ × ℕ
cut stop gb x =
    if any stop
    then (take (first_set stop) x ++ replicate (16 - first_set stop) 0, gb.cpb + first_set stop - 2)
    else (x, gb.end)

unfoldable pub get_bytes : GetBits → ℕ → ℕ × GetBits
unfolding load_window cut remove_escapes
get_bytes gb nbytes =
    let v = load_window gb in
    let x = shrv128 v 2 in
    let test = escapes v in
    let three = map (λ c. c == 3) x in
    let (x', end') = cut (both test (map not three)) gb x in
    let (x'', cpb') = remove_escapes 16 nbytes (both test three) x' gb.cpb in
    if leb (gb.end + 2) gb.cpb
    then (0, record gb { cpb = gb.cpb + nbytes })
    else (if any (take 8 test)
        then (big_endian64 x'', record gb { cpb = cpb' + nbytes; end = end' })
        else (big_endian64 x, record gb { cpb = gb.cpb + nbytes }))

-- The trailing set bit of the cache is replaced by 64 more bits and a new trailing bit.
unfoldable pub refill : GetBits → GetBits
unfolding get_bytes ctz
refill gb =
    let (bytes, gb') = get_bytes gb 8 in
    let trailing_bit = ctz gb.msb_cache in
    record gb' {
      msb_cache =
          bit_or (bit_xor gb.msb_cache (2 ^ trailing_bit)) (bytes / 2 ^ (63 - trailing_bit))
          % 2 ^ 64;
      lsb_cache = (bytes * 2 + 1) * 2 ^ trailing_bit % 2 ^ 64;
    }

-- What ends each reader: the caches shifted by `v`, refilled once `lsb_cache` is empty.
unfoldable pub advance : GetBits → ℕ → GetBits
unfolding refill
advance gb v =
    let gb' = record gb {
      msb_cache = shld gb.lsb_cache gb.msb_cache v;
      lsb_cache = gb.lsb_cache * 2 ^ v % 2 ^ 64;
    } in
    if gb'.lsb_cache == 0 then refill gb' else gb'

unfoldable pub get_u1 : GetBits → ℕ × GetBits
unfolding advance
get_u1 gb = (gb.msb_cache / 2 ^ 63, advance gb 1)

-- A fixed-length code of `v` bits, 1 to 32.
unfoldable pub get_uv : ℕ → GetBits → ℕ × GetBits
unfolding advance
get_uv v gb = (gb.msb_cache / 2 ^ (64 - v), advance gb v)

-- The length of the Exp-Golomb code at hand, 1 to 63.
unfoldable pub ue_length : GetBits → ℕ
unfolding clz
ue_length gb = clz (bit_or gb.msb_cache (2 ^ 32)) * 2 + 1

-- The code less one, as an `unsigned`: it wraps on a code without a set bit.
unfoldable pub ue_code : GetBits → ℕ
unfolding ue_length
ue_code gb = (gb.msb_cache / 2 ^ (64 - ue_length gb) + (2 ^ 32 - 1)) % 2 ^ 32

unfoldable pub get_ue16 : ℕ → GetBits → ℕ × GetBits
unfolding ue_code ue_length advance
get_ue16 upper gb = (min (ue_code gb) upper, advance gb (ue_length gb))

-- (ue & 1) ? (ue >> 1) + 1 : -(ue >> 1), an `unsigned` read as an `int`
unfoldable pub se_value : ℕ → ℤ
se_value ue =
    if ue % 2 == 1
    then to_signed 32 ((ue / 2 + 1) % 2 ^ 32)
    else to_signed 32 ((2 ^ 32 - ue / 2) % 2 ^ 32)

unfoldable pub get_se16 : ℤ → ℤ → GetBits → ℤ × GetBits
unfolding se_value ue_code ue_length advance
get_se16 lower upper gb =
    (min_ℤ (max_ℤ (se_value (ue_code gb)) lower) upper, advance gb (ue_length gb))

-- On 64-bit machines `get_ue32` and `get_se32` are the same functions.
abbrev pub get_ue32 : ℕ → GetBits → ℕ × GetBits
get_ue32 = get_ue16

abbrev pub get_se32 : ℤ → ℤ → GetBits → ℤ × GetBits
get_se32 = get_se16

-- Bits left before the end of the NAL, negative once the reader overran it.
unfoldable pub bits_left : GetBits → ℤ
unfolding ctz ◌-ℤ◌ ◌+ℤ◌
bits_left gb = pos (gb.end * 8) -ℤ pos (gb.cpb * 8) +ℤ pos (127 - ctz gb.lsb_cache)

-- All bits after the trailing one are zero, and 0 to 7 bits are left (none without a trailing bit).
unfoldable pub rbsp_end : GetBits → ℕ → Bool
unfolding bits_left ◌-ℤ◌
rbsp_end gb trailing_bit =
    gb.msb_cache == trailing_bit * 2 ^ 63
    && bit_and gb.lsb_cache (gb.lsb_cache - 1) == 0
    && leb (to_unsigned 64 (bits_left gb -ℤ pos trailing_bit)) (7 * trailing_bit)
