-- ===== src/Cabac.antt =====
-- The arithmetic decoder of src/edge264mvc_bitstream.c on a 64-bit machine (`SIZE_BIT` 64). `range` and
-- `offset` share their places with `lsb_cache` and `msb_cache`, and hold more bits than the standard's
-- registers: both are shifted by the same number of bits, so that a refill brings many bits at once.
pub mod Tables
pub mod Standard
pub mod States
pub mod Wide
pub mod Renorm
pub mod Decision
pub mod Bypass
pub mod Refines
pub mod Runs
pub mod Init
pub mod Tests
use Prim.Native.Nat.{bit_xor}
use edge264_mvc.Common.{
  ℕ, zero, suc, ◌+◌, ◌-◌, ◌*◌, ◌/◌, ◌%◌, ◌^◌, Bool, true, false, ltb, leb, ◌==◌, if◌then◌else◌,
  get_or, ◌&&◌,
}
use edge264_mvc.Bits.{GetBits, ctz, clz, shld, get_bytes, refill}
use edge264_mvc.Decoder.{update}
use Tables.{range_tab_lps, trans_idx}

-- The fields of `Edge264MvcContext` that the engine uses.
pub record Context : Type 0 where
  pub gb : GetBits
  pub cabac : ℕ → ℕ

-- `range` and `offset` in the caller's local variables.
pub record Regs : Type 0 where
  pub range : ℕ
  pub offset : ℕ

-- `t.gb.range` and `t.gb.offset`
abbrev pub regs : Context → Regs
regs ctx = record { range = ctx.gb.lsb_cache; offset = ctx.gb.msb_cache }

abbrev pub store : Context → Regs → Context
store ctx r = record ctx { gb = record ctx.gb { lsb_cache = r.range; msb_cache = r.offset } }

-- `bytes` more bytes come in at the low end of `offset`.
unfoldable pub refill_offset : Context → ℕ → ℕ → ℕ × Context
unfolding get_bytes
refill_offset ctx offset bytes =
    let (b, gb') = get_bytes ctx.gb bytes in (shld b offset (bytes * 8), record ctx { gb = gb' })

-- `range <<= bytes * 8`, with as many bits refilled into `offset`.
unfoldable pub refill_regs : Context → Regs → ℕ → Regs × Context
unfolding refill_offset
refill_regs ctx r bytes =
    let (offset, ctx') = refill_offset ctx r.offset bytes in
    (record { range = r.range * 2 ^ (bytes * 8) % 2 ^ 64; offset = offset }, ctx')

-- The range of the least probable symbol, at the scale of `range`.
unfoldable pub range_lps : ℕ → ℕ → ℕ
unfolding clz
range_lps state range =
    let shift = clz range in
    let idx = state / 4 * 4 + range * 2 ^ shift % 2 ^ 64 / 2 ^ 61 in
    get_or range_tab_lps (idx - 4) 0 * 2 ^ (55 - shift)

-- The registers and the state once the symbol is known: `offset >= range` is the least probable one.
unfoldable pub split_range : ℕ → Regs → ℕ × Regs
unfolding range_lps
split_range state r =
    let lps = range_lps state r.range in
    let range = r.range - lps in
    if leb range r.offset
    then (bit_xor state 255, record { range = lps; offset = r.offset - range })
    else (state, record { range = range; offset = r.offset })

unfoldable pub get_ae_regs : Context → ℕ → Regs → ℕ × Regs × Context
unfolding split_range refill_regs
get_ae_regs ctx0 ctx_idx r0 =
    let (state, r) = split_range (ctx0.cabac ctx_idx) r0 in
    let ctx = record ctx0 { cabac = update ctx0.cabac ctx_idx (get_or trans_idx state 0) } in
    let (r', ctx') = if ltb r.range 256 then refill_regs ctx r 7 else (r, ctx) in
    (state % 2, r', ctx')

unfoldable pub get_bypass_regs : Context → Regs → ℕ × Regs × Context
unfolding refill_regs
get_bypass_regs ctx0 r0 =
    let (r, ctx) = if ltb r0.range 512 then refill_regs ctx0 r0 6 else (r0, ctx0) in
    let range = r.range / 2 in
    if leb range r.offset
    then (1, record { range = range; offset = r.offset - range }, ctx)
    else (0, record { range = range; offset = r.offset }, ctx)

unfoldable pub get_ae : Context → ℕ → ℕ × Context
unfolding get_ae_regs
get_ae ctx ctx_idx = let (bin, r, ctx') = get_ae_regs ctx ctx_idx (regs ctx) in (bin, store ctx' r)

unfoldable pub get_bypass : Context → ℕ × Context
unfolding get_bypass_regs
get_bypass ctx = let (bin, r, ctx') = get_bypass_regs ctx (regs ctx) in (bin, store ctx' r)

-- `renorm_bits` and `renorm_fixed` refill the registers where they are stored.
unfoldable pub renorm_bits : Context → ℕ → ℕ × Context
unfolding refill_regs
renorm_bits ctx bits =
    let (r, ctx') = refill_regs ctx (regs ctx) (bits / 8) in (bits % 8, store ctx' r)

unfoldable pub renorm_fixed : Context → ℕ → ℕ × Context
unfolding refill_regs
renorm_fixed ctx ret = let (r, ctx') = refill_regs ctx (regs ctx) 7 in (ret, store ctx' r)

-- CPB steps back over a byte of the cache, and over an emulation prevention byte with it.
unfoldable pub reclaim_byte : GetBits → GetBits
reclaim_byte gb =
    let three =
      leb gb.cpb gb.end
      && gb.mem (gb.cpb - 3) == 0
      && gb.mem (gb.cpb - 2) == 0
      && gb.mem (gb.cpb - 1) == 3 in
    record gb { cpb = gb.cpb - (if three then 2 else 1) }

-- `while (extra_bits >= 8)`, for each whole byte.
unfoldable pub reclaim_bytes : ℕ → GetBits → GetBits
unfolding reclaim_byte
reclaim_bytes zero gb = gb
reclaim_bytes (suc n) gb = reclaim_bytes n (reclaim_byte gb)

unfoldable pub cabac_start : Context → Context
unfolding reclaim_bytes ctz
cabac_start ctx =
    let extra_bits = 63 - ctz ctx.gb.lsb_cache in
    let offset = shld ctx.gb.lsb_cache ctx.gb.msb_cache (extra_bits % 8) in
    let range = 510 * 2 ^ 55 in
    store (record ctx { gb = reclaim_bytes (extra_bits / 8) ctx.gb })
      (record { range = range; offset = if ltb offset range then offset else range })

-- The slice data goes on: `range` is brought back to 256 at least.
unfoldable pub go_on : Context → ℕ × Context
unfolding renorm_fixed
go_on ctx = if leb 256 ctx.gb.lsb_cache then (0, ctx) else renorm_fixed ctx 0

-- The slice data ends: the bits read ahead go back to the cache, but for those of alignment.
unfoldable pub finish : ℕ → Context → ℕ × Context
unfolding refill
finish extra ctx =
    let msb = (ctx.gb.msb_cache * 2 + 1) * 2 ^ (63 - extra / 8 * 8) % 2 ^ 64 in
    (1, record ctx { gb = refill (record ctx.gb { msb_cache = msb }) })

unfoldable pub cabac_terminate : Context → ℕ × Context
unfolding clz
cabac_terminate ctx =
    let extra = 55 - clz ctx.gb.lsb_cache in
    let range = ctx.gb.lsb_cache - 2 * 2 ^ extra in
    let ctx' = store ctx (record { range = range; offset = ctx.gb.msb_cache }) in
    if ltb ctx.gb.msb_cache range then go_on ctx' else finish extra ctx'
