-- ===== src/Delivery.antt =====
-- Helpers of the delivery of frames (src/edge264mvc.c and src/edge264mvc_internal.h): the display key of
-- an output picture, the handle of a frame, the results of the API and the search for a start code.
pub mod Handles
pub mod Keys
pub mod StartCode
use edge264_mvc.Common.{
  ℕ, zero, suc, ◌+◌, ◌-◌, ◌*◌, ◌/◌, ◌%◌, ◌^◌, ◌≤◌, ◌<◌, ◌≡◌, refl, Bool, true, false, ◌&&◌, List,
  [], ◌∷◌, Option, none, some, arith, ◌==◌, ltb, leb, if◌then◌else◌, get_or,
}
use edge264_mvc.Common.Int.{
  ℤ, pos, negsuc, pos_part, neg_part, sub_ℕ, int64, ◌+ℤ◌, ◌-ℤ◌, ◌*ℤ◌, ltb_ℤ,
}
use edge264_mvc.Common.Masks.{FrameMask, empty, bit, ◌∪◌}
use Prim.Native.Nat.{bit_or}

-- The output keys of a view: `OutputPocBase`, `PrevOutputUnwrapped`, `HavePrevOutputPoc`.
pub record OutputKey : Type 0 where
  pub base : ℤ
  pub prev : ℤ
  pub have_prev : Bool

-- Division of int64_t, which rounds towards 0.
abbrev pub quot : ℤ → ℕ → ℤ
quot (pos n) m = pos (n / m)
quot (negsuc n) m = sub_ℕ 0 (suc n / m)

-- (deficit + span - 1) / span * span, or the deficit where there is no span.
unfoldable pub raise : ℕ → ℤ → ℤ
unfolding ◌+ℤ◌ ◌-ℤ◌ ◌*ℤ◌
raise span deficit =
    if ltb 0 span
    then int64 (quot (int64 (deficit +ℤ pos span -ℤ pos 1)) span *ℤ pos span)
    else deficit

-- value <= PrevOutputUnwrapped
abbrev pub not_after : ℤ → ℤ → Bool
not_after a b = leb (pos_part a + neg_part b) (pos_part b + neg_part a)

-- The base, moved up until base + `raw` is above the key before it. `type` and `log2` are those of the
-- sequence parameter set. The sums are of type int64_t and wrap.
unfoldable pub next_base : ℕ → ℕ → OutputKey → ℤ → ℤ
unfolding ◌+ℤ◌ ◌-ℤ◌ raise
next_base type log2 k raw =
    let value = int64 (k.base +ℤ raw) in
    let span = if type == 0 && ltb 0 log2 then 2 ^ log2 else 0 in
    if k.have_prev && not_after value k.prev
    then int64 (k.base +ℤ raise span (int64 (k.prev -ℤ value +ℤ pos 1)))
    else k.base

unfoldable pub unwrap_output_poc : ℕ → ℕ → OutputKey → ℤ → ℤ × OutputKey
unfolding next_base ◌+ℤ◌
unwrap_output_poc type log2 k raw =
    let base = next_base type log2 k raw in
    let value = int64 (base +ℤ raw) in
    (value, record { base = base; prev = value; have_prev = true })

-- The handle of a frame holds the slot of each view plus one, or 0, in a byte.
abbrev pub slot_byte : Option ℕ → ℕ
slot_byte none = 0
slot_byte (some s) = suc s

unfoldable pub handle_of : Option ℕ → Option ℕ → ℕ
handle_of pic0 pic1 = bit_or (slot_byte pic0) (slot_byte pic1 * 2 ^ 8)

unfoldable pub handle_pic : ℕ → ℕ → Option ℕ
handle_pic handle view = slot (handle / 2 ^ (view * 8) % 2 ^ 8)
  where
    slot : ℕ → Option ℕ
    slot zero = none
    slot (suc s) = some s

unfoldable pub add_pic : Option ℕ → FrameMask → FrameMask
add_pic none m = m
add_pic (some pic) m = m ∪ bit pic

-- The slots that a handle names.
unfoldable pub handle_frames : ℕ → FrameMask
unfolding handle_pic add_pic
handle_frames handle = add_pic (handle_pic handle 1) (add_pic (handle_pic handle 0) empty)

-- The results of the parsers and those of the API.
pub data Errno : Type 0 where
  success : Errno
  enobufs : Errno
  enotsup : Errno
  enomem : Errno
  einval : Errno
  other : Errno

pub data ApiResult : Type 0 where
  ok : ApiResult
  again : ApiResult
  unsupported : ApiResult
  nomem : ApiResult
  invalid : ApiResult
  corrupt : ApiResult

abbrev pub to_result : Errno → ApiResult
to_result success = ok
to_result enobufs = again
to_result enotsup = unsupported
to_result enomem = nomem
to_result einval = invalid
to_result other = corrupt

-- memchr(buf + i, 1, size - i): the next byte 1, over at most `n` bytes. The call and the test after it
-- are the rounds of `find_from`.
unfoldable pub find_one : ℕ → List ℕ → ℕ → Option ℕ
find_one zero buf i = none
find_one (suc n) buf i = elim (get_or buf i 0 == 1) [
  | true ↦ some i
  | false ↦ find_one n buf (suc i)
]

-- The loop from position `i`, over at most `fuel` rounds, for a buffer of `size` bytes.
unfoldable pub find_from : ℕ → List ℕ → ℕ → ℕ → ℕ
find_from zero buf size i = size
find_from (suc fuel) buf size i = elim (ltb i size) [
  | false ↦ size
  | true ↦ elim (find_one (size - i) buf i) [
    | none ↦ size
    | some one ↦ elim (get_or buf (one - 1) 0 == 0 && get_or buf (one - 2) 0 == 0) [
      | true ↦ one - 2
      | false ↦ find_from fuel buf size (suc one)
    ]
  ]
]

-- edge264mvc_find_start_code, for a buffer that is not NULL. A round moves on by one byte at least.
unfoldable pub find_start_code : List ℕ → ℕ → ℕ
unfolding find_from
find_start_code buf size = find_from size buf size 2
