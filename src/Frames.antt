-- ===== src/Frames.antt =====
-- Delivery of decoded frames: `get_frame` and `return_frame` of src/edge264mvc.c, with the decoder's lock
-- held. What get_frame does when it delivered nothing and the queues are full, a wait for the worker
-- threads, comes after all of it and is left out.
pub mod Queues
pub mod Deliver
pub mod Select
pub mod Keep
pub mod Paired
pub mod Delivered
pub mod GetFrame
pub mod Orphans
pub mod Lowest
pub mod Drain
pub mod Flush
pub mod Flushed
pub mod Filled
pub mod Clear
pub mod Reach
pub mod Tests
use edge264_mvc.Common.{
  ℕ, zero, suc, ◌+◌, ◌*◌, ◌/◌, Bool, true, false, not, ◌&&◌, ◌||◌, List, [], ◌∷◌, Option, none,
  some, ◌==◌, max, ltb, if◌then◌else◌,
}
use edge264_mvc.Common.Int.{ℤ, pos, ltb_ℤ}
use edge264_mvc.Common.Masks.{FrameMask, field_id, bit, ◌∩◌, ◌∪◌, ◌∖◌, ◌△◌, mask_any, mask_popcount}
use edge264_mvc.Decoder.{
  Decoder, int_max, update, frame_poc, same_access_unit, queue_size, queue_push,
}
use edge264_mvc.Output.{first_dependent, queue_for_output, dequeue_frame}
use edge264_mvc.Delivery.{OutputKey, unwrap_output_poc, handle_of, handle_frames}

-- The decoder with the rest of what delivery reads. `deblocked` holds the pictures whose next_deblock_addr
-- is INT_MAX, `writing` those of busy tasks (a bottom field at its slot plus FIELD_ID).
pub record Player : Type 0 where
  pub dec : Decoder
  pub curr_pic : Option ℕ
  pub deblocked : FrameMask
  pub writing : FrameMask
  -- `ssps.BitDepth_Y != 0`
  pub mvc : Bool
  pub flushing : Bool
  pub undelivered : Bool
  pub stale_frames : FrameMask
  pub keys : ℕ → OutputKey
  -- pic_order_cnt_type and log2_max_pic_order_cnt_lsb
  pub poc_type : ℕ
  pub poc_log2 : ℕ

-- What get_frame tells of a frame beside its samples, which are those of slots `pic0` and `pic1`.
pub record Output : Type 0 where
  pub pic0 : ℕ
  pub pic1 : Option ℕ
  pub frame_id : ℤ
  pub poc : ℤ
  pub display_poc : ℤ
  pub frame_id_mvc : Option ℤ
  pub poc_mvc : ℤ
  pub display_poc_mvc : ℤ
  pub return_arg : ℕ

unfoldable pub frame_complete : Player → ℕ → Bool
frame_complete p pic = p.deblocked pic && (not p.dec.interlaced || p.deblocked (pic + field_id))

-- The pictures of a mask folded onto their slots.
abbrev pub slot_bits : Decoder → FrameMask → FrameMask
slot_bits d m i = if d.interlaced then ltb i field_id && (m i || m (i + field_id)) else m i

abbrev pub is_pic : Option ℕ → ℕ → Bool
is_pic none i = false
is_pic (some p) i = p == i

-- `idx0` and `pic0`, `lowest_order`, `lowest_any_order` and `lowest_any_pic`
pub record Scan : Type 0 where
  pub found : Option (ℕ × ℕ)
  pub lowest_order : ℤ
  pub lowest_any_order : ℤ
  pub lowest_any_pic : Option ℕ

-- Whether `order` comes before the frame found so far.
abbrev pub before_found : ℤ → Scan → Bool
before_found order s = elim (s.found) [ none ↦ true | some _ ↦ ltb_ℤ order s.lowest_order ]

unfoldable pub look_any : ℤ → ℕ → Scan → Scan
look_any order queued s =
    if ltb_ℤ order s.lowest_any_order
    then record s { lowest_any_order = order; lowest_any_pic = some queued }
    else s

unfoldable pub can_output : Player → ℕ → Bool
unfolding frame_complete
can_output p queued = frame_complete p queued || (p.flushing && not (is_pic p.curr_pic queued))

-- Entry `i` of the queue of base views.
unfoldable pub look : Player → ℕ → ℕ → Scan → Scan
unfolding look_any can_output
look p i queued s0 =
    let order = p.dec.disp_order queued in
    let s = look_any order queued s0 in
    if can_output p queued && before_found order s
    then record s { found = some (i, queued); lowest_order = order }
    else s

unfoldable pub scan_from : Player → ℕ → List (Option ℕ) → Scan → Scan
unfolding look
scan_from p i [] s = s
scan_from p i (none ∷ rest) s = s
scan_from p i (some queued ∷ rest) s = scan_from p (suc i) rest (look p i queued s)

abbrev pub no_scan : Scan
no_scan = record {
  found = none;
  lowest_order = int_max;
  lowest_any_order = int_max;
  lowest_any_pic = none;
}

unfoldable pub scan : Player → Scan
unfolding scan_from
scan p = scan_from p 0 (p.dec.get_frame_queue 0) no_scan

-- Whether picture `pic` is being parsed, or a busy task writes it.
unfoldable pub in_flight : Player → ℕ → Bool
in_flight p pic =
    is_pic p.curr_pic pic || mask_any (λ t. p.writing t && slot_bits p.dec (bit t) pic)

-- Whether a frame is held for an earlier one that is still decoded.
unfoldable pub held : Player → ℕ → Scan → Bool
unfolding in_flight
held p pic0 s = elim (s.lowest_any_pic) [
  | none ↦ false
  | some any ↦ not (any == pic0) && not p.flushing && in_flight p any
]

-- `idx0` and `pic0` after the scan.
unfoldable pub select : Player → Option (ℕ × ℕ)
unfolding scan held
select p = elim (scan p).found [
  | none ↦ none
  | some (i, pic0) ↦ if held p pic0 (scan p) then none else some (i, pic0)
]

-- The first complete entry of the queue of dependent views that is of the access unit of `pic0`.
unfoldable pub pair_from : Player → ℕ → ℕ → List (Option ℕ) → Option (ℕ × ℕ)
unfolding frame_complete
pair_from p pic0 i [] = none
pair_from p pic0 i (none ∷ rest) = none
pair_from p pic0 i (some queued ∷ rest) =
    if frame_complete p queued && same_access_unit p.dec pic0 queued
    then some (i, queued)
    else pair_from p pic0 (suc i) rest

-- The valve that queues a decoded dependent view of `pic0`.
unfoldable pub queue_dependent : Player → ℕ → Player × Option (ℕ × ℕ)
unfolding first_dependent queue_for_output frame_complete
queue_dependent p pic0 =
    elim (first_dependent p.dec (p.dec.to_get_frames ∖ p.dec.output_frames ∩ p.dec.non_base_frames)
      pic0) [
        | none ↦ (p, none)
        | some d ↦
            if frame_complete p d
            then (record p { dec = queue_for_output p.dec 1 d }, some (0, d))
            else (p, none)
      ]

-- The dependent view of `pic0`, as `idx1` and `pic1`.
unfoldable pub pair : Player → ℕ → Player × Option (ℕ × ℕ)
unfolding pair_from queue_dependent
pair p pic0 =
    if p.mvc
    then (elim (pair_from p pic0 0 (p.dec.get_frame_queue 1)) [
      | some found ↦ (p, some found)
      | none ↦ queue_dependent p pic0
    ])
    else (p, none)

unfoldable pub queue_len : List (Option ℕ) → ℕ
queue_len [] = 0
queue_len (none ∷ rest) = 0
queue_len (some _ ∷ rest) = suc (queue_len rest)

-- Whether the queues and the pictures that may be bumped fill a queue.
unfoldable pub queues_full : Decoder → Bool
unfolding queue_len
queues_full d = ltb queue_size (
    queue_len (d.get_frame_queue 0)
    + queue_len (d.get_frame_queue 1)
    + max 1 (mask_popcount (d.to_get_frames ∖ d.output_frames)))

-- Whether `pic0` comes out without its dependent view.
unfoldable pub force_unpaired : Player → ℕ → Bool
unfolding queues_full
force_unpaired p pic0 =
    not (
      mask_any (p.dec.to_get_frames ∩ p.dec.non_base_frames ∩ (λ j. same_access_unit p.dec pic0 j)))
    && (p.flushing || queues_full p.dec)
