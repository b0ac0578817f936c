-- ===== src/Frames/Clear.antt =====
-- The decoder as a flush or a new sequence leaves it: `clear_decoder` of src/edge264mvc_headers.c.
use edge264_mvc.Common.{ℕ, zero, suc, false, none, replicate}
use edge264_mvc.Common.Int.{pos, negsuc}
use edge264_mvc.Common.Masks.{empty, ◌∖◌}
use edge264_mvc.Decoder.{queue_size}
use edge264_mvc.Frames.{Player}
use edge264_mvc.Frames.Queues.{AllSome, Distinct, Entry, Queued}

-- The fields before `nal_ref_idc` stay: the reader, the type of the NAL unit, next_dispnum, interlaced,
-- stale_frames and undelivered. The others are 0, but for the slots that are -1, and the caller keeps the
-- frames it holds. `currPic` is -1, so that Decoder.curr_pic tells nothing, and stays.
unfoldable pub clear_decoder : Player → Player
clear_decoder p = record {
  dec = record {
    gb = p.dec.gb;
    nal_unit_type = p.dec.nal_unit_type;
    interlaced = p.dec.interlaced;
    idr_pic_flag = false;
    curr_pic = p.dec.curr_pic;
    curr_pic_marked = false;
    curr_field = 0;
    field_slot = λ _. none;
    resume_state = 0;
    frame_num = pos 0;
    prev_ref_frame_num = λ _. negsuc 0;
    top_field_order_cnt = pos 0;
    bottom_field_order_cnt = pos 0;
    next_dispnum = p.dec.next_dispnum;
    short_term_frames = empty;
    long_term_frames = empty;
    to_get_frames = empty;
    output_frames = p.dec.output_frames ∖ p.dec.to_get_frames;
    non_base_frames = empty;
    leading_frames = empty;
    short_term_fields = λ _. empty;
    long_term_fields = λ _. empty;
    frame_nums = λ _. pos 0;
    frame_ids = λ _. pos 0;
    disp_order = λ _. pos 0;
    au_base_ids = λ _ _. pos 0;
    long_term_frame_idx = λ _. 0;
    field_order_cnt = λ _ _. pos 0;
    get_frame_queue = λ _. replicate queue_size none;
  };
  curr_pic = none;
  deblocked = empty;
  writing = empty;
  mvc = false;
  flushing = false;
  undelivered = p.undelivered;
  stale_frames = p.stale_frames;
  keys = λ _. record { base = pos 0; prev = pos 0; have_prev = false };
  poc_type = 0;
  poc_log2 = 0;
}

AllSome-replicate : (P : ℕ → Type 0) (n : ℕ) → AllSome P (replicate n none)
AllSome-replicate P zero = tt
AllSome-replicate P (suc n) = AllSome-replicate P n

Distinct-replicate : (n : ℕ) → Distinct (replicate n none)
Distinct-replicate zero = tt
Distinct-replicate (suc n) = Distinct-replicate n

pub clear_decoder-Queued : (p : Player) → Queued (clear_decoder p).dec
unfolding clear_decoder
clear_decoder-Queued p = record {
  entries = λ v v2.
      AllSome-replicate (Entry empty (p.dec.output_frames ∖ p.dec.to_get_frames) empty v)
        queue_size;
  distinct = λ v v2. Distinct-replicate queue_size;
}
