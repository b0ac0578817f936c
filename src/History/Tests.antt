-- ===== src/History/Tests.antt =====
-- The end of a picture with two references.
use edge264_mvc.Common.{ℕ, ◌≡◌, inl, arith, refl, true, none, some}
use edge264_mvc.Common.Int.{pos, ◌<ℤ◌}
use edge264_mvc.Common.Masks.{mask_any, ◌∖◌, bit, ◌∪◌}
use edge264_mvc.History.Room.{Dropped, oldest_reference, drop_reference, drop_reference-Dropped}
use edge264_mvc.Decoder.{int_max, Decoder}
use edge264_mvc.Output.{same_views}
use edge264_mvc.Tests.{two_frames}
use edge264_mvc.History.{History, unset_curr_pic}
use edge264_mvc.History.Commit.{Committed, unset_curr_pic-Committed}

abbrev three_kept : History
three_kept = record {
  prev_short_term_frames = bit 1 ∪ bit 3;
  prev_long_term_frames = bit 2;
  prev_short_term_fields = λ p. bit 1 ∪ bit 3;
  prev_long_term_fields = λ p. bit 2;
  prev_long_term_frame_idx = λ i. 0;
  prev_pic_order_cnt = λ v. pos 0;
  base_pic = none;
  curr_pic = some 5;
}

abbrev marked_slice : Decoder
marked_slice = record two_frames {
  curr_pic_marked = true;
  short_term_frames = bit 1;
  long_term_frames = bit 2;
  short_term_fields = λ p. bit 1;
  long_term_fields = λ p. bit 2;
}

unset_curr_pic-Committed_example :
    Committed
      (same_views marked_slice 0)
      three_kept
      marked_slice
      (unset_curr_pic marked_slice three_kept).1
unset_curr_pic-Committed_example = unset_curr_pic-Committed marked_slice three_kept refl (record {
  shorts = λ x t. refl;
  longs = λ x t. refl;
  short_fields = λ p x t. refl;
  long_fields = λ p x t. refl;
})

some_shorts : mask_any (three_kept.prev_short_term_frames ∖ three_kept.prev_long_term_frames) ≡ true
unfolding mask_any
some_shorts = refl

two_frames-below : (i : ℕ) → two_frames.frame_ids i <ℤ int_max
two_frames-below i = omega arith

drop_reference-Dropped_example :
    Dropped three_kept two_frames 0
      (oldest_reference three_kept two_frames 0)
      (drop_reference three_kept two_frames 0)
drop_reference-Dropped_example =
    drop_reference-Dropped three_kept two_frames 0 two_frames-below (inl some_shorts)
