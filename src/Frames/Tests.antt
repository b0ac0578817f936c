-- ===== src/Frames/Tests.antt =====
-- A run of delivery: slot 1 is queued, slot 2 still waits.
use edge264_mvc.Common.{ℕ, zero, suc, ◌<◌, ◌≡◌, refl, true, false, [], ◌∷◌, some, arith}
use edge264_mvc.Common.Int.{pos}
use edge264_mvc.Common.Masks.{bit, empty, ◌∪◌}
use edge264_mvc.Output.{bump_frame}
use edge264_mvc.Tests.{two_frames}
use edge264_mvc.Frames.{Player}
use edge264_mvc.Frames.Queues.{Queue, Queued, AllSome, Distinct, Entry}
use edge264_mvc.Frames.Deliver.{get_frame}
use edge264_mvc.Frames.GetFrame.{Outcome}
use edge264_mvc.Frames.Orphans.{get_frame-Outcome}
use edge264_mvc.Frames.Clear.{clear_decoder}
use edge264_mvc.Frames.Reach.{Leaves, Step, Reach, Reach-Queued}
use edge264_mvc.Frames.Drain.{is_some, get_frame_drains}

abbrev one_queue : ℕ → Queue
one_queue zero = some 1 ∷ []
one_queue (suc v) = []

abbrev playing : Player
playing = record {
  dec = record two_frames { output_frames = bit 1; get_frame_queue = one_queue };
  curr_pic = some 2;
  deblocked = bit 1;
  writing = bit 2;
  mvc = false;
  flushing = true;
  undelivered = true;
  stale_frames = empty;
  keys = λ _. record { base = pos 0; prev = pos 0; have_prev = false };
  poc_type = 0;
  poc_log2 = 4;
}

playing-Queued : Queued playing.dec
playing-Queued = record { entries = entries; distinct = distinct }
  where
    entries :
        (v : ℕ) → v < 2 → AllSome (Entry playing.dec.to_get_frames (bit 1) empty v) (one_queue v)
    entries zero lt =
        (record { in_range = omega arith; to_get = refl; output = refl; view = refl }, tt)
    entries (suc v) lt = tt

    distinct : (v : ℕ) → v < 2 → Distinct (one_queue v)
    distinct zero lt = (tt, tt)
    distinct (suc v) lt = tt

get_frame-Outcome_example : Outcome playing true (get_frame playing true)
get_frame-Outcome_example = get_frame-Outcome playing true playing-Queued

get_frame_drains_example : is_some (get_frame playing false).0 ≡ true
get_frame_drains_example =
    get_frame_drains playing false 1 [] playing-Queued refl refl refl (λ mvc. cc)

-- After a clear, pictures in two slots come to await delivery, one is bumped, and get_frame called.
abbrev decoded : Player
decoded =
    let p = clear_decoder playing in
    record p { dec = record p.dec { to_get_frames = bit 1 ∪ bit 2 } }

abbrev bumped_frame : Player
bumped_frame = record decoded { dec = (bump_frame decoded.dec 0 empty).1 }

decoded-Leaves : Leaves (clear_decoder playing).dec decoded.dec
unfolding clear_decoder
decoded-Leaves = record {
  queues = refl;
  to_get = λ x t. cc;
  output = λ x t o. cc;
  view = λ x t. refl;
}

bumped_then_got : Reach (clear_decoder playing) (get_frame bumped_frame true).1
bumped_then_got =
    Reach.later
      (Reach.later (Reach.later Reach.start (Step.other decoded decoded-Leaves))
        (Step.bumped 0 empty (omega arith)))
      (Step.got true)

Reach-Queued_example : Queued (get_frame bumped_frame true).1.dec
Reach-Queued_example = Reach-Queued playing (get_frame bumped_frame true).1 bumped_then_got
