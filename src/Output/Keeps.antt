-- ===== src/Output/Keeps.antt =====
-- What the loop of `bump_frame` calls leaves alone: the marking and the values it reads.
use edge264_mvc.Common.{ℕ, zero, suc, ◌≡◌, refl, ◌∙◌, inl, inr}
use edge264_mvc.Common.Masks.{FrameMask, max_frames}
use edge264_mvc.Decoder.{Decoder, queue_push}
use edge264_mvc.Output.{emit, bump_while_from, bump_while}
use edge264_mvc.Output.Bump.{bump_frame_lem, bump_while-step, bump_while-stop}

pub record SameMarking (d e : Decoder) : Type 0 where
  pub bits : e.gb ≡ d.gb
  pub shorts : e.short_term_frames ≡ d.short_term_frames
  pub longs : e.long_term_frames ≡ d.long_term_frames
  pub short_fields : e.short_term_fields ≡ d.short_term_fields
  pub long_fields : e.long_term_fields ≡ d.long_term_fields
  pub nums : e.frame_nums ≡ d.frame_nums
  pub idxs : e.long_term_frame_idx ≡ d.long_term_frame_idx

SameMarking-refl : (d : Decoder) → SameMarking d d
SameMarking-refl d = record {
  bits = refl;
  shorts = refl;
  longs = refl;
  short_fields = refl;
  long_fields = refl;
  nums = refl;
  idxs = refl;
}

SameMarking-trans : {d e f : Decoder} → SameMarking d e → SameMarking e f → SameMarking d f
SameMarking-trans p q = record {
  bits = q.bits ∙ p.bits;
  shorts = q.shorts ∙ p.shorts;
  longs = q.longs ∙ p.longs;
  short_fields = q.short_fields ∙ p.short_fields;
  long_fields = q.long_fields ∙ p.long_fields;
  nums = q.nums ∙ p.nums;
  idxs = q.idxs ∙ p.idxs;
}

SameMarking-emit : (d : Decoder) (view pic : ℕ) → SameMarking d (emit d view pic)
unfolding emit queue_push
SameMarking-emit d view pic = record {
  bits = refl;
  shorts = refl;
  longs = refl;
  short_fields = refl;
  long_fields = refl;
  nums = refl;
  idxs = refl;
}

SameMarking-bump_while_from :
    (fuel : ℕ) (d : Decoder) (view : ℕ) (ignored : FrameMask)
    → SameMarking d (bump_while_from fuel d view ignored)
SameMarking-bump_while_from zero d view ignored = unfold bump_while_from in SameMarking-refl d
SameMarking-bump_while_from (suc fuel) d view ignored = elim (bump_frame_lem d view ignored) [
  | inl (p, lt, el, best, e) ↦ rw (bump_while-step d view ignored fuel e) (
      SameMarking-trans (SameMarking-emit d view p)
        (SameMarking-bump_while_from fuel (emit d view p) view ignored))
  | inr (idle, e) ↦ rw (bump_while-stop d view ignored fuel e) (SameMarking-refl d)
]

-- The loop of `bump_frame` calls reads nothing from the bitstream and changes no marking: the frames
-- and fields marked, their FrameNums and their long-term indices are as before.
pub SameMarking-bump_while :
    (d : Decoder) (view : ℕ) (ignored : FrameMask) → SameMarking d (bump_while d view ignored)
unfolding bump_while
SameMarking-bump_while d view ignored = SameMarking-bump_while_from (suc max_frames) d view ignored
