-- ===== src/History/Commit.antt =====
-- The marking of a picture replaces that of its view, and keeps that of the other one.
use edge264_mvc.Common.{
  ℕ, ◌≡◌, refl, Bool, true, false, not, ◌&&◌, ◌||◌, arith, if◌then◌else◌, if_intro,
}
use edge264_mvc.Common.Masks.{FrameMask, ◌∪◌, ◌∖◌}
use edge264_mvc.Common.Masks.Count.{Within}
use edge264_mvc.Decoder.{Decoder}
use edge264_mvc.Output.{same_views}
use edge264_mvc.History.{History, begin_slice, commit, unset_curr_pic}

-- `after` is `now` in `own`, and `before` outside.
abbrev pub Replaced : FrameMask → FrameMask → FrameMask → FrameMask → Type 0
Replaced own before now after = (x : ℕ) → after x ≡ (if own x then now x else before x)

-- The marking of a slice holds pictures of its view alone.
pub record OwnView (own : FrameMask) (d : Decoder) : Type 0 where
  pub shorts : Within d.short_term_frames own
  pub longs : Within d.long_term_frames own
  pub short_fields : (p : ℕ) → Within (d.short_term_fields p) own
  pub long_fields : (p : ℕ) → Within (d.long_term_fields p) own

pub record Committed (own : FrameMask) (h : History) (d : Decoder) (h' : History) : Type 0 where
  pub shorts : Replaced own h.prev_short_term_frames d.short_term_frames h'.prev_short_term_frames
  pub longs : Replaced own h.prev_long_term_frames d.long_term_frames h'.prev_long_term_frames
  pub short_fields :
      (p : ℕ)
      → Replaced own
          (h.prev_short_term_fields p)
          (d.short_term_fields p)
          (h'.prev_short_term_fields p)
  pub long_fields :
      (p : ℕ)
      → Replaced own (h.prev_long_term_fields p) (d.long_term_fields p) (h'.prev_long_term_fields p)

merged :
    (own before now : FrameMask) → Within now own → Replaced own before now (before ∖ own ∪ now)
merged own before now w x = at (own x) (before x) (now x) (w x)
  where
    at : (o b n : Bool) → (n ≡ true → o ≡ true) → (b && not o || n) ≡ (if o then n else b)
    at true b n i = ground arith
    at false b true i = let e = i refl in cc
    at false b false i = ground arith

abbrev pub view_of : Decoder → ℕ
view_of d = if d.non_base_frames d.curr_pic then 1 else 0

commit-Committed :
    (view : ℕ) (d : Decoder) (h : History)
    → OwnView (same_views d view) d
    → Committed (same_views d view) h d (commit view d h)
unfolding commit
commit-Committed view d h o = record {
  shorts = merged (same_views d view) h.prev_short_term_frames d.short_term_frames o.shorts;
  longs = merged (same_views d view) h.prev_long_term_frames d.long_term_frames o.longs;
  short_fields = λ p.
      merged (same_views d view) (h.prev_short_term_fields p) (d.short_term_fields p)
        (o.short_fields p);
  long_fields = λ p.
      merged (same_views d view) (h.prev_long_term_fields p) (d.long_term_fields p)
        (o.long_fields p);
}

-- Where the picture was marked and its marking holds slots of its view alone, the end of the picture
-- replaces the references of that view, frames and fields, by this marking, and keeps those of the other
-- view.
pub unset_curr_pic-Committed :
    (d : Decoder) (h : History)
    → d.curr_pic_marked ≡ true
    → OwnView (same_views d (view_of d)) d
    → Committed (same_views d (view_of d)) h d (unset_curr_pic d h).1
unfolding unset_curr_pic
unset_curr_pic-Committed d h marked o =
    let c : Committed (same_views d (view_of d)) h d
        (if d.curr_pic_marked then commit (view_of d) d h else h) =
      if_intro (Committed (same_views d (view_of d)) h d) d.curr_pic_marked
        (λ _. commit-Committed (view_of d) d h o) (λ e. cc) in
    record {
      shorts = c.shorts;
      longs = c.longs;
      short_fields = c.short_fields;
      long_fields = c.long_fields;
    }

pub begin_slice-OwnView :
    (h : History) (view : ℕ) (d : Decoder) → OwnView (same_views d view) (begin_slice h view d)
unfolding begin_slice
begin_slice-OwnView h view d = record {
  shorts = λ x t. ground arith;
  longs = λ x t. ground arith;
  short_fields = λ p x t. ground arith;
  long_fields = λ p x t. ground arith;
}
