-- ===== src/History/Room.antt =====
-- A reference given up where only references are left in the decoded picture buffer: the end of
-- `make_room` of src/edge264mvc_headers.c.
use edge264_mvc.Common.{
  ℕ, ◌<◌, ◌≡◌, refl, not, ◌&&◌, Bool-cases, ◌⊎◌, inl, inr, true, false, ◌==◌, ==_iff, arith,
  if◌then◌else◌,
}
use edge264_mvc.Common.Int.{◌<ℤ◌, ◌≤ℤ◌}
use edge264_mvc.Common.Masks.{FrameMask, max_frames, bit, ◌∩◌, ◌∖◌, mask_any}
use edge264_mvc.Common.Masks.Count.{mask_any-none}
use edge264_mvc.Decoder.{Decoder, int_max}
use edge264_mvc.Output.{same_views}
use edge264_mvc.Marking.Base.{lowest_from}
use edge264_mvc.Marking.Lowest.{lowest_from-inv, lowest_from-IsLowest}
use edge264_mvc.History.{History}

-- `unref`, where no slot is `max_frames`: the oldest short-term reference of the view, or of both views,
-- or the oldest long-term one.
unfoldable pub oldest_reference : History → Decoder → ℕ → ℕ
unfolding lowest_from
oldest_reference h d view =
    let all = h.prev_short_term_frames ∖ h.prev_long_term_frames in
    let refs = if mask_any (all ∩ same_views d view) then all ∩ same_views d view else all in
    let unref = (lowest_from refs d.frame_ids (max_frames, int_max)).0 in
    if unref == max_frames
    then (lowest_from h.prev_long_term_frames d.frame_ids (max_frames, int_max)).0
    else unref

unfoldable pub drop_reference : History → Decoder → ℕ → History
unfolding oldest_reference
drop_reference h d view =
    let unref = oldest_reference h d view in
    if unref == max_frames then h else record h {
      prev_short_term_frames = h.prev_short_term_frames ∖ bit unref;
      prev_long_term_frames = h.prev_long_term_frames ∖ bit unref;
    }

-- The references that a reference may be given up from: those of the view that are not long-term, all
-- that are not where the view has none, and the long-term ones where there is none at all.
abbrev pub candidates : History → Decoder → ℕ → FrameMask
candidates h d view =
    let shorts = h.prev_short_term_frames ∖ h.prev_long_term_frames in
    let own = shorts ∩ same_views d view in
    if mask_any own then own else (if mask_any shorts then shorts else h.prev_long_term_frames)

-- Slot `u` is the candidate of lowest FrameId, and is alone given up, of both kinds.
pub record Dropped (h : History) (d : Decoder) (view u : ℕ) (h' : History) : Type 0 where
  pub in_range : u < max_frames
  pub candidate : candidates h d view u ≡ true
  pub lowest :
      (i : ℕ) → i < max_frames → candidates h d view i ≡ true → d.frame_ids u ≤ℤ d.frame_ids i
  pub shorts : (i : ℕ) → h'.prev_short_term_frames i ≡ (h.prev_short_term_frames i && not (i == u))
  pub longs : (i : ℕ) → h'.prev_long_term_frames i ≡ (h.prev_long_term_frames i && not (i == u))

module _ (h : History) (d : Decoder) (view : ℕ) (small : (i : ℕ) → d.frame_ids i <ℤ int_max) where
  abbrev shorts : FrameMask
  shorts = h.prev_short_term_frames ∖ h.prev_long_term_frames

  abbrev own : FrameMask
  own = shorts ∩ same_views d view

  -- The lowest slot of a set.
  abbrev Lowest : FrameMask → ℕ → Type 0
  Lowest m u =
      (u < max_frames)
      × (m u ≡ true)
      × ((i : ℕ) → i < max_frames → m i ≡ true → d.frame_ids u ≤ℤ d.frame_ids i)

  abbrev search : FrameMask → ℕ
  search m = (lowest_from m d.frame_ids (max_frames, int_max)).0

  search-Lowest : (m : FrameMask) → mask_any m ≡ true → Lowest m (search m)
  search-Lowest m t = lowest_from-IsLowest m d.frame_ids small max_frames t

  search-none : (m : FrameMask) → mask_any m ≡ false → search m ≡ max_frames
  search-none m t =
      lowest_from-inv (λ u. u ≡ max_frames) m d.frame_ids (max_frames, int_max) refl
        (λ i lt e. let f = mask_any-none m t i lt in cc)

  oldest_reference-Lowest :
      (mask_any shorts ≡ true) ⊎ (mask_any h.prev_long_term_frames ≡ true)
      → Lowest (candidates h d view) (oldest_reference h d view)
  unfolding oldest_reference
  oldest_reference-Lowest some_reference = elim (Bool-cases (mask_any own)) [
    | inl t ↦
        let low = search-Lowest own t in
        let ne : (search own == max_frames) ≡ false = ground (arith, low.0) in rw (t, ne) low
    | inr f ↦ elim (Bool-cases (mask_any shorts)) [
      | inl t ↦
          let low = search-Lowest shorts t in
          let ne : (search shorts == max_frames) ≡ false = ground (arith, low.0) in
          rw (f, t, ne) low
      | inr f' ↦
          let eq : (search shorts == max_frames) ≡ true =
            (==_iff _ max_frames).1 (search-none shorts f') in
          let some_long : mask_any h.prev_long_term_frames ≡ true = elim some_reference [
            | inl t ↦ cc
            | inr t ↦ t
          ] in
          rw (f, f', eq) (search-Lowest h.prev_long_term_frames some_long)
    ]
  ]

  -- Where a reference of either kind is kept, and all FrameIds are below INT_MAX, exactly one slot is
  -- given up, of both kinds: of the references of the view that are not long-term the one of lowest FrameId,
  -- or of all such references where the view has none, or of the long-term ones where there is none at all.
  pub drop_reference-Dropped :
      (mask_any (h.prev_short_term_frames ∖ h.prev_long_term_frames) ≡ true)
        ⊎ (mask_any h.prev_long_term_frames ≡ true)
      → Dropped h d view (oldest_reference h d view) (drop_reference h d view)
  unfolding drop_reference
  drop_reference-Dropped some_reference =
      let low = oldest_reference-Lowest some_reference in
      let ne : (oldest_reference h d view == max_frames) ≡ false = ground (arith, low.0) in
      rw ne (record {
        in_range = low.0;
        candidate = low.1;
        lowest = low.2;
        shorts = λ i. refl;
        longs = λ i. refl;
      })
