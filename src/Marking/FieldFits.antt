-- ===== src/Marking/FieldFits.antt =====
-- What the marking of a field picture marks lies among the frames of a given set.
use edge264_mvc.Common.{
  ℕ, zero, suc, ◌-◌, ◌≡◌, true, ◌&&◌, ◌||◌, arith, ◌==◌, if◌then◌else◌, if_elim, if_intro, and_left,
  Option, none, some,
}
use edge264_mvc.Common.Int.{ℤ, pos, eq_ℤ}
use edge264_mvc.Common.Masks.{FrameMask, for_bits_inv}
use edge264_mvc.Common.Masks.Count.{Within}
use edge264_mvc.Decoder.{Decoder, update}
use edge264_mvc.ParameterSets.{Sps}
use edge264_mvc.Output.{bump_while}
use edge264_mvc.Output.Keeps.{SameMarking-bump_while}
use edge264_mvc.Marking.Base.{get_u1, get_ue16}
use edge264_mvc.Marking.Frame.{State, oldest}
use edge264_mvc.Marking.Field.{
  mark_frame_from_fields, clear_short, clear_long, set_long, field_num, Found, match_parity,
  match_slot, find_short, unmark_found, unmark_long_parity, unmark_long_num, unmark_index,
  convert_field, long_part, dereference_all_fields, read_short, not_read, mmco_field,
  mmco_field_loop, drop_gap_mark, slide_field, adaptive_field,
}
use edge264_mvc.Marking.Capacity.{refs}

-- All frames and fields marked are among `r`.
pub record Fits (r : FrameMask) (d : Decoder) : Type 0 where
  pub within : Within (refs d) r
  pub short_in : (q : ℕ) → Within (d.short_term_fields q) r
  pub long_in : (q : ℕ) → Within (d.long_term_fields q) r

Within-update :
    (f : ℕ → FrameMask) (r v : FrameMask) (q : ℕ)
    → ((k : ℕ) → Within (f k) r)
    → Within v r
    → (k : ℕ) → Within (update f q v k) r
Within-update f r v q h g k = if_elim (λ m. Within m r) (q == k) g (h k)

module _ (r : FrameMask) where
  mark_frame_from_fields-Fits :
      (s : ℕ) (d : Decoder) → Fits r d → Fits r (mark_frame_from_fields s d)
  unfolding mark_frame_from_fields
  mark_frame_from_fields-Fits s d f = record {
    within = λ i.
        ground (arith, f.within i, f.short_in 0 i, f.short_in 1 i, f.long_in 0 i, f.long_in 1 i);
    short_in = f.short_in;
    long_in = f.long_in;
  }

  clear_short-Fits : (q s : ℕ) (d : Decoder) → Fits r d → Fits r (clear_short q s d)
  clear_short-Fits q s d f = record {
    within = f.within;
    short_in = Within-update _ r _ q f.short_in (λ i. ground (arith, f.short_in q i));
    long_in = f.long_in;
  }

  clear_long-Fits : (q s : ℕ) (d : Decoder) → Fits r d → Fits r (clear_long q s d)
  clear_long-Fits q s d f = record {
    within = f.within;
    short_in = f.short_in;
    long_in = Within-update _ r _ q f.long_in (λ i. ground (arith, f.long_in q i));
  }

  set_long-Fits : (q s : ℕ) (d : Decoder) → r s ≡ true → Fits r d → Fits r (set_long q s d)
  set_long-Fits q s d e f = record {
    within = f.within;
    short_in = f.short_in;
    long_in = Within-update _ r _ q f.long_in (λ i. ground (arith, f.long_in q i, same i));
  }
    where
      same : (i : ℕ) → i ≡ s → r i ≡ true
      same i q = rw q e

  get_ue16-Fits : (u : ℕ) {d : Decoder} → Fits r d → Fits r (get_ue16 u d).1
  unfolding get_ue16
  get_ue16-Fits u f = record { within = f.within; short_in = f.short_in; long_in = f.long_in }

  get_u1-Fits : {d : Decoder} → Fits r d → Fits r (get_u1 d).1
  unfolding get_u1
  get_u1-Fits f = record { within = f.within; short_in = f.short_in; long_in = f.long_in }

  -- The field that the operations 1 and 3 find is one of `r`.
  abbrev Known : Found → Type 0
  Known (none, q) = Unit {0}
  Known (some s, q) = r s ≡ true

  match_parity-Known :
      (d : Decoder) (p : ℕ) (num : ℤ) (i k : ℕ) (f : Found)
      → Fits r d
      → Known f
      → Known (match_parity d p num i k f)
  unfolding match_parity
  match_parity-Known d p num i k f fits h =
      if_intro Known (d.short_term_fields k i && eq_ℤ (field_num (d.frame_nums i) k p) num)
        (λ e. fits.short_in k i (and_left _ _ e)) (λ _. h)

  match_slot-Known :
      (d : Decoder) (p : ℕ) (num : ℤ) (i : ℕ) (f : Found)
      → Fits r d
      → Known f
      → Known (match_slot d p num i f)
  unfolding match_slot
  match_slot-Known d p num i (some s, q) fits h = h
  match_slot-Known d p num i (none, q) fits h =
      match_parity-Known d p num i 1 (match_parity d p num i 0 (none, q)) fits
        (match_parity-Known d p num i 0 (none, q) fits tt)

  find_short-Known : (d : Decoder) (p : ℕ) (num : ℤ) → Fits r d → Known (find_short d p num)
  unfolding find_short
  find_short-Known d p num fits =
      for_bits_inv Known d.short_term_frames (match_slot d p num)
        (λ i f lt e. match_slot-Known d p num i f fits) (none, 0) tt

  unmark_found-Fits : (f : Found) (d : Decoder) → Fits r d → Fits r (unmark_found f d)
  unfolding unmark_found
  unmark_found-Fits (none, q) d f = f
  unmark_found-Fits (some s, q) d f = mark_frame_from_fields-Fits s _ (clear_short-Fits q s d f)

  unmark_long_parity-Fits :
      (p : ℕ) (num : ℤ) (k i : ℕ) (d : Decoder) → Fits r d → Fits r (unmark_long_parity p num k i d)
  unfolding unmark_long_parity
  unmark_long_parity-Fits p num k i d f =
      if_elim (Fits r) _ (mark_frame_from_fields-Fits i _ (clear_long-Fits k i d f)) f

  unmark_long_num-Fits : (p : ℕ) (d : Decoder) → Fits r d → Fits r (unmark_long_num p d)
  unfolding unmark_long_num
  unmark_long_num-Fits p d f =
      let num = pos (get_ue16 0xffff_fffe d).0 in
      for_bits_inv (Fits r) _ _
        (λ i e lt h g. unmark_long_parity-Fits p num 1 i _ (unmark_long_parity-Fits p num 0 i e g))
        _ (get_ue16-Fits 0xffff_fffe f)

  unmark_index-Fits :
      (keep : Option ℕ) (idx up j : ℕ) (d : Decoder)
      → Fits r d
      → Fits r (unmark_index keep idx up j d)
  unfolding unmark_index
  unmark_index-Fits keep idx up j d f =
      if_elim (Fits r) _
        (mark_frame_from_fields-Fits j _ (clear_long-Fits 1 j _ (clear_long-Fits 0 j d f))) f

  convert_field-Fits :
      (cur op : ℕ) (found : Found) (idx : ℕ) (s : State)
      → Known found
      → Fits r s.0
      → Fits r (convert_field cur op found idx s).0
  unfolding convert_field
  convert_field-Fits cur op (some s, q) idx (d, flag) h f =
      if_elim (λ (t : State). Fits r t.0) (op == 3)
        (mark_frame_from_fields-Fits s _ (same (set_long-Fits q s _ h (clear_short-Fits q s d f))))
        (if_elim (λ (t : State). Fits r t.0) (op == 6) (same f) f)
    where
      same : {d : Decoder} {v : ℕ → ℕ} → Fits r d → Fits r (record d { long_term_frame_idx = v })
      same f = record { within = f.within; short_in = f.short_in; long_in = f.long_in }
  convert_field-Fits cur op (none, q) idx (d, flag) h f =
      if_elim (λ (t : State). Fits r t.0) (op == 6)
        (record { within = f.within; short_in = f.short_in; long_in = f.long_in }) f

  long_part-Fits :
      (sps : Sps) (cur op : ℕ) (found : Found) (s : State)
      → Known found
      → Fits r s.0
      → Fits r (long_part sps cur op found s).0
  unfolding long_part
  long_part-Fits sps cur op found (d, flag) h f =
      convert_field-Fits cur op found _ _ h
        (for_bits_inv (Fits r) _ _ (λ j e lt m. unmark_index-Fits _ _ _ j e) _ (get_ue16-Fits _ f))

  bump_while-Fits :
      (d : Decoder) (view : ℕ) (ignored : FrameMask) → Fits r d → Fits r (bump_while d view ignored)
  bump_while-Fits d view ignored f =
      let s = SameMarking-bump_while d view ignored in
      record {
        within = rw (s.shorts, s.longs) f.within;
        short_in = rw s.short_fields f.short_in;
        long_in = rw s.long_fields f.long_in;
      }

  dereference_all_fields-Fits : (p cur : ℕ) (d : Decoder) → Fits r (dereference_all_fields p cur d)
  unfolding dereference_all_fields
  dereference_all_fields-Fits p cur d =
      bump_while-Fits _ _ _
        (record { within = λ i e. cc; short_in = λ q i e. cc; long_in = λ q i e. cc })

  -- What an operation has found, or not looked for.
  read_short-Fits :
      (p : ℕ) (d : Decoder) → Fits r d → Known (read_short p d).0 × Fits r (read_short p d).1
  unfolding read_short
  read_short-Fits p d f = let g = get_ue16-Fits 0xffff_fffe f in (find_short-Known _ p _ g, g)

  mmco_field-Fits :
      (sps : Sps) (p cur op : ℕ) (s : State) → Fits r s.0 → Fits r (mmco_field sps p cur op s).0
  unfolding mmco_field
  mmco_field-Fits sps p cur op (d, flag) f =
      if_elim (Fits r) (op == 5) (dereference_all_fields-Fits p cur d3.0) third
    where
      d1 : Found × Decoder
      d1 = if op == 1 || op == 3 then read_short p d else not_read d

      first : Known d1.0 × Fits r d1.1
      first =
          if_elim (λ (s : Found × Decoder). Known s.0 × Fits r s.1) (op == 1 || op == 3)
            (read_short-Fits p d f) (tt, f)

      d2 : Decoder
      d2 =
          if op == 1
          then unmark_found d1.0 d1.1
          else if op == 2
          then unmark_long_num p d1.1
          else d1.1

      second : Fits r d2
      second =
          if_elim (Fits r) (op == 1) (unmark_found-Fits d1.0 d1.1 first.1)
            (if_elim (Fits r) (op == 2) (unmark_long_num-Fits p d1.1 first.1) first.1)

      d3 : State
      d3 =
          if op == 2 || op == 3 || op == 4 || op == 6
          then long_part sps cur op d1.0 (d2, flag)
          else (d2, flag)

      third : Fits r d3.0
      third =
          if_elim (λ (s : State). Fits r s.0) (op == 2 || op == 3 || op == 4 || op == 6)
            (long_part-Fits sps cur op d1.0 (d2, flag) first.0 second) second

  mmco_field_loop-Fits :
      (i : ℕ) (sps : Sps) (p cur : ℕ) (s : State)
      → Fits r s.0
      → Fits r (mmco_field_loop i sps p cur s).0
  unfolding mmco_field_loop
  mmco_field_loop-Fits zero sps p cur (d, flag) f = get_ue16-Fits 6 f
  mmco_field_loop-Fits (suc i) sps p cur (d, flag) f =
      let g = get_ue16-Fits 6 f in
      if_elim (λ (s : State). Fits r s.0) ((get_ue16 6 d).0 == 0) g
        (mmco_field_loop-Fits i sps p cur
          (mmco_field sps p cur (get_ue16 6 d).0 ((get_ue16 6 d).1, flag))
          (mmco_field-Fits sps p cur (get_ue16 6 d).0 ((get_ue16 6 d).1, flag) g))

  drop_gap_mark-Fits : (b k : ℕ) (d : Decoder) → Fits r d → Fits r (drop_gap_mark b k d)
  unfolding drop_gap_mark
  drop_gap_mark-Fits b k d f = clear_short-Fits k b _ (
      if_elim (Fits r) (d.long_term_fields k b && d.short_term_fields k b) (clear_long-Fits k b d f)
        f)

  slide_field-Fits : (d : Decoder) (sps : Sps) → Fits r d → Fits r (slide_field d sps)
  unfolding slide_field
  slide_field-Fits d sps f =
      if_elim (Fits r) _
        (mark_frame_from_fields-Fits (oldest d) _
          (drop_gap_mark-Fits (oldest d) 1 _ (drop_gap_mark-Fits (oldest d) 0 d f)))
        f

  pub adaptive_field-Fits :
      (d : Decoder) (sps : Sps) (p cur : ℕ) → Fits r d → Fits r (adaptive_field d sps p cur).0
  unfolding adaptive_field
  adaptive_field-Fits d sps p cur f =
      let g = get_u1-Fits f in
      if_elim (λ (s : State). Fits r s.0) ((get_u1 d).0 == 0)
        (if_elim (Fits r) ((get_u1 d).1.short_term_fields (1 - p) cur) g (slide_field-Fits _ sps g))
        (mmco_field_loop-Fits 32 sps p cur _ g)
