-- ===== src/Output/Bump.antt =====
-- One call of `bump_frame`, and the loop of them.
use mathlib.Core.Path.{fun_ext}
use edge264_mvc.Common.{
  ℕ, zero, suc, ◌<◌, ◌≡◌, refl, ap, ◌⊎◌, inl, inr, Bool, true, false, not, ◌&&◌, ◌||◌, none, some,
  ◌==◌, arith, Bool-cases,
}
use edge264_mvc.Common.Masks.{FrameMask, max_frames, bit, ◌∪◌, ◌∖◌, ◌∩◌, mask_popcount, mask_any}
use edge264_mvc.Common.Masks.Count.{popcount-le, popcount_remove}
use edge264_mvc.Decoder.{Decoder, same_access_unit, queue_push}
use edge264_mvc.Output.{
  waiting, is_paired, Choice, choose, emit, emit_choice, bump_frame, bump_while_from, bump_while,
}
use edge264_mvc.Output.Choice.{eligible, NotAfter, IsBest, choose-IsBest}

-- The two outcomes of a call.
abbrev pub Bumped : Decoder → ℕ → FrameMask → Bool × Decoder → Type 0
Bumped d view ignored r =
    ((p : ℕ) × (p < max_frames)
      × (eligible d view ignored p ≡ true)
      × ((i : ℕ) → i < max_frames → eligible d view ignored i ≡ true → NotAfter d p i)
      × (r ≡ (true, emit d view p)))
    ⊎ (((i : ℕ) → i < max_frames → eligible d view ignored i ≡ false) × (r ≡ (false, d)))

-- `bump_frame` queues the eligible picture that comes first by order count, then by decoding order,
-- and reports that it did, or finds no eligible slot, reports that and changes nothing.
pub bump_frame_lem :
    (d : Decoder) (view : ℕ) (ignored : FrameMask)
    → Bumped d view ignored (bump_frame d view ignored)
unfolding bump_frame
bump_frame_lem d view ignored = go (choose d view ignored) (choose-IsBest d view ignored)
  where
    go :
        (c : Choice)
        → IsBest d view ignored max_frames c
        → Bumped d view ignored (emit_choice d view c)
    go (none, l) h = inr (h, refl)
    go (some p, l) (lt, el, lo, best) = inl (p, lt, el, best, refl)

-- Adding a slot of `n` changes nothing outside `n`.
add_within : (o n s : FrameMask) (p b : ℕ) → n p ≡ true → ((o ∪ bit p) ∖ n ∩ s) b ≡ (o ∖ n ∩ s) b
add_within o n s p b h = ground arith

module _ (d : Decoder) (view : ℕ) (ignored : FrameMask) where
  -- The pairing looks at base views alone, so a dependent view queued leaves it as it is.
  is_paired-emit :
      (p i : ℕ) → d.non_base_frames p ≡ true → is_paired (emit d view p) i ≡ is_paired d i
  unfolding is_paired emit queue_push same_access_unit
  is_paired-emit p i h = ap mask_any (
      fun_ext
        λ b. add_within d.output_frames d.non_base_frames (λ b'. same_access_unit d b' i) p b h)

  -- Afterwards the picture queued is no longer eligible, and all others are as before.
  waiting-emit :
      (p i : ℕ)
      → waiting (emit d view p) view ignored i ≡ (waiting d view ignored i && not (i == p))
  unfolding emit queue_push
  waiting-emit p i = ground arith

  pairing-emit :
      (p i : ℕ)
      → eligible d view ignored p ≡ true
      → (view == 0 || is_paired (emit d view p) i) ≡ (view == 0 || is_paired d i)
  pairing-emit p i h = elim (Bool-cases (view == 0)) [
    | inl base ↦ rw base
    | inr dep ↦ ap (λ b. view == 0 || b) (is_paired-emit p i (in_view h dep))
  ]
    where
      in_view : eligible d view ignored p ≡ true → (view == 0) ≡ false → d.non_base_frames p ≡ true
      in_view h dep = ground arith

  pub eligible-emit :
      (p i : ℕ)
      → eligible d view ignored p ≡ true
      → eligible (emit d view p) view ignored i ≡ (eligible d view ignored i && not (i == p))
  eligible-emit p i h =
      rw (waiting-emit p i, pairing-emit p i h)
        (and_swap (waiting d view ignored i) (i == p) (view == 0 || is_paired d i))
    where
      and_swap : (a b c : Bool) → (a && not b && c) ≡ (a && c && not b)
      and_swap a b c = ground arith

  pub waiting_fewer :
      (p : ℕ)
      → p < max_frames
      → eligible d view ignored p ≡ true
      → suc (mask_popcount (waiting (emit d view p) view ignored))
        ≡ mask_popcount (waiting d view ignored)
  waiting_fewer p lt el =
      rw (fun_ext (waiting-emit p)) (popcount_remove p (waiting d view ignored) lt (ground arith))

  -- A round of the loop, and its end.
  pub bump_while-step :
      (fuel : ℕ) {d' : Decoder}
      → bump_frame d view ignored ≡ (true, d')
      → bump_while_from (suc fuel) d view ignored ≡ bump_while_from fuel d' view ignored
  unfolding bump_while_from
  bump_while-step fuel e =
      rw (ap (λ (r : Bool × Decoder). r.0) e, bump_while_from)
        (ap (λ (r : Bool × Decoder). bump_while_from fuel r.1 view ignored) e)

  pub bump_while-stop :
      (fuel : ℕ)
      → bump_frame d view ignored ≡ (false, d)
      → bump_while_from (suc fuel) d view ignored ≡ d
  unfolding bump_while_from
  bump_while-stop fuel e =
      rw (ap (λ (r : Bool × Decoder). r.0) e, bump_while_from) (ap (λ (r : Bool × Decoder). r.1) e)

-- A loop with more rounds than slots waiting ends where nothing is eligible.
bump_while_from-drained :
    (fuel : ℕ) (d : Decoder) (view : ℕ) (ignored : FrameMask)
    → mask_popcount (waiting d view ignored) < fuel
    → (i : ℕ) → i < max_frames
    → eligible (bump_while_from fuel d view ignored) view ignored i ≡ false
bump_while_from-drained zero d view ignored h = absurd (omega arith)
bump_while_from-drained (suc fuel) d view ignored h = elim (bump_frame_lem d view ignored) [
  | inl (p, lt, el, best, e) ↦ rw (bump_while-step d view ignored fuel e) (
      bump_while_from-drained fuel (emit d view p) view ignored
        (omega (arith, waiting_fewer d view ignored p lt el)))
  | inr (idle, e) ↦ rw (bump_while-stop d view ignored fuel e) idle
]

-- The loop of `bump_frame` calls always runs to its end: afterwards no picture of the view is
-- eligible, so that a further call would queue nothing.
pub bump_while-drained :
    (d : Decoder) (view : ℕ) (ignored : FrameMask) (i : ℕ)
    → i < max_frames
    → eligible (bump_while d view ignored) view ignored i ≡ false
unfolding bump_while
bump_while-drained d view ignored =
    bump_while_from-drained (suc max_frames) d view ignored
      (omega (arith, popcount-le (waiting d view ignored)))
