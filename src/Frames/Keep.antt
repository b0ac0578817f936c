-- ===== src/Frames/Keep.antt =====
-- Every operation on the output queues keeps what they hold.
use edge264_mvc.Common.{
  ℕ, zero, suc, ◌<◌, ◌≡◌, sym, Bool, true, false, ◌&&◌, Option, none, some, arith, ◌==◌, if_intro,
  if_elim, elim_intro, option_intro, and_left, inl, inr,
}
use mathlib.Core.Path.{subst}
use edge264_mvc.Common.Int.{ltb_ℤ}
use edge264_mvc.Common.Masks.{FrameMask, max_frames, bit, ◌∩◌, ◌∪◌, for_bits_rule, empty}
use edge264_mvc.Decoder.{Decoder, int_max, same_access_unit, queue_push}
use edge264_mvc.Output.{
  emit, bump_frame, bump_while_from, sooner_dependent, first_dependent, queue_for_output,
  catch_up_dependent, catch_up_from, catch_up_dependent_bumps, front_of,
}
use edge264_mvc.Output.Choice.{eligible}
use edge264_mvc.Output.Bump.{bump_frame_lem}
use edge264_mvc.Frames.Queues.{Queued, push-QueuesOk}

pub waiting_bits :
    (d : Decoder) (view : ℕ) (ignored : FrameMask) (p : ℕ)
    → view < 2
    → eligible d view ignored p ≡ true
    → (d.to_get_frames p ≡ true) × (d.output_frames p ≡ false) × (d.non_base_frames p ≡ (view == 1))
waiting_bits d zero ignored p lt e = ground arith
waiting_bits d (suc zero) ignored p lt e = ground arith
waiting_bits d (suc (suc v)) ignored p lt e = absurd (omega arith)

pub bump_frame-Queued :
    (d : Decoder) (view : ℕ) (ignored : FrameMask)
    → view < 2
    → Queued d
    → Queued (bump_frame d view ignored).1
unfolding emit queue_push
bump_frame-Queued d view ignored lt h = elim (bump_frame_lem d view ignored) [
  | inl (p, in_range, el, best, e) ↦
      let w = waiting_bits d view ignored p lt el in
      subst (λ (r : Bool × Decoder). Queued r.1) (sym e)
        (push-QueuesOk d.to_get_frames d.output_frames d.non_base_frames d.get_frame_queue h view p
          lt 127 in_range w.0 w.1 w.2)
  | inr (idle, e) ↦ subst (λ (r : Bool × Decoder). Queued r.1) (sym e) h
]

pub bump_while-Queued :
    (fuel : ℕ) (d : Decoder) (view : ℕ) (ignored : FrameMask)
    → view < 2
    → Queued d
    → Queued (bump_while_from fuel d view ignored)
unfolding bump_while_from
bump_while-Queued zero d view ignored lt h = h
bump_while-Queued (suc fuel) d view ignored lt h =
    let d' = (bump_frame d view ignored).1 in
    elim_intro Queued (bump_frame d view ignored).0
      (λ _. bump_while-Queued fuel d' view ignored lt (bump_frame-Queued d view ignored lt h))
      (λ _. bump_frame-Queued d view ignored lt h)

-- The dependent view found is of the access unit, and in the set searched.
pub record Dependent (d : Decoder) (slots : FrameMask) (base dep : ℕ) : Type 0 where
  pub in_range : dep < max_frames
  pub member : slots dep ≡ true
  pub same : same_access_unit d base dep ≡ true

sooner-Dependent :
    (d : Decoder) (slots : FrameMask) (base k : ℕ) (o : Option ℕ)
    → k < max_frames
    → slots k ≡ true
    → ((j : ℕ) → o ≡ some j → Dependent d slots base j)
    → (j : ℕ) → sooner_dependent d base k o ≡ some j
    → Dependent d slots base j
unfolding sooner_dependent
sooner-Dependent d slots base k none lt m h j e =
    if_intro (λ (r : Option ℕ). r ≡ some j → Dependent d slots base j) (same_access_unit d base k)
      (λ t e'.
        let q : k ≡ j = cc in
        subst (Dependent d slots base) q (record { in_range = lt; member = m; same = t }))
      (λ _ e'. cc) e
sooner-Dependent d slots base k (some i) lt m h j e =
    if_intro (λ (r : Option ℕ). r ≡ some j → Dependent d slots base j)
      (same_access_unit d base k && ltb_ℤ (d.frame_ids k) (d.frame_ids i))
      (λ t e'.
        let q : k ≡ j = cc in
        subst (Dependent d slots base) q
          (record { in_range = lt; member = m; same = and_left _ _ t }))
      (λ _ e'. h j e') e

pub first_dependent-Dependent :
    (d : Decoder) (slots : FrameMask) (base dep : ℕ)
    → first_dependent d slots base ≡ some dep
    → Dependent d slots base dep
unfolding first_dependent
first_dependent-Dependent d slots base dep =
    for_bits_rule (λ k (o : Option ℕ). (j : ℕ) → o ≡ some j → Dependent d slots base j) slots
      (sooner_dependent d base) (λ k o lt m h. sooner-Dependent d slots base k o lt m h)
      (λ k o m h. h) none (λ j e. cc) dep

-- A dependent view is queued for output where it is not yet.
pub queue_for_output-Queued :
    (d : Decoder) (slots : FrameMask) (base dep : ℕ)
    → ((i : ℕ) → slots i ≡ true → (d.to_get_frames i ≡ true) × (d.non_base_frames i ≡ true))
    → Dependent d slots base dep
    → d.output_frames dep ≡ false
    → Queued d
    → Queued (queue_for_output d 1 dep)
unfolding queue_for_output queue_push
queue_for_output-Queued d slots base dep within f out h =
    let w = within dep f.member in
    push-QueuesOk d.to_get_frames d.output_frames d.non_base_frames d.get_frame_queue h 1 dep
      (omega arith) 127 f.in_range w.0 out w.1

catch_up_dependent-Queued :
    (d : Decoder) (front dep : ℕ)
    → Dependent d (d.to_get_frames ∩ d.non_base_frames) front dep
    → Queued d
    → Queued (catch_up_dependent d dep)
unfolding catch_up_dependent
catch_up_dependent-Queued d front dep f h =
    if_intro Queued (d.output_frames dep) (λ _. h)
      (λ out.
        queue_for_output-Queued d (d.to_get_frames ∩ d.non_base_frames) front dep
          (λ i m. ground arith) f out h)

catch_up_from-Queued :
    (fuel : ℕ) (d : Decoder) (done : FrameMask) → Queued d → Queued (catch_up_from fuel d done)
unfolding catch_up_from
catch_up_from-Queued zero d done h = h
catch_up_from-Queued (suc fuel) d done h =
    option_intro Queued (front_of d done (d.get_frame_queue 0) (none, int_max)).0
      (λ front. elim (first_dependent d (d.to_get_frames ∩ d.non_base_frames) front) [
        | none ↦ d
        | some dep ↦ catch_up_from fuel (catch_up_dependent d dep) (done ∪ bit front)
      ])
      (λ _. h)
      (λ front _.
        option_intro Queued (first_dependent d (d.to_get_frames ∩ d.non_base_frames) front)
          (λ dep. catch_up_from fuel (catch_up_dependent d dep) (done ∪ bit front)) (λ _. h)
          (λ dep e. catch_up_from-Queued fuel (catch_up_dependent d dep) (done ∪ bit front) (
            catch_up_dependent-Queued d front dep
              (first_dependent-Dependent d (d.to_get_frames ∩ d.non_base_frames) front dep e) h)))

pub catch_up_dependent_bumps-Queued :
    (mvc : Bool) (d : Decoder) → Queued d → Queued (catch_up_dependent_bumps mvc d)
unfolding catch_up_dependent_bumps
catch_up_dependent_bumps-Queued mvc d h =
    if_elim Queued mvc (catch_up_from-Queued (suc max_frames) d empty h) h
