-- ===== src/Frames/Filled.antt =====
-- Pictures put back into the queues hold what they should.
use edge264_mvc.Common.{
  ℕ, zero, suc, ◌<◌, ◌≡◌, ◌≢◌, refl, sym, ap, ◌∙◌, true, [], ◌∷◌, Option, none, some, arith, ◌==◌,
  ==_iff, ◌⊎◌, inl, inr, if◌then◌else◌, if_intro, option_intro,
}
use mathlib.Core.Path.{subst}
use edge264_mvc.Common.Masks.{FrameMask, max_frames, bit, ◌∪◌, ◌∖◌, for_bits_rule}
use edge264_mvc.Decoder.{Decoder, update}
use edge264_mvc.Frames.Queues.{Queue, AllSome, Distinct, AllSome-map, Queued, Entry}
use edge264_mvc.Frames.Flush.{queued_in, place, queue_back, bump_both_from, bump_all_frames}
use edge264_mvc.Frames.Flushed.{bump_both_from-Queued}

AllSome-place :
    (P : ℕ → Type 0) (i : ℕ) (q q' : Queue) → place i q ≡ some q' → P i → AllSome P q → AllSome P q'
unfolding place
AllSome-place P i [] q' e p h = cc
AllSome-place P i (none ∷ rest) q' e p h =
    let same : (some i ∷ rest) ≡ q' = cc in subst (AllSome P) same (p, h)
AllSome-place P i (some x ∷ rest) q' e p h =
    option_intro (λ (r : Option Queue). r ≡ some q' → AllSome P q') (place i rest)
      (λ rest'. some (some x ∷ rest')) (λ _ e'. cc)
      (λ rest' e1 e'.
        let same : (some x ∷ rest') ≡ q' = cc in
        subst (AllSome P) same (h.0, AllSome-place P i rest rest' e1 p h.1))
      e

Distinct-place :
    (i : ℕ) (q q' : Queue) → place i q ≡ some q' → AllSome (λ y. y ≢ i) q → Distinct q → Distinct q'
unfolding place
Distinct-place i [] q' e f h = cc
Distinct-place i (none ∷ rest) q' e f h =
    let same : (some i ∷ rest) ≡ q' = cc in subst Distinct same (f, h)
Distinct-place i (some x ∷ rest) q' e f h =
    option_intro (λ (r : Option Queue). r ≡ some q' → Distinct q') (place i rest)
      (λ rest'. some (some x ∷ rest')) (λ _ e'. cc)
      (λ rest' e1 e'.
        let same : (some x ∷ rest') ≡ q' = cc in
        subst Distinct same (
          AllSome-place (λ y. y ≢ x) i rest rest' e1 (λ s. f.0 (sym s)) h.0,
          Distinct-place i rest rest' e1 f.1 h.1,
        ))
      e

AllSome-queued_in :
    (q : Queue) (m : FrameMask)
    → ((x : ℕ) → queued_in q x ≡ true → m x ≡ true)
    → AllSome (λ y. m y ≡ true) q
unfolding queued_in
AllSome-queued_in [] m h = tt
AllSome-queued_in (none ∷ q) m h = AllSome-queued_in q m h
AllSome-queued_in (some x ∷ q) m h = (
  h x (let self : (x == x) ≡ true = ground arith in rw self refl),
  AllSome-queued_in q m (λ y t. h y (rw t (ground arith))),
)

-- The loop at slot `k`: the queues hold what they held before it, and slots below `k`.
record Filling (held g : FrameMask) (k : ℕ) (d : Decoder) : Type 0 where
  pub queued : Queued d
  pub to_get : d.to_get_frames ≡ g
  pub seen : (v : ℕ) → v < 2 → AllSome (λ y. (held y ≡ true) ⊎ (y < k)) (d.get_frame_queue v)

module _ (held g : FrameMask) where
  widen : (y k : ℕ) → (held y ≡ true) ⊎ (y < k) → (held y ≡ true) ⊎ (y < suc k)
  widen y k s = elim s [ inl t ↦ inl t | inr lt ↦ inr (omega arith) ]

  later-Filling : (k : ℕ) (d : Decoder) → Filling held g k d → Filling held g (suc k) d
  later-Filling k d h = record {
    queued = h.queued;
    to_get = h.to_get;
    seen = λ v v2. AllSome-map _ _ (d.get_frame_queue v) (λ y s. widen y k s) (h.seen v v2);
  }

  placed :
      (k v : ℕ) (q : Queue) (d : Decoder)
      → k < max_frames
      → (g ∖ held) k ≡ true
      → v < 2
      → d.non_base_frames k ≡ (v == 1)
      → place k (d.get_frame_queue v) ≡ some q
      → Filling held g k d
      → Filling held g (suc k) (record d {
        get_frame_queue = update d.get_frame_queue v q;
        output_frames = d.output_frames ∪ bit k;
      })
  placed k v q d lt m v2 view at h = record {
    queued = record {
      entries = λ w w2.
          if_intro (AllSome (Entry d.to_get_frames o d.non_base_frames w)) (v == w)
            (λ e.
              subst (λ u. AllSome (Entry d.to_get_frames o d.non_base_frames u) q)
                ((==_iff v w).0 e)
                (AllSome-place _ k (d.get_frame_queue v) q at self (entries v v2)))
            (λ _. entries w w2);
      distinct = λ w w2.
          if_intro Distinct (v == w)
            (λ _.
              Distinct-place k (d.get_frame_queue v) q at
                (AllSome-map _ (λ y. y ≢ k) (d.get_frame_queue v) (λ y s. fresh y s) (h.seen v v2))
                (h.queued.distinct v v2))
            (λ _. h.queued.distinct w w2);
    };
    to_get = h.to_get;
    seen = λ w w2.
        if_intro (AllSome (λ y. (held y ≡ true) ⊎ (y < suc k))) (v == w)
          (λ _. AllSome-place _ k (d.get_frame_queue v) q at (inr (omega arith)) (wider v v2))
          (λ _. wider w w2);
  }
    where
      o : FrameMask
      o = d.output_frames ∪ bit k

      wider : (w : ℕ) → w < 2 → AllSome (λ y. (held y ≡ true) ⊎ (y < suc k)) (d.get_frame_queue w)
      wider w w2 = AllSome-map _ _ (d.get_frame_queue w) (λ y s. widen y k s) (h.seen w w2)

      marked :
          (w x : ℕ)
          → Entry d.to_get_frames d.output_frames d.non_base_frames w x
          → Entry d.to_get_frames o d.non_base_frames w x
      marked w x e = record {
        in_range = e.in_range;
        to_get = e.to_get;
        output = let t = e.output in rw t refl;
        view = e.view;
      }

      entries :
          (w : ℕ)
          → w < 2
          → AllSome (Entry d.to_get_frames o d.non_base_frames w) (d.get_frame_queue w)
      entries w w2 =
          AllSome-map _ _ (d.get_frame_queue w) (λ x e. marked w x e) (h.queued.entries w w2)

      awaits : d.to_get_frames k ≡ true
      awaits = ap (λ (a : FrameMask). a k) h.to_get ∙ ground arith

      self : Entry d.to_get_frames o d.non_base_frames v k
      self = record {
        in_range = lt;
        to_get = awaits;
        output = ground (arith, ==_iff k k);
        view = view;
      }

      fresh : (y : ℕ) → (held y ≡ true) ⊎ (y < k) → y ≢ k
      fresh y s same = elim s [
        | inl t ↦ let a = subst (λ z. held z ≡ true) same t in ground arith
        | inr lt' ↦ omega arith
      ]

  queue_back-Filling :
      (k : ℕ) (d : Decoder)
      → k < max_frames
      → (g ∖ held) k ≡ true
      → Filling held g k d
      → Filling held g (suc k) (queue_back k d)
  unfolding queue_back
  queue_back-Filling k d lt m h =
      let v = if d.non_base_frames k then 1 else 0 in
      option_intro (Filling held g (suc k)) (place k (d.get_frame_queue v))
        (λ q. record d {
          get_frame_queue = update d.get_frame_queue v q;
          output_frames = d.output_frames ∪ bit k;
        })
        (λ _. later-Filling k d h) (λ q at. placed k v q d lt m (ground arith) (ground arith) at h)

-- Filled queues hold pictures of their view once, that await delivery and are marked.
pub bump_all_frames-Queued : (d : Decoder) → Queued d → Queued (bump_all_frames d).1
unfolding bump_all_frames
bump_all_frames-Queued d0 h =
    let d = record (bump_both_from (suc max_frames) d0) { field_slot = λ _. none } in
    let held = queued_in (d.get_frame_queue 0) ∪ queued_in (d.get_frame_queue 1) in
    (for_bits_rule (Filling held d.to_get_frames) (d.to_get_frames ∖ held) queue_back
      (λ k e lt m f. queue_back-Filling held d.to_get_frames k e lt m f)
      (λ k e m f. later-Filling held d.to_get_frames k e f) d
      (record {
        queued = bump_both_from-Queued (suc max_frames) d0 h;
        to_get = refl;
        seen = in_queue d;
      })).queued
  where
    in_queue :
        (d : Decoder) (v : ℕ)
        → v < 2
        → AllSome
            (λ y.
              ((queued_in (d.get_frame_queue 0) ∪ queued_in (d.get_frame_queue 1)) y ≡ true)
              ⊎ (y < 0))
            (d.get_frame_queue v)
    in_queue d zero lt =
        let q = d.get_frame_queue 0 in
        AllSome-map _ _ q (λ y t. inl t)
          (AllSome-queued_in q (queued_in q ∪ queued_in (d.get_frame_queue 1))
            (λ x t. ground arith))
    in_queue d (suc zero) lt =
        let q = d.get_frame_queue 1 in
        AllSome-map _ _ q (λ y t. inl t)
          (AllSome-queued_in q (queued_in (d.get_frame_queue 0) ∪ queued_in q)
            (λ x t. ground arith))
    in_queue d (suc (suc v)) lt = absurd (omega arith)
