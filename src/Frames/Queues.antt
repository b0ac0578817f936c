-- ===== src/Frames/Queues.antt =====
-- The output queues: what they hold, and what pushing and removing an entry keeps.
use edge264_mvc.Common.{
  ℕ, zero, suc, ◌≤◌, ◌<◌, ◌≡◌, ◌≢◌, refl, sym, true, false, List, [], ◌∷◌, ◌++◌, Option, none, some,
  arith, ◌==◌, ==_iff, if_intro, take, drop, get_elem?,
}
use mathlib.Core.Path.{subst}
use edge264_mvc.Common.Masks.{FrameMask, max_frames, bit, ◌∪◌}
use edge264_mvc.Decoder.{Decoder, update}

-- A queue is a list of slots and empty entries.
abbrev pub Queue : Type 0
Queue = List (Option ℕ)

abbrev pub AllSome : (ℕ → Type 0) → Queue → Type 0
AllSome P [] = Unit {0}
AllSome P (none ∷ q) = AllSome P q
AllSome P (some x ∷ q) = P x × AllSome P q

abbrev pub Distinct : Queue → Type 0
Distinct [] = Unit {0}
Distinct (none ∷ q) = Distinct q
Distinct (some x ∷ q) = AllSome (λ y. y ≢ x) q × Distinct q

-- Entry `i` removed and the gap closed.
abbrev pub without : ℕ → Queue → Queue
without i q = take i q ++ drop (suc i) q ++ none ∷ []

module _ (P : ℕ → Type 0) where
  pub AllSome-take : (n : ℕ) (q : Queue) → AllSome P q → AllSome P (take n q)
  AllSome-take zero q h = tt
  AllSome-take (suc n) [] h = tt
  AllSome-take (suc n) (none ∷ q) h = AllSome-take n q h
  AllSome-take (suc n) (some x ∷ q) h = (h.0, AllSome-take n q h.1)

  AllSome-snoc : (q : Queue) → AllSome P q → AllSome P (q ++ none ∷ [])
  AllSome-snoc [] h = tt
  AllSome-snoc (none ∷ q) h = AllSome-snoc q h
  AllSome-snoc (some x ∷ q) h = (h.0, AllSome-snoc q h.1)

  AllSome-gap : (i : ℕ) (q : Queue) → AllSome P q → AllSome P (take i q ++ drop (suc i) q)
  AllSome-gap zero [] h = tt
  AllSome-gap zero (none ∷ q) h = h
  AllSome-gap zero (some x ∷ q) h = h.1
  AllSome-gap (suc i) [] h = tt
  AllSome-gap (suc i) (none ∷ q) h = AllSome-gap i q h
  AllSome-gap (suc i) (some x ∷ q) h = (h.0, AllSome-gap i q h.1)

  pub AllSome-without : (i : ℕ) (q : Queue) → AllSome P q → AllSome P (without i q)
  AllSome-without i q h = AllSome-snoc (take i q ++ drop (suc i) q) (AllSome-gap i q h)

  pub AllSome-at : (q : Queue) (i x : ℕ) → AllSome P q → get_elem? q i ≡ some (some x) → P x
  AllSome-at [] i x h e = cc
  AllSome-at (none ∷ q) zero x h e = cc
  AllSome-at (none ∷ q) (suc i) x h e = AllSome-at q i x h e
  AllSome-at (some y ∷ q) zero x h e = let same : y ≡ x = cc in subst P same h.0
  AllSome-at (some y ∷ q) (suc i) x h e = AllSome-at q i x h.1 e

pub AllSome-map : (P Q : ℕ → Type 0) (q : Queue) → ((x : ℕ) → P x → Q x) → AllSome P q → AllSome Q q
AllSome-map P Q [] f h = tt
AllSome-map P Q (none ∷ q) f h = AllSome-map P Q q f h
AllSome-map P Q (some x ∷ q) f h = (f x h.0, AllSome-map P Q q f h.1)

pub AllSome-both :
    (P Q : ℕ → Type 0) (q : Queue) → AllSome P q → AllSome Q q → AllSome (λ x. P x × Q x) q
AllSome-both P Q [] h k = tt
AllSome-both P Q (none ∷ q) h k = AllSome-both P Q q h k
AllSome-both P Q (some x ∷ q) h k = ((h.0, k.0), AllSome-both P Q q h.1 k.1)

pub Distinct-take : (n : ℕ) (q : Queue) → Distinct q → Distinct (take n q)
Distinct-take zero q h = tt
Distinct-take (suc n) [] h = tt
Distinct-take (suc n) (none ∷ q) h = Distinct-take n q h
Distinct-take (suc n) (some x ∷ q) h = (AllSome-take (λ y. y ≢ x) n q h.0, Distinct-take n q h.1)

Distinct-snoc : (q : Queue) → Distinct q → Distinct (q ++ none ∷ [])
Distinct-snoc [] h = tt
Distinct-snoc (none ∷ q) h = Distinct-snoc q h
Distinct-snoc (some x ∷ q) h = (AllSome-snoc (λ y. y ≢ x) q h.0, Distinct-snoc q h.1)

Distinct-gap : (i : ℕ) (q : Queue) → Distinct q → Distinct (take i q ++ drop (suc i) q)
Distinct-gap zero [] h = tt
Distinct-gap zero (none ∷ q) h = h
Distinct-gap zero (some x ∷ q) h = h.1
Distinct-gap (suc i) [] h = tt
Distinct-gap (suc i) (none ∷ q) h = Distinct-gap i q h
Distinct-gap (suc i) (some x ∷ q) h = (AllSome-gap (λ y. y ≢ x) i q h.0, Distinct-gap i q h.1)

pub Distinct-without : (i : ℕ) (q : Queue) → Distinct q → Distinct (without i q)
Distinct-without i q h = Distinct-snoc (take i q ++ drop (suc i) q) (Distinct-gap i q h)

-- What is removed is gone.
gap-absent :
    (q : Queue) (i x : ℕ)
    → Distinct q
    → get_elem? q i ≡ some (some x)
    → AllSome (λ y. y ≢ x) (take i q ++ drop (suc i) q)
gap-absent [] i x h e = cc
gap-absent (none ∷ q) zero x h e = cc
gap-absent (none ∷ q) (suc i) x h e = gap-absent q i x h e
gap-absent (some y ∷ q) zero x h e =
    let same : y ≡ x = cc in subst (λ z. AllSome (λ w. w ≢ z) q) same h.0
gap-absent (some y ∷ q) (suc i) x h e =
    (λ same. AllSome-at (λ w. w ≢ y) q i x h.0 e (sym same), gap-absent q i x h.1 e)

pub without-absent :
    (q : Queue) (i x : ℕ)
    → Distinct q
    → get_elem? q i ≡ some (some x)
    → AllSome (λ y. y ≢ x) (without i q)
without-absent q i x h e =
    AllSome-snoc (λ y. y ≢ x) (take i q ++ drop (suc i) q) (gap-absent q i x h e)

-- What stands behind the entry removed moves up.
gap-later :
    (q : Queue) (i k x : ℕ)
    → i ≤ k
    → get_elem? q (suc k) ≡ some (some x)
    → get_elem? (take i q ++ drop (suc i) q) k ≡ some (some x)
gap-later [] i k x le e = cc
gap-later (y ∷ q) zero k x le e = e
gap-later (y ∷ q) (suc i) zero x le e = absurd (omega arith)
gap-later (y ∷ q) (suc i) (suc k) x le e = gap-later q i k x (omega arith) e

snoc-at :
    (l r : Queue) (k x : ℕ) → get_elem? l k ≡ some (some x) → get_elem? (l ++ r) k ≡ some (some x)
snoc-at [] r k x e = cc
snoc-at (y ∷ l) r zero x e = e
snoc-at (y ∷ l) r (suc k) x e = snoc-at l r k x e

pub without-later :
    (q : Queue) (i k x : ℕ)
    → i ≤ k
    → get_elem? q (suc k) ≡ some (some x)
    → get_elem? (without i q) k ≡ some (some x)
without-later q i k x le e =
    snoc-at (take i q ++ drop (suc i) q) (none ∷ []) k x (gap-later q i k x le e)

-- An entry of the queue of view `v`, at to_get_frames `g`, output_frames `o` and non_base_frames `n`: a picture of the view that awaits delivery and is marked for output.
pub record Entry (g o n : FrameMask) (v x : ℕ) : Type 0 where
  pub in_range : x < max_frames
  pub to_get : g x ≡ true
  pub output : o x ≡ true
  pub view : n x ≡ (v == 1)

-- Both queues hold such entries, each picture once.
pub record QueuesOk (g o n : FrameMask) (queues : ℕ → Queue) : Type 0 where
  pub entries : (v : ℕ) → v < 2 → AllSome (Entry g o n v) (queues v)
  pub distinct : (v : ℕ) → v < 2 → Distinct (queues v)

abbrev pub Queued : Decoder → Type 0
Queued d = QueuesOk d.to_get_frames d.output_frames d.non_base_frames d.get_frame_queue

-- The mark of a picture that does not await delivery may be cleared.
pub clear-QueuesOk :
    (g o o' n : FrameMask) (queues : ℕ → Queue)
    → ((x : ℕ) → g x ≡ true → o x ≡ true → o' x ≡ true)
    → QueuesOk g o n queues
    → QueuesOk g o' n queues
clear-QueuesOk g o o' n queues f h = record {
  entries =
      λ v v2. AllSome-map (Entry g o n v) (Entry g o' n v) (queues v) (keep v) (h.entries v v2);
  distinct = h.distinct;
}
  where
    keep : (v x : ℕ) → Entry g o n v x → Entry g o' n v x
    keep v x e = record {
      in_range = e.in_range;
      to_get = e.to_get;
      output = f x e.to_get e.output;
      view = e.view;
    }

-- More pictures may come to await delivery.
pub grow-QueuesOk :
    (g g' o n : FrameMask) (queues : ℕ → Queue)
    → ((x : ℕ) → g x ≡ true → g' x ≡ true)
    → QueuesOk g o n queues
    → QueuesOk g' o n queues
grow-QueuesOk g g' o n queues f h = record {
  entries =
      λ v v2. AllSome-map (Entry g o n v) (Entry g' o n v) (queues v) (keep v) (h.entries v v2);
  distinct = h.distinct;
}
  where
    keep : (v x : ℕ) → Entry g o n v x → Entry g' o n v x
    keep v x e = record {
      in_range = e.in_range;
      to_get = f x e.to_get;
      output = e.output;
      view = e.view;
    }

module _ (g o n : FrameMask) (queues : ℕ → Queue) (h : QueuesOk g o n queues) (v pic : ℕ)
    (v2 : v < 2) where
  pub push-QueuesOk :
      (k : ℕ)
      → pic < max_frames
      → g pic ≡ true
      → o pic ≡ false
      → n pic ≡ (v == 1)
      → QueuesOk g (o ∪ bit pic) n (update queues v (some pic ∷ take k (queues v)))
  push-QueuesOk k lt got out view = record {
    entries = λ w w2.
        if_intro (AllSome (Entry g (o ∪ bit pic) n w)) (v == w)
          (λ e.
            subst (λ u. AllSome (Entry g (o ∪ bit pic) n u) (some pic ∷ take k (queues v)))
              ((==_iff v w).0 e) pushed)
          (λ _.
            AllSome-map (Entry g o n w) (Entry g (o ∪ bit pic) n w) (queues w) (marked w)
              (h.entries w w2));
    distinct = λ w w2.
        if_intro Distinct (v == w)
          (λ _. (
            AllSome-take (λ y. y ≢ pic) k (queues v)
                (AllSome-map (Entry g o n v) (λ y. y ≢ pic) (queues v) fresh (h.entries v v2)),
            Distinct-take k (queues v) (h.distinct v v2),
          ))
          (λ _. h.distinct w w2);
  }
    where
      marked : (w x : ℕ) → Entry g o n w x → Entry g (o ∪ bit pic) n w x
      marked w x e = record {
        in_range = e.in_range;
        to_get = e.to_get;
        output = let t = e.output in rw t refl;
        view = e.view;
      }

      pushed : AllSome (Entry g (o ∪ bit pic) n v) (some pic ∷ take k (queues v))
      pushed = (
        record {
          in_range = lt;
          to_get = got;
          output = ground (arith, ==_iff pic pic);
          view = view;
        },
        AllSome-take (Entry g (o ∪ bit pic) n v) k (queues v) (
            AllSome-map (Entry g o n v) (Entry g (o ∪ bit pic) n v) (queues v) (marked v)
              (h.entries v v2)),
      )

      fresh : (x : ℕ) → Entry g o n v x → x ≢ pic
      fresh x e same = let a = subst (λ y. o y ≡ true) same e.output in cc

  -- With an entry removed, its bits may be cleared.
  pub remove-QueuesOk :
      (i : ℕ) (g' o' : FrameMask)
      → get_elem? (queues v) i ≡ some (some pic)
      → ((x : ℕ) → x ≢ pic → g x ≡ true → g' x ≡ true)
      → ((x : ℕ) → x ≢ pic → o x ≡ true → o' x ≡ true)
      → QueuesOk g' o' n (update queues v (without i (queues v)))
  remove-QueuesOk i g' o' at gs os = record {
    entries = λ w w2.
        if_intro (AllSome (Entry g' o' n w)) (v == w)
          (λ e.
            subst (λ u. AllSome (Entry g' o' n u) (without i (queues v))) ((==_iff v w).0 e)
              (AllSome-map _ _ (without i (queues v)) (λ x b. kept v x b.0 b.1)
                (AllSome-both (Entry g o n v) (λ y. y ≢ pic) (without i (queues v))
                  (AllSome-without (Entry g o n v) i (queues v) (h.entries v v2))
                  (without-absent (queues v) i pic (h.distinct v v2) at))))
          (λ f.
            AllSome-map (Entry g o n w) (Entry g' o' n w) (queues w)
              (λ x e. kept w x e (other w x w2 f e)) (h.entries w w2));
    distinct = λ w w2.
        if_intro Distinct (v == w) (λ _. Distinct-without i (queues v) (h.distinct v v2))
          (λ _. h.distinct w w2);
  }
    where
      kept : (w x : ℕ) → Entry g o n w x → x ≢ pic → Entry g' o' n w x
      kept w x e ne = record {
        in_range = e.in_range;
        to_get = gs x ne e.to_get;
        output = os x ne e.output;
        view = e.view;
      }

      here : Entry g o n v pic
      here = AllSome-at (Entry g o n v) (queues v) i pic (h.entries v v2) at

      other : (w x : ℕ) → w < 2 → (v == w) ≡ false → Entry g o n w x → x ≢ pic
      other w x w2 f e same =
          let a : n pic ≡ (w == 1) = subst (λ y. n y ≡ (w == 1)) same e.view in
          let b = here.view in ground arith
