-- ===== src/Frames/Select.antt =====
-- The frame that `get_frame` chooses, and its dependent view.
use edge264_mvc.Common.{
  ℕ, suc, ◌+◌, ◌≡◌, sym, ap, ◌∙◌, Bool, true, false, ◌&&◌, [], ◌∷◌, Option, none, some, arith,
  if◌then◌else◌, if_intro, and_left, get_elem?,
}
use mathlib.Core.Path.{subst}
use edge264_mvc.Common.Int.{ltb_ℤ}
use edge264_mvc.Decoder.{same_access_unit}
use edge264_mvc.Frames.{
  Player, Scan, frame_complete, can_output, before_found, look_any, look, scan_from, no_scan, scan,
  held, select, pair_from,
}
use edge264_mvc.Frames.Queues.{Queue}

and_right : (a b : Bool) → (a && b) ≡ true → b ≡ true
and_right a b h = ground arith

shift_at :
    (l q : Queue) (x : Option ℕ) (i : ℕ)
    → ((j : ℕ) → get_elem? (x ∷ l) j ≡ get_elem? q (i + j))
    → (j : ℕ) → get_elem? l j ≡ get_elem? q (suc i + j)
shift_at l q x i at j =
    let e : i + suc j ≡ suc i + j = omega arith in at (suc j) ∙ ap (get_elem? q) e

head_at :
    (l q : Queue) (x : Option ℕ) (i : ℕ)
    → ((j : ℕ) → get_elem? (x ∷ l) j ≡ get_elem? q (i + j))
    → get_elem? q i ≡ some x
head_at l q x i at = let e : i + 0 ≡ i = omega arith in ap (get_elem? q) (sym e) ∙ sym (at 0)

module _ (p : Player) (q : Queue) where
  -- What the scan found is an entry of the queue that may come out.
  pub record FoundAt (s : Scan) (k x : ℕ) : Type 0 where
    pub at : get_elem? q k ≡ some (some x)
    pub ready : can_output p x ≡ true
    pub order : s.lowest_order ≡ p.dec.disp_order x

  abbrev FoundOk : Scan → Type 0
  FoundOk s = (k x : ℕ) → s.found ≡ some (k, x) → FoundAt s k x

  look-FoundOk :
      (i x : ℕ) (s : Scan) → get_elem? q i ≡ some (some x) → FoundOk s → FoundOk (look p i x s)
  unfolding look look_any
  look-FoundOk i x s at h =
      if_intro FoundOk
        (can_output p x && before_found (p.dec.disp_order x) (look_any (p.dec.disp_order x) x s))
        (λ t k y e.
          let k_eq : i ≡ k = cc in
          let y_eq : x ≡ y = cc in
          record {
            at =
                subst (λ z. get_elem? q z ≡ some (some y)) k_eq (at ∙ ap (λ z. some (some z)) y_eq);
            ready = subst (λ z. can_output p z ≡ true) y_eq (and_left _ _ t);
            order = ap p.dec.disp_order y_eq;
          })
        (λ _.
          if_intro FoundOk (ltb_ℤ (p.dec.disp_order x) s.lowest_any_order)
            (λ _ k y e. let f = h k y e in record { at = f.at; ready = f.ready; order = f.order })
            (λ _. h))

  scan_from-FoundOk :
      (l : Queue) (i : ℕ) (s : Scan)
      → ((j : ℕ) → get_elem? l j ≡ get_elem? q (i + j))
      → FoundOk s
      → FoundOk (scan_from p i l s)
  unfolding scan_from
  scan_from-FoundOk [] i s at h = h
  scan_from-FoundOk (none ∷ l) i s at h = h
  scan_from-FoundOk (some x ∷ l) i s at h =
      scan_from-FoundOk l (suc i) (look p i x s) (shift_at l q (some x) i at)
        (look-FoundOk i x s (head_at l q (some x) i at) h)

  -- Dependent views are paired from complete entries of the access unit.
  pub record PairedAt (pic0 k y : ℕ) : Type 0 where
    pub at : get_elem? q k ≡ some (some y)
    pub complete : frame_complete p y ≡ true
    pub same : same_access_unit p.dec pic0 y ≡ true

  pub pair_from-PairedAt :
      (pic0 : ℕ) (l : Queue) (i : ℕ)
      → ((j : ℕ) → get_elem? l j ≡ get_elem? q (i + j))
      → (k y : ℕ) → pair_from p pic0 i l ≡ some (k, y)
      → PairedAt pic0 k y
  unfolding pair_from
  pair_from-PairedAt pic0 [] i at k y e = cc
  pair_from-PairedAt pic0 (none ∷ l) i at k y e = cc
  pair_from-PairedAt pic0 (some x ∷ l) i at k y e' =
      if_intro (λ (r : Option (ℕ × ℕ)). r ≡ some (k, y) → PairedAt pic0 k y)
        (frame_complete p x && same_access_unit p.dec pic0 x)
        (λ t e.
          let k_eq : i ≡ k = cc in
          let y_eq : x ≡ y = cc in
          record {
            at =
                subst (λ z. get_elem? q z ≡ some (some y)) k_eq
                  (head_at l q (some x) i at ∙ ap (λ z. some (some z)) y_eq);
            complete = subst (λ z. frame_complete p z ≡ true) y_eq (and_left _ _ t);
            same = subst (λ z. same_access_unit p.dec pic0 z ≡ true) y_eq (and_right _ _ t);
          })
        (λ _. pair_from-PairedAt pic0 l (suc i) (shift_at l q (some x) i at) k y) e'

-- A frame chosen is not held.
pub select-found :
    (p : Player) (i pic0 : ℕ)
    → select p ≡ some (i, pic0)
    → ((scan p).found ≡ some (i, pic0)) × (held p pic0 (scan p) ≡ false)
unfolding select
select-found p i pic0 = go (scan p).found
  where
    go :
        (f : Option (ℕ × ℕ))
        → (let r : Option (ℕ × ℕ) = elim f [
          | none ↦ none
          | some (j, x) ↦ if held p x (scan p) then none else some (j, x)
        ] in
            r)
          ≡ some (i, pic0)
        → (f ≡ some (i, pic0)) × (held p pic0 (scan p) ≡ false)
    go none e = cc
    go (some (j, x)) e =
        if_intro
          (λ (r : Option (ℕ × ℕ)).
            r ≡ some (i, pic0)
            → (◌≡◌ {A = Option (ℕ × ℕ)} (some (j, x)) (some (i, pic0)))
              × (held p pic0 (scan p) ≡ false))
          (held p x (scan p)) (λ _ e'. cc)
          (λ f e'. (e', let same : x ≡ pic0 = cc in subst (λ z. held p z (scan p) ≡ false) same f))
          e

pub select-FoundAt :
    (p : Player) (i pic0 : ℕ)
    → select p ≡ some (i, pic0)
    → FoundAt p (p.dec.get_frame_queue 0) (scan p) i pic0
unfolding scan
select-FoundAt p i pic0 e =
    let q = p.dec.get_frame_queue 0 in
    scan_from-FoundOk p q q 0 no_scan (λ j. let z : j ≡ 0 + j = omega arith in ap (get_elem? q) z)
      (λ k x e'. cc) i pic0 (select-found p i pic0 e).0
