-- ===== src/Frames/Lowest.antt =====
-- The order in which `get_frame` chooses a base view, and that its scan finds one that may come out.
use edge264_mvc.Common.{
  ℕ, suc, ◌≡◌, refl, Bool, true, false, ◌&&◌, [], ◌∷◌, Option, none, some, arith, if_intro, if_elim,
}
use mathlib.Core.Path.{subst}
use edge264_mvc.Common.Int.{ℤ, ltb_ℤ, ◌≤ℤ◌}
use edge264_mvc.Frames.{
  Player, Scan, can_output, before_found, look_any, look, scan_from, no_scan, scan, select,
}
use edge264_mvc.Frames.Select.{select-FoundAt}
use edge264_mvc.Frames.Queues.{Queue}

-- The entries of a queue before its first empty one.
abbrev pub AllPacked : (ℕ → Type 0) → Queue → Type 0
AllPacked P [] = Unit {0}
AllPacked P (none ∷ q) = Unit {0}
AllPacked P (some x ∷ q) = P x × AllPacked P q

and_right : (a b : Bool) → (a && b) ≡ true → b ≡ true
and_right a b h = ground arith

unready : (a b : Bool) → (a && b) ≡ false → a ≡ true → b ≡ false
unready a b h k = ground arith

unfoldable pub is_found : Option (ℕ × ℕ) → Bool
is_found none = false
is_found (some _) = true

AllPacked-map :
    (P Q : ℕ → Type 0) (q : Queue) → ((x : ℕ) → P x → Q x) → AllPacked P q → AllPacked Q q
AllPacked-map P Q [] f h = tt
AllPacked-map P Q (none ∷ q) f h = tt
AllPacked-map P Q (some x ∷ q) f h = (f x h.0, AllPacked-map P Q q f h.1)

-- What the test `before_found` says of a frame of rank `order`.
before : ℤ → ℤ → Option (ℕ × ℕ) → Bool
before order lowest f = elim f [ none ↦ true | some _ ↦ ltb_ℤ order lowest ]

before-true :
    (order lowest rank : ℤ) (f : Option (ℕ × ℕ))
    → before order lowest f ≡ true
    → (is_found f ≡ true) × (lowest ≤ℤ rank)
    → order ≤ℤ rank
unfolding before is_found
before-true order lowest rank none b h = cc
before-true order lowest rank (some _) b h = let l = h.1 in ground arith

before-false :
    (order lowest : ℤ) (f : Option (ℕ × ℕ))
    → before order lowest f ≡ false
    → (is_found f ≡ true) × (lowest ≤ℤ order)
unfolding before is_found
before-false order lowest none b = cc
before-false order lowest (some _) b = (refl, ground arith)

module _ (p : Player) where
  -- A frame that may come out is not before the one found.
  abbrev Beats : ℕ → Scan → Type 0
  Beats x s =
      can_output p x ≡ true → (is_found s.found ≡ true) × (s.lowest_order ≤ℤ p.dec.disp_order x)

  look_any-Beats : (order : ℤ) (i x : ℕ) (s : Scan) → Beats x s → Beats x (look_any order i s)
  unfolding look_any
  look_any-Beats order i x s h = if_elim (Beats x) (ltb_ℤ order s.lowest_any_order) h h

  look-Beats : (i y x : ℕ) (s : Scan) → Beats x s → Beats x (look p i y s)
  unfolding look before is_found
  look-Beats i y x s h =
      let s' = look_any (p.dec.disp_order y) y s in
      let h' = look_any-Beats (p.dec.disp_order y) y x s h in
      if_intro (Beats x) (can_output p y && before_found (p.dec.disp_order y) s')
        (λ t c. (
          refl,
          before-true (p.dec.disp_order y) s'.lowest_order (p.dec.disp_order x) s'.found
              (and_right _ _ t) (h' c),
        ))
        (λ _. h')

  look-Beats-self : (i x : ℕ) (s : Scan) → Beats x (look p i x s)
  unfolding look before is_found
  look-Beats-self i x s =
      let s' = look_any (p.dec.disp_order x) x s in
      if_intro (Beats x) (can_output p x && before_found (p.dec.disp_order x) s')
        (λ t c. (refl, omega arith))
        (λ f c. before-false (p.dec.disp_order x) s'.lowest_order s'.found (unready _ _ f c))

  scan_from-Beats : (l : Queue) (i x : ℕ) (s : Scan) → Beats x s → Beats x (scan_from p i l s)
  unfolding scan_from
  scan_from-Beats [] i x s h = h
  scan_from-Beats (none ∷ l) i x s h = h
  scan_from-Beats (some y ∷ l) i x s h =
      scan_from-Beats l (suc i) x (look p i y s) (look-Beats i y x s h)

  scan_from-all : (l : Queue) (i : ℕ) (s : Scan) → AllPacked (λ x. Beats x (scan_from p i l s)) l
  unfolding scan_from
  scan_from-all [] i s = tt
  scan_from-all (none ∷ l) i s = tt
  scan_from-all (some x ∷ l) i s = (
    scan_from-Beats l (suc i) x (look p i x s) (look-Beats-self i x s),
    scan_from-all l (suc i) (look p i x s),
  )

  scan-all : AllPacked (λ x. Beats x (scan p)) (p.dec.get_frame_queue 0)
  unfolding scan
  scan-all = scan_from-all (p.dec.get_frame_queue 0) 0 no_scan

  -- No frame that may come out is before the one chosen.
  pub select-lowest :
      (i pic0 : ℕ)
      → select p ≡ some (i, pic0)
      → AllPacked
          (λ x. can_output p x ≡ true → p.dec.disp_order pic0 ≤ℤ p.dec.disp_order x)
          (p.dec.get_frame_queue 0)
  select-lowest i pic0 e =
      let f = select-FoundAt p i pic0 e in
      AllPacked-map (λ x. Beats x (scan p)) _ (p.dec.get_frame_queue 0)
        (λ x b c. subst (λ r. r ≤ℤ p.dec.disp_order x) f.order (b c).1) scan-all

  -- A frame is chosen while flushing where one may come out.
  pub scan-found :
      (x : ℕ) (rest : Queue)
      → p.dec.get_frame_queue 0 ≡ some x ∷ rest
      → can_output p x ≡ true
      → is_found (scan p).found ≡ true
  scan-found x rest e c = ((subst (AllPacked (λ y. Beats y (scan p))) e scan-all).0 c).0
