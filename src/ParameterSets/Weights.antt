-- ===== src/ParameterSets/Weights.antt =====
-- The scaling lists of a sequence parameter set hold weights from 1 to 255.
use edge264_mvc.Common.{
  ℕ, zero, suc, ◌+◌, ◌-◌, ◌≤◌, ◌≡◌, Bool, true, ◌&&◌, refl, Bool-cases, inl, inr, List, [], ◌∷◌,
  arith, ◌==◌, ltb, leb, ◌%◌, if◌then◌else◌, if_elim, if_intro, set, get_or, replicate,
}
use edge264_mvc.Common.Int.{ℤ, pos, negsuc, to_unsigned}
use edge264_mvc.Parser.{
  Gives, Gives-pure, Gives-bind, Gives-if, Gives-repeat, Gives-get_u1, Gives-get_se16,
}
use edge264_mvc.ParameterSets.Scaling.{
  scan_4x4, scan_8x8_cabac, default_4x4_intra, default_4x4_inter, default_8x8_intra,
  default_8x8_inter, read_scale, fill, read_list, Lists, scaling_list_4x4, scaling_list_8x8,
  parse_scaling_lists,
}

abbrev pub Weight : ℕ → Type 0
Weight w = (1 ≤ w) × (w ≤ 255)

-- All entries of a list, and of the lists of a list.
abbrev pub All {ℓ} : {A : Type ℓ} → (A → Type 0) → List A → Type 0
All P [] = Unit {0}
All P (x ∷ xs) = P x × All P xs

abbrev pub Weights : List ℕ → Type 0
Weights = All Weight

module _ {ℓ} {A : Type ℓ} (P : A → Type 0) where
  pub All-set : (xs : List A) (i : ℕ) (v : A) → All P xs → P v → All P (set xs i v)
  All-set [] i v h p = tt
  All-set (x ∷ xs) zero v h p = (p, h.1)
  All-set (x ∷ xs) (suc i) v h p = (h.0, All-set xs i v h.1 p)

  pub All-replicate : (n : ℕ) (v : A) → P v → All P (replicate n v)
  All-replicate zero v p = tt
  All-replicate (suc n) v p = (p, All-replicate n v p)

  pub All-get : (xs : List A) (i : ℕ) (d : A) → All P xs → P d → P (get_or xs i d)
  All-get [] i d h p = p
  All-get (x ∷ xs) zero d h p = h.0
  All-get (x ∷ xs) (suc i) d h p = All-get xs i d h.1 p

read_scale-byte : (scale : ℕ) → Gives (λ s. s ≤ 255) (read_scale scale)
unfolding read_scale
read_scale-byte scale =
    Gives-bind (Gives-get_se16 (negsuc 127) (pos 127) (omega arith))
      (λ delta h. Gives-pure _ (byte _))
  where
    byte : (a : ℤ) → to_unsigned 8 a ≤ 255
    byte (pos n) = omega arith
    byte (negsuc n) = omega arith

pub weights? : List ℕ → Bool
weights? [] = true
weights? (w ∷ ws) = leb 1 w && leb w 255 && weights? ws

-- A predicate that holds of weights from 1 to 255: it is shown below for itself, and for the lists
-- of a picture parameter set, which start at 0.
module _ (W : ℕ → Type 0) (weight : (n : ℕ) → 1 ≤ n → n ≤ 255 → W n) where
  weights?-All : (ws : List ℕ) → weights? ws ≡ true → All W ws
  unfolding weights?
  weights?-All [] e = tt
  weights?-All (w ∷ ws) e = (weight w (ground arith) (ground arith), weights?-All ws (ground arith))

  pub defaults :
      All W default_4x4_intra
      × All W default_4x4_inter
      × All W default_8x8_intra
      × All W default_8x8_inter
  unfolding weights?
  defaults = (
    weights?-All default_4x4_intra refl,
    weights?-All default_4x4_inter refl,
    weights?-All default_8x8_intra refl,
    weights?-All default_8x8_inter refl,
  )

  -- Where the next scale is 0 the last one is a weight.
  fill-Weights :
      (scan : List ℕ) (next last : ℕ) (ws : List ℕ)
      → next ≤ 255
      → (next ≡ 0 → W last)
      → All W ws
      → Gives (All W) (fill scan next last ws)
  unfolding fill
  fill-Weights [] next last ws le zero_last h = Gives-pure ws h
  fill-Weights (p ∷ []) next last ws le zero_last h = Gives-pure _ (
      All-set W ws p _ h (
        if_intro W (next == 0) (λ e. zero_last (ground arith))
          (λ e. weight next (ground arith) le)))
  fill-Weights (p ∷ q ∷ scan) next last ws le zero_last h = elim (Bool-cases (next == 0)) [
    | inl e ↦ rw e (
        fill-Weights (q ∷ scan) 0 last (set ws p last) (omega arith) (λ _. zero_last (ground arith))
          (All-set W ws p last h (zero_last (ground arith))))
    | inr e ↦ rw e (
        Gives-bind (read_scale-byte next) (λ next' le'.
          fill-Weights (q ∷ scan) next' next (set ws p next) le'
            (λ _. weight next (ground arith) le)
            (All-set W ws p next h (weight next (ground arith) le))))
  ]

  read_list-Weights :
      (scan default ws : List ℕ)
      → All W default
      → All W ws
      → Gives (All W) (read_list scan default ws)
  unfolding read_list
  read_list-Weights scan default ws hd h = Gives-bind (read_scale-byte 8) λ next le.
      elim (Bool-cases (next == 0)) [
        | inl e ↦ rw e (Gives-pure default hd)
        | inr e ↦ rw e (fill-Weights scan next 0 ws le (λ z. absurd (ground arith)) h)
      ]

  abbrev ListsOk : Lists → Type 0
  ListsOk (i, fb, w4x4) = All W fb × All (All W) w4x4

  scaling_list_4x4-Weights : (s : Lists) → ListsOk s → Gives ListsOk (scaling_list_4x4 s)
  unfolding scaling_list_4x4
  scaling_list_4x4-Weights (i, fb, w4x4) h = Gives-bind Gives-get_u1 λ present le.
      Gives-bind
        (Gives-if (present == 0)
          (Gives-pure (if i == 3 then get_or w4x4 i [] else fb)
            (if_elim (All W) (i == 3) current h.0))
          (read_list-Weights scan_4x4 (if ltb i 3 then default_4x4_intra else default_4x4_inter)
            (get_or w4x4 i []) (if_elim (All W) (ltb i 3) defaults.0 defaults.1) current))
        λ ws hws. Gives-pure (i + 1, ws, set w4x4 i ws) (hws, All-set (All W) w4x4 i ws h.1 hws)
    where
      current : All W (get_or w4x4 i [])
      current = All-get (All W) w4x4 i [] h.1 tt

  scaling_list_8x8-Weights :
      (s : ℕ × List (List ℕ)) → All (All W) s.1 → Gives (λ s. All (All W) s.1) (scaling_list_8x8 s)
  unfolding scaling_list_8x8
  scaling_list_8x8-Weights (i, w8x8) h = Gives-bind Gives-get_u1 λ present le.
      Gives-bind
        (Gives-if (present == 0)
          (Gives-pure (get_or w8x8 (if leb 2 i then i - 2 else i) [])
            (All-get (All W) w8x8 _ [] h tt))
          (read_list-Weights scan_8x8_cabac
            (if i % 2 == 0 then default_8x8_intra else default_8x8_inter) (get_or w8x8 i [])
            (if_elim (All W) (i % 2 == 0) defaults.2 defaults.3) (All-get (All W) w8x8 i [] h tt)))
        λ ws hws. Gives-pure (i + 1, set w8x8 i ws) (All-set (All W) w8x8 i ws h hws)

  -- Whatever the bitstream, all weights of the lists read have a property that holds of 1 to 255, if
  -- those of the lists given did.
  pub parse_scaling_lists-All :
      (transform chroma : ℕ) (w4x4 w8x8 : List (List ℕ))
      → All (All W) w4x4
      → All (All W) w8x8
      → Gives
          (λ r. All (All W) r.0 × All (All W) r.1)
          (parse_scaling_lists transform chroma w4x4 w8x8)
  unfolding parse_scaling_lists
  parse_scaling_lists-All transform chroma w4x4 w8x8 h4 h8 =
      Gives-bind
        (Gives-repeat 6 scaling_list_4x4 (0, get_or w4x4 0 [], w4x4) scaling_list_4x4-Weights
          (All-get (All W) w4x4 0 [] h4 tt, h4))
        λ s hs. Gives-if (transform == 0) (Gives-pure (s.2, w8x8) (hs.1, h8)) (
          Gives-bind
            (Gives-repeat (if chroma == 3 then 6 else 2) scaling_list_8x8 (0, w8x8)
              scaling_list_8x8-Weights h8)
            λ t ht. Gives-pure (s.2, t.1) (hs.1, ht))
