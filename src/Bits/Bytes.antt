-- ===== src/Bits/Bytes.antt =====
-- `get_bytes`: it gives a word, keeps the memory, and does not look at the caches.
use edge264_mvc.Common.{
  ℕ, zero, suc, ◌+◌, ◌-◌, ◌*◌, ◌/◌, ◌^◌, ◌<◌, ◌≡◌, refl, arith, leb, min, Bool, true, false, not,
  List, [], ◌∷◌, ◌++◌, map, take, drop, replicate, if_elim, elim_intro, ◌==◌, if◌then◌else◌,
}
use edge264_mvc.Bits.{
  GetBits, load128, shlv128, shrv128, any, both, first_set, clear_first, escapes, remove_byte,
  remove_escapes, big_endian64, load_window, cut, get_bytes,
}

abbrev pub AllBytes : List ℕ → Type 0
AllBytes [] = Unit {0}
AllBytes (x ∷ xs) = (x < 256) × AllBytes xs

AllBytes-take : (n : ℕ) (xs : List ℕ) → AllBytes xs → AllBytes (take n xs)
AllBytes-take zero xs h = tt
AllBytes-take (suc n) [] h = tt
AllBytes-take (suc n) (x ∷ xs) h = (h.0, AllBytes-take n xs h.1)

AllBytes-drop : (n : ℕ) (xs : List ℕ) → AllBytes xs → AllBytes (drop n xs)
AllBytes-drop zero xs h = h
AllBytes-drop (suc n) [] h = tt
AllBytes-drop (suc n) (x ∷ xs) h = AllBytes-drop n xs h.1

AllBytes-append : (xs ys : List ℕ) → AllBytes xs → AllBytes ys → AllBytes (xs ++ ys)
AllBytes-append [] ys h k = k
AllBytes-append (x ∷ xs) ys h k = (h.0, AllBytes-append xs ys h.1 k)

AllBytes-zeros : (n : ℕ) → AllBytes (replicate n 0)
AllBytes-zeros zero = tt
AllBytes-zeros (suc n) = (omega arith, AllBytes-zeros n)

AllBytes-shrv128 : (v : List ℕ) (k : ℕ) → AllBytes v → AllBytes (shrv128 v k)
AllBytes-shrv128 v k h =
    AllBytes-take 16 _ (AllBytes-append (drop k v) _ (AllBytes-drop k v h) (AllBytes-zeros k))

AllBytes-shlv128 : (v : List ℕ) (k : ℕ) → AllBytes v → AllBytes (shlv128 v k)
AllBytes-shlv128 v k h = AllBytes-take 16 _ (AllBytes-append (replicate k 0) v (AllBytes-zeros k) h)

AllBytes-remove_byte : (i : ℕ) (x : List ℕ) → AllBytes x → AllBytes (remove_byte i x)
AllBytes-remove_byte i x h =
    AllBytes-append (take i x ++ drop (suc i) x) (0 ∷ [])
      (AllBytes-append (take i x) (drop (suc i) x) (AllBytes-take i x h)
        (AllBytes-drop (suc i) x h))
      (omega arith, tt)

AllBytes-remove_escapes :
    (rounds nbytes : ℕ) (esc : List Bool) (x : List ℕ) (cpb : ℕ)
    → AllBytes x
    → AllBytes (remove_escapes rounds nbytes esc x cpb).0
unfolding remove_escapes
AllBytes-remove_escapes zero nbytes esc x cpb h = h
AllBytes-remove_escapes (suc rounds) nbytes esc x cpb h =
    elim_intro (λ (r : List ℕ × ℕ). AllBytes r.0) (any (take nbytes esc))
      (λ _.
        AllBytes-remove_escapes rounds nbytes (drop 1 (clear_first esc))
          (remove_byte (first_set esc) x) (cpb + 1) (AllBytes-remove_byte (first_set esc) x h))
      (λ _. h)

-- The memory holds bytes.
abbrev pub Octets : GetBits → Type 0
Octets gb = (i : ℕ) → gb.mem i < 256

AllBytes-load128 : (gb : GetBits) (p : ℕ) → Octets gb → AllBytes (load128 gb.mem p)
AllBytes-load128 gb p h = (
  h _,
  (
    h _,
    (
      h _,
      (h _, (h _, (h _, (h _, (h _, (h _, (h _, (h _, (h _, (h _, (h _, (h _, (h _, tt))))))))))))),
    ),
  ),
)

AllBytes-load_window : (gb : GetBits) → Octets gb → AllBytes (load_window gb)
unfolding load_window
AllBytes-load_window gb h =
    let p = min (gb.cpb - 2) ((gb.end - 1) / 16 * 16) in
    if_elim AllBytes (leb (gb.cpb + 14) gb.end) (AllBytes-load128 gb (gb.cpb - 2) h)
      (AllBytes-shrv128 _ _ (AllBytes-shlv128 _ (p + 16 - gb.end) (AllBytes-load128 gb p h)))

AllBytes-cut :
    (stop : List Bool) (gb : GetBits) (x : List ℕ) → AllBytes x → AllBytes (cut stop gb x).0
unfolding cut
AllBytes-cut stop gb x h =
    if_elim (λ (r : List ℕ × ℕ). AllBytes r.0) (any stop)
      (AllBytes-append (take (first_set stop) x) _ (AllBytes-take (first_set stop) x h)
        (AllBytes-zeros (16 - first_set stop)))
      h

big_endian64-lt : (x : List ℕ) → AllBytes x → big_endian64 x < 2 ^ 64
big_endian64-lt [] h = omega arith
big_endian64-lt (a ∷ []) h = omega arith
big_endian64-lt (a ∷ b ∷ []) h = omega arith
big_endian64-lt (a ∷ b ∷ c ∷ []) h = omega arith
big_endian64-lt (a ∷ b ∷ c ∷ d ∷ []) h = omega arith
big_endian64-lt (a ∷ b ∷ c ∷ d ∷ e ∷ []) h = omega arith
big_endian64-lt (a ∷ b ∷ c ∷ d ∷ e ∷ f ∷ []) h = omega arith
big_endian64-lt (a ∷ b ∷ c ∷ d ∷ e ∷ f ∷ g ∷ []) h = omega arith
big_endian64-lt (a ∷ b ∷ c ∷ d ∷ e ∷ f ∷ g ∷ i ∷ xs) h = omega arith

if_map {ℓ κ} :
    {A : Type ℓ} {B : Type κ} (f : A → B) (b c : Bool) (x y z : A)
    → (if b then f x else (if c then f y else f z)) ≡ f (if b then x else (if c then y else z))
if_map f true c x y z = refl
if_map f false true x y z = refl
if_map f false false x y z = refl

module _ (gb : GetBits) (n : ℕ) where
  pub get_bytes-lt : Octets gb → (get_bytes gb n).0 < 2 ^ 64
  unfolding get_bytes
  get_bytes-lt h =
      if_elim (λ (r : ℕ × GetBits). r.0 < 2 ^ 64) (leb (gb.end + 2) gb.cpb) (omega arith)
        (if_elim (λ (r : ℕ × GetBits). r.0 < 2 ^ 64) (any (take 8 test))
          (big_endian64-lt _ (
            AllBytes-remove_escapes 16 n _ _ gb.cpb
              (AllBytes-cut (both test (map not (map (λ c. c == 3) x))) gb x window)))
          (big_endian64-lt x window))
    where
      x : List ℕ
      x = shrv128 (load_window gb) 2

      test : List Bool
      test = escapes (load_window gb)

      window : AllBytes x
      window = AllBytes-shrv128 (load_window gb) 2 (AllBytes-load_window gb h)

  pub get_bytes-mem : (get_bytes gb n).1.mem ≡ gb.mem
  unfolding get_bytes
  get_bytes-mem =
      if_elim (λ (r : ℕ × GetBits). r.1.mem ≡ gb.mem) (leb (gb.end + 2) gb.cpb) refl
        (if_elim (λ (r : ℕ × GetBits). r.1.mem ≡ gb.mem) (any (take 8 (escapes (load_window gb))))
          refl refl)

  pub get_bytes-caches :
      (a b : ℕ)
      → get_bytes (record gb { lsb_cache = a; msb_cache = b }) n
        ≡ ((get_bytes gb n).0, record (get_bytes gb n).1 { lsb_cache = a; msb_cache = b })
  unfolding get_bytes
  get_bytes-caches a b =
      if_map (λ (r : ℕ × GetBits). (r.0, record r.1 { lsb_cache = a; msb_cache = b }))
        (leb (gb.end + 2) gb.cpb) (any (take 8 (escapes (load_window gb)))) _ _ _
