-- ===== src/RefLists/Valid.antt =====
-- What the lists of a slice that is not rejected refer to.
use edge264_mvc.Common.{
  ℕ, zero, suc, ◌+◌, ◌≤◌, ◌<◌, ◌≡◌, ◌∙◌, refl, true, false, List, [], ◌∷◌, Option, some, none,
  arith, ◌==◌, Bool-cases, inl, inr, if_intro, get_elem?,
}
use mathlib.Core.Path.{subst}
use edge264_mvc.Bits.{GetBits}
use edge264_mvc.Parser.{◌>>=◌, pure}
use edge264_mvc.Decoder.{Decoder, update}
use edge264_mvc.ParameterSets.{Sps}
use edge264_mvc.RefLists.Whole.{
  init_lists, append_inter_view, modify_lists, parse_ref_pic_list_modification,
}
use edge264_mvc.RefLists.{Slice}
use edge264_mvc.RefLists.Fix.{
  is_usable, first_usable, replace_unusable, fix_list, fix_from, fix_lists,
}

-- The first `n` entries of a list.
abbrev pub AllUsable : Option ℕ → ℕ → List (Option ℕ) → Type 0
AllUsable c zero list = Unit {0}
AllUsable c (suc n) [] = Unit {0}
AllUsable c (suc n) (e ∷ list) = (is_usable c e ≡ true) × AllUsable c n list

replace_unusable-AllUsable :
    (c v : Option ℕ) (n : ℕ) (list : List (Option ℕ))
    → is_usable c v ≡ true
    → AllUsable c n (replace_unusable c v n list)
unfolding replace_unusable
replace_unusable-AllUsable c v zero list h = tt
replace_unusable-AllUsable c v (suc n) [] h = tt
replace_unusable-AllUsable c v (suc n) (e ∷ list) h = (
  if_intro (λ x. is_usable c x ≡ true) (is_usable c e) (λ u. u) (λ _. h),
  replace_unusable-AllUsable c v n list h,
)

-- What the search for a usable entry gives.
abbrev Found : Option ℕ → ℕ → List (Option ℕ) → Option ℕ → Type 0
Found c n list none =
    (i : ℕ) (e : Option ℕ) → i < n → get_elem? list i ≡ some e → is_usable c e ≡ false
Found c n list (some p) = is_usable c (some p) ≡ true

first_usable-Found :
    (c : Option ℕ) (n : ℕ) (list : List (Option ℕ)) → Found c n list (first_usable c n list)
unfolding first_usable
first_usable-Found c zero list = λ i e lt. absurd (omega arith)
first_usable-Found c (suc n) [] = λ i e lt at. cc
first_usable-Found c (suc n) (e ∷ list) =
    if_intro (Found c (suc n) (e ∷ list)) (is_usable c e) (taken e)
      (λ u. later (first_usable c n list) u (first_usable-Found c n list))
  where
    unusable : is_usable c none ≡ true → ⊥
    unusable u = unfold is_usable in cc

    same : (e e' : Option ℕ) → some e ≡ some e' → is_usable c e ≡ false → is_usable c e' ≡ false
    same e e' at u = cc

    taken : (e : Option ℕ) → is_usable c e ≡ true → Found c (suc n) (e ∷ list) e
    taken none u = λ i e' lt at. absurd (unusable u)
    taken (some p) u = u

    later : (r : Option ℕ) → is_usable c e ≡ false → Found c n list r → Found c (suc n) (e ∷ list) r
    later none u h = extended h
      where
        extended : Found c n list none → Found c (suc n) (e ∷ list) none
        extended h zero e' lt at = same e e' at u
        extended h (suc i) e' lt at = h i e' (omega arith) at
    later (some p) u h = h

-- The outcome of a list: every active entry usable, or none of them usable to begin with.
abbrev pub FixedList : Option ℕ → ℕ → List (Option ℕ) → Option (List (Option ℕ)) → Type 0
FixedList c n list none =
    (i : ℕ) (e : Option ℕ) → i < n → get_elem? list i ≡ some e → is_usable c e ≡ false
FixedList c n list (some list') = AllUsable c n list'

-- A list with `n` active entries is either fixed, so that all of them are usable, or rejected, and then
-- none of them was.
pub fix_list-FixedList :
    (c : Option ℕ) (n : ℕ) (list : List (Option ℕ)) → FixedList c n list (fix_list c n list)
unfolding fix_list
fix_list-FixedList c n list = go (first_usable c n list) (first_usable-Found c n list)
  where
    go :
        (r : Option ℕ)
        → Found c n list r
        → FixedList c n list
            (elim r [ none ↦ none | some v ↦ some (replace_unusable c (some v) n list) ])
    go none h = h
    go (some v) h = replace_unusable-AllUsable c (some v) n list h

-- The lists from `l` on, `n` of them.
abbrev pub Fixed : ℕ → ℕ → Slice → Type 0
Fixed n l s =
    (k : ℕ) → l ≤ k → k < l + n → AllUsable s.curr_vp (s.num_ref_idx_active k) (s.ref_pic_list k)

abbrev FixedFrom : ℕ → ℕ → Slice → Option Slice → Type 0
FixedFrom n l s none = Unit {0}
FixedFrom n l s (some s') =
    (s'.curr_vp ≡ s.curr_vp)
    × (s'.num_ref_idx_active ≡ s.num_ref_idx_active)
    × ((k : ℕ) → k < l → s'.ref_pic_list k ≡ s.ref_pic_list k)
    × Fixed n l s'
    × (s'.slice_type ≡ s.slice_type)

fix_from-FixedFrom : (n l : ℕ) (s : Slice) → FixedFrom n l s (fix_from n l s)
unfolding fix_from
fix_from-FixedFrom zero l s = (refl, refl, λ k lt. refl, λ k ge lt. absurd (omega arith), refl)
fix_from-FixedFrom (suc n) l s =
    go (fix_list s.curr_vp (s.num_ref_idx_active l) (s.ref_pic_list l))
      (fix_list-FixedList s.curr_vp (s.num_ref_idx_active l) (s.ref_pic_list l))
      (λ list.
        fix_from-FixedFrom n (suc l) (record s { ref_pic_list = update s.ref_pic_list l list }))
  where
    go :
        (o : Option (List (Option ℕ)))
        → FixedList s.curr_vp (s.num_ref_idx_active l) (s.ref_pic_list l) o
        → ((list : List (Option ℕ))
            → let s1 = record s { ref_pic_list = update s.ref_pic_list l list } in
              FixedFrom n (suc l) s1 (fix_from n (suc l) s1))
        → FixedFrom (suc n) l s (elim o [
          | none ↦ none
          | some list ↦
              fix_from n (suc l) (record s { ref_pic_list = update s.ref_pic_list l list })
        ])
    go none h rest = tt
    go (some list) h rest =
        both (fix_from n (suc l) (record s { ref_pic_list = update s.ref_pic_list l list }))
          (rest list)
      where
        both :
            (o : Option Slice)
            → FixedFrom n (suc l) (record s { ref_pic_list = update s.ref_pic_list l list }) o
            → FixedFrom (suc n) l s o
        both none r = tt
        both (some s') (cur, active, below, fixed, type) =
            (cur, active, λ k lt. below k (omega arith) ∙ other k lt, here_or_after, type)
          where
            other : (k : ℕ) → k < l → update s.ref_pic_list l list k ≡ s.ref_pic_list k
            other k lt =
                if_intro (λ x. x ≡ s.ref_pic_list k) (l == k) (λ e. absurd (ground arith))
                  (λ _. refl)

            written : AllUsable s.curr_vp (s.num_ref_idx_active l) (update s.ref_pic_list l list l)
            written =
                if_intro (AllUsable s.curr_vp (s.num_ref_idx_active l)) (l == l) (λ _. h)
                  (λ e. absurd (ground arith))

            here : AllUsable s'.curr_vp (s'.num_ref_idx_active l) (s'.ref_pic_list l)
            here = rw (cur, active, below l (omega arith)) written

            equal : (k : ℕ) → (l == k) ≡ true → l ≡ k
            equal k e = ground arith

            here_or_after : Fixed (suc n) l s'
            here_or_after k ge lt = elim (Bool-cases (l == k)) [
              | inl e ↦
                  subst (λ v. AllUsable s'.curr_vp (s'.num_ref_idx_active v) (s'.ref_pic_list v))
                    (equal k e) here
              | inr e ↦ fixed k (ground arith) (omega arith)
            ]

fix_lists-Fixed : (s s' : Slice) → fix_lists s ≡ some s' → Fixed (suc s'.slice_type) 0 s'
unfolding fix_lists
fix_lists-Fixed s s' e =
    let h =
      subst (FixedFrom (suc s.slice_type) 0 s) e (fix_from-FixedFrom (suc s.slice_type) 0 s) in
    rw h.4 h.3

-- Whatever the bitstream and the marking, when the slice is not rejected as corrupt every active entry
-- of the lists it uses is usable: a picture below MAX_FRAMES, and not the current picture.
pub parse_ref_pic_list_modification-Fixed :
    (d : Decoder) (sps : Sps) (s s' : Slice) (gb : GetBits)
    → (parse_ref_pic_list_modification d sps s gb).0 ≡ some s'
    → Fixed (suc s'.slice_type) 0 s'
unfolding parse_ref_pic_list_modification ◌>>=◌ pure
parse_ref_pic_list_modification-Fixed d sps s s' gb e =
    let (size, initial) = init_lists d sps s in
    fix_lists-Fixed
      (modify_lists (suc s.slice_type) 0 d sps (append_inter_view d size initial) gb).0 s' e
