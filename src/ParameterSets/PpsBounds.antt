-- ===== src/ParameterSets/PpsBounds.antt =====
-- What every picture parameter set that is saved satisfies.
use edge264_mvc.Common.{
  ℕ, ◌+◌, ◌-◌, ◌≤◌, ◌<◌, ◌≡◌, refl, Bool, ◌&&◌, Option, some, none, List, [], ◌∷◌, ◌++◌, arith,
  ◌==◌, ltb, leb, if◌then◌else◌, if_elim, if_intro, replicate,
}
use mathlib.Core.Path.{subst}
use edge264_mvc.Common.Int.{ℤ, pos, negsuc, ◌≤ℤ◌, int_laws}
use edge264_mvc.Bits.{GetBits, clz}
use edge264_mvc.Parser.{
  Wide, Gives, Gives-pure, Gives-bind, Gives-if, Gives-repeat, Gives-get_u1, Gives-get_u2,
  Gives-get_ue16, Gives-get_se16, Gives-get_uv,
}
use edge264_mvc.ParameterSets.{Pps}
use edge264_mvc.ParameterSets.Weights.{All, All-replicate, parse_scaling_lists-All}
use edge264_mvc.ParameterSets.PpsParser.{
  parse_run_length, parse_rectangle, parse_slice_group_id, Groups, parse_explicit_map, parse_map,
  parse_slice_groups, parse_defaults, at_end, parse_extension, PpsVerdict, saved, malformed,
  no_memory, parse_rest, parse_pic_parameter_set,
}

-- 1 to 8 slice groups, of which every explicit identifier is one.
abbrev pub Grouped : ℕ → Option (List ℕ) → Type 0
Grouped n none = (1 ≤ n) × (n ≤ 8)
Grouped n (some ids) = (1 ≤ n) × (n ≤ 8) × All (λ id. id < n) ids

abbrev pub Byte : ℕ → Type 0
Byte n = n ≤ 255

pub record PpsBounds (active0 active1 bipred : ℕ) (qp qs offset offset2 : ℤ) : Type 0 where
  pub active0_ge : 1 ≤ active0
  pub active0_le : active0 ≤ 32
  pub active1_ge : 1 ≤ active1
  pub active1_le : active1 ≤ 32
  pub bipred_le : bipred ≤ 2
  pub qp_ge : negsuc 11 ≤ℤ qp
  pub qp_le : qp ≤ℤ pos 51
  pub qs_ge : pos 0 ≤ℤ qs
  pub qs_le : qs ≤ℤ pos 51
  pub offset_ge : negsuc 11 ≤ℤ offset
  pub offset_le : offset ≤ℤ pos 12
  pub offset2_ge : negsuc 11 ≤ℤ offset2
  pub offset2_le : offset2 ≤ℤ pos 12

-- The number of slice groups is `n`, from 1 to 8.
abbrev Count : ℕ → Pps → Type 0
Count n p =
    (p.num_slice_groups ≡ n)
    × (1 ≤ n)
    × (n ≤ 8)
    × All (All Byte) p.weight_scale4x4
    × All (All Byte) p.weight_scale8x8

abbrev GroupsOk : Groups → Type 0
GroupsOk none = Unit {0}
GroupsOk (some (p, ids)) =
    Grouped p.num_slice_groups ids
    × All (All Byte) p.weight_scale4x4
    × All (All Byte) p.weight_scale8x8

module _ (n : ℕ) where
  grouped : (p : Pps) → Count n p → GroupsOk (some (p, none))
  grouped p (e, ge, le, w4, w8) = ((omega arith, omega arith), w4, w8)

  parse_run_length-Count :
      (r : ℕ × Pps) → Count n r.1 → Gives (λ r. Count n r.1) (parse_run_length r)
  unfolding parse_run_length
  parse_run_length-Count (i, p) h = Gives-bind (Gives-get_ue16 139263) λ run _. Gives-pure _ h

  parse_rectangle-Count : (r : ℕ × Pps) → Count n r.1 → Gives (λ r. Count n r.1) (parse_rectangle r)
  unfolding parse_rectangle
  parse_rectangle-Count (i, p) h =
      Gives-bind (Gives-get_ue16 139263)
        λ tl _. Gives-bind (Gives-get_ue16 139263) λ br _. Gives-pure _ h

  All-snoc :
      (xs : List ℕ) (v : ℕ) → All (λ id. id < n) xs → v < n → All (λ id. id < n) (xs ++ v ∷ [])
  All-snoc [] v h lt = (lt, tt)
  All-snoc (x ∷ xs) v h lt = (h.0, All-snoc xs v h.1 lt)

  parse_slice_group_id-lt :
      (bits : ℕ) (ids : List ℕ)
      → 1 ≤ n
      → All (λ id. id < n) ids
      → Gives (All (λ id. id < n)) (parse_slice_group_id n bits ids)
  unfolding parse_slice_group_id
  parse_slice_group_id-lt bits ids ge h = Gives-bind (Gives-get_uv bits) λ id _. Gives-pure _ (
      All-snoc ids (if ltb id n then id else 0) h
        (if_intro (λ v. v < n) (ltb id n) (λ e. ground arith) (λ e. omega arith)))

parse_explicit_map-ok :
    (allocates : ℕ → Bool) (p : Pps)
    → Count p.num_slice_groups p
    → Gives GroupsOk (parse_explicit_map allocates p)
unfolding parse_explicit_map
parse_explicit_map-ok allocates p (e, ge, le, w4, w8) = Gives-bind (Gives-get_ue16 139263) λ size _.
    Gives-if (allocates (size + 1))
      (Gives-bind
        (Gives-repeat (size + 1)
          (parse_slice_group_id p.num_slice_groups (64 - clz (p.num_slice_groups - 1))) []
          (λ ids h. parse_slice_group_id-lt p.num_slice_groups _ ids ge h) tt)
        λ ids h. Gives-pure _ ((ge, le, h), w4, w8))
      (Gives-pure _ tt)

parse_map-ok :
    (allocates : ℕ → Bool) (type : ℕ) (p : Pps)
    → Count p.num_slice_groups p
    → Gives GroupsOk (parse_map allocates type p)
unfolding parse_map
parse_map-ok allocates type p h =
    Gives-if (type == 0)
      (Gives-bind
        (Gives-repeat p.num_slice_groups parse_run_length (0, p)
          (parse_run_length-Count p.num_slice_groups) h)
        λ r hr. Gives-pure _ (grouped p.num_slice_groups r.1 hr))
      (Gives-if (type == 2)
        (Gives-bind
          (Gives-repeat (p.num_slice_groups - 1) parse_rectangle (0, p)
            (parse_rectangle-Count p.num_slice_groups) h)
          λ r hr. Gives-pure _ (grouped p.num_slice_groups r.1 hr))
        (Gives-if (leb 3 type && leb type 5)
          (Gives-bind Gives-get_u1
            λ d _. Gives-bind (Gives-get_ue16 139263) λ rate _. Gives-pure _ ((h.1, h.2), h.3, h.4))
          (Gives-if (type == 6) (parse_explicit_map-ok allocates p h)
            (Gives-pure (some (p, none)) ((h.1, h.2), h.3, h.4)))))

parse_slice_groups-ok :
    (allocates : ℕ → Bool) (p : Pps)
    → Count p.num_slice_groups p
    → Gives GroupsOk (parse_slice_groups allocates p)
unfolding parse_slice_groups
parse_slice_groups-ok allocates p h =
    Gives-if (ltb 1 p.num_slice_groups)
      (Gives-bind (Gives-get_ue16 6)
        λ type _. parse_map-ok allocates type (record p { slice_group_map_type = type }) h)
      (Gives-pure (some (p, none)) ((h.1, h.2), h.3, h.4))

-- A set read, but for the slice groups.
abbrev pub PpsLimits : Option (List ℕ) → Pps → Type 0
PpsLimits ids p =
    PpsBounds p.num_ref_idx_active0 p.num_ref_idx_active1 p.weighted_bipred_idc p.qpprime_y
      p.qsprime_y p.chroma_qp_index_offset p.second_chroma_qp_index_offset
    × Grouped p.num_slice_groups ids
    × All (All Byte) p.weight_scale4x4
    × All (All Byte) p.weight_scale8x8

parse_defaults-ok :
    (p : Pps) (ids : Option (List ℕ))
    → GroupsOk (some (p, ids))
    → Gives (PpsLimits ids) (parse_defaults p)
unfolding parse_defaults
parse_defaults-ok p ids h = Gives-bind (Gives-get_ue16 31) λ a0 h0.
    Gives-bind (Gives-get_ue16 31) λ a1 h1. Gives-bind Gives-get_u1 λ pred _.
      Gives-bind Gives-get_u2 λ bipred hb.
        Gives-bind (Gives-get_se16 (negsuc 37) (pos 25) (omega arith)) λ qp hqp.
          Gives-bind (Gives-get_se16 (negsuc 25) (pos 25) (omega arith)) λ qs hqs.
            Gives-bind (Gives-get_se16 (negsuc 11) (pos 12) (omega arith)) λ offset ho.
              Gives-bind Gives-get_u1 λ deblocking _. Gives-bind Gives-get_u1 λ constrained _.
                Gives-bind Gives-get_u1 λ redundant _. Gives-pure _ (
                  record {
                    active0_ge = omega arith;
                    active0_le = omega arith;
                    active1_ge = omega arith;
                    active1_le = omega arith;
                    bipred_le = ground arith;
                    qp_ge = omega int_laws;
                    qp_le = omega int_laws;
                    qs_ge = omega int_laws;
                    qs_le = omega int_laws;
                    offset_ge = ho.0;
                    offset_le = ho.1;
                    offset2_ge = ho.0;
                    offset2_le = ho.1;
                  },
                  h.0,
                  h.1,
                  h.2,
                )

module _ {a0 a1 bipred : ℕ} {qp qs offset offset2 : ℤ}
    (b : PpsBounds a0 a1 bipred qp qs offset offset2) where
  second_offset :
      {new : ℤ} → (negsuc 11 ≤ℤ new) × (new ≤ℤ pos 12) → PpsBounds a0 a1 bipred qp qs offset new
  second_offset h = record {
    active0_ge = b.active0_ge;
    active0_le = b.active0_le;
    active1_ge = b.active1_ge;
    active1_le = b.active1_le;
    bipred_le = b.bipred_le;
    qp_ge = b.qp_ge;
    qp_le = b.qp_le;
    qs_ge = b.qs_ge;
    qs_le = b.qs_le;
    offset_ge = b.offset_ge;
    offset_le = b.offset_le;
    offset2_ge = h.0;
    offset2_le = h.1;
  }

at_end-any : Gives (λ _. Unit {0}) at_end
unfolding at_end
at_end-any = record { on = λ gb w. (tt, w) }

parse_extension-ok :
    (chroma : ℕ) (ids : Option (List ℕ)) (p : Pps)
    → PpsLimits ids p
    → Gives (PpsLimits ids) (parse_extension chroma p)
unfolding parse_extension
parse_extension-ok chroma ids p h = Gives-bind at_end-any λ ended _.
    Gives-if ended (Gives-pure p h) (
      Gives-bind Gives-get_u1 λ transform _. Gives-bind Gives-get_u1 λ present _.
        Gives-bind {P = λ r. All (All Byte) r.0 × All (All Byte) r.1}
          (Gives-if (present == 0) (Gives-pure (p.weight_scale4x4, p.weight_scale8x8) (h.2, h.3)) (
            parse_scaling_lists-All Byte (λ n ge le. le) transform chroma p.weight_scale4x4
              p.weight_scale8x8 h.2 h.3))
          λ lists hl.
            Gives-bind (Gives-get_se16 (negsuc 11) (pos 12) (omega arith))
              λ offset ho. Gives-pure _ (second_offset h.0 ho, h.1, hl.0, hl.1))

-- A set that is saved is under an identifier of at most 255.
abbrev Saveable : PpsVerdict → Type 0
Saveable (saved id p ids) = (id ≤ 255) × PpsLimits ids p
Saveable malformed = Unit {0}
Saveable no_memory = Unit {0}

parse_rest-ok :
    (id chroma : ℕ) (g : Groups) → id ≤ 255 → GroupsOk g → Gives Saveable (parse_rest id chroma g)
unfolding parse_rest
parse_rest-ok id chroma none le h = Gives-pure no_memory tt
parse_rest-ok id chroma (some (p, ids)) le h = Gives-bind (parse_defaults-ok p ids h) λ p1 h1.
    Gives-bind (parse_extension-ok chroma ids p1 h1) λ p2 h2. Gives-bind at_end-any λ ended _.
      Gives-pure (if ended then saved id p2 ids else malformed)
        (if_elim Saveable ended {y = malformed} (le, h2) tt)

parse_pic_parameter_set-Saveable :
    (allocates : ℕ → Bool) (chroma : ℕ) → Gives Saveable (parse_pic_parameter_set allocates chroma)
unfolding parse_pic_parameter_set
parse_pic_parameter_set-Saveable allocates chroma = Gives-bind (Gives-get_ue16 255) λ id le.
    Gives-bind (Gives-get_ue16 31) λ sps _. Gives-bind Gives-get_u1 λ cabac _.
      Gives-bind Gives-get_u1 λ bottom _. Gives-bind (Gives-get_ue16 7) λ n hn.
        Gives-bind
          (parse_slice_groups-ok allocates _ (refl, omega arith, omega arith, zeros 16, zeros 64))
          λ g hg. parse_rest-ok id chroma g le hg
  where
    zeros : (k : ℕ) → All (All Byte) (replicate 6 (replicate k 0))
    zeros k = All-replicate (All Byte) 6 (replicate k 0) (All-replicate Byte k 0 (omega arith))

-- Whatever the bitstream (`msb_cache` being a word), a picture parameter set that is saved is under an
-- identifier of at most 255, with 1 to 32 active references in each list, a weighted_bipred_idc of at
-- most 2, initial QPs from -12 or 0 to 51, chroma offsets from -12 to 12, 1 to 8 slice groups of which
-- each identifier of an explicit map is one, and weights of at most 255.
pub parse_pic_parameter_set-PpsLimits :
    (allocates : ℕ → Bool) (chroma id : ℕ) (gb : GetBits) (p : Pps) (ids : Option (List ℕ))
    → Wide gb
    → (parse_pic_parameter_set allocates chroma gb).0 ≡ saved id p ids
    → (id ≤ 255) × PpsLimits ids p
parse_pic_parameter_set-PpsLimits allocates chroma id gb p ids w e =
    subst Saveable e ((parse_pic_parameter_set-Saveable allocates chroma).on gb w).0
