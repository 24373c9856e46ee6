-- ===== src/Wrapped/Invariant.antt =====
-- The invariant of wrapped values, and that meet, widening and extension never fault and keep it.
use sound_bit_precise_domain.Prelude.{
  ℕ, ◌≡◌, refl, sym, ap, ◌∙◌, Bool, [], ◌∷◌, inl, inr, Bool-cases, some, ok,
}
use sound_bit_precise_domain.Container.SortedMap.{IsMap, find, assign, first, assign-IsMap}
use sound_bit_precise_domain.Dimension.Key.{DimensionKey, key_ord}
use sound_bit_precise_domain.Dimension.Versions.{shift_map}
use sound_bit_precise_domain.Signedness.{
  VocabularySignedness, get_vocabulary_from_wrapped_voc, intersect_signedness, subtract_signedness,
  intersect_with_vocabulary,
}
use sound_bit_precise_domain.Mpz.{Gmp, IsGmp}
use sound_bit_precise_domain.Mpz.Convert.{bounds_of_size}
use sound_bit_precise_domain.Wrapped.Domain.{Domain, Constraint}
use sound_bit_precise_domain.Wrapped.Record.{Wrapped, add_vocabulary, reduce}
use sound_bit_precise_domain.Wrapped.Agree.{wrap_both_total}
use sound_bit_precise_domain.Wrapped.Bounding.{
  get_min_bounding_constraint, get_max_bounding_constraint, add_constraint, bound_wrapped,
  bound_each, add_bounding_constraints,
}
use sound_bit_precise_domain.Wrapped.Update.{
  at_least, at_most, Extends, Extends-refl, Extends-trans, add_constraint_total,
  update_vocabulary_signedness_total,
}
use sound_bit_precise_domain.Wrapped.Lattice.{
  project, replace_versions_wrapped, widen, meet, kept_vocabulary, extend,
}
use sound_bit_precise_domain.Wrapped.Maps.{
  keep_entry, intersect_signedness-IsMap, subtract_signedness-IsMap,
  intersect_with_vocabulary-IsMap, rename_into-IsMap, voc_eq_refl,
}

-- The member of the base class is the vocabulary of the domain's value, and the record is a map.
pub record IsWellFormed (d : Domain) (this : Wrapped d) : Type 0 where
  pub level : this.voc ≡ d.get_vocabulary this.av
  pub sorted : IsMap this.wrapped_voc

-- Of the domain: a constraint on dimensions that the value has adds none, and neither does a
-- reduction.
pub record KeepsVocabulary (d : Domain) : Type 0 where
  pub add_constraint_keeps :
      (a : d.Av) (c : Constraint) → d.get_vocabulary (d.add_constraint a c) ≡ d.get_vocabulary a
  pub reduce_keeps : (a : d.Av) → d.get_vocabulary (d.reduce a) ≡ d.get_vocabulary a

module _ (gmp : Gmp) (width : ℕ) (laws : IsGmp width gmp) (d : Domain)
    (keeps : KeepsVocabulary d) where
  constrained-IsWellFormed :
      (this : Wrapped d) (c : Constraint)
      → IsWellFormed d this
      → (r : Wrapped d) × (add_constraint gmp d this c ≡ ok r)
        × IsWellFormed d r
        × Extends this.wrapped_voc r.wrapped_voc
  constrained-IsWellFormed this c h =
      let u = add_constraint_total gmp width laws d this c h.sorted in
      (
        u.0,
        u.1,
        record {
          level =
              u.3
              ∙ h.level
              ∙ sym (keeps.add_constraint_keeps this.av c)
              ∙ ap d.get_vocabulary (sym u.2);
          sorted = u.4.sorted;
        },
        u.4,
      )

  module _ (disable_wrapping : Bool) where
    bound_wrapped_total :
        (this : Wrapped d) (k : DimensionKey) (s : Bool)
        → IsWellFormed d this
        → (r : Wrapped d) × (bound_wrapped gmp d disable_wrapping this k s ≡ ok r)
          × IsWellFormed d r
          × Extends this.wrapped_voc r.wrapped_voc
    unfolding bound_wrapped get_min_bounding_constraint get_max_bounding_constraint
    bound_wrapped_total this k s h = elim (Bool-cases disable_wrapping) [
      | inl off ↦ (this, rw off refl, h, Extends-refl this.wrapped_voc h.sorted)
      | inr on ↦
          let b = bounds_of_size gmp width laws k.bitsize s in
          let low = constrained-IsWellFormed this (at_least k s) h in
          let high = constrained-IsWellFormed low.0 (at_most k s) low.2 in
          (
            high.0,
            rw (on, b.0, b.1, low.1) high.1,
            high.2,
            Extends-trans this.wrapped_voc low.0.wrapped_voc high.0.wrapped_voc low.3 high.3,
          )
    ]

    -- The dimensions that are not in the list keep the sign that they have.
    bound_each_total :
        (this : Wrapped d) (vs : VocabularySignedness)
        → IsWellFormed d this
        → IsMap vs
        → (r : Wrapped d) × (bound_each gmp d disable_wrapping this vs ≡ ok r)
          × IsWellFormed d r
          × ((q : DimensionKey) (s : Bool)
              → first (find q vs) (find q this.wrapped_voc) ≡ some s
              → find q r.wrapped_voc ≡ some s)
    unfolding bound_each find
    bound_each_total this [] h m = (this, refl, h, λ q s e. e)
    bound_each_total this ((k, s) ∷ vs) h m =
        let b = bound_wrapped_total this k s h in
        let next = record b.0 { wrapped_voc = assign k s b.0.wrapped_voc } in
        let next-IsWellFormed : IsWellFormed d next = record {
          level = b.2.level;
          sorted = assign-IsMap k s b.0.wrapped_voc b.2.sorted;
        } in
        let rest = bound_each_total next vs next-IsWellFormed m.1 in
        (
          rest.0,
          rw (b.1, bound_each) rest.1,
          rest.2,
          λ q t e. rest.3 q t (keep_entry q k s t vs this.wrapped_voc b.0.wrapped_voc m b.3 e),
        )

    -- `AddBoundingConstraints` never faults, whatever the vocabulary was, and gives a well-formed
    -- value. It records the dimensions that it is given with the signs given, over the signs
    -- recorded before, and keeps what else is recorded. This holds for records that are maps,
    -- with the functions of GMP as documented, over a domain in which constraints and reductions
    -- add no dimension.
    pub add_bounding_constraints_total :
        (this : Wrapped d) (vs : VocabularySignedness)
        → IsMap this.wrapped_voc
        → IsMap vs
        → (r : Wrapped d) × (add_bounding_constraints gmp d disable_wrapping this vs ≡ ok r)
          × IsWellFormed d r
          × ((q : DimensionKey) (s : Bool)
              → first (find q vs) (find q this.wrapped_voc) ≡ some s
              → find q r.wrapped_voc ≡ some s)
    unfolding add_bounding_constraints add_vocabulary
    add_bounding_constraints_total this vs h m =
        bound_each_total (add_vocabulary d this (get_vocabulary_from_wrapped_voc vs)) vs
          (record { level = refl; sorted = h }) m

    -- `Widen` never faults and gives a well-formed value that records at least the dimensions
    -- that both values record with the same sign. This holds for records that are maps, with the
    -- functions of GMP as documented, over a domain in which constraints and reductions add no
    -- dimension.
    pub widen_total :
        (this wav : Wrapped d)
        → IsMap this.wrapped_voc
        → IsMap wav.wrapped_voc
        → (r : Wrapped d) × (widen d gmp disable_wrapping this wav ≡ ok r)
          × IsWellFormed d r
          × ((q : DimensionKey) (s : Bool)
              → find q (intersect_signedness this.wrapped_voc wav.wrapped_voc) ≡ some s
              → find q r.wrapped_voc ≡ some s)
    unfolding widen
    widen_total this wav h k =
        let w = intersect_signedness this.wrapped_voc wav.wrapped_voc in
        let w-IsMap : IsMap w = intersect_signedness-IsMap this.wrapped_voc wav.wrapped_voc h k in
        let b =
          add_bounding_constraints_total
            (record this { av = d.widen this.av wav.av; wrapped_voc = w }) w w-IsMap w-IsMap in
        (
          record b.0 { voc = d.get_vocabulary b.0.av },
          rw b.1 refl,
          record { level = refl; sorted = b.2.sorted },
          λ q s e. b.3 q s (ap (λ o. first o (find q w)) e),
        )

    -- `Meet` never faults and gives a well-formed value that records at least the dimensions that
    -- one of the values records, with the second value's sign where both do. This holds for
    -- records that are maps, with the functions of GMP as documented, over a domain in which
    -- constraints and reductions add no dimension.
    pub meet_total :
        (this that : Wrapped d)
        → IsMap this.wrapped_voc
        → IsMap that.wrapped_voc
        → (r : Wrapped d) × (meet d gmp disable_wrapping this that ≡ ok r)
          × IsWellFormed d r
          × ((q : DimensionKey) (s : Bool)
              → first (find q that.wrapped_voc) (find q this.wrapped_voc) ≡ some s
              → find q r.wrapped_voc ≡ some s)
    unfolding meet
    meet_total this that h k =
        let both = wrap_both_total d gmp disable_wrapping this that h k in
        let a = d.meet both.0.0.av both.0.1.av in
        let v = d.get_vocabulary a in
        let u =
          update_vocabulary_signedness_total gmp width laws d (record both.0.0 { av = a; voc = v })
            v both.4 in
        (
          u.0,
          rw both.1 u.1,
          record { level = u.3 ∙ ap d.get_vocabulary (sym u.2); sorted = u.4.sorted },
          λ q s e. u.4.keeps q s (both.3 q ∙ e),
        )

    -- `Extend` never faults: neither the assert of the meet nor the one at its end fails, and it
    -- gives a well-formed value. This holds for records that are maps, with the functions of GMP
    -- as documented, over a domain in which constraints and reductions add no dimension.
    pub extend_total :
        (this op2 : Wrapped d)
        → IsMap this.wrapped_voc
        → IsMap op2.wrapped_voc
        → (r : Wrapped d) × (extend d gmp disable_wrapping this op2 ≡ ok r) × IsWellFormed d r
    unfolding extend replace_versions_wrapped project reduce
    extend_total this op2 h k =
        let op2_av = replace_versions_wrapped d op2 shift_map in
        let op2_av-IsMap = rename_into-IsMap shift_map op2.wrapped_voc [] tt in
        let diff = subtract_signedness this.wrapped_voc op2_av.wrapped_voc in
        let diff-IsMap : IsMap diff =
          subtract_signedness-IsMap this.wrapped_voc op2_av.wrapped_voc h op2_av-IsMap in
        let b =
          add_bounding_constraints_total op2_av (intersect_with_vocabulary diff op2_av.voc)
            op2_av-IsMap (intersect_with_vocabulary-IsMap diff op2_av.voc diff-IsMap) in
        let m = meet_total this b.0 h b.2.sorted in
        let p =
          project d (reduce d m.0)
            (kept_vocabulary d gmp disable_wrapping (reduce d m.0).voc b.0.voc) in
        let r = replace_versions_wrapped d p ((2, 1) ∷ []) in
        (
          r,
          rw (b.1, m.1, voc_eq_refl r.voc) refl,
          record { level = refl; sorted = rename_into-IsMap ((2, 1) ∷ []) p.wrapped_voc [] tt },
        )
