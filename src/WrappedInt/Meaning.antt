-- ===== src/WrappedInt/Meaning.antt =====
-- The steps of a wrapped value, and the operations on wrapped values that keep them.
use sound_bit_precise_domain.Prelude.{
  ℕ, ◌≡◌, refl, sym, ◌∙◌, Bool, true, false, [], ◌∷◌, inl, inr, Bool-cases, Option-cases, Option,
  none, some, ok, arith, ◌⊎◌, subst,
}
use sound_bit_precise_domain.Prelude.Int.{ℤ, pos, ◌+ℤ◌, ◌*ℤ◌, ◌≤ℤ◌, +ℤ_parts, eq_of_parts}
use sound_bit_precise_domain.Container.{eqb, eq_of_eqb}
use sound_bit_precise_domain.Container.SortedSet.{contains}
use sound_bit_precise_domain.Container.SortedMap.{
  IsMap, find, insert, first, at_key, find-insert, insert-IsMap,
}
use sound_bit_precise_domain.Dimension.Key.{DimensionKey, key_ord}
use sound_bit_precise_domain.Dimension.Vocabulary.{Vocabulary}
use sound_bit_precise_domain.Signedness.{VocabularySignedness}
use sound_bit_precise_domain.Mpz.{Gmp, IsGmp}
use sound_bit_precise_domain.Mpz.Convert.{least, largest}
use sound_bit_precise_domain.Wrapped.Domain.{Domain, Constraint}
use sound_bit_precise_domain.Wrapped.Meaning.{State, Satisfies, IsSoundDomain}
use sound_bit_precise_domain.Wrapped.Record.{Wrapped, mark_wrapped}
use sound_bit_precise_domain.Wrapped.Update.{at_least, at_most, bounded, bound_dimension_lem}
use sound_bit_precise_domain.Wrapped.Bounding.{
  update_dimension, update_dimensions, update_vocabulary_signedness, add_constraint,
}

-- The integer is in the range of the dimension's machine type.
abbrev pub Within : DimensionKey → Bool → ℤ → Type 0
Within k s z = (least k.bitsize s ≤ℤ z) × (z ≤ℤ largest k.bitsize s)

-- The value of every recorded dimension is in the range of its machine type.
abbrev pub InRange : VocabularySignedness → State → Type 0
InRange m p = (q : DimensionKey) (s : Bool) → find q m ≡ some s → Within q s (p q)

-- What the integers rely on beyond soundness: values say nothing of the dimensions that they do
-- not have or that were removed, the bounds of a dimension are exact, equal values have the same
-- steps, and wrapping does not change a step in which the wrapped dimensions are in range. Values
-- are compared over one vocabulary. Polyhedra and octagons have exact bounds, and so has their
-- product with a value that holds equalities only.
pub record IsExact (d : Domain) (snd : IsSoundDomain d) : Type 0 where
  pub local :
      (a : d.Av) (p q : State)
      → ((k : DimensionKey) → contains k (d.get_vocabulary a) ≡ true → q k ≡ p k)
      → snd.Has a p
      → snd.Has a q
  pub havoc_frees :
      (a : d.Av) (v : Vocabulary) (p q : State)
      → ((k : DimensionKey) → contains k v ≡ false → q k ≡ p k)
      → snd.Has a p
      → snd.Has (d.havoc a v) q
  pub project_only :
      (a : d.Av) (v : Vocabulary) (k : DimensionKey)
      → contains k (d.get_vocabulary (d.project a v)) ≡ true
      → contains k v ≡ true
  pub equal_has : (a b : d.Av) (p : State) → d.equal a b ≡ true → snd.Has b p → snd.Has a p
  pub at_least_holds :
      (a : d.Av) (k : DimensionKey) (s : Bool) (p : State)
      → snd.Has (d.add_constraint a (at_least k s)) p
      → snd.Has a p × Satisfies (at_least k s) p
  pub at_most_holds :
      (a : d.Av) (k : DimensionKey) (s : Bool) (p : State)
      → snd.Has (d.add_constraint a (at_most k s)) p
      → snd.Has a p × Satisfies (at_most k s) p
  pub wrap_keeps :
      (a : d.Av) (m : VocabularySignedness) (p : State)
      → InRange m p
      → snd.Has a p
      → snd.Has (d.wrap a m) p

-- Every constraint is exact: its value has no step that does not satisfy it. Convex polyhedra are
-- such a domain; values that hold equalities only, and octagons, drop constraints.
pub record KeepsConstraints (d : Domain) (snd : IsSoundDomain d) : Type 0 where
  pub constraint_holds :
      (a : d.Av) (c : Constraint) (p : State)
      → snd.Has (d.add_constraint a c) p
      → snd.Has a p × Satisfies c p

-- A step of a wrapped value.
pub record Holds (d : Domain) (snd : IsSoundDomain d) (w : Wrapped d) (p : State) : Type 0 where
  pub sorted : IsMap w.wrapped_voc
  pub fits : InRange w.wrapped_voc p
  pub has : snd.Has w.av p

abbrev pub Same : (d : Domain) → Wrapped d → Wrapped d → Type 0
Same d this r = (r.av ≡ this.av) × (r.voc ≡ this.voc)

pub unit_sum : (z : ℤ) → pos 1 *ℤ z +ℤ pos 0 ≡ z
unfolding ◌*ℤ◌
unit_sum z = eq_of_parts _ _ ground (arith, +ℤ_parts (pos 1 *ℤ z) (pos 0))

fits_once :
    (e : Bool) (o : Option Bool) (s t : Bool)
    → first o (at_key e (some s) none) ≡ some t
    → (o ≡ some t) ⊎ ((e ≡ true) × (s ≡ t))
fits_once e (some u) s t h = inl h
fits_once true none s t h = inr (refl, ground arith)
fits_once false none s t h = ground arith

pub insert-InRange :
    (k : DimensionKey) (s : Bool) (m : VocabularySignedness) (p : State)
    → IsMap m
    → InRange m p
    → Within k s (p k)
    → InRange (insert k s m) p
insert-InRange k s m p h fits range q t e =
    elim (fits_once (eqb q k) (find q m) s t (sym (find-insert q k s m h) ∙ e)) [
      | inl f ↦ fits q t f
      | inr (same, f) ↦
          subst (λ j. Within j t (p j)) (sym (eq_of_eqb q k same))
            (subst (λ u. Within k u (p k)) f range)
    ]

module _ (gmp : Gmp) (width : ℕ) (laws : IsGmp width gmp) (d : Domain) (snd : IsSoundDomain d)
    (exact : IsExact d snd) where
  bounded-InRange :
      (a : d.Av) (k : DimensionKey) (s : Bool) (p : State)
      → snd.Has (bounded d a k s) p
      → Within k s (p k)
  bounded-InRange a k s p h =
      let high = exact.at_most_holds _ k s p h in
      let low = exact.at_least_holds _ k s p high.0 in
      (
        subst (λ z. least k.bitsize s ≤ℤ z) (unit_sum (p k)) low.1,
        subst (λ z. z ≤ℤ largest k.bitsize s) (unit_sum (p k)) high.1,
      )

  mark-Holds :
      (this : Wrapped d) (a : d.Av) (k : DimensionKey) (s : Bool) (p : State)
      → d.equal (bounded d a k s) this.av ≡ true
      → Holds d snd this p
      → Holds d snd (mark_wrapped d this k s) p
  unfolding mark_wrapped
  mark-Holds this a k s p same h = record {
    sorted = insert-IsMap k s this.wrapped_voc h.sorted;
    fits =
        insert-InRange k s this.wrapped_voc p h.sorted h.fits
          (bounded-InRange a k s p (exact.equal_has _ this.av p same h.has));
    has = h.has;
  }

  mark-Same :
      (this : Wrapped d) (k : DimensionKey) (s : Bool) → Same d this (mark_wrapped d this k s)
  unfolding mark_wrapped
  mark-Same this k s = (refl, refl)

  update_dimension-Holds :
      (this : Wrapped d) (k : DimensionKey) (av_cp : d.Av) (p : State)
      → Holds d snd this p
      → (r : Wrapped d × d.Av) × (update_dimension gmp d this k av_cp ≡ ok r)
        × Holds d snd r.0 p
        × Same d this r.0
  unfolding update_dimension
  update_dimension-Holds this k av_cp p h =
      let u = bound_dimension_lem gmp width laws d av_cp k true in
      let v = bound_dimension_lem gmp width laws d this.av k false in
      elim (Option-cases (find k this.wrapped_voc)) [
        | inl e ↦ elim (Bool-cases (d.equal (bounded d av_cp k true) this.av)) [
          | inl x ↦ (
            (mark_wrapped d this k true, bounded d av_cp k true),
            rw (e, u, v, x, update_dimension) refl,
            mark-Holds this av_cp k true p x h,
            mark-Same this k true,
          )
          | inr x ↦ elim (Bool-cases (d.equal (bounded d this.av k false) this.av)) [
            | inl y ↦ (
              (mark_wrapped d this k false, bounded d this.av k false),
              rw (e, u, v, x, y, update_dimension) refl,
              mark-Holds this this.av k false p y h,
              mark-Same this k false,
            )
            | inr y ↦ ((this, this.av), rw (e, u, v, x, y, update_dimension) refl, h, (refl, refl))
          ]
        ]
        | inr (s, e) ↦ ((this, av_cp), rw (e, update_dimension) refl, h, (refl, refl))
      ]

  update_dimensions-Holds :
      (this : Wrapped d) (voc : Vocabulary) (av_cp : d.Av) (p : State)
      → Holds d snd this p
      → (r : Wrapped d × d.Av) × (update_dimensions gmp d this voc av_cp ≡ ok r)
        × Holds d snd r.0 p
        × Same d this r.0
  unfolding update_dimensions
  update_dimensions-Holds this [] av_cp p h = ((this, av_cp), refl, h, (refl, refl))
  update_dimensions-Holds this (k ∷ voc) av_cp p h =
      let first = update_dimension-Holds this k av_cp p h in
      let rest = update_dimensions-Holds first.0.0 voc first.0.1 p first.2 in
      (
        rest.0,
        rw (first.1, update_dimensions) rest.1,
        rest.2,
        (rest.3.0 ∙ first.3.0, rest.3.1 ∙ first.3.1),
      )

  pub update_vocabulary_signedness-Holds :
      (this : Wrapped d) (voc : Vocabulary) (p : State)
      → Holds d snd this p
      → (r : Wrapped d) × (update_vocabulary_signedness gmp d this voc ≡ ok r)
        × Holds d snd r p
        × Same d this r
  unfolding update_vocabulary_signedness
  update_vocabulary_signedness-Holds this voc p h =
      let u = update_dimensions-Holds this voc this.av p h in (u.0.0, rw u.1 refl, u.2, u.3)

  pub add_constraint-Holds :
      (this : Wrapped d) (c : Constraint) (p : State)
      → Satisfies c p
      → Holds d snd this p
      → (r : Wrapped d) × (add_constraint gmp d this c ≡ ok r)
        × Holds d snd r p
        × Same d (record this { av = d.add_constraint this.av c }) r
  unfolding add_constraint
  add_constraint-Holds this c p sat h =
      update_vocabulary_signedness-Holds (record this { av = d.add_constraint this.av c }) _ p
        (record {
          sorted = h.sorted;
          fits = h.fits;
          has = snd.add_constraint_keeps this.av c p h.has sat;
        })
