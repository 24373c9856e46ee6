-- ===== src/Wrapped/Update.antt =====
-- The search for bounded dimensions never faults, and only adds to the record.
use sound_bit_precise_domain.Prelude.{
  ℕ, ◌≡◌, refl, ap, ◌∙◌, Bool, true, false, [], ◌∷◌, inl, inr, Option-cases, none, some,
  if◌then◌else◌, ok,
}
use sound_bit_precise_domain.Container.{eqb}
use sound_bit_precise_domain.Container.SortedMap.{
  IsMap, find, insert, first, at_key, find-insert, insert-IsMap,
}
use sound_bit_precise_domain.Dimension.Key.{DimensionKey, key_ord}
use sound_bit_precise_domain.Dimension.Vocabulary.{Vocabulary}
use sound_bit_precise_domain.Signedness.{VocabularySignedness}
use sound_bit_precise_domain.Mpz.{Gmp, IsGmp}
use sound_bit_precise_domain.Mpz.Convert.{least, largest, bounds_of_size}
use sound_bit_precise_domain.Wrapped.Domain.{Domain, Constraint, ge, le}
use sound_bit_precise_domain.Prelude.Int.{pos}
use sound_bit_precise_domain.Wrapped.Record.{Wrapped, mark_wrapped}
use sound_bit_precise_domain.Wrapped.Bounding.{
  get_min_bounding_constraint, get_max_bounding_constraint, bound_dimension, update_dimension,
  update_dimensions, update_vocabulary_signedness, add_constraint,
}

-- The record of `r` is a map that has all of the record `m`.
pub record Extends (m r : VocabularySignedness) : Type 0 where
  pub sorted : IsMap r
  pub keeps : (q : DimensionKey) (s : Bool) → find q m ≡ some s → find q r ≡ some s

pub Extends-refl : (m : VocabularySignedness) → IsMap m → Extends m m
Extends-refl m h = record { sorted = h; keeps = λ q s e. e }

pub Extends-trans : (l m n : VocabularySignedness) → Extends l m → Extends m n → Extends l n
Extends-trans l m n h k = record { sorted = k.sorted; keeps = λ q s e. k.keeps q s (h.keeps q s e) }

insert-Extends :
    (k : DimensionKey) (s : Bool) (m : VocabularySignedness) → IsMap m → Extends m (insert k s m)
insert-Extends k s m h = record {
  sorted = insert-IsMap k s m h;
  keeps = λ q t e. find-insert q k s m h ∙ ap (λ o. first o (at_key (eqb q k) (some s) none)) e;
}

-- The two constraints of the range of the dimension's type, and a value with both added.
abbrev pub at_least : DimensionKey → Bool → Constraint
at_least k s = record { lhs = ((k, pos 1) ∷ [], pos 0); rhs = ([], least k.bitsize s); op = ge }

abbrev pub at_most : DimensionKey → Bool → Constraint
at_most k s = record { lhs = ((k, pos 1) ∷ [], pos 0); rhs = ([], largest k.bitsize s); op = le }

abbrev pub bounded : (d : Domain) → d.Av → DimensionKey → Bool → d.Av
bounded d a k s = d.add_constraint (d.add_constraint a (at_least k s)) (at_most k s)

module _ (gmp : Gmp) (width : ℕ) (laws : IsGmp width gmp) (d : Domain) where
  pub bound_dimension_lem :
      (a : d.Av) (k : DimensionKey) (s : Bool) → bound_dimension gmp d a k s ≡ ok (bounded d a k s)
  unfolding bound_dimension get_min_bounding_constraint get_max_bounding_constraint
  bound_dimension_lem a k s =
      let b = bounds_of_size gmp width laws k.bitsize s in rw (b.0, b.1) refl

  -- What the loop changes: nothing but the record.
  abbrev Grows : Wrapped d → Wrapped d → Type 0
  Grows this r = (r.av ≡ this.av) × (r.voc ≡ this.voc) × Extends this.wrapped_voc r.wrapped_voc

  Grows-refl : (this : Wrapped d) → IsMap this.wrapped_voc → Grows this this
  Grows-refl this h = (refl, refl, Extends-refl this.wrapped_voc h)

  Grows-trans : (a b c : Wrapped d) → Grows a b → Grows b c → Grows a c
  Grows-trans a b c h k =
      (k.0 ∙ h.0, k.1 ∙ h.1, Extends-trans a.wrapped_voc b.wrapped_voc c.wrapped_voc h.2 k.2)

  mark-Grows :
      (this : Wrapped d) (k : DimensionKey) (s : Bool)
      → IsMap this.wrapped_voc
      → Grows this (mark_wrapped d this k s)
  unfolding mark_wrapped
  mark-Grows this k s h = (refl, refl, insert-Extends k s this.wrapped_voc h)

  abbrev pick : Wrapped d → DimensionKey → d.Av → d.Av → Bool → Bool → Wrapped d × d.Av
  pick this k a b x y =
      if x
      then (mark_wrapped d this k true, a)
      else if y
      then (mark_wrapped d this k false, b)
      else (this, this.av)

  pick-Grows :
      (this : Wrapped d) (k : DimensionKey) (a b : d.Av) (x y : Bool)
      → IsMap this.wrapped_voc
      → Grows this (pick this k a b x y).0
  pick-Grows this k a b true y h = mark-Grows this k true h
  pick-Grows this k a b false true h = mark-Grows this k false h
  pick-Grows this k a b false false h = Grows-refl this h

  update_dimension_total :
      (this : Wrapped d) (k : DimensionKey) (av_cp : d.Av)
      → IsMap this.wrapped_voc
      → (r : Wrapped d × d.Av) × (update_dimension gmp d this k av_cp ≡ ok r) × Grows this r.0
  unfolding update_dimension
  update_dimension_total this k av_cp h =
      let u = bound_dimension_lem av_cp k true in
      let v = bound_dimension_lem this.av k false in
      let a = bounded d av_cp k true in
      let b = bounded d this.av k false in
      elim (Option-cases (find k this.wrapped_voc)) [
        | inl e ↦ (
          pick this k a b (d.equal a this.av) (d.equal b this.av),
          rw (e, u, v, update_dimension) refl,
          pick-Grows this k a b (d.equal a this.av) (d.equal b this.av) h,
        )
        | inr (s, e) ↦ ((this, av_cp), rw (e, update_dimension) refl, Grows-refl this h)
      ]

  update_dimensions_total :
      (this : Wrapped d) (voc : Vocabulary) (av_cp : d.Av)
      → IsMap this.wrapped_voc
      → (r : Wrapped d × d.Av) × (update_dimensions gmp d this voc av_cp ≡ ok r) × Grows this r.0
  unfolding update_dimensions
  update_dimensions_total this [] av_cp h = ((this, av_cp), refl, Grows-refl this h)
  update_dimensions_total this (k ∷ voc) av_cp h =
      let first = update_dimension_total this k av_cp h in
      let rest = update_dimensions_total first.0.0 voc first.0.1 first.2.2.sorted in
      (
        rest.0,
        rw (first.1, update_dimensions) rest.1,
        Grows-trans this first.0.0 rest.0.0 first.2 rest.2,
      )

  -- `UpdateVocabularySignedness` never faults and changes nothing but the record, which keeps
  -- every dimension that it has, with its sign. This holds for records that are maps, with the
  -- functions of GMP as documented.
  pub update_vocabulary_signedness_total :
      (this : Wrapped d) (voc : Vocabulary)
      → IsMap this.wrapped_voc
      → (r : Wrapped d) × (update_vocabulary_signedness gmp d this voc ≡ ok r)
        × (r.av ≡ this.av)
        × (r.voc ≡ this.voc)
        × Extends this.wrapped_voc r.wrapped_voc
  unfolding update_vocabulary_signedness
  update_vocabulary_signedness_total this voc h =
      let u = update_dimensions_total this voc this.av h in
      (u.0.0, rw u.1 refl, u.2.0, u.2.1, u.2.2)

  pub add_constraint_total :
      (this : Wrapped d) (c : Constraint)
      → IsMap this.wrapped_voc
      → (r : Wrapped d) × (add_constraint gmp d this c ≡ ok r)
        × (r.av ≡ d.add_constraint this.av c)
        × (r.voc ≡ this.voc)
        × Extends this.wrapped_voc r.wrapped_voc
  unfolding add_constraint
  add_constraint_total this c h =
      update_vocabulary_signedness_total (record this { av = d.add_constraint this.av c }) _ h
