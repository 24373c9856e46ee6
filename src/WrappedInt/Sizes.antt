-- ===== src/WrappedInt/Sizes.antt =====
-- Reading a variable into an integer, assigning one to a variable, and extending it.
use sound_bit_precise_domain.Prelude.{
  ◌≡◌, refl, sym, ap, subst, ◌∙◌, Bool, true, false, ok, inl, inr, Option-cases, arith, ◌≤◌,
  if◌then◌else◌,
}
use sound_bit_precise_domain.Prelude.Int.{ℤ, ◌≤ℤ◌}
use sound_bit_precise_domain.Container.{IsSorted, eqb, eq_of_eqb}
use sound_bit_precise_domain.Container.SortedSet.{contains}
use sound_bit_precise_domain.Container.SortedSet
use sound_bit_precise_domain.Container.SortedMap.{find, insert-IsMap}
use sound_bit_precise_domain.Value.{Bitsize, get_bit_width}
use sound_bit_precise_domain.Mpz.Convert.{least, largest}
use sound_bit_precise_domain.Dimension.Key.{DimensionKey, key_ord}
use sound_bit_precise_domain.Dimension.Vocabulary.{Vocabulary}
use sound_bit_precise_domain.Wrapped.Meaning.{State}
use sound_bit_precise_domain.Wrapped.Record.{
  Wrapped, add_vocabulary, mark_wrapped, is_wrapped, from_parts,
}
use sound_bit_precise_domain.Wrapped.Lattice.{project, havoc, add_equality}
use sound_bit_precise_domain.WrappedInt.Setting.{Setting}
use sound_bit_precise_domain.WrappedInt.Record.{
  WrappedInt, get_temp_key, singleton, same_value, new_int, add_dimension, remove_dimension,
  remove_vocabulary, mark_like, of_variable, assigned, assign_to_one_voc, wrap_int,
}
use sound_bit_precise_domain.WrappedInt.Bits.{trunc, sign_extend, zero_extend}
use sound_bit_precise_domain.WrappedInt.Meaning.{
  Within, Holds, add_constraint-Holds, insert-InRange,
}
use sound_bit_precise_domain.WrappedInt.Keep.{
  add_vocabulary-Holds, havoc-Holds, project-Holds, remove_vocabulary-Holds,
}
use sound_bit_precise_domain.WrappedInt.Sound.{IsSound, IsFresh}
use sound_bit_precise_domain.WrappedInt.Set.{
  set, set_same, set_other, not_in_singleton, in_singleton,
}
use sound_bit_precise_domain.WrappedInt.Transform.{same_value-Satisfies, fresh-Holds}
use sound_bit_precise_domain.WrappedInt.Comparisons.{IsFlagged, wrapped_stays}
use sound_bit_precise_domain.WrappedInt.Quotient.{add_equality-Holds}

-- The range of a type lies in that of a type that is not smaller.
widen-range :
    (a b : Bitsize) (sgn : Bool) (z : ℤ)
    → get_bit_width a ≤ get_bit_width b
    → (least a sgn ≤ℤ z) × (z ≤ℤ largest a sgn)
    → (least b sgn ≤ℤ z) × (z ≤ℤ largest b sgn)
unfolding get_bit_width
widen-range a b sgn z wider h = ground arith

module _ (s : Setting) (sound : IsSound s) where
  -- A dimension of the same size and value gets the record of another one.
  mark_like-Holds :
      (w : Wrapped s.d) (from to : DimensionKey) (p : State)
      → from.bitsize ≡ to.bitsize
      → p from ≡ p to
      → Holds s.d sound.snd w p
      → Holds s.d sound.snd (mark_like s w from to) p
        × ((mark_like s w from to).voc ≡ w.voc)
        × ((mark_like s w from to).av ≡ w.av)
  unfolding mark_like is_wrapped mark_wrapped
  mark_like-Holds w from to p size same h = elim (Option-cases (find from w.wrapped_voc)) [
    | inl e ↦ rw (e, mark_like) (h, refl, refl)
    | inr (sgn, e) ↦
        rw (e, mark_like)
          (
            record {
              sorted = insert-IsMap to sgn w.wrapped_voc h.sorted;
              fits = insert-InRange to sgn w.wrapped_voc p h.sorted h.fits (
                  subst (λ z. (least to.bitsize sgn ≤ℤ z) × (z ≤ℤ largest to.bitsize sgn)) same
                    (subst (λ b. (least b sgn ≤ℤ p from) × (p from ≤ℤ largest b sgn)) size
                      (h.fits from sgn e)));
              has = h.has;
            },
            refl,
            refl,
          )
  ]

  -- `assign_to_one_voc` gives the variable the integer's value and keeps the rest of the step,
  -- for a variable of the integer's size.
  pub assign_to_one_voc_has :
      (this : WrappedInt s) (var : DimensionKey) (p : State)
      → eqb this.k var ≡ false
      → this.k.bitsize ≡ var.bitsize
      → contains this.k (s.d.get_vocabulary this.wav.av) ≡ true
      → Holds s.d sound.snd this.wav p
      → (r : Wrapped s.d) × (assign_to_one_voc s this var ≡ ok r)
        × Holds s.d sound.snd r (set p var (p this.k))
  unfolding assign_to_one_voc assigned remove_dimension remove_vocabulary havoc from_parts
  assign_to_one_voc_has this var p apart size there h =
      let k = this.k in
      let q = set p var (p k) in
      let w = havoc s.d this.wav (singleton var) in
      let same : q k ≡ q var = set_other p var (p k) k apart ∙ sym (set_same p var (p k)) in
      let u =
        add_constraint-Holds s.gmp sound.width sound.laws s.d sound.snd sound.exact w
          (same_value k var) q (same_value-Satisfies k var q same)
          (havoc-Holds s.d sound.snd sound.exact this.wav (singleton var) p q
            (λ j e. set_other p var (p k) j (not_in_singleton j var e)) h) in
      let m = mark_like-Holds u.0 k var q size same u.2 in
      let level = m.1 ∙ u.3.1 in
      (
        remove_dimension s (mark_like s u.0 k var) k,
        rw u.1 refl,
        remove_vocabulary-Holds s.d sound.snd sound.exact (mark_like s u.0 k var) (singleton k) q q
            (subst IsSorted (sym level) (sound.dims.vocabulary-IsSorted _))
            (λ j e.
              subst (λ i. contains i (mark_like s u.0 k var).voc ≡ true)
                (sym (eq_of_eqb j k (in_singleton j k e)))
                (ap (contains k) level
                  ∙ sound.dims.havoc_covers this.wav.av (singleton var) k there))
            (λ j e. refl) m.0,
      )

  -- `of_variable` gives an integer with the value of the variable, for a variable of the
  -- integer's size, and keeps the step.
  pub of_variable_has :
      (weight : Wrapped s.d) (var : DimensionKey) (prevoc : Vocabulary) (p : State)
      → eqb var (get_temp_key var.bitsize 0) ≡ false
      → IsFresh s.d weight (get_temp_key var.bitsize 0)
      → Holds s.d sound.snd weight p
      → (r : WrappedInt s) × (of_variable s weight var prevoc ≡ ok r)
        × Holds s.d sound.snd r.wav (set p r.k (p var))
        × (set p r.k (p var) r.k ≡ p var)
  unfolding of_variable add_dimension new_int get_temp_key
  of_variable_has weight var prevoc p apart fresh h =
      let k = get_temp_key var.bitsize 0 in
      let q = set p k (p var) in
      let same : q var ≡ q k = set_other p k (p var) var apart ∙ sym (set_same p k (p var)) in
      let u =
        add_constraint-Holds s.gmp sound.width sound.laws s.d sound.snd sound.exact
          (add_vocabulary s.d weight (singleton k)) (same_value k var) q
          (same_value-Satisfies k var q (sym same))
          (add_vocabulary-Holds s.d sound.snd sound.exact weight (singleton k) q
            (fresh-Holds s sound weight k p (p var) fresh h)) in
      let m = mark_like-Holds u.0 var k q refl same u.2 in
      (
        new_int s (project s.d (mark_like s u.0 var k) (SortedSet.insert k prevoc)) k,
        rw u.1 refl,
        project-Holds s.d sound.snd sound.exact (mark_like s u.0 var k) (SortedSet.insert k prevoc)
            q m.0,
        set_same p k (p var),
      )

  -- The value moves to a dimension of another size that it fits.
  trunc_has :
      (this : WrappedInt s) (b : Bitsize) (p : State)
      → eqb this.k (get_temp_key b 0) ≡ false
      → IsFresh s.d this.wav (get_temp_key b 0)
      → contains this.k (s.d.get_vocabulary this.wav.av) ≡ true
      → ((sgn : Bool) → Within this.k sgn (p this.k) → Within (get_temp_key b 0) sgn (p this.k))
      → Holds s.d sound.snd this.wav p
      → Holds s.d sound.snd (trunc s this b).wav (set p (get_temp_key b 0) (p this.k))
  unfolding trunc add_dimension add_vocabulary remove_dimension remove_vocabulary add_equality
  trunc_has this b p apart fresh there fits h =
      let k = this.k in
      let j = get_temp_key b 0 in
      let q = set p j (p k) in
      let at_k : q k ≡ p k = set_other p j (p k) k apart in
      let w = add_vocabulary s.d this.wav (singleton j) in
      let at_j : q j ≡ p k = set_same p j (p k) in
      let e =
        add_equality-Holds s sound w k j q fresh.unmarked
          (λ sgn range.
            subst (Within j sgn) (sym at_j) (fits sgn (subst (Within k sgn) at_k range)))
          (at_k ∙ sym at_j)
          (add_vocabulary-Holds s.d sound.snd sound.exact this.wav (singleton j) q
            (fresh-Holds s sound this.wav j p (p k) fresh h)) in
      remove_vocabulary-Holds s.d sound.snd sound.exact (add_equality s.d w k j) (singleton k) q q
        (sound.dims.vocabulary-IsSorted _)
        (λ i m.
          subst (λ z. contains z w.voc ≡ true) (sym (eq_of_eqb i k (in_singleton i k m)))
            (sound.dims.add_vocabulary_covers this.wav.av (singleton j) k there))
        (λ i m. refl) e

  -- Sign and zero extension of an integer that is wrapped with that sign keep its value, on the
  -- dimension of the new size, which is not smaller.
  pub extended_has :
      (this : WrappedInt s) (b : Bitsize) (is_signed : Bool) (p : State)
      → IsFlagged s sound this is_signed
      → eqb this.k (get_temp_key b 0) ≡ false
      → IsFresh s.d this.wav (get_temp_key b 0)
      → contains this.k (s.d.get_vocabulary this.wav.av) ≡ true
      → get_bit_width this.k.bitsize ≤ get_bit_width b
      → Holds s.d sound.snd this.wav p
      → (r : WrappedInt s) × ((if is_signed then sign_extend s this b else zero_extend s this b)
          ≡ ok r)
        × (r.k ≡ get_temp_key b 0)
        × Holds s.d sound.snd r.wav (set p r.k (p this.k))
  unfolding sign_extend zero_extend trunc get_temp_key
  extended_has this b true p w apart fresh there wider h = (
    trunc s this b,
    rw (wrapped_stays s sound this true w) refl,
    refl,
    trunc_has this b p apart fresh there
        (λ sgn range. widen-range this.k.bitsize b sgn (p this.k) wider range) h,
  )
  extended_has this b false p w apart fresh there wider h = (
    trunc s this b,
    rw (wrapped_stays s sound this false w) refl,
    refl,
    trunc_has this b p apart fresh there
        (λ sgn range. widen-range this.k.bitsize b sgn (p this.k) wider range) h,
  )

  -- An integer that is wrapped stays marked as wrapped when it is cut to a smaller size: it is
  -- not wrapped to that size again, and extending the result with the same sign only moves the
  -- old value on.
  pub trunc_stays_wrapped :
      (this : WrappedInt s) (b c : Bitsize) (is_signed : Bool)
      → IsFlagged s sound this is_signed
      → (wrap_int s (trunc s this b) is_signed ≡ ok (trunc s this b))
        × ((if is_signed
              then sign_extend s (trunc s this b) c
              else zero_extend s (trunc s this b) c)
            ≡ ok (trunc s (trunc s this b) c))
  unfolding sign_extend zero_extend trunc
  trunc_stays_wrapped this b c true w = (
    wrapped_stays s sound (trunc s this b) true w,
    rw (wrapped_stays s sound (trunc s this b) true w) refl,
  )
  trunc_stays_wrapped this b c false w = (
    wrapped_stays s sound (trunc s this b) false w,
    rw (wrapped_stays s sound (trunc s this b) false w) refl,
  )
