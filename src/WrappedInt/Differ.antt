-- ===== src/WrappedInt/Differ.antt =====
-- Equality of two integers and its negation, on every step in which they hold.
use sound_bit_precise_domain.Prelude.{◌≡◌, refl, sym, ap, subst, ◌∙◌, true, [], ok}
use sound_bit_precise_domain.Prelude.Int.{pos, negsuc, ◌+ℤ◌, ◌≤ℤ◌}
use sound_bit_precise_domain.Container.{IsSorted, eq_of_eqb}
use sound_bit_precise_domain.Container.SortedSet.{contains}
use sound_bit_precise_domain.Container.SortedMap
use sound_bit_precise_domain.Dimension.Key.{DimensionKey, key_ord}
use sound_bit_precise_domain.Wrapped.Domain.{Affexp, Constraint, ge, le}
use sound_bit_precise_domain.Wrapped.Meaning.{State}
use sound_bit_precise_domain.Wrapped.Record.{Wrapped}
use sound_bit_precise_domain.Wrapped.Lattice
use sound_bit_precise_domain.WrappedInt.Setting.{Setting}
use sound_bit_precise_domain.WrappedInt.Record.{
  WrappedInt, get_temp_key, of_integer, singleton, remove_dimension, remove_vocabulary, meet,
}
use sound_bit_precise_domain.WrappedInt.Compare.{abs_equal}
use sound_bit_precise_domain.WrappedInt.Meaning.{Holds}
use sound_bit_precise_domain.WrappedInt.Keep.{meet-Holds, remove_vocabulary-Holds}
use sound_bit_precise_domain.WrappedInt.Sound.{IsSound}
use sound_bit_precise_domain.WrappedInt.Set.{in_singleton}
use sound_bit_precise_domain.WrappedInt.Combine.{pair_of}
use sound_bit_precise_domain.WrappedInt.Ordered.{IsCompared}
use sound_bit_precise_domain.WrappedInt.Comparisons.{IsFlagged, wrapped_stays}

-- The two constraints of `abs_not_equal`.
abbrev differs_by : DimensionKey → DimensionKey → Affexp
differs_by k t = (SortedMap.insert t (negsuc 0) (SortedMap.insert k (pos 1) []), pos 0)

abbrev above : DimensionKey → DimensionKey → Constraint
above k t = record { lhs = ((differs_by k t).0, negsuc 0); rhs = of_integer (pos 0); op = ge }

abbrev below : DimensionKey → DimensionKey → Constraint
below k t = record { lhs = ((differs_by k t).0, pos 1); rhs = of_integer (pos 0); op = le }

module _ (s : Setting) (sound : IsSound s) where
  -- The value is what is left of the join of two, once both dimensions are removed. In the steps of
  -- the one, the temporary dimension, which holds the first integer, is below the dimension of the
  -- second integer, and in those of the other it is above.
  abbrev pub IsApartJoin : Wrapped s.d → DimensionKey → Type 0
  IsApartJoin r k =
      (a : Wrapped s.d) × (b : Wrapped s.d) × (r
        ≡ remove_vocabulary s (Lattice.join s.d a b) (pair_of k (get_temp_key k.bitsize 1)))
      × ((v : State) → sound.snd.Has a.av v → v (get_temp_key k.bitsize 1) +ℤ pos 1 ≤ℤ v k)
      × ((v : State) → sound.snd.Has b.av v → v k +ℤ pos 1 ≤ℤ v (get_temp_key k.bitsize 1))

  -- `abs_equal` has every step that both integers have with the same value.
  pub equal_has :
      (this that : WrappedInt s) (p : State)
      → IsFlagged s sound this true
      → IsFlagged s sound that true
      → IsCompared s sound this this.k p
      → IsCompared s sound that this.k p
      → (r : Wrapped s.d) × (abs_equal s this that ≡ ok r) × Holds s.d sound.snd r p
  unfolding abs_equal meet remove_dimension remove_vocabulary
  equal_has this that p w w2 h h2 =
      let k = this.k in
      let m =
        meet-Holds s.d sound.snd sound.exact s.gmp sound.width sound.laws sound.dims
          s.disable_wrapping this.wav that.wav p h.holds h2.holds in
      (
        remove_dimension s m.0 k,
        rw (wrapped_stays s sound this true w, wrapped_stays s sound that true w2, m.1) refl,
        remove_vocabulary-Holds s.d sound.snd sound.exact m.0 (singleton k) p p
            (subst IsSorted (sym m.3) (sound.dims.vocabulary-IsSorted m.0.av))
            (λ j e.
              subst (λ i. contains i m.0.voc ≡ true) (sym (eq_of_eqb j k (in_singleton j k e)))
                (ap (contains k) m.3 ∙ m.4 k h.there))
            (λ j e. refl) m.2,
      )
