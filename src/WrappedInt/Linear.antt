-- ===== src/WrappedInt/Linear.antt =====
-- Linear transformations and combinations of integers, and the operations built on them.
use sound_bit_precise_domain.Prelude.{[], none, some, Result, ok, ◌>>=◌}
use sound_bit_precise_domain.Prelude.Int.{ℤ, pos, negsuc, ◌-ℤ◌, ◌*ℤ◌}
use sound_bit_precise_domain.Container.SortedSet
use sound_bit_precise_domain.Container.SortedMap
use sound_bit_precise_domain.Dimension.Key.{DimensionKey, key_ord}
use sound_bit_precise_domain.Wrapped.Domain.{eq}
use sound_bit_precise_domain.Wrapped.Record.{Wrapped, add_vocabulary}
use sound_bit_precise_domain.Wrapped.Bounding.{add_constraint}
use sound_bit_precise_domain.Wrapped.Lattice.{havoc}
use sound_bit_precise_domain.Wrapped.Lattice
use sound_bit_precise_domain.WrappedInt.Setting.{Setting}
use sound_bit_precise_domain.WrappedInt.Record.{
  WrappedInt, get_temp_key, same_value, singleton, new_int, of_const, add_dimension,
  remove_dimension, remove_vocabulary, add_constraint_no_rhs, meet, is_constant, any_value,
}

module _ (s : Setting) where
  -- The dimension `k` is replaced by `temp`: the two are made equal, and `k` is forgotten.
  unfoldable pub move_key : Wrapped s.d → DimensionKey → DimensionKey → Result (Wrapped s.d)
  move_key w k temp = do
    equated ← add_constraint s.gmp s.d w (same_value k temp)
    ok (havoc s.d equated (singleton k))

  unfoldable pub lin_transform : WrappedInt s → ℤ → ℤ → ℤ → Result (WrappedInt s)
  lin_transform this new_coeff old_coeff constant = do
    let old_k = get_temp_key this.k.bitsize 1
    moved ← move_key (add_dimension s this.wav old_k) this.k old_k
    let le_lincomb = SortedMap.insert old_k old_coeff (SortedMap.insert this.k new_coeff [])
    combined ← add_constraint_no_rhs s moved (le_lincomb, constant) eq
    ok (new_int s (remove_dimension s combined old_k) this.k)

  unfoldable pub lin_combine : WrappedInt s → WrappedInt s → ℤ → ℤ → ℤ → ℤ → Result (WrappedInt s)
  lin_combine this that new_coeff this_coeff that_coeff constant = do
    let temp1 = get_temp_key this.k.bitsize 1
    let temp2 = get_temp_key this.k.bitsize 2
    let voc_temp1_2 = SortedSet.insert temp2 (singleton temp1)
    this_av ← move_key (add_vocabulary s.d this.wav voc_temp1_2) this.k temp1
    that_av ← move_key (add_vocabulary s.d that.wav voc_temp1_2) this.k temp2
    met ← Lattice.meet s.d s.gmp s.disable_wrapping this_av that_av
    let le_lincomb =
        SortedMap.insert temp2 that_coeff
          (SortedMap.insert temp1 this_coeff (SortedMap.insert this.k new_coeff []))
    combined ← add_constraint_no_rhs s met (le_lincomb, constant) eq
    ok (new_int s (remove_vocabulary s combined voc_temp1_2) this.k)

  unfoldable pub plus_constant : WrappedInt s → ℤ → Result (WrappedInt s)
  plus_constant this that = lin_transform this (negsuc 0) (pos 1) that

  unfoldable pub plus : WrappedInt s → WrappedInt s → Result (WrappedInt s)
  plus this that = elim (is_constant s that) [
    | some c ↦ plus_constant this c
    | none ↦ elim (is_constant s this) [
      | some c ↦ plus_constant that c
      | none ↦ lin_combine this that (negsuc 0) (pos 1) (pos 1) (pos 0)
    ]
  ]

  unfoldable pub minus_constant : WrappedInt s → ℤ → Result (WrappedInt s)
  minus_constant this that = lin_transform this (negsuc 0) (pos 1) (pos 0 -ℤ that)

  unfoldable pub minus : WrappedInt s → WrappedInt s → Result (WrappedInt s)
  minus this that = elim (is_constant s that) [
    | some c ↦ minus_constant this c
    | none ↦ elim (is_constant s this) [
      | some c ↦ minus_constant that c
      | none ↦ lin_combine this that (negsuc 0) (pos 1) (negsuc 0) (pos 0)
    ]
  ]

  unfoldable pub negate : WrappedInt s → Result (WrappedInt s)
  negate this = lin_transform this (pos 1) (pos 1) (pos 0)

  -- What the operations give that know nothing of the result.
  unfoldable pub any_of_both : WrappedInt s → WrappedInt s → Result (WrappedInt s)
  any_of_both this that = meet s (any_value s this) (any_value s that)

  unfoldable pub times_constant : WrappedInt s → ℤ → Result (WrappedInt s)
  times_constant this that = elim (is_constant s this) [
    | some c ↦ of_const s this (c *ℤ that)
    | none ↦ lin_transform this (negsuc 0) that (pos 0)
  ]

  unfoldable pub times : WrappedInt s → WrappedInt s → Result (WrappedInt s)
  times this that = elim (is_constant s this) [
    | some c ↦ times_constant that c
    | none ↦ elim (is_constant s that) [
      | some c ↦ times_constant this c
      | none ↦ any_of_both this that
    ]
  ]
