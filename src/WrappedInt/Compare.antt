-- ===== src/WrappedInt/Compare.antt =====
-- Comparisons of two integers, as the abstract value of the states in which they hold, and the
-- Boolean operations on such values.
use sound_bit_precise_domain.Prelude.{Bool, true, [], Result, ok, ◌>>=◌}
use sound_bit_precise_domain.Prelude.Int.{pos, negsuc}
use sound_bit_precise_domain.Container.SortedSet
use sound_bit_precise_domain.Container.SortedMap
use sound_bit_precise_domain.Dimension.Key.{DimensionKey, key_ord}
use sound_bit_precise_domain.Wrapped.Domain.{ge, le}
use sound_bit_precise_domain.Wrapped.Record.{Wrapped}
use sound_bit_precise_domain.Wrapped.Bounding.{add_constraint}
use sound_bit_precise_domain.Wrapped.Lattice
use sound_bit_precise_domain.WrappedInt.Setting.{Setting}
use sound_bit_precise_domain.WrappedInt.Record.{
  WrappedInt, get_temp_key, of_key, singleton, add_dimension, remove_dimension, remove_vocabulary,
  add_constraint_no_rhs, wrap_int, meet,
}
use sound_bit_precise_domain.WrappedInt.Linear.{move_key, plus_constant}

module _ (s : Setting) where
  unfoldable pub abs_equal : WrappedInt s → WrappedInt s → Result (Wrapped s.d)
  abs_equal this that = do
    this_wrapped ← wrap_int s this true
    that_wrapped ← wrap_int s that true
    met ← meet s this_wrapped that_wrapped
    ok (remove_dimension s met.wav this.k)

  -- `this` with its dimension replaced by `temp1`, met with `that`.
  unfoldable pub side_by_side : WrappedInt s → WrappedInt s → DimensionKey → Result (Wrapped s.d)
  side_by_side this that temp1 = do
    moved ← move_key s (add_dimension s this.wav temp1) this.k temp1
    Lattice.meet s.d s.gmp s.disable_wrapping moved (add_dimension s that.wav temp1)

  unfoldable pub abs_not_equal : WrappedInt s → WrappedInt s → Result (Wrapped s.d)
  abs_not_equal this that = do
    let temp1 = get_temp_key this.k.bitsize 1
    this_wrapped ← wrap_int s this true
    that_wrapped ← wrap_int s that true
    m ← side_by_side this_wrapped that_wrapped temp1
    let difference = SortedMap.insert temp1 (negsuc 0) (SortedMap.insert this.k (pos 1) [])
    m1 ← add_constraint_no_rhs s m (difference, negsuc 0) ge
    m2 ← add_constraint_no_rhs s m (difference, pos 1) le
    ok (remove_vocabulary s (Lattice.join s.d m1 m2) (SortedSet.insert temp1 (singleton this.k)))

  unfoldable pub less_than_or_equal_no_wrapping :
      WrappedInt s → WrappedInt s → Bool → Result (Wrapped s.d)
  less_than_or_equal_no_wrapping this that is_signed = do
    let temp1 = get_temp_key this.k.bitsize 1
    m ← side_by_side this that temp1
    ordered ←
        add_constraint s.gmp s.d m (record { lhs = of_key temp1; rhs = of_key this.k; op = le })
    ok (remove_vocabulary s ordered (SortedSet.insert temp1 (singleton this.k)))

  -- `less_than_signed` and `less_than_unsigned`, by the sign.
  unfoldable pub less_than : Bool → WrappedInt s → WrappedInt s → Result (Wrapped s.d)
  less_than is_signed this that = do
    this_wrapped ← wrap_int s this is_signed
    that_wrapped ← wrap_int s that is_signed
    this_wrapped_plus_1 ← plus_constant s this_wrapped (pos 1)
    less_than_or_equal_no_wrapping this_wrapped_plus_1 that_wrapped is_signed

  unfoldable pub less_than_or_equal : Bool → WrappedInt s → WrappedInt s → Result (Wrapped s.d)
  less_than_or_equal is_signed this that = do
    this_wrapped ← wrap_int s this is_signed
    that_wrapped ← wrap_int s that is_signed
    less_than_or_equal_no_wrapping this_wrapped that_wrapped is_signed

  unfoldable pub boolean_and : Wrapped s.d → Wrapped s.d → Result (Wrapped s.d)
  boolean_and b1 b2 = Lattice.meet s.d s.gmp s.disable_wrapping b1 b2

  unfoldable pub boolean_or : Wrapped s.d → Wrapped s.d → Wrapped s.d
  boolean_or b1 b2 = Lattice.join s.d b1 b2

  unfoldable pub boolean_not : Wrapped s.d → Result (Wrapped s.d)
  boolean_not b1 = Lattice.top s.d s.gmp s.disable_wrapping b1

  unfoldable pub boolean_xor : Wrapped s.d → Wrapped s.d → Result (Wrapped s.d)
  boolean_xor b1 b2 = do
    not_b1 ← boolean_not b1
    not_b2 ← boolean_not b2
    not_b1_and_b2 ← boolean_and not_b1 b2
    b1_and_not_b2 ← boolean_and b1 not_b2
    ok (boolean_or not_b1_and_b2 b1_and_not_b2)
