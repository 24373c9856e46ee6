-- ===== src/WrappedInt/Divide.antt =====
-- Division and remainder. Constants are divided as machine words of the dimension's size.
use sound_bit_precise_domain.Prelude.{Bool, true, false, [], none, some, Result, ok, ◌>>=◌}
use sound_bit_precise_domain.Prelude.Int.{ℤ, pos, ◌-ℤ◌}
use sound_bit_precise_domain.Container.SortedMap
use sound_bit_precise_domain.Value.{Value, Bitsize}
use sound_bit_precise_domain.Value.Arith.{divide, modulo}
use sound_bit_precise_domain.Value.Signed
use sound_bit_precise_domain.Mpz.{convert_to_mpz, convert_to_value}
use sound_bit_precise_domain.Dimension.Key.{DimensionKey, key_ord}
use sound_bit_precise_domain.Wrapped.Domain.{Affexp, ge, le}
use sound_bit_precise_domain.Wrapped.Record.{Wrapped, mark_wrapped}
use sound_bit_precise_domain.Wrapped.Bounding.{add_constraint}
use sound_bit_precise_domain.Wrapped.Lattice.{havoc, add_equality}
use sound_bit_precise_domain.WrappedInt.Setting.{Setting}
use sound_bit_precise_domain.WrappedInt.Record.{
  WrappedInt, get_temp_key, of_key, singleton, of_const, add_dimension, remove_dimension,
  add_constraint_no_rhs, meet, wrap_int, is_constant, any_value,
}
use sound_bit_precise_domain.WrappedInt.Linear.{any_of_both}

module _ (s : Setting) where
  -- The integer that the machine word of an integer stands for.
  unfoldable pub truncated : ℤ → Bitsize → Bool → Result ℤ
  truncated c b is_signed = convert_to_mpz s.gmp (convert_to_value s.gmp c b is_signed) is_signed

  -- An operator of machine words, on two integers.
  unfoldable pub on_words : (Value → Value → Result Value) → Bitsize → Bool → ℤ → ℤ → Result ℤ
  on_words op b is_signed c that = do
    r ← op (convert_to_value s.gmp c b is_signed) (convert_to_value s.gmp that b is_signed)
    convert_to_mpz s.gmp r is_signed

  -- The dimension of the integer is replaced by `old_k`.
  unfoldable pub set_aside : WrappedInt s → DimensionKey → WrappedInt s
  set_aside ret old_k =
      let equated = add_equality s.d (add_dimension s ret.wav old_k) ret.k old_k in
      record ret { wav = havoc s.d equated (singleton ret.k) }

  -- The dimension is marked, and `old_k` removed.
  unfoldable pub finished : WrappedInt s → Wrapped s.d → DimensionKey → Bool → WrappedInt s
  finished ret w old_k is_signed = record ret {
    wav = remove_dimension s (mark_wrapped s.d w ret.k is_signed) old_k;
  }

  unfoldable pub div_helper : WrappedInt s → ℤ → Bool → Result (WrappedInt s)
  div_helper this that_mpz is_signed = do
    let old_k = get_temp_key this.k.bitsize 1
    wrapped_this ← wrap_int s this is_signed
    that ← truncated that_mpz this.k.bitsize is_signed
    let ret = set_aside wrapped_this old_k
    let multiple : Affexp = (SortedMap.insert ret.k that [], pos 0)
    low ← add_constraint s.gmp s.d ret.wav (record { lhs = of_key old_k; rhs = multiple; op = le })
    high ←
        add_constraint s.gmp s.d low
          (record { lhs = multiple; rhs = ((of_key old_k).0, that -ℤ pos 1); op = le })
    ok (finished ret high old_k is_signed)

  unfoldable pub mod_helper : WrappedInt s → ℤ → Bool → Result (WrappedInt s)
  mod_helper this that_mpz is_signed = do
    let old_k = get_temp_key this.k.bitsize 1
    wrapped_this ← wrap_int s this is_signed
    that ← truncated that_mpz this.k.bitsize is_signed
    let ret = set_aside wrapped_this old_k
    low ← add_constraint_no_rhs s ret.wav (of_key ret.k) ge
    high ←
        add_constraint s.gmp s.d low
          (record { lhs = of_key ret.k; rhs = ([], that -ℤ pos 1); op = le })
    ok (finished ret high old_k is_signed)

  unfoldable pub udiv_constant : WrappedInt s → ℤ → Result (WrappedInt s)
  udiv_constant this that = elim (is_constant s this) [
    | some c ↦ on_words divide this.k.bitsize false c that >>= of_const s this
    | none ↦ div_helper this that false
  ]

  unfoldable pub sdiv_constant : WrappedInt s → ℤ → Result (WrappedInt s)
  sdiv_constant this that = elim (is_constant s this) [
    | some c ↦ on_words Signed.sdiv this.k.bitsize true c that >>= of_const s this
    | none ↦ div_helper this that true
  ]

  unfoldable pub umod_constant : WrappedInt s → ℤ → Result (WrappedInt s)
  umod_constant this that = elim (is_constant s this) [
    | some c ↦ on_words modulo this.k.bitsize false c that >>= of_const s this
    | none ↦ mod_helper this that false
  ]

  unfoldable pub smod_constant : WrappedInt s → ℤ → Result (WrappedInt s)
  smod_constant this that = elim (is_constant s this) [
    | some c ↦ on_words Signed.smod this.k.bitsize true c that >>= of_const s this
    | none ↦ mod_helper this that true
  ]

  unfoldable pub udiv : WrappedInt s → WrappedInt s → Result (WrappedInt s)
  udiv this that = elim (is_constant s that) [
    | some c ↦ udiv_constant this c
    | none ↦ any_of_both s this that
  ]

  unfoldable pub sdiv : WrappedInt s → WrappedInt s → Result (WrappedInt s)
  sdiv this that = elim (is_constant s that) [
    | some c ↦ sdiv_constant this c
    | none ↦ any_of_both s this that
  ]

  -- The meet of both, with the value forgotten.
  unfoldable pub any_of_meet : WrappedInt s → WrappedInt s → Result (WrappedInt s)
  any_of_meet this that = do ret ← meet s this that; ok (any_value s ret)

  unfoldable pub umod : WrappedInt s → WrappedInt s → Result (WrappedInt s)
  umod this that = elim (is_constant s that) [
    | some c ↦ umod_constant this c
    | none ↦ any_of_meet this that
  ]

  unfoldable pub smod : WrappedInt s → WrappedInt s → Result (WrappedInt s)
  smod this that = elim (is_constant s that) [
    | some c ↦ smod_constant this c
    | none ↦ any_of_meet this that
  ]
