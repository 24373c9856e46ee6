-- ===== src/WrappedInt/Bits.antt =====
-- Shifts, bit operations, and changes of the size.
use sound_bit_precise_domain.Prelude.{
  Bool, true, false, ◌&&◌, ◌||◌, ◌==◌, Option, none, some, if◌then◌else◌, Result, err, ok, ◌>>=◌,
  assertion,
}
use sound_bit_precise_domain.Prelude.Int.{ℤ, pos, negsuc}
use sound_bit_precise_domain.Value.{Bitsize, make}
use sound_bit_precise_domain.Value.Bitwise.{shl}
use sound_bit_precise_domain.Mpz.{convert_to_mpz, convert_to_value}
use sound_bit_precise_domain.Mpz.Logic.{mpz_lshift, mpz_rshift_arith, mpz_and, mpz_or, mpz_xor}
use sound_bit_precise_domain.Wrapped.Lattice.{add_equality}
use sound_bit_precise_domain.WrappedInt.Setting.{Setting}
use sound_bit_precise_domain.WrappedInt.Record.{
  WrappedInt, get_temp_key, of_const, add_dimension, remove_dimension, meet, wrap_int, is_constant,
  any_value,
}
use sound_bit_precise_domain.WrappedInt.Linear.{any_of_both, negate, plus_constant, times_constant}
use sound_bit_precise_domain.WrappedInt.Divide.{
  truncated, any_of_meet, udiv_constant, sdiv_constant,
}

-- Whether an operand is a constant with the value `v`.
abbrev pub is_integer : Option ℤ → ℤ → ℤ → Bool
is_integer none c_trunc v = false
is_integer (some c) (pos n) (pos m) = n == m
is_integer (some c) (pos n) (negsuc m) = false
is_integer (some c) (negsuc n) (pos m) = false
is_integer (some c) (negsuc n) (negsuc m) = n == m

-- `mpz_class c`, which is 0 until `is_constant` sets it.
abbrev pub constant_or_zero : Option ℤ → ℤ
constant_or_zero none = pos 0
constant_or_zero (some c) = c

abbrev pub is_some : Option ℤ → Bool
is_some none = false
is_some (some c) = true

module _ (s : Setting) where
  unfoldable pub lshift_constant : WrappedInt s → ℤ → Result (WrappedInt s)
  lshift_constant this that = times_constant s this (mpz_lshift s.gmp (pos 1) that)

  unfoldable pub lshift : WrappedInt s → WrappedInt s → Result (WrappedInt s)
  lshift this that = elim (is_constant s that) [
    | some c ↦ lshift_constant this c
    | none ↦ any_of_meet s this that
  ]

  unfoldable pub rshift_constant : WrappedInt s → ℤ → Result (WrappedInt s)
  rshift_constant this that = do
    let b = this.k.bitsize
    that_val ← shl (make b 1) (convert_to_value s.gmp that b false)
    divisor ← convert_to_mpz s.gmp that_val false
    udiv_constant s this divisor

  unfoldable pub rshift : WrappedInt s → WrappedInt s → Result (WrappedInt s)
  rshift this that = elim (is_constant s that) [
    | some c ↦ rshift_constant this c
    | none ↦ any_of_meet s this that
  ]

  -- `ret.meet(of_const(c))`.
  unfoldable pub meet_constant : WrappedInt s → WrappedInt s → ℤ → Result (WrappedInt s)
  meet_constant this ret c = do c_int ← of_const s this c; meet s ret c_int

  unfoldable pub rshift_arith : WrappedInt s → WrappedInt s → Result (WrappedInt s)
  rshift_arith this that = elim (is_constant s that) [
    | none ↦ ok (any_value s this)
    | some that_mpz ↦
        if is_integer (some that_mpz) that_mpz (pos 0) then ok this else elim (is_constant s this) [
          | none ↦ sdiv_constant s this (mpz_lshift s.gmp (pos 1) that_mpz)
          | some c ↦ do
            this_mpz_trunc ← truncated s c this.k.bitsize true
            ret ← any_of_both s this that
            meet_constant this ret (mpz_rshift_arith s.gmp this_mpz_trunc that_mpz)
        ]
  ]

  unfoldable pub bitwise_and : WrappedInt s → WrappedInt s → Result (WrappedInt s)
  bitwise_and this that = do
    let b = this.k.bitsize
    ret ← any_of_both s this that
    let this_c = is_constant s this
    let that_c = is_constant s that
    this_c_trunc ← truncated s (constant_or_zero this_c) b false
    that_c_trunc ← truncated s (constant_or_zero that_c) b false
    if is_integer this_c this_c_trunc (pos 0) || is_integer that_c that_c_trunc (pos 0)
        then meet_constant this ret (pos 0)
        else if is_integer this_c this_c_trunc (negsuc 0)
        then meet s ret that
        else if is_integer that_c that_c_trunc (negsuc 0)
        then meet s ret this
        else if is_some this_c && is_some that_c
        then meet_constant this ret (mpz_and s.logic this_c_trunc that_c_trunc)
        else ok ret

  unfoldable pub bitwise_or : WrappedInt s → WrappedInt s → Result (WrappedInt s)
  bitwise_or this that = do
    let b = this.k.bitsize
    ret ← any_of_both s this that
    let this_c = is_constant s this
    let that_c = is_constant s that
    this_c_trunc ← truncated s (constant_or_zero this_c) b false
    that_c_trunc ← truncated s (constant_or_zero that_c) b false
    if is_integer this_c this_c_trunc (negsuc 0) || is_integer that_c that_c_trunc (negsuc 0)
        then meet_constant this ret (negsuc 0)
        else if is_integer this_c this_c_trunc (pos 0)
        then meet s ret that
        else if is_integer that_c that_c_trunc (pos 0)
        then meet s ret this
        else if is_some this_c && is_some that_c
        then meet_constant this ret (mpz_or s.logic this_c_trunc that_c_trunc)
        else ok ret

  unfoldable pub bitwise_not : WrappedInt s → Result (WrappedInt s)
  bitwise_not this = elim (is_constant s this) [
    | some c ↦ meet_constant this (any_value s this) (s.logic.complement c)
    | none ↦ do
      wrapped_this ← wrap_int s this true
      negated ← negate s wrapped_this
      plus_constant s negated (negsuc 0)
  ]

  -- The constant of `that` is cut as unsigned and read as signed.
  unfoldable pub bitwise_xor : WrappedInt s → WrappedInt s → Result (WrappedInt s)
  bitwise_xor this that = do
    let b = this.k.bitsize
    ret ← any_of_both s this that
    let this_c = is_constant s this
    let that_c = is_constant s that
    this_c_trunc ← truncated s (constant_or_zero this_c) b true
    that_c_trunc ←
        convert_to_mpz s.gmp (convert_to_value s.gmp (constant_or_zero that_c) b false) true
    if is_integer this_c this_c_trunc (negsuc 0)
        then (bitwise_not that >>= meet s ret)
        else if is_integer that_c that_c_trunc (negsuc 0)
        then (bitwise_not this >>= meet s ret)
        else if is_integer this_c this_c_trunc (pos 0)
        then meet s ret that
        else if is_integer that_c that_c_trunc (pos 0)
        then meet s ret this
        else if is_some this_c && is_some that_c
        then meet_constant this ret (mpz_xor s.logic this_c_trunc that_c_trunc)
        else ok ret

  -- The value of the dimension moves to a dimension of the new size.
  unfoldable pub trunc : WrappedInt s → Bitsize → WrappedInt s
  trunc this b =
      let k_b = get_temp_key b 0 in
      let equated = add_equality s.d (add_dimension s this.wav k_b) this.k k_b in
      record this { k = k_b; wav = remove_dimension s equated this.k }

  unfoldable pub zero_extend : WrappedInt s → Bitsize → Result (WrappedInt s)
  zero_extend this b = do ret ← wrap_int s this false; ok (trunc ret b)

  unfoldable pub sign_extend : WrappedInt s → Bitsize → Result (WrappedInt s)
  sign_extend this b = do ret ← wrap_int s this true; ok (trunc ret b)

  unfoldable pub zero_extend_or_trunc : WrappedInt s → Bitsize → Result (WrappedInt s)
  zero_extend_or_trunc this b = err assertion
