-- ===== src/Mpz/Logic.antt =====
-- utils/gmp/gmpxx_utils.cpp: shifts and bit operations on the integers of GMP.
use sound_bit_precise_domain.Prelude.Int.{ℤ}
use sound_bit_precise_domain.Mpz.{Gmp}

-- `mpz_and`, `mpz_ior` and `mpz_com` of GMP.
pub record GmpLogic : Type 0 where
  pub and : ℤ → ℤ → ℤ
  pub ior : ℤ → ℤ → ℤ
  pub complement : ℤ → ℤ

-- The second operand is cut to an `unsigned long`.
unfoldable pub mpz_rshift_arith : Gmp → ℤ → ℤ → ℤ
mpz_rshift_arith gmp a b = gmp.div_2exp a (gmp.get_ui b)

unfoldable pub mpz_lshift : Gmp → ℤ → ℤ → ℤ
mpz_lshift gmp a b = gmp.mul_2exp a (gmp.get_ui b)

module _ (logic : GmpLogic) where
  unfoldable pub mpz_and : ℤ → ℤ → ℤ
  mpz_and a b = logic.and a b

  unfoldable pub mpz_or : ℤ → ℤ → ℤ
  mpz_or a b = logic.ior a b

  unfoldable pub mpz_not : ℤ → ℤ
  mpz_not a = logic.complement a

  unfoldable pub mpz_xor : ℤ → ℤ → ℤ
  mpz_xor a b =
      let not_a = mpz_not a in let not_b = mpz_not b in mpz_or (mpz_and a not_b) (mpz_and not_a b)
