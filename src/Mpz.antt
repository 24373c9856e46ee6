-- ===== src/Mpz.antt =====
-- utils/gmp/gmpxx_utils.cpp: conversions between machine words and the integers of GMP, which is
-- not part of the repository: `Gmp` has its functions, and `IsGmp` what its manual says of them.
pub mod Convert
pub mod Narrow
pub mod Negative
pub mod Exact
pub mod Logic
mod Examples
use sound_bit_precise_domain.Prelude.{
  ℕ, suc, ◌+◌, ◌-◌, ◌*◌, ◌/◌, ◌%◌, ◌^◌, ◌≡◌, Bool, Result, ok, ◌>>=◌, if◌then◌else◌,
}
use sound_bit_precise_domain.Prelude.Int.{ℤ, pos, negsuc, ◌+ℤ◌, ◌≤ℤ◌, sub_ℕ}
use sound_bit_precise_domain.Prelude.Floor.{floor_div, scale}
use sound_bit_precise_domain.Value.{
  Value, Bitsize, sixty_four, thirty_two, sixteen, eight, one, make, member, defined, assign, empty,
}
use sound_bit_precise_domain.Value.Signed.{signed, to_unsigned}

-- An `mpz_t` is the integer that it holds. `get_ui` and `get_si` return an `unsigned long` and a
-- `long`, whose width depends on the platform.
pub record Gmp : Type 0 where
  pub set_si : ℤ → ℤ
  pub set_ui : ℕ → ℤ
  pub mul_2exp : ℤ → ℕ → ℤ
  pub add_ui : ℤ → ℕ → ℤ
  pub mod_2exp : ℤ → ℕ → ℤ
  pub div_2exp : ℤ → ℕ → ℤ
  pub get_ui : ℤ → ℕ
  pub get_si : ℤ → ℤ

-- `get_ui` ignores the sign and gives the low bits, and `get_si` is exact at least in
-- the range of 32 bits.
pub record IsGmp (long_width : ℕ) (gmp : Gmp) : Type 0 where
  pub set_si_lem : (z : ℤ) → gmp.set_si z ≡ z
  pub set_ui_lem : (n : ℕ) → gmp.set_ui n ≡ pos n
  pub mul_2exp_lem : (z : ℤ) (n : ℕ) → gmp.mul_2exp z n ≡ scale z (2 ^ n)
  pub add_ui_lem : (z : ℤ) (n : ℕ) → gmp.add_ui z n ≡ z +ℤ pos n
  pub mod_2exp_lem : (n w : ℕ) → gmp.mod_2exp (pos n) w ≡ pos (n % 2 ^ w)
  pub div_2exp_lem : (n w : ℕ) → gmp.div_2exp (pos n) w ≡ pos (n / 2 ^ w)
  pub get_ui_lem : (n : ℕ) → gmp.get_ui (pos n) ≡ n % 2 ^ long_width
  pub get_ui_negative_lem : (n : ℕ) → gmp.get_ui (negsuc n) ≡ suc n % 2 ^ long_width
  pub get_si_lem : (z : ℤ) → sub_ℕ 0 (2 ^ 31) ≤ℤ z → z ≤ℤ pos (2 ^ 31 - 1) → gmp.get_si z ≡ z

module _ (gmp : Gmp) where
  -- The argument is the 64-bit word of the `LONG_INT`, and `>>` on it keeps the sign.
  unfoldable pub mpz_set_sll : ℕ → ℤ
  mpz_set_sll sll =
      let n = gmp.set_si (signed (2 ^ 32) (sll / 2 ^ 32)) in
      gmp.add_ui (gmp.mul_2exp n 32) (sll % 2 ^ 32)

  unfoldable pub mpz_set_ull : ℕ → ℤ
  mpz_set_ull ull = gmp.add_ui (gmp.mul_2exp (gmp.set_ui (ull / 2 ^ 32)) 32) (ull % 2 ^ 32)

  -- The words of the operands are cut to the 64 bits of `LONG_UINT`.
  unfoldable pub mpz_get_ull : ℤ → ℕ
  mpz_get_ull n =
      let tmp = gmp.mod_2exp n 64 in
      let lo = gmp.get_ui tmp in
      let hi = gmp.get_ui (gmp.div_2exp tmp 32) in (hi * 2 ^ 32 % 2 ^ 64 + lo) % 2 ^ 64

  -- `LONG_INT` and `LONG_UINT` have the same word.
  unfoldable pub mpz_get_sll : ℤ → ℕ
  mpz_get_sll = mpz_get_ull

  unfoldable pub convert_bits : Bitsize → ℕ → Bool → ℤ
  convert_bits sixty_four x is_signed = if is_signed then mpz_set_sll x else mpz_set_ull x
  convert_bits thirty_two x is_signed =
      if is_signed then gmp.set_si (signed (2 ^ 32) x) else gmp.set_ui x
  convert_bits sixteen x is_signed =
      if is_signed then gmp.set_si (signed (2 ^ 16) x) else gmp.set_ui x
  convert_bits eight x is_signed = if is_signed then gmp.set_si (signed (2 ^ 8) x) else gmp.set_ui x
  convert_bits one x is_signed = gmp.set_si (pos x)

  unfoldable pub convert_to_mpz : Value → Bool → Result ℤ
  convert_to_mpz c is_signed = do
    x ← defined (member c.size c)
    ok (convert_bits c.size x is_signed)

  -- `val`, a word of the width, which the constructor stores.
  unfoldable pub word_of : Bitsize → ℤ → Bool → ℕ
  word_of sixty_four c is_signed = if is_signed then mpz_get_sll c else mpz_get_ull c
  word_of thirty_two c is_signed =
      if is_signed then to_unsigned (2 ^ 32) (gmp.get_si c) else gmp.get_ui c % 2 ^ 32
  word_of sixteen c is_signed =
      if is_signed then to_unsigned (2 ^ 16) (gmp.get_si c) else gmp.get_ui c % 2 ^ 16
  word_of eight c is_signed =
      if is_signed then to_unsigned (2 ^ 8) (gmp.get_si c) else gmp.get_ui c % 2 ^ 8
  word_of one c is_signed =
      if is_signed then to_unsigned (2 ^ 8) (gmp.get_si c) else gmp.get_ui c % 2 ^ 8

  unfoldable pub convert_to_value : ℤ → Bitsize → Bool → Value
  convert_to_value c b is_signed = make b (word_of b c is_signed)

unfoldable pub max_bits : Bitsize → Bool → ℕ
max_bits sixty_four is_signed = if is_signed then 0x7fff_ffff_ffff_ffff else 0xffff_ffff_ffff_ffff
max_bits thirty_two is_signed = if is_signed then 0x7fff_ffff else 0xffff_ffff
max_bits sixteen is_signed = if is_signed then 0x7fff else 0xffff
max_bits eight is_signed = if is_signed then 0x7f else 0xff
max_bits one is_signed = 1

unfoldable pub min_bits : Bitsize → Bool → ℕ
min_bits sixty_four is_signed = if is_signed then 0x8000_0000_0000_0000 else 0
min_bits thirty_two is_signed = if is_signed then 0x8000_0000 else 0
min_bits sixteen is_signed = if is_signed then 0x8000 else 0
min_bits eight is_signed = if is_signed then 0x80 else 0
min_bits one is_signed = 0

-- `Value max;` is a 32-bit value, and the assignment sets the tag and the members.
unfoldable pub get_max_int : Bitsize → Bool → Value
get_max_int b is_signed = assign (empty thirty_two) (make b (max_bits b is_signed))

unfoldable pub get_min_int : Bitsize → Bool → Value
get_min_int b is_signed = assign (empty thirty_two) (make b (min_bits b is_signed))
