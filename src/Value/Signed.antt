-- ===== src/Value/Signed.antt =====
-- utils/gmp/value.cpp: `sdiv` and `smod`, which read the words as two's complement. Their 8-bit
-- case reads the 16-bit member.
use sound_bit_precise_domain.Prelude.{
  ℕ, suc, ◌-◌, ◌/◌, ◌%◌, ◌^◌, ◌≡◌, refl, Bool, false, ◌&&◌, Option, Result, ok, err, ◌>>=◌, ◌>>◌,
  guard, ltb, ◌==◌, if◌then◌else◌, assertion, div_by_zero, signed_overflow, uninitialised,
}
use sound_bit_precise_domain.Prelude.Int.{ℤ, pos, negsuc, quot, rem}
use sound_bit_precise_domain.Value.{
  Value, Bitsize, sixty_four, thirty_two, sixteen, eight, one, make, defined, same_size,
}
use sound_bit_precise_domain.Value.Arith.{divide_bits, modulo_bits}

-- The integer that a word of the width stands for, as in `INT num = bv32_`.
unfoldable pub signed : ℕ → ℕ → ℤ
signed m x = if ltb x (m - 1 - (m - 1) / 2) then pos x else negsuc (m - 1 - x)

-- An integer converted to an unsigned type of `m` values.
unfoldable pub to_unsigned : ℕ → ℤ → ℕ
to_unsigned m (pos n) = n % m
to_unsigned m (negsuc n) = m - 1 - n % m

abbrev is_zero_ℤ : ℤ → Bool
is_zero_ℤ (pos n) = n == 0
is_zero_ℤ (negsuc n) = false

abbrev is_minus_one : ℤ → Bool
is_minus_one (pos n) = false
is_minus_one (negsuc n) = n == 0

-- The least integer of `m` values is -(m / 2).
abbrev is_least : ℕ → ℤ → Bool
is_least m (pos n) = false
is_least m (negsuc n) = suc n == m / 2

-- `num op den` in a signed type of `m` values, as wide as `int` or wider.
unfoldable pub wide_op : (ℤ → ℤ → ℤ) → ℕ → ℤ → ℤ → Result ℕ
wide_op op m num den =
    if is_zero_ℤ den
    then err div_by_zero
    else if is_least m num && is_minus_one den
    then err signed_overflow
    else ok (to_unsigned m (op num den))

-- The same in a type narrower than `int`: nothing overflows before the conversion.
unfoldable pub narrow_op : (ℤ → ℤ → ℤ) → ℕ → ℤ → ℤ → Result ℕ
narrow_op op m num den = if is_zero_ℤ den then err div_by_zero else ok (to_unsigned m (op num den))

unfoldable pub sdiv_bits : Bitsize → ℕ → ℕ → Result ℕ
sdiv_bits sixty_four x y = wide_op quot (2 ^ 64) (signed (2 ^ 64) x) (signed (2 ^ 64) y)
sdiv_bits thirty_two x y = wide_op quot (2 ^ 32) (signed (2 ^ 32) x) (signed (2 ^ 32) y)
sdiv_bits sixteen x y = narrow_op quot (2 ^ 16) (signed (2 ^ 16) x) (signed (2 ^ 16) y)
sdiv_bits eight x y =
    narrow_op quot (2 ^ 8) (signed (2 ^ 8) (x % 2 ^ 8)) (signed (2 ^ 8) (y % 2 ^ 8))
sdiv_bits one x y = divide_bits one x y

unfoldable pub smod_bits : Bitsize → ℕ → ℕ → Result ℕ
smod_bits sixty_four x y = wide_op rem (2 ^ 64) (signed (2 ^ 64) x) (signed (2 ^ 64) y)
smod_bits thirty_two x y = wide_op rem (2 ^ 32) (signed (2 ^ 32) x) (signed (2 ^ 32) y)
smod_bits sixteen x y = narrow_op rem (2 ^ 16) (signed (2 ^ 16) x) (signed (2 ^ 16) y)
smod_bits eight x y =
    narrow_op rem (2 ^ 8) (signed (2 ^ 8) (x % 2 ^ 8)) (signed (2 ^ 8) (y % 2 ^ 8))
smod_bits one x y = modulo_bits one x y

-- The member that `sdiv` and `smod` read: the 16-bit one in the 8-bit case.
unfoldable pub read_member : Bitsize → Value → Option ℕ
read_member sixty_four v = v.bv64
read_member thirty_two v = v.bv32
read_member sixteen v = v.bv16
read_member eight v = v.bv16
read_member one v = v.bv1

unfoldable pub signed_binary : (Bitsize → ℕ → ℕ → Result ℕ) → Value → Value → Result Value
signed_binary f a b = do
  guard (same_size a.size b.size) assertion
  x ← defined (read_member a.size a)
  y ← defined (read_member a.size b)
  n ← f a.size x y
  ok (make a.size n)

unfoldable pub sdiv : Value → Value → Result Value
sdiv = signed_binary sdiv_bits

unfoldable pub smod : Value → Value → Result Value
smod = signed_binary smod_bits

-- The signed division and remainder of any two 8-bit values that the constructor makes read the
-- 16-bit member, which the constructor does not set.
pub eight_bit_signed_uninitialised :
    (m n : ℕ)
    → (sdiv (make eight m) (make eight n) ≡ err uninitialised)
      × (smod (make eight m) (make eight n) ≡ err uninitialised)
unfolding sdiv smod signed_binary read_member make
eight_bit_signed_uninitialised m n = (refl, refl)
