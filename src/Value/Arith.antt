-- ===== src/Value/Arith.antt =====
-- utils/gmp/value.cpp: the unsigned arithmetic of `Value`. Operands below the width of `int` are
-- promoted to `int` and the result is converted to `LONG_UINT` before the constructor cuts it.
use sound_bit_precise_domain.Prelude.{
  ℕ, ◌+◌, ◌-◌, ◌*◌, ◌/◌, ◌%◌, ◌^◌, Result, ok, err, leb, ◌==◌, if◌then◌else◌, signed_overflow,
  div_by_zero,
}
use sound_bit_precise_domain.Value.{
  Value, Bitsize, sixty_four, thirty_two, sixteen, eight, one, binary, unary,
}

-- `int` to `uint64_t`, for the difference of two words.
abbrev int_sub : ℕ → ℕ → ℕ
int_sub x y = (x + 2 ^ 64 - y) % 2 ^ 64

unfoldable pub neg_bits : Bitsize → ℕ → ℕ
neg_bits sixty_four x = (2 ^ 64 - x) % 2 ^ 64
neg_bits thirty_two x = (2 ^ 32 - x) % 2 ^ 32
neg_bits sixteen x = int_sub 0 x
neg_bits eight x = int_sub 0 x
neg_bits one x = int_sub 0 x

unfoldable pub compl_bits : Bitsize → ℕ → ℕ
compl_bits sixty_four x = 2 ^ 64 - 1 - x
compl_bits thirty_two x = 2 ^ 32 - 1 - x
compl_bits sixteen x = 2 ^ 64 - 1 - x
compl_bits eight x = 2 ^ 64 - 1 - x
compl_bits one x = 2 ^ 64 - 1 - x

unfoldable pub plus_bits : Bitsize → ℕ → ℕ → Result ℕ
plus_bits sixty_four x y = ok ((x + y) % 2 ^ 64)
plus_bits thirty_two x y = ok ((x + y) % 2 ^ 32)
plus_bits sixteen x y = ok (x + y)
plus_bits eight x y = ok (x + y)
plus_bits one x y = ok (x + y)

unfoldable pub minus_bits : Bitsize → ℕ → ℕ → Result ℕ
minus_bits sixty_four x y = ok ((x + 2 ^ 64 - y) % 2 ^ 64)
minus_bits thirty_two x y = ok ((x + 2 ^ 32 - y) % 2 ^ 32)
minus_bits sixteen x y = ok (int_sub x y)
minus_bits eight x y = ok (int_sub x y)
minus_bits one x y = ok (int_sub x y)

-- The product of two 16-bit words is an `int` and may overflow it.
unfoldable pub times_bits : Bitsize → ℕ → ℕ → Result ℕ
times_bits sixty_four x y = ok (x * y % 2 ^ 64)
times_bits thirty_two x y = ok (x * y % 2 ^ 32)
times_bits sixteen x y = if leb (x * y) 0x7fff_ffff then ok (x * y) else err signed_overflow
times_bits eight x y = ok (x * y)
times_bits one x y = ok (x * y)

unfoldable pub modulo_bits : Bitsize → ℕ → ℕ → Result ℕ
modulo_bits s x y = if y == 0 then err div_by_zero else ok (x % y)

unfoldable pub divide_bits : Bitsize → ℕ → ℕ → Result ℕ
divide_bits s x y = if y == 0 then err div_by_zero else ok (x / y)

-- `operator-()` and `operator~()`.
unfoldable pub neg : Value → Result Value
neg = unary neg_bits

unfoldable pub compl : Value → Result Value
compl = unary compl_bits

-- The operators `+`, `-`, `*`, `%` and `/`.
unfoldable pub plus : Value → Value → Result Value
plus = binary plus_bits

unfoldable pub minus : Value → Value → Result Value
minus = binary minus_bits

unfoldable pub times : Value → Value → Result Value
times = binary times_bits

unfoldable pub modulo : Value → Value → Result Value
modulo = binary modulo_bits

unfoldable pub divide : Value → Value → Result Value
divide = binary divide_bits
