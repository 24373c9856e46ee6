-- ===== src/Value/Bitwise.antt =====
-- utils/gmp/value.cpp: the operators `&`, `|`, `^`, `>>` and `<<` of `Value`.
use Prim.Native.Nat.{bit_and, bit_or, bit_xor}
use sound_bit_precise_domain.Prelude.{
  ℕ, ◌+◌, ◌-◌, ◌*◌, ◌/◌, ◌^◌, Result, ok, err, ltb, leb, ◌==◌, if◌then◌else◌, signed_overflow,
  shift_count,
}
use sound_bit_precise_domain.Value.{
  Value, Bitsize, sixty_four, thirty_two, sixteen, eight, one, binary,
}

unfoldable pub and : Value → Value → Result Value
and = binary (λ s x y. ok (bit_and x y))

unfoldable pub or : Value → Value → Result Value
or = binary (λ s x y. ok (bit_or x y))

unfoldable pub xor : Value → Value → Result Value
xor = binary (λ s x y. ok (bit_xor x y))

-- A shift count must lie below the width of the promoted operand.
unfoldable pub shr_bits : Bitsize → ℕ → ℕ → Result ℕ
shr_bits sixty_four x y = if ltb y 64 then ok (x / 2 ^ y) else err shift_count
shr_bits thirty_two x y = if ltb y 32 then ok (x / 2 ^ y) else err shift_count
shr_bits sixteen x y = if ltb y 32 then ok (x / 2 ^ y) else err shift_count
shr_bits eight x y = if ltb y 32 then ok (x / 2 ^ y) else err shift_count
shr_bits one x y = if y == 1 then ok 0 else ok x

-- `int` to `uint64_t`, for a number below 2 ^ 32 that a left shift has put into an `int`.
abbrev int_bits : ℕ → ℕ
int_bits n = if leb 0x8000_0000 n then n + 2 ^ 64 - 2 ^ 32 else n

-- A left shift in `int` is undefined where it passes `unsigned int`.
abbrev int_shl : ℕ → ℕ → Result ℕ
int_shl x y =
    if ltb y 32
    then (if ltb (x * 2 ^ y) (2 ^ 32) then ok (int_bits (x * 2 ^ y)) else err signed_overflow)
    else err shift_count

unfoldable pub shl_bits : Bitsize → ℕ → ℕ → Result ℕ
shl_bits sixty_four x y = if ltb y 64 then ok (x * 2 ^ y) else err shift_count
shl_bits thirty_two x y = if ltb y 32 then ok (x * 2 ^ y) else err shift_count
shl_bits sixteen x y = int_shl x y
shl_bits eight x y = int_shl x y
shl_bits one x y = if y == 1 then ok 0 else ok x

unfoldable pub shr : Value → Value → Result Value
shr = binary shr_bits

unfoldable pub shl : Value → Value → Result Value
shl = binary shl_bits
