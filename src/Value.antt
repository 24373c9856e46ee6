-- ===== src/Value.antt =====
-- utils/gmp/value.hpp and the constructors and accessors of utils/gmp/value.cpp: a machine word
-- tagged with its width. The class has one member per width and sets only the one that its tag
-- names, so a member is an `Option` whose `none` is an indeterminate value.
pub mod Arith
pub mod Modular
pub mod Signed
pub mod Bitwise
pub mod Compare
pub mod Extend
mod Examples
use mathlib.Core.Bool.{Bool, true, false}
use sound_bit_precise_domain.Prelude.{
  ℕ, ◌≡◌, ◌%◌, ◌^◌, ◌<◌, Option, none, some, Result, ok, err, ◌>>=◌, ◌>>◌, guard, ◌==◌,
  if◌then◌else◌,
}
use sound_bit_precise_domain.Prelude.{assertion, uninitialised, arith}

pub data Bitsize : Type 0 where
  sixty_four thirty_two sixteen eight one : Bitsize

unfoldable pub get_bit_width : Bitsize → ℕ
get_bit_width sixty_four = 64
get_bit_width thirty_two = 32
get_bit_width sixteen = 16
get_bit_width eight = 8
get_bit_width one = 1

unfoldable pub get_bitsize : ℕ → Result Bitsize
get_bitsize w =
    if w == 64
    then ok sixty_four
    else if w == 32
    then ok thirty_two
    else if w == 16
    then ok sixteen
    else if w == 8
    then ok eight
    else if w == 1
    then ok one
    else err assertion

-- 2 to the width.
abbrev pub modulus : Bitsize → ℕ
modulus sixty_four = 2 ^ 64
modulus thirty_two = 2 ^ 32
modulus sixteen = 2 ^ 16
modulus eight = 2 ^ 8
modulus one = 2

abbrev pub same_size : Bitsize → Bitsize → Bool
same_size sixty_four sixty_four = true
same_size thirty_two thirty_two = true
same_size sixteen sixteen = true
same_size eight eight = true
same_size one one = true
same_size _ _ = false

pub record Value : Type 0 where
  pub size : Bitsize
  pub bv64 : Option ℕ
  pub bv32 : Option ℕ
  pub bv16 : Option ℕ
  pub bv8 : Option ℕ
  pub bv1 : Option ℕ

-- `Value(size)` sets no member but the tag.
abbrev pub empty : Bitsize → Value
empty s = record { size = s; bv64 = none; bv32 = none; bv16 = none; bv8 = none; bv1 = none }

-- `Value(size, val)`, with the cast to the member's type.
unfoldable pub make : Bitsize → ℕ → Value
make sixty_four n = record (empty sixty_four) { bv64 = some (n % 2 ^ 64) }
make thirty_two n = record (empty thirty_two) { bv32 = some (n % 2 ^ 32) }
make sixteen n = record (empty sixteen) { bv16 = some (n % 2 ^ 16) }
make eight n = record (empty eight) { bv8 = some (n % 2 ^ 8) }
make one n = record (empty one) { bv1 = some (n % 2) }

-- The member that a tag names.
abbrev pub member : Bitsize → Value → Option ℕ
member sixty_four v = v.bv64
member thirty_two v = v.bv32
member sixteen v = v.bv16
member eight v = v.bv8
member one v = v.bv1

abbrev pub defined : Option ℕ → Result ℕ
defined none = err uninitialised
defined (some n) = ok n

-- The value has the tag `s` and holds the number `n`.
pub record IsAt (s : Bitsize) (v : Value) (n : ℕ) : Type 0 where
  pub tagged : v.size ≡ s
  pub stored : member s v ≡ some n
  pub fits : n < modulus s

-- The shape of the operators on two values: the `assert` on the sizes, the two reads that the
-- `switch` makes, the operation and the constructor of the result.
unfoldable pub binary : (Bitsize → ℕ → ℕ → Result ℕ) → Value → Value → Result Value
binary f a b = do
  guard (same_size a.size b.size) assertion
  x ← defined (member a.size a)
  y ← defined (member a.size b)
  n ← f a.size x y
  ok (make a.size n)

unfoldable pub unary : (Bitsize → ℕ → ℕ) → Value → Result Value
unary f a = do x ← defined (member a.size a); ok (make a.size (f a.size x))

unfoldable pub is_zero : Value → Result Bool
is_zero a = do x ← defined (member a.size a); ok (x == 0)

-- `operator=` copies the tag and every member.
unfoldable pub assign : Value → Value → Value
assign this v = record this {
  size = v.size;
  bv64 = v.bv64;
  bv32 = v.bv32;
  bv16 = v.bv16;
  bv8 = v.bv8;
  bv1 = v.bv1;
}

-- A new value holds the number modulo 2 to the width.
pub make-IsAt : (s : Bitsize) (n : ℕ) → IsAt s (make s n) (n % modulus s)
unfolding make
make-IsAt s n = ground arith

pub make-IsAt_fits : (s : Bitsize) (n : ℕ) → n < modulus s → IsAt s (make s n) n
unfolding make
make-IsAt_fits s n h = ground arith

-- Two numbers that agree modulo 2 to the width make the same value.
pub make_congr : (s : Bitsize) (m n : ℕ) → m % modulus s ≡ n % modulus s → make s m ≡ make s n
unfolding make
make_congr s m n h = ground arith

-- An operator on values of one size that hold numbers computes on those numbers.
pub binary-IsAt :
    (f : Bitsize → ℕ → ℕ → Result ℕ) {s : Bitsize} {a b : Value} {x y : ℕ}
    → IsAt s a x
    → IsAt s b y
    → binary f a b ≡ (f s x y >>= λ n. ok (make s n))
unfolding binary
binary-IsAt f ha hb = ground arith

pub unary-IsAt :
    (f : Bitsize → ℕ → ℕ) {s : Bitsize} {a : Value} {x : ℕ}
    → IsAt s a x
    → unary f a ≡ ok (make s (f s x))
unfolding unary
unary-IsAt f ha = ground arith
