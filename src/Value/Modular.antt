-- ===== src/Value/Modular.antt =====
-- The unsigned arithmetic of `Value` is arithmetic modulo 2 to the width.
use native.Mathlib.Nat.{div-add-mod, div-add-mod', div-mul-le_self}
use sound_bit_precise_domain.Prelude.{
  ℕ, refl, ap, sym, ◌∙◌, ◌+◌, ◌-◌, ◌*◌, ◌/◌, ◌%◌, ◌≤◌, ◌<◌, ◌≡◌, ◌≢◌, arith, ok, ◌>>=◌,
}
use sound_bit_precise_domain.Value.{
  Value, Bitsize, sixty_four, thirty_two, sixteen, eight, one, modulus, make, make_congr, IsAt,
  make-IsAt, make-IsAt_fits, unary-IsAt, binary-IsAt,
}
use sound_bit_precise_domain.Value.Arith.{
  neg, compl, neg_bits, compl_bits, plus, minus, times, modulo, divide, plus_bits, minus_bits,
  times_bits, divide_bits, modulo_bits,
}

plus_bits-make :
    (s : Bitsize) (x y : ℕ) → (plus_bits s x y >>= λ n. ok (make s n)) ≡ ok (make s (x + y))
unfolding plus_bits make
plus_bits-make s x y = ground arith

minus_bits-make :
    (s : Bitsize) (x y : ℕ)
    → x < modulus s
    → y < modulus s
    → (minus_bits s x y >>= λ n. ok (make s n)) ≡ ok (make s (x + modulus s - y))
unfolding minus_bits make
minus_bits-make s x y p q = ground arith

times_bits-make :
    (s : Bitsize) (x y : ℕ)
    → ((s ≡ sixteen) → x * y ≤ 0x7fff_ffff)
    → (times_bits s x y >>= λ n. ok (make s n)) ≡ ok (make s (x * y))
unfolding times_bits make
times_bits-make sixty_four x y h = ground arith
times_bits-make thirty_two x y h = ground arith
times_bits-make sixteen x y h = ground (arith, h refl)
times_bits-make eight x y h = refl
times_bits-make one x y h = refl

neg_bits-make :
    (s : Bitsize) (x : ℕ) → x < modulus s → make s (neg_bits s x) ≡ make s (modulus s - x)
unfolding neg_bits make
neg_bits-make s x p = ground arith

compl_bits-make :
    (s : Bitsize) (x : ℕ) → x < modulus s → make s (compl_bits s x) ≡ make s (modulus s - 1 - x)
unfolding compl_bits make
compl_bits-make s x p = ground arith

make-eq-of_mod : (s : Bitsize) (x : ℕ) → make s (x % modulus s) ≡ make s x
make-eq-of_mod s x = make_congr s (x % modulus s) x (ground arith)

module _ {s : Bitsize} {a b : Value} {x y : ℕ} (ha : IsAt s a x) (hb : IsAt s b y) where
  pub plus-eq-make : plus a b ≡ ok (make s (x + y))
  unfolding plus
  plus-eq-make = binary-IsAt plus_bits ha hb ∙ plus_bits-make s x y

  pub minus-eq-make : minus a b ≡ ok (make s (x + modulus s - y))
  unfolding minus
  minus-eq-make = binary-IsAt minus_bits ha hb ∙ minus_bits-make s x y ha.fits hb.fits

  pub times-eq-make : ((s ≡ sixteen) → x * y ≤ 0x7fff_ffff) → times a b ≡ ok (make s (x * y))
  unfolding times
  times-eq-make h = binary-IsAt times_bits ha hb ∙ times_bits-make s x y h

  pub divide-eq-make : y ≢ 0 → divide a b ≡ ok (make s (x / y))
  unfolding divide divide_bits
  divide-eq-make h = binary-IsAt divide_bits ha hb ∙ ground arith

  pub modulo-eq-make : y ≢ 0 → modulo a b ≡ ok (make s (x % y))
  unfolding modulo modulo_bits
  modulo-eq-make h = binary-IsAt modulo_bits ha hb ∙ ground arith

pub neg-eq-make :
    {s : Bitsize} {a : Value} {x : ℕ} → IsAt s a x → neg a ≡ ok (make s (modulus s - x))
unfolding neg
neg-eq-make {s} {x} h = unary-IsAt neg_bits h ∙ ap ok (neg_bits-make s x h.fits)

pub compl-eq-make :
    {s : Bitsize} {a : Value} {x : ℕ} → IsAt s a x → compl a ≡ ok (make s (modulus s - 1 - x))
unfolding compl
compl-eq-make {s} {x} h = unary-IsAt compl_bits h ∙ ap ok (compl_bits-make s x h.fits)

quot_fits : (x y : ℕ) {m : ℕ} → x < m → y ≢ 0 → x / y < m
quot_fits x y h ne = grind (arith, div-add-mod x y)

quot_int : (s : Bitsize) (x y : ℕ) → x < modulus s → s ≡ sixteen → x / y * y ≤ 0x7fff_ffff
quot_int sixteen x y h e = omega (arith, div-mul-le_self x y)
quot_int _ x y h e = cc

quot_sum :
    (s : Bitsize) (x y : ℕ)
    → (x / y * y % modulus s + x % y % modulus s) % modulus s ≡ x % modulus s
quot_sum s x y = ground (arith, div-add-mod' x y)

neg_sum :
    (s : Bitsize) (x y : ℕ)
    → y < modulus s
    → (x + (modulus s - y) % modulus s) % modulus s ≡ (x + modulus s - y) % modulus s
neg_sum s x y h = ground arith

module _ {s : Bitsize} {a b : Value} {x y : ℕ} (ha : IsAt s a x) (hb : IsAt s b y) where
  -- For two values of one size that hold numbers, subtracting the second operand from a sum gives
  -- the first one back, at every width.
  pub minus-plus : (plus a b >>= λ c. minus c b) ≡ ok (make s x)
  minus-plus =
      rw (plus-eq-make ha hb)
        (minus-eq-make (make-IsAt s (x + y)) hb ∙ ap ok (make_congr s _ _ (grind arith)))

  -- For two values of one size that hold numbers, adding the negation of the second is
  -- subtracting it, at every width.
  pub plus-neg : (neg b >>= λ c. plus a c) ≡ minus a b
  plus-neg = rw (neg-eq-make hb) (
      plus-eq-make ha (make-IsAt s (modulus s - y))
      ∙ ap ok (make_congr s _ _ (neg_sum s x y hb.fits))
      ∙ sym (minus-eq-make ha hb))

  -- For two values of one size that hold numbers, the second not zero, quotient and remainder are
  -- computed with no fault, and the quotient times the divisor plus the remainder is the
  -- dividend.
  pub divide-modulo :
      y ≢ 0 → (do q ← divide a b; r ← modulo a b; p ← times q b; plus p r) ≡ ok (make s x)
  divide-modulo h =
      rw
        (
          divide-eq-make ha hb h,
          modulo-eq-make ha hb h,
          times-eq-make (make-IsAt_fits s (x / y) (quot_fits x y ha.fits h)) hb
              (quot_int s x y ha.fits),
        )
        (plus-eq-make (make-IsAt s (x / y * y)) (make-IsAt s (x % y))
          ∙ ap ok (make_congr s _ _ (quot_sum s x y)))
