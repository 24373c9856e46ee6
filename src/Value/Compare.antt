-- ===== src/Value/Compare.antt =====
-- utils/gmp/value.cpp: the comparisons of `Value`.
use sound_bit_precise_domain.Prelude.{
  ℕ, ◌≡◌, ◌↔◌, ◌&&◌, Bool, true, not, Result, ok, ◌>>=◌, ◌>>◌, guard, ltb, leb, ◌==◌, assertion,
  arith,
}
use sound_bit_precise_domain.Value.{Value, Bitsize, IsAt, member, defined, same_size}

unfoldable pub compare_by : (ℕ → ℕ → Bool) → Value → Value → Result Bool
compare_by f a b = do
  guard (same_size a.size b.size) assertion
  x ← defined (member a.size a)
  y ← defined (member a.size b)
  ok (f x y)

unfoldable pub less : Value → Value → Result Bool
less = compare_by ltb

unfoldable pub greater : Value → Value → Result Bool
greater = compare_by (λ x y. ltb y x)

unfoldable pub less_equal : Value → Value → Result Bool
less_equal = compare_by leb

unfoldable pub greater_equal : Value → Value → Result Bool
greater_equal = compare_by (λ x y. leb y x)

unfoldable pub equal : Value → Value → Result Bool
equal = compare_by ◌==◌

unfoldable pub not_equal : Value → Value → Result Bool
not_equal a b = do e ← equal a b; ok (not e)

compare_by-IsAt :
    (f : ℕ → ℕ → Bool) {s : Bitsize} {a b : Value} {x y : ℕ}
    → IsAt s a x
    → IsAt s b y
    → compare_by f a b ≡ ok (f x y)
unfolding compare_by
compare_by-IsAt f ha hb = ground arith

-- On two values of one size that hold numbers, `<=` is the negation of `>` and `>=` that of `<`,
-- and `==` holds exactly where neither `<` nor `>` does, which is where the numbers are the same.
pub comparisons_agree :
    (s : Bitsize) (a b : Value) (x y : ℕ)
    → IsAt s a x
    → IsAt s b y
    → (less_equal a b ≡ (greater a b >>= λ g. ok (not g)))
      × (greater_equal a b ≡ (less a b >>= λ l. ok (not l)))
      × (equal a b ≡ (less a b >>= λ l. greater a b >>= λ g. ok (not l && not g)))
      × ((equal a b ≡ ok true) ↔ (x ≡ y))
unfolding less greater less_equal greater_equal equal
comparisons_agree s a b x y ha hb =
    let at = λ (f : ℕ → ℕ → Bool). compare_by-IsAt f ha hb in
    ground (arith, at ltb, at (λ m n. ltb n m), at leb, at (λ m n. leb n m), at ◌==◌)
