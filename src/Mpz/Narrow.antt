-- ===== src/Mpz/Narrow.antt =====
-- Conversions of the integers of GMP back to machine words.
use sound_bit_precise_domain.Prelude.{
  ℕ, ◌+◌, ◌-◌, ◌*◌, ◌/◌, ◌%◌, ◌^◌, ◌≤◌, ◌<◌, ◌≡◌, ◌≢◌, ◌↔◌, refl, ap, ◌∙◌, Bool, true, false, arith,
}
use native.Mathlib.Nat.{mod-eq_of_lt}
use sound_bit_precise_domain.Prelude.{ok, ◌>>=◌}
use sound_bit_precise_domain.Prelude.Int.{pos, ◌≤ℤ◌, sub_ℕ}
use sound_bit_precise_domain.Value.{
  Value, Bitsize, sixty_four, thirty_two, sixteen, eight, one, modulus, make, IsAt,
}
use sound_bit_precise_domain.Value.Signed.{signed, to_unsigned}
use sound_bit_precise_domain.Mpz.{
  Gmp, IsGmp, mpz_get_ull, word_of, convert_to_mpz, convert_to_value,
}
use sound_bit_precise_domain.Mpz.Convert.{meaning, convert_to_mpz-meaning}

module _ (gmp : Gmp) (long_width : ℕ) (laws : IsGmp long_width gmp) where
  get_ull_parts :
      (n : ℕ)
      → mpz_get_ull gmp (pos n)
        ≡ (n % 2 ^ 64 / 2 ^ 32 % 2 ^ long_width * 2 ^ 32 % 2 ^ 64 + n % 2 ^ 64 % 2 ^ long_width)
          % 2 ^ 64
  unfolding mpz_get_ull
  get_ull_parts n =
      rw
        (
          laws.mod_2exp_lem n 64,
          laws.div_2exp_lem (n % 2 ^ 64) 32,
          laws.get_ui_lem (n % 2 ^ 64),
          laws.get_ui_lem (n % 2 ^ 64 / 2 ^ 32),
        )
        refl

word_halves :
    (r : ℕ) → r < 2 ^ 64 → (r / 2 ^ 32 % 2 ^ 32 * 2 ^ 32 % 2 ^ 64 + r % 2 ^ 32) % 2 ^ 64 ≡ r
word_halves r h = omega arith

word_twice :
    (r : ℕ)
    → r < 2 ^ 64
    → ((r / 2 ^ 32 % 2 ^ 64 * 2 ^ 32 % 2 ^ 64 + r % 2 ^ 64) % 2 ^ 64 ≡ r) ↔ (r < 2 ^ 32)
word_twice r h = ground arith

-- Where `unsigned long` has 32 bits, the word of an integer that is not negative holds its low 64
-- bits. The functions of GMP do what is documented.
pub get_ull_long_32 : (gmp : Gmp) → IsGmp 32 gmp → (n : ℕ) → mpz_get_ull gmp (pos n) ≡ n % 2 ^ 64
get_ull_long_32 gmp laws n = get_ull_parts gmp 32 laws n ∙ word_halves (n % 2 ^ 64) (omega arith)

-- Where `unsigned long` has 64 bits, the word of an integer that is not negative holds its low 64
-- bits only if these are a number below 2 ^ 32. The functions of GMP do what is documented.
pub get_ull_long_64 :
    (gmp : Gmp)
    → IsGmp 64 gmp
    → (n : ℕ) → (mpz_get_ull gmp (pos n) ≡ n % 2 ^ 64) ↔ (n % 2 ^ 64 < 2 ^ 32)
get_ull_long_64 gmp laws n =
    rw (get_ull_parts gmp 64 laws n) (word_twice (n % 2 ^ 64) (omega arith))

small_signed :
    (s : Bitsize) (x : ℕ)
    → s ≢ sixty_four
    → s ≢ one
    → x < modulus s
    → (sub_ℕ 0 (2 ^ 31) ≤ℤ signed (modulus s) x) × (signed (modulus s) x ≤ℤ pos (2 ^ 31 - 1))
unfolding signed
small_signed sixty_four x n m h = absurd (n refl)
small_signed thirty_two x n m h = ground arith
small_signed sixteen x n m h = ground arith
small_signed eight x n m h = ground arith
small_signed one x n m h = absurd (m refl)

back_to_word :
    (s : Bitsize) (x : ℕ)
    → s ≢ sixty_four
    → s ≢ one
    → x < modulus s
    → to_unsigned (modulus s) (signed (modulus s) x) ≡ x
unfolding signed to_unsigned
back_to_word sixty_four x n m h = absurd (n refl)
back_to_word thirty_two x n m h = ground arith
back_to_word sixteen x n m h = ground arith
back_to_word eight x n m h = ground arith
back_to_word one x n m h = absurd (m refl)

bit_word : (x : ℕ) → x < 2 → to_unsigned (2 ^ 8) (pos x) ≡ x
unfolding to_unsigned
bit_word x h = omega arith

module _ (gmp : Gmp) (laws : IsGmp 64 gmp) where
  signed_word :
      (s : Bitsize) (x : ℕ)
      → s ≢ sixty_four
      → s ≢ one
      → x < modulus s
      → to_unsigned (modulus s) (gmp.get_si (signed (modulus s) x)) ≡ x
  signed_word s x n m h =
      let range = small_signed s x n m h in
      ap (to_unsigned (modulus s)) (laws.get_si_lem _ range.0 range.1) ∙ back_to_word s x n m h

  unsigned_word : (m x : ℕ) → x < m → m ≤ 2 ^ 64 → gmp.get_ui (pos x) % m ≡ x
  unsigned_word m x h k =
      let low : x % 2 ^ 64 ≡ x = mod-eq_of_lt (omega (arith, h, k)) in
      rw (laws.get_ui_lem x, low) (mod-eq_of_lt h)

  word_of-meaning :
      (s : Bitsize) (x : ℕ) (is_signed : Bool)
      → s ≢ sixty_four
      → x < modulus s
      → word_of gmp s (meaning s x is_signed) is_signed ≡ x
  unfolding word_of
  word_of-meaning sixty_four x b n h = absurd (n refl)
  word_of-meaning thirty_two x true n h = signed_word thirty_two x n (λ e. cc) h
  word_of-meaning thirty_two x false n h = unsigned_word (2 ^ 32) x h (omega arith)
  word_of-meaning sixteen x true n h = signed_word sixteen x n (λ e. cc) h
  word_of-meaning sixteen x false n h = unsigned_word (2 ^ 16) x h (omega arith)
  word_of-meaning eight x true n h = signed_word eight x n (λ e. cc) h
  word_of-meaning eight x false n h = unsigned_word (2 ^ 8) x h (omega arith)
  word_of-meaning one x true n h =
      ap (to_unsigned (2 ^ 8)) (laws.get_si_lem (pos x) (omega arith) (omega (arith, h)))
      ∙ bit_word x h
  word_of-meaning one x false n h = unsigned_word (2 ^ 8) x (omega arith) (omega arith)

  -- A word of 1, 8, 16 or 32 bits that is converted to an integer and back with the same sign is
  -- the word again. An `unsigned long` has 64 bits here, and the functions of GMP do what is
  -- documented.
  pub convert_to_value-convert_to_mpz :
      (s : Bitsize) (v : Value) (x : ℕ) (is_signed : Bool)
      → s ≢ sixty_four
      → IsAt s v x
      → (convert_to_mpz gmp v is_signed >>= λ z. ok (convert_to_value gmp z s is_signed))
        ≡ ok (make s x)
  unfolding convert_to_value
  convert_to_value-convert_to_mpz s v x is_signed n h =
      rw
        (
          convert_to_mpz-meaning gmp 64 laws s v x is_signed h,
          word_of-meaning s x is_signed n h.fits,
        )
        refl
