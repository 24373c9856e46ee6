-- ===== src/WrappedInt/Masks.antt =====
-- Bit operations with a constant whose bits are all ones.
use sound_bit_precise_domain.Prelude.{
  ℕ, ◌%◌, ◌≡◌, ◌≢◌, refl, ap, ◌∙◌, false, ◌==◌, none, some, Result, err, ok, arith, ◌>>=◌,
}
use sound_bit_precise_domain.Prelude.Int.{ℤ, pos}
use sound_bit_precise_domain.Value.{Bitsize, modulus, make-IsAt}
use sound_bit_precise_domain.Mpz.{convert_to_value, word_of}
use sound_bit_precise_domain.Mpz.Convert.{meaning, convert_to_mpz-meaning}
use sound_bit_precise_domain.WrappedInt.Setting.{Setting}
use sound_bit_precise_domain.WrappedInt.Record.{WrappedInt, is_constant}
use sound_bit_precise_domain.WrappedInt.Linear.{any_of_both}
use sound_bit_precise_domain.WrappedInt.Divide.{truncated}
use sound_bit_precise_domain.WrappedInt.Bits.{bitwise_and}
use sound_bit_precise_domain.WrappedInt.Sound.{IsSound}

unsigned_meaning : (b : Bitsize) (n : ℕ) → meaning b n false ≡ pos n
unsigned_meaning b n = ground arith

other : (n : ℕ) → n ≢ 0 → (n == 0) ≡ false
other n h = ground arith

bind_ok : {A : Type 0} (o : Result A) → (o >>= λ r. ok r) ≡ o
bind_ok (err f) = refl
bind_ok (ok r) = refl

module _ (s : Setting) (sound : IsSound s) where
  -- The number that an integer is cut to, read as unsigned.
  pub truncated_lem :
      (c : ℤ) (b : Bitsize) → truncated s c b false ≡ ok (pos (word_of s.gmp b c false % modulus b))
  unfolding truncated convert_to_value
  truncated_lem c b =
      convert_to_mpz-meaning s.gmp sound.width sound.laws b _ _ false
        (make-IsAt b (word_of s.gmp b c false))
      ∙ ap ok (unsigned_meaning b _)

  -- Of a constant with a word that is not zero and an integer that is not constant, the bitwise
  -- conjunction is any value, also where the bits of the constant are all ones.
  pub bitwise_and_mask :
      (this that : WrappedInt s) (c : ℤ)
      → is_constant s this ≡ none
      → is_constant s that ≡ some c
      → word_of s.gmp this.k.bitsize c false % modulus this.k.bitsize ≢ 0
      → bitwise_and s this that ≡ any_of_both s this that
  unfolding bitwise_and
  bitwise_and_mask this that c e f nonzero =
      rw
        (
          e,
          f,
          truncated_lem (pos 0) this.k.bitsize,
          truncated_lem c this.k.bitsize,
          other _ nonzero,
          bitwise_and,
        )
        (bind_ok (any_of_both s this that))
