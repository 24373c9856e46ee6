-- ===== src/Mpz/Negative.antt =====
-- Conversion of negative integers to unsigned words.
use sound_bit_precise_domain.Prelude.{ℕ, suc, ◌%◌, ◌^◌, ◌≡◌, ◌≢◌, refl, ap, sym, ◌∙◌, false}
use sound_bit_precise_domain.Prelude.Int.{pos, negsuc}
use sound_bit_precise_domain.Value.{Bitsize, sixty_four, thirty_two, sixteen, eight, one, make}
use sound_bit_precise_domain.Mpz.{Gmp, IsGmp, word_of, convert_to_value}

module _ (gmp : Gmp) (long_width : ℕ) (laws : IsGmp long_width gmp) where
  same_low_bits : (n : ℕ) → gmp.get_ui (negsuc n) ≡ gmp.get_ui (pos (suc n))
  same_low_bits n = laws.get_ui_negative_lem n ∙ sym (laws.get_ui_lem (suc n))

  word_of-negsuc :
      (s : Bitsize) (n : ℕ)
      → s ≢ sixty_four
      → word_of gmp s (negsuc n) false ≡ word_of gmp s (pos (suc n)) false
  unfolding word_of
  word_of-negsuc sixty_four n h = absurd (h refl)
  word_of-negsuc thirty_two n h = ap (λ m. m % 2 ^ 32) (same_low_bits n)
  word_of-negsuc sixteen n h = ap (λ m. m % 2 ^ 16) (same_low_bits n)
  word_of-negsuc eight n h = ap (λ m. m % 2 ^ 8) (same_low_bits n)
  word_of-negsuc one n h = ap (λ m. m % 2 ^ 8) (same_low_bits n)

  -- The conversion of a negative integer to an unsigned word of fewer than 64 bits ignores the
  -- sign: -n has the word of n. The functions of GMP do what is documented.
  pub convert_to_value-negsuc :
      (s : Bitsize) (n : ℕ)
      → s ≢ sixty_four
      → convert_to_value gmp (negsuc n) s false ≡ convert_to_value gmp (pos (suc n)) s false
  unfolding convert_to_value
  convert_to_value-negsuc s n h = ap (make s) (word_of-negsuc s n h)
