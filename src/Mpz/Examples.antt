-- ===== src/Mpz/Examples.antt =====
-- Conversions with integers that the functions of GMP compute on as its manual says.
use sound_bit_precise_domain.Prelude.{false, ◌%◌, ◌^◌, ◌<◌, ◌≡◌, ◌↔◌, true, ok, ◌>>=◌, arith}
use sound_bit_precise_domain.Prelude.Int.{pos, negsuc}
use sound_bit_precise_domain.Value.{eight, make, make-IsAt_fits, get_bit_width}
use sound_bit_precise_domain.Mpz.{
  convert_to_mpz, convert_to_value, get_min_int, get_max_int, mpz_get_ull,
}
use sound_bit_precise_domain.Mpz.Exact.{gmp, gmp-IsGmp}
use sound_bit_precise_domain.Mpz.Convert.{bounds_of_size}
use sound_bit_precise_domain.Mpz.Negative.{convert_to_value-negsuc}
use sound_bit_precise_domain.Mpz.Narrow.{get_ull_long_64, convert_to_value-convert_to_mpz}

bounds_of_size_example :
    (convert_to_mpz (gmp 64) (get_min_int eight true) true ≡ ok (negsuc 127))
    × (convert_to_mpz (gmp 64) (get_max_int eight true) true ≡ ok (pos 127))
unfolding get_bit_width
bounds_of_size_example = bounds_of_size (gmp 64) 64 (gmp-IsGmp 64) eight true

-- The word of 2 ^ 40 is another number.
get_ull_long_64_example :
    (mpz_get_ull (gmp 64) (pos (2 ^ 40)) ≡ 2 ^ 40 % 2 ^ 64) ↔ (2 ^ 40 % 2 ^ 64 < 2 ^ 32)
get_ull_long_64_example = get_ull_long_64 (gmp 64) (gmp-IsGmp 64) (2 ^ 40)

convert_to_value-convert_to_mpz_example :
    (convert_to_mpz (gmp 64) (make eight 200) true >>= λ z.
    ok (convert_to_value (gmp 64) z eight true))
    ≡ ok (make eight 200)
convert_to_value-convert_to_mpz_example =
    convert_to_value-convert_to_mpz (gmp 64) (gmp-IsGmp 64) eight (make eight 200) 200 true
      (λ e. cc) (make-IsAt_fits eight 200 (omega arith))

-- The word of -1 is 1.
convert_to_value-negsuc_example :
    convert_to_value (gmp 64) (negsuc 0) eight false ≡ convert_to_value (gmp 64) (pos 1) eight false
convert_to_value-negsuc_example =
    convert_to_value-negsuc (gmp 64) 64 (gmp-IsGmp 64) eight 0 (λ e. cc)
