-- ===== src/Mpz/Convert.antt =====
-- The integer that a machine word is converted to, and the least and largest words.
use sound_bit_precise_domain.Prelude.{
  ℕ, ◌-◌, ◌/◌, ◌%◌, ◌^◌, ◌<◌, ◌≡◌, ap, ◌∙◌, Bool, true, false, ok, if◌then◌else◌, arith,
}
use sound_bit_precise_domain.Prelude.Int.{ℤ, pos, ◌+ℤ◌, +ℤ_parts, eq_of_parts, sub_ℕ}
use sound_bit_precise_domain.Prelude.Floor.{scale, scale_parts}
use sound_bit_precise_domain.Value.{
  Value, Bitsize, sixty_four, thirty_two, sixteen, eight, one, make, assign, modulus, get_bit_width,
  IsAt,
}
use sound_bit_precise_domain.Value.Signed.{signed}
use sound_bit_precise_domain.Mpz.{
  Gmp, IsGmp, mpz_set_sll, mpz_set_ull, convert_bits, convert_to_mpz, get_max_int, get_min_int,
  max_bits, min_bits,
}

-- The integer that a word of the size stands for; a 1-bit word has no sign.
abbrev pub meaning : Bitsize → ℕ → Bool → ℤ
meaning one x is_signed = pos x
meaning s x is_signed = if is_signed then signed (modulus s) x else pos x

unsigned_halves : (x : ℕ) → scale (pos (x / 2 ^ 32)) (2 ^ 32) +ℤ pos (x % 2 ^ 32) ≡ pos x
unsigned_halves x = eq_of_parts _ _ (
    omega (
      arith,
      +ℤ_parts (scale (pos (x / 2 ^ 32)) (2 ^ 32)) (pos (x % 2 ^ 32)),
      scale_parts (pos (x / 2 ^ 32)) (2 ^ 32),
    ))

signed_halves :
    (x : ℕ)
    → x < 2 ^ 64
    → scale (signed (2 ^ 32) (x / 2 ^ 32)) (2 ^ 32) +ℤ pos (x % 2 ^ 32) ≡ signed (2 ^ 64) x
unfolding signed
signed_halves x h = eq_of_parts _ _ ground (
  arith,
  +ℤ_parts (scale (signed (2 ^ 32) (x / 2 ^ 32)) (2 ^ 32)) (pos (x % 2 ^ 32)),
  scale_parts (signed (2 ^ 32) (x / 2 ^ 32)) (2 ^ 32),
)

abbrev pub least : Bitsize → Bool → ℤ
least one is_signed = pos 0
least s true = sub_ℕ 0 (2 ^ (get_bit_width s - 1))
least s false = pos 0

abbrev pub largest : Bitsize → Bool → ℤ
largest one is_signed = pos 1
largest s true = pos (2 ^ (get_bit_width s - 1) - 1)
largest s false = pos (2 ^ get_bit_width s - 1)

least-meaning :
    (s : Bitsize) (is_signed : Bool)
    → meaning s (min_bits s is_signed) is_signed ≡ least s is_signed
unfolding min_bits signed get_bit_width
least-meaning s is_signed = ground arith

largest-meaning :
    (s : Bitsize) (is_signed : Bool)
    → meaning s (max_bits s is_signed) is_signed ≡ largest s is_signed
unfolding max_bits signed get_bit_width
largest-meaning s is_signed = ground arith

min_int-IsAt :
    (s : Bitsize) (is_signed : Bool) → IsAt s (get_min_int s is_signed) (min_bits s is_signed)
unfolding get_min_int min_bits assign make
min_int-IsAt s is_signed = ground arith

max_int-IsAt :
    (s : Bitsize) (is_signed : Bool) → IsAt s (get_max_int s is_signed) (max_bits s is_signed)
unfolding get_max_int max_bits assign make
max_int-IsAt s is_signed = ground arith

module _ (gmp : Gmp) (width : ℕ) (laws : IsGmp width gmp) where
  convert_bits-meaning :
      (s : Bitsize) (x : ℕ) (is_signed : Bool)
      → x < modulus s
      → convert_bits gmp s x is_signed ≡ meaning s x is_signed
  unfolding convert_bits mpz_set_sll mpz_set_ull
  convert_bits-meaning sixty_four x true h =
      ap (λ z. gmp.add_ui (gmp.mul_2exp z 32) (x % 2 ^ 32))
        (laws.set_si_lem (signed (2 ^ 32) (x / 2 ^ 32)))
      ∙ ap (λ z. gmp.add_ui z (x % 2 ^ 32)) (laws.mul_2exp_lem (signed (2 ^ 32) (x / 2 ^ 32)) 32)
      ∙ laws.add_ui_lem (scale (signed (2 ^ 32) (x / 2 ^ 32)) (2 ^ 32)) (x % 2 ^ 32)
      ∙ signed_halves x h
  convert_bits-meaning sixty_four x false h =
      ap (λ z. gmp.add_ui (gmp.mul_2exp z 32) (x % 2 ^ 32)) (laws.set_ui_lem (x / 2 ^ 32))
      ∙ ap (λ z. gmp.add_ui z (x % 2 ^ 32)) (laws.mul_2exp_lem (pos (x / 2 ^ 32)) 32)
      ∙ laws.add_ui_lem (scale (pos (x / 2 ^ 32)) (2 ^ 32)) (x % 2 ^ 32)
      ∙ unsigned_halves x
  convert_bits-meaning thirty_two x true h = laws.set_si_lem _
  convert_bits-meaning thirty_two x false h = laws.set_ui_lem x
  convert_bits-meaning sixteen x true h = laws.set_si_lem _
  convert_bits-meaning sixteen x false h = laws.set_ui_lem x
  convert_bits-meaning eight x true h = laws.set_si_lem _
  convert_bits-meaning eight x false h = laws.set_ui_lem x
  convert_bits-meaning one x true h = laws.set_si_lem _
  convert_bits-meaning one x false h = laws.set_si_lem _

  pub convert_to_mpz-meaning :
      (s : Bitsize) (v : Value) (x : ℕ) (is_signed : Bool)
      → IsAt s v x
      → convert_to_mpz gmp v is_signed ≡ ok (meaning s x is_signed)
  unfolding convert_to_mpz
  convert_to_mpz-meaning s v x is_signed h =
      ground (arith, convert_bits-meaning s x is_signed h.fits)

  -- The least and the largest word of each size and sign are converted to the bounds of the type:
  -- from -2 ^ (w - 1) to 2 ^ (w - 1) - 1 for a signed word of w bits, from 0 to 2 ^ w - 1 for an
  -- unsigned one, and from 0 to 1 for a single bit. This holds with the functions of GMP as
  -- documented.
  pub bounds_of_size :
      (s : Bitsize) (is_signed : Bool)
      → (convert_to_mpz gmp (get_min_int s is_signed) is_signed ≡ ok (least s is_signed))
        × (convert_to_mpz gmp (get_max_int s is_signed) is_signed ≡ ok (largest s is_signed))
  bounds_of_size s is_signed = (
    convert_to_mpz-meaning s _ (min_bits s is_signed) is_signed (min_int-IsAt s is_signed)
        ∙ ap ok (least-meaning s is_signed),
    convert_to_mpz-meaning s _ (max_bits s is_signed) is_signed (max_int-IsAt s is_signed)
        ∙ ap ok (largest-meaning s is_signed),
  )
