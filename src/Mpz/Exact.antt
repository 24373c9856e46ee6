-- ===== src/Mpz/Exact.antt =====
-- The functions of GMP computed on integers as its manual says, with an `unsigned long` of `w` bits.
use sound_bit_precise_domain.Prelude.{ℕ, suc, ◌-◌, ◌/◌, ◌%◌, ◌^◌, refl}
use sound_bit_precise_domain.Prelude.Int.{ℤ, pos, negsuc, ◌+ℤ◌}
use sound_bit_precise_domain.Prelude.Floor.{scale}
use sound_bit_precise_domain.Mpz.{Gmp, IsGmp}

abbrev pub mod_2exp : ℤ → ℕ → ℤ
mod_2exp (pos n) w = pos (n % 2 ^ w)
mod_2exp (negsuc n) w = pos (2 ^ w - 1 - n % 2 ^ w)

abbrev pub div_2exp : ℤ → ℕ → ℤ
div_2exp (pos n) w = pos (n / 2 ^ w)
div_2exp (negsuc n) w = negsuc (n / 2 ^ w)

abbrev pub get_ui : ℕ → ℤ → ℕ
get_ui w (pos n) = n % 2 ^ w
get_ui w (negsuc n) = suc n % 2 ^ w

-- `get_si` is only asked for integers that fit.
abbrev pub gmp : ℕ → Gmp
gmp w = record {
  set_si = λ z. z;
  set_ui = λ n. pos n;
  mul_2exp = λ z n. scale z (2 ^ n);
  add_ui = λ z n. z +ℤ pos n;
  mod_2exp = mod_2exp;
  div_2exp = div_2exp;
  get_ui = get_ui w;
  get_si = λ z. z;
}

pub gmp-IsGmp : (w : ℕ) → IsGmp w (gmp w)
gmp-IsGmp w = record {
  set_si_lem = λ z. refl;
  set_ui_lem = λ n. refl;
  mul_2exp_lem = λ z n. refl;
  add_ui_lem = λ z n. refl;
  mod_2exp_lem = λ n v. refl;
  div_2exp_lem = λ n v. refl;
  get_ui_lem = λ n. refl;
  get_ui_negative_lem = λ n. refl;
  get_si_lem = λ z lo hi. refl;
}
