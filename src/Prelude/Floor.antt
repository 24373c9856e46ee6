-- ===== src/Prelude/Floor.antt =====
-- Division of an integer by a positive number, rounded down, and multiples of a number.
use native.Mathlib.Nat.{div-add-mod', mod-lt, le_trans, div-mul-le_self, le-div_iff_mul-le}
use sound_bit_precise_domain.Prelude.Int.{
  ℤ, pos, negsuc, pos_part, neg_part, sub_ℕ, ◌-ℤ◌, ◌≤ℤ◌, -ℤ_parts,
}
use Prim.Native.Nat.{ℕ, suc, ◌+◌, ◌-◌, ◌*◌, ◌/◌, ◌≤◌, ◌<◌}
use native.Mathlib.Decide.{dec_le}
use mathlib.Core.Path.{◌≡◌}
use native.Mathlib.Omega.{arith}

unfoldable pub floor_div : ℤ → ℕ → ℤ
floor_div (pos n) d = pos (n / d)
floor_div (negsuc n) d = negsuc (n / d)

unfoldable pub scale : ℤ → ℕ → ℤ
scale (pos n) d = pos (n * d)
scale (negsuc n) d = sub_ℕ 0 (suc n * d)

pub scale_parts :
    (a : ℤ) (d : ℕ) → pos_part (scale a d) + neg_part a * d ≡ neg_part (scale a d) + pos_part a * d
unfolding scale
scale_parts (pos n) d = grind arith
scale_parts (negsuc n) d = grind arith

-- What is left of an integer after its multiple of `d` lies from 0 to `d - 1`.
pub floor_div_rest :
    (a : ℤ) (d : ℕ)
    → 0 < d
    → (pos 0 ≤ℤ a -ℤ scale (floor_div a d) d) × (a -ℤ scale (floor_div a d) d ≤ℤ pos (d - 1))
unfolding floor_div
floor_div_rest (pos n) d h = omega (
  arith,
  -ℤ_parts (pos n) (scale (pos (n / d)) d),
  scale_parts (pos (n / d)) d,
  div-add-mod' n d,
  mod-lt n h,
)
floor_div_rest (negsuc n) d h = omega (
  arith,
  -ℤ_parts (negsuc n) (scale (negsuc (n / d)) d),
  scale_parts (negsuc (n / d)) d,
  div-add-mod' n d,
  mod-lt n h,
)

div_mono : (m n d : ℕ) → 0 < d → m ≤ n → m / d ≤ n / d
div_mono m n d h k = (le-div_iff_mul-le h).1 (le_trans (div-mul-le_self m d) k)

div_le : (m n d : ℕ) → 0 < d → m < suc n * d → m / d ≤ n
div_le m n d h k = elim (dec_le (m / d) n) [
  | yes p ↦ p
  | no p ↦ absurd (omega (arith, (le-div_iff_mul-le {x = suc n} {y = m} h).0 (omega arith)))
]

pub floor_div_mono : (a b : ℤ) (d : ℕ) → 0 < d → a ≤ℤ b → floor_div a d ≤ℤ floor_div b d
unfolding floor_div
floor_div_mono (pos m) (pos n) d h k = omega (arith, div_mono m n d h (omega arith))
floor_div_mono (pos m) (negsuc n) d h k = absurd (omega arith)
floor_div_mono (negsuc m) (pos n) d h k = omega arith
floor_div_mono (negsuc m) (negsuc n) d h k = omega (arith, div_mono n m d h (omega arith))

-- Rounding a bound down keeps it a bound of the integers.
pub floor_div_le : (a v : ℤ) (d : ℕ) → 0 < d → a ≤ℤ scale v d → floor_div a d ≤ℤ v
unfolding floor_div
floor_div_le (pos m) (pos n) d h k =
    omega (arith, div_le m n d h (omega (arith, scale_parts (pos n) d)))
floor_div_le (pos m) (negsuc n) d h k = absurd (omega (arith, scale_parts (negsuc n) d))
floor_div_le (negsuc m) (pos n) d h k = omega arith
floor_div_le (negsuc m) (negsuc n) d h k =
    omega (arith, (le-div_iff_mul-le {x = n} {y = m} h).1 (omega (arith, scale_parts (negsuc n) d)))

pub le-floor_div : (a v : ℤ) (d : ℕ) → 0 < d → scale v d ≤ℤ a → v ≤ℤ floor_div a d
unfolding floor_div
le-floor_div (pos m) (pos n) d h k =
    omega (arith, (le-div_iff_mul-le {x = n} {y = m} h).1 (omega (arith, scale_parts (pos n) d)))
le-floor_div (pos m) (negsuc n) d h k = omega arith
le-floor_div (negsuc m) (pos n) d h k = absurd (omega (arith, scale_parts (pos n) d))
le-floor_div (negsuc m) (negsuc n) d h k =
    omega (arith, div_le m n d h (omega (arith, scale_parts (negsuc n) d)))
