-- ===== src/WrappedInt/Arithmetic.antt =====
-- Sum, difference, product and negation of integers, in every step of theirs.
use sound_bit_precise_domain.Prelude.{◌≡◌, refl, subst, Result, ok, arith, inl, inr, Bool-cases}
use mathlib.Core.Path.{fun_ext}
use sound_bit_precise_domain.Prelude.Int.{
  ℤ, pos, negsuc, ◌+ℤ◌, ◌-ℤ◌, ◌*ℤ◌, +ℤ_parts, -ℤ_parts, eq_of_parts,
}
use sound_bit_precise_domain.Container.{eqb}
use sound_bit_precise_domain.Dimension.Key.{DimensionKey, key_ord}
use sound_bit_precise_domain.Wrapped.Meaning.{State}
use sound_bit_precise_domain.WrappedInt.Setting.{Setting}
use sound_bit_precise_domain.WrappedInt.Record.{WrappedInt}
use sound_bit_precise_domain.WrappedInt.Linear.{plus_constant, minus_constant, lin_transform}
use sound_bit_precise_domain.WrappedInt.Meaning.{Holds}
use sound_bit_precise_domain.WrappedInt.Sound.{IsSound}
use sound_bit_precise_domain.WrappedInt.Set.{set}
use sound_bit_precise_domain.WrappedInt.Transform.{lin_transform-Holds}
use sound_bit_precise_domain.WrappedInt.Combine.{IsApart, IsClear}

pub one_times : (z : ℤ) → pos 1 *ℤ z ≡ z
unfolding ◌*ℤ◌
one_times z = ground arith

pub minus_one_times : (z : ℤ) → negsuc 0 *ℤ z ≡ pos 0 -ℤ z
unfolding ◌*ℤ◌ ◌-ℤ◌
minus_one_times z = ground arith

pub add_zero : (z : ℤ) → z +ℤ pos 0 ≡ z
add_zero z = eq_of_parts _ _ (omega (arith, +ℤ_parts z (pos 0)))

pub cancels : (x c v : ℤ) → v ≡ x +ℤ c → pos 1 *ℤ x +ℤ (negsuc 0 *ℤ v +ℤ c) ≡ pos 0
cancels x c v h =
    rw (one_times x, minus_one_times v, h)
      (eq_of_parts _ _ (
        omega (
          arith,
          +ℤ_parts x c,
          +ℤ_parts x (pos 0 -ℤ (x +ℤ c) +ℤ c),
          +ℤ_parts (pos 0 -ℤ (x +ℤ c)) c,
          -ℤ_parts (pos 0) (x +ℤ c),
        )))

pub cancels_both :
    (x y v : ℤ) → v ≡ x +ℤ y → pos 1 *ℤ y +ℤ (pos 1 *ℤ x +ℤ (negsuc 0 *ℤ v +ℤ pos 0)) ≡ pos 0
cancels_both x y v h =
    rw (one_times x, one_times y, minus_one_times v, h, add_zero (pos 0 -ℤ (x +ℤ y)))
      (eq_of_parts _ _ (
        omega (
          arith,
          +ℤ_parts x y,
          +ℤ_parts y (x +ℤ (pos 0 -ℤ (x +ℤ y))),
          +ℤ_parts x (pos 0 -ℤ (x +ℤ y)),
          -ℤ_parts (pos 0) (x +ℤ y),
        )))

pub cancels_difference :
    (x y v : ℤ) → v ≡ x -ℤ y → negsuc 0 *ℤ y +ℤ (pos 1 *ℤ x +ℤ (negsuc 0 *ℤ v +ℤ pos 0)) ≡ pos 0
cancels_difference x y v h =
    rw (one_times x, minus_one_times y, minus_one_times v, h, add_zero (pos 0 -ℤ (x -ℤ y)))
      (eq_of_parts _ _ (
        omega (
          arith,
          -ℤ_parts x y,
          -ℤ_parts (pos 0) y,
          +ℤ_parts (pos 0 -ℤ y) (x +ℤ (pos 0 -ℤ (x -ℤ y))),
          +ℤ_parts x (pos 0 -ℤ (x -ℤ y)),
          -ℤ_parts (pos 0) (x -ℤ y),
        )))

sub_as_add : (x c : ℤ) → x -ℤ c ≡ x +ℤ (pos 0 -ℤ c)
sub_as_add x c =
    eq_of_parts _ _ (omega (arith, +ℤ_parts x (pos 0 -ℤ c), -ℤ_parts x c, -ℤ_parts (pos 0) c))

pub add_comm : (x y : ℤ) → x +ℤ y ≡ y +ℤ x
add_comm x y = eq_of_parts _ _ (omega (arith, +ℤ_parts x y, +ℤ_parts y x))

pub set-set : (p : State) (k : DimensionKey) (y v : ℤ) → set (set p k y) k v ≡ set p k v
set-set p k y v =
    fun_ext (λ j. elim (Bool-cases (eqb j k)) [ inl e ↦ rw e refl | inr e ↦ rw e refl ])

module _ (s : Setting) (sound : IsSound s) where
  -- What is known of an operand: its step, and that it has no temporary dimension.
  pub record IsOperand (this : WrappedInt s) (k : DimensionKey) (p : State) : Type 0 where
    pub key : this.k ≡ k
    pub apart : IsApart k
    pub clear : IsClear s sound this.wav k
    pub holds : Holds s.d sound.snd this.wav p

  -- The operation gives the integer a value in the step, and leaves the rest of it.
  abbrev pub Gives : Result (WrappedInt s) → DimensionKey → State → ℤ → Type 0
  Gives o k p v =
      (r : WrappedInt s) × (o ≡ ok r) × (r.k ≡ k) × Holds s.d sound.snd r.wav (set p k v)

  transformed_at :
      (this : WrappedInt s) (p : State) (n o c v : ℤ)
      → IsApart this.k
      → IsClear s sound this.wav this.k
      → Holds s.d sound.snd this.wav p
      → o *ℤ p this.k +ℤ (n *ℤ v +ℤ c) ≡ pos 0
      → Gives (lin_transform s this n o c) this.k p v
  transformed_at this p n o c v apart clear h sum =
      let r = lin_transform-Holds s sound this p n o c v h clear.first apart.first sum in
      (r.0, r.1, r.2, r.3)

  pub transformed :
      (this : WrappedInt s) (k : DimensionKey) (p : State) (n o c v : ℤ)
      → IsOperand this k p
      → o *ℤ p k +ℤ (n *ℤ v +ℤ c) ≡ pos 0
      → Gives (lin_transform s this n o c) k p v
  transformed this k p n o c v h =
      subst
        (λ i.
          IsApart i
          → IsClear s sound this.wav i
          → o *ℤ p i +ℤ (n *ℤ v +ℤ c) ≡ pos 0
          → Gives (lin_transform s this n o c) i p v)
        h.key (λ apart clear sum. transformed_at this p n o c v apart clear h.holds sum) h.apart
        h.clear

  pub plus_constant-Gives :
      (this : WrappedInt s) (k : DimensionKey) (p : State) (c : ℤ)
      → IsOperand this k p
      → Gives (plus_constant s this c) k p (p k +ℤ c)
  unfolding plus_constant
  plus_constant-Gives this k p c h =
      transformed this k p (negsuc 0) (pos 1) c (p k +ℤ c) h (cancels (p k) c (p k +ℤ c) refl)

  pub minus_constant-Gives :
      (this : WrappedInt s) (k : DimensionKey) (p : State) (c : ℤ)
      → IsOperand this k p
      → Gives (minus_constant s this c) k p (p k -ℤ c)
  unfolding minus_constant
  minus_constant-Gives this k p c h =
      transformed this k p (negsuc 0) (pos 1) (pos 0 -ℤ c) (p k -ℤ c) h
        (cancels (p k) (pos 0 -ℤ c) (p k -ℤ c) (sub_as_add (p k) c))
