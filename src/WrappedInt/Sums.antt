-- ===== src/WrappedInt/Sums.antt =====
-- Sum, difference, product and negation of two integers, on every branch.
use sound_bit_precise_domain.Prelude.{
  ◌≡◌, refl, ap, ap₂, subst, ◌∙◌, Option, none, some, Result, arith, inl, inr, Option-cases,
}
use sound_bit_precise_domain.Prelude.Int.{
  ℤ, pos, negsuc, ◌+ℤ◌, ◌-ℤ◌, ◌*ℤ◌, +ℤ_parts, -ℤ_parts, eq_of_parts, sub_ℕ,
}
use sound_bit_precise_domain.Dimension.Key.{DimensionKey, key_ord}
use sound_bit_precise_domain.Wrapped.Meaning.{State}
use sound_bit_precise_domain.WrappedInt.Setting.{Setting}
use sound_bit_precise_domain.WrappedInt.Record.{WrappedInt, is_constant}
use sound_bit_precise_domain.WrappedInt.Linear.{plus, minus, negate, lin_combine}
use sound_bit_precise_domain.WrappedInt.Meaning.{Holds}
use sound_bit_precise_domain.WrappedInt.Sound.{IsSound}
use sound_bit_precise_domain.WrappedInt.Set.{set, set_same}
use sound_bit_precise_domain.WrappedInt.Combine.{IsApart, IsClear, lin_combine-Holds}
use sound_bit_precise_domain.WrappedInt.Arithmetic.{
  IsOperand, Gives, transformed, plus_constant-Gives, minus_constant-Gives, cancels_both,
  cancels_difference, add_comm, set-set, one_times, minus_one_times, add_zero,
}

-- What an operation takes for the value of an operand: the constant that `IsConstant` gives for
-- it, if there is one, whether or not that is the value in the step.
abbrev pub found : Option ℤ → ℤ → ℤ
found (some c) z = c
found none z = z

-- The sum and the difference that the operations compute. Of two constants, they use the second.
abbrev pub sum_found : Option ℤ → Option ℤ → ℤ → ℤ → ℤ
sum_found this_c (some c) x y = x +ℤ c
sum_found this_c none x y = found this_c x +ℤ y

abbrev pub difference_found : Option ℤ → Option ℤ → ℤ → ℤ → ℤ
difference_found this_c (some c) x y = x -ℤ c
difference_found none none x y = x -ℤ y
difference_found (some c) none x y = y -ℤ c

pub times_comm : (x y : ℤ) → x *ℤ y ≡ y *ℤ x
unfolding ◌*ℤ◌
times_comm x y = ap₂ sub_ℕ (omega arith) (omega arith)

opposite : (x : ℤ) → pos 1 *ℤ x +ℤ (pos 1 *ℤ (pos 0 -ℤ x) +ℤ pos 0) ≡ pos 0
opposite x =
    rw (one_times x, one_times (pos 0 -ℤ x), add_zero (pos 0 -ℤ x))
      (eq_of_parts _ _ (omega (arith, +ℤ_parts x (pos 0 -ℤ x), -ℤ_parts (pos 0) x)))

pub times_cancels : (x c : ℤ) → c *ℤ x +ℤ (negsuc 0 *ℤ (x *ℤ c) +ℤ pos 0) ≡ pos 0
times_cancels x c =
    rw (minus_one_times (x *ℤ c), add_zero (pos 0 -ℤ x *ℤ c), times_comm c x)
      (eq_of_parts _ _
        (omega (arith, +ℤ_parts (x *ℤ c) (pos 0 -ℤ x *ℤ c), -ℤ_parts (pos 0) (x *ℤ c))))

module _ (s : Setting) (sound : IsSound s) where
  combined :
      (this that : WrappedInt s) (k : DimensionKey) (p : State) (b y v : ℤ)
      → IsOperand s sound this k p
      → IsOperand s sound that k (set p k y)
      → b *ℤ y +ℤ (pos 1 *ℤ p k +ℤ (negsuc 0 *ℤ v +ℤ pos 0)) ≡ pos 0
      → Gives s sound (lin_combine s this that (negsuc 0) (pos 1) b (pos 0)) k p v
  combined this that k p b y v h h2 =
      subst
        (λ i.
          IsApart i
          → IsClear s sound this.wav i
          → IsClear s sound that.wav i
          → Holds s.d sound.snd that.wav (set p i y)
          → b *ℤ y +ℤ (pos 1 *ℤ p i +ℤ (negsuc 0 *ℤ v +ℤ pos 0)) ≡ pos 0
          → Gives s sound (lin_combine s this that (negsuc 0) (pos 1) b (pos 0)) i p v)
        h.key
        (λ apart clear1 clear2 h2 sum.
          lin_combine-Holds s sound this that p (negsuc 0) (pos 1) b (pos 0) y v apart clear1 clear2
            h.holds h2 sum)
        h.apart h.clear h2.clear h2.holds

  -- The result over the step of the second operand, as one over the step of the first.
  pub over_first :
      (o : Result (WrappedInt s)) (k : DimensionKey) (p : State) (y v w : ℤ)
      → v ≡ w
      → Gives s sound o k (set p k y) v
      → Gives s sound o k p w
  over_first o k p y v w e r = (
    r.0,
    r.1,
    r.2,
    subst (λ q. Holds s.d sound.snd r.0.wav q) (set-set p k y v ∙ ap (set p k) e) r.3,
  )

  -- If the value of `this` is x and that of `that` is y, `plus` gives x + y where `IsConstant`
  -- finds no constant, and keeps the rest of the step. Where it finds one for the second operand,
  -- or only for the first, `plus` adds that constant in the operand's place, so the sum is right
  -- where the constant is.
  pub plus-Gives :
      (this that : WrappedInt s) (k : DimensionKey) (p : State) (y : ℤ)
      → IsOperand s sound this k p
      → IsOperand s sound that k (set p k y)
      → Gives s sound
          (plus s this that)
          k
          p
          (sum_found (is_constant s this) (is_constant s that) (p k) y)
  unfolding plus
  plus-Gives this that k p y h h2 = elim (Option-cases (is_constant s that)) [
    | inr (c, e) ↦ rw (e, plus) (plus_constant-Gives s sound this k p c h)
    | inl e ↦ elim (Option-cases (is_constant s this)) [
      | inr (c, f) ↦
          rw (e, f, plus)
            (over_first _ k p y (set p k y k +ℤ c) (c +ℤ y)
              (ap (λ z. z +ℤ c) (set_same p k y) ∙ add_comm y c)
              (plus_constant-Gives s sound that k (set p k y) c h2))
      | inl f ↦
          rw (e, f, plus)
            (combined this that k p (pos 1) y (p k +ℤ y) h h2 (cancels_both (p k) y _ refl))
    ]
  ]

  -- If the value of `this` is x and that of `that` is y, `minus` gives x - y where `IsConstant`
  -- finds no constant, and keeps the rest of the step. Where it finds the constant c for the
  -- second operand it gives x - c, but where it finds c for the first one only it gives y - c, the
  -- negated difference.
  pub minus-Gives :
      (this that : WrappedInt s) (k : DimensionKey) (p : State) (y : ℤ)
      → IsOperand s sound this k p
      → IsOperand s sound that k (set p k y)
      → Gives s sound
          (minus s this that)
          k
          p
          (difference_found (is_constant s this) (is_constant s that) (p k) y)
  unfolding minus
  minus-Gives this that k p y h h2 = elim (Option-cases (is_constant s that)) [
    | inr (c, e) ↦ rw (e, minus) (minus_constant-Gives s sound this k p c h)
    | inl e ↦ elim (Option-cases (is_constant s this)) [
      | inr (c, f) ↦
          rw (e, f, minus)
            (over_first _ k p y (set p k y k -ℤ c) (y -ℤ c) (ap (λ z. z -ℤ c) (set_same p k y))
              (minus_constant-Gives s sound that k (set p k y) c h2))
      | inl f ↦
          rw (e, f, minus)
            (combined this that k p (negsuc 0) y (p k -ℤ y) h h2
              (cancels_difference (p k) y _ refl))
    ]
  ]

  -- `negate` gives the negated value.
  negate-Gives :
      (this : WrappedInt s) (k : DimensionKey) (p : State)
      → IsOperand s sound this k p
      → Gives s sound (negate s this) k p (pos 0 -ℤ p k)
  unfolding negate
  negate-Gives this k p h =
      transformed s sound this k p (pos 1) (pos 1) (pos 0) (pos 0 -ℤ p k) h (opposite (p k))
