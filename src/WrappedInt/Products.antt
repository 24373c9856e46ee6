-- ===== src/WrappedInt/Products.antt =====
-- Products of integers, constants, and the integer of any value.
use sound_bit_precise_domain.Prelude.{
  ◌≡◌, refl, ap, subst, ◌∙◌, false, [], Option, ok, inl, inr, Option-cases, arith,
}
use sound_bit_precise_domain.Prelude.Int.{ℤ, pos, negsuc, ◌*ℤ◌}
use sound_bit_precise_domain.Container.SortedSet.{contains}
use sound_bit_precise_domain.Container.SortedMap
use sound_bit_precise_domain.Dimension.Key.{DimensionKey, key_ord}
use sound_bit_precise_domain.Wrapped.Domain.{Constraint, eq}
use sound_bit_precise_domain.Wrapped.Meaning.{State}
use sound_bit_precise_domain.Wrapped.Record.{from_parts, add_vocabulary}
use sound_bit_precise_domain.Wrapped.Bounding.{add_bounding_constraints, bound_each}
use sound_bit_precise_domain.Wrapped.Lattice.{new_wrapped, havoc}
use sound_bit_precise_domain.Wrapped.Lattice
use sound_bit_precise_domain.WrappedInt.Setting.{Setting}
use sound_bit_precise_domain.WrappedInt.Record.{
  WrappedInt, singleton, is_constant, any_value, of_const, top, meet, new_int, of_key, of_integer,
}
use sound_bit_precise_domain.WrappedInt.Linear.{times, times_constant, any_of_both}
use sound_bit_precise_domain.WrappedInt.Meaning.{InRange, Holds, add_constraint-Holds, unit_sum}
use sound_bit_precise_domain.WrappedInt.Keep.{havoc-Holds, meet-Holds}
use sound_bit_precise_domain.WrappedInt.Sound.{IsSound}
use sound_bit_precise_domain.WrappedInt.Set.{set, set_same, set_other, not_in_singleton}
use sound_bit_precise_domain.WrappedInt.Arithmetic.{IsOperand, Gives, transformed, set-set}
use sound_bit_precise_domain.WrappedInt.Sums.{found, over_first, times_comm, times_cancels}

pub nothing_recorded : (q : State) → InRange [] q
unfolding SortedMap.find
nothing_recorded q k t e = ground arith

module _ (s : Setting) (sound : IsSound s) where
  -- The top value has every step.
  pub top-Holds :
      (this : WrappedInt s) (q : State)
      → (r : WrappedInt s) × (top s this ≡ ok r) × (r.k ≡ this.k) × Holds s.d sound.snd r.wav q
  unfolding top Lattice.top new_wrapped add_bounding_constraints bound_each from_parts
      add_vocabulary new_int
  top-Holds this q = (
    _,
    refl,
    refl,
    record {
      sorted = tt;
      fits = nothing_recorded q;
      has = sound.snd.add_vocabulary_keeps _ _ q (sound.snd.top_has this.wav.av q);
    },
  )

  -- `of_const` gives a value with every step in which the integer has the constant.
  pub of_const-Holds :
      (this : WrappedInt s) (c : ℤ) (q : State)
      → q this.k ≡ c
      → (r : WrappedInt s) × (of_const s this c ≡ ok r)
        × (r.k ≡ this.k)
        × Holds s.d sound.snd r.wav q
  unfolding of_const of_key of_integer SortedMap.insert
  of_const-Holds this c q e =
      let t = top-Holds this q in
      let constraint : Constraint = record { lhs = of_key t.0.k; rhs = of_integer c; op = eq } in
      let u =
        add_constraint-Holds s.gmp sound.width sound.laws s.d sound.snd sound.exact t.0.wav
          constraint q (unit_sum (q t.0.k) ∙ ap q t.2 ∙ e) t.3 in
      (record t.0 { wav = u.0 }, rw (t.1, u.1) refl, t.2, u.2)

  any_value-Holds :
      (this : WrappedInt s) (k : DimensionKey) (p : State) (v : ℤ)
      → IsOperand s sound this k p
      → Holds s.d sound.snd (any_value s this).wav (set p k v)
  unfolding any_value new_int
  any_value-Holds this k p v h =
      havoc-Holds s.d sound.snd sound.exact this.wav (singleton this.k) p (set p k v)
        (λ j e.
          set_other p k v j
            (not_in_singleton j k (subst (λ i. contains j (singleton i) ≡ false) h.key e)))
        h.holds

  -- Where nothing is known of the result, it may be anything.
  pub any_of_both-Gives :
      (this that : WrappedInt s) (k : DimensionKey) (p : State) (y v : ℤ)
      → IsOperand s sound this k p
      → IsOperand s sound that k (set p k y)
      → Gives s sound (any_of_both s this that) k p v
  unfolding any_of_both meet any_value new_int
  any_of_both-Gives this that k p y v h h2 =
      let m =
        meet-Holds s.d sound.snd sound.exact s.gmp sound.width sound.laws sound.dims
          s.disable_wrapping (any_value s this).wav (any_value s that).wav (set p k v)
          (any_value-Holds this k p v h)
          (subst (λ q. Holds s.d sound.snd (any_value s that).wav q) (set-set p k y v)
            (any_value-Holds that k (set p k y) v h2)) in
      (record (any_value s this) { wav = m.0 }, rw m.1 refl, h.key, m.2)

  times_constant-Gives :
      (this : WrappedInt s) (k : DimensionKey) (p : State) (c : ℤ)
      → IsOperand s sound this k p
      → Gives s sound (times_constant s this c) k p (found (is_constant s this) (p k) *ℤ c)
  unfolding times_constant
  times_constant-Gives this k p c h = elim (Option-cases (is_constant s this)) [
    | inr (b, e) ↦
        let at = ap (set p k (b *ℤ c)) h.key ∙ set_same p k (b *ℤ c) in
        let r = of_const-Holds this (b *ℤ c) (set p k (b *ℤ c)) at in
        rw (e, times_constant) (r.0, r.1, r.2 ∙ h.key, r.3)
    | inl e ↦
        rw (e, times_constant)
          (transformed s sound this k p (negsuc 0) c (pos 0) (p k *ℤ c) h (times_cancels (p k) c))
  ]

  found_over :
      (o : Option ℤ) (p : State) (k : DimensionKey) (y c : ℤ)
      → found o (set p k y k) *ℤ c ≡ c *ℤ found o y
  found_over o p k y c = ap (λ z. found o z *ℤ c) (set_same p k y) ∙ times_comm (found o y) c

  -- If the value of `this` is x and that of `that` is y, `times` gives x * y, and keeps the rest
  -- of the step. A constant that `IsConstant` finds for an operand stands for its value in the
  -- product, so the product is right where the constants are.
  pub times-Gives :
      (this that : WrappedInt s) (k : DimensionKey) (p : State) (y : ℤ)
      → IsOperand s sound this k p
      → IsOperand s sound that k (set p k y)
      → Gives s sound
          (times s this that)
          k
          p
          (found (is_constant s this) (p k) *ℤ found (is_constant s that) y)
  unfolding times
  times-Gives this that k p y h h2 = elim (Option-cases (is_constant s this)) [
    | inr (c, e) ↦
        rw (e, times)
          (over_first s sound _ k p y _ (c *ℤ found (is_constant s that) y)
            (found_over (is_constant s that) p k y c)
            (times_constant-Gives that k (set p k y) c h2))
    | inl e ↦ elim (Option-cases (is_constant s that)) [
      | inr (c, f) ↦ let r = times_constant-Gives this k p c h in rw (e, f, times) (rw e at r)
      | inl f ↦ rw (e, f, times) (any_of_both-Gives this that k p y (p k *ℤ y) h h2)
    ]
  ]
