-- ===== src/WrappedInt/Comparisons.antt =====
-- The comparisons of two integers, on every step in which they hold.
use sound_bit_precise_domain.Prelude.{
  ◌≡◌, refl, sym, ap, subst, ◌∙◌, Bool, true, false, ◌&&◌, [], ok, arith,
}
use sound_bit_precise_domain.Prelude.Int.{
  ℤ, pos, negsuc, ◌+ℤ◌, ◌-ℤ◌, ◌*ℤ◌, ◌≤ℤ◌, +ℤ_parts, -ℤ_parts,
}
use sound_bit_precise_domain.Container.{IsSorted, eqb}
use sound_bit_precise_domain.Container.SortedSet.{contains}
use sound_bit_precise_domain.Container.SortedMap
use sound_bit_precise_domain.Dimension.Key.{DimensionKey, key_ord}
use sound_bit_precise_domain.Signedness.{same_sign}
use sound_bit_precise_domain.Wrapped.Domain.{Constraint, le}
use sound_bit_precise_domain.Wrapped.Meaning.{State, Satisfies, sum_of}
use sound_bit_precise_domain.Wrapped.Record.{Wrapped}
use sound_bit_precise_domain.Wrapped.Bounding.{add_constraint}
use sound_bit_precise_domain.WrappedInt.Setting.{Setting}
use sound_bit_precise_domain.WrappedInt.Record.{
  WrappedInt, get_temp_key, of_key, remove_vocabulary, wrap_int,
}
use sound_bit_precise_domain.WrappedInt.Linear.{plus_constant}
use sound_bit_precise_domain.WrappedInt.Compare.{less_than, less_than_or_equal_no_wrapping}
use sound_bit_precise_domain.WrappedInt.Meaning.{
  Holds, KeepsConstraints, add_constraint-Holds, unit_sum,
}
use sound_bit_precise_domain.WrappedInt.Keep.{remove_vocabulary-Holds}
use sound_bit_precise_domain.WrappedInt.Sound.{IsSound}
use sound_bit_precise_domain.WrappedInt.Set.{set, set_same, set_other, eqb-false_sym}
use sound_bit_precise_domain.WrappedInt.Transform.{two_keys, aside, lin_transform-Holds}
use sound_bit_precise_domain.WrappedInt.Arithmetic.{set-set, one_times, cancels, minus_one_times}
use sound_bit_precise_domain.WrappedInt.Combine.{pair_of, not_in_pair}
use sound_bit_precise_domain.WrappedInt.Ordered.{IsCompared, BothIn, beside}

-- The two values in the step that a comparison looks at.
module _ (p : State) (k t : DimensionKey) (y : ℤ) (apart : eqb k t ≡ false) where
  pub first_value : set (aside p k t) k y t ≡ p k
  first_value = set_other (aside p k t) k y t (eqb-false_sym k t apart) ∙ set_same p t (p k)

  pub second_value : set (aside p k t) k y k ≡ y
  second_value = set_same (aside p k t) k y

  pub ordered-Satisfies :
      p k ≤ℤ y
      → Satisfies (record { lhs = of_key t; rhs = of_key k; op = le }) (set (aside p k t) k y)
  unfolding of_key SortedMap.insert
  ordered-Satisfies h =
      subst (λ a. a ≤ℤ pos 1 *ℤ set (aside p k t) k y k +ℤ pos 0) (sym (unit_sum _ ∙ first_value))
        (subst (λ b. p k ≤ℤ b) (sym (unit_sum _ ∙ second_value)) h)

  pub difference_sum :
      (c : ℤ)
      → sum_of
          (SortedMap.insert t (negsuc 0) (SortedMap.insert k (pos 1) []))
          c
          (set (aside p k t) k y)
        ≡ negsuc 0 *ℤ p k +ℤ (pos 1 *ℤ y +ℤ c)
  difference_sum c =
      two_keys k t (pos 1) (negsuc 0) c (set (aside p k t) k y) (eqb-false_sym k t apart)
      ∙ ap (λ z. negsuc 0 *ℤ z +ℤ (pos 1 *ℤ set (aside p k t) k y k +ℤ c)) first_value
      ∙ ap (λ z. negsuc 0 *ℤ p k +ℤ (pos 1 *ℤ z +ℤ c)) second_value

pub above_zero : (x y : ℤ) → x +ℤ pos 1 ≤ℤ y → pos 0 ≤ℤ negsuc 0 *ℤ x +ℤ (pos 1 *ℤ y +ℤ negsuc 0)
above_zero x y h =
    rw (minus_one_times x, one_times y)
      (omega (
        arith,
        +ℤ_parts x (pos 1),
        -ℤ_parts (pos 0) x,
        +ℤ_parts (pos 0 -ℤ x) (y +ℤ negsuc 0),
        +ℤ_parts y (negsuc 0),
      ))

pub below_zero : (x y : ℤ) → y +ℤ pos 1 ≤ℤ x → negsuc 0 *ℤ x +ℤ (pos 1 *ℤ y +ℤ pos 1) ≤ℤ pos 0
below_zero x y h =
    rw (minus_one_times x, one_times y)
      (omega (arith, -ℤ_parts (pos 0) x, +ℤ_parts (pos 0 -ℤ x) (y +ℤ pos 1), +ℤ_parts y (pos 1)))

of_ordered :
    (k t : DimensionKey) (v : State)
    → Satisfies (record { lhs = of_key t; rhs = of_key k; op = le }) v
    → pos 1 *ℤ v t +ℤ pos 0 ≤ℤ pos 1 *ℤ v k +ℤ pos 0
unfolding of_key SortedMap.insert
of_ordered k t v h = h

module _ (s : Setting) (sound : IsSound s) where
  -- A constraint that the step satisfies.
  pub constrained :
      (w : Wrapped s.d) (c : Constraint) (k : DimensionKey) (p : State) (y : ℤ)
      → Satisfies c (set (aside p k (get_temp_key k.bitsize 1)) k y)
      → BothIn s sound w k p y
      → (r : Wrapped s.d) × (add_constraint s.gmp s.d w c ≡ ok r)
        × BothIn s sound r k p y
        × (r.av ≡ s.d.add_constraint w.av c)
  constrained w c k p y sat b =
      let u =
        add_constraint-Holds s.gmp sound.width sound.laws s.d sound.snd sound.exact w c _ sat
          b.holds in
      (
        u.0,
        u.1,
        record {
          level = subst IsSorted (sym u.3.1) b.level;
          covers = λ j e. ap (contains j) u.3.1 ∙ b.covers j e;
          known = λ j e.
              ap (λ a. contains j (s.d.get_vocabulary a)) u.3.0
              ∙ sound.dims.add_constraint_covers w.av c j (b.known j e);
          holds = u.2;
        },
        u.3.0,
      )

  -- Every step of the constrained value satisfies the constraint.
  pub constrained_only :
      (keeps : KeepsConstraints s.d sound.snd) (w r : Wrapped s.d) (c : Constraint) (q : State)
      → r.av ≡ s.d.add_constraint w.av c
      → sound.snd.Has r.av q
      → sound.snd.Has w.av q × Satisfies c q
  constrained_only keeps w r c q e h =
      keeps.constraint_holds w.av c q (subst (λ a. sound.snd.Has a q) e h)

  -- The two dimensions are removed, and may have any value.
  pub removed :
      (w : Wrapped s.d) (k : DimensionKey) (p q : State) (y : ℤ)
      → ((j : DimensionKey) → eqb j k ≡ false → q j ≡ p j)
      → BothIn s sound w k p y
      → Holds s.d sound.snd (remove_vocabulary s w (pair_of k (get_temp_key k.bitsize 1))) q
  unfolding remove_vocabulary
  removed w k p q y same b =
      let t = get_temp_key k.bitsize 1 in
      remove_vocabulary-Holds s.d sound.snd sound.exact w (pair_of k t) _ q b.level b.covers
        (λ j e.
          let n = not_in_pair j k t e in
          same j n.0 ∙ sym (set_other p t (p k) j n.1) ∙ sym (set_other (aside p k t) k y j n.0))
        b.holds

  -- The value is what is left of one in whose steps the temporary dimension, which holds the first
  -- integer, is at most the dimension of the second, once both are removed.
  abbrev pub IsOrdered : Wrapped s.d → DimensionKey → Type 0
  IsOrdered r k =
      (m : Wrapped s.d) × (r ≡ remove_vocabulary s m (pair_of k (get_temp_key k.bitsize 1)))
      × ((v : State) → sound.snd.Has m.av v → v (get_temp_key k.bitsize 1) ≤ℤ v k)

  no_wrapping_at :
      (keeps : KeepsConstraints s.d sound.snd) (this that : WrappedInt s) (is_signed : Bool)
      (p q : State) (y : ℤ)
      → IsCompared s sound this this.k p
      → IsCompared s sound that this.k (set p this.k y)
      → ((j : DimensionKey) → eqb j this.k ≡ false → q j ≡ p j)
      → p this.k ≤ℤ y
      → (r : Wrapped s.d) × (less_than_or_equal_no_wrapping s this that is_signed ≡ ok r)
        × Holds s.d sound.snd r q
        × IsOrdered r this.k
  unfolding less_than_or_equal_no_wrapping
  no_wrapping_at keeps this that is_signed p q y h h2 same order =
      let k = this.k in
      let t = get_temp_key k.bitsize 1 in
      let m = beside s sound this that k p y h h2 in
      let c =
        constrained m.0 (record { lhs = of_key t; rhs = of_key k; op = le }) k p y
          (ordered-Satisfies p k t y h.apart order) m.2 in
      (
        remove_vocabulary s c.0 (pair_of k t),
        rw (m.1, c.1) refl,
        removed c.0 k p q y same c.2,
        (
          c.0,
          refl,
          λ v has.
              subst (λ b. v t ≤ℤ b) (unit_sum (v k))
                (subst (λ a. a ≤ℤ pos 1 *ℤ v k +ℤ pos 0) (unit_sum (v t))
                  (of_ordered k t v (constrained_only keeps m.0 c.0 _ v c.3 has).1)),
        ),
      )

  -- `less_than_or_equal_no_wrapping` has every step in which the first value is at most the
  -- second one, whatever value it gives the integer's dimension.
  pub no_wrapping_has :
      (keeps : KeepsConstraints s.d sound.snd) (this that : WrappedInt s) (is_signed : Bool)
      (k : DimensionKey) (p q : State) (y : ℤ)
      → IsCompared s sound this k p
      → IsCompared s sound that k (set p k y)
      → ((j : DimensionKey) → eqb j k ≡ false → q j ≡ p j)
      → p k ≤ℤ y
      → (r : Wrapped s.d) × (less_than_or_equal_no_wrapping s this that is_signed ≡ ok r)
        × Holds s.d sound.snd r q
        × IsOrdered r k
  no_wrapping_has keeps this that is_signed k p q y h h2 =
      subst
        (λ i.
          IsCompared s sound this i p
          → IsCompared s sound that i (set p i y)
          → ((j : DimensionKey) → eqb j i ≡ false → q j ≡ p j)
          → p i ≤ℤ y
          → (r : Wrapped s.d) × (less_than_or_equal_no_wrapping s this that is_signed ≡ ok r)
            × Holds s.d sound.snd r q
            × IsOrdered r i)
        h.key (no_wrapping_at keeps this that is_signed p q y) h h2

  -- The flag `wrapped_` and the sign, which say that the integer need not be wrapped, whatever its
  -- value is.
  abbrev pub IsFlagged : WrappedInt s → Bool → Type 0
  IsFlagged this is_signed = (this.wrapped && same_sign this.wrapped_is_signed is_signed) ≡ true

  pub wrapped_stays :
      (this : WrappedInt s) (is_signed : Bool)
      → IsFlagged this is_signed
      → wrap_int s this is_signed ≡ ok this
  unfolding wrap_int
  wrapped_stays this is_signed h = rw h refl

  plus_one_at :
      (this : WrappedInt s) (p : State)
      → IsCompared s sound this this.k p
      → (r : WrappedInt s) × (plus_constant s this (pos 1) ≡ ok r)
        × IsCompared s sound r this.k (set p this.k (p this.k +ℤ pos 1))
  unfolding plus_constant
  plus_one_at this p h =
      let v = p this.k +ℤ pos 1 in
      let r =
        lin_transform-Holds s sound this p (negsuc 0) (pos 1) (pos 1) v h.holds h.fresh h.apart
          (cancels (p this.k) (pos 1) v refl) in
      (
        r.0,
        r.1,
        record { key = r.2; apart = h.apart; fresh = r.4; there = r.5 h.there; holds = r.3 },
      )

  plus_one :
      (this : WrappedInt s) (k : DimensionKey) (p : State)
      → IsCompared s sound this k p
      → (r : WrappedInt s) × (plus_constant s this (pos 1) ≡ ok r)
        × IsCompared s sound r k (set p k (p k +ℤ pos 1))
  plus_one this k p h =
      subst
        (λ i.
          IsCompared s sound this i p
          → (r : WrappedInt s) × (plus_constant s this (pos 1) ≡ ok r)
            × IsCompared s sound r i (set p i (p i +ℤ pos 1)))
        h.key (λ own. plus_one_at this p own) h

  -- Where both integers are flagged as wrapped with the sign, `less_than` has every step in which
  -- the first value is below the second. The incremented value is not wrapped.
  pub less_than_has :
      (keeps : KeepsConstraints s.d sound.snd) (this that : WrappedInt s) (is_signed : Bool)
      (k : DimensionKey) (p : State) (y : ℤ)
      → IsFlagged this is_signed
      → IsFlagged that is_signed
      → IsCompared s sound this k p
      → IsCompared s sound that k (set p k y)
      → p k +ℤ pos 1 ≤ℤ y
      → (r : Wrapped s.d) × (less_than s is_signed this that ≡ ok r) × Holds s.d sound.snd r p
  unfolding less_than
  less_than_has keeps this that is_signed k p y w w2 h h2 order =
      let v = p k +ℤ pos 1 in
      let one_more = plus_one this k p h in
      let that_again : IsCompared s sound that k (set (set p k v) k y) = record {
        key = h2.key;
        apart = h2.apart;
        fresh = h2.fresh;
        there = h2.there;
        holds = subst (λ q. Holds s.d sound.snd that.wav q) (sym (set-set p k v y)) h2.holds;
      } in
      let r =
        no_wrapping_has keeps one_more.0 that is_signed k (set p k v) p y one_more.2 that_again
          (λ j e. sym (set_other p k v j e)) (subst (λ z. z ≤ℤ y) (sym (set_same p k v)) order) in
      (
        r.0,
        rw (wrapped_stays this is_signed w, wrapped_stays that is_signed w2, one_more.1) r.1,
        r.2,
      )
