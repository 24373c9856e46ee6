-- ===== src/WrappedInt/Combine.antt =====
-- Which values a linear combination gives the first of two integers.
use sound_bit_precise_domain.Prelude.{
  ◌≡◌, refl, sym, ap, subst, ◌∙◌, Bool, true, false, ◌||◌, [], ok, arith, if◌then◌else◌, inl, inr,
  Bool-cases,
}
use mathlib.Core.Path.{fun_ext}
use sound_bit_precise_domain.Prelude.Int.{ℤ, pos, ◌+ℤ◌, ◌*ℤ◌}
use sound_bit_precise_domain.Container.{IsSorted, eqb}
use sound_bit_precise_domain.Container.SortedSet.{contains}
use sound_bit_precise_domain.Container.SortedSet
use sound_bit_precise_domain.Container.SortedMap.{find}
use sound_bit_precise_domain.Container.SortedMap
use sound_bit_precise_domain.Value.{Bitsize}
use sound_bit_precise_domain.Dimension.Key.{DimensionKey, key_ord, key_lt, name_eq, name_lt}
use sound_bit_precise_domain.Dimension.Vocabulary.{Vocabulary}
use sound_bit_precise_domain.Wrapped.Domain.{Constraint, eq}
use sound_bit_precise_domain.Wrapped.Meaning.{State, sum_of, Satisfies}
use sound_bit_precise_domain.Wrapped.Record.{Wrapped, add_vocabulary}
use sound_bit_precise_domain.WrappedInt.Setting.{Setting}
use sound_bit_precise_domain.WrappedInt.Record.{
  WrappedInt, get_temp_key, decimal, singleton, new_int, remove_vocabulary, add_constraint_no_rhs,
  of_integer,
}
use sound_bit_precise_domain.WrappedInt.Linear.{lin_combine}
use sound_bit_precise_domain.WrappedInt.Meaning.{Holds, add_constraint-Holds}
use sound_bit_precise_domain.WrappedInt.Keep.{
  add_vocabulary-Holds, remove_vocabulary-Holds, meet-Holds,
}
use sound_bit_precise_domain.WrappedInt.Sound.{IsSound, IsFresh}
use sound_bit_precise_domain.WrappedInt.Set.{
  set, set_same, set_other, eqb-false_sym, sum_of-insert, contains-singleton,
}
use sound_bit_precise_domain.WrappedInt.Transform.{two_keys, fresh-Holds, move_key-Holds, added}

abbrev pub pair_of : DimensionKey → DimensionKey → Vocabulary
pair_of t u = SortedSet.insert u (singleton t)

pub contains-pair_of :
    (j t u : DimensionKey) → contains j (pair_of t u) ≡ (eqb j u || (eqb j t || contains j []))
contains-pair_of j t u =
    SortedSet.contains-insert j u (singleton t)
    ∙ ap (λ (b : Bool). eqb j u || b) (contains-singleton j t)

three_keys :
    (k t u : DimensionKey) (n a b c : ℤ) (p : State)
    → eqb t k ≡ false
    → eqb u k ≡ false
    → eqb u t ≡ false
    → sum_of (SortedMap.insert u b (SortedMap.insert t a (SortedMap.insert k n []))) c p
      ≡ b *ℤ p u +ℤ (a *ℤ p t +ℤ (n *ℤ p k +ℤ c))
unfolding find SortedMap.insert
three_keys k t u n a b c p tk uk ut =
    sum_of-insert u b (SortedMap.insert t a (SortedMap.insert k n [])) c p
      (ground (arith, tk, uk, ut))
    ∙ ap (λ z. b *ℤ p u +ℤ z) (two_keys k t n a c p tk)

pub temps_apart : (b : Bitsize) → eqb (get_temp_key b 2) (get_temp_key b 1) ≡ false
unfolding get_temp_key decimal name_eq name_lt key_lt key_ord
temps_apart b = refl

-- The integer's dimension is neither of the temporary ones.
pub record IsApart (k : DimensionKey) : Type 0 where
  pub first : eqb k (get_temp_key k.bitsize 1) ≡ false
  pub second : eqb k (get_temp_key k.bitsize 2) ≡ false

set_again :
    (p : State) (k t u : DimensionKey) (x y z v : ℤ)
    → set (set (set (set p k z) t x) u y) k v ≡ set (set (set p t x) u y) k v
set_again p k t u x y z v =
    fun_ext (λ j. elim (Bool-cases (eqb j k)) [ inl e ↦ rw e refl | inr e ↦ rw e refl ])

pub not_in_pair :
    (j t u : DimensionKey)
    → contains j (pair_of t u) ≡ false
    → (eqb j t ≡ false) × (eqb j u ≡ false)
not_in_pair j t u h =
    (ground (arith, contains-pair_of j t u, h), ground (arith, contains-pair_of j t u, h))

pub set_under_both :
    (p : State) (k t u : DimensionKey) (x y v : ℤ) (j : DimensionKey)
    → (eqb j t ≡ false) × (eqb j u ≡ false)
    → set (set (set p t x) u y) k v j ≡ set p k v j
set_under_both p k t u x y v j h =
    ap (λ z. if eqb j k then v else z) (set_other (set p t x) u y j h.1 ∙ set_other p t x j h.0)

module _ (s : Setting) (sound : IsSound s) where
  -- The two temporary dimensions are new to the value.
  pub record IsClear (w : Wrapped s.d) (k : DimensionKey) : Type 0 where
    pub first : IsFresh s.d w (get_temp_key k.bitsize 1)
    pub second : IsFresh s.d w (get_temp_key k.bitsize 2)

  -- Both temporary dimensions are added and set.
  both_added :
      (w : Wrapped s.d) (k : DimensionKey) (p : State) (x y : ℤ)
      → IsClear w k
      → Holds s.d sound.snd w p
      → Holds s.d sound.snd
          (add_vocabulary s.d w (pair_of (get_temp_key k.bitsize 1) (get_temp_key k.bitsize 2)))
          (set (set p (get_temp_key k.bitsize 1) x) (get_temp_key k.bitsize 2) y)
  both_added w k p x y clear h =
      add_vocabulary-Holds s.d sound.snd sound.exact w _ _
        (fresh-Holds s sound w _ _ y clear.second (fresh-Holds s sound w _ p x clear.first h))

  pub lin_combine-Holds :
      (this that : WrappedInt s) (p : State) (new_coeff this_coeff that_coeff constant y v : ℤ)
      → IsApart this.k
      → IsClear this.wav this.k
      → IsClear that.wav this.k
      → Holds s.d sound.snd this.wav p
      → Holds s.d sound.snd that.wav (set p this.k y)
      → that_coeff *ℤ y +ℤ (this_coeff *ℤ p this.k +ℤ (new_coeff *ℤ v +ℤ constant)) ≡ pos 0
      → (r : WrappedInt s) × (lin_combine s this that new_coeff this_coeff that_coeff constant
          ≡ ok r)
        × (r.k ≡ this.k)
        × Holds s.d sound.snd r.wav (set p this.k v)
  unfolding lin_combine add_constraint_no_rhs remove_vocabulary new_int of_integer
  lin_combine-Holds this that p n a b c y v apart clear1 clear2 h1 h2 sum =
      let k = this.k in
      let t = get_temp_key k.bitsize 1 in
      let u = get_temp_key k.bitsize 2 in
      let x = p k in
      let p0 = set (set p t x) u y in
      let tk = eqb-false_sym k t apart.first in
      let uk = eqb-false_sym k u apart.second in
      let ut = temps_apart k.bitsize in
      let at_t : (q : State) → set (set q t x) u y t ≡ x =
        λ q. set_other (set q t x) u y t (eqb-false_sym u t ut) ∙ set_same q t x in
      let at_k : (q : State) → set (set q t x) u y k ≡ q k =
        λ q. set_other (set q t x) u y k apart.second ∙ set_other q t x k apart.first in
      let q0 = set (set (set p k y) t x) u y in
      let left =
        move_key-Holds s sound _ k t p0 v (at_k p ∙ sym (at_t p))
          (both_added this.wav k p x y clear1 h1) in
      let right =
        move_key-Holds s sound _ k u q0 v
          (at_k (set p k y) ∙ set_same p k y ∙ sym (set_same (set (set p k y) t x) u y))
          (both_added that.wav k (set p k y) x y clear2 h2) in
      let p1 = set p0 k v in
      let met =
        meet-Holds s.d sound.snd sound.exact s.gmp sound.width sound.laws sound.dims
          s.disable_wrapping left.0 right.0 p1 left.2
          (subst (λ q. Holds s.d sound.snd right.0 q) (set_again p k t u x y y v) right.2) in
      let e : Constraint = record {
        lhs = (SortedMap.insert u b (SortedMap.insert t a (SortedMap.insert k n [])), c);
        rhs = of_integer (pos 0);
        op = eq;
      } in
      let sat : Satisfies e p1 =
        three_keys k t u n a b c p1 tk uk ut
        ∙ ap (λ z. b *ℤ z +ℤ (a *ℤ p1 t +ℤ (n *ℤ p1 k +ℤ c)))
            (set_other p0 k v u uk ∙ set_same (set p t x) u y)
        ∙ ap (λ z. b *ℤ y +ℤ (a *ℤ z +ℤ (n *ℤ p1 k +ℤ c))) (set_other p0 k v t tk ∙ at_t p)
        ∙ ap (λ z. b *ℤ y +ℤ (a *ℤ x +ℤ (n *ℤ z +ℤ c))) (set_same p0 k v)
        ∙ sum in
      let w =
        add_constraint-Holds s.gmp sound.width sound.laws s.d sound.snd sound.exact met.0 e p1 sat
          met.2 in
      let voc = pair_of t u in
      let level : w.0.voc ≡ s.d.get_vocabulary met.0.av = w.3.1 ∙ met.3 in
      let sorted = subst IsSorted (sym level) (sound.dims.vocabulary-IsSorted met.0.av) in
      let there = λ (j : DimensionKey) (e : contains j voc ≡ true).
        ap (contains j) level ∙ met.4 j (left.4 j (added s sound this.wav voc j e)) in
      (
        new_int s (remove_vocabulary s w.0 voc) k,
        rw (left.1, right.1, met.1, w.1) refl,
        refl,
        remove_vocabulary-Holds s.d sound.snd sound.exact w.0 voc p1 (set p k v) sorted there
            (λ j e. sym (set_under_both p k t u x y v j (not_in_pair j t u e))) w.2,
      )
