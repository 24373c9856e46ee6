-- ===== src/WrappedInt/Transform.antt =====
-- Which values a linear transformation gives an integer.
use sound_bit_precise_domain.Prelude.{
  ◌≡◌, refl, sym, ap, subst, ◌∙◌, Bool, true, false, not, [], ◌∷◌, none, some, ok, arith,
  if◌then◌else◌,
}
use sound_bit_precise_domain.Prelude.Int.{ℤ, pos, ◌+ℤ◌, ◌*ℤ◌}
use sound_bit_precise_domain.Container.{IsSorted, eqb, eq_of_eqb}
use sound_bit_precise_domain.Container.SortedSet.{contains}
use sound_bit_precise_domain.Container.SortedMap.{find}
use sound_bit_precise_domain.Container.SortedMap
use sound_bit_precise_domain.Dimension.Key.{DimensionKey, key_ord}
use sound_bit_precise_domain.Dimension.Vocabulary.{Vocabulary, contains-subset_by}
use sound_bit_precise_domain.Wrapped.Domain.{Constraint, eq}
use sound_bit_precise_domain.Wrapped.Meaning.{State, sum_of, Satisfies}
use sound_bit_precise_domain.Wrapped.Record.{Wrapped, add_vocabulary, from_parts}
use sound_bit_precise_domain.Wrapped.Lattice.{havoc, project}
use sound_bit_precise_domain.WrappedInt.Setting.{Setting}
use sound_bit_precise_domain.WrappedInt.Record.{
  WrappedInt, get_temp_key, of_key, same_value, singleton, new_int, add_dimension, remove_dimension,
  remove_vocabulary, add_constraint_no_rhs, of_integer,
}
use sound_bit_precise_domain.WrappedInt.Linear.{move_key, lin_transform}
use sound_bit_precise_domain.WrappedInt.Meaning.{Holds, add_constraint-Holds}
use sound_bit_precise_domain.WrappedInt.Keep.{
  local-Holds, add_vocabulary-Holds, havoc-Holds, remove_vocabulary-Holds, removed-IsFresh,
}
use sound_bit_precise_domain.WrappedInt.Sound.{IsSound, IsFresh}
use sound_bit_precise_domain.WrappedInt.Set.{
  set, set_same, set_other, not_in_singleton, in_singleton, eqb-false_sym, apart_of_contains,
  apart_of_find, sum_of-insert, has_singleton, set_under, not_in_singleton_of,
}

pub same_value-Satisfies :
    (k j : DimensionKey) (p : State) → p k ≡ p j → Satisfies (same_value k j) p
unfolding same_value of_key SortedMap.insert
same_value-Satisfies k j p h = ap (λ z. pos 1 *ℤ z +ℤ pos 0) h

pub two_keys :
    (k t : DimensionKey) (n o c : ℤ) (p : State)
    → eqb t k ≡ false
    → sum_of (SortedMap.insert t o (SortedMap.insert k n [])) c p ≡ o *ℤ p t +ℤ (n *ℤ p k +ℤ c)
unfolding find SortedMap.insert
two_keys k t n o c p h =
    sum_of-insert t o ((k, n) ∷ []) c p (ap (λ (b : Bool). if b then some n else none) h)

-- The step in which the old value of the integer stands in the temporary dimension.
abbrev pub aside : State → DimensionKey → DimensionKey → State
aside p k t = set p t (p k)

pub aside_same : (p : State) (k t : DimensionKey) → eqb k t ≡ false → aside p k t k ≡ aside p k t t
aside_same p k t apart = set_other p t (p k) k apart ∙ sym (set_same p t (p k))

module _ (s : Setting) (sound : IsSound s) where
  -- A fresh dimension may have any value.
  pub fresh-Holds :
      (w : Wrapped s.d) (t : DimensionKey) (p : State) (v : ℤ)
      → IsFresh s.d w t
      → Holds s.d sound.snd w p
      → Holds s.d sound.snd w (set p t v)
  fresh-Holds w t p v fresh h =
      local-Holds s.d sound.snd sound.exact w p (set p t v)
        (λ j c. set_other p t v j (apart_of_contains j t (s.d.get_vocabulary w.av) c fresh.unknown))
        (λ j x e. set_other p t v j (apart_of_find j t w.wrapped_voc x e fresh.unmarked)) h

  -- Where `t` has the value of `k`, `k` may have any value afterwards.
  pub move_key-Holds :
      (w : Wrapped s.d) (k t : DimensionKey) (p : State) (v : ℤ)
      → p k ≡ p t
      → Holds s.d sound.snd w p
      → (r : Wrapped s.d) × (move_key s w k t ≡ ok r)
        × Holds s.d sound.snd r (set p k v)
        × (r.voc ≡ s.d.get_vocabulary r.av)
        × ((j : DimensionKey)
            → contains j (s.d.get_vocabulary w.av) ≡ true
            → contains j (s.d.get_vocabulary r.av) ≡ true)
  unfolding move_key havoc from_parts
  move_key-Holds w k t p v same h =
      let c = same_value k t in
      let u =
        add_constraint-Holds s.gmp sound.width sound.laws s.d sound.snd sound.exact w c p
          (same_value-Satisfies k t p same) h in
      (
        havoc s.d u.0 (singleton k),
        rw u.1 refl,
        havoc-Holds s.d sound.snd sound.exact u.0 (singleton k) p (set p k v)
            (λ j e. set_other p k v j (not_in_singleton j k e)) u.2,
        refl,
        λ j e. sound.dims.havoc_covers u.0.av (singleton k) j (
            ap (λ a. contains j (s.d.get_vocabulary a)) u.3.0
            ∙ sound.dims.add_constraint_covers w.av c j e),
      )

  -- A dimension that was added is among those of the value.
  pub added :
      (w : Wrapped s.d) (v : Vocabulary) (t : DimensionKey)
      → contains t v ≡ true
      → contains t (s.d.get_vocabulary (add_vocabulary s.d w v).av) ≡ true
  unfolding add_vocabulary
  added w v t h = sound.dims.adds w.av v t h

  pub lin_transform-Holds :
      (this : WrappedInt s) (p : State) (new_coeff old_coeff constant v : ℤ)
      → Holds s.d sound.snd this.wav p
      → IsFresh s.d this.wav (get_temp_key this.k.bitsize 1)
      → eqb this.k (get_temp_key this.k.bitsize 1) ≡ false
      → old_coeff *ℤ p this.k +ℤ (new_coeff *ℤ v +ℤ constant) ≡ pos 0
      → (r : WrappedInt s) × (lin_transform s this new_coeff old_coeff constant ≡ ok r)
        × (r.k ≡ this.k)
        × Holds s.d sound.snd r.wav (set p this.k v)
        × IsFresh s.d r.wav (get_temp_key this.k.bitsize 1)
        × (contains this.k (s.d.get_vocabulary this.wav.av) ≡ true
            → contains this.k (s.d.get_vocabulary r.wav.av) ≡ true)
  unfolding lin_transform add_dimension add_constraint_no_rhs remove_dimension remove_vocabulary
      new_int of_integer project add_vocabulary
  lin_transform-Holds this p n o c v h fresh apart sum =
      let k = this.k in
      let t = get_temp_key k.bitsize 1 in
      let p1 = aside p k t in
      let p2 = set p1 k v in
      let h1 : Holds s.d sound.snd (add_vocabulary s.d this.wav (singleton t)) p1 =
        add_vocabulary-Holds s.d sound.snd sound.exact this.wav (singleton t) p1
          (fresh-Holds this.wav t p (p k) fresh h) in
      let moved = move_key-Holds _ k t p1 v (aside_same p k t apart) h1 in
      let t_there = moved.4 t (added this.wav (singleton t) t (has_singleton t)) in
      let e : Constraint = record {
        lhs = (SortedMap.insert t o (SortedMap.insert k n []), c);
        rhs = of_integer (pos 0);
        op = eq;
      } in
      let sat : Satisfies e p2 =
        two_keys k t n o c p2 (eqb-false_sym k t apart)
        ∙ ap (λ z. o *ℤ z +ℤ (n *ℤ p2 k +ℤ c))
            (set_other p1 k v t (eqb-false_sym k t apart) ∙ set_same p t (p k))
        ∙ ap (λ z. o *ℤ p k +ℤ (n *ℤ z +ℤ c)) (set_same p1 k v)
        ∙ sum in
      let u =
        add_constraint-Holds s.gmp sound.width sound.laws s.d sound.snd sound.exact moved.0 e p2 sat
          moved.2 in
      let level : u.0.voc ≡ s.d.get_vocabulary moved.0.av = u.3.1 ∙ moved.3 in
      let sorted = subst IsSorted (sym level) (sound.dims.vocabulary-IsSorted moved.0.av) in
      let covers = λ (j : DimensionKey) (e : contains j (singleton t) ≡ true).
        subst (λ i. contains i u.0.voc ≡ true) (sym (eq_of_eqb j t (in_singleton j t e)))
          (ap (contains t) level ∙ t_there) in
      (
        new_int s (remove_dimension s u.0 t) k,
        rw (moved.1, u.1) refl,
        refl,
        remove_vocabulary-Holds s.d sound.snd sound.exact u.0 (singleton t) p2 (set p k v) sorted
            covers (λ j e. sym (set_under p k t (p k) v j (not_in_singleton j t e))) u.2,
        removed-IsFresh s.d sound.snd sound.exact u.0 (singleton t) t sorted (has_singleton t)
            (ap (contains t) level ∙ t_there) u.2.sorted,
        λ j.
            let at_moved = moved.4 k (sound.dims.add_vocabulary_covers _ (singleton t) k j) in
            sound.dims.project_covers u.0.av _ k
              (ap (λ a. contains k (s.d.get_vocabulary a)) u.3.0
                ∙ sound.dims.add_constraint_covers moved.0.av e k at_moved)
              (contains-subset_by (λ i. not (contains i (singleton t))) k u.0.voc
                ∙ ground (arith, ap (contains k) level, at_moved, not_in_singleton_of k t apart)),
      )
