-- ===== src/WrappedInt/Quotient.antt =====
-- Which values division by a constant and the remainder give.
use sound_bit_precise_domain.Prelude.{
  ◌≡◌, refl, sym, subst, ◌∙◌, Bool, true, false, [], none, ok, inl, inr, Option-cases, arith,
}
use sound_bit_precise_domain.Prelude.Int.{ℤ, pos, ◌+ℤ◌, ◌-ℤ◌, ◌*ℤ◌, ◌≤ℤ◌}
use sound_bit_precise_domain.Container.{eqb, eq_of_eqb, eqb_refl}
use sound_bit_precise_domain.Container.SortedSet.{contains}
use sound_bit_precise_domain.Container.SortedMap.{find, insert, insert-IsMap}
use sound_bit_precise_domain.Container.SortedMap
use sound_bit_precise_domain.Dimension.Key.{DimensionKey, key_ord}
use sound_bit_precise_domain.Wrapped.Domain.{ge, le}
use sound_bit_precise_domain.Wrapped.Meaning.{State}
use sound_bit_precise_domain.Wrapped.Record.{Wrapped, add_vocabulary, mark_wrapped, from_parts}
use sound_bit_precise_domain.Wrapped.Lattice.{havoc, add_equality}
use sound_bit_precise_domain.WrappedInt.Setting.{Setting}
use sound_bit_precise_domain.WrappedInt.Record.{
  WrappedInt, get_temp_key, of_key, of_integer, singleton, add_dimension, remove_dimension,
  remove_vocabulary, add_constraint_no_rhs,
}
use sound_bit_precise_domain.WrappedInt.Divide.{truncated, set_aside, finished, mod_helper}
use sound_bit_precise_domain.WrappedInt.Meaning.{Within, Holds, insert-InRange, unit_sum}
use sound_bit_precise_domain.WrappedInt.Keep.{
  add_vocabulary-Holds, havoc-Holds, remove_vocabulary-Holds,
}
use sound_bit_precise_domain.WrappedInt.Sound.{IsSound}
use sound_bit_precise_domain.WrappedInt.Set.{
  set, set_same, set_other, not_in_singleton, in_singleton, has_singleton, set_under,
}
use sound_bit_precise_domain.WrappedInt.Transform.{fresh-Holds, added, aside, aside_same}
use sound_bit_precise_domain.WrappedInt.Combine.{pair_of, contains-pair_of}
use sound_bit_precise_domain.WrappedInt.Ordered.{IsCompared, BothIn, in_pair}
use sound_bit_precise_domain.WrappedInt.Comparisons.{
  IsFlagged, wrapped_stays, constrained, second_value,
}

between : (a b c e : ℤ) → a ≡ c → b ≡ e → c ≤ℤ e → a ≤ℤ b
between a b c e x y h = subst (λ i. i ≤ℤ b) (sym x) (subst (λ j. c ≤ℤ j) (sym y) h)

module _ (s : Setting) (sound : IsSound s) where
  -- Making a recorded dimension and a fresh one of the same size equal.
  pub add_equality-Holds :
      (w : Wrapped s.d) (k t : DimensionKey) (p : State)
      → find t w.wrapped_voc ≡ none
      → ((sgn : Bool) → Within k sgn (p k) → Within t sgn (p t))
      → p k ≡ p t
      → Holds s.d sound.snd w p
      → Holds s.d sound.snd (add_equality s.d w k t) p
  unfolding add_equality
  add_equality-Holds w k t p unmarked fits same h = elim (Option-cases (find k w.wrapped_voc)) [
    | inl e ↦
        rw (e, unmarked)
          (record {
            sorted = h.sorted;
            fits = h.fits;
            has = sound.snd.add_equality_keeps w.av k t p h.has same;
          })
    | inr (sgn, e) ↦ rw e (record {
      sorted = insert-IsMap t sgn w.wrapped_voc h.sorted;
      fits = insert-InRange t sgn w.wrapped_voc p h.sorted h.fits (fits sgn (h.fits k sgn e));
      has = sound.snd.add_equality_keeps w.av k t p h.has same;
    })
  ]

  set_aside_holds :
      (this : WrappedInt s) (p : State) (v : ℤ)
      → IsCompared s sound this this.k p
      → BothIn s sound (set_aside s this (get_temp_key this.k.bitsize 1)).wav this.k p v
  unfolding set_aside add_dimension add_vocabulary havoc from_parts add_equality get_temp_key
  set_aside_holds this p v h =
      let k = this.k in
      let t = get_temp_key k.bitsize 1 in
      let w = add_vocabulary s.d this.wav (singleton t) in
      let added_holds =
        add_vocabulary-Holds s.d sound.snd sound.exact this.wav (singleton t) _
          (fresh-Holds s sound this.wav t p (p k) h.fresh h.holds) in
      let equated =
        add_equality-Holds w k t (aside p k t) h.fresh.unmarked
          (λ sgn e. subst (Within k sgn) (aside_same p k t h.apart) e) (aside_same p k t h.apart)
          added_holds in
      let known = λ (j : DimensionKey) (e : contains j (pair_of k t) ≡ true).
        sound.dims.havoc_covers _ (singleton k) j (
          sound.dims.add_equality_covers w.av k t j (
            in_pair j k t (s.d.get_vocabulary w.av) e
              (sound.dims.add_vocabulary_covers this.wav.av (singleton t) k h.there)
              (added s sound this.wav (singleton t) t (has_singleton t)))) in
      record {
        level = sound.dims.vocabulary-IsSorted _;
        covers = known;
        known = known;
        holds =
            havoc-Holds s.d sound.snd sound.exact (add_equality s.d w k t) (singleton k)
              (aside p k t) (set (aside p k t) k v)
              (λ j e. set_other (aside p k t) k v j (not_in_singleton j k e)) equated;
      }

  finished-Holds :
      (ret : WrappedInt s) (w : Wrapped s.d) (is_signed : Bool) (p : State) (v : ℤ)
      → eqb ret.k (get_temp_key ret.k.bitsize 1) ≡ false
      → Within ret.k is_signed v
      → BothIn s sound w ret.k p v
      → Holds s.d sound.snd
          (finished s ret w (get_temp_key ret.k.bitsize 1) is_signed).wav
          (set p ret.k v)
  unfolding finished mark_wrapped remove_dimension remove_vocabulary
  finished-Holds ret w is_signed p v apart range b =
      let k = ret.k in
      let t = get_temp_key k.bitsize 1 in
      let q = set (aside p k t) k v in
      remove_vocabulary-Holds s.d sound.snd sound.exact (mark_wrapped s.d w k is_signed)
        (singleton t) q (set p k v) b.level
        (λ j e.
          subst (λ i. contains i w.voc ≡ true) (sym (eq_of_eqb j t (in_singleton j t e)))
            (b.covers t (contains-pair_of t k t ∙ ground (arith, eqb_refl t))))
        (λ j e. sym (set_under p k t (p k) v j (not_in_singleton j t e)))
        (record {
          sorted = insert-IsMap k is_signed w.wrapped_voc b.holds.sorted;
          fits =
              insert-InRange k is_signed w.wrapped_voc q b.holds.sorted b.holds.fits
                (subst (Within k is_signed) (sym (set_same (aside p k t) k v)) range);
          has = b.holds.has;
        })

  -- The integer is what is left of a value, with its dimension marked and the temporary one, which
  -- holds the dividend x, removed. Its steps have a quotient v with x ≤ d * v ≤ x + (d - 1).
  abbrev pub IsRoundedUp : WrappedInt s → WrappedInt s → ℤ → Bool → Type 0
  IsRoundedUp this r that is_signed =
      (m : Wrapped s.d) × (r
        ≡ finished s (set_aside s this (get_temp_key this.k.bitsize 1)) m
            (get_temp_key this.k.bitsize 1) is_signed)
      × ((q : State)
          → sound.snd.Has m.av q
          → (q (get_temp_key this.k.bitsize 1) ≤ℤ that *ℤ q this.k)
            × (that *ℤ q this.k ≤ℤ q (get_temp_key this.k.bitsize 1) +ℤ (that -ℤ pos 1)))

  -- The remainder by a constant d has every value v in the range of the type with 0 ≤ v ≤ d - 1,
  -- whatever the dividend is.
  pub mod_helper_has :
      (this : WrappedInt s) (that_mpz that : ℤ) (is_signed : Bool) (p : State) (v : ℤ)
      → IsFlagged s sound this is_signed
      → IsCompared s sound this this.k p
      → truncated s that_mpz this.k.bitsize is_signed ≡ ok that
      → pos 0 ≤ℤ v
      → v ≤ℤ that -ℤ pos 1
      → Within this.k is_signed v
      → (r : WrappedInt s) × (mod_helper s this that_mpz is_signed ≡ ok r)
        × (r.k ≡ this.k)
        × Holds s.d sound.snd r.wav (set p this.k v)
  unfolding mod_helper finished set_aside of_key of_integer SortedMap.insert add_constraint_no_rhs
  mod_helper_has this that_mpz that is_signed p v w h cut low high range =
      let k = this.k in
      let t = get_temp_key k.bitsize 1 in
      let ret = set_aside s this t in
      let at_k = unit_sum (set (aside p k t) k v k) ∙ second_value p k t v h.apart in
      let c1 =
        constrained s sound ret.wav (record { lhs = of_key k; rhs = of_integer (pos 0); op = ge }) k
          p v (between _ _ (pos 0) v refl at_k low) (set_aside_holds this p v h) in
      let c2 =
        constrained s sound c1.0 (record { lhs = of_key k; rhs = ([], that -ℤ pos 1); op = le }) k p
          v (between _ _ v (that -ℤ pos 1) at_k refl high) c1.2 in
      (
        finished s ret c2.0 t is_signed,
        rw (wrapped_stays s sound this is_signed w, cut, c1.1, c2.1) refl,
        refl,
        finished-Holds ret c2.0 is_signed p v h.apart range c2.2,
      )
