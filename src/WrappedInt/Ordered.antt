-- ===== src/WrappedInt/Ordered.antt =====
-- In which steps a comparison of two integers holds.
use sound_bit_precise_domain.Prelude.{
  ◌≡◌, sym, ap, subst, ◌∙◌, Bool, true, false, ok, ◌⊎◌, inl, inr, some, none, arith, Option,
  Bool-cases, if◌then◌else◌,
}
use mathlib.Core.Path.{fun_ext}
use sound_bit_precise_domain.Prelude.Int.{ℤ}
use sound_bit_precise_domain.Container.{IsSorted, eqb, eq_of_eqb}
use sound_bit_precise_domain.Container.SortedSet.{contains}
use sound_bit_precise_domain.Container.SortedMap
use sound_bit_precise_domain.Dimension.Key.{DimensionKey, key_ord}
use sound_bit_precise_domain.Dimension.Vocabulary.{Vocabulary}
use sound_bit_precise_domain.Signedness.Lookup.{agreed, signedness_cut_exact}
use sound_bit_precise_domain.Wrapped.Domain.{Domain}
use sound_bit_precise_domain.Wrapped.Meaning.{State, IsSoundDomain}
use sound_bit_precise_domain.Wrapped.Record.{Wrapped, add_vocabulary}
use sound_bit_precise_domain.Wrapped.Lattice
use sound_bit_precise_domain.Wrapped.Maps.{intersect_signedness-IsMap}
use sound_bit_precise_domain.WrappedInt.Setting.{Setting}
use sound_bit_precise_domain.WrappedInt.Record.{WrappedInt, get_temp_key, singleton, add_dimension}
use sound_bit_precise_domain.WrappedInt.Compare.{side_by_side}
use sound_bit_precise_domain.WrappedInt.Meaning.{Holds}
use sound_bit_precise_domain.WrappedInt.Keep.{add_vocabulary-Holds, meet-Holds}
use sound_bit_precise_domain.WrappedInt.Sound.{IsSound, IsFresh}
use sound_bit_precise_domain.WrappedInt.Set.{set, set_same, set_other, has_singleton}
use sound_bit_precise_domain.WrappedInt.Transform.{
  fresh-Holds, move_key-Holds, added, aside, aside_same,
}
use sound_bit_precise_domain.WrappedInt.Combine.{pair_of, contains-pair_of}

agreed_first : (o r : Option Bool) (t : Bool) → agreed o r ≡ some t → o ≡ some t
agreed_first none r t e = e
agreed_first (some b) none t e = ground arith
agreed_first (some b) (some c) t e = ground arith

agreed_second : (o r : Option Bool) (t : Bool) → agreed o r ≡ some t → r ≡ some t
agreed_second none r t e = ground arith
agreed_second (some b) none t e = e
agreed_second (some b) (some c) t e = ground arith

set_apart :
    (p : State) (k t : DimensionKey) (x y : ℤ)
    → eqb k t ≡ false
    → set (set p k y) t x ≡ set (set p t x) k y
set_apart p k t x y h = fun_ext (λ j. elim (Bool-cases (eqb j k)) [
  | inl e ↦
      subst (λ i. set (set p k y) t x i ≡ set (set p t x) k y i) (sym (eq_of_eqb j k e))
        (set_other (set p k y) t x k h ∙ set_same p k y ∙ sym (set_same (set p t x) k y))
  | inr e ↦
      ap (λ z. if eqb j t then x else z) (set_other p k y j e) ∙ sym (set_other (set p t x) k y j e)
])

pub in_pair :
    (j k t : DimensionKey) (v : Vocabulary)
    → contains j (pair_of k t) ≡ true
    → contains k v ≡ true
    → contains t v ≡ true
    → contains j v ≡ true
unfolding contains
in_pair j k t v e at_k at_t = elim (Bool-cases (eqb j t)) [
  | inl same ↦ subst (λ i. contains i v ≡ true) (sym (eq_of_eqb j t same)) at_t
  | inr other ↦
      subst (λ i. contains i v ≡ true)
        (sym (eq_of_eqb j k (ground (arith, contains-pair_of j k t, e, other)))) at_k
]

module _ (d : Domain) (snd : IsSoundDomain d) where
  -- The join has the steps of either value.
  pub join-Holds :
      (a b : Wrapped d) (p : State)
      → SortedMap.IsMap a.wrapped_voc
      → SortedMap.IsMap b.wrapped_voc
      → Holds d snd a p ⊎ Holds d snd b p
      → Holds d snd (Lattice.join d a b) p
  unfolding Lattice.join
  join-Holds a b p ma mb (inl h) = record {
    sorted = intersect_signedness-IsMap a.wrapped_voc b.wrapped_voc ma mb;
    fits = λ k t e.
        h.fits k t (
          agreed_first _ _ t
            (sym (signedness_cut_exact k a.wrapped_voc b.wrapped_voc ma mb).0 ∙ e));
    has = snd.join_left a.av b.av p h.has;
  }
  join-Holds a b p ma mb (inr h) = record {
    sorted = intersect_signedness-IsMap a.wrapped_voc b.wrapped_voc ma mb;
    fits = λ k t e. h.fits k t (
        agreed_second _ _ t (sym (signedness_cut_exact k a.wrapped_voc b.wrapped_voc ma mb).0 ∙ e));
    has = snd.join_right a.av b.av p h.has;
  }

module _ (s : Setting) (sound : IsSound s) where
  -- An integer to compare: it has its dimension, and not the temporary one.
  pub record IsCompared (this : WrappedInt s) (k : DimensionKey) (p : State) : Type 0 where
    pub key : this.k ≡ k
    pub apart : eqb k (get_temp_key k.bitsize 1) ≡ false
    pub fresh : IsFresh s.d this.wav (get_temp_key k.bitsize 1)
    pub there : contains k (s.d.get_vocabulary this.wav.av) ≡ true
    pub holds : Holds s.d sound.snd this.wav p

  -- A value with the step in which `temp1` has the first value and `k` the second one.
  pub record BothIn (w : Wrapped s.d) (k : DimensionKey) (p : State) (y : ℤ) : Type 0 where
    pub level : IsSorted w.voc
    pub covers :
        (j : DimensionKey)
        → contains j (pair_of k (get_temp_key k.bitsize 1)) ≡ true
        → contains j w.voc ≡ true
    pub known :
        (j : DimensionKey)
        → contains j (pair_of k (get_temp_key k.bitsize 1)) ≡ true
        → contains j (s.d.get_vocabulary w.av) ≡ true
    pub holds : Holds s.d sound.snd w (set (aside p k (get_temp_key k.bitsize 1)) k y)

  pub beside :
      (this that : WrappedInt s) (k : DimensionKey) (p : State) (y : ℤ)
      → IsCompared this k p
      → IsCompared that k (set p k y)
      → (w : Wrapped s.d) × (side_by_side s this that (get_temp_key k.bitsize 1) ≡ ok w)
        × BothIn w k p y
  unfolding side_by_side add_dimension add_vocabulary
  beside this that k p y h h2 =
      let t = get_temp_key k.bitsize 1 in
      let left =
        move_key-Holds s sound (add_vocabulary s.d this.wav (singleton t)) k t (aside p k t) y
          (aside_same p k t h.apart)
          (add_vocabulary-Holds s.d sound.snd sound.exact this.wav (singleton t) _
            (fresh-Holds s sound this.wav t p (p k) h.fresh h.holds)) in
      let right : Holds s.d sound.snd (add_vocabulary s.d that.wav (singleton t))
          (set (aside p k t) k y) =
        add_vocabulary-Holds s.d sound.snd sound.exact that.wav (singleton t) _ (
          subst (λ q. Holds s.d sound.snd that.wav q) (set_apart p k t (p k) y h.apart)
            (fresh-Holds s sound that.wav t (set p k y) (p k) h2.fresh h2.holds)) in
      let m =
        meet-Holds s.d sound.snd sound.exact s.gmp sound.width sound.laws sound.dims
          s.disable_wrapping left.0 (add_vocabulary s.d that.wav (singleton t)) _ left.2 right in
      let known = λ (j : DimensionKey) (e : contains j (pair_of k t) ≡ true).
        in_pair j k t (s.d.get_vocabulary m.0.av) e
          (m.4 k (left.4 k (sound.dims.add_vocabulary_covers _ _ k h.there)))
          (m.4 t (left.4 t (added s sound this.wav (singleton t) t (has_singleton t)))) in
      (
        m.0,
        rw (h.key, left.1) m.1,
        record {
          level = subst IsSorted (sym m.3) (sound.dims.vocabulary-IsSorted m.0.av);
          covers = λ j e. ap (contains j) m.3 ∙ known j e;
          known = known;
          holds = m.2;
        },
      )
