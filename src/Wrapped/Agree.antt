-- ===== src/Wrapped/Agree.antt =====
-- Two values that are wrapped with each other's dimensions, as `Meet`, `operator==` and
-- `Overapproximates` do.
use sound_bit_precise_domain.Prelude.{
  ℕ, zero, suc, ◌≡◌, refl, sym, subst, ap, ◌∙◌, Bool, true, false, [], ◌∷◌, arith, inl, inr,
  Bool-cases, Option, none, some, if◌then◌else◌, ok,
}
use sound_bit_precise_domain.Container.{eqb_refl, eq_of_eqb}
use sound_bit_precise_domain.Container.SortedMap.{IsMap, find, first}
use sound_bit_precise_domain.Container.SortedMap.Extensional.{map_ext}
use sound_bit_precise_domain.Dimension.Key.{DimensionKey, key_ord}
use sound_bit_precise_domain.Signedness.{VocabularySignedness, same_sign}
use sound_bit_precise_domain.Mpz.{Gmp}
use sound_bit_precise_domain.Wrapped.Domain.{Domain}
use sound_bit_precise_domain.Wrapped.Record.{Wrapped, map_eq, wrap, wrap_loop}
use sound_bit_precise_domain.Wrapped.WrapExact.{find-wrapped, wrapped-IsMap}
use sound_bit_precise_domain.Wrapped.Lattice.{wrap_both, overapproximates}

map_eq_refl : (m : VocabularySignedness) → map_eq m m ≡ true
unfolding map_eq
map_eq_refl [] = refl
map_eq_refl ((k, s) ∷ m) = ground (arith, eqb_refl k, map_eq_refl m)

pub eq_of_map_eq : (m n : VocabularySignedness) → map_eq m n ≡ true → m ≡ n
unfolding map_eq
eq_of_map_eq [] [] h = refl
eq_of_map_eq [] (f ∷ n) h = ground arith
eq_of_map_eq (e ∷ m) [] h = ground arith
eq_of_map_eq ((k, s) ∷ m) ((j, t) ∷ n) h = ground (arith, eq_of_eqb k j, eq_of_map_eq m n)

first_twice : (a b : Option Bool) → first (first b a) b ≡ first b a
first_twice a none = ground arith
first_twice a (some s) = refl

-- Wrapping the second value with all that the first one has recorded gives the same record.
pub both_agree :
    (v w : VocabularySignedness)
    → IsMap v
    → IsMap w
    → (wrap_loop w v).1 ≡ (wrap_loop (wrap_loop w v).1 w).1
both_agree v w mv mw =
    let r = wrapped-IsMap w v mv in
    map_ext _ _ r (wrapped-IsMap _ w mw) (λ q.
      find-wrapped q w v mw mv
      ∙ sym (first_twice (find q v) (find q w))
      ∙ ap (λ o. first o (find q w)) (sym (find-wrapped q w v mw mv))
      ∙ sym (find-wrapped q (wrap_loop w v).1 w r mw))

pub both_agree_test :
    (v w : VocabularySignedness)
    → IsMap v
    → IsMap w
    → map_eq (wrap_loop w v).1 (wrap_loop (wrap_loop w v).1 w).1 ≡ true
both_agree_test v w mv mw =
    subst (λ m. map_eq (wrap_loop w v).1 m ≡ true) (both_agree v w mv mw)
      (map_eq_refl (wrap_loop w v).1)

first_same : (o : Option Bool) → o ≡ first o o
first_same none = refl
first_same (some s) = refl

same_record :
    (v w : VocabularySignedness)
    → v ≡ w
    → (q : DimensionKey) → find q v ≡ first (find q w) (find q v)
same_record v w e q = subst (λ u. find q v ≡ first (find q u) (find q v)) e (first_same (find q v))

same_sign_swap : (s t : Bool) → same_sign s t ≡ false → same_sign t s ≡ false
same_sign_swap s t h = ground arith

signs_differ :
    (v w : VocabularySignedness) (k : DimensionKey) (s t : Bool)
    → find k v ≡ some s
    → find k w ≡ some t
    → same_sign s t ≡ false
    → map_eq v w ≡ false
signs_differ v w k s t e f c = elim (Bool-cases (map_eq v w)) [
  | inl same ↦
      let g : some s ≡ some t = sym e ∙ ap (find k) (eq_of_map_eq v w same) ∙ f in
      absurd (ground (arith, g, c))
  | inr differ ↦ differ
]

-- The two records give no dimension different signs.
abbrev pub NoConflict : VocabularySignedness → VocabularySignedness → Type 0
NoConflict v w = (q : DimensionKey) → first (find q w) (find q v) ≡ first (find q v) (find q w)

pub crosswise_agree :
    (v w : VocabularySignedness)
    → IsMap v
    → IsMap w
    → NoConflict v w
    → (wrap_loop w v).1 ≡ (wrap_loop v w).1
crosswise_agree v w mv mw h =
    map_ext _ _ (wrapped-IsMap w v mv) (wrapped-IsMap v w mw)
      (λ q. find-wrapped q w v mw mv ∙ h q ∙ sym (find-wrapped q v w mv mw))

module _ (d : Domain) (gmp : Gmp) (disable_wrapping : Bool) where
  -- The assert of `Meet` never fails if the two records are maps: the two values that it goes on
  -- with have the same record, which is a map again, and in which the second value's sign of a
  -- dimension wins.
  pub wrap_both_total :
      (this that : Wrapped d)
      → IsMap this.wrapped_voc
      → IsMap that.wrapped_voc
      → (both : Wrapped d × Wrapped d) × (wrap_both d gmp disable_wrapping this that ≡ ok both)
        × (both.0.wrapped_voc ≡ both.1.wrapped_voc)
        × ((q : DimensionKey)
            → find q both.0.wrapped_voc ≡ first (find q that.wrapped_voc) (find q this.wrapped_voc))
        × IsMap both.0.wrapped_voc
  unfolding wrap_both wrap
  wrap_both_total this that mv mw =
      let v = this.wrapped_voc in
      let w = that.wrapped_voc in
      elim (Bool-cases (map_eq v w)) [
        | inl same ↦ (
          (this, that),
          rw same refl,
          eq_of_map_eq v w same,
          λ q. same_record v w (eq_of_map_eq v w same) q,
          mv,
        )
        | inr differ ↦ (
          (wrap d disable_wrapping this w, wrap d disable_wrapping that (wrap_loop w v).1),
          rw (differ, both_agree_test v w mv mw) refl,
          both_agree v w mv mw,
          λ q. find-wrapped q w v mw mv,
          wrapped-IsMap w v mv,
        )
      ]

  -- If the records are maps that give no dimension different signs, `Overapproximates` returns
  -- after at most one recursive call: it compares the values of the domain, each wrapped with the
  -- dimensions of the other unless their records are the same.
  pub overapproximates_returns :
      (this that : Wrapped d) (n : ℕ)
      → IsMap this.wrapped_voc
      → IsMap that.wrapped_voc
      → NoConflict this.wrapped_voc that.wrapped_voc
      → overapproximates d gmp disable_wrapping (suc (suc n)) this that
        ≡ some (
            if map_eq this.wrapped_voc that.wrapped_voc
            then d.overapproximates this.av that.av
            else d.overapproximates
                (wrap d disable_wrapping this that.wrapped_voc).av
                (wrap d disable_wrapping that this.wrapped_voc).av)
  unfolding overapproximates wrap
  overapproximates_returns this that n mv mw h =
      let v = this.wrapped_voc in
      let w = that.wrapped_voc in
      let level : map_eq (wrap_loop w v).1 (wrap_loop v w).1 ≡ true =
        subst (λ m. map_eq (wrap_loop w v).1 m ≡ true) (crosswise_agree v w mv mw h)
          (map_eq_refl (wrap_loop w v).1) in
      elim (Bool-cases (map_eq v w)) [
        | inl same ↦ rw (same, overapproximates) refl
        | inr differ ↦ rw (differ, level, overapproximates) refl
      ]

  -- If the records are maps that give a dimension different signs, no number of recursive calls
  -- of `Overapproximates` is enough: each call swaps the two signs.
  pub overapproximates_diverges :
      (n : ℕ) (this that : Wrapped d) (k : DimensionKey) (s t : Bool)
      → IsMap this.wrapped_voc
      → IsMap that.wrapped_voc
      → find k this.wrapped_voc ≡ some s
      → find k that.wrapped_voc ≡ some t
      → same_sign s t ≡ false
      → overapproximates d gmp disable_wrapping n this that ≡ none
  unfolding overapproximates wrap
  overapproximates_diverges zero this that k s t mv mw e f c = refl
  overapproximates_diverges (suc n) this that k s t mv mw e f c =
      let v = this.wrapped_voc in
      let w = that.wrapped_voc in
      let again =
        overapproximates_diverges n (wrap d disable_wrapping this w)
          (wrap d disable_wrapping that v) k t s (wrapped-IsMap w v mv) (wrapped-IsMap v w mw)
          (find-wrapped k w v mw mv ∙ ap (λ o. first o (find k v)) f)
          (find-wrapped k v w mv mw ∙ ap (λ o. first o (find k w)) e) (same_sign_swap s t c) in
      rw (signs_differ v w k s t e f c, overapproximates) again
