-- ===== src/WrappedInt/Images.antt =====
-- Wrapping an integer whose value may lie outside the range of its type.
use sound_bit_precise_domain.Prelude.{
  ◌^◌, ◌≡◌, refl, sym, ap, subst, ◌∙◌, Bool, true, false, ◌&&◌, [], ◌∷◌, some, none, Option, ok,
  inl, inr, Bool-cases, Option-cases, arith,
}
use mathlib.Core.Path.{fun_ext}
use sound_bit_precise_domain.Prelude.Int.{ℤ, ◌+ℤ◌, ◌≤ℤ◌, +ℤ_parts, pos_part, neg_part, eq_of_parts}
use sound_bit_precise_domain.Prelude.Floor.{scale, scale_parts}
use sound_bit_precise_domain.Container.{eqb, eq_of_eqb, eqb_refl}
use sound_bit_precise_domain.Container.SortedSet.{contains}
use sound_bit_precise_domain.Container.SortedMap.{
  IsMap, find, insert, assign, at_key, first, find-assign, find-insert, assign-IsMap, insert-IsMap,
}
use sound_bit_precise_domain.Dimension.Key.{DimensionKey, key_ord}
use sound_bit_precise_domain.Value.{
  Bitsize, eight, sixteen, thirty_two, sixty_four, one, get_bit_width,
}
use sound_bit_precise_domain.Signedness.{
  VocabularySignedness, same_sign, get_vocabulary_from_wrapped_voc,
}
use sound_bit_precise_domain.Mpz.Convert.{least, largest}
use sound_bit_precise_domain.Wrapped.Domain.{Domain}
use sound_bit_precise_domain.Wrapped.Meaning.{State, IsSoundDomain}
use sound_bit_precise_domain.Wrapped.Record.{Wrapped, wrap_dimension, wrap_loop}
use sound_bit_precise_domain.Wrapped.Record
use sound_bit_precise_domain.Wrapped.Bounding.{add_bounding_constraints}
use sound_bit_precise_domain.WrappedInt.Setting.{Setting, wrapped_get_dependent_vocabulary}
use sound_bit_precise_domain.WrappedInt.Record.{WrappedInt, sign_all, wrap_int}
use sound_bit_precise_domain.WrappedInt.Meaning.{Within, InRange, Holds, IsExact}
use sound_bit_precise_domain.WrappedInt.Keep.{add_vocabulary-Holds}
use sound_bit_precise_domain.WrappedInt.Sound.{IsSound}
use sound_bit_precise_domain.WrappedInt.Set.{set, set_same, set_other}
use sound_bit_precise_domain.WrappedInt.Products.{nothing_recorded}
use sound_bit_precise_domain.WrappedInt.Wrapping.{
  sign_all-InRange, bound_each-Holds, same_sign_refl,
}

-- The machine integer that a value wraps to: the one in the range of the type that differs from it
-- by a multiple of 2 ^ w.
pub record IsImage (k : DimensionKey) (is_signed : Bool) (x v : ℤ) : Type 0 where
  pub range : Within k is_signed v
  pub turns : ℤ
  pub congruent : v ≡ x +ℤ scale turns (2 ^ get_bit_width k.bitsize)

-- What is relied on of the wrapping of one dimension that has more than one bit: it has the wrapped
-- image of every step. Wrapping leaves dimensions of one bit alone.
pub record WrapsOne (d : Domain) (snd : IsSoundDomain d) : Type 0 where
  pub wrap_has :
      (a : d.Av) (k : DimensionKey) (is_signed : Bool) (p : State) (v : ℤ)
      → (k.bitsize ≡ one → ⊥)
      → IsImage k is_signed (p k) v
      → snd.Has a p
      → snd.Has (d.wrap a ((k, is_signed) ∷ [])) (set p k v)

-- A value in the range is its own image.
image_of_range :
    (b : Bitsize) (is_signed : Bool) (x v n : ℤ)
    → (b ≡ one → ⊥)
    → (least b is_signed ≤ℤ x) × (x ≤ℤ largest b is_signed)
    → (least b is_signed ≤ℤ v) × (v ≤ℤ largest b is_signed)
    → v ≡ x +ℤ scale n (2 ^ get_bit_width b)
    → v ≡ x
unfolding get_bit_width
image_of_range one t x v n h r q e = elim (h refl) [ ]
image_of_range eight true x v n h r q e = eq_of_parts v x (
    omega (
      arith,
      r,
      q,
      ap pos_part e,
      ap neg_part e,
      +ℤ_parts x (scale n (2 ^ 8)),
      scale_parts n (2 ^ 8),
    ))
image_of_range eight false x v n h r q e = eq_of_parts v x (
    omega (
      arith,
      r,
      q,
      ap pos_part e,
      ap neg_part e,
      +ℤ_parts x (scale n (2 ^ 8)),
      scale_parts n (2 ^ 8),
    ))
image_of_range sixteen true x v n h r q e = eq_of_parts v x (
    omega (
      arith,
      r,
      q,
      ap pos_part e,
      ap neg_part e,
      +ℤ_parts x (scale n (2 ^ 16)),
      scale_parts n (2 ^ 16),
    ))
image_of_range sixteen false x v n h r q e = eq_of_parts v x (
    omega (
      arith,
      r,
      q,
      ap pos_part e,
      ap neg_part e,
      +ℤ_parts x (scale n (2 ^ 16)),
      scale_parts n (2 ^ 16),
    ))
image_of_range thirty_two true x v n h r q e = eq_of_parts v x (
    omega (
      arith,
      r,
      q,
      ap pos_part e,
      ap neg_part e,
      +ℤ_parts x (scale n (2 ^ 32)),
      scale_parts n (2 ^ 32),
    ))
image_of_range thirty_two false x v n h r q e = eq_of_parts v x (
    omega (
      arith,
      r,
      q,
      ap pos_part e,
      ap neg_part e,
      +ℤ_parts x (scale n (2 ^ 32)),
      scale_parts n (2 ^ 32),
    ))
image_of_range sixty_four true x v n h r q e = eq_of_parts v x (
    omega (
      arith,
      r,
      q,
      ap pos_part e,
      ap neg_part e,
      +ℤ_parts x (scale n (2 ^ 64)),
      scale_parts n (2 ^ 64),
    ))
image_of_range sixty_four false x v n h r q e = eq_of_parts v x (
    omega (
      arith,
      r,
      q,
      ap pos_part e,
      ap neg_part e,
      +ℤ_parts x (scale n (2 ^ 64)),
      scale_parts n (2 ^ 64),
    ))

first_none : (o : Option Bool) → first o none ≡ o
first_none none = refl
first_none (some b) = refl

set-own : (p : State) (k : DimensionKey) → set p k (p k) ≡ p
set-own p k = fun_ext (λ j. elim (Bool-cases (eqb j k)) [
  | inl same ↦ rw same (ap p (sym (eq_of_eqb j k same)))
  | inr other ↦ set_other p k (p k) j other
])

at_own : (e : Bool) (o : Option Bool) (s t : Bool) → e ≡ true → at_key e (some s) o ≡ some t → s ≡ t
at_own e o s t h r = ground arith

at_other :
    (e : Bool) (o : Option Bool) (s t : Bool)
    → e ≡ false
    → at_key e (some s) o ≡ some t
    → o ≡ some t
at_other e o s t h r = ground arith

-- A record that reads like one with the dimension's sign set fits the step with its value changed.
changed-InRange :
    (k : DimensionKey) (s : Bool) (m n : VocabularySignedness) (p : State) (v : ℤ)
    → ((q : DimensionKey) → find q n ≡ at_key (eqb q k) (some s) (find q m))
    → InRange m p
    → Within k s v
    → InRange n (set p k v)
changed-InRange k s m n p v reads fits range q t e = elim (Bool-cases (eqb q k)) [
  | inl same ↦
      subst (λ j. Within j t (set p k v j)) (sym (eq_of_eqb q k same))
        (subst (Within k t) (sym (set_same p k v))
          (subst (λ u. Within k u v) (at_own _ (find q m) s t same (sym (reads q) ∙ e)) range))
  | inr other ↦
      subst (Within q t) (sym (set_other p k v q other))
        (fits q t (at_other _ (find q m) s t other (sym (reads q) ∙ e)))
]

insert_reads :
    (k : DimensionKey) (s : Bool) (m : VocabularySignedness)
    → IsMap m
    → find k m ≡ none
    → (q : DimensionKey) → find q (insert k s m) ≡ at_key (eqb q k) (some s) (find q m)
insert_reads k s m h new q = elim (Bool-cases (eqb q k)) [
  | inl same ↦
      find-insert q k s m h
      ∙ rw (same, subst (λ j. find j m ≡ none) (sym (eq_of_eqb q k same)) new) refl
  | inr other ↦ find-insert q k s m h ∙ rw other (first_none (find q m))
]

same_signs : (t s : Bool) → same_sign t s ≡ true → t ≡ s
same_signs t s h = ground arith

own_reads :
    (k : DimensionKey) (s : Bool) (m n : VocabularySignedness)
    → ((q : DimensionKey) → find q n ≡ at_key (eqb q k) (some s) (find q m))
    → find k n ≡ some s
own_reads k s m n reads = reads k ∙ rw (eqb_refl k) refl

module _ (d : Domain) (snd : IsSoundDomain d) (wraps : WrapsOne d snd) where
  -- The value is wrapped, the dimension recorded with the sign.
  abbrev IsWrappedAt : Wrapped d → DimensionKey → Bool → State → ℤ → Type 0
  IsWrappedAt r k s p v = Holds d snd r (set p k v) × (find k r.wrapped_voc ≡ some s)

  wrap_dimension_new :
      (w : Wrapped d) (k : DimensionKey) (s : Bool)
      → find k w.wrapped_voc ≡ none
      → wrap_dimension d false w k s
        ≡ record w { av = d.wrap w.av ((k, s) ∷ []); wrapped_voc = insert k s w.wrapped_voc }
  unfolding wrap_dimension Record.wrap wrap_loop insert
  wrap_dimension_new w k s e = rw (e, wrap_loop) refl

  wrap_dimension_same :
      (w : Wrapped d) (k : DimensionKey) (s t : Bool)
      → find k w.wrapped_voc ≡ some t
      → same_sign t s ≡ true
      → wrap_dimension d false w k s ≡ record w { av = d.wrap w.av [] }
  unfolding wrap_dimension Record.wrap wrap_loop insert
  wrap_dimension_same w k s t e same = rw (e, same, wrap_loop) refl

  wrap_dimension_other :
      (w : Wrapped d) (k : DimensionKey) (s t : Bool)
      → find k w.wrapped_voc ≡ some t
      → same_sign t s ≡ false
      → wrap_dimension d false w k s
        ≡ record w { av = d.wrap w.av ((k, s) ∷ []); wrapped_voc = assign k s w.wrapped_voc }
  unfolding wrap_dimension Record.wrap wrap_loop insert
  wrap_dimension_other w k s t e other = rw (e, other, wrap_loop) refl

  wrap_dimension_image :
      (exact : IsExact d snd) (w : Wrapped d) (k : DimensionKey) (s : Bool) (p : State) (v : ℤ)
      → (k.bitsize ≡ one → ⊥)
      → IsImage k s (p k) v
      → Holds d snd w p
      → IsWrappedAt (wrap_dimension d false w k s) k s p v
  wrap_dimension_image exact w k s p v more image h = elim (Option-cases (find k w.wrapped_voc)) [
    | inl new ↦
        let reads = insert_reads k s w.wrapped_voc h.sorted new in
        rw (wrap_dimension_new w k s new) (
          record {
            sorted = insert-IsMap k s w.wrapped_voc h.sorted;
            fits = changed-InRange k s w.wrapped_voc _ p v reads h.fits image.range;
            has = wraps.wrap_has w.av k s p v more image h.has;
          },
          own_reads k s w.wrapped_voc _ reads,
        )
    | inr (t, old) ↦ elim (Bool-cases (same_sign t s)) [
      | inl same ↦
          let recorded = old ∙ ap some (same_signs t s same) in
          let unchanged : v ≡ p k =
            image_of_range k.bitsize s (p k) v image.turns more (h.fits k s recorded) image.range
              image.congruent in
          rw (wrap_dimension_same w k s t old same) (
            subst (λ q. Holds d snd (record w { av = d.wrap w.av [] }) q)
                (sym (set-own p k) ∙ ap (set p k) (sym unchanged))
                (record {
                  sorted = h.sorted;
                  fits = h.fits;
                  has = exact.wrap_keeps w.av [] p (nothing_recorded p) h.has;
                }),
            recorded,
          )
      | inr other ↦
          let reads = λ (q : DimensionKey). find-assign q k s w.wrapped_voc h.sorted in
          rw (wrap_dimension_other w k s t old other) (
            record {
              sorted = assign-IsMap k s w.wrapped_voc h.sorted;
              fits = changed-InRange k s w.wrapped_voc _ p v reads h.fits image.range;
              has = wraps.wrap_has w.av k s p v more image h.has;
            },
            own_reads k s w.wrapped_voc _ reads,
          )
    ]
  ]

-- Wrapping an integer that is not flagged as wrapped with the sign gives, for every step in which
-- what the integer depends on is in the range of its type, the step in which the integer has the
-- value of the machine type that its value wraps to. The result is flagged, and its dimension
-- recorded with the sign. This holds where wrapping is enabled, for a dimension of more than one
-- bit, over a domain whose wrapping of one dimension has the wrapped image of every step.
pub wrap_int_has_image :
    (s : Setting) (sound : IsSound s) (wraps : WrapsOne s.d sound.snd) (this : WrappedInt s)
    (is_signed : Bool) (p : State) (v : ℤ)
    → s.disable_wrapping ≡ false
    → (this.wrapped && same_sign this.wrapped_is_signed is_signed) ≡ false
    → (this.k.bitsize ≡ one → ⊥)
    → ((j : DimensionKey)
        → contains j (wrapped_get_dependent_vocabulary s this.wav this.k) ≡ true
        → Within j is_signed (p j))
    → IsImage this.k is_signed (p this.k) v
    → Holds s.d sound.snd this.wav p
    → (r : WrappedInt s) × (wrap_int s this is_signed ≡ ok r)
      × (r.k ≡ this.k)
      × ((r.wrapped && same_sign r.wrapped_is_signed is_signed) ≡ true)
      × (find this.k r.wav.wrapped_voc ≡ some is_signed)
      × Holds s.d sound.snd r.wav (set p this.k v)
unfolding wrap_int add_bounding_constraints
wrap_int_has_image s sound wraps this is_signed p v enabled todo more depends image h =
    let voc = wrapped_get_dependent_vocabulary s this.wav this.k in
    let signs = sign_all-InRange voc is_signed [] p tt (nothing_recorded p) depends in
    let vs = sign_all voc is_signed [] in
    let b = bound_each-Holds s sound _ vs p signs.0 signs.1 (
      add_vocabulary-Holds s.d sound.snd sound.exact this.wav (get_vocabulary_from_wrapped_voc vs) p
        h) in
    let w =
      wrap_dimension_image s.d sound.snd wraps sound.exact b.0 this.k is_signed p v more image
        b.2 in
    (
      record this {
        wav = wrap_dimension s.d false b.0 this.k is_signed;
        wrapped = true;
        wrapped_is_signed = is_signed;
      },
      rw (todo, b.1, enabled) refl,
      refl,
      same_sign_refl is_signed,
      w.1,
      w.0,
    )
