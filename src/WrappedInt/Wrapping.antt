-- ===== src/WrappedInt/Wrapping.antt =====
-- The steps that the bounds which `wrap` adds keep.
use sound_bit_precise_domain.Prelude.{
  ◌≡◌, refl, sym, ap, subst, ◌∙◌, Bool, true, false, [], ◌∷◌, some, Option, ok, inl, inr, ◌⊎◌,
  Bool-cases, arith, if◌then◌else◌,
}
use sound_bit_precise_domain.Prelude.Int.{◌≤ℤ◌}
use sound_bit_precise_domain.Container.{eqb, eq_of_eqb, eqb_refl}
use sound_bit_precise_domain.Container.SortedSet.{contains}
use sound_bit_precise_domain.Container.SortedMap.{
  IsMap, find, insert, assign, at_key, find-assign, find-Above_self, assign-IsMap, insert-IsMap,
}
use sound_bit_precise_domain.Dimension.Key.{DimensionKey, key_ord}
use sound_bit_precise_domain.Dimension.Vocabulary.{Vocabulary}
use sound_bit_precise_domain.Signedness.{VocabularySignedness, same_sign}
use sound_bit_precise_domain.Mpz.Convert.{bounds_of_size, least, largest}
use sound_bit_precise_domain.Wrapped.Meaning.{State}
use sound_bit_precise_domain.Wrapped.Record.{Wrapped}
use sound_bit_precise_domain.Wrapped.Update.{at_least, at_most}
use sound_bit_precise_domain.Wrapped.Bounding.{
  get_min_bounding_constraint, get_max_bounding_constraint, bound_wrapped, bound_each,
}
use sound_bit_precise_domain.WrappedInt.Setting.{Setting}
use sound_bit_precise_domain.WrappedInt.Record.{sign_all}
use sound_bit_precise_domain.WrappedInt.Meaning.{
  Within, InRange, Holds, add_constraint-Holds, insert-InRange, unit_sum,
}
use sound_bit_precise_domain.WrappedInt.Sound.{IsSound}
use sound_bit_precise_domain.WrappedInt.Set.{apart_of_find}

at_once :
    (e : Bool) (o : Option Bool) (s t : Bool)
    → at_key e (some s) o ≡ some t
    → (o ≡ some t) ⊎ ((e ≡ true) × (s ≡ t))
at_once true o s t h = inr (refl, ground arith)
at_once false o s t h = inl h

pub same_sign_refl : (s : Bool) → same_sign s s ≡ true
same_sign_refl s = ground arith

-- A recorded sign that the step fits.
assign-InRange :
    (k : DimensionKey) (s : Bool) (m : VocabularySignedness) (p : State)
    → IsMap m
    → InRange m p
    → Within k s (p k)
    → InRange (assign k s m) p
assign-InRange k s m p h fits range q t e =
    elim (at_once (eqb q k) (find q m) s t (sym (find-assign q k s m h) ∙ e)) [
      | inl f ↦ fits q t f
      | inr (same, f) ↦
          subst (λ j. Within j t (p j)) (sym (eq_of_eqb q k same))
            (subst (λ u. Within k u (p k)) f range)
    ]

pub sign_all-InRange :
    (v : Vocabulary) (is_signed : Bool) (m : VocabularySignedness) (p : State)
    → IsMap m
    → InRange m p
    → ((j : DimensionKey) → contains j v ≡ true → Within j is_signed (p j))
    → IsMap (sign_all v is_signed m) × InRange (sign_all v is_signed m) p
unfolding sign_all contains
sign_all-InRange [] is_signed m p h fits range = (h, fits)
sign_all-InRange (j ∷ v) is_signed m p h fits range =
    sign_all-InRange v is_signed (insert j is_signed m) p (insert-IsMap j is_signed m h)
      (insert-InRange j is_signed m p h fits (range j (ground (arith, eqb_refl j))))
      (λ i e. range i (ground (arith, e)))

module _ (s : Setting) (sound : IsSound s) where
  bound_wrapped-Holds :
      (w : Wrapped s.d) (k : DimensionKey) (is_signed : Bool) (p : State)
      → Within k is_signed (p k)
      → Holds s.d sound.snd w p
      → (r : Wrapped s.d) × (bound_wrapped s.gmp s.d s.disable_wrapping w k is_signed ≡ ok r)
        × Holds s.d sound.snd r p
  unfolding bound_wrapped get_min_bounding_constraint get_max_bounding_constraint
  bound_wrapped-Holds w k is_signed p range h = elim (Bool-cases s.disable_wrapping) [
    | inl off ↦ (w, rw off refl, h)
    | inr on ↦
        let b = bounds_of_size s.gmp sound.width sound.laws k.bitsize is_signed in
        let low =
          add_constraint-Holds s.gmp sound.width sound.laws s.d sound.snd sound.exact w
            (at_least k is_signed) p
            (subst (λ z. least k.bitsize is_signed ≤ℤ z) (sym (unit_sum (p k))) range.0) h in
        let high =
          add_constraint-Holds s.gmp sound.width sound.laws s.d sound.snd sound.exact low.0
            (at_most k is_signed) p
            (subst (λ z. z ≤ℤ largest k.bitsize is_signed) (sym (unit_sum (p k))) range.1) low.2 in
        (high.0, rw (on, b.0, b.1, low.1) high.1, high.2)
  ]

  pub bound_each-Holds :
      (w : Wrapped s.d) (vs : VocabularySignedness) (p : State)
      → IsMap vs
      → InRange vs p
      → Holds s.d sound.snd w p
      → (r : Wrapped s.d) × (bound_each s.gmp s.d s.disable_wrapping w vs ≡ ok r)
        × Holds s.d sound.snd r p
  unfolding bound_each find
  bound_each-Holds w [] p m fits h = (w, refl, h)
  bound_each-Holds w ((k, t) ∷ vs) p m fits h =
      let range = fits k t (ap (λ (b : Bool). if b then some t else find k vs) (eqb_refl k)) in
      let b = bound_wrapped-Holds w k t p range h in
      let next =
        bound_each-Holds (record b.0 { wrapped_voc = assign k t b.0.wrapped_voc }) vs p m.1
          (λ q u e. fits q u (
            ap (λ (b : Bool). if b then some t else find q vs)
              (apart_of_find q k vs u e (find-Above_self k vs m.0))
            ∙ e))
          (record {
            sorted = assign-IsMap k t b.0.wrapped_voc b.2.sorted;
            fits = assign-InRange k t b.0.wrapped_voc p b.2.sorted b.2.fits range;
            has = b.2.has;
          }) in
      (next.0, rw (b.1, bound_each) next.1, next.2)
