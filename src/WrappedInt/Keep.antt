-- ===== src/WrappedInt/Keep.antt =====
-- Which steps adding, forgetting, removing and wrapping dimensions, and the meet, keep.
use sound_bit_precise_domain.Prelude.{
  ℕ, ◌≡◌, refl, sym, ap, ◌∙◌, Bool, true, false, not, inl, inr, Bool-cases, ◌⊎◌, subst, Option,
  none, some, ok, arith, if◌then◌else◌,
}
use sound_bit_precise_domain.Container.{IsSorted}
use sound_bit_precise_domain.Container.SortedSet.{contains}
use sound_bit_precise_domain.Container.SortedSet.Cut.{contains-difference}
use sound_bit_precise_domain.Container.SortedMap.{IsMap, find, first}
use sound_bit_precise_domain.Dimension.Key.{DimensionKey, key_ord}
use sound_bit_precise_domain.Dimension.Vocabulary.{
  Vocabulary, subset_by, subtract_vocabularies, contains-subset_by, subset_by-IsSorted,
}
use sound_bit_precise_domain.Signedness.{VocabularySignedness}
use sound_bit_precise_domain.Signedness.Lookup.{vocabulary_cut_exact, unmatched}
use sound_bit_precise_domain.Mpz.{Gmp, IsGmp}
use sound_bit_precise_domain.Wrapped.Maps.{some_key}
use sound_bit_precise_domain.Wrapped.Domain.{Domain}
use sound_bit_precise_domain.Wrapped.Meaning.{State, IsSoundDomain}
use sound_bit_precise_domain.Wrapped.Record.{Wrapped, from_parts, add_vocabulary, wrap, map_eq}
use sound_bit_precise_domain.Wrapped.Lattice.{project, havoc, wrap_both, meet}
use sound_bit_precise_domain.Wrapped.Agree.{both_agree_test}
use sound_bit_precise_domain.Wrapped.WrapExact.{wrap_exact}
use sound_bit_precise_domain.WrappedInt.Sound.{IsFresh, KeepsDimensions}
use sound_bit_precise_domain.WrappedInt.Meaning.{
  Within, InRange, IsExact, Holds, update_vocabulary_signedness-Holds,
}

cut_off :
    (b : Bool) (o : Option Bool) (s : Bool)
    → (if b then none else o) ≡ some s
    → (b ≡ false) × (o ≡ some s)
cut_off true o s e = ground arith
cut_off false o s e = (refl, e)

from_unmatched : (o r : Option Bool) (s : Bool) → unmatched o r ≡ some s → o ≡ some s
from_unmatched none r s e = e
from_unmatched (some t) none s e = e
from_unmatched (some t) (some u) s e = ground arith

pub from_either : (o r : Option Bool) (s : Bool) → first o r ≡ some s → (o ≡ some s) ⊎ (r ≡ some s)
from_either none r s e = inr e
from_either (some t) r s e = inl e

module _ (d : Domain) (snd : IsSoundDomain d) (exact : IsExact d snd) where
  pub local-Holds :
      (w : Wrapped d) (p q : State)
      → ((k : DimensionKey) → contains k (d.get_vocabulary w.av) ≡ true → q k ≡ p k)
      → ((k : DimensionKey) (s : Bool) → find k w.wrapped_voc ≡ some s → q k ≡ p k)
      → Holds d snd w p
      → Holds d snd w q
  local-Holds w p q same recorded h = record {
    sorted = h.sorted;
    fits = λ k s e. subst (Within k s) (sym (recorded k s e)) (h.fits k s e);
    has = exact.local w.av p q same h.has;
  }

  pub add_vocabulary-Holds :
      (w : Wrapped d) (v : Vocabulary) (p : State)
      → Holds d snd w p
      → Holds d snd (add_vocabulary d w v) p
  unfolding add_vocabulary
  add_vocabulary-Holds w v p h = record {
    sorted = h.sorted;
    fits = h.fits;
    has = snd.add_vocabulary_keeps w.av v p h.has;
  }

  pub havoc-Holds :
      (w : Wrapped d) (v : Vocabulary) (p q : State)
      → ((k : DimensionKey) → contains k v ≡ false → q k ≡ p k)
      → Holds d snd w p
      → Holds d snd (havoc d w v) q
  unfolding havoc from_parts
  havoc-Holds w v p q same h = record {
    sorted = (vocabulary_cut_exact some_key w.wrapped_voc v h.sorted).3;
    fits = λ k s e.
        let c =
          cut_off (contains k v) (find k w.wrapped_voc) s
            (sym (vocabulary_cut_exact k w.wrapped_voc v h.sorted).1 ∙ e) in
        subst (Within k s) (sym (same k c.0)) (h.fits k s c.1);
    has = exact.havoc_frees w.av v p q same h.has;
  }

  pub project-Holds :
      (w : Wrapped d) (v : Vocabulary) (p : State) → Holds d snd w p → Holds d snd (project d w v) p
  unfolding project
  project-Holds w v p h =
      let gone = subtract_vocabularies w.voc v in
      record {
        sorted = (vocabulary_cut_exact some_key w.wrapped_voc gone h.sorted).3;
        fits = λ k s e.
            h.fits k s
              (cut_off (contains k gone) (find k w.wrapped_voc) s
                (sym (vocabulary_cut_exact k w.wrapped_voc gone h.sorted).1 ∙ e)).1;
        has = snd.project_keeps w.av v p h.has;
      }

  either_has :
      (b : Bool) (a c : d.Av) (p : State)
      → snd.Has a p
      → snd.Has c p
      → snd.Has (if b then a else c) p
  either_has true a c p h k = h
  either_has false a c p h k = k

  pub wrap-Holds :
      (disable_wrapping : Bool) (w : Wrapped d) (v : VocabularySignedness) (p : State)
      → IsMap v
      → InRange v p
      → Holds d snd w p
      → Holds d snd (wrap d disable_wrapping w v) p
  wrap-Holds disable_wrapping w v p m range h =
      let x = wrap_exact d disable_wrapping w v m h.sorted in
      record {
        sorted = x.4;
        fits = λ k s e. elim (from_either (find k v) (find k w.wrapped_voc) s (sym (x.5 k) ∙ e)) [
          | inl f ↦ range k s f
          | inr f ↦ h.fits k s f
        ];
        has =
            subst (λ a. snd.Has a p) (sym x.1)
              (either_has disable_wrapping w.av (d.wrap w.av x.0) p h.has (
                exact.wrap_keeps w.av x.0 p
                  (λ k s e. range k s (from_unmatched _ _ s (sym (x.3 k) ∙ e))) h.has));
      }

  -- The dimensions that are removed may have any value afterwards.
  pub remove_vocabulary-Holds :
      (w : Wrapped d) (voc : Vocabulary) (p q : State)
      → IsSorted w.voc
      → ((k : DimensionKey) → contains k voc ≡ true → contains k w.voc ≡ true)
      → ((k : DimensionKey) → contains k voc ≡ false → q k ≡ p k)
      → Holds d snd w p
      → Holds d snd (project d w (subset_by (λ k. not (contains k voc)) w.voc)) q
  unfolding project subtract_vocabularies
  remove_vocabulary-Holds w voc p q level covers same h =
      let kept = subset_by (λ k. not (contains k voc)) w.voc in
      let is_kept = λ (k : DimensionKey). contains-subset_by (λ j. not (contains j voc)) k w.voc in
      let is_gone = λ (k : DimensionKey).
        contains-difference k w.voc kept level
          (subset_by-IsSorted (λ j. not (contains j voc)) w.voc) in
      local-Holds (project d w kept) p q
        (λ k c. same k (ground (arith, exact.project_only w.av kept k c, is_kept k)))
        (λ k s e. same k (
          let c = cut_off (contains k (subtract_vocabularies w.voc kept)) (find k w.wrapped_voc) s (
            sym (vocabulary_cut_exact k w.wrapped_voc (subtract_vocabularies w.voc kept) h.sorted).1
            ∙ e) in
          ground (arith, is_kept k, is_gone k, c.0, covers k)))
        (project-Holds w kept p h)

  pub removed-IsFresh :
      (w : Wrapped d) (voc : Vocabulary) (k : DimensionKey)
      → IsSorted w.voc
      → contains k voc ≡ true
      → contains k w.voc ≡ true
      → IsMap w.wrapped_voc
      → IsFresh d (project d w (subset_by (λ k. not (contains k voc)) w.voc)) k
  unfolding project subtract_vocabularies
  removed-IsFresh w voc k level in_voc there sorted =
      let kept = subset_by (λ k. not (contains k voc)) w.voc in
      let is_kept = contains-subset_by (λ j. not (contains j voc)) k w.voc in
      let is_gone =
        contains-difference k w.voc kept level
          (subset_by-IsSorted (λ j. not (contains j voc)) w.voc) in
      let removed : contains k (subtract_vocabularies w.voc kept) ≡ true =
        ground (arith, is_kept, is_gone, in_voc, there) in
      record {
        unknown = elim (Bool-cases (contains k (d.get_vocabulary (d.project w.av kept)))) [
          | inl c ↦ ground (arith, exact.project_only w.av kept k c, is_kept, in_voc)
          | inr c ↦ c
        ];
        unmarked =
            (vocabulary_cut_exact k w.wrapped_voc (subtract_vocabularies w.voc kept) sorted).1
            ∙ ap (λ (b : Bool). if b then none else find k w.wrapped_voc) removed;
      }

  module _ (gmp : Gmp) (width : ℕ) (laws : IsGmp width gmp) (dims : KeepsDimensions d)
      (disable_wrapping : Bool) where
    covers_if :
        (b : Bool) (a : d.Av) (m : VocabularySignedness) (j : DimensionKey)
        → contains j (d.get_vocabulary a) ≡ true
        → contains j (d.get_vocabulary (if b then a else d.wrap a m)) ≡ true
    covers_if true a m j e = e
    covers_if false a m j e = dims.wrap_covers a m j e

    pub meet-Holds :
        (this that : Wrapped d) (p : State)
        → Holds d snd this p
        → Holds d snd that p
        → (r : Wrapped d) × (meet d gmp disable_wrapping this that ≡ ok r)
          × Holds d snd r p
          × (r.voc ≡ d.get_vocabulary r.av)
          × ((j : DimensionKey)
              → contains j (d.get_vocabulary this.av) ≡ true
              → contains j (d.get_vocabulary r.av) ≡ true)
    unfolding meet wrap_both map_eq wrap
    meet-Holds this that p h k = elim (Bool-cases (map_eq this.wrapped_voc that.wrapped_voc)) [
      | inl same ↦
          let a = d.meet this.av that.av in
          let u =
            update_vocabulary_signedness-Holds gmp width laws d snd exact
              (record this { av = a; voc = d.get_vocabulary a }) (d.get_vocabulary a) p
              (record {
                sorted = h.sorted;
                fits = h.fits;
                has = snd.meet_keeps this.av that.av p h.has k.has;
              }) in
          (
            u.0,
            rw same u.1,
            u.2,
            u.3.1 ∙ ap d.get_vocabulary (sym u.3.0),
            λ j e.
                ap (λ b. contains j (d.get_vocabulary b)) u.3.0
                ∙ dims.meet_covers this.av that.av j e,
          )
      | inr differ ↦
          let x = wrap d disable_wrapping this that.wrapped_voc in
          let y = wrap d disable_wrapping that x.wrapped_voc in
          let hx = wrap-Holds disable_wrapping this that.wrapped_voc p k.sorted k.fits h in
          let hy = wrap-Holds disable_wrapping that x.wrapped_voc p hx.sorted hx.fits k in
          let a = d.meet x.av y.av in
          let u =
            update_vocabulary_signedness-Holds gmp width laws d snd exact
              (record x { av = a; voc = d.get_vocabulary a }) (d.get_vocabulary a) p
              (record {
                sorted = hx.sorted;
                fits = hx.fits;
                has = snd.meet_keeps x.av y.av p hx.has hy.has;
              }) in
          (
            u.0,
            rw (differ, both_agree_test this.wrapped_voc that.wrapped_voc h.sorted k.sorted) u.1,
            u.2,
            u.3.1 ∙ ap d.get_vocabulary (sym u.3.0),
            λ j e.
                ap (λ b. contains j (d.get_vocabulary b)) u.3.0
                ∙ dims.meet_covers x.av y.av j (covers_if disable_wrapping this.av _ j e),
          )
    ]
