-- ===== src/Powerset/JoinSound.antt =====
-- src/AbstractDomain/PointsetPowerset/pointset_powerset_av_impl.hpp: `raw_join` returns an upper
-- bound of its two values, whatever their vocabularies.
use sound_bit_precise_domain.Prelude.{
  ℕ, ◌≤◌, ◌≡◌, ◌⊎◌, inl, inr, refl, sym, ap, ◌∙◌, subst, Bool, ◌||◌, ok, arith, Bool-cases, length,
}
use sound_bit_precise_domain.Container.{IsSorted}
use sound_bit_precise_domain.Container.SortedSet
use sound_bit_precise_domain.Container.SortedSet.Extensional.{set_ext}
use sound_bit_precise_domain.Dimension.Key.{key_ord}
use sound_bit_precise_domain.Dimension.Vocabulary.{Vocabulary, union_vocabularies}
use sound_bit_precise_domain.Wrapped.Lattice.{voc_eq}
use sound_bit_precise_domain.Powerset.Ppl.{Ppl, IsSound}
use sound_bit_precise_domain.Powerset.Merge.{Merging}
use sound_bit_precise_domain.Powerset.MergeSound.{IsMerging, merge_heuristic_sound}
use sound_bit_precise_domain.Powerset.Indices.{Cache, IsCache, eq_of_voc_eq}
use sound_bit_precise_domain.Powerset.Dimensions.{Av, Spaces}
use sound_bit_precise_domain.Powerset.DimensionsSound.{
  Valuation, IsSpaces, IsLaidOut, Represents, add_vocabulary_sound, arrange,
}
use sound_bit_precise_domain.Powerset.Wrapping.{asserted, merge_av, raw_join}

or_absorbs : (a b : Bool) → (b || (a || b)) ≡ (a || b)
or_absorbs a b = ground arith

pub union_absorbs :
    (v w : Vocabulary)
    → IsSorted v
    → IsSorted w
    → union_vocabularies w (union_vocabularies v w) ≡ union_vocabularies v w
unfolding union_vocabularies
union_absorbs v w s t =
    let u = SortedSet.union-IsSorted v w s t in
    set_ext _ _ (SortedSet.union-IsSorted w _ t u) u (λ k.
      SortedSet.contains-union k w (SortedSet.union v w)
      ∙ rw (SortedSet.contains-union k v w)
          (or_absorbs (SortedSet.contains k v) (SortedSet.contains k w)))

module _ (ppl : Ppl) (snd : IsSound ppl) (merging : Merging ppl) (joins : IsMerging ppl snd merging)
    (spaces : Spaces ppl) (lawful : IsSpaces ppl snd spaces) where
  -- What the join of two values of one vocabulary has.
  abbrev IsJoin : Av ppl → Av ppl → Av ppl → Type 0
  IsJoin grown other res =
      (IsLaidOut ppl snd spaces lawful grown → IsLaidOut ppl snd spaces lawful res)
      × ((f : Valuation)
          → Represents ppl snd spaces lawful grown f ⊎ Represents ppl snd spaces lawful other f
          → Represents ppl snd spaces lawful res f)

  merge_av_lem :
      (max_disjunctions : ℕ) (grown other : Av ppl)
      → 1 ≤ max_disjunctions
      → grown.voc ≡ other.voc
      → (res : Av ppl) × (merge_av ppl merging max_disjunctions
            (record grown { pp = ppl.upper_bound grown.pp other.pp })
          ≡ ok res)
        × IsJoin grown other res
  unfolding merge_av asserted
  merge_av_lem m grown other pos_m e =
      let merged =
        merge_heuristic_sound ppl snd merging joins m grown.equalities_only
          (ppl.upper_bound grown.pp other.pp) pos_m in
      let res : Av ppl = record grown { pp = merged.0 } in
      (
        res,
        rw (merged.1) refl,
        (
          (λ laid. record { sorted = laid.sorted; indexed = laid.indexed }),
          λ f h. elim h [
            | inl one ↦ merged.2 _ (snd.upper_bound_left grown.pp other.pp _ one)
            | inr two ↦ merged.2 _ (
                snd.upper_bound_right grown.pp other.pp _
                  (subst (λ v. snd.HasPps other.pp (arrange f v)) (sym e) two))
          ],
        ),
      )

  -- What `raw_join` returns and leaves of the cache.
  abbrev pub IsUpperBound : ℕ → Av ppl → Av ppl → Cache → Av ppl → Cache → Type 0
  IsUpperBound max_disjunctions this that cache res left =
      (raw_join ppl merging max_disjunctions spaces this that cache ≡ ok (res, left))
      × IsLaidOut ppl snd spaces lawful res
      × IsCache left
      × ((f : Valuation)
          → Represents ppl snd spaces lawful this f ⊎ Represents ppl snd spaces lawful that f
          → Represents ppl snd spaces lawful res f)

  -- With a positive maximum, `raw_join` of two values whose dimensions are the places of their
  -- ordered vocabularies returns with no failed assertion, and the result, which is laid out in
  -- the same way, has every valuation of either value.
  pub raw_join_sound :
      (max_disjunctions : ℕ) (this that : Av ppl) (cache : Cache)
      → 1 ≤ max_disjunctions
      → IsLaidOut ppl snd spaces lawful this
      → IsLaidOut ppl snd spaces lawful that
      → ppl.pps_dimension this.pp ≡ length this.voc
      → ppl.pps_dimension that.pp ≡ length that.voc
      → IsCache cache
      → (res : Av ppl) × (left : Cache) × IsUpperBound max_disjunctions this that cache res left
  unfolding raw_join asserted
  raw_join_sound m this that cache pos_m this_laid that_laid this_dims that_dims known =
      let first =
        add_vocabulary_sound ppl snd spaces lawful that.voc this cache this_laid this_dims
          that_laid.sorted known in
      let grown = first.0 in
      elim (Bool-cases (voc_eq grown.voc that.voc)) [
        | inl same ↦
            let res = merge_av_lem m grown that pos_m (eq_of_voc_eq _ _ same) in
            (
              res.0,
              first.1,
              (
                rw (raw_join, first.2.0, same, res.1) refl,
                res.2.0 first.2.2,
                first.2.3,
                λ f h. elim h [
                  | inl one ↦ res.2.1 f (inl (first.2.4 f one))
                  | inr two ↦ res.2.1 f (inr two)
                ],
              ),
            )
        | inr other ↦
            let second =
              add_vocabulary_sound ppl snd spaces lawful grown.voc that first.1 that_laid that_dims
                first.2.2.sorted first.2.3 in
            let one_voc : grown.voc ≡ second.0.voc =
              first.2.1
              ∙ sym (union_absorbs this.voc that.voc this_laid.sorted that_laid.sorted)
              ∙ ap (union_vocabularies that.voc) (sym first.2.1)
              ∙ sym second.2.1 in
            let res = merge_av_lem m grown second.0 pos_m one_voc in
            (
              res.0,
              second.1,
              (
                rw (raw_join, first.2.0, other, second.2.0, res.1) refl,
                res.2.0 first.2.2,
                second.2.3,
                λ f h. elim h [
                  | inl one ↦ res.2.1 f (inl (first.2.4 f one))
                  | inr two ↦ res.2.1 f (inr (second.2.4 f two))
                ],
              ),
            )
      ]
