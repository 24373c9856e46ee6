-- ===== src/Powerset/Meeting.antt =====
-- src/AbstractDomain/PointsetPowerset/pointset_powerset_av_impl.hpp: `Meet` of two values.
use sound_bit_precise_domain.Prelude.{
  ℕ, ◌≤◌, ◌≡◌, inl, inr, refl, sym, ap, ◌∙◌, subst, Bool, Result, ok, ◌>>=◌, if◌then◌else◌,
  Bool-cases, length,
}
use sound_bit_precise_domain.Dimension.Key.{key_ord}
use sound_bit_precise_domain.Dimension.Vocabulary.{union_vocabularies}
use sound_bit_precise_domain.Wrapped.Lattice.{voc_eq}
use sound_bit_precise_domain.Powerset.Ppl.{Ppl, IsSound, Point}
use sound_bit_precise_domain.Powerset.Merge.{Merging}
use sound_bit_precise_domain.Powerset.MergeSound.{IsMerging, merge_heuristic_sound}
use sound_bit_precise_domain.Powerset.Indices.{Cache, IsCache, eq_of_voc_eq}
use sound_bit_precise_domain.Powerset.Dimensions.{Av, Spaces, add_vocabulary}
use sound_bit_precise_domain.Powerset.DimensionsSound.{
  Valuation, IsSpaces, IsLaidOut, Represents, add_vocabulary_sound, arrange,
}
use sound_bit_precise_domain.Powerset.Wrapping.{asserted, merge_av}
use sound_bit_precise_domain.Powerset.JoinSound.{union_absorbs}

-- What `Meet` calls of a powerset.
pub record Meeting (ppl : Ppl) : Type 0 where
  pub is_top : ppl.Pps → Bool
  pub meet_assign : ppl.Pps → ppl.Pps → ppl.Pps

pub record IsMeeting (ppl : Ppl) (snd : IsSound ppl) (meeting : Meeting ppl) : Type 0 where
  pub meet_keeps :
      (q r : ppl.Pps) (p : Point)
      → snd.HasPps q p
      → snd.HasPps r p
      → snd.HasPps (meeting.meet_assign q r) p

module _ (ppl : Ppl) (merging : Merging ppl) (meeting : Meeting ppl) (max_disjunctions : ℕ) where
  -- `operator=`, which leaves `equalities_only_` as it is.
  unfoldable pub assign : Av ppl → Av ppl → Av ppl
  assign this a = record this { voc = a.voc; pp = a.pp; key_index_bimap = a.key_index_bimap }

  -- `Meet` once the vocabularies are the same.
  unfoldable pub meet_aligned : Av ppl → Av ppl → Result (Av ppl)
  meet_aligned this that =
      let merged =
        merge_av ppl merging max_disjunctions
          (record this { pp = meeting.meet_assign this.pp that.pp }) in
      if meeting.is_top this.pp
      then ok (assign this that)
      else if meeting.is_top that.pp
      then ok this
      else merged

  unfoldable pub meet_av : Spaces ppl → Av ppl → Av ppl → Cache → Result (Av ppl × Cache)
  meet_av spaces this that cache =
      asserted (add_vocabulary ppl spaces that.voc this cache) >>= λ grown.
      let copied : Result (Av ppl × Cache) =
        asserted (add_vocabulary ppl spaces grown.0.voc that grown.1) in
      let as_it_is : Result (Av ppl × Cache) = ok (that, grown.1) in
      (if voc_eq grown.0.voc that.voc then as_it_is else copied) >>= λ that_pp.
      meet_aligned grown.0 that_pp.0 >>= λ res. ok (res, that_pp.1)

module _ (ppl : Ppl) (snd : IsSound ppl) (merging : Merging ppl) (joins : IsMerging ppl snd merging)
    (meeting : Meeting ppl) (meets : IsMeeting ppl snd meeting) (spaces : Spaces ppl)
    (lawful : IsSpaces ppl snd spaces) where
  meet_aligned_lem :
      (max_disjunctions : ℕ) (this that : Av ppl)
      → 1 ≤ max_disjunctions
      → this.voc ≡ that.voc
      → (res : Av ppl) × (meet_aligned ppl merging meeting max_disjunctions this that ≡ ok res)
        × ((f : Valuation)
            → Represents ppl snd spaces lawful this f
            → Represents ppl snd spaces lawful that f
            → Represents ppl snd spaces lawful res f)
  unfolding meet_aligned merge_av asserted assign
  meet_aligned_lem m this that pos_m e = elim (Bool-cases (meeting.is_top this.pp)) [
    | inl top ↦ (assign ppl merging meeting m this that, rw (top) refl, λ f h k. k)
    | inr low ↦ elim (Bool-cases (meeting.is_top that.pp)) [
      | inl top ↦ (this, rw (low, top) refl, λ f h k. h)
      | inr both ↦
          let merged =
            merge_heuristic_sound ppl snd merging joins m this.equalities_only
              (meeting.meet_assign this.pp that.pp) pos_m in
          let res : Av ppl = record this { pp = merged.0 } in
          (
            res,
            rw (low, both, merged.1) refl,
            λ f h k. merged.2 _ (
                meets.meet_keeps this.pp that.pp _ h
                  (subst (λ v. snd.HasPps that.pp (arrange f v)) (sym e) k)),
          )
    ]
  ]

  -- With a positive maximum, `Meet` of two values whose dimensions are the places of their
  -- ordered vocabularies returns with no failed assertion, and the result has every valuation
  -- that both values have.
  meet_sound :
      (max_disjunctions : ℕ) (this that : Av ppl) (cache : Cache)
      → 1 ≤ max_disjunctions
      → IsLaidOut ppl snd spaces lawful this
      → IsLaidOut ppl snd spaces lawful that
      → ppl.pps_dimension this.pp ≡ length this.voc
      → ppl.pps_dimension that.pp ≡ length that.voc
      → IsCache cache
      → (res : Av ppl) × (left : Cache) × (meet_av ppl merging meeting max_disjunctions spaces this
            that cache
          ≡ ok (res, left))
        × ((f : Valuation)
            → Represents ppl snd spaces lawful this f
            → Represents ppl snd spaces lawful that f
            → Represents ppl snd spaces lawful res f)
  unfolding meet_av asserted
  meet_sound m this that cache pos_m this_laid that_laid this_dims that_dims known =
      let first =
        add_vocabulary_sound ppl snd spaces lawful that.voc this cache this_laid this_dims
          that_laid.sorted known in
      let grown = first.0 in
      elim (Bool-cases (voc_eq grown.voc that.voc)) [
        | inl same ↦
            let res = meet_aligned_lem m grown that pos_m (eq_of_voc_eq _ _ same) in
            (
              res.0,
              first.1,
              rw (meet_av, first.2.0, same, res.1) refl,
              λ f h k. res.2 f (first.2.4 f h) k,
            )
        | inr other ↦
            let second =
              add_vocabulary_sound ppl snd spaces lawful grown.voc that first.1 that_laid that_dims
                first.2.2.sorted first.2.3 in
            let one_voc : grown.voc ≡ second.0.voc =
              first.2.1
              ∙ sym (union_absorbs this.voc that.voc this_laid.sorted that_laid.sorted)
              ∙ ap (union_vocabularies that.voc) (sym first.2.1)
              ∙ sym second.2.1 in
            let res = meet_aligned_lem m grown second.0 pos_m one_voc in
            (
              res.0,
              second.1,
              rw (meet_av, first.2.0, other, second.2.0, res.1) refl,
              λ f h k. res.2 f (first.2.4 f h) (second.2.4 f k),
            )
      ]
