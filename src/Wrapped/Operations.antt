-- ===== src/Wrapped/Operations.antt =====
-- The operations of wrapped values that do not fault keep the invariant, and what they record.
use sound_bit_precise_domain.Prelude.{◌≡◌, refl, ap, ◌∙◌, Bool, not, ◌&&◌, [], none, if◌then◌else◌}
use sound_bit_precise_domain.Container.{IsSorted}
use sound_bit_precise_domain.Container.SortedSet.{contains}
use sound_bit_precise_domain.Container.SortedSet.Cut.{contains-difference}
use sound_bit_precise_domain.Container.SortedMap.{IsMap, find}
use sound_bit_precise_domain.Dimension.Key.{DimensionKey, key_ord}
use sound_bit_precise_domain.Dimension.Vocabulary.{Vocabulary, subtract_vocabularies}
use sound_bit_precise_domain.Signedness.Lookup.{signedness_cut_exact, vocabulary_cut_exact, agreed}
use sound_bit_precise_domain.Value.{one}
use sound_bit_precise_domain.Wrapped.Domain.{Domain}
use sound_bit_precise_domain.Wrapped.Record.{Wrapped, from_parts}
use sound_bit_precise_domain.Wrapped.Maps.{intersect_signedness-IsMap}
use sound_bit_precise_domain.Wrapped.Invariant.{IsWellFormed}
use sound_bit_precise_domain.Wrapped.Lattice.{join, join_singleton, project, havoc}

module _ (d : Domain) (this that : Wrapped d) (h : IsMap this.wrapped_voc)
    (k : IsMap that.wrapped_voc) where
  -- The two joins give well-formed values that record exactly the dimensions that both values
  -- record with the same sign. This holds where both records are maps.
  pub join_exact :
      IsWellFormed d (join d this that)
      × IsWellFormed d (join_singleton d this that)
      × ((q : DimensionKey)
          → find q (join d this that).wrapped_voc
            ≡ agreed (find q this.wrapped_voc) (find q that.wrapped_voc))
      × ((q : DimensionKey)
          → find q (join_singleton d this that).wrapped_voc
            ≡ agreed (find q this.wrapped_voc) (find q that.wrapped_voc))
  unfolding join join_singleton
  join_exact =
      let r = intersect_signedness-IsMap this.wrapped_voc that.wrapped_voc h k in
      (
        record { level = refl; sorted = r },
        record { level = refl; sorted = r },
        λ q. (signedness_cut_exact q this.wrapped_voc that.wrapped_voc h k).0,
        λ q. (signedness_cut_exact q this.wrapped_voc that.wrapped_voc h k).0,
      )

-- For a value whose record is a map, and ordered vocabularies, projecting and removing the
-- constraints on a vocabulary give well-formed values. The projection forgets the record of the
-- dimensions of the value that are not in the vocabulary it projects on, the removal that of the
-- dimensions that are in its vocabulary, and both keep the rest of the record.
pub project-havoc_exact :
    (d : Domain) (this : Wrapped d) (v : Vocabulary)
    → IsMap this.wrapped_voc
    → IsSorted this.voc
    → IsSorted v
    → IsWellFormed d (project d this v)
      × IsWellFormed d (havoc d this v)
      × ((q : DimensionKey)
          → find q (project d this v).wrapped_voc
            ≡ (if contains q this.voc && not (contains q v) then none else find q this.wrapped_voc))
      × ((q : DimensionKey)
          → find q (havoc d this v).wrapped_voc
            ≡ (if contains q v then none else find q this.wrapped_voc))
unfolding project havoc from_parts subtract_vocabularies
project-havoc_exact d this v h s t =
    let cut = λ (u : Vocabulary) (q : DimensionKey). vocabulary_cut_exact q this.wrapped_voc u h in
    let some_key : DimensionKey = record { name = []; ver = 0; bitsize = one } in
    (
      record { level = refl; sorted = (cut (subtract_vocabularies this.voc v) some_key).3 },
      record { level = refl; sorted = (cut v some_key).3 },
      λ q.
          (cut (subtract_vocabularies this.voc v) q).1
          ∙ ap (λ (b : Bool). if b then none else find q this.wrapped_voc)
              (contains-difference q this.voc v s t),
      λ q. (cut v q).1,
    )
