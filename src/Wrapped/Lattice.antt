-- ===== src/Wrapped/Lattice.antt =====
-- The operations of the domain on wrapped values: join, widening, meet, projection, changes of
-- version, and the composition of two relations.
use sound_bit_precise_domain.Prelude.{
  ℕ, zero, suc, Bool, true, false, [], ◌∷◌, Option, none, some, if◌then◌else◌, Result, ok, ◌>>=◌,
  ◌>>◌, guard, assertion,
}
use sound_bit_precise_domain.Mpz.{Gmp}
use sound_bit_precise_domain.Container
use sound_bit_precise_domain.Container.SortedMap.{find, insert}
use sound_bit_precise_domain.Dimension.Key.{DimensionKey, key_ord}
use sound_bit_precise_domain.Dimension.Vocabulary.{
  Vocabulary, union_vocabularies, subtract_vocabularies, get_vocabulary_subset,
  get_unversioned_vocabulary_subset,
}
use sound_bit_precise_domain.Dimension.Versions.{VersionMap, replace_versions, shift_map}
use sound_bit_precise_domain.Signedness.{
  VocabularySignedness, intersect_signedness, subtract_signedness, union_signedness,
  subtract_vocabulary, intersect_with_vocabulary,
}
use sound_bit_precise_domain.Wrapped.Domain.{Domain}
use sound_bit_precise_domain.Wrapped.Record.{Wrapped, from_parts, map_eq, wrap, equal, reduce}
use sound_bit_precise_domain.Wrapped.Bounding.{
  add_bounding_constraints, update_vocabulary_signedness,
}

-- `operator==` of two vocabularies.
unfoldable pub voc_eq : Vocabulary → Vocabulary → Bool
voc_eq [] [] = true
voc_eq [] (j ∷ w) = false
voc_eq (k ∷ v) [] = false
voc_eq (k ∷ v) (j ∷ w) = let rest = voc_eq v w in if Container.eqb k j then rest else false

-- The loop of `ReplaceVersions` over `wrapped_voc_`.
unfoldable pub rename_into :
    VersionMap → VocabularySignedness → VocabularySignedness → VocabularySignedness
rename_into vm [] new_wrapped_voc = new_wrapped_voc
rename_into vm ((k, s) ∷ m) new_wrapped_voc =
    rename_into vm m (insert (replace_versions k vm) s new_wrapped_voc)

module _ (d : Domain) where
  -- The new value with the vocabulary that the domain gives it.
  abbrev with_av : d.Av → VocabularySignedness → Wrapped d
  with_av a w = record { voc = d.get_vocabulary a; av = a; wrapped_voc = w }

  unfoldable pub join : Wrapped d → Wrapped d → Wrapped d
  join this wav =
      with_av (d.join this.av wav.av) (intersect_signedness this.wrapped_voc wav.wrapped_voc)

  unfoldable pub join_singleton : Wrapped d → Wrapped d → Wrapped d
  join_singleton this wav =
      with_av (d.join_singleton this.av wav.av)
        (intersect_signedness this.wrapped_voc wav.wrapped_voc)

  unfoldable pub vanilla_meet : Wrapped d → Wrapped d → Result (Wrapped d)
  vanilla_meet this that = do
    w ← union_signedness this.wrapped_voc that.wrapped_voc
    ok (record this { av = d.meet this.av that.av; wrapped_voc = w })

  unfoldable pub add_equality : Wrapped d → DimensionKey → DimensionKey → Wrapped d
  add_equality this v1 v2 =
      let w : VocabularySignedness = elim (find v1 this.wrapped_voc) [
        | some s ↦ insert v2 s this.wrapped_voc
        | none ↦ elim (find v2 this.wrapped_voc) [
          | some s ↦ insert v1 s this.wrapped_voc
          | none ↦ this.wrapped_voc
        ]
      ] in
      record this { av = d.add_equality this.av v1 v2; wrapped_voc = w }

  unfoldable pub project : Wrapped d → Vocabulary → Wrapped d
  project this v =
      with_av (d.project this.av v)
        (subtract_vocabulary this.wrapped_voc (subtract_vocabularies this.voc v))

  unfoldable pub havoc : Wrapped d → Vocabulary → Wrapped d
  havoc this v = from_parts d (d.havoc this.av v) (subtract_vocabulary this.wrapped_voc v)

  unfoldable pub replace_versions_wrapped : Wrapped d → VersionMap → Wrapped d
  replace_versions_wrapped this vm =
      with_av (d.replace_versions this.av vm) (rename_into vm this.wrapped_voc [])

  module _ (gmp : Gmp) (disable_wrapping : Bool) where
    -- The constructor that copies and bounds.
    unfoldable pub new_wrapped : d.Av → VocabularySignedness → Result (Wrapped d)
    new_wrapped a voc_to_wrap =
        add_bounding_constraints gmp d disable_wrapping (from_parts d a []) voc_to_wrap

    unfoldable pub top : Wrapped d → Result (Wrapped d)
    top this = new_wrapped (d.top this.av) []

    unfoldable pub bottom : Wrapped d → Result (Wrapped d)
    bottom this = new_wrapped (d.bottom this.av) []

    unfoldable pub is_top : Wrapped d → Result Bool
    is_top this = do
      tp ← new_wrapped (d.top this.av) this.wrapped_voc
      ok (equal d disable_wrapping this tp)

    unfoldable pub widen : Wrapped d → Wrapped d → Result (Wrapped d)
    widen this wav = do
      let w = intersect_signedness this.wrapped_voc wav.wrapped_voc
      bounded ←
          add_bounding_constraints gmp d disable_wrapping
            (record this { av = d.widen this.av wav.av; wrapped_voc = w }) w
      ok (record bounded { voc = d.get_vocabulary bounded.av })

    -- The values that `Meet` gives to the domain's meet.
    unfoldable pub wrap_both : Wrapped d → Wrapped d → Result (Wrapped d × Wrapped d)
    wrap_both this that = if map_eq this.wrapped_voc that.wrapped_voc then ok (this, that) else do
      let this_w = wrap d disable_wrapping this that.wrapped_voc
      let that_w = wrap d disable_wrapping that this_w.wrapped_voc
      guard (map_eq this_w.wrapped_voc that_w.wrapped_voc) assertion
      ok (this_w, that_w)

    unfoldable pub meet : Wrapped d → Wrapped d → Result (Wrapped d)
    meet this that = do
      both ← wrap_both this that
      let a = d.meet both.0.av both.1.av
      let v = d.get_vocabulary a
      update_vocabulary_signedness gmp d (record both.0 { av = a; voc = v }) v

    -- The vocabulary to project on.
    unfoldable pub kept_vocabulary : Vocabulary → Vocabulary → Vocabulary
    kept_vocabulary voc_3 op2_voc =
        union_vocabularies
          (union_vocabularies (get_vocabulary_subset voc_3 0) (get_vocabulary_subset voc_3 2))
          (get_unversioned_vocabulary_subset op2_voc)

    unfoldable pub extend : Wrapped d → Wrapped d → Result (Wrapped d)
    extend this op2 = do
      let op2_av = replace_versions_wrapped op2 shift_map
      let voc_to_bound =
          intersect_with_vocabulary (subtract_signedness this.wrapped_voc op2_av.wrapped_voc)
            op2_av.voc
      bounded ← add_bounding_constraints gmp d disable_wrapping op2_av voc_to_bound
      met ← meet this bounded
      let reduced = reduce d met
      let projected = project reduced (kept_vocabulary reduced.voc bounded.voc)
      let result = replace_versions_wrapped projected ((2, 1) ∷ [])
      guard (voc_eq result.voc (d.get_vocabulary result.av)) assertion
      ok result

    -- The recursion of `Overapproximates`, on fuel; `none` where the fuel does not suffice.
    unfoldable pub overapproximates : ℕ → Wrapped d → Wrapped d → Option Bool
    overapproximates zero this that = none
    overapproximates (suc n) this that =
        let again =
          overapproximates n (wrap d disable_wrapping this that.wrapped_voc)
            (wrap d disable_wrapping that this.wrapped_voc) in
        if map_eq this.wrapped_voc that.wrapped_voc
        then some (d.overapproximates this.av that.av)
        else again
