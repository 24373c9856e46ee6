-- ===== src/Powerset/Wrapping.antt =====
-- src/AbstractDomain/PointsetPowerset/pointset_powerset_av_impl.hpp: `Wrap`, which hands the keys to
-- wrap on by sign and by size, and `raw_join`.
use sound_bit_precise_domain.Prelude.{
  ℕ, Bool, true, false, not, [], ◌∷◌, Option, none, some, Result, err, ok, ◌>>=◌, assertion,
  if◌then◌else◌,
}
use sound_bit_precise_domain.Value.{Bitsize, sixty_four, thirty_two, sixteen, eight, one}
use sound_bit_precise_domain.Dimension.Key.{key_ord}
use sound_bit_precise_domain.Dimension.Vocabulary.{
  Vocabulary, intersect_vocabularies, get_vocabulary_subset_bitsize,
}
use sound_bit_precise_domain.Container.SortedSet.{insert}
use sound_bit_precise_domain.Signedness.{VocabularySignedness}
use sound_bit_precise_domain.Wrapped.Lattice.{voc_eq}
use sound_bit_precise_domain.Powerset.Ppl.{Ppl}
use sound_bit_precise_domain.Powerset.WrapAssign.{
  Representation, unsigned, signed_2_complement, overflow_wraps, wrap_assign_pointset_powerset,
}
use sound_bit_precise_domain.Powerset.Merge.{Merging, merge_heuristic}
use sound_bit_precise_domain.Powerset.Indices.{Cache}
use sound_bit_precise_domain.Powerset.Dimensions.{
  Av, Spaces, get_variable_set_from_vocabulary, add_vocabulary,
}

-- `GetPplBoundedIntegerWidth`.
unfoldable pub get_ppl_bounded_integer_width : Bitsize → Result ℕ
get_ppl_bounded_integer_width sixty_four = ok 64
get_ppl_bounded_integer_width thirty_two = ok 32
get_ppl_bounded_integer_width sixteen = ok 16
get_ppl_bounded_integer_width eight = ok 8
get_ppl_bounded_integer_width one = err assertion

-- Nothing is a failed assertion.
unfoldable pub asserted {ℓ} : {A : Type ℓ} → Option A → Result A
asserted none = err assertion
asserted (some a) = ok a

unfoldable pub representation : Bool → Representation
representation is_signed = if is_signed then signed_2_complement else unsigned

-- The loop of `Wrap` on a map from keys to signs.
unfoldable pub keys_with_sign : Bool → VocabularySignedness → Vocabulary → Vocabulary
keys_with_sign is_signed [] voc = voc
keys_with_sign is_signed ((k, s) ∷ vs) voc =
    let kept = if is_signed then s else not s in
    let next = if kept then insert k voc else voc in keys_with_sign is_signed vs next

module _ (ppl : Ppl) (merging : Merging ppl) (max_disjunctions : ℕ) where
  -- `MergeHeuristic` on the powerset of a value.
  unfoldable pub merge_av : Av ppl → Result (Av ppl)
  merge_av a =
      asserted (merge_heuristic ppl merging max_disjunctions a.equalities_only a.pp) >>= λ pp.
      ok (record a { pp = pp })

  -- `Wrap` for keys of one size.
  unfoldable pub wrap_bitsize : Vocabulary → (is_signed : Bool) → Bitsize → Av ppl → Result (Av ppl)
  wrap_bitsize [] is_signed bitsize a = ok a
  wrap_bitsize (k ∷ voc_to_wrap) is_signed bitsize a = do
    vars_to_wrap ← asserted (get_variable_set_from_vocabulary a.key_index_bimap (k ∷ voc_to_wrap))
    width ← get_ppl_bounded_integer_width bitsize
    pp ←
        wrap_assign_pointset_powerset ppl width (representation is_signed) overflow_wraps 16 a.pp
          vars_to_wrap
    merge_av (record a { pp = pp })

  -- `Wrap` for keys of one sign. Keys of one bit are left out.
  unfoldable pub wrap_signed : Vocabulary → (is_signed : Bool) → Av ppl → Result (Av ppl)
  wrap_signed voc_to_wrap is_signed a = do
    b ← wrap_bitsize (get_vocabulary_subset_bitsize voc_to_wrap eight) is_signed eight a
    c ← wrap_bitsize (get_vocabulary_subset_bitsize voc_to_wrap sixteen) is_signed sixteen b
    d ← wrap_bitsize (get_vocabulary_subset_bitsize voc_to_wrap thirty_two) is_signed thirty_two c
    wrap_bitsize (get_vocabulary_subset_bitsize voc_to_wrap sixty_four) is_signed sixty_four d

  unfoldable pub wrap_av : VocabularySignedness → Av ppl → Result (Av ppl)
  wrap_av vs a =
      let signed_voc = intersect_vocabularies (keys_with_sign true vs []) a.voc in
      let unsigned_voc = intersect_vocabularies (keys_with_sign false vs []) a.voc in
      let wrapped = wrap_signed signed_voc true a >>= λ b. wrap_signed unsigned_voc false b in
      if a.equalities_only then ok a else wrapped

  -- `raw_join`. Where the vocabularies differ the other value is copied and extended.
  unfoldable pub raw_join : Spaces ppl → Av ppl → Av ppl → Cache → Result (Av ppl × Cache)
  raw_join spaces this that cache =
      asserted (add_vocabulary ppl spaces that.voc this cache) >>= λ grown.
      let copied : Result (Av ppl × Cache) =
        asserted (add_vocabulary ppl spaces grown.0.voc that grown.1) in
      let as_it_is : Result (Av ppl × Cache) = ok (that, grown.1) in
      (if voc_eq grown.0.voc that.voc then as_it_is else copied) >>= λ that_pp.
      merge_av (record grown.0 { pp = ppl.upper_bound grown.0.pp that_pp.0.pp }) >>= λ res.
      ok (res, that_pp.1)
