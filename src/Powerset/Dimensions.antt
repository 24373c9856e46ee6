-- ===== src/Powerset/Dimensions.antt =====
-- src/AbstractDomain/PointsetPowerset/pointset_powerset_av_impl.hpp: the operations of
-- `PointsetPowersetAv` on its vocabulary. The static cache of index maps is passed along.
use sound_bit_precise_domain.Prelude.{
  ℕ, ◌+◌, Bool, List, [], ◌∷◌, Option, none, some, if◌then◌else◌, length,
}
use sound_bit_precise_domain.Dimension.Key.{DimensionKey, key_ord}
use sound_bit_precise_domain.Dimension.Vocabulary.{
  Vocabulary, union_vocabularies, intersect_vocabularies, subtract_vocabularies,
}
use sound_bit_precise_domain.Dimension.Versions.{VersionMap, replace_versions}
use sound_bit_precise_domain.Container.SortedSet.{contains, insert}
use sound_bit_precise_domain.Wrapped.Lattice.{voc_eq}
use sound_bit_precise_domain.Powerset.Ppl.{Ppl}
use sound_bit_precise_domain.Powerset.Indices.{
  BiMap, Cache, get_vocabulary_index_map, get_ppl_dimension_type_from_dimension_key,
}

-- `Partial_Function`: pairs of an old and a new dimension.
abbrev pub Permutation : Type 0
Permutation = List (ℕ × ℕ)

-- What the source calls of the library on the dimensions of a powerset.
pub record Spaces (ppl : Ppl) : Type 1 where
  pub add_space_dimensions_and_embed : ℕ → ppl.Pps → ppl.Pps
  pub remove_space_dimensions : List ℕ → ppl.Pps → ppl.Pps
  pub unconstrain_all : List ℕ → ppl.Pps → ppl.Pps
  pub map_space_dimensions : Permutation → ppl.Pps → ppl.Pps

-- The members of `PointsetPowersetAv`, and of `AbstractValue` below it.
pub record Av (ppl : Ppl) : Type 0 where
  pub voc : Vocabulary
  pub pp : ppl.Pps
  pub key_index_bimap : BiMap
  pub equalities_only : Bool

-- `key_index_bimap_` gives a dimension, else the new dimension of an added key. Nothing is a
-- failed assertion.
unfoldable pub moved_from : BiMap → BiMap → ℕ → DimensionKey → Option ℕ
moved_from old added old_poly_space_dims k =
    elim (get_ppl_dimension_type_from_dimension_key old k) [
      | some from ↦ some from
      | none ↦ elim (get_ppl_dimension_type_from_dimension_key added k) [
        | some place ↦ some (old_poly_space_dims + place)
        | none ↦ none
      ]
    ]

unfoldable pub cons_move : Option ℕ → Option ℕ → Option Permutation → Option Permutation
cons_move (some from) (some to) (some rest) = some ((from, to) ∷ rest)
cons_move (some from) (some to) none = none
cons_move (some from) none rest = none
cons_move none to rest = none

-- The loop that fills `permutation`, from the dimensions that the two functions give.
unfoldable pub permutation_of :
    (DimensionKey → Option ℕ) → (DimensionKey → Option ℕ) → Vocabulary → Option Permutation
permutation_of from to [] = some []
permutation_of from to (k ∷ v) = cons_move (from k) (to k) (permutation_of from to v)

-- `GetVariableSetFromVocabulary`.
unfoldable pub cons_variable : Option ℕ → Option (List ℕ) → Option (List ℕ)
cons_variable (some i) (some rest) = some (i ∷ rest)
cons_variable (some i) none = none
cons_variable none rest = none

unfoldable pub get_variable_set_from_vocabulary : BiMap → Vocabulary → Option (List ℕ)
get_variable_set_from_vocabulary bimap [] = some []
get_variable_set_from_vocabulary bimap (k ∷ voc) =
    cons_variable (get_ppl_dimension_type_from_dimension_key bimap k)
      (get_variable_set_from_vocabulary bimap voc)

-- The loop of `Havoc`, which leaves keys out that are not in the vocabulary.
unfoldable pub havoc_variables : BiMap → Vocabulary → Vocabulary → Option (List ℕ)
havoc_variables bimap this_voc [] = some []
havoc_variables bimap this_voc (k ∷ v) =
    let rest = havoc_variables bimap this_voc v in
    if contains k this_voc
    then cons_variable (get_ppl_dimension_type_from_dimension_key bimap k) rest
    else rest

-- The loop of `ReplaceVersions` that fills `new_voc`.
unfoldable pub renamed_voc : VersionMap → Vocabulary → Vocabulary → Vocabulary
renamed_voc map [] new_voc = new_voc
renamed_voc map (k ∷ v) new_voc = renamed_voc map v (insert (replace_versions k map) new_voc)

module _ (ppl : Ppl) (spaces : Spaces ppl) where
  -- `AddVocabulary`.
  unfoldable pub add_vocabulary : Vocabulary → Av ppl → Cache → Option (Av ppl × Cache)
  add_vocabulary v a cache =
      let union_voc = union_vocabularies a.voc v in
      let added_voc = subtract_vocabularies v a.voc in
      let old_poly_space_dims = ppl.pps_dimension a.pp in
      let embedded = spaces.add_space_dimensions_and_embed (length added_voc) a.pp in
      let bimap_union = get_vocabulary_index_map union_voc cache in
      let bimap_added_voc = get_vocabulary_index_map added_voc bimap_union.1 in
      if voc_eq union_voc a.voc
      then some (a, cache)
      else elim (permutation_of (moved_from a.key_index_bimap bimap_added_voc.0 old_poly_space_dims)
          (get_ppl_dimension_type_from_dimension_key bimap_union.0) union_voc) [
            | none ↦ none
            | some permutation ↦
                let res : Av ppl = record {
                  voc = union_voc;
                  pp = spaces.map_space_dimensions permutation embedded;
                  key_index_bimap = bimap_union.0;
                  equalities_only = a.equalities_only;
                } in
                some (res, bimap_added_voc.1)
          ]

  -- `ReplaceVersions`.
  unfoldable pub replace_versions_av : VersionMap → Av ppl → Cache → Option (Av ppl × Cache)
  replace_versions_av map a cache =
      let new_voc = renamed_voc map a.voc [] in
      let new_key_index_bimap = get_vocabulary_index_map new_voc cache in
      elim (permutation_of (get_ppl_dimension_type_from_dimension_key a.key_index_bimap)
        (λ k.
          get_ppl_dimension_type_from_dimension_key new_key_index_bimap.0 (replace_versions k map))
        a.voc) [
          | none ↦ none
          | some permutation ↦
              let res : Av ppl = record {
                voc = new_voc;
                pp = spaces.map_space_dimensions permutation a.pp;
                key_index_bimap = new_key_index_bimap.0;
                equalities_only = a.equalities_only;
              } in
              some (res, new_key_index_bimap.1)
        ]

  -- `Project`.
  unfoldable pub project : Vocabulary → Av ppl → Cache → Option (Av ppl × Cache)
  project v a cache =
      let uni = union_vocabularies a.voc v in
      let inters = intersect_vocabularies v a.voc in
      let key_index_bimap_inter = get_vocabulary_index_map inters cache in
      if voc_eq v uni
      then some (a, cache)
      else elim (get_variable_set_from_vocabulary a.key_index_bimap
          (subtract_vocabularies a.voc v)) [
            | none ↦ none
            | some proj_out_vars ↦
                let res : Av ppl = record {
                  voc = inters;
                  pp = spaces.remove_space_dimensions proj_out_vars a.pp;
                  key_index_bimap = key_index_bimap_inter.0;
                  equalities_only = a.equalities_only;
                } in
                some (res, key_index_bimap_inter.1)
          ]

  -- `Havoc`.
  unfoldable pub havoc : Vocabulary → Av ppl → Option (Av ppl)
  havoc v a = elim (havoc_variables a.key_index_bimap a.voc v) [
    | none ↦ none
    | some vars ↦ some (record a { pp = spaces.unconstrain_all vars a.pp })
  ]
