-- ===== src/Dimension/Examples.antt =====
-- Keys and vocabularies of two variables.
use sound_bit_precise_domain.Prelude.{◌≡◌, refl, arith, [], ◌∷◌}
use sound_bit_precise_domain.Value.{thirty_two}
use sound_bit_precise_domain.Container.{IsSorted}
use sound_bit_precise_domain.Container.SortedSet.{insert, insert-IsSorted}
use sound_bit_precise_domain.Dimension.Key.{DimensionKey, key_ord}
use sound_bit_precise_domain.Dimension.Vocabulary.{Vocabulary}
use sound_bit_precise_domain.Dimension.Versions.{
  replace_versions, shift_map, replace_versions_vocabulary, replace_versions-eq-target,
  replace_versions_vocabulary_drops,
}

-- The variable `x` (byte 120) before and after a step.
abbrev pub x_before : DimensionKey
x_before = record { name = 120 ∷ []; ver = 0; bitsize = thirty_two }

abbrev pub x_after : DimensionKey
x_after = record { name = 120 ∷ []; ver = 1; bitsize = thirty_two }

abbrev before_only : Vocabulary
before_only = insert x_before []

abbrev both : Vocabulary
both = insert x_before (insert x_after [])

before_only-IsSorted : IsSorted before_only
before_only-IsSorted = insert-IsSorted x_before [] tt

both-IsSorted : IsSorted both
both-IsSorted = insert-IsSorted x_before (insert x_after []) (insert-IsSorted x_after [] tt)

-- The key at version 0 becomes the one at version 1, although the map sends 1 on to 2.
replace_versions-eq-target_example : replace_versions x_before shift_map ≡ x_after
replace_versions-eq-target_example = replace_versions-eq-target x_before shift_map

replace_versions_vocabulary_drops_example :
    replace_versions_vocabulary (x_before ∷ []) shift_map ≡ []
replace_versions_vocabulary_drops_example =
    replace_versions_vocabulary_drops (x_before ∷ []) 0 1 ((1, 2) ∷ []) (refl, tt)
      (λ e. ground arith)
