-- ===== src/Wrapped/Domain.antt =====
-- src/AbstractDomain/common/AbstractValue.hpp and AbstractValue.cpp: the interface of an abstract
-- domain. An in-place operation is a function from the old to the new value.
use sound_bit_precise_domain.Prelude.{ℕ, Bool, not, List, [], ◌∷◌}
use sound_bit_precise_domain.Prelude.Int.{ℤ, pos}
use sound_bit_precise_domain.Container.SortedSet.{contains, insert}
use sound_bit_precise_domain.Dimension.Key.{DimensionKey, key_ord}
use sound_bit_precise_domain.Dimension.Vocabulary.{Vocabulary, subset_by}
use sound_bit_precise_domain.Dimension.Versions.{VersionMap, replace_version_vocabulary}
use sound_bit_precise_domain.Signedness.{VocabularySignedness}

-- The sum of the entries of the map, and a constant.
abbrev pub Affexp : Type 0
Affexp = List (DimensionKey × ℤ) × ℤ

pub data OpType : Type 0 where
  eq ge le : OpType

pub record Constraint : Type 0 where
  pub lhs : Affexp
  pub rhs : Affexp
  pub op : OpType

pub record Domain : Type 1 where
  pub Av : Type 0
  pub get_vocabulary : Av → Vocabulary
  pub top : Av → Av
  pub bottom : Av → Av
  pub equal : Av → Av → Bool
  pub is_bottom : Av → Bool
  pub overapproximates : Av → Av → Bool
  pub join : Av → Av → Av
  pub join_singleton : Av → Av → Av
  pub meet : Av → Av → Av
  pub widen : Av → Av → Av
  pub add_equality : Av → DimensionKey → DimensionKey → Av
  pub reduce : Av → Av
  pub project : Av → Vocabulary → Av
  pub havoc : Av → Vocabulary → Av
  pub add_vocabulary : Av → Vocabulary → Av
  pub replace_versions : Av → VersionMap → Av
  pub wrap : Av → VocabularySignedness → Av
  pub add_constraint : Av → Constraint → Av

-- The operations that the base class builds from these.
module _ (d : Domain) where
  unfoldable pub not_equal : d.Av → d.Av → Bool
  not_equal a b = not (d.equal a b)

  unfoldable pub add_dimension : d.Av → DimensionKey → d.Av
  add_dimension a k = d.add_vocabulary a (insert k [])

  unfoldable pub remove_vocabulary : d.Av → Vocabulary → d.Av
  remove_vocabulary a voc = d.project a (subset_by (λ k. not (contains k voc)) (d.get_vocabulary a))

  unfoldable pub remove_dimension : d.Av → DimensionKey → d.Av
  remove_dimension a k = remove_vocabulary a (insert k [])

  unfoldable pub add_version : d.Av → ℕ → ℕ → d.Av
  add_version a old_ver new_ver =
      d.add_vocabulary a (replace_version_vocabulary (d.get_vocabulary a) old_ver new_ver)

  unfoldable pub replace_version_av : d.Av → ℕ → ℕ → d.Av
  replace_version_av a o n = d.replace_versions a ((o, n) ∷ [])

  unfoldable pub add_constraint_no_rhs : d.Av → Affexp → OpType → d.Av
  add_constraint_no_rhs a lhs op =
      d.add_constraint a (record { lhs = lhs; rhs = ([], pos 0); op = op })
