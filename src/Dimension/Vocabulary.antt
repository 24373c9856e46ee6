-- ===== src/Dimension/Vocabulary.antt =====
-- `Vocabulary` is `std::set<DimensionKey>`, and the functions of dimension.cpp on it.
use sound_bit_precise_domain.Prelude.{
  ℕ, ◌≡◌, refl, ap, Bool, true, not, ◌&&◌, ◌||◌, List, [], ◌∷◌, arith, ◌==◌, if◌then◌else◌,
}
use sound_bit_precise_domain.Value.{Bitsize, same_size}
use sound_bit_precise_domain.Container.{eqb, eq_of_eqb, IsSorted}
use sound_bit_precise_domain.Container.SortedSet
use sound_bit_precise_domain.Container.SortedSet.{contains, insert}
use sound_bit_precise_domain.Container.SortedSet.Cut
use sound_bit_precise_domain.Dimension.Key.{DimensionKey, key_ord, unversioned_version}

abbrev pub Vocabulary : Type 0
Vocabulary = List DimensionKey

-- Each clears its result and fills it by the algorithm of the standard library.
unfoldable pub union_vocabularies : Vocabulary → Vocabulary → Vocabulary
union_vocabularies first second = SortedSet.union first second

unfoldable pub intersect_vocabularies : Vocabulary → Vocabulary → Vocabulary
intersect_vocabularies first second = SortedSet.intersection first second

unfoldable pub subtract_vocabularies : Vocabulary → Vocabulary → Vocabulary
subtract_vocabularies first second = SortedSet.difference first second

unfoldable pub is_version_in_dimension : DimensionKey → ℕ → Bool
is_version_in_dimension k v = k.ver == v

-- A loop over the set that inserts the keys that pass a test into a new set.
unfoldable pub subset_by : (DimensionKey → Bool) → Vocabulary → Vocabulary
subset_by test [] = []
subset_by test (k ∷ voc) = let rest = subset_by test voc in if test k then insert k rest else rest

unfoldable pub get_vocabulary_subset : Vocabulary → ℕ → Vocabulary
get_vocabulary_subset voc v = subset_by (λ k. is_version_in_dimension k v) voc

unfoldable pub get_unversioned_vocabulary_subset : Vocabulary → Vocabulary
get_unversioned_vocabulary_subset voc = get_vocabulary_subset voc unversioned_version

unfoldable pub get_vocabulary_subset_bitsize : Vocabulary → Bitsize → Vocabulary
get_vocabulary_subset_bitsize voc b = subset_by (λ k. same_size k.bitsize b) voc

-- On ordered vocabularies the three set operations give ordered ones, and decide membership as
-- union, intersection and difference of sets.
pub vocabulary_algebra :
    (k : DimensionKey) (first second : Vocabulary)
    → IsSorted first
    → IsSorted second
    → IsSorted (union_vocabularies first second)
      × IsSorted (intersect_vocabularies first second)
      × IsSorted (subtract_vocabularies first second)
      × (contains k (union_vocabularies first second) ≡ (contains k first || contains k second))
      × (contains k (intersect_vocabularies first second) ≡ (contains k first && contains k second))
      × (contains k (subtract_vocabularies first second)
          ≡ (contains k first && not (contains k second)))
unfolding union_vocabularies intersect_vocabularies subtract_vocabularies
vocabulary_algebra k first second s t = (
  SortedSet.union-IsSorted first second s t,
  Cut.intersection-IsSorted first second s,
  Cut.difference-IsSorted first second s,
  SortedSet.contains-union k first second,
  Cut.contains-intersection k first second s t,
  Cut.contains-difference k first second s t,
)

pub subset_by-IsSorted :
    (test : DimensionKey → Bool) (voc : Vocabulary) → IsSorted (subset_by test voc)
unfolding subset_by
subset_by-IsSorted test [] = tt
subset_by-IsSorted test (k ∷ voc) =
    ground (arith, subset_by-IsSorted test voc, SortedSet.insert-IsSorted k (subset_by test voc))

test_at_equal : (test : DimensionKey → Bool) (k a : DimensionKey) → eqb k a ≡ true → test k ≡ test a
test_at_equal test k a h = ap test (eq_of_eqb k a h)

pub contains-subset_by :
    (test : DimensionKey → Bool) (k : DimensionKey) (voc : Vocabulary)
    → contains k (subset_by test voc) ≡ (contains k voc && test k)
unfolding subset_by contains
contains-subset_by test k [] = refl
contains-subset_by test k (a ∷ voc) = ground (
  arith,
  test_at_equal test k a,
  contains-subset_by test k voc,
  SortedSet.contains-insert k a (subset_by test voc),
)

-- The subset of a version holds exactly the keys of the vocabulary that have the version, the
-- subset of a bit size those that have the bit size, and both are sets again.
pub subsets_exact :
    (k : DimensionKey) (voc : Vocabulary) (v : ℕ) (b : Bitsize)
    → (contains k (get_vocabulary_subset voc v) ≡ (contains k voc && k.ver == v))
      × (contains k (get_vocabulary_subset_bitsize voc b)
          ≡ (contains k voc && same_size k.bitsize b))
      × IsSorted (get_vocabulary_subset voc v)
      × IsSorted (get_vocabulary_subset_bitsize voc b)
unfolding get_vocabulary_subset get_vocabulary_subset_bitsize is_version_in_dimension
subsets_exact k voc v b = (
  contains-subset_by (λ a. a.ver == v) k voc,
  contains-subset_by (λ a. same_size a.bitsize b) k voc,
  subset_by-IsSorted (λ a. a.ver == v) voc,
  subset_by-IsSorted (λ a. same_size a.bitsize b) voc,
)
