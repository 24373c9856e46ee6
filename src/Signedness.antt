-- ===== src/Signedness.antt =====
-- `VocabularySignedness` of src/AbstractDomain/common/BitpreciseWrappedAbstractValue.hpp: the map
-- from the wrapped dimensions to the sign (true for signed) that they are wrapped with, and the
-- static functions that combine two such maps.
pub mod Search
pub mod Lookup
pub mod Union
mod Examples
use sound_bit_precise_domain.Prelude.{
  Bool, true, false, not, ◌&&◌, ◌||◌, List, [], ◌∷◌, if◌then◌else◌, Result, ok, ◌>>=◌, ◌>>◌, guard,
  assertion,
}
use sound_bit_precise_domain.Container.{eqb}
use sound_bit_precise_domain.Container.SortedSet
use sound_bit_precise_domain.Container.SortedSet.{contains}
use sound_bit_precise_domain.Container.SortedMap.{insert}
use sound_bit_precise_domain.Dimension.Key.{DimensionKey, key_ord}
use sound_bit_precise_domain.Dimension.Vocabulary.{Vocabulary}

abbrev pub VocabularySignedness : Type 0
VocabularySignedness = List (DimensionKey × Bool)

abbrev pub same_sign : Bool → Bool → Bool
same_sign true b = b
same_sign false b = not b

-- `==` of `std::pair<const DimensionKey, bool>`.
abbrev pub entry_eq : DimensionKey × Bool → DimensionKey × Bool → Bool
entry_eq e f = eqb e.0 f.0 && same_sign e.1 f.1

-- `std::find(it, end, e)`, as what is left of the range from the entry that it finds.
unfoldable pub find_from : DimensionKey × Bool → VocabularySignedness → VocabularySignedness
find_from e [] = []
find_from e (f ∷ m) = let rest = find_from e m in if entry_eq e f then f ∷ m else rest

-- A loop over a map that inserts the entries that pass a test into the result.
unfoldable pub keep_into :
    (DimensionKey × Bool → Bool)
    → VocabularySignedness
    → VocabularySignedness
    → VocabularySignedness
keep_into test [] result = result
keep_into test ((k, s) ∷ m) result =
    keep_into test m (if test (k, s) then insert k s result else result)

unfoldable pub intersect_with_vocabulary : VocabularySignedness → Vocabulary → VocabularySignedness
intersect_with_vocabulary wrapped_voc v = keep_into (λ e. contains e.0 v) wrapped_voc []

unfoldable pub subtract_vocabulary : VocabularySignedness → Vocabulary → VocabularySignedness
subtract_vocabulary wrapped_voc v = keep_into (λ e. not (contains e.0 v)) wrapped_voc []

-- `it2_f != v2.end()`, and the iterator that the loops go on with: the entry that was found, or
-- the old place.
abbrev pub found : VocabularySignedness → Bool
found [] = false
found (f ∷ rest) = true

abbrev pub moved : VocabularySignedness → VocabularySignedness → VocabularySignedness
moved [] it2 = it2
moved (f ∷ rest) it2 = f ∷ rest

-- The loops over `v1`.
unfoldable pub subtract_from :
    VocabularySignedness → VocabularySignedness → VocabularySignedness → VocabularySignedness
subtract_from [] it2 result = result
subtract_from ((k, s) ∷ m) it2 result =
    let it2_f = find_from (k, s) it2 in
    subtract_from m (moved it2_f it2) (if found it2_f then result else insert k s result)

unfoldable pub subtract_signedness :
    VocabularySignedness → VocabularySignedness → VocabularySignedness
subtract_signedness v1 v2 = subtract_from v1 v2 []

unfoldable pub intersect_from :
    VocabularySignedness → VocabularySignedness → VocabularySignedness → VocabularySignedness
intersect_from [] it2 result = result
intersect_from ((k, s) ∷ m) it2 result =
    let it2_f = find_from (k, s) it2 in
    intersect_from m (moved it2_f it2) (if found it2_f then insert k s result else result)

unfoldable pub intersect_signedness :
    VocabularySignedness → VocabularySignedness → VocabularySignedness
intersect_signedness v1 v2 = intersect_from v1 v2 []

-- The check of the union: the entry is not found, or has the sign of the one that is found.
unfoldable pub union_check : Bool → VocabularySignedness → Bool
union_check s [] = true
union_check s ((j, t) ∷ m) = same_sign s t

unfoldable pub union_first :
    VocabularySignedness → VocabularySignedness → VocabularySignedness → Result VocabularySignedness
union_first [] v2 result = ok result
union_first ((k, s) ∷ m) v2 result = do
  guard (union_check s (find_from (k, s) v2)) assertion
  union_first m v2 (insert k s result)

unfoldable pub union_signedness :
    VocabularySignedness → VocabularySignedness → Result VocabularySignedness
union_signedness v1 v2 = do result ← union_first v1 v2 []; ok (keep_into (λ e. true) v2 result)

unfoldable pub get_vocabulary_from_wrapped_voc : VocabularySignedness → Vocabulary
get_vocabulary_from_wrapped_voc [] = []
get_vocabulary_from_wrapped_voc ((k, s) ∷ m) =
    SortedSet.insert k (get_vocabulary_from_wrapped_voc m)
