-- ===== src/Signedness/Examples.antt =====
-- The maps of two abstract values that disagree on the sign of one dimension.
use sound_bit_precise_domain.Prelude.{◌≡◌, true, false, [], ◌∷◌}
use sound_bit_precise_domain.Value.{thirty_two}
use sound_bit_precise_domain.Container.SortedSet
use sound_bit_precise_domain.Container.SortedMap.{IsMap, find, insert, insert-IsMap}
use sound_bit_precise_domain.Dimension.Key.{DimensionKey, key_ord}
use sound_bit_precise_domain.Dimension.Vocabulary.{Vocabulary}
use sound_bit_precise_domain.Signedness.{
  VocabularySignedness, intersect_signedness, subtract_signedness,
}
use sound_bit_precise_domain.Signedness.Lookup.{agreed, unmatched, signedness_cut_exact}

-- The variables `x` and `y` (bytes 120 and 121).
abbrev x_key : DimensionKey
x_key = record { name = 120 ∷ []; ver = 0; bitsize = thirty_two }

abbrev y_key : DimensionKey
y_key = record { name = 121 ∷ []; ver = 0; bitsize = thirty_two }

abbrev signed_both : VocabularySignedness
signed_both = insert x_key true (insert y_key true [])

abbrev unsigned_x : VocabularySignedness
unsigned_x = insert x_key false []

abbrev only_x : Vocabulary
only_x = SortedSet.insert x_key []

signed_both-IsMap : IsMap signed_both
signed_both-IsMap = insert-IsMap x_key true (insert y_key true []) (insert-IsMap y_key true [] tt)

unsigned_x-IsMap : IsMap unsigned_x
unsigned_x-IsMap = insert-IsMap x_key false [] tt

signedness_cut_exact_example :
    (find x_key (intersect_signedness signed_both unsigned_x)
      ≡ agreed (find x_key signed_both) (find x_key unsigned_x))
    × (find x_key (subtract_signedness signed_both unsigned_x)
        ≡ unmatched (find x_key signed_both) (find x_key unsigned_x))
    × IsMap (intersect_signedness signed_both unsigned_x)
    × IsMap (subtract_signedness signed_both unsigned_x)
signedness_cut_exact_example =
    signedness_cut_exact x_key signed_both unsigned_x signed_both-IsMap unsigned_x-IsMap
