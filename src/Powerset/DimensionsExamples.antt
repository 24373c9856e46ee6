-- ===== src/Powerset/DimensionsExamples.antt =====
-- Adding a variable to the vocabulary of intervals of one dimension, and joining two values.
use sound_bit_precise_domain.Prelude.{
  zero, suc, ◌≡◌, refl, subst, sym, false, List, [], ◌∷◌, arith, length, All, inl, inr,
}
use sound_bit_precise_domain.Prelude.Int.{pos}
use sound_bit_precise_domain.Value.{thirty_two}
use sound_bit_precise_domain.Container.SortedSet.{insert, insert-IsSorted}
use sound_bit_precise_domain.Dimension.Key.{DimensionKey, key_ord}
use sound_bit_precise_domain.Dimension.Vocabulary.{Vocabulary}
use sound_bit_precise_domain.Powerset.Ppl.{Point, Any}
use sound_bit_precise_domain.Powerset.Interval.{
  Interval, line, between, HasPoint, intervals, intervals-IsSound,
}
use sound_bit_precise_domain.Powerset.Indices.{Cache, index_map_from}
use sound_bit_precise_domain.Powerset.Dimensions.{Permutation, Spaces, Av}
use sound_bit_precise_domain.Powerset.IntervalMerge.{interval_merging, interval_merging-IsMerging}
use sound_bit_precise_domain.Powerset.JoinSound.{IsUpperBound, raw_join_sound}
use sound_bit_precise_domain.Powerset.DimensionsSound.{
  IsSpaces, IsLaidOut, IsAdded, add_vocabulary_sound,
}

-- A powerset of intervals speaks of dimension 0 only, so a function of dimensions keeps it where
-- it keeps dimension 0, and else leaves every point.
abbrev keeps_zero : Permutation → List Interval → List Interval
keeps_zero [] q = line ∷ []
keeps_zero ((zero, zero) ∷ perm) q = q
keeps_zero ((zero, suc to) ∷ perm) q = keeps_zero perm q
keeps_zero ((suc from, to) ∷ perm) q = keeps_zero perm q

abbrev interval_spaces : Spaces intervals
interval_spaces = record {
  add_space_dimensions_and_embed = λ n q. q;
  remove_space_dimensions = λ vars q. line ∷ [];
  unconstrain_all = λ vars q. line ∷ [];
  map_space_dimensions = keeps_zero;
}

same_at_zero :
    (q : List Interval) (p r : Point)
    → r 0 ≡ p 0
    → Any (λ s. HasPoint s p) q
    → Any (λ s. HasPoint s r) q
same_at_zero [] p r e h = h
same_at_zero (line ∷ q) p r e (inl h) = inl tt
same_at_zero (between lo hi ∷ q) p r e (inl h) =
    inl (subst (λ v. HasPoint (between lo hi) (λ i. v)) (sym e) h)
same_at_zero (s ∷ q) p r e (inr h) = inr (same_at_zero q p r e h)

keeps_zero_lem :
    (perm : Permutation) (q : List Interval) (p r : Point)
    → Any (λ s. HasPoint s p) q
    → All (λ m. r m.1 ≡ p m.0) perm
    → Any (λ s. HasPoint s r) (keeps_zero perm q)
keeps_zero_lem [] q p r h moves = inl tt
keeps_zero_lem ((zero, zero) ∷ perm) q p r h moves = same_at_zero q p r moves.0 h
keeps_zero_lem ((zero, suc to) ∷ perm) q p r h moves = keeps_zero_lem perm q p r h moves.1
keeps_zero_lem ((suc from, to) ∷ perm) q p r h moves = keeps_zero_lem perm q p r h moves.1

interval_spaces-IsSpaces : IsSpaces intervals intervals-IsSound interval_spaces
interval_spaces-IsSpaces = record {
  embed_keeps = λ q n p r h e. same_at_zero q p r (e 0 (omega arith)) h;
  map_keeps = λ q perm p r inj h moves. keeps_zero_lem perm q p r h moves;
}

abbrev x_key : DimensionKey
x_key = record { name = 120 ∷ []; ver = 0; bitsize = thirty_two }

abbrev y_key : DimensionKey
y_key = record { name = 121 ∷ []; ver = 0; bitsize = thirty_two }

abbrev only_x : Vocabulary
only_x = insert x_key []

abbrev only_y : Vocabulary
only_y = insert y_key []

abbrev digit_x : Av intervals
digit_x = record {
  voc = only_x;
  pp = between (pos 0) (pos 9) ∷ [];
  key_index_bimap = index_map_from 0 only_x;
  equalities_only = false;
}

digit_x-IsLaidOut :
    IsLaidOut intervals intervals-IsSound interval_spaces interval_spaces-IsSpaces digit_x
digit_x-IsLaidOut = record { sorted = insert-IsSorted x_key [] tt; indexed = refl }

one_dimension : intervals.pps_dimension digit_x.pp ≡ length only_x
unfolding insert
one_dimension = refl

add_vocabulary_sound_example :
    (res : Av intervals) × (left : Cache) × IsAdded intervals intervals-IsSound interval_spaces
      interval_spaces-IsSpaces only_y digit_x [] res left
add_vocabulary_sound_example =
    add_vocabulary_sound intervals intervals-IsSound interval_spaces interval_spaces-IsSpaces only_y
      digit_x [] digit_x-IsLaidOut one_dimension (insert-IsSorted y_key [] tt) tt

-- A second variable, so that `raw_join` extends both values.
abbrev ten_y : Av intervals
ten_y = record {
  voc = only_y;
  pp = between (pos 10) (pos 10) ∷ [];
  key_index_bimap = index_map_from 0 only_y;
  equalities_only = false;
}

ten_y-IsLaidOut :
    IsLaidOut intervals intervals-IsSound interval_spaces interval_spaces-IsSpaces ten_y
ten_y-IsLaidOut = record { sorted = insert-IsSorted y_key [] tt; indexed = refl }

other_dimension : intervals.pps_dimension ten_y.pp ≡ length only_y
unfolding insert
other_dimension = refl

raw_join_sound_example :
    (res : Av intervals) × (left : Cache) × IsUpperBound intervals intervals-IsSound
      interval_merging interval_merging-IsMerging interval_spaces interval_spaces-IsSpaces 2 digit_x
      ten_y [] res left
raw_join_sound_example =
    raw_join_sound intervals intervals-IsSound interval_merging interval_merging-IsMerging
      interval_spaces interval_spaces-IsSpaces 2 digit_x ten_y [] (omega arith) digit_x-IsLaidOut
      ten_y-IsLaidOut one_dimension other_dimension tt
