-- ===== src/WrappedInt/Conjunction/Covers.antt =====
-- The dimensions that the operations on conjunctions keep.
use sound_bit_precise_domain.Prelude.{◌≡◌, Bool, true, ◌||◌, List, [], ◌∷◌, ◌++◌, arith, ◌∙◌}
use sound_bit_precise_domain.Prelude.Int.{ℤ}
use sound_bit_precise_domain.Container.{IsSorted}
use sound_bit_precise_domain.Container.SortedSet.{contains, contains-insert, insert-IsSorted}
use sound_bit_precise_domain.Dimension.Key.{DimensionKey, key_ord}
use sound_bit_precise_domain.Dimension.Vocabulary.{Vocabulary}
use sound_bit_precise_domain.Wrapped.Domain.{Constraint}
use sound_bit_precise_domain.WrappedInt.Sound.{KeepsDimensions}
use sound_bit_precise_domain.WrappedInt.Conjunction.{
  Conjunction, conjunction, dimensions, with_keys, with_dimensions, sorted_union, kept,
  contains-with_keys, contains-with_dimensions, contains-sorted_union,
}

with_keys-IsSorted :
    (l : List (DimensionKey × ℤ)) (v : Vocabulary) → IsSorted v → IsSorted (with_keys l v)
unfolding with_keys
with_keys-IsSorted [] v h = h
with_keys-IsSorted ((k, a) ∷ l) v h = insert-IsSorted k (with_keys l v) (with_keys-IsSorted l v h)

sorted_union-IsSorted : (v w : Vocabulary) → IsSorted w → IsSorted (sorted_union v w)
unfolding sorted_union
sorted_union-IsSorted [] w h = h
sorted_union-IsSorted (k ∷ v) w h =
    insert-IsSorted k (sorted_union v w) (sorted_union-IsSorted v w h)

with_dimensions-IsSorted :
    (cs : List Constraint) (v : Vocabulary) → IsSorted v → IsSorted (with_dimensions cs v)
unfolding with_dimensions
with_dimensions-IsSorted [] v h = h
with_dimensions-IsSorted (c ∷ cs) v h =
    with_keys-IsSorted c.lhs.0 _ (with_keys-IsSorted c.rhs.0 _ (with_dimensions-IsSorted cs v h))

-- More dimensions to begin with and more constraints give more dimensions.
keys_grow :
    (k : DimensionKey) (l : List (DimensionKey × ℤ)) (v w : Vocabulary)
    → (contains k v ≡ true → contains k w ≡ true)
    → contains k (with_keys l v) ≡ true
    → contains k (with_keys l w) ≡ true
unfolding with_keys
keys_grow k [] v w f h = f h
keys_grow k ((j, a) ∷ l) v w f h = ground (
  arith,
  contains-insert k j (with_keys l v),
  contains-insert k j (with_keys l w),
  keys_grow k l v w f,
  h,
)

dimensions_mono :
    (k : DimensionKey) (cs : List Constraint) (v w : Vocabulary)
    → (contains k v ≡ true → contains k w ≡ true)
    → contains k (with_dimensions cs v) ≡ true
    → contains k (with_dimensions cs w) ≡ true
unfolding with_dimensions
dimensions_mono k [] v w f h = f h
dimensions_mono k (c ∷ cs) v w f h =
    keys_grow k c.lhs.0 _ _ (keys_grow k c.rhs.0 _ _ (dimensions_mono k cs v w f)) h

dimensions_append :
    (k : DimensionKey) (cs ds : List Constraint) (v : Vocabulary)
    → contains k (with_dimensions cs v) ≡ true
    → contains k (with_dimensions (cs ++ ds) v) ≡ true
unfolding with_dimensions
dimensions_append k [] ds v h = contains-with_dimensions k ds v h
dimensions_append k (c ∷ cs) ds v h =
    keys_grow k c.lhs.0 _ _ (keys_grow k c.rhs.0 _ _ (dimensions_append k cs ds v)) h

left_grows :
    (k : DimensionKey) (v w : Vocabulary)
    → contains k (sorted_union v []) ≡ true
    → contains k (sorted_union (sorted_union v w) []) ≡ true
unfolding contains
left_grows k v w h = ground (
  arith,
  contains-sorted_union k v [],
  contains-sorted_union k (sorted_union v w) [],
  contains-sorted_union k v w,
  h,
)

again :
    (k : DimensionKey) (v : Vocabulary)
    → contains k v ≡ true
    → contains k (sorted_union v []) ≡ true
again k v h = ground (arith, contains-sorted_union k v [], h)

either_part :
    (k : DimensionKey) (v w : Vocabulary)
    → (contains k v || contains k w) ≡ true
    → contains k (sorted_union v w) ≡ true
either_part k v w h = contains-sorted_union k v w ∙ h

or_left : (a b : Bool) → a ≡ true → (a || b) ≡ true
or_left a b h = ground arith

or_right : (a b : Bool) → b ≡ true → (a || b) ≡ true
or_right a b h = ground arith

pub conjunction-KeepsDimensions : KeepsDimensions conjunction
unfolding with_dimensions
conjunction-KeepsDimensions = record {
  vocabulary-IsSorted = λ (a : Conjunction).
      with_dimensions-IsSorted a.1 (sorted_union a.0 []) (sorted_union-IsSorted a.0 [] tt);
  adds = λ (a : Conjunction) v k h. contains-with_dimensions k a.1 _ (
      again k (sorted_union a.0 v)
        (either_part k a.0 v (or_right (contains k a.0) (contains k v) h)));
  add_vocabulary_covers = λ (a : Conjunction) v k h.
      dimensions_mono k a.1 (sorted_union a.0 []) (sorted_union (sorted_union a.0 v) [])
        (left_grows k a.0 v) h;
  add_constraint_covers =
      λ (a : Conjunction) c k h. contains-with_keys k c.lhs.0 _ (contains-with_keys k c.rhs.0 _ h);
  add_equality_covers = λ a i j k h. h;
  havoc_covers = λ (a : Conjunction) v k h. again k (dimensions a) h;
  project_covers =
      λ (a : Conjunction) v k h e. contains-with_dimensions k (kept v a.1) _ (again k v e);
  wrap_covers = λ (a : Conjunction) m k h. again k (dimensions a) h;
  join_covers = λ (a b : Conjunction) k h. again k (sorted_union (dimensions a) (dimensions b)) (
      either_part k (dimensions a) (dimensions b)
        (or_left (contains k (dimensions a)) (contains k (dimensions b)) h));
  meet_covers = λ (a b : Conjunction) k h.
      dimensions_append k a.1 b.1 (sorted_union (sorted_union a.0 b.0) []) (
        dimensions_mono k a.1 (sorted_union a.0 []) (sorted_union (sorted_union a.0 b.0) [])
          (left_grows k a.0 b.0) h);
}
