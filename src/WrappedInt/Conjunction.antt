-- ===== src/WrappedInt/Conjunction.antt =====
-- A domain of conjunctions of linear constraints, which satisfies what the integers rely on: the
-- steps of a value are those that satisfy all of its constraints.
pub mod Covers
pub mod Constants
use sound_bit_precise_domain.Prelude.{
  ◌≡◌, refl, sym, ap, subst, ◌∙◌, Bool, true, false, ◌&&◌, ◌||◌, not, List, [], ◌∷◌, ◌++◌, inl, inr,
  Bool-cases, Option, none, some, arith, if◌then◌else◌,
}
use sound_bit_precise_domain.Prelude.Int.{ℤ, pos, ◌+ℤ◌, ◌*ℤ◌}
use sound_bit_precise_domain.Container.{IsSorted, eqb, eqb_refl, eq_of_eqb}
use sound_bit_precise_domain.Container.SortedSet.{
  contains, insert, union, contains-insert, contains-union, insert-IsSorted, union-IsSorted,
}
use sound_bit_precise_domain.Dimension.Key.{DimensionKey, key_ord}
use sound_bit_precise_domain.Dimension.Vocabulary.{Vocabulary, union_vocabularies}
use sound_bit_precise_domain.Dimension.Versions.{VersionMap}
use sound_bit_precise_domain.Wrapped.Domain.{Domain, Constraint, OpType, eq, ge, le}
use sound_bit_precise_domain.Wrapped.Meaning.{State, sum_of, Compares, Satisfies, IsSoundDomain}
use sound_bit_precise_domain.WrappedInt.Meaning.{IsExact, KeepsConstraints}
use sound_bit_precise_domain.WrappedInt.Sound.{KeepsDimensions}
use sound_bit_precise_domain.WrappedInt.Images.{WrapsOne}

-- Dimensions, and constraints on them and on further dimensions.
abbrev pub Conjunction : Type 0
Conjunction = Vocabulary × List Constraint

unfoldable pub with_keys : List (DimensionKey × ℤ) → Vocabulary → Vocabulary
with_keys [] v = v
with_keys ((k, a) ∷ l) v = insert k (with_keys l v)

unfoldable pub with_dimensions : List Constraint → Vocabulary → Vocabulary
with_dimensions [] v = v
with_dimensions (c ∷ cs) v = with_keys c.lhs.0 (with_keys c.rhs.0 (with_dimensions cs v))

unfoldable pub sorted_union : Vocabulary → Vocabulary → Vocabulary
sorted_union [] w = w
sorted_union (k ∷ v) w = insert k (sorted_union v w)

abbrev pub dimensions : Conjunction → Vocabulary
dimensions a = with_dimensions a.1 (sorted_union a.0 [])

abbrev pub none_of : List Constraint → Bool
none_of [] = true
none_of (c ∷ cs) = false

abbrev pub keys_in : List (DimensionKey × ℤ) → Vocabulary → Bool
keys_in [] v = true
keys_in ((k, a) ∷ l) v = contains k v && keys_in l v

abbrev pub inside : Constraint → Vocabulary → Bool
inside c v = keys_in c.lhs.0 v && keys_in c.rhs.0 v

-- The constraints on no other dimensions.
unfoldable pub kept : Vocabulary → List Constraint → List Constraint
kept v [] = []
kept v (c ∷ cs) = let rest = kept v cs in if inside c v then c ∷ rest else rest

-- Constraints that an operation cannot keep are dropped.
abbrev pub conjunction : Domain
conjunction = record {
  Av = Conjunction;
  get_vocabulary = dimensions;
  top = λ (a : Conjunction). (dimensions a, []);
  bottom = λ (a : Conjunction). (dimensions a, []);
  equal = λ (a b : Conjunction). none_of a.1 && none_of b.1;
  is_bottom = λ (a : Conjunction). false;
  overapproximates = λ (a b : Conjunction). none_of a.1;
  join = λ (a b : Conjunction). (sorted_union (dimensions a) (dimensions b), []);
  join_singleton = λ (a b : Conjunction). (sorted_union (dimensions a) (dimensions b), []);
  meet = λ (a b : Conjunction). (sorted_union a.0 b.0, a.1 ++ b.1);
  widen = λ (a b : Conjunction). (sorted_union (dimensions a) (dimensions b), []);
  add_equality = λ (a : Conjunction) v1 v2. a;
  reduce = λ (a : Conjunction). a;
  project = λ (a : Conjunction) (v : Vocabulary). (v, kept v a.1);
  havoc = λ (a : Conjunction) (v : Vocabulary). (dimensions a, []);
  add_vocabulary = λ (a : Conjunction) (v : Vocabulary). (sorted_union a.0 v, a.1);
  replace_versions = λ (a : Conjunction) (vm : VersionMap). (dimensions a, []);
  wrap = λ (a : Conjunction) m. (dimensions a, []);
  add_constraint = λ (a : Conjunction) (c : Constraint). (a.0, c ∷ a.1);
}

abbrev pub SatisfiesAll : List Constraint → State → Type 0
SatisfiesAll [] p = Unit
SatisfiesAll (c ∷ cs) p = Satisfies c p × SatisfiesAll cs p

pub contains-with_keys :
    (k : DimensionKey) (l : List (DimensionKey × ℤ)) (v : Vocabulary)
    → contains k v ≡ true
    → contains k (with_keys l v) ≡ true
unfolding with_keys
contains-with_keys k [] v h = h
contains-with_keys k ((j, a) ∷ l) v h =
    ground (arith, contains-insert k j (with_keys l v), contains-with_keys k l v h)

pub contains-with_dimensions :
    (k : DimensionKey) (cs : List Constraint) (v : Vocabulary)
    → contains k v ≡ true
    → contains k (with_dimensions cs v) ≡ true
unfolding with_dimensions
contains-with_dimensions k [] v h = h
contains-with_dimensions k (c ∷ cs) v h =
    contains-with_keys k c.lhs.0 _
      (contains-with_keys k c.rhs.0 _ (contains-with_dimensions k cs v h))

pub contains-sorted_union :
    (k : DimensionKey) (v w : Vocabulary)
    → contains k (sorted_union v w) ≡ (contains k v || contains k w)
unfolding sorted_union contains
contains-sorted_union k [] w = refl
contains-sorted_union k (j ∷ v) w =
    ground (arith, contains-insert k j (sorted_union v w), contains-sorted_union k v w)

sum_local :
    (l : List (DimensionKey × ℤ)) (c : ℤ) (p q : State) (v : Vocabulary)
    → ((k : DimensionKey) → contains k (with_keys l v) ≡ true → q k ≡ p k)
    → sum_of l c p ≡ sum_of l c q
unfolding with_keys
sum_local [] c p q v h = refl
sum_local ((k, a) ∷ l) c p q v h =
    ap (λ z. a *ℤ z +ℤ sum_of l c p)
      (sym (h k (ground (arith, contains-insert k k (with_keys l v), eqb_refl k))))
    ∙ ap (λ z. a *ℤ q k +ℤ z)
        (sum_local l c p q v (λ j e. h j (ground (arith, contains-insert j k (with_keys l v), e))))

all_local :
    (cs : List Constraint) (p q : State) (v : Vocabulary)
    → ((k : DimensionKey) → contains k (with_dimensions cs v) ≡ true → q k ≡ p k)
    → SatisfiesAll cs p
    → SatisfiesAll cs q
unfolding with_dimensions
all_local [] p q v h all = tt
all_local (c ∷ cs) p q v h all =
    let rest = with_keys c.rhs.0 (with_dimensions cs v) in
    (
      subst (λ z. Compares c.op z (sum_of c.rhs.0 c.rhs.1 q)) (sum_local c.lhs.0 c.lhs.1 p q rest h)
          (subst (λ z. Compares c.op (sum_of c.lhs.0 c.lhs.1 p) z)
            (sum_local c.rhs.0 c.rhs.1 p q (with_dimensions cs v)
              (λ k e. h k (contains-with_keys k c.lhs.0 rest e)))
            all.0),
      all_local cs p q v
          (λ k e. h k (contains-with_keys k c.lhs.0 rest (contains-with_keys k c.rhs.0 _ e))) all.1,
    )

pub all-append :
    (cs ds : List Constraint) (p : State)
    → SatisfiesAll cs p
    → SatisfiesAll ds p
    → SatisfiesAll (cs ++ ds) p
all-append [] ds p h k = k
all-append (c ∷ cs) ds p h k = (h.0, all-append cs ds p h.1 k)

pub all_of_none : (cs : List Constraint) (p : State) → none_of cs ≡ true → SatisfiesAll cs p
all_of_none [] p h = tt
all_of_none (c ∷ cs) p h = ground arith

pub never : false ≡ true → ⊥
never e = ground arith

pub both_true : (a b : Bool) → (a && b) ≡ true → a ≡ true
both_true a b h = ground arith

pub second_true : (a b : Bool) → (a && b) ≡ true → b ≡ true
second_true a b h = ground arith

pub all-kept :
    (v : Vocabulary) (cs : List Constraint) (p : State)
    → SatisfiesAll cs p
    → SatisfiesAll (kept v cs) p
unfolding kept
all-kept v [] p h = tt
all-kept v (c ∷ cs) p h = elim (Bool-cases (inside c v)) [
  | inl e ↦ rw e (h.0, all-kept v cs p h.1)
  | inr e ↦ rw e (all-kept v cs p h.1)
]

abbrev pub conjunction-IsSoundDomain : IsSoundDomain conjunction
conjunction-IsSoundDomain = record {
  Has = λ (a : Conjunction) p. SatisfiesAll a.1 p;
  top_has = λ a p. tt;
  bottom_lacks = λ (a : Conjunction) p e h. never e;
  overapproximates_has = λ (a b : Conjunction) p e h. all_of_none a.1 p e;
  join_left = λ a b p h. tt;
  join_right = λ a b p h. tt;
  widen_left = λ a b p h. tt;
  widen_right = λ a b p h. tt;
  meet_keeps = λ (a b : Conjunction) p h k. all-append a.1 b.1 p h k;
  add_equality_keeps = λ a v1 v2 p h e. h;
  add_constraint_keeps = λ a c p h k. (k, h);
  reduce_keeps = λ a p h. h;
  project_keeps = λ (a : Conjunction) v p h. all-kept v a.1 p h;
  havoc_keeps = λ a v p h. tt;
  add_vocabulary_keeps = λ a v p h. h;
}

only_inside :
    (k : DimensionKey) (l : List (DimensionKey × ℤ)) (v w : Vocabulary)
    → keys_in l v ≡ true
    → (contains k w ≡ true → contains k v ≡ true)
    → contains k (with_keys l w) ≡ true
    → contains k v ≡ true
unfolding with_keys
only_inside k [] v w u f h = f h
only_inside k ((j, a) ∷ l) v w u f h = elim (Bool-cases (eqb k j)) [
  | inl e ↦
      subst (λ i. contains i v ≡ true) (sym (eq_of_eqb k j e))
        (both_true (contains j v) (keys_in l v) u)
  | inr e ↦
      only_inside k l v w (second_true (contains j v) (keys_in l v) u) f
        (ground (arith, contains-insert k j (with_keys l w), e, h))
]

kept_inside :
    (k : DimensionKey) (v w : Vocabulary) (cs : List Constraint)
    → (contains k w ≡ true → contains k v ≡ true)
    → contains k (with_dimensions (kept v cs) w) ≡ true
    → contains k v ≡ true
unfolding with_dimensions kept
kept_inside k v w [] f h = f h
kept_inside k v w (c ∷ cs) f h = elim (Bool-cases (inside c v)) [
  | inl e ↦
      only_inside k c.lhs.0 v _ (both_true (keys_in c.lhs.0 v) (keys_in c.rhs.0 v) e)
        (only_inside k c.rhs.0 v _ (second_true (keys_in c.lhs.0 v) (keys_in c.rhs.0 v) e)
          (kept_inside k v w cs f))
        (rw e at h)
  | inr e ↦ kept_inside k v w cs f (rw e at h)
]

project_keys :
    (k : DimensionKey) (v : Vocabulary) (cs : List Constraint)
    → contains k (dimensions (v, kept v cs)) ≡ true
    → contains k v ≡ true
unfolding contains
project_keys k v cs e =
    kept_inside k v (sorted_union v []) cs (λ h. ground (arith, contains-sorted_union k v [], h)) e

pub conjunction-IsExact : IsExact conjunction conjunction-IsSoundDomain
conjunction-IsExact = record {
  local = λ (a : Conjunction) p q e h. all_local a.1 p q (sorted_union a.0 []) e h;
  havoc_frees = λ a v p q e h. tt;
  project_only = λ (a : Conjunction) v k e. project_keys k v a.1 e;
  equal_has =
      λ (a b : Conjunction) p e h. all_of_none a.1 p (both_true (none_of a.1) (none_of b.1) e);
  at_least_holds = λ a k t p h. (h.1, h.0);
  at_most_holds = λ a k t p h. (h.1, h.0);
  wrap_keeps = λ a m p r h. tt;
}

pub conjunction-KeepsConstraints : KeepsConstraints conjunction conjunction-IsSoundDomain
conjunction-KeepsConstraints = record { constraint_holds = λ a c p h. (h.1, h.0) }

-- Wrapping drops all constraints.
pub conjunction-WrapsOne : WrapsOne conjunction conjunction-IsSoundDomain
conjunction-WrapsOne = record { wrap_has = λ a k t p v more image h. tt }
