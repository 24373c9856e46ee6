-- ===== src/WrappedInt/Set.antt =====
-- Steps with one dimension changed, and the sums of linear expressions in them.
use sound_bit_precise_domain.Prelude.{
  ◌≡◌, refl, ap, ◌∙◌, Bool, true, false, ◌||◌, List, [], ◌∷◌, inl, inr, Bool-cases, none, some,
  arith, if◌then◌else◌,
}
use sound_bit_precise_domain.Prelude.Int.{ℤ, ◌+ℤ◌, ◌*ℤ◌, +ℤ_parts, eq_of_parts}
use sound_bit_precise_domain.Container.{eqb, eq_of_eqb, eqb_refl}
use sound_bit_precise_domain.Container.SortedSet.{contains}
use sound_bit_precise_domain.Container.SortedSet
use sound_bit_precise_domain.Container.SortedMap.{find, insert}
use sound_bit_precise_domain.Dimension.Key.{DimensionKey, key_ord}
use sound_bit_precise_domain.Dimension.Vocabulary.{Vocabulary}
use sound_bit_precise_domain.Signedness.{VocabularySignedness}
use sound_bit_precise_domain.Wrapped.Meaning.{State, sum_of}
use sound_bit_precise_domain.WrappedInt.Record.{singleton}

abbrev pub set : State → DimensionKey → ℤ → State
set p k v j = if eqb j k then v else p j

pub set_same : (p : State) (k : DimensionKey) (v : ℤ) → set p k v k ≡ v
set_same p k v = ap (λ (b : Bool). if b then v else p k) (eqb_refl k)

pub set_other :
    (p : State) (k : DimensionKey) (v : ℤ) (j : DimensionKey) → eqb j k ≡ false → set p k v j ≡ p j
set_other p k v j h = ap (λ (b : Bool). if b then v else p j) h

pub contains-singleton :
    (j k : DimensionKey) → contains j (singleton k) ≡ (eqb j k || contains j [])
unfolding singleton
contains-singleton j k = SortedSet.contains-insert j k []

pub not_in_singleton : (j k : DimensionKey) → contains j (singleton k) ≡ false → eqb j k ≡ false
not_in_singleton j k h = ground (arith, contains-singleton j k)

pub not_in_singleton_of : (j k : DimensionKey) → eqb j k ≡ false → contains j (singleton k) ≡ false
unfolding contains
not_in_singleton_of j k h = ground (arith, contains-singleton j k)

pub in_singleton : (j k : DimensionKey) → contains j (singleton k) ≡ true → eqb j k ≡ true
unfolding contains
in_singleton j k h = ground (arith, contains-singleton j k)

pub has_singleton : (k : DimensionKey) → contains k (singleton k) ≡ true
has_singleton k = ground (arith, contains-singleton k k, eqb_refl k)

-- The value of another dimension does not matter for a step away from it.
pub set_under :
    (p : State) (k t : DimensionKey) (x v : ℤ) (j : DimensionKey)
    → eqb j t ≡ false
    → set (set p t x) k v j ≡ set p k v j
set_under p k t x v j h = ap (λ z. if eqb j k then v else z) (set_other p t x j h)

pub eqb-false_sym : (j k : DimensionKey) → eqb j k ≡ false → eqb k j ≡ false
eqb-false_sym j k h = ground (arith, eq_of_eqb k j, eqb_refl k)

pub apart_of_contains :
    (j k : DimensionKey) (v : Vocabulary)
    → contains j v ≡ true
    → contains k v ≡ false
    → eqb j k ≡ false
apart_of_contains j k v h u = elim (Bool-cases (eqb j k)) [
  | inl e ↦ ground (arith, ap (λ i. contains i v) (eq_of_eqb j k e))
  | inr e ↦ e
]

pub apart_of_find :
    (j k : DimensionKey) (m : VocabularySignedness) (s : Bool)
    → find j m ≡ some s
    → find k m ≡ none
    → eqb j k ≡ false
apart_of_find j k m s h u = elim (Bool-cases (eqb j k)) [
  | inl e ↦ ground (arith, ap (λ i. find i m) (eq_of_eqb j k e))
  | inr e ↦ e
]

add_swap : (x y z : ℤ) → x +ℤ (y +ℤ z) ≡ y +ℤ (x +ℤ z)
add_swap x y z =
    eq_of_parts _ _
      (omega (arith, +ℤ_parts x (y +ℤ z), +ℤ_parts y z, +ℤ_parts y (x +ℤ z), +ℤ_parts x z))

-- A new entry of a linear expression is a new summand.
pub sum_of-insert :
    (k : DimensionKey) (a : ℤ) (m : List (DimensionKey × ℤ)) (c : ℤ) (p : State)
    → find k m ≡ none
    → sum_of (insert k a m) c p ≡ a *ℤ p k +ℤ sum_of m c p
unfolding insert find
sum_of-insert k a [] c p h = refl
sum_of-insert k a ((j, b) ∷ m) c p h = elim (Bool-cases (key_ord.lt k j)) [
  | inl below ↦ rw below refl
  | inr up ↦ elim (Bool-cases (key_ord.lt j k)) [
    | inl above ↦
        rw (up, above)
          (ap (λ z. b *ℤ p j +ℤ z) (sum_of-insert k a m c p (ground (arith, up, above, h)))
            ∙ add_swap (b *ℤ p j) (a *ℤ p k) (sum_of m c p))
    | inr down ↦ ground (arith, up, down, h)
  ]
]
