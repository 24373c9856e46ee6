-- ===== src/WrappedInt/Conjunction/Constants.antt =====
-- The constant that a conjunction gives a dimension by an equation.
use sound_bit_precise_domain.Prelude.{
  ℕ, ◌≡◌, sym, ap, ◌∙◌, Bool, true, false, ◌&&◌, ◌==◌, ==_iff, List, [], ◌∷◌, Option, none, some,
  inl, inr, Bool-cases, Option-cases, arith, if◌then◌else◌,
}
use sound_bit_precise_domain.Prelude.Int.{ℤ, pos, negsuc, ◌+ℤ◌, ◌*ℤ◌}
use sound_bit_precise_domain.Container.{eq_of_eqb}
use sound_bit_precise_domain.Container.SortedSet.{contains}
use sound_bit_precise_domain.Container.SortedMap.{first}
use sound_bit_precise_domain.Dimension.Key.{DimensionKey, key_ord}
use sound_bit_precise_domain.Wrapped.Domain.{Constraint, OpType, eq, ge, le}
use sound_bit_precise_domain.Wrapped.Meaning.{State, sum_of, Compares}
use sound_bit_precise_domain.WrappedInt.Setting.{Queries}
use sound_bit_precise_domain.WrappedInt.Record.{singleton}
use sound_bit_precise_domain.WrappedInt.Meaning.{unit_sum}
use sound_bit_precise_domain.WrappedInt.Set.{in_singleton}
use sound_bit_precise_domain.WrappedInt.Conjunction.{
  Conjunction, conjunction, SatisfiesAll, keys_in, inside, kept, both_true, second_true,
}

abbrev is_number : ℕ → ℤ → Bool
is_number m (pos n) = n == m
is_number m (negsuc n) = false

-- The number n of an equation 1 * j + 0 = n.
unfoldable pub read : OpType → List (DimensionKey × ℤ) → ℤ → List (DimensionKey × ℤ) → ℤ → Option ℤ
read ge l a r n = none
read le l a r n = none
read eq [] a r n = none
read eq ((j, c) ∷ []) a [] n = if is_number 1 c && is_number 0 a then some n else none
read eq ((j, c) ∷ []) a (e ∷ r) n = none
read eq ((j, c) ∷ i ∷ l) a r n = none

unfoldable pub constant : List Constraint → Option ℤ
constant [] = none
constant (c ∷ cs) = first (read c.op c.lhs.0 c.lhs.1 c.rhs.0 c.rhs.1) (constant cs)

-- No dimension is reported to depend on another one.
abbrev pub queries : Queries conjunction
queries = record {
  is_constant = λ (a : Conjunction). constant a.1;
  get_dependent_vocabulary = λ (a : Conjunction) k. [];
}

eq_of_number : (m : ℕ) (z : ℤ) → is_number m z ≡ true → z ≡ pos m
eq_of_number m (pos n) h = ap pos ((==_iff n m).0 h)
eq_of_number m (negsuc n) h = ground arith

read_has :
    (k : DimensionKey) (o : OpType) (l r : List (DimensionKey × ℤ)) (a n m : ℤ) (p : State)
    → keys_in l (singleton k) ≡ true
    → Compares o (sum_of l a p) (sum_of r n p)
    → read o l a r n ≡ some m
    → p k ≡ m
unfolding read
read_has k ge l r a n m p i h e = ground arith
read_has k le l r a n m p i h e = ground arith
read_has k eq [] r a n m p i h e = ground arith
read_has k eq ((j, c) ∷ []) [] a n m p i h e = elim (Bool-cases (is_number 1 c && is_number 0 a)) [
  | inl one ↦
      let same = eq_of_eqb j k (in_singleton j k (both_true (contains j (singleton k)) true i)) in
      let c_one = eq_of_number 1 c (both_true (is_number 1 c) (is_number 0 a) one) in
      let a_zero = eq_of_number 0 a (second_true (is_number 1 c) (is_number 0 a) one) in
      ap p (sym same)
      ∙ sym (unit_sum (p j))
      ∙ ap (λ z. z *ℤ p j +ℤ pos 0) (sym c_one)
      ∙ ap (λ z. c *ℤ p j +ℤ z) (sym a_zero)
      ∙ h
      ∙ ground (arith, one, e)
  | inr other ↦ ground (arith, other, e)
]
read_has k eq ((j, c) ∷ []) (d ∷ r) a n m p i h e = ground arith
read_has k eq ((j, c) ∷ b ∷ l) r a n m p i h e = ground arith

constant_has :
    (cs : List Constraint) (k : DimensionKey) (m : ℤ) (p : State)
    → constant (kept (singleton k) cs) ≡ some m
    → SatisfiesAll cs p
    → p k ≡ m
unfolding kept constant
constant_has [] k m p e h = ground arith
constant_has (c ∷ cs) k m p e h = elim (Bool-cases (inside c (singleton k))) [
  | inr out ↦ constant_has cs k m p (rw out at e) h.1
  | inl in_it ↦ elim (Option-cases (read c.op c.lhs.0 c.lhs.1 c.rhs.0 c.rhs.1)) [
    | inl f ↦ constant_has cs k m p (rw (in_it, f) at e) h.1
    | inr (n, f) ↦
        read_has k c.op c.lhs.0 c.rhs.0 c.lhs.1 c.rhs.1 n p
          (both_true (keys_in c.lhs.0 (singleton k)) (keys_in c.rhs.0 (singleton k)) in_it) h.0 f
        ∙ ground (arith, (rw (in_it, f) at e))
  ]
]

pub queries_has :
    (a : Conjunction) (k : DimensionKey) (m : ℤ) (p : State)
    → constant (conjunction.project a (singleton k)).1 ≡ some m
    → SatisfiesAll a.1 p
    → p k ≡ m
queries_has a k m p e h = constant_has a.1 k m p e h
