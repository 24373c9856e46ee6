-- ===== src/Wrapped/Meaning.antt =====
-- What a sound domain's operations keep, as sets of steps: a step gives every dimension a value.
use sound_bit_precise_domain.Prelude.{◌≡◌, true, List, [], ◌∷◌}
use sound_bit_precise_domain.Prelude.Int.{ℤ, ◌+ℤ◌, ◌*ℤ◌, ◌≤ℤ◌}
use sound_bit_precise_domain.Dimension.Key.{DimensionKey}
use sound_bit_precise_domain.Dimension.Vocabulary.{Vocabulary}
use sound_bit_precise_domain.Wrapped.Domain.{Domain, Constraint, OpType, eq, ge, le}

abbrev pub State : Type 0
State = DimensionKey → ℤ

abbrev pub sum_of : List (DimensionKey × ℤ) → ℤ → State → ℤ
sum_of [] c p = c
sum_of ((k, a) ∷ l) c p = a *ℤ p k +ℤ sum_of l c p

abbrev pub Compares : OpType → ℤ → ℤ → Type 0
Compares eq a b = a ≡ b
Compares ge a b = b ≤ℤ a
Compares le a b = a ≤ℤ b

abbrev pub Satisfies : Constraint → State → Type 0
Satisfies c p = Compares c.op (sum_of c.lhs.0 c.lhs.1 p) (sum_of c.rhs.0 c.rhs.1 p)

pub record IsSoundDomain (d : Domain) : Type 1 where
  pub Has : d.Av → State → Type 0
  pub top_has : (a : d.Av) (p : State) → Has (d.top a) p
  pub bottom_lacks : (a : d.Av) (p : State) → d.is_bottom a ≡ true → Has a p → ⊥
  pub overapproximates_has :
      (a b : d.Av) (p : State) → d.overapproximates a b ≡ true → Has b p → Has a p
  pub join_left : (a b : d.Av) (p : State) → Has a p → Has (d.join a b) p
  pub join_right : (a b : d.Av) (p : State) → Has b p → Has (d.join a b) p
  pub widen_left : (a b : d.Av) (p : State) → Has a p → Has (d.widen a b) p
  pub widen_right : (a b : d.Av) (p : State) → Has b p → Has (d.widen a b) p
  pub meet_keeps : (a b : d.Av) (p : State) → Has a p → Has b p → Has (d.meet a b) p
  pub add_equality_keeps :
      (a : d.Av) (v1 v2 : DimensionKey) (p : State)
      → Has a p
      → p v1 ≡ p v2
      → Has (d.add_equality a v1 v2) p
  pub add_constraint_keeps :
      (a : d.Av) (c : Constraint) (p : State)
      → Has a p
      → Satisfies c p
      → Has (d.add_constraint a c) p
  pub reduce_keeps : (a : d.Av) (p : State) → Has a p → Has (d.reduce a) p
  pub project_keeps : (a : d.Av) (v : Vocabulary) (p : State) → Has a p → Has (d.project a v) p
  pub havoc_keeps : (a : d.Av) (v : Vocabulary) (p : State) → Has a p → Has (d.havoc a v) p
  pub add_vocabulary_keeps :
      (a : d.Av) (v : Vocabulary) (p : State) → Has a p → Has (d.add_vocabulary a v) p
