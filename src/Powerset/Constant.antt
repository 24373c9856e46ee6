-- ===== src/Powerset/Constant.antt =====
-- src/AbstractDomain/PointsetPowerset/pointset_powerset_av_impl.hpp: `IsConstant`, which reads the
-- constraints of the one set of a powerset over one dimension.
use sound_bit_precise_domain.Prelude.{
  ℕ, ◌+◌, ◌≡◌, ◌↔◌, refl, sym, ap, subst, Bool, false, List, [], ◌∷◌, Option, none, some, Result,
  err, ok, ◌>>=◌, assertion, arith, ◌==◌, if◌then◌else◌,
}
use sound_bit_precise_domain.Prelude.Int.{
  ℤ, pos, negsuc, ◌+ℤ◌, ◌-ℤ◌, ◌*ℤ◌, ◌≤ℤ◌, pos_part, neg_part, +ℤ_parts, -ℤ_parts, eq_of_parts,
}
use sound_bit_precise_domain.Container.{eqb_refl}
use sound_bit_precise_domain.Dimension.Key.{DimensionKey, key_ord}
use sound_bit_precise_domain.Powerset.Ppl.{Ppl}
use sound_bit_precise_domain.Powerset.Indices.{
  BiMap, index_map_from, get_ppl_dimension_type_from_dimension_key,
}
use sound_bit_precise_domain.Powerset.Dimensions.{Av}
use sound_bit_precise_domain.Powerset.Wrapping.{asserted}
use sound_bit_precise_domain.WrappedInt.Arithmetic.{one_times}

-- A constraint of the Parma Polyhedra Library: a sum of the dimensions with coefficients and a
-- constant, the inhomogeneous term, that is zero or at least zero.
pub data Kind : Type 0 where
  equality nonstrict_inequality : Kind

pub record LinearConstraint : Type 0 where
  pub kind : Kind
  pub coefficient : ℕ → ℤ
  pub inhomogeneous_term : ℤ

-- The values of dimension 0 that satisfy a constraint on it alone.
abbrev pub Compared : Kind → ℤ → ℤ → Type 0
Compared equality v z = z ≡ v
Compared nonstrict_inequality v z = v ≤ℤ z

abbrev pub SatisfiedBy : LinearConstraint → ℤ → Type 0
SatisfiedBy c x = Compared c.kind (pos 0) (c.coefficient 0 *ℤ x +ℤ c.inhomogeneous_term)

-- `constraints()` of a set.
pub record Systems (ppl : Ppl) : Type 0 where
  pub constraints : ppl.Pset → List LinearConstraint

unfoldable pub is_one : ℤ → Bool
is_one (pos n) = n == 1
is_one (negsuc n) = false

-- The loop over the constraints; `val` is the parameter that the result is written to.
unfoldable pub constant_from :
    BiMap
    → DimensionKey
    → (num_constraints : ℕ) → Option ℤ
    → List LinearConstraint
    → Result (Option ℤ)
constant_from bimap k num_constraints val [] = ok (if num_constraints == 1 then val else none)
constant_from bimap k num_constraints val (c ∷ cs) =
    asserted (get_ppl_dimension_type_from_dimension_key bimap k) >>= λ v_i.
    let rest =
      constant_from bimap k (num_constraints + 1) (some (pos 0 -ℤ c.inhomogeneous_term)) cs in
    if is_one (c.coefficient v_i) then rest else ok none

module _ (ppl : Ppl) (systems : Systems ppl) where
  -- Of a vocabulary of one key. Nothing is the result `false`.
  unfoldable pub constant_of_sets : BiMap → DimensionKey → List ppl.Pset → Result (Option ℤ)
  constant_of_sets bimap k [] = ok none
  constant_of_sets bimap k (s ∷ []) = constant_from bimap k 0 none (systems.constraints s)
  constant_of_sets bimap k (s ∷ r ∷ l) = ok none

  unfoldable pub is_constant_av : Av ppl → Result (Option ℤ)
  is_constant_av a = elim a.voc [
    | [] ↦ err assertion
    | k ∷ rest ↦ elim rest [
      | [] ↦ constant_of_sets a.key_index_bimap k (ppl.disjuncts a.pp)
      | j ∷ more ↦ err assertion
    ]
  ]

one_parts : (x b : ℤ) → pos 1 *ℤ x +ℤ b ≡ x +ℤ b
one_parts x b = ap (λ z. z +ℤ b) (one_times x)

satisfied_at_one :
    (kind : Kind) (x b : ℤ) → Compared kind (pos 0) (x +ℤ b) ↔ Compared kind (pos 0 -ℤ b) x
satisfied_at_one equality x b = (
  (λ h.
      eq_of_parts _ _
        (omega (arith, +ℤ_parts x b, -ℤ_parts (pos 0) b, ap pos_part h, ap neg_part h))),
  λ h.
      eq_of_parts _ _
        (omega (arith, +ℤ_parts x b, -ℤ_parts (pos 0) b, ap pos_part h, ap neg_part h)),
)
satisfied_at_one nonstrict_inequality x b = (
  (λ h. omega (arith, +ℤ_parts x b, -ℤ_parts (pos 0) b, h)),
  λ h. omega (arith, +ℤ_parts x b, -ℤ_parts (pos 0) b, h),
)

module _ (ppl : Ppl) (systems : Systems ppl) where
  -- For a value over one dimension with one set and one constraint, whose coefficient is 1,
  -- `IsConstant` gives a constant v, be the constraint an equality or not. The values that satisfy
  -- the constraint are v alone for an equality, but all those from v on for an inequality, of
  -- which v is then no constant.
  pub is_constant_takes_bounds :
      (a : Av ppl) (k : DimensionKey) (s : ppl.Pset) (c : LinearConstraint)
      → a.voc ≡ k ∷ []
      → a.key_index_bimap ≡ index_map_from 0 (k ∷ [])
      → ppl.disjuncts a.pp ≡ s ∷ []
      → systems.constraints s ≡ c ∷ []
      → c.coefficient 0 ≡ pos 1
      → (v : ℤ) × (is_constant_av ppl systems a ≡ ok (some v))
        × ((x : ℤ) → SatisfiedBy c x ↔ Compared c.kind v x)
  unfolding is_constant_av constant_of_sets constant_from asserted is_one index_map_from
      get_ppl_dimension_type_from_dimension_key
  is_constant_takes_bounds a k s c one_key indexed one_set one_constraint unit = (
    pos 0 -ℤ c.inhomogeneous_term,
    rw (one_key, indexed, one_set, one_constraint, eqb_refl k, unit) refl,
    λ x.
        subst
          (λ u.
            Compared c.kind (pos 0) (u *ℤ x +ℤ c.inhomogeneous_term)
            ↔ Compared c.kind (pos 0 -ℤ c.inhomogeneous_term) x)
          (sym unit)
          (subst
            (λ z. Compared c.kind (pos 0) z ↔ Compared c.kind (pos 0 -ℤ c.inhomogeneous_term) x)
            (sym (one_parts x c.inhomogeneous_term))
            (satisfied_at_one c.kind x c.inhomogeneous_term)),
  )
