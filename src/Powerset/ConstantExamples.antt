-- ===== src/Powerset/ConstantExamples.antt =====
-- The constant that a set with the constraint k >= 3 is found to have.
use sound_bit_precise_domain.Prelude.{◌≡◌, ◌↔◌, refl, false, List, [], ◌∷◌, ◌++◌, none, some, ok}
use sound_bit_precise_domain.Prelude.Int.{ℤ, pos, negsuc}
use sound_bit_precise_domain.Value.{thirty_two}
use sound_bit_precise_domain.Dimension.Key.{DimensionKey}
use sound_bit_precise_domain.Powerset.Ppl.{Ppl}
use sound_bit_precise_domain.Powerset.Indices.{index_map_from}
use sound_bit_precise_domain.Powerset.Dimensions.{Av}
use sound_bit_precise_domain.Powerset.Constant.{
  LinearConstraint, nonstrict_inequality, Systems, SatisfiedBy, Compared, is_constant_av,
  is_constant_takes_bounds,
}

-- Sets as the lists of their constraints. An operation that changes a set forgets them all.
abbrev constraint_sets : Ppl
constraint_sets = record {
  Pset = List LinearConstraint;
  space_dimension = λ s. 1;
  minimize = λ x s. none;
  maximize = λ x s. none;
  unconstrain = λ x s. [];
  shift = λ x c s. [];
  refine = λ b s. s;
  Pps = List (List LinearConstraint);
  pps_dimension = λ q. 1;
  empty = λ n. [];
  is_empty = λ q. false;
  disjuncts = λ q. q;
  add_disjunct = λ s q. s ∷ q;
  upper_bound = λ q r. q ++ r;
  refine_all = λ bs q. q;
}

abbrev systems : Systems constraint_sets
systems = record { constraints = λ s. s }

-- k - 3 >= 0.
abbrev from_three : LinearConstraint
from_three = record {
  kind = nonstrict_inequality;
  coefficient = λ x. pos 1;
  inhomogeneous_term = negsuc 2;
}

abbrev n_key : DimensionKey
n_key = record { name = 110 ∷ []; ver = 0; bitsize = thirty_two }

abbrev bounded_n : Av constraint_sets
bounded_n = record {
  voc = n_key ∷ [];
  pp = (from_three ∷ []) ∷ [];
  key_index_bimap = index_map_from 0 (n_key ∷ []);
  equalities_only = false;
}

is_constant_takes_bounds_example :
    (v : ℤ) × (is_constant_av constraint_sets systems bounded_n ≡ ok (some v))
    × ((x : ℤ) → SatisfiedBy from_three x ↔ Compared nonstrict_inequality v x)
is_constant_takes_bounds_example =
    is_constant_takes_bounds constraint_sets systems bounded_n n_key (from_three ∷ []) from_three
      refl refl refl refl refl
