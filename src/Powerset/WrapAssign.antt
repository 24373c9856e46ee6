-- ===== src/Powerset/WrapAssign.antt =====
-- src/AbstractDomain/PointsetPowerset/pointset_powerset_wrap_assign.h: wrapping the variables of
-- a set, with the constraint system `cs_p` null and `wrap_individually` true, as its one caller
-- calls it.
use Prim.Native.Nat.{max}
use sound_bit_precise_domain.Prelude.{
  ℕ, zero, suc, ◌+◌, ◌-◌, ◌^◌, Bool, false, ◌&&◌, List, [], ◌∷◌, ◌++◌, none, some, Result, ok, ◌>>◌,
  guard, invalid_argument, leb, ◌==◌, if◌then◌else◌,
}
use sound_bit_precise_domain.Prelude.Int.{ℤ, pos, negsuc, sub_ℕ, ◌+ℤ◌, ◌-ℤ◌, leb_ℤ}
use sound_bit_precise_domain.Prelude.Floor.{floor_div, scale}
use sound_bit_precise_domain.Powerset.Ppl.{Ppl, Bound, at_least, at_most}

pub data Representation : Type 0 where
  unsigned signed_2_complement : Representation

pub data Overflow : Type 0 where
  overflow_wraps overflow_undefined overflow_impossible : Overflow

-- `min_value` and `max_value`.
unfoldable pub min_value : Representation → ℕ → ℤ
min_value unsigned w = pos 0
min_value signed_2_complement w = sub_ℕ 0 (2 ^ (w - 1))

unfoldable pub max_value : Representation → ℕ → ℤ
max_value unsigned w = pos (2 ^ w - 1)
max_value signed_2_complement w = pos (2 ^ (w - 1) - 1)

abbrev pub is_zero : ℤ → Bool
is_zero (pos n) = n == 0
is_zero (negsuc n) = false

-- `vars.space_dimension()`.
unfoldable pub vars_dimension : List ℕ → ℕ
vars_dimension [] = 0
vars_dimension (x ∷ vars) = max (x + 1) (vars_dimension vars)

-- What the loop does with one set: give the variable its full range, keep the set and add
-- constraints to the bounds, or split the set into `n` quadrants from `first` on.
pub data Step : Type 0 where
  full : Step
  keep : List Bound → Step
  split : (first : ℤ) (n : ℕ) → Step

module _ (ppl : Ppl) (w : ℕ) (r : Representation) (o : Overflow) (complexity_threshold : ℕ) where
  abbrev pub full_range : ℕ → List Bound
  full_range x = at_least x (min_value r w) ∷ at_most x (max_value r w) ∷ []

  -- The quadrant of a bound `n / d`, rounded down.
  unfoldable pub quadrant : ℤ × ℕ → ℤ
  quadrant b = floor_div (floor_div b.0 b.1 -ℤ min_value r w) (2 ^ w)

  -- `quadrants`, which must fit an `unsigned` below the threshold.
  unfoldable pub split_or_full : ℤ → ℤ → Step
  split_or_full first (negsuc n) = full
  split_or_full first (pos n) = if leb n complexity_threshold then split first n else full

  unfoldable pub decide_step : ℕ → ℤ → ℤ → Step
  decide_step x first last = if is_zero first && is_zero last then keep [] else elim o [
    | overflow_impossible ↦ keep (
        (if leb_ℤ (pos 0) first then [] else at_least x (min_value r w) ∷ [])
        ++ (if leb_ℤ last (pos 0) then [] else at_most x (max_value r w) ∷ []))
    | overflow_undefined ↦ full
    | overflow_wraps ↦ split_or_full first (last -ℤ first +ℤ pos 1)
  ]

  unfoldable pub classify : ℕ → ppl.Pset → Step
  classify x s = elim (ppl.minimize x s) [
    | none ↦ full
    | some l ↦ elim (ppl.maximize x s) [
      | none ↦ full
      | some u ↦ decide_step x (quadrant l) (quadrant u)
    ]
  ]

  unfoldable pub piece : ℕ → ppl.Pset → ℤ → ppl.Pset
  piece x s q =
      let p = if is_zero q then s else ppl.shift x (scale q (2 ^ w)) s in
      ppl.refine (at_most x (max_value r w)) (ppl.refine (at_least x (min_value r w)) p)

  unfoldable pub pieces : ℕ → ppl.Pset → ℤ → ℕ → List ppl.Pset
  pieces x s q zero = []
  pieces x s q (suc n) = piece x s q ∷ pieces x s (q +ℤ pos 1) n

  -- The loop over `ret_list` for one variable. `before` and what is left make up `ret_list`,
  -- which `unconstrain` changes in place; `new` is `new_ret_list`.
  unfoldable pub wrap_list :
      ℕ → List ppl.Pset → List ppl.Pset → List ppl.Pset → List Bound → List ppl.Pset × List Bound
  wrap_list x before [] new bounds = (new, bounds)
  wrap_list x before (s ∷ rest) new bounds = elim (classify x s) [
    | full ↦
        wrap_list x (before ++ ppl.unconstrain x s ∷ []) rest (before ++ ppl.unconstrain x s ∷ rest)
          (bounds ++ full_range x)
    | keep extra ↦ wrap_list x (before ++ s ∷ []) rest (before ++ s ∷ rest) (bounds ++ extra)
    | split q n ↦ wrap_list x (before ++ s ∷ []) rest (new ++ pieces x s q n) bounds
  ]

  unfoldable pub wrap_variables : List ℕ → List ppl.Pset → List Bound → List ppl.Pset × List Bound
  wrap_variables [] l bounds = (l, bounds)
  wrap_variables (x ∷ vars) l bounds =
      let step = wrap_list x [] l [] bounds in wrap_variables vars step.0 step.1

  unfoldable pub add_disjuncts : List ppl.Pset → ppl.Pps → ppl.Pps
  add_disjuncts [] q = q
  add_disjuncts (s ∷ l) q = add_disjuncts l (ppl.add_disjunct s q)

  unfoldable pub wrap_pointset_as_pointset_powerset : ppl.Pset → List ℕ → ppl.Pps
  wrap_pointset_as_pointset_powerset s vars =
      let ret = wrap_variables vars (s ∷ []) [] in
      ppl.refine_all ret.1 (add_disjuncts ret.0 (ppl.empty (ppl.space_dimension s)))

  unfoldable pub wrap_disjuncts : List ppl.Pset → List ℕ → ppl.Pps → ppl.Pps
  wrap_disjuncts [] vars result = result
  wrap_disjuncts (s ∷ l) vars result =
      wrap_disjuncts l vars (ppl.upper_bound result (wrap_pointset_as_pointset_powerset s vars))

  unfoldable pub wrap_assign_pointset_powerset : ppl.Pps → List ℕ → Result ppl.Pps
  wrap_assign_pointset_powerset q [] = ok q
  wrap_assign_pointset_powerset q (x ∷ vars) = do
    guard (leb (vars_dimension (x ∷ vars)) (ppl.pps_dimension q)) invalid_argument
    ok (
        if ppl.is_empty q
        then q
        else wrap_disjuncts (ppl.disjuncts q) (x ∷ vars) (ppl.empty (ppl.pps_dimension q)))
