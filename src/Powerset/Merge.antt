-- ===== src/Powerset/Merge.antt =====
-- src/AbstractDomain/PointsetPowerset/pointset_powerset_av_impl.hpp: `MergeHeuristic`, which joins
-- the sets of a powerset two by two until there are few enough. A `shared_ptr` is an address.
use sound_bit_precise_domain.Prelude.{
  ℕ, zero, suc, ◌+◌, Bool, not, ◌||◌, List, [], ◌∷◌, ◌++◌, Option, none, some, leb, ◌==◌,
  if◌then◌else◌, length,
}
use sound_bit_precise_domain.Powerset.Ppl.{Ppl}
use sound_bit_precise_domain.Powerset.Distance.{Boxes, Distance, dist_func_comp, get_distance}

-- An element of `dist_func`: the addresses of two sets and their distance.
pub record Pair : Type 0 where
  pub first : ℕ
  pub second : ℕ
  pub distance : Distance

-- `std::set::insert` under `DistFuncComp`: an element that compares like one of the set is not
-- inserted. `DistFuncComp` is no order (it is not transitive), for which C++ defines no behaviour;
-- this is the scan from the least element on, one of the places that an insertion may find.
unfoldable pub insert_pair : Pair → List Pair → List Pair
insert_pair e [] = e ∷ []
insert_pair e (x ∷ dist_func) =
    let rest = insert_pair e dist_func in
    if dist_func_comp e.distance x.distance
    then e ∷ x ∷ dist_func
    else if dist_func_comp x.distance e.distance
    then x ∷ rest
    else x ∷ dist_func

-- The element has neither address.
unfoldable pub is_apart : ℕ → ℕ → Pair → Bool
is_apart ps1 ps2 e = not (e.first == ps1 || e.first == ps2 || e.second == ps1 || e.second == ps2)

unfoldable pub keep_apart : ℕ → ℕ → List Pair → List Pair
keep_apart ps1 ps2 [] = []
keep_apart ps1 ps2 (e ∷ dist_func) =
    let rest = keep_apart ps1 ps2 dist_func in if is_apart ps1 ps2 e then e ∷ rest else rest

-- What the source calls of a set, other than what wrapping does: its `upper_bound_assign`, and
-- `omega_reduce` and `clear` of a powerset.
pub record Merging (ppl : Ppl) : Type 1 where
  pub boxes : Boxes ppl
  pub upper_bound_assign : ppl.Pset → ppl.Pset → ppl.Pset
  pub omega_reduce : ppl.Pps → ppl.Pps
  pub clear : ppl.Pps → ppl.Pps

module _ (ppl : Ppl) (merging : Merging ppl) where
  -- `pp_copy`: addresses with what they point to.
  abbrev pub Cells : Type 0
  Cells = List (ℕ × ppl.Pset)

  -- `std::find` for an address and `erase` of it. Nothing is a failed assertion.
  unfoldable pub take_out : ℕ → Cells → Option (ppl.Pset × Cells)
  take_out ps [] = none
  take_out ps (c ∷ cells) =
      let rest = take_out ps cells in
      if c.0 == ps
      then some (c.1, cells)
      else elim rest [ none ↦ none | some r ↦ some (r.0, c ∷ r.1) ]

  -- The pairs of each of the sets and one more, from the first on.
  unfoldable pub insert_with : Cells → ℕ × ppl.Pset → List Pair → List Pair
  insert_with [] last dist_func = dist_func
  insert_with (c ∷ cells) last dist_func = insert_with cells last (
      insert_pair
        (record {
          first = c.0;
          second = last.0;
          distance = get_distance ppl merging.boxes c.1 last.1;
        })
        dist_func)

  -- The inner of the two loops that fill `dist_func`, and the outer.
  unfoldable pub insert_from : ℕ × ppl.Pset → Cells → List Pair → List Pair
  insert_from it1 [] dist_func = dist_func
  insert_from it1 (it2 ∷ cells) dist_func = insert_from it1 cells (
      insert_pair
        (record {
          first = it1.0;
          second = it2.0;
          distance = get_distance ppl merging.boxes it1.1 it2.1;
        })
        dist_func)

  unfoldable pub insert_pairs : Cells → List Pair → List Pair
  insert_pairs [] dist_func = dist_func
  insert_pairs (it1 ∷ cells) dist_func = insert_pairs cells (insert_from it1 cells dist_func)

  -- Taking two sets out and putting their least upper bound, at the first address, at the end.
  unfoldable pub join_cells : ℕ → ℕ → Cells → List Pair → Option (Cells × List Pair)
  join_cells ps1 ps2 pp_copy dist_func = elim (take_out ps1 pp_copy) [
    | none ↦ none
    | some r1 ↦ elim (take_out ps2 r1.1) [
      | none ↦ none
      | some r2 ↦
          let ub : ℕ × ppl.Pset = (ps1, merging.upper_bound_assign r1.0 r2.0) in
          some (r2.1 ++ ub ∷ [], insert_with r2.1 ub (keep_apart ps1 ps2 dist_func))
    ]
  ]

  -- One turn of the `while`. Nothing where `dist_func` is empty, whose first element it reads, or
  -- an assertion fails.
  unfoldable pub merge_step : Cells → List Pair → Option (Cells × List Pair)
  merge_step pp_copy [] = none
  merge_step pp_copy (e ∷ dist_func) = join_cells e.first e.second pp_copy (e ∷ dist_func)

  -- The `while`, of at most `fuel` turns.
  unfoldable pub merge_loop : (fuel max_disjunctions : ℕ) → Cells → List Pair → Option Cells
  merge_loop zero max_disjunctions pp_copy dist_func =
      if leb (length pp_copy) max_disjunctions then some pp_copy else none
  merge_loop (suc fuel) max_disjunctions pp_copy dist_func =
      if leb (length pp_copy) max_disjunctions
      then some pp_copy
      else elim (merge_step pp_copy dist_func) [
        | none ↦ none
        | some s ↦ merge_loop fuel max_disjunctions s.0 s.1
      ]

  -- New addresses for the disjuncts.
  unfoldable pub allocate : ℕ → List ppl.Pset → Cells
  allocate next [] = []
  allocate next (s ∷ l) = (next, s) ∷ allocate (next + 1) l

  unfoldable pub add_all : Cells → ppl.Pps → ppl.Pps
  add_all [] pp = pp
  add_all (c ∷ cells) pp = add_all cells (ppl.add_disjunct c.1 pp)

  -- `pp_copy` once it is merged: a turn takes one set away, so their number is fuel enough.
  unfoldable pub merged : ℕ → List ppl.Pset → Option Cells
  merged max_disjunctions l =
      let pp_copy = allocate 0 l in
      merge_loop (length pp_copy) max_disjunctions pp_copy (insert_pairs pp_copy [])

  -- The early return compares with 1 for equalities, the loop with the maximum itself.
  unfoldable pub merge_heuristic :
      (max_disjunctions : ℕ) (equalities_only : Bool) → ppl.Pps → Option ppl.Pps
  merge_heuristic max_disjunctions equalities_only pp =
      let reduced = merging.omega_reduce pp in
      let max_disjunctions_temp = if equalities_only then 1 else max_disjunctions in
      if leb (length (ppl.disjuncts reduced)) max_disjunctions_temp
      then some reduced
      else elim (merged max_disjunctions (ppl.disjuncts reduced)) [
        | none ↦ none
        | some pp_copy ↦ some (add_all pp_copy (merging.clear reduced))
      ]
