-- ===== src/Powerset/MergeSound.antt =====
-- src/AbstractDomain/PointsetPowerset/pointset_powerset_av_impl.hpp: `MergeHeuristic` ends with few
-- enough sets, reads no empty set of pairs, fails no assertion and loses no point.
use sound_bit_precise_domain.Prelude.{
  ℕ, zero, suc, ◌+◌, ◌≤◌, ◌≡◌, inl, inr, refl, sym, Bool, true, false, List, [], ◌∷◌, ◌++◌, some,
  arith, Bool-cases, if◌then◌else◌, leb, leb→le, length, length-append, All,
}
use sound_bit_precise_domain.Powerset.Ppl.{Ppl, IsSound, Point, Any}
use sound_bit_precise_domain.Powerset.Merge.{
  Pair, Merging, Cells, insert_with, insert_from, insert_pairs, keep_apart, join_cells, merge_step,
  merge_loop, allocate, add_all, merged, merge_heuristic, take_out,
}
use sound_bit_precise_domain.Powerset.MergeCells.{
  At, At-new, Unique, Unique-last, Joins, take_out_lem, Joins-rest, IsCons, insert_pair-All,
  insert_pair-IsCons, keep_apart-All, At-old,
}

-- What the library documents of the operations: a least upper bound has the points of both,
-- leaving redundant sets out loses no point.
pub record IsMerging (ppl : Ppl) (snd : IsSound ppl) (merging : Merging ppl) : Type 0 where
  pub upper_bound_left :
      (a b : ppl.Pset) (p : Point) → snd.Has a p → snd.Has (merging.upper_bound_assign a b) p
  pub upper_bound_right :
      (a b : ppl.Pset) (p : Point) → snd.Has b p → snd.Has (merging.upper_bound_assign a b) p
  pub omega_reduce_keeps :
      (q : ppl.Pps) (p : Point) → snd.HasPps q p → snd.HasPps (merging.omega_reduce q) p

not_few : (n m : ℕ) → leb n m ≡ false → 1 ≤ m → 2 ≤ n
not_few n m h k = ground (arith, h, k)

module _ (ppl : Ppl) (snd : IsSound ppl) (merging : Merging ppl)
    (lawful : IsMerging ppl snd merging) where
  abbrev HasAny : Cells ppl merging → Point → Type 0
  HasAny cells p = Any (λ c. snd.Has c.1 p) cells

  HasAny-last :
      (c : ℕ × ppl.Pset) (cells : Cells ppl merging) (p : Point)
      → snd.Has c.1 p
      → HasAny (cells ++ c ∷ []) p
  HasAny-last c [] p h = inl h
  HasAny-last c (d ∷ cells) p h = inr (HasAny-last c cells p h)

  HasAny-old :
      (c : ℕ × ppl.Pset) (cells : Cells ppl merging) (p : Point)
      → HasAny cells p
      → HasAny (cells ++ c ∷ []) p
  HasAny-old c [] p h = elim h [ ]
  HasAny-old c (d ∷ cells) p (inl h) = inl h
  HasAny-old c (d ∷ cells) p (inr h) = inr (HasAny-old c cells p h)

  insert_with-Joins :
      (big cells : Cells ppl merging) (last : ℕ × ppl.Pset) (l : List Pair)
      → ((b : ℕ) → At ppl merging b cells → At ppl merging b big)
      → (At ppl merging last.0 cells → ⊥)
      → At ppl merging last.0 big
      → All (Joins ppl merging big) l
      → All (Joins ppl merging big) (insert_with ppl merging cells last l)
  unfolding insert_with
  insert_with-Joins big [] last l sub new at h = h
  insert_with-Joins big (c ∷ cells) last l sub new at h =
      insert_with-Joins big cells last _ (λ b k. sub b (inr k)) (λ k. new (inr k)) at
        (insert_pair-All (Joins ppl merging big) _ l (sub c.0 (inl refl), at, λ e. new (inl e)) h)

  insert_with-IsCons :
      (cells : Cells ppl merging) (last : ℕ × ppl.Pset) (l : List Pair)
      → IsCons l
      → IsCons (insert_with ppl merging cells last l)
  unfolding insert_with
  insert_with-IsCons [] last l h = h
  insert_with-IsCons (c ∷ cells) last l h = insert_with-IsCons cells last _ (insert_pair-IsCons _ l)

  insert_from-Joins :
      (big cells : Cells ppl merging) (it1 : ℕ × ppl.Pset) (l : List Pair)
      → ((b : ℕ) → At ppl merging b cells → At ppl merging b big)
      → (At ppl merging it1.0 cells → ⊥)
      → At ppl merging it1.0 big
      → All (Joins ppl merging big) l
      → All (Joins ppl merging big) (insert_from ppl merging it1 cells l)
  unfolding insert_from
  insert_from-Joins big [] it1 l sub new at h = h
  insert_from-Joins big (c ∷ cells) it1 l sub new at h =
      insert_from-Joins big cells it1 _ (λ b k. sub b (inr k)) (λ k. new (inr k)) at
        (insert_pair-All (Joins ppl merging big) _ l
          (at, sub c.0 (inl refl), λ e. new (inl (sym e))) h)

  insert_from-IsCons :
      (it1 : ℕ × ppl.Pset) (cells : Cells ppl merging) (l : List Pair)
      → IsCons l
      → IsCons (insert_from ppl merging it1 cells l)
  unfolding insert_from
  insert_from-IsCons it1 [] l h = h
  insert_from-IsCons it1 (c ∷ cells) l h = insert_from-IsCons it1 cells _ (insert_pair-IsCons _ l)

  insert_pairs-Joins :
      (big cells : Cells ppl merging) (l : List Pair)
      → ((b : ℕ) → At ppl merging b cells → At ppl merging b big)
      → Unique ppl merging cells
      → All (Joins ppl merging big) l
      → All (Joins ppl merging big) (insert_pairs ppl merging cells l)
  unfolding insert_pairs
  insert_pairs-Joins big [] l sub u h = h
  insert_pairs-Joins big (c ∷ cells) l sub u h =
      insert_pairs-Joins big cells _ (λ b k. sub b (inr k)) u.1
        (insert_from-Joins big cells c l (λ b k. sub b (inr k)) u.0 (sub c.0 (inl refl)) h)

  insert_pairs-IsCons :
      (cells : Cells ppl merging) (l : List Pair)
      → IsCons l
      → IsCons (insert_pairs ppl merging cells l)
  unfolding insert_pairs
  insert_pairs-IsCons [] l h = h
  insert_pairs-IsCons (c ∷ cells) l h = insert_pairs-IsCons cells _ (insert_from-IsCons c cells l h)

  -- What holds of `pp_copy` and `dist_func` before each turn.
  record IsReady (cells : Cells ppl merging) (l : List Pair) : Type 0 where
    pub unique : Unique ppl merging cells
    pub joins : All (Joins ppl merging cells) l
    pub some_pair : 2 ≤ length cells → IsCons l

  insert_with-some :
      (cells : Cells ppl merging) (c last : ℕ × ppl.Pset) (l : List Pair)
      → 2 ≤ length (cells ++ c ∷ [])
      → IsCons (insert_with ppl merging cells last l)
  unfolding insert_with
  insert_with-some [] c last l h = let no : ⊥ = omega (arith, h) in elim no [ ]
  insert_with-some (d ∷ cells) c last l h = insert_with-IsCons cells last _ (insert_pair-IsCons _ l)

  abbrev IsStep : Cells ppl merging → Cells ppl merging → List Pair → Type 0
  IsStep cells next l =
      IsReady next l
      × (length cells ≡ suc (length next))
      × ((p : Point) → HasAny cells p → HasAny next p)

  join_cells_eq :
      (a b : ℕ) (cells : Cells ppl merging) (l : List Pair) (s1 s2 : ppl.Pset)
      (r1 r2 : Cells ppl merging)
      → take_out ppl merging a cells ≡ some (s1, r1)
      → take_out ppl merging b r1 ≡ some (s2, r2)
      → join_cells ppl merging a b cells l
        ≡ some (
          r2 ++ (a, merging.upper_bound_assign s1 s2) ∷ [],
          insert_with ppl merging r2 (a, merging.upper_bound_assign s1 s2) (keep_apart a b l),
        )
  unfolding join_cells
  join_cells_eq a b cells l s1 s2 r1 r2 e1 e2 = rw (join_cells, e1, e2) refl

  join_cells_lem :
      (a b : ℕ) (cells : Cells ppl merging) (l : List Pair)
      → Unique ppl merging cells
      → All (Joins ppl merging cells) l
      → At ppl merging a cells
      → At ppl merging b cells
      → (a ≡ b → ⊥)
      → (next : Cells ppl merging) × (m : List Pair) × (join_cells ppl merging a b cells l
          ≡ some (next, m))
        × IsStep cells next m
  join_cells_lem a b cells l u joins at_a at_b apart =
      let r1 = take_out_lem ppl merging a cells at_a in
      let r2 = take_out_lem ppl merging b r1.1 (r1.3.others_stay b at_b apart) in
      let ub : ℕ × ppl.Pset = (a, merging.upper_bound_assign r1.0 r2.0) in
      let a_gone : At ppl merging a r2.1 → ⊥ = λ h. r1.3.gone u (r2.3.none_new a h) in
      let kept =
        keep_apart-All (Joins ppl merging cells) (Joins ppl merging (r2.1 ++ ub ∷ [])) a b
          (Joins-rest ppl merging a b ub.1 r1.0 r2.0 cells r1.1 r2.1 r1.3 r2.3) l joins in
      let len = length-append r2.1 (ub ∷ []) in
      let ready : IsReady (r2.1 ++ ub ∷ []) (insert_with ppl merging r2.1 ub (keep_apart a b l)) =
        record {
          unique =
              Unique-last ppl merging a ub.1 r2.1 (r2.3.stays_unique (r1.3.stays_unique u)) a_gone;
          joins =
              insert_with-Joins (r2.1 ++ ub ∷ []) r2.1 ub _ (λ k h. At-old ppl merging k ub r2.1 h)
                a_gone (At-new ppl merging ub r2.1) kept;
          some_pair = insert_with-some r2.1 ub ub _;
        } in
      (
        r2.1 ++ ub ∷ [],
        insert_with ppl merging r2.1 ub (keep_apart a b l),
        join_cells_eq a b cells l r1.0 r2.0 r1.1 r2.1 r1.2 r2.2,
        (
          ready,
          omega (arith, r1.3.one_less, r2.3.one_less, len),
          λ p h. elim (r1.3.splits (λ s. snd.Has s p) h) [
            | inl one ↦ HasAny-last ub r2.1 p (lawful.upper_bound_left _ _ p one)
            | inr later ↦ elim (r2.3.splits (λ s. snd.Has s p) later) [
              | inl two ↦ HasAny-last ub r2.1 p (lawful.upper_bound_right _ _ p two)
              | inr stays ↦ HasAny-old ub r2.1 p stays
            ]
          ],
        ),
      )

  merge_step_lem :
      (cells : Cells ppl merging) (l : List Pair)
      → IsReady cells l
      → 2 ≤ length cells
      → (next : Cells ppl merging) × (m : List Pair) × (merge_step ppl merging cells l
          ≡ some (next, m))
        × IsStep cells next m
  unfolding merge_step
  merge_step_lem cells [] ready two = elim (ready.some_pair two) [ ]
  merge_step_lem cells (e ∷ l) ready two =
      let j = ready.joins.0 in
      join_cells_lem e.first e.second cells (e ∷ l) ready.unique ready.joins j.0 j.1 j.2

  -- The cells the loop leaves.
  abbrev IsMerged : ℕ → Cells ppl merging → Cells ppl merging → Type 0
  IsMerged max_disjunctions cells res =
      (length res ≤ max_disjunctions) × ((p : Point) → HasAny cells p → HasAny res p)

  merge_loop_lem :
      (fuel max_disjunctions : ℕ) (cells : Cells ppl merging) (l : List Pair)
      → 1 ≤ max_disjunctions
      → length cells ≤ fuel
      → IsReady cells l
      → (res : Cells ppl merging) × (merge_loop ppl merging fuel max_disjunctions cells l
          ≡ some res)
        × IsMerged max_disjunctions cells res
  unfolding merge_loop
  merge_loop_lem zero m cells l pos_m enough ready =
      let few : leb (length cells) m ≡ true = ground (arith, enough, pos_m) in
      (cells, rw (few) refl, (leb→le _ _ few, λ p h. h))
  merge_loop_lem (suc fuel) m cells l pos_m enough ready =
      elim (Bool-cases (leb (length cells) m)) [
        | inl few ↦ (cells, rw (few) refl, (leb→le _ _ few, λ p h. h))
        | inr many ↦
            let step = merge_step_lem cells l ready (not_few _ _ many pos_m) in
            let rest =
              merge_loop_lem fuel m step.0 step.1 pos_m (omega (arith, step.3.1, enough))
                step.3.0 in
            (rest.0, rw (many, step.2) rest.1, (rest.2.0, λ p h. rest.2.1 p (step.3.2 p h)))
      ]

  allocate-At :
      (a next : ℕ) (l : List ppl.Pset) → At ppl merging a (allocate ppl merging next l) → next ≤ a
  unfolding allocate
  allocate-At a next [] h = elim h [ ]
  allocate-At a next (s ∷ l) (inl e) = omega (arith, e)
  allocate-At a next (s ∷ l) (inr h) = omega (arith, allocate-At a (next + 1) l h)

  allocate-Unique :
      (next : ℕ) (l : List ppl.Pset) → Unique ppl merging (allocate ppl merging next l)
  unfolding allocate
  allocate-Unique next [] = tt
  allocate-Unique next (s ∷ l) =
      ((λ h. omega (arith, allocate-At next (next + 1) l h)), allocate-Unique (next + 1) l)

  allocate-has :
      (next : ℕ) (l : List ppl.Pset) (p : Point)
      → Any (λ s. snd.Has s p) l
      → HasAny (allocate ppl merging next l) p
  unfolding allocate
  allocate-has next [] p h = elim h [ ]
  allocate-has next (s ∷ l) p (inl h) = inl h
  allocate-has next (s ∷ l) p (inr h) = inr (allocate-has (next + 1) l p h)

  first_pairs :
      (cells : Cells ppl merging) → 2 ≤ length cells → IsCons (insert_pairs ppl merging cells [])
  unfolding insert_pairs insert_from
  first_pairs [] h = omega (arith, h)
  first_pairs (c ∷ []) h = omega (arith, h)
  first_pairs (c ∷ d ∷ cells) h =
      insert_pairs-IsCons (d ∷ cells) _ (insert_from-IsCons c cells _ (insert_pair-IsCons _ []))

  -- With a positive maximum the loop of `MergeHeuristic` ends: it never reads an empty set of
  -- pairs, no assertion in it fails, it leaves at most the maximum of sets, and every point of
  -- the sets it is given is in one of those it leaves.
  pub merged_lem :
      (max_disjunctions : ℕ) (l : List ppl.Pset)
      → 1 ≤ max_disjunctions
      → (res : Cells ppl merging) × (merged ppl merging max_disjunctions l ≡ some res)
        × (length res ≤ max_disjunctions)
        × ((p : Point) → Any (λ s. snd.Has s p) l → HasAny res p)
  unfolding merged
  merged_lem m l pos_m =
      let cells = allocate ppl merging 0 l in
      let u = allocate-Unique 0 l in
      let ready : IsReady cells (insert_pairs ppl merging cells []) = record {
        unique = u;
        joins = insert_pairs-Joins cells cells [] (λ b h. h) u tt;
        some_pair = first_pairs cells;
      } in
      let loop = merge_loop_lem (length cells) m cells _ pos_m (omega arith) ready in
      (loop.0, loop.1, loop.2.0, λ p h. loop.2.1 p (allocate-has 0 l p h))

  add_all_keeps :
      (cells : Cells ppl merging) (q : ppl.Pps) (p : Point)
      → snd.HasPps q p
      → snd.HasPps (add_all ppl merging cells q) p
  unfolding add_all
  add_all_keeps [] q p h = h
  add_all_keeps (c ∷ cells) q p h = add_all_keeps cells _ p (snd.add_disjunct_old c.1 q p h)

  add_all_has :
      (cells : Cells ppl merging) (q : ppl.Pps) (p : Point)
      → HasAny cells p
      → snd.HasPps (add_all ppl merging cells q) p
  unfolding add_all
  add_all_has [] q p h = elim h [ ]
  add_all_has (c ∷ cells) q p (inl h) = add_all_keeps cells _ p (snd.add_disjunct_new c.1 q p h)
  add_all_has (c ∷ cells) q p (inr h) = add_all_has cells _ p h

  -- With a positive maximum `MergeHeuristic` returns, and the powerset it leaves has every point
  -- of the one it is given.
  pub merge_heuristic_sound :
      (max_disjunctions : ℕ) (equalities_only : Bool) (pp : ppl.Pps)
      → 1 ≤ max_disjunctions
      → (res : ppl.Pps) × (merge_heuristic ppl merging max_disjunctions equalities_only pp
          ≡ some res)
        × ((p : Point) → snd.HasPps pp p → snd.HasPps res p)
  unfolding merge_heuristic
  merge_heuristic_sound m eqs pp pos_m =
      let reduced = merging.omega_reduce pp in
      elim (Bool-cases (leb (length (ppl.disjuncts reduced)) (if eqs then 1 else m))) [
        | inl few ↦ (reduced, rw (few) refl, λ p h. lawful.omega_reduce_keeps pp p h)
        | inr many ↦
            let res = merged_lem m (ppl.disjuncts reduced) pos_m in
            (
              add_all ppl merging res.0 (merging.clear reduced),
              rw (many, res.1) refl,
              λ p h.
                  add_all_has res.0 _ p
                    (res.3 p (snd.disjuncts_cover reduced p (lawful.omega_reduce_keeps pp p h))),
            )
      ]
