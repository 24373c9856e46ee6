-- ===== src/Powerset/WrapOne.antt =====
-- The wrapping of a powerset with a single variable.
use sound_bit_precise_domain.Prelude.{
  ℕ, ◌<◌, ◌≡◌, refl, sym, subst, inl, inr, true, List, [], ◌∷◌, All, arith, Bool-cases, ok, guard,
  leb, ◌>>◌,
}
use sound_bit_precise_domain.Prelude.Int.{◌≤ℤ◌}
use sound_bit_precise_domain.Powerset.Ppl.{Ppl, IsSound, Point, Bound, Holds, Any}
use sound_bit_precise_domain.Powerset.WrapAssign.{
  Representation, Overflow, overflow_wraps, Step, full, keep, split, min_value, max_value, classify,
  wrap_list, full_range, wrap_variables, add_disjuncts, wrap_pointset_as_pointset_powerset,
  wrap_disjuncts, vars_dimension, wrap_assign_pointset_powerset,
}
use sound_bit_precise_domain.Powerset.WrapPieces.{
  quadrant_of, wrapped, wrapped_at, wrap_value_in_range, pieces_has, wrapped_in_range,
}
use sound_bit_precise_domain.Powerset.WrapSound.{Covers, classify-Covers}

module _ (ppl : Ppl) (snd : IsSound ppl) where
  add_disjuncts_keep :
      (w : ℕ) (r : Representation) (o : Overflow) (threshold : ℕ) (l : List ppl.Pset) (q : ppl.Pps)
      (p : Point)
      → snd.HasPps q p
      → snd.HasPps (add_disjuncts ppl w r o threshold l q) p
  unfolding add_disjuncts
  add_disjuncts_keep w r o threshold [] q p h = h
  add_disjuncts_keep w r o threshold (s ∷ l) q p h =
      add_disjuncts_keep w r o threshold l (ppl.add_disjunct s q) p (snd.add_disjunct_old s q p h)

  add_disjuncts_have :
      (w : ℕ) (r : Representation) (o : Overflow) (threshold : ℕ) (l : List ppl.Pset) (q : ppl.Pps)
      (p : Point)
      → Any (λ s. snd.Has s p) l
      → snd.HasPps (add_disjuncts ppl w r o threshold l q) p
  unfolding add_disjuncts
  add_disjuncts_have w r o threshold [] q p h = elim h [ ]
  add_disjuncts_have w r o threshold (s ∷ l) q p (inl here) =
      add_disjuncts_keep w r o threshold l (ppl.add_disjunct s q) p
        (snd.add_disjunct_new s q p here)
  add_disjuncts_have w r o threshold (s ∷ l) q p (inr there) =
      add_disjuncts_have w r o threshold l (ppl.add_disjunct s q) p there

  module _ (w : ℕ) (r : Representation) (w_pos : 0 < w) (threshold : ℕ) where
    -- The sets and bounds that wrapping leaves have the point between them.
    abbrev Kept : Point → List ppl.Pset × List Bound → Type 0
    Kept p ret = Any (λ s. snd.Has s p) ret.0 × All (λ b. Holds b p) ret.1

    wrapped-Holds :
        (x : ℕ) (p : Point)
        → All (λ b. Holds b (wrapped r w x p)) (full_range ppl w r overflow_wraps threshold x)
    wrapped-Holds x p =
        let range =
          subst (λ v. (min_value r w ≤ℤ v) × (v ≤ℤ max_value r w)) (sym (wrapped_at r w x p))
            (wrap_value_in_range r w (p x) w_pos) in
        (range.0, (range.1, tt))

    unconstrained :
        (x : ℕ) (s : ppl.Pset) (p : Point)
        → snd.Has s p
        → snd.Has (ppl.unconstrain x s) (wrapped r w x p)
    unfolding wrapped
    unconstrained x s p h = snd.unconstrain_free x s p _ h

    wrap_list_at :
        (x : ℕ) (s : ppl.Pset) (p : Point) (step : Step)
        → snd.Has s p
        → classify ppl w r overflow_wraps threshold x s ≡ step
        → Covers (quadrant_of r w (p x)) step
        → Kept (wrapped r w x p) (wrap_list ppl w r overflow_wraps threshold x [] (s ∷ []) [] [])
    unfolding wrap_list
    wrap_list_at x s p full h e c =
        rw (e, wrap_list) (inl (unconstrained x s p h), wrapped-Holds x p)
    wrap_list_at x s p (keep extra) h e c =
        rw (e, c.0, wrap_list) (inl (subst (snd.Has s) (sym (wrapped_in_range r w x p c.1)) h), tt)
    wrap_list_at x s p (split first n) h e c =
        rw (e, wrap_list)
          (pieces_has ppl snd w r w_pos overflow_wraps threshold x s p first n h c.0 c.1, tt)

    pointset_keeps :
        (x : ℕ) (s : ppl.Pset) (p : Point)
        → snd.Has s p
        → snd.HasPps
            (wrap_pointset_as_pointset_powerset ppl w r overflow_wraps threshold s (x ∷ []))
            (wrapped r w x p)
    unfolding wrap_pointset_as_pointset_powerset wrap_variables
    pointset_keeps x s p h =
        let k = wrap_list_at x s p _ h refl (classify-Covers ppl snd w r w_pos threshold x s p h) in
        snd.refine_all_keeps _ _ _ (add_disjuncts_have w r overflow_wraps threshold _ _ _ k.0) k.1

    -- The loop over the disjuncts keeps what the result has.
    wrap_disjuncts_keep :
        (l : List ppl.Pset) (vars : List ℕ) (result : ppl.Pps) (p : Point)
        → snd.HasPps result p
        → snd.HasPps (wrap_disjuncts ppl w r overflow_wraps threshold l vars result) p
    unfolding wrap_disjuncts
    wrap_disjuncts_keep [] vars result p h = h
    wrap_disjuncts_keep (s ∷ l) vars result p h =
        wrap_disjuncts_keep l vars _ p (snd.upper_bound_left _ _ p h)

    wrap_disjuncts_have :
        (l : List ppl.Pset) (x : ℕ) (result : ppl.Pps) (p : Point)
        → Any (λ s. snd.Has s p) l
        → snd.HasPps
            (wrap_disjuncts ppl w r overflow_wraps threshold l (x ∷ []) result)
            (wrapped r w x p)
    unfolding wrap_disjuncts
    wrap_disjuncts_have [] x result p h = elim h [ ]
    wrap_disjuncts_have (s ∷ l) x result p (inl here) =
        wrap_disjuncts_keep l (x ∷ []) _ _ (snd.upper_bound_right _ _ _ (pointset_keeps x s p here))
    wrap_disjuncts_have (s ∷ l) x result p (inr there) = wrap_disjuncts_have l x _ p there

    fits : (x n : ℕ) → x < n → leb (vars_dimension (x ∷ [])) n ≡ true
    unfolding vars_dimension
    fits x n h = ground arith

    -- With the library's operations sound, wrapping one variable whose dimension the powerset
    -- has, to a type of at least one bit, returns a powerset that has the wrapped image of each
    -- of its points: the value of the variable, brought into the range of the w-bit type by a
    -- multiple of 2 ^ w.
    pub wrap_one_variable :
        (q : ppl.Pps) (x : ℕ)
        → x < ppl.pps_dimension q
        → (res : ppl.Pps) × (wrap_assign_pointset_powerset ppl w r overflow_wraps threshold q
              (x ∷ [])
            ≡ ok res)
          × ((p : Point) → snd.HasPps q p → snd.HasPps res (wrapped r w x p))
    unfolding wrap_assign_pointset_powerset
    wrap_one_variable q x h = elim (Bool-cases (ppl.is_empty q)) [
      | inl none_left ↦ (
        q,
        rw (fits x _ h, none_left, ◌>>◌, guard) refl,
        λ p has. absurd (snd.is_empty_none q p none_left has),
      )
      | inr points ↦ (
        wrap_disjuncts ppl w r overflow_wraps threshold (ppl.disjuncts q) (x ∷ [])
            (ppl.empty (ppl.pps_dimension q)),
        rw (fits x _ h, points, ◌>>◌, guard) refl,
        λ p has. wrap_disjuncts_have (ppl.disjuncts q) x _ p (snd.disjuncts_cover q p has),
      )
    ]
