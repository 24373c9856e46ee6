-- ===== src/Container/SortedSet/Cut.antt =====
-- What `std::set_intersection` and `std::set_difference` keep, on sorted ranges.
use sound_bit_precise_domain.Prelude.{
  ◌≡◌, refl, ◌∙◌, Bool, true, false, not, ◌&&◌, ◌||◌, List, [], ◌∷◌, arith, inl, inr, Bool-cases,
}
use sound_bit_precise_domain.Container.{Ord, eqb, eq_of_eqb, Above, IsSorted, Above-trans}
use sound_bit_precise_domain.Container.SortedSet.{
  contains, intersection, difference, contains-Above_self,
}

-- Boolean algebra for a head that one side lacks.
cut_left : (e c d : Bool) → (e ≡ true → d ≡ false) → (c && d) ≡ ((e || c) && d)
cut_left e c d h = ground arith

cut_right : (e c d : Bool) → (e ≡ true → c ≡ false) → (c && d) ≡ (c && (e || d))
cut_right e c d h = ground arith

cut_both : (e c d : Bool) → (e || (c && d)) ≡ ((e || c) && (e || d))
cut_both e c d = ground arith

drop_left : (e c d : Bool) → (e ≡ true → d ≡ false) → (e || (c && not d)) ≡ ((e || c) && not d)
drop_left e c d h = ground arith

drop_right : (e c d : Bool) → (e ≡ true → c ≡ false) → (c && not d) ≡ (c && not (e || d))
drop_right e c d h = ground arith

drop_both : (e c d : Bool) → (e ≡ true → c ≡ false) → (c && not d) ≡ ((e || c) && not (e || d))
drop_both e c d h = ground arith

module _ {ℓ} {K : Type ℓ} ⦃o : Ord K⦄ where
  -- A key equal to one below the whole list is not in the list.
  absent_below : (k a : K) (l : List K) → Above a l → eqb k a ≡ true → contains k l ≡ false
  absent_below k a l u e = rw (eq_of_eqb k a e) (contains-Above_self a l u)

  absent_below_head :
      (k a b : K) (l : List K)
      → o.lt a b ≡ true
      → Above b l
      → eqb k a ≡ true
      → contains k (b ∷ l) ≡ false
  absent_below_head k a b l h u e = absent_below k a (b ∷ l) (h, Above-trans a b l h u) e

  pub contains-intersection :
      (k : K) (l m : List K)
      → IsSorted l
      → IsSorted m
      → contains k (intersection l m) ≡ (contains k l && contains k m)
  unfolding contains intersection
  contains-intersection k [] m s t = refl
  contains-intersection k (a ∷ l) [] s t = ground arith
  contains-intersection k (a ∷ l) (b ∷ m) s t = elim (Bool-cases (o.lt a b)) [
    | inl below ↦ rw below (
        contains-intersection k l (b ∷ m) s.1 t
        ∙ cut_left (eqb k a) _ _ (absent_below_head k a b m below t.0))
    | inr level ↦ rw level (elim (Bool-cases (o.lt b a)) [
      | inl above ↦ rw above (
          contains-intersection k (a ∷ l) m s t.1
          ∙ cut_right (eqb k b) _ _ (absent_below_head k b a l above s.0))
      | inr same ↦ rw same (
          rw (contains-intersection k l m s.1 t.1)
            (rw (← o.total a b level same) (cut_both (eqb k a) _ _)))
    ])
  ]

  pub contains-difference :
      (k : K) (l m : List K)
      → IsSorted l
      → IsSorted m
      → contains k (difference l m) ≡ (contains k l && not (contains k m))
  unfolding contains difference
  contains-difference k [] m s t = refl
  contains-difference k (a ∷ l) [] s t = ground arith
  contains-difference k (a ∷ l) (b ∷ m) s t = elim (Bool-cases (o.lt a b)) [
    | inl below ↦ rw below (
        rw (contains-difference k l (b ∷ m) s.1 t)
          (drop_left (eqb k a) _ _ (absent_below_head k a b m below t.0)))
    | inr level ↦ rw level (elim (Bool-cases (o.lt b a)) [
      | inl above ↦ rw above (
          contains-difference k (a ∷ l) m s t.1
          ∙ drop_right (eqb k b) _ _ (absent_below_head k b a l above s.0))
      | inr same ↦ rw same (
          contains-difference k l m s.1 t.1
          ∙ rw (← o.total a b level same) (drop_both (eqb k a) _ _ (absent_below k a l s.0)))
    ])
  ]

  Above-intersection : (a : K) (l m : List K) → Above a l → Above a (intersection l m)
  unfolding intersection
  Above-intersection a [] m u = tt
  Above-intersection a (b ∷ l) [] u = tt
  Above-intersection a (b ∷ l) (c ∷ m) u = ground (
    arith,
    Above-intersection a l (c ∷ m) u.1,
    Above-intersection a (b ∷ l) m u,
    Above-intersection a l m u.1,
  )

  pub intersection-IsSorted : (l m : List K) → IsSorted l → IsSorted (intersection l m)
  unfolding intersection
  intersection-IsSorted [] m s = tt
  intersection-IsSorted (a ∷ l) [] s = tt
  intersection-IsSorted (a ∷ l) (b ∷ m) s = ground (
    arith,
    intersection-IsSorted l (b ∷ m) s.1,
    intersection-IsSorted (a ∷ l) m s,
    intersection-IsSorted l m s.1,
    Above-intersection a l m s.0,
  )

  Above-difference : (a : K) (l m : List K) → Above a l → Above a (difference l m)
  unfolding difference
  Above-difference a [] m u = tt
  Above-difference a (b ∷ l) [] u = u
  Above-difference a (b ∷ l) (c ∷ m) u = ground (
    arith,
    Above-difference a l (c ∷ m) u.1,
    Above-difference a (b ∷ l) m u,
    Above-difference a l m u.1,
  )

  pub difference-IsSorted : (l m : List K) → IsSorted l → IsSorted (difference l m)
  unfolding difference
  difference-IsSorted [] m s = tt
  difference-IsSorted (a ∷ l) [] s = s
  difference-IsSorted (a ∷ l) (b ∷ m) s = ground (
    arith,
    difference-IsSorted l (b ∷ m) s.1,
    difference-IsSorted (a ∷ l) m s,
    difference-IsSorted l m s.1,
    Above-difference a l (b ∷ m) s.0,
  )
