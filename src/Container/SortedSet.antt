-- ===== src/Container/SortedSet.antt =====
-- `std::set`, and `std::set_union`, `std::set_intersection` and `std::set_difference` on the
-- sorted ranges of two sets.
pub mod Cut
pub mod Extensional
use sound_bit_precise_domain.Prelude.{
  ◌≡◌, refl, sym, Bool, true, false, ◌||◌, List, [], ◌∷◌, arith, if◌then◌else◌, inl, inr,
  Bool-cases, or_assoc, or_left_comm, or_share,
}
use sound_bit_precise_domain.Container.{Ord, eqb, Above, IsSorted, Above-trans}

module _ {ℓ} {K : Type ℓ} ⦃o : Ord K⦄ where
  unfoldable pub contains : K → List K → Bool
  contains k [] = false
  contains k (a ∷ l) = eqb k a || contains k l

  unfoldable pub insert : K → List K → List K
  insert k [] = k ∷ []
  insert k (a ∷ l) = if o.lt k a then k ∷ a ∷ l else if o.lt a k then a ∷ insert k l else a ∷ l

  -- The merges look at the two heads and drop the smaller one, or both.
  unfoldable pub union : List K → List K → List K
  union [] m = m
  union (a ∷ l) [] = a ∷ l
  union (a ∷ l) (b ∷ m) =
      let first = a ∷ union l (b ∷ m) in
      let second = b ∷ union (a ∷ l) m in
      let both = a ∷ union l m in if o.lt a b then first else if o.lt b a then second else both

  unfoldable pub intersection : List K → List K → List K
  intersection [] m = []
  intersection (a ∷ l) [] = []
  intersection (a ∷ l) (b ∷ m) =
      let first = intersection l (b ∷ m) in
      let second = intersection (a ∷ l) m in
      let both = a ∷ intersection l m in
      if o.lt a b then first else if o.lt b a then second else both

  unfoldable pub difference : List K → List K → List K
  difference [] m = []
  difference (a ∷ l) [] = a ∷ l
  difference (a ∷ l) (b ∷ m) =
      let first = a ∷ difference l (b ∷ m) in
      let second = difference (a ∷ l) m in
      let both = difference l m in if o.lt a b then first else if o.lt b a then second else both

  pub contains-Above : (k a : K) (l : List K) → Above a l → o.lt k a ≡ true → contains k l ≡ false
  unfolding contains
  contains-Above k a [] u h = refl
  contains-Above k a (b ∷ l) u h = ground (arith, o.trans k a b h u.0, contains-Above k a l u.1 h)

  pub contains-Above_self : (a : K) (l : List K) → Above a l → contains a l ≡ false
  unfolding contains
  contains-Above_self a [] u = refl
  contains-Above_self a (b ∷ l) u = ground (arith, contains-Above_self a l u.1)

  -- Keys that are the same are the same for `contains`.
  pub contains-insert : (k j : K) (l : List K) → contains k (insert j l) ≡ (eqb k j || contains k l)
  unfolding contains insert
  contains-insert k j [] = refl
  contains-insert k j (a ∷ l) = ground (arith, contains-insert k j l, o.total j a)

  pub contains-union :
      (k : K) (l m : List K) → contains k (union l m) ≡ (contains k l || contains k m)
  unfolding contains union
  contains-union k [] m = refl
  contains-union k (a ∷ l) [] = ground arith
  contains-union k (a ∷ l) (b ∷ m) = elim (Bool-cases (o.lt a b)) [
    | inl below ↦
        rw below (rw (contains-union k l (b ∷ m)) (sym (or_assoc (eqb k a) (contains k l) _)))
    | inr level ↦ rw level (elim (Bool-cases (o.lt b a)) [
      | inl above ↦ rw above (
          rw (contains-union k (a ∷ l) m)
            (or_left_comm (eqb k b) (contains k (a ∷ l)) (contains k m)))
      | inr same ↦ rw same (
          rw (contains-union k l m)
            (rw (← o.total a b level same) (or_share (eqb k a) (contains k l) (contains k m))))
    ])
  ]

  pub Above-insert : (a k : K) (l : List K) → o.lt a k ≡ true → Above a l → Above a (insert k l)
  unfolding insert
  Above-insert a k [] h u = (h, tt)
  Above-insert a k (b ∷ l) h u = ground (arith, Above-insert a k l h u.1)

  pub insert-IsSorted : (k : K) (l : List K) → IsSorted l → IsSorted (insert k l)
  unfolding insert
  insert-IsSorted k [] s = (tt, tt)
  insert-IsSorted k (a ∷ l) s =
      ground (arith, insert-IsSorted k l s.1, Above-insert a k l, Above-trans k a l)

  Above-union : (a : K) (l m : List K) → Above a l → Above a m → Above a (union l m)
  unfolding union
  Above-union a [] m u v = v
  Above-union a (b ∷ l) [] u v = u
  Above-union a (b ∷ l) (c ∷ m) u v = ground (
    arith,
    Above-union a l (c ∷ m) u.1 v,
    Above-union a (b ∷ l) m u v.1,
    Above-union a l m u.1 v.1,
  )

  pub union-IsSorted : (l m : List K) → IsSorted l → IsSorted m → IsSorted (union l m)
  unfolding union
  union-IsSorted [] m s t = t
  union-IsSorted (a ∷ l) [] s t = s
  union-IsSorted (a ∷ l) (b ∷ m) s t = elim (Bool-cases (o.lt a b)) [
    | inl below ↦ rw below (
      Above-union a l (b ∷ m) s.0 (below, Above-trans a b m below t.0),
      union-IsSorted l (b ∷ m) s.1 t,
    )
    | inr level ↦ rw level (elim (Bool-cases (o.lt b a)) [
      | inl above ↦ rw above (
        Above-union b (a ∷ l) m (above, Above-trans b a l above s.0) t.0,
        union-IsSorted (a ∷ l) m s t.1,
      )
      | inr same ↦
          rw same
            (Above-union a l m s.0 (rw (o.total a b level same) t.0), union-IsSorted l m s.1 t.1)
    ])
  ]
