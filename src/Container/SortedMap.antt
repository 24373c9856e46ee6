-- ===== src/Container/SortedMap.antt =====
-- `std::map` as its entries in increasing order of the keys.
pub mod Extensional
use sound_bit_precise_domain.Prelude.{
  ◌≡◌, refl, Bool, true, false, Option, none, some, List, [], ◌∷◌, arith, if◌then◌else◌,
}
use sound_bit_precise_domain.Container.{Ord, eqb, eq_of_eqb, Above, IsSorted, Above-trans}

module _ {ℓ κ} {K : Type ℓ} {V : Type κ} where
  abbrev pub keys : List (K × V) → List K
  keys [] = []
  keys ((k, v) ∷ m) = k ∷ keys m

-- A value that is there wins over the one that is inserted.
abbrev pub first {ℓ} : {V : Type ℓ} → Option V → Option V → Option V
first none r = r
first (some v) r = some v

-- What a key reads where `k` was given the value `w` and had the value `old`.
abbrev pub at_key {ℓ} : {V : Type ℓ} → Bool → Option V → Option V → Option V
at_key true new old = new
at_key false new old = old

module _ {ℓ κ} {K : Type ℓ} {V : Type κ} ⦃o : Ord K⦄ where
  abbrev pub IsMap : List (K × V) → Type 0
  IsMap m = IsSorted (keys m)

  unfoldable pub find : K → List (K × V) → Option V
  find k [] = none
  find k ((j, v) ∷ m) = if eqb k j then some v else find k m

  -- `insert` keeps the value of a key that is there.
  unfoldable pub insert : K → V → List (K × V) → List (K × V)
  insert k w [] = (k, w) ∷ []
  insert k w ((j, v) ∷ m) =
      if o.lt k j
      then (k, w) ∷ (j, v) ∷ m
      else if o.lt j k
      then (j, v) ∷ insert k w m
      else (j, v) ∷ m

  -- `m[k] = w`.
  unfoldable pub assign : K → V → List (K × V) → List (K × V)
  assign k w [] = (k, w) ∷ []
  assign k w ((j, v) ∷ m) =
      if o.lt k j
      then (k, w) ∷ (j, v) ∷ m
      else if o.lt j k
      then (j, v) ∷ assign k w m
      else (j, w) ∷ m

  pub find-Above :
      (k a : K) (m : List (K × V)) → Above a (keys m) → o.lt k a ≡ true → find k m ≡ none
  unfolding find
  find-Above k a [] u h = refl
  find-Above k a ((j, v) ∷ m) u h = ground (arith, o.trans k a j h u.0, find-Above k a m u.1 h)

  pub find-Above_self : (a : K) (m : List (K × V)) → Above a (keys m) → find a m ≡ none
  unfolding find
  find-Above_self a [] u = refl
  find-Above_self a ((j, v) ∷ m) u = ground (arith, find-Above_self a m u.1)

  pub find-insert :
      (q k : K) (w : V) (m : List (K × V))
      → IsMap m
      → find q (insert k w m) ≡ first (find q m) (at_key (eqb q k) (some w) none)
  unfolding find insert
  find-insert q k w [] s = ground arith
  find-insert q k w ((j, v) ∷ m) s = ground (
    arith,
    find-insert q k w m s.1,
    o.total k j,
    eq_of_eqb q k,
    find-Above k j m s.0,
    o.trans k j k,
    o.irrefl k,
  )

  pub find-assign :
      (q k : K) (w : V) (m : List (K × V))
      → IsMap m
      → find q (assign k w m) ≡ at_key (eqb q k) (some w) (find q m)
  unfolding find assign
  find-assign q k w [] s = ground arith
  find-assign q k w ((j, v) ∷ m) s =
      ground (arith, find-assign q k w m s.1, o.total k j, eq_of_eqb q k, eq_of_eqb q j, o.irrefl j)

  Above-insert :
      (a k : K) (w : V) (m : List (K × V))
      → o.lt a k ≡ true
      → Above a (keys m)
      → Above a (keys (insert k w m))
  unfolding insert
  Above-insert a k w [] h u = (h, tt)
  Above-insert a k w ((j, v) ∷ m) h u = ground (arith, Above-insert a k w m h u.1)

  pub insert-IsMap : (k : K) (w : V) (m : List (K × V)) → IsMap m → IsMap (insert k w m)
  unfolding insert
  insert-IsMap k w [] s = (tt, tt)
  insert-IsMap k w ((j, v) ∷ m) s =
      ground (arith, insert-IsMap k w m s.1, Above-insert j k w m, Above-trans k j (keys m))

  Above-assign :
      (a k : K) (w : V) (m : List (K × V))
      → o.lt a k ≡ true
      → Above a (keys m)
      → Above a (keys (assign k w m))
  unfolding assign
  Above-assign a k w [] h u = (h, tt)
  Above-assign a k w ((j, v) ∷ m) h u = ground (arith, Above-assign a k w m h u.1)

  pub assign-IsMap : (k : K) (w : V) (m : List (K × V)) → IsMap m → IsMap (assign k w m)
  unfolding assign
  assign-IsMap k w [] s = (tt, tt)
  assign-IsMap k w ((j, v) ∷ m) s =
      ground (arith, assign-IsMap k w m s.1, Above-assign j k w m, Above-trans k j (keys m))
