-- ===== src/Container.antt =====
-- The C++ standard library's `std::set` and `std::map` as the source uses them: lists kept in
-- strictly increasing order of a comparison `<`. Keys are the same where neither is below the
-- other.
pub mod SortedSet
pub mod SortedMap
use sound_bit_precise_domain.Prelude.{
  ◌≡◌, refl, Bool, true, false, not, ◌&&◌, List, [], ◌∷◌, All, arith,
}

pub record IsOrder {ℓ} {K : Type ℓ} (lt : K → K → Bool) : Type ℓ where
  pub irrefl : (a : K) → lt a a ≡ false
  pub trans : (a b c : K) → lt a b ≡ true → lt b c ≡ true → lt a c ≡ true
  pub total : (a b : K) → lt a b ≡ false → lt b a ≡ false → a ≡ b

pub record Ord {ℓ} (K : Type ℓ) : Type ℓ where
  pub lt : K → K → Bool
  pub order : IsOrder lt
  pub open order use *

module _ {ℓ} {K : Type ℓ} ⦃o : Ord K⦄ where
  -- The equivalence of keys that `std::set` and `std::map` use.
  abbrev pub eqb : K → K → Bool
  eqb a b = not (o.lt a b) && not (o.lt b a)

  pub eqb_refl : (a : K) → eqb a a ≡ true
  eqb_refl a = ground (arith, o.irrefl a)

  pub eq_of_eqb : (a b : K) → eqb a b ≡ true → a ≡ b
  eq_of_eqb a b h = ground (arith, o.total a b)

  pub eqb_of_lt : (a b : K) → o.lt a b ≡ true → eqb a b ≡ false
  eqb_of_lt a b h = ground arith

  pub eqb_of_gt : (a b : K) → o.lt b a ≡ true → eqb a b ≡ false
  eqb_of_gt a b h = ground arith

  pub not-lt_of_gt : (a b : K) → o.lt b a ≡ true → o.lt a b ≡ false
  not-lt_of_gt a b h = ground (arith, o.irrefl a, o.trans a b a)

  -- Every element of the list is above `a`.
  abbrev pub Above : K → List K → Type 0
  Above a l = All (λ b. o.lt a b ≡ true) l

  abbrev pub IsSorted : List K → Type 0
  IsSorted [] = Unit
  IsSorted (a ∷ l) = Above a l × IsSorted l

  pub Above-trans : (a b : K) (l : List K) → o.lt a b ≡ true → Above b l → Above a l
  Above-trans a b [] h u = tt
  Above-trans a b (c ∷ l) h u = (o.trans a b c h u.0, Above-trans a b l h u.1)
